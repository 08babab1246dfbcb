-- ===== src/Utils/Session.antt =====
-- `Session` of src/icefarm/utils/EventSender.py: the messages for one client, held back while it has no
-- socket. The lock makes each access to the queue one step; a flush is one pass over what it took out of
-- the queue. What `socketio.emit` does is an argument: whether it raises for the n-th message of the pass.
pub mod Held
pub mod Table
pub mod Sockets
use i_cefarm.Prelude.{
  ℕ, suc, ◌+◌, String, Bool, true, false, Option, none, some, List, [], ◌∷◌, ◌++◌, if◌then◌else◌,
  string_key, nat_key, ◌==◌, ◌-◌, discard,
}

pub record Session (M : Type 0) : Type 0 where
  pub client_id : String
  pub sock_id : Option String
  pub message_queue : List M
  -- The timers that will end the session, by number: how many were started, and which still run. The
  -- field `timeout` holds the last one started.
  pub started : ℕ
  pub running : List ℕ
  -- What the socket was given, in order.
  pub emitted : List M

unfoldable pub start_timeout : {M : Type 0} → Session M → Session M
start_timeout s = record s { started = suc s.started; running = s.started ∷ s.running }

-- Only the last timer that was started is cancelled.
unfoldable pub stop_timeout : {M : Type 0} → Session M → Session M
stop_timeout s = record s { running = discard (s.started - 1) s.running }

unfoldable pub init : {M : Type 0} → String → Session M
unfolding start_timeout
init client_id = start_timeout (record {
  client_id = client_id;
  sock_id = none;
  message_queue = [];
  started = 0;
  running = [];
  emitted = [];
})

-- `not self.sock_id`: no socket, or one whose id is empty.
unfoldable pub has_socket : {M : Type 0} → Session M → Bool
has_socket s = elim s.sock_id [
  | none ↦ false
  | some sock_id ↦ if sock_id == "" then false else true
]

-- The loop of `flush`: a message that is not emitted goes to the end of the queue.
unfoldable pub emit_all : {M : Type 0} → (ℕ → Bool) → ℕ → List M → Session M → Session M
emit_all raises n [] s = s
emit_all raises n (message ∷ messages) s = emit_all raises (suc n) messages (
    if raises n
    then record s { message_queue = s.message_queue ++ message ∷ [] }
    else record s { emitted = s.emitted ++ message ∷ [] })

unfoldable pub flush : {M : Type 0} → (ℕ → Bool) → Session M → Session M
flush raises s =
    if has_socket s then emit_all raises 0 s.message_queue (record s { message_queue = [] }) else s

unfoldable pub send : {M : Type 0} → (ℕ → Bool) → M → Session M → Session M
send raises message s = flush raises (record s { message_queue = s.message_queue ++ message ∷ [] })

unfoldable pub set_socket : {M : Type 0} → (ℕ → Bool) → String → Session M → Session M
unfolding stop_timeout
set_socket raises sock_id s = flush raises (stop_timeout (record s { sock_id = some sock_id }))

unfoldable pub remove_socket : {M : Type 0} → Session M → Session M
unfolding start_timeout
remove_socket s = start_timeout (record s { sock_id = none })
