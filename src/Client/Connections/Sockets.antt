-- ===== src/Client/Connections/Sockets.antt =====
-- What becomes of the worker sockets: `connectWorker` and `disconnectWorker` of
-- src/icefarm/client/lib/EventServer.py, and `removeSerial` of BaseClient.py.
use i_cefarm.Prelude.{
  ◌≡◌, String, Bool, false, none, some, List, [], ◌∷◌, arith, if◌then◌else◌, string_key, ◌==◌,
  ==_iff,
}
use i_cefarm.Dict.{get, get-put, get-remove}
use i_cefarm.Client.Connections.{
  Client, ConnectionInfo, connect_worker, disconnect_worker, remove_serial,
}

-- A change of the sockets; a connection with whether a new socket connects.
pub data Change : Type 0 where
  connects : Bool → String → Change
  disconnects : String → Change

module _ {D : Type 0} where
  unfoldable pub change : List Change → Client D → Client D
  change [] c = c
  change (connects works url ∷ changes) c = change changes (connect_worker works url c)
  change (disconnects url ∷ changes) c = change changes (disconnect_worker url c)

  connect_worker-dead :
      (works : Bool) (url other : String) (c : Client D)
      → get url c.worker_sockets ≡ some false
      → get url (connect_worker works other c).worker_sockets ≡ some false
  unfolding connect_worker
  connect_worker-dead works url other c dead =
      ground (arith, get-put other url works c.worker_sockets, ==_iff other url)

  disconnect_worker-dead :
      (url other : String) (c : Client D)
      → get url c.worker_sockets ≡ some false
      → get url (disconnect_worker other c).worker_sockets ≡ some false
  unfolding disconnect_worker
  disconnect_worker-dead url other c dead =
      ground (arith, get-remove other url c.worker_sockets, ==_iff other url)

  -- Once an attempt to connect to a worker has failed, no later connection or disconnection, to it or to
  -- another worker, gives it a socket.
  change-dead :
      (changes : List Change) (url : String) (c : Client D)
      → get url c.worker_sockets ≡ some false
      → get url (change changes c).worker_sockets ≡ some false
  unfolding change
  change-dead [] url c dead = dead
  change-dead (connects works other ∷ changes) url c dead =
      change-dead changes url (connect_worker works other c)
        (connect_worker-dead works url other c dead)
  change-dead (disconnects other ∷ changes) url c dead =
      change-dead changes url (disconnect_worker other c) (disconnect_worker-dead url other c dead)

  remove_serial-info :
      (url : ConnectionInfo → String) (serial other : String) (c : Client D)
      → get other (remove_serial url serial c).connection_info
        ≡ (if serial == other then none else get other c.connection_info)
  unfolding remove_serial disconnect_worker
  remove_serial-info url serial other c = ground (arith, get-remove serial other c.connection_info)
