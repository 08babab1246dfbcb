-- ===== src/Utils/Session/Held.antt =====
-- No message of a session is lost or doubled, whatever order they go out in: `Session` of src/icefarm/utils/EventSender.py.
use i_cefarm.Prelude.{
  ℕ, suc, ◌+◌, ◌≡◌, String, Bool, some, List, [], ◌∷◌, ◌++◌, arith, count, count-append,
}
use i_cefarm.Utils.Session.{
  Session, emit_all, flush, send, set_socket, remove_socket, stop_timeout, start_timeout,
}

-- What happens to a session.
pub data Call (M : Type 0) : Type 0 where
  sends : M → Call M
  connects : String → Call M
  disconnects : Call M

-- A schedule of calls, each with the failures of its emits.
abbrev pub Schedule : Type 0 → Type 0
Schedule M = List ((ℕ → Bool) × Call M)

module _ {M : Type 0} where
  unfoldable pub run : Schedule M → Session M → Session M
  run [] s = s
  run ((raises, sends contents) ∷ calls) s = run calls (send raises contents s)
  run ((raises, connects sock_id) ∷ calls) s = run calls (set_socket raises sock_id s)
  run ((raises, disconnects) ∷ calls) s = run calls (remove_socket s)

  abbrev pub sent : Schedule M → List M
  sent [] = []
  sent ((raises, sends contents) ∷ calls) = contents ∷ sent calls
  sent ((raises, connects sock_id) ∷ calls) = sent calls
  sent ((raises, disconnects) ∷ calls) = sent calls

  abbrev pub held : (M → Bool) → Session M → ℕ
  held test s = count test s.emitted + count test s.message_queue

  held-emit_all :
      (test : M → Bool) (raises : ℕ → Bool) (n : ℕ) (waiting : List M) (s : Session M)
      → held test (emit_all raises n waiting s) ≡ held test s + count test waiting
  unfolding emit_all
  held-emit_all test raises n [] s = omega arith
  held-emit_all test raises n (message ∷ waiting) s = ground (
    arith,
    held-emit_all test raises (suc n) waiting
        (record s { message_queue = s.message_queue ++ message ∷ [] }),
    held-emit_all test raises (suc n) waiting (record s { emitted = s.emitted ++ message ∷ [] }),
    count-append test s.message_queue (message ∷ []),
    count-append test s.emitted (message ∷ []),
  )

  held-flush :
      (test : M → Bool) (raises : ℕ → Bool) (s : Session M)
      → held test (flush raises s) ≡ held test s
  unfolding flush
  held-flush test raises s =
      ground (arith, held-emit_all test raises 0 s.message_queue (record s { message_queue = [] }))

  -- Under every schedule of sends, connections and disconnections, and whichever emits raise, each message
  -- is emitted or waits as often as it was held or sent.
  pub held-run :
      (test : M → Bool) (calls : Schedule M) (s : Session M)
      → held test (run calls s) ≡ held test s + count test (sent calls)
  unfolding run send set_socket remove_socket stop_timeout start_timeout
  held-run test [] s = omega arith
  held-run test ((raises, sends contents) ∷ calls) s =
      let s' = record s { message_queue = s.message_queue ++ contents ∷ [] } in
      omega (
        arith,
        held-run test calls (flush raises s'),
        held-flush test raises s',
        count-append test s.message_queue (contents ∷ []),
      )
  held-run test ((raises, connects sock_id) ∷ calls) s =
      let s' = stop_timeout (record s { sock_id = some sock_id }) in
      omega (arith, held-run test calls (flush raises s'), held-flush test raises s')
  held-run test ((raises, disconnects) ∷ calls) s = held-run test calls (remove_socket s)
