-- ===== src/Examples/Factories.antt =====
-- The batch factories of src/icefarm/client/lib/BatchClient.py at small inputs.
use i_cefarm.Prelude.{List, contains, true, ℕ, ◌<◌, ◌≡◌, refl, [], ◌∷◌, arith, string_key}
use i_cefarm.Dict.{get, put}
use i_cefarm.Client.Evaluation.{Evaluation, Serials}
use i_cefarm.Client.Bundle
use i_cefarm.Client.Bundle.{Batch}
use i_cefarm.Client.Factory.{
  answer, Factory, newly_expired, watch, init, awaited, add_batch, await_batch, await_group,
  await_serial, process_results,
}
use i_cefarm.Client.Factory.Expired.{watch_fails}
use i_cefarm.Client.Factory.Accounted.{Event, Run}
use i_cefarm.Client.Factory.Idle.{add_batch-expires}
use i_cefarm.Client.Factory.Owed.{owed}
use i_cefarm.Client.Factory.Moves.{Move, draws, offers, answers, collects, moves, start}
use i_cefarm.Client.Factory.Balance.Runs.{moves-lt}

abbrev device : Serials
device = record { first = "A"; others = [] }

abbrev one : Evaluation
one = record { serials = device; id = "1"; filepath = "circuit.asc" }

abbrev one_batch : Batch
one_batch = (device, one ∷ []) ∷ []

abbrev fresh : Factory ℕ
fresh = init (one ∷ []) 5 30

awaiting_one : awaited "A" (add_batch 100 one_batch fresh) ≡ "1" ∷ []
unfolding init add_batch await_batch await_group await_serial process_results get put
awaiting_one = refl

-- With at most two batches of five aimed at, the device never owes fifteen evaluations.
abbrev turns : List (Move ℕ)
turns = draws ∷ offers 100 ∷ answers 101 ("A", "1", answer 42) ∷ collects ∷ []

moves-lt_example : owed "A" (moves 2 turns (start (one ∷ []) 5 30)).run.factory < 15
moves-lt_example = moves-lt (one ∷ []) 5 30 2 turns "A" (omega arith) (omega arith) ((refl, tt), tt)

-- Device A was awaited at time 10 and has been silent; the reboot at 100 does not bring it back.
abbrev overdue : Factory ℕ
overdue = record fresh {
  awaiting_results = ("A", "1" ∷ []) ∷ [];
  serial_last_result = ("A", 10) ∷ [];
}

watch_fails_example :
    let (marked, failed) = watch (λ serials. serials) 100 overdue in
    contains "A" (process_results 101 failed marked).broken_serials ≡ true
unfolding init newly_expired get
watch_fails_example = (watch_fails (λ serials. serials) 100 101 "A" overdue).0

-- Device A answered at time 10 and owes nothing at time 100.
abbrev idle : Factory ℕ
idle = record fresh { awaiting_results = ("A", []) ∷ []; serial_last_result = ("A", 10) ∷ [] }

add_batch-expires_example : contains "A" (newly_expired 100 (add_batch 100 one_batch idle)) ≡ true
unfolding init get
add_batch-expires_example = add_batch-expires 100 "A" one_batch idle refl refl (omega arith) refl

-- The batch is sent, the watchdog runs, an answer comes that nobody awaits, the watchdog reports, and the consumer
-- collects.
abbrev events : List (Event ℕ)
events =
    Event.watches (λ serials. serials) 200
    ∷ Event.answers 201 ("B", "7", answer 42)
    ∷ Event.reports 202
    ∷ Event.collects
    ∷ []

abbrev begun : Run ℕ
begun = record { factory = fresh; failed = []; collected = [] }
