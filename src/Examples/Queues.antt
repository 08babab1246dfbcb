-- ===== src/Examples/Queues.antt =====
-- The `Queue` of src/icefarm/utils/utils.py under small schedules.
use i_cefarm.Prelude.{ℕ, ◌≡◌, refl, List, [], ◌∷◌, ◌++◌}
use i_cefarm.Utils.Queue.{Queue, init}
use i_cefarm.Utils.Queue.Laws.{Call, puts, pops, shuts, step, run, run-fifo}

abbrev schedule : List (Call ℕ)
schedule = pops ∷ puts (3 ∷ 4 ∷ []) ∷ pops ∷ shuts ∷ puts (5 ∷ []) ∷ []

abbrev two : Queue ℕ
two = init (1 ∷ 2 ∷ [])

taken : (run schedule two).0.out ≡ 1 ∷ 2 ∷ 3 ∷ 4 ∷ []
unfolding run step init
taken = refl

run-fifo_example :
    (run schedule two).0.out ++ (run schedule two).1.contents
    ≡ two.contents ++ (run schedule two).0.accepted
run-fifo_example = run-fifo schedule two
