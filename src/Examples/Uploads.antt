-- ===== src/Examples/Uploads.antt =====
-- UploadState.py of src/icefarm/worker/device/state/core at small inputs.
use i_cefarm.Prelude.{ℕ, ◌≡◌, refl, true, some, List, [], ◌∷◌, arith}
use i_cefarm.Utils.Queue
use i_cefarm.Utils.Queue.{Queue}
use i_cefarm.Worker.Upload.{Bitstream, Upload, init, run_round, answered}
use i_cefarm.Worker.Upload.Conserved.{tally, tally-run_round}
use i_cefarm.Worker.Upload.Chunks.{concat}
use i_cefarm.Worker.Reader.{Text, codes, read, cut_line, after_prefix}
use i_cefarm.Worker.Reader.Lines.{read-concat}

abbrev circuit : Bitstream
circuit = record { location = "media/1"; name = "c1"; batch_id = "b" }

abbrev loaded : Upload ℕ
loaded = record (init 0 10 25 []) { bitstream_queue = Queue.init (circuit ∷ []) }

loaded_once : tally "b" "c1" loaded ≡ 1
unfolding init Queue.init
loaded_once = refl

tally-run_round_example :
    tally "b" "c1" (run_round (λ _. true) 5 (answered 42) loaded).1 ≡ tally "b" "c1" loaded
unfolding init
tally-run_round_example = tally-run_round "b" "c1" (λ _. true) 5 (answered 42) loaded refl

-- The bitstream is in flight when a request reboots the state, and its result comes while the reboot waits.
abbrev in_flight : Upload ℕ
in_flight = record loaded { bitstream_queue = Queue.init []; current_bitstream = some circuit }

abbrev halves : List Text
halves = codes "pulses: 7\\" ∷ codes "r\\nWait" ∷ []

split_line : read 20 halves [] ≡ (codes "pulses: 7" ∷ [], codes "Wait")
unfolding read cut_line after_prefix
split_line = refl

read-concat_example : read 40 halves [] ≡ read 40 [] (concat halves)
read-concat_example = read-concat 40 40 halves [] (omega arith) (omega arith)
