-- ===== src/Examples/Bundles.antt =====
-- `EvaluationBundle` of src/icefarm/client/lib/BatchClient.py at small inputs.
use i_cefarm.Prelude.{
  ◌<◌, ◌≤◌, ◌≡◌, refl, String, true, some, List, [], ◌∷◌, arith, length, string_key, nat_key,
  reverse,
}
use i_cefarm.Dict.{get, put}
use i_cefarm.Utils.MappedQueues.{append, keys, queue, pop}
use i_cefarm.Client.Evaluation.{Evaluation, Serials, serials_key}
use i_cefarm.Client.Bundle.{
  Bundle, Batch, init, next, drain, draw, draw_group, slots_of, sort_by_size,
}
use i_cefarm.Client.Bundle.Bounds.{load, load-next-le}
use i_cefarm.Client.Bundle.Contents.{init-IsValid}
use i_cefarm.Client.Bundle.Ends.{gathered, drain_lem}
use i_cefarm.Client.Bundle.Uniform.{uniform_delivers}
use i_cefarm.Client.Bundle.Starved.{starved}

abbrev first_device : Serials
first_device = record { first = "A"; others = [] }

abbrev second_device : Serials
second_device = record { first = "B"; others = [] }

abbrev evaluation : Serials → String → Evaluation
evaluation serials id = record { serials = serials; id = id; filepath = "circuit.asc" }

abbrev uniform : List Evaluation
uniform =
    evaluation first_device "1" ∷ evaluation first_device "2" ∷ evaluation first_device "3" ∷ []

abbrev mixed : List Evaluation
mixed =
    evaluation first_device "1"
    ∷ evaluation second_device "2"
    ∷ evaluation second_device "3"
    ∷ evaluation second_device "4"
    ∷ []

abbrev uniform_bundle : Bundle
uniform_bundle = init uniform 2

abbrev first_batch : Batch
first_batch = (first_device, evaluation first_device "3" ∷ evaluation first_device "2" ∷ []) ∷ []

uniform_next : (next uniform_bundle).0 ≡ some first_batch
unfolding init next draw draw_group sort_by_size pop get put keys append slots_of
uniform_next = refl

load-next-le_example : load "A" first_batch ≤ 2
unfolding init
load-next-le_example = load-next-le uniform_bundle first_batch "A" uniform_next

drain_lem_example : (drain 4 uniform_bundle).1.empty ≡ true
unfolding init get put append
drain_lem_example =
    (drain_lem 4 uniform_bundle (omega arith) (init-IsValid uniform 2) (omega arith)).0

uniform_delivers_example : gathered first_device (drain 4 uniform_bundle).0 ≡ reverse uniform
uniform_delivers_example =
    (uniform_delivers first_device (evaluation first_device "1")
      (evaluation first_device "2" ∷ evaluation first_device "3" ∷ []) 2 (omega arith)
      (refl, (refl, (refl, tt)))).0

starved_example : 0 < length (queue second_device (next (next (init mixed 2)).1).1.queue)
starved_example =
    (starved first_device second_device refl (evaluation first_device "1")
      (evaluation second_device "2")
      (evaluation second_device "3" ∷ evaluation second_device "4" ∷ []) 2 (omega arith)
      (omega arith) refl (refl, (refl, (refl, tt))) (omega arith)).2

-- The keys 7 and 8, of which the first was emptied.
