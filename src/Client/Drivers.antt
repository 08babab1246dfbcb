-- ===== src/Client/Drivers.antt =====
-- `evaluateBitstreams` of src/icefarm/client/lib/pulsecount.py and varmax.py, and `evaluateEvaluations` of
-- BatchClient.py: from the paths of bitstreams to the bundle that is drawn from.
pub mod Delivered
use i_cefarm.Prelude.{
  ℕ, String, Option, none, some, List, [], ◌∷◌, if◌then◌else◌, string_key, union, is_nonempty,
}
use i_cefarm.Client.Evaluation.{Evaluation}
use i_cefarm.Client.Evaluation
use i_cefarm.Client.Bundle
use i_cefarm.Client.Bundle.{Bundle}

-- The serials that are named, or else those that the client has reserved, as a set.
unfoldable pub chosen_serials : List String → List String → List String
chosen_serials serials reserved =
    if is_nonempty serials then union [] serials else union [] reserved

-- The list comprehension over the bitstreams, each with the fresh id that its evaluation gets; none is the
-- exception for no serials.
unfoldable pub make_evaluations : List String → List (String × String) → Option (List Evaluation)
make_evaluations serials [] = some []
make_evaluations serials ((id, path) ∷ bitstreams) =
    let rest = make_evaluations serials bitstreams in
    elim (Evaluation.init serials id path) [
      | none ↦ none
      | some evaluation ↦ elim rest [
        | none ↦ none
        | some evaluations ↦ some (evaluation ∷ evaluations)
      ]
    ]

-- The default of `evaluateEvaluations`.
abbrev pub default_batch_size : ℕ
default_batch_size = 5

unfoldable pub evaluate_bitstreams :
    List String → List String → List (String × String) → Option Bundle
evaluate_bitstreams serials reserved bitstreams =
    elim (make_evaluations (chosen_serials serials reserved) bitstreams) [
      | none ↦ none
      | some evaluations ↦ some (Bundle.init evaluations default_batch_size)
    ]
