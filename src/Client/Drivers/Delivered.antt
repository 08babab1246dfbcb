-- ===== src/Client/Drivers/Delivered.antt =====
-- Every bitstream that a driver is given gets into a batch: `evaluateBitstreams` of
-- src/icefarm/client/lib/pulsecount.py and varmax.py.
use mathlib.Core.List.{reverse-reverse}
use i_cefarm.Prelude.{
  subst, ◌+◌, ◌≡◌, refl, ap, ◌∙◌, String, true, some, List, [], ◌∷◌, map, reverse, length, All,
  arith, string_key,
}
use i_cefarm.Client.Evaluation.{Evaluation, Serials}
use i_cefarm.Client.Evaluation
use i_cefarm.Client.Bundle.{Bundle, drain}
use i_cefarm.Client.Bundle
use i_cefarm.Client.Bundle.Ends.{gathered}
use i_cefarm.Client.Bundle.Uniform.{uniform_delivers}
use i_cefarm.Client.Drivers.{
  chosen_serials, make_evaluations, default_batch_size, evaluate_bitstreams,
}

evaluation_of : Serials → String × String → Evaluation
evaluation_of serials (id, path) = record { serials = serials; id = id; filepath = path }

make_evaluations-map :
    (serials : Serials) (bitstreams : List (String × String))
    → make_evaluations (serials.first ∷ serials.others) bitstreams
      ≡ some (map (evaluation_of serials) bitstreams)
unfolding make_evaluations Evaluation.init evaluation_of
make_evaluations-map serials [] = refl
make_evaluations-map serials ((id, path) ∷ rest) = ground (arith, make_evaluations-map serials rest)

share_serials :
    (serials : Serials) (bitstreams : List (String × String))
    → All (λ e. e.serials ≡ serials) (map (evaluation_of serials) bitstreams)
unfolding evaluation_of
share_serials serials [] = tt
share_serials serials ((id, path) ∷ rest) = (refl, share_serials serials rest)

map-filepath :
    (serials : Serials) (bitstreams : List (String × String))
    → map (λ e. e.filepath) (map (evaluation_of serials) bitstreams) ≡ map (λ b. b.1) bitstreams
unfolding evaluation_of
map-filepath serials [] = refl
map-filepath serials ((id, path) ∷ rest) = ap (λ l. path ∷ l) (map-filepath serials rest)

length-evaluations :
    (serials : Serials) (bitstreams : List (String × String))
    → length (map (evaluation_of serials) bitstreams) ≡ length bitstreams
length-evaluations serials [] = refl
length-evaluations serials (b ∷ rest) = omega (arith, length-evaluations serials rest)

-- The paths of the evaluations that some batches hold for a set of serials, the first one first.
abbrev pub delivered_paths : Serials → List (Bundle.Batch) → List String
delivered_paths serials batches = map (λ e. e.filepath) (reverse (gathered serials batches))

-- For at least one bitstream and one device, a driver's evaluations are made, and drawing batches of the
-- default size until StopIteration delivers the path of every bitstream, once and in the order given, if
-- the batches are read from the last evaluation to the first.
pub evaluate_bitstreams-delivers :
    (first : String) (others named reserved : List String) (bitstream : String × String)
    (rest : List (String × String))
    → chosen_serials named reserved ≡ first ∷ others
    → let serials : Serials = record { first = first; others = others } in
      (bundle : Bundle) × (evaluate_bitstreams named reserved (bitstream ∷ rest) ≡ some bundle)
      × (delivered_paths serials (drain (length rest + 2) bundle).0
          ≡ map (λ b. b.1) (bitstream ∷ rest))
      × ((drain (length rest + 2) bundle).1.empty ≡ true)
unfolding evaluate_bitstreams
evaluate_bitstreams-delivers first others named reserved bitstream rest chosen =
    let serials : Serials = record { first = first; others = others } in
    let evaluations = map (evaluation_of serials) (bitstream ∷ rest) in
    let bundle = Bundle.init evaluations default_batch_size in
    let enough : length evaluations + 1 ≡ length rest + 2 =
      omega (arith, length-evaluations serials rest) in
    let delivered =
      uniform_delivers serials (evaluation_of serials bitstream) (map (evaluation_of serials) rest)
        default_batch_size (omega arith) (share_serials serials (bitstream ∷ rest)) in
    (
      bundle,
      rw (evaluate_bitstreams, chosen, make_evaluations-map serials (bitstream ∷ rest)) refl,
      ap (λ l. map (λ (e : Evaluation). e.filepath) (reverse l))
            (subst (λ n. gathered serials (drain n bundle).0 ≡ reverse evaluations) enough
              delivered.0)
          ∙ (ap (map (λ (e : Evaluation). e.filepath)) (reverse-reverse evaluations)
              ∙ map-filepath serials (bitstream ∷ rest)),
      subst (λ n. (drain n bundle).1.empty ≡ true) enough delivered.1,
    )
