-- ===== src/Client/Bundle/Ends.antt =====
-- The iteration over an `EvaluationBundle` ends, and what it has delivered by then.
use mathlib.Core.List.{reverse-append}
use i_cefarm.Prelude.{
  ℕ, zero, suc, ◌<◌, ◌≡◌, ◌≢◌, ◌↔◌, refl, sym, ◌∙◌, ap, true, none, some, List, [], ◌∷◌, ◌++◌,
  arith, string_key, inl, inr, ◌⊎◌, reverse, append-nil, append_assoc, Option-cases,
}
use i_cefarm.Dict.{Dict, get, put}
use i_cefarm.Dict as Dict
use i_cefarm.Utils.MappedQueues.{keys, queue}
use i_cefarm.Utils.MappedQueues.Size.{total}
use i_cefarm.Client.Evaluation.{Evaluation, Serials, serials_key}
use i_cefarm.Client.Bundle.{Batch, Bundle, next, drain}
use i_cefarm.Client.Bundle.Contents.{IsValid, group, taken, next_keeps, next-IsValid}
use i_cefarm.Client.Bundle.Rounds.{next-some, next-none}

nil-cases {ℓ} : {A : Type ℓ} (xs : List A) → (xs ≡ []) ⊎ (xs ≢ [])
nil-cases [] = inl refl
nil-cases (x ∷ xs) = inr (λ h. cc)

-- The iteration stops exactly when `keys` yields no set of serials.
next_stops_iff :
    (bundle : Bundle) → 0 < bundle.batch_size → ((next bundle).0 ≡ none) ↔ (keys bundle.queue ≡ [])
next_stops_iff bundle pos = (
  (λ stop. elim (nil-cases (keys bundle.queue)) [
    | inl e ↦ e
    | inr live ↦ absurd ((next-some bundle pos live).0 stop)
  ]),
  (λ e. ap (λ r. r.0) (next-none bundle e)),
)

-- All evaluations that a run of batches holds for one set of serials, in the order of delivery.
abbrev pub gathered : Serials → List Batch → List Evaluation
gathered key [] = []
gathered key (batch ∷ batches) = group key batch ++ gathered key batches

drain_stop :
    (fuel : ℕ) (bundle : Bundle)
    → (next bundle).0 ≡ none
    → drain (suc fuel) bundle ≡ ([], (next bundle).1)
unfolding drain
drain_stop fuel bundle h = rw (h, drain)

drain_go :
    (fuel : ℕ) (bundle : Bundle) (batch : Batch)
    → (next bundle).0 ≡ some batch
    → let (batches, final) = drain fuel (next bundle).1 in
      drain (suc fuel) bundle ≡ (batch ∷ batches, final)
unfolding drain
drain_go fuel bundle batch h = rw (h, drain)

-- With more fuel than there are evaluations the iteration ends by StopIteration.
pub drain_ends :
    (fuel : ℕ) (bundle : Bundle)
    → 0 < bundle.batch_size
    → total bundle.queue < fuel
    → let (_, final) = drain fuel bundle in (final.empty ≡ true) × (keys final.queue ≡ [])
drain_ends zero bundle pos h = absurd (omega arith)
drain_ends (suc fuel) bundle pos h = elim (nil-cases (keys bundle.queue)) [
  | inl e ↦
      let stop = next-none bundle e in
      rw (drain_stop fuel bundle (ap (λ r. r.0) stop), stop) (refl, e)
  | inr live ↦
      let (going, smaller, same) = next-some bundle pos live in
      elim (Option-cases (next bundle).0) [
        | inl stop ↦ absurd (going stop)
        | inr (batch, go) ↦
            rw (drain_go fuel bundle batch go)
              (drain_ends fuel (next bundle).1 (rw same pos) (omega arith))
      ]
]

-- However far it runs, no evaluation is lost or doubled.
pub drain_keeps :
    (fuel : ℕ) (bundle : Bundle)
    → IsValid bundle
    → let (batches, final) = drain fuel bundle in
      ((key : Serials)
        → queue key final.queue ++ reverse (gathered key batches) ≡ queue key bundle.queue)
      × (Dict.keys final.queue ≡ Dict.keys bundle.queue)
unfolding drain get
drain_keeps zero bundle valid = ((λ key. append-nil (queue key bundle.queue)), refl)
drain_keeps (suc fuel) bundle valid =
    let (whole, shape) = next_keeps bundle valid in
    let (rest, rest_shape) = drain_keeps fuel (next bundle).1 (next-IsValid bundle valid) in
    elim (Option-cases (next bundle).0) [
      | inl stop ↦ rw (drain_stop fuel bundle stop) (
        (λ key.
            ap (λ drawn. queue key (next bundle).1.queue ++ reverse (group key (taken drawn)))
              (sym stop)
            ∙ whole key),
        shape,
      )
      | inr (batch, go) ↦ rw (drain_go fuel bundle batch go) (
        (λ key.
            let given = group key batch in
            let later = gathered key (drain fuel (next bundle).1).0 in
            let left = queue key (drain fuel (next bundle).1).1.queue in
            ground (
              arith,
              go,
              reverse-append given later,
              append_assoc left (reverse later) (reverse given),
              rest key,
              whole key,
            )),
        rest_shape ∙ shape,
      )
    ]

-- With a batch size above 0 and more rounds than evaluations, iterating over a bundle ends by StopIteration, where
-- `keys` yields no set of serials (evaluations may be queued behind an empty queue); and for each set of serials,
-- what its queue still holds and what was delivered from it, reversed, is what it held at first.
pub drain_lem :
    (fuel : ℕ) (bundle : Bundle)
    → 0 < bundle.batch_size
    → IsValid bundle
    → total bundle.queue < fuel
    → let (batches, final) = drain fuel bundle in
      (final.empty ≡ true)
      × (keys final.queue ≡ [])
      × ((key : Serials)
          → queue key final.queue ++ reverse (gathered key batches) ≡ queue key bundle.queue)
drain_lem fuel bundle pos valid enough =
    let (empty, none_left) = drain_ends fuel bundle pos enough in
    (empty, none_left, (drain_keeps fuel bundle valid).0)
