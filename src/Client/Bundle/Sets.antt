-- ===== src/Client/Bundle/Sets.antt =====
-- The groups of a batch are sets of serials, as the evaluations' are: `EvaluationBundle` of
-- src/icefarm/client/lib/BatchClient.py.
use i_cefarm.Prelude.{
  ℕ, ◌≡◌, List, [], ◌∷◌, arith, All, Distinct, string_key, ◌==◌, Bool-cases, Option-cases, inl, inr,
  subst, sym, leb, eqb,
}
use i_cefarm.Dict.{Dict, get, put}
use i_cefarm.Dict as Dict
use i_cefarm.Utils.MappedQueues.{MappedQueues, keys, append, pop, getitem}
use i_cefarm.Client.Evaluation.{Evaluation, Serials, members, size, serials_key}
use i_cefarm.Client.Bundle.{
  Bundle, Draw, fill, init, insert_by_size, sort_by_size, slots_of, draw_group, draw, next,
}
use i_cefarm.Client.Bundle.Contents.{IsValid, next_keeps, taken}

abbrev pub IsSerials : Serials → Type 0
IsSerials serials = Distinct (members serials)

-- The keys of a dictionary are sets.
abbrev pub AreSets : {V : Type 0} → Dict Serials V → Type 0
AreSets d = All IsSerials (Dict.keys d)

put-AreSets :
    {V : Type 0} (serials : Serials) (v : V) (d : Dict Serials V)
    → IsSerials serials
    → AreSets d
    → AreSets (put serials v d)
unfolding put
put-AreSets serials v [] s h = (s, tt)
put-AreSets serials v ((other, w) ∷ d) s h = elim (Bool-cases (other == serials)) [
  | inl same ↦ rw same h
  | inr apart ↦ rw apart (h.0, put-AreSets serials v d s h.1)
]

getitem-AreSets :
    (serials : Serials) (queued : MappedQueues Serials Evaluation)
    → IsSerials serials
    → AreSets queued
    → AreSets (getitem serials queued).1
unfolding getitem
getitem-AreSets serials queued s h = elim (Option-cases (get serials queued)) [
  | inl missing ↦ rw (getitem, missing) (put-AreSets serials [] queued s h)
  | inr (found, e) ↦ rw (getitem, e) h
]

append-AreSets :
    (serials : Serials) (evaluation : Evaluation) (queued : MappedQueues Serials Evaluation)
    → IsSerials serials
    → AreSets queued
    → AreSets (append serials evaluation queued)
unfolding append
append-AreSets serials evaluation queued s h =
    put-AreSets serials _ (getitem serials queued).1 s (getitem-AreSets serials queued s h)

fill-AreSets :
    (evaluations : List Evaluation) (queued : MappedQueues Serials Evaluation)
    → All (λ e. IsSerials e.serials) evaluations
    → AreSets queued
    → AreSets (fill evaluations queued)
unfolding fill
fill-AreSets [] queued s h = h
fill-AreSets (evaluation ∷ rest) queued s h =
    fill-AreSets rest (append evaluation.serials evaluation queued) s.1
      (append-AreSets evaluation.serials evaluation queued s.0 h)

pub init-AreSets :
    (evaluations : List Evaluation) (batch_size : ℕ)
    → All (λ e. IsSerials e.serials) evaluations
    → AreSets (init evaluations batch_size).queue
unfolding init
init-AreSets evaluations batch_size s = fill-AreSets evaluations [] s tt

keys-sets : (state : MappedQueues Serials Evaluation) → AreSets state → All IsSerials (keys state)
unfolding keys
keys-sets [] h = tt
keys-sets ((serials, []) ∷ rest) h = tt
keys-sets ((serials, x ∷ xs) ∷ rest) h = (h.0, keys-sets rest h.1)

insert-sets :
    (serials : Serials) (order : List Serials)
    → IsSerials serials
    → All IsSerials order
    → All IsSerials (insert_by_size serials order)
unfolding insert_by_size
insert-sets serials [] s h = (s, tt)
insert-sets serials (other ∷ order) s h = elim (Bool-cases (leb (size serials) (size other))) [
  | inl fits ↦ rw fits (s, h)
  | inr longer ↦ rw longer (h.0, insert-sets serials order s h.1)
]

sort-sets : (order : List Serials) → All IsSerials order → All IsSerials (sort_by_size order)
unfolding sort_by_size
sort-sets [] h = tt
sort-sets (serials ∷ order) h = insert-sets serials (sort_by_size order) h.0 (sort-sets order h.1)

draw_group-AreSets :
    (batch_size : ℕ) (serials : Serials) (d : Draw)
    → IsSerials serials
    → AreSets d.batch
    → AreSets (draw_group batch_size serials d).batch
unfolding draw_group
draw_group-AreSets batch_size serials d s h =
    let slots = slots_of batch_size d.serial_amounts serials.first serials.others in
    elim (Bool-cases (eqb slots 0)) [
      | inl full ↦ rw full h
      | inr room ↦ rw room (put-AreSets serials (pop serials slots d.queue).0 d.batch s h)
    ]

draw-AreSets :
    (batch_size : ℕ) (order : List Serials) (d : Draw)
    → All IsSerials order
    → AreSets d.batch
    → AreSets (draw batch_size order d).batch
unfolding draw
draw-AreSets batch_size [] d s h = h
draw-AreSets batch_size (serials ∷ order) d s h =
    draw-AreSets batch_size order (draw_group batch_size serials d) s.1
      (draw_group-AreSets batch_size serials d s.0 h)

batch-next :
    (bundle : Bundle)
    → taken (next bundle).0
      ≡ (draw bundle.batch_size
          (sort_by_size (keys bundle.queue))
          (record { serial_amounts = []; batch = []; queue = bundle.queue })).batch
unfolding next
batch-next bundle = ground arith

-- The next batch holds sets, if the queues are of sets, and they stay so.
pub next-AreSets :
    (bundle : Bundle)
    → IsValid bundle
    → AreSets bundle.queue
    → AreSets (taken (next bundle).0) × AreSets (next bundle).1.queue
next-AreSets bundle valid h =
    let order = sort_by_size (keys bundle.queue) in
    let start : Draw = record { serial_amounts = []; batch = []; queue = bundle.queue } in
    (
      subst AreSets (sym (batch-next bundle)) (
          draw-AreSets bundle.batch_size order start
            (sort-sets (keys bundle.queue) (keys-sets bundle.queue h)) tt),
      subst (All IsSerials) (sym (next_keeps bundle valid).1) h,
    )

pub batch_size-next : (bundle : Bundle) → (next bundle).1.batch_size ≡ bundle.batch_size
unfolding next
batch_size-next bundle = ground arith
