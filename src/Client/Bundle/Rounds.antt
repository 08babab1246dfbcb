-- ===== src/Client/Bundle/Rounds.antt =====
-- What one batch of an `EvaluationBundle` takes: `__next__` of src/icefarm/client/lib/BatchClient.py draws
-- at least one evaluation, or stops.
use i_cefarm.Prelude.{
  ℕ, ◌≤◌, ◌<◌, ◌≡◌, ◌≢◌, refl, sym, ◌∙◌, String, true, none, List, [], ◌∷◌, arith, leb, length,
  contains, string_key, ==_refl, Bool-cases, inl, inr,
}
use i_cefarm.Dict.{get, put}
use i_cefarm.Utils.MappedQueues.{keys, pop, queue}
use i_cefarm.Utils.MappedQueues.Laws.{length-pop, keys-has, has_iff}
use i_cefarm.Utils.MappedQueues.Size.{total, pop-shape}
use i_cefarm.Client.Evaluation.{Evaluation, Serials, size, serials_key}
use i_cefarm.Client.Bundle.{
  Batch, Bundle, slots_of, Draw, draw_group, draw, next, sort_by_size, insert_by_size,
}
use i_cefarm.Client.Bundle.Contents.{contains-sort_by_size}

put-ne-nil : (key : Serials) (found : List Evaluation) (batch : Batch) → put key found batch ≢ []
unfolding put
put-ne-nil key found [] = λ h. cc
put-ne-nil key found ((other, held) ∷ batch) = ground arith

draw_group-batch :
    (batch_size : ℕ) (serials : Serials) (d : Draw)
    → d.batch ≢ []
    → (draw_group batch_size serials d).batch ≢ []
unfolding draw_group
draw_group-batch batch_size serials d h =
    let slots = slots_of batch_size d.serial_amounts serials.first serials.others in
    ground (arith, put-ne-nil serials (pop serials slots d.queue).0 d.batch)

draw-batch :
    (batch_size : ℕ) (order : List Serials) (d : Draw)
    → d.batch ≢ []
    → (draw batch_size order d).batch ≢ []
unfolding draw
draw-batch batch_size [] d h = h
draw-batch batch_size (serials ∷ order) d h =
    draw-batch batch_size order _ (draw_group-batch batch_size serials d h)

draw_group-total :
    (batch_size : ℕ) (serials : Serials) (d : Draw)
    → total (draw_group batch_size serials d).queue ≤ total d.queue
unfolding draw_group
draw_group-total batch_size serials d =
    let slots = slots_of batch_size d.serial_amounts serials.first serials.others in
    ground (arith, pop-shape serials slots d.queue)

draw-total :
    (batch_size : ℕ) (order : List Serials) (d : Draw)
    → total (draw batch_size order d).queue ≤ total d.queue
unfolding draw
draw-total batch_size [] d = omega arith
draw-total batch_size (serials ∷ order) d = omega (
  arith,
  draw-total batch_size order (draw_group batch_size serials d),
  draw_group-total batch_size serials d,
)

abbrev pub started : Bundle → Draw
started bundle = record { serial_amounts = []; batch = []; queue = bundle.queue }

pub slots_of_started :
    (batch_size : ℕ) (serial : String) (others : List String)
    → slots_of batch_size [] serial others ≡ batch_size
unfolding slots_of get
slots_of_started batch_size serial [] = omega arith
slots_of_started batch_size serial (other ∷ rest) =
    omega (arith, slots_of_started batch_size other rest)

length-pos {ℓ} : {A : Type ℓ} (xs : List A) → xs ≢ [] → 0 < length xs
length-pos [] h = absurd (h refl)
length-pos (x ∷ xs) h = omega arith

-- The first group of a batch takes at least one evaluation.
first_group :
    (bundle : Bundle) (serials : Serials)
    → 0 < bundle.batch_size
    → contains serials (keys bundle.queue) ≡ true
    → let d = draw_group bundle.batch_size serials (started bundle) in
      (d.batch ≢ []) × (total d.queue < total bundle.queue)
unfolding draw_group
first_group bundle serials pos h =
    let slots = slots_of bundle.batch_size [] serials.first serials.others in
    let held =
      length-pos (queue serials bundle.queue)
        ((has_iff serials bundle.queue).0 (keys-has serials bundle.queue h)) in
    ground (
      arith,
      held,
      slots_of_started bundle.batch_size serials.first serials.others,
      put-ne-nil serials (pop serials slots bundle.queue).0 [],
      pop-shape serials slots bundle.queue,
      length-pop serials slots bundle.queue,
    )

insert_first :
    (serials : Serials) (order : List Serials)
    → (least : Serials) × (rest : List Serials) × (insert_by_size serials order ≡ least ∷ rest)
unfolding insert_by_size
insert_first serials [] = (serials, [], refl)
insert_first serials (other ∷ order) = elim (Bool-cases (leb (size serials) (size other))) [
  | inl before ↦ (serials, other ∷ order, rw before)
  | inr behind ↦ (other, insert_by_size serials order, rw behind)
]

sorted_first :
    (order : List Serials)
    → order ≢ []
    → (serials : Serials) × (rest : List Serials) × (sort_by_size order ≡ serials ∷ rest)
      × (contains serials order ≡ true)
unfolding sort_by_size
sorted_first [] h = absurd (h refl)
sorted_first (serials ∷ order) h =
    let (least, rest, e) = insert_first serials (sort_by_size order) in
    (
      least,
      rest,
      e,
      sym (contains-sort_by_size least (serials ∷ order)) ∙ ground (arith, e, ==_refl least),
    )

pub next-some :
    (bundle : Bundle)
    → 0 < bundle.batch_size
    → keys bundle.queue ≢ []
    → let (drawn, bundle') = next bundle in
      (drawn ≢ none)
      × (total bundle'.queue < total bundle.queue)
      × (bundle'.batch_size ≡ bundle.batch_size)
unfolding next draw
next-some bundle pos h =
    let (serials, rest, sorted, known) = sorted_first (keys bundle.queue) h in
    let size = bundle.batch_size in
    let (filled, smaller) = first_group bundle serials pos known in
    let d = draw_group size serials (started bundle) in
    ground (arith, sorted, smaller, draw-batch size rest d filled, draw-total size rest d)

pub next-none :
    (bundle : Bundle)
    → keys bundle.queue ≡ []
    → next bundle ≡ (none, record bundle { empty = true })
unfolding next draw sort_by_size
next-none bundle h = ground (arith, h)
