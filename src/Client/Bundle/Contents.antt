-- ===== src/Client/Bundle/Contents.antt =====
-- What the batches of `EvaluationBundle` hold: every evaluation that leaves a queue, once, and the
-- iteration ends.
use i_cefarm.Prelude.{
  ℕ, ◌≡◌, refl, ◌∙◌, true, false, Option, none, List, [], ◌∷◌, ◌++◌, arith, contains, string_key,
  ◌==◌, ==_iff, ==_refl, get_or, Distinct, reverse, append-nil, ◌||◌,
}
use i_cefarm.Dict.{Dict, get, put, get-put, get-eq-none_of_not_contains}
use i_cefarm.Dict as Dict
use i_cefarm.Utils.MappedQueues.{keys, pop, queue, MappedQueues}
use i_cefarm.Utils.MappedQueues.Laws.{queue-pop, pop_lem}
use i_cefarm.Utils.MappedQueues.Size.{pop-shape, append-Distinct}
use i_cefarm.Client.Evaluation.{Evaluation, Serials, serials_key}
use i_cefarm.Client.Bundle.{
  Batch, Bundle, slots_of, Draw, draw_group, draw, next, sort_by_size, insert_by_size, init, fill,
}

contains-insert_by_size :
    (key serials : Serials) (order : List Serials)
    → contains key (insert_by_size serials order) ≡ (serials == key || contains key order)
unfolding insert_by_size
contains-insert_by_size key serials [] = refl
contains-insert_by_size key serials (other ∷ order) =
    ground (arith, contains-insert_by_size key serials order)

pub contains-sort_by_size :
    (key : Serials) (order : List Serials) → contains key (sort_by_size order) ≡ contains key order
unfolding sort_by_size
contains-sort_by_size key [] = refl
contains-sort_by_size key (serials ∷ order) = ground (
  arith,
  contains-insert_by_size key serials (sort_by_size order),
  contains-sort_by_size key order,
)

insert_by_size-Distinct :
    (serials : Serials) (order : List Serials)
    → contains serials order ≡ false
    → Distinct order
    → Distinct (insert_by_size serials order)
unfolding insert_by_size
insert_by_size-Distinct serials [] h d = (refl, tt)
insert_by_size-Distinct serials (other ∷ order) h d = ground (
  arith,
  contains-insert_by_size other serials order,
  insert_by_size-Distinct serials order,
  ==_iff serials other,
  ==_iff other serials,
)

sort_by_size-Distinct : (order : List Serials) → Distinct order → Distinct (sort_by_size order)
unfolding sort_by_size
sort_by_size-Distinct [] d = tt
sort_by_size-Distinct (serials ∷ order) d =
    insert_by_size-Distinct serials (sort_by_size order) (contains-sort_by_size serials order ∙ d.0)
      (sort_by_size-Distinct order d.1)

contains-keys :
    (key : Serials) (state : MappedQueues Serials Evaluation)
    → contains key (Dict.keys state) ≡ false
    → contains key (keys state) ≡ false
unfolding keys
contains-keys key [] h = refl
contains-keys key ((other, found) ∷ rest) h = ground (arith, contains-keys key rest)

keys-Distinct :
    (state : MappedQueues Serials Evaluation) → Distinct (Dict.keys state) → Distinct (keys state)
unfolding keys
keys-Distinct [] d = tt
keys-Distinct ((key, found) ∷ rest) d =
    ground (arith, keys-Distinct rest d.1, contains-keys key rest d.0)

-- The keys of the queues are those of a dictionary.
abbrev pub IsValid : Bundle → Type 0
IsValid bundle = Distinct (Dict.keys bundle.queue)

fill-Distinct :
    (evaluations : List Evaluation) (queued : MappedQueues Serials Evaluation)
    → Distinct (Dict.keys queued)
    → Distinct (Dict.keys (fill evaluations queued))
unfolding fill
fill-Distinct [] queued d = d
fill-Distinct (evaluation ∷ rest) queued d =
    fill-Distinct rest _ (append-Distinct evaluation.serials evaluation queued d)

pub init-IsValid :
    (evaluations : List Evaluation) (batch_size : ℕ) → IsValid (init evaluations batch_size)
unfolding init
init-IsValid evaluations batch_size = fill-Distinct evaluations [] tt

-- What one group of a batch holds.
abbrev pub group : Serials → Batch → List Evaluation
group key batch = get_or (get key batch) []

-- In the middle of `__next__`: a group that is still to come is not in the batch, and what a queue
-- held at the start is what it holds now and what the batch took, newest first.
record Kept (start : MappedQueues Serials Evaluation) (order : List Serials) (d : Draw)
    : Type 0 where
  fresh : (key : Serials) → contains key order ≡ true → get key d.batch ≡ none
  whole : (key : Serials) → queue key d.queue ++ reverse (group key d.batch) ≡ queue key start
  shape : Dict.keys d.queue ≡ Dict.keys start

draw_group-Kept :
    (start : MappedQueues Serials Evaluation) (batch_size : ℕ) (serials : Serials)
    (order : List Serials) (d : Draw)
    → contains serials order ≡ false
    → Kept start (serials ∷ order) d
    → Kept start order (draw_group batch_size serials d)
unfolding draw_group
draw_group-Kept start batch_size serials order d apart k =
    let slots = slots_of batch_size d.serial_amounts serials.first serials.others in
    let commands = (pop serials slots d.queue).0 in
    record {
      fresh = λ key h.
          ground (arith, k.fresh key, get-put serials key commands d.batch, ==_iff serials key);
      whole = λ key. ground (
        arith,
        k.whole key,
        k.fresh serials,
        ==_refl serials,
        ==_iff serials key,
        get-put serials key commands d.batch,
        queue-pop serials slots d.queue,
        (pop_lem serials slots d.queue).2 key,
        append-nil (queue serials d.queue),
      );
      shape = ground (arith, k.shape, pop-shape serials slots d.queue);
    }

draw-Kept :
    (start : MappedQueues Serials Evaluation) (batch_size : ℕ) (order : List Serials) (d : Draw)
    → Distinct order
    → Kept start order d
    → Kept start [] (draw batch_size order d)
unfolding draw
draw-Kept start batch_size [] d distinct k = k
draw-Kept start batch_size (serials ∷ order) d distinct k =
    draw-Kept start batch_size order _ distinct.1
      (draw_group-Kept start batch_size serials order d distinct.0 k)

-- The groups of what `__next__` returns; StopIteration returns none.
abbrev pub taken : Option Batch → Batch
taken drawn = get_or drawn []

next-Kept :
    (bundle : Bundle)
    → IsValid bundle
    → let (drawn, bundle') = next bundle in
      Kept bundle.queue []
        (record { serial_amounts = []; batch = taken drawn; queue = bundle'.queue })
unfolding next get
next-Kept bundle valid =
    let order = sort_by_size (keys bundle.queue) in
    let start : Draw = record { serial_amounts = []; batch = []; queue = bundle.queue } in
    let k =
      draw-Kept bundle.queue bundle.batch_size order start
        (sort_by_size-Distinct (keys bundle.queue) (keys-Distinct bundle.queue valid))
        (record {
          fresh = λ key _. refl;
          whole = λ key. append-nil (queue key bundle.queue);
          shape = refl;
        }) in
    record {
      fresh = λ key h. cc;
      whole = λ key. ground (arith, k.whole key);
      shape = ground (arith, k.shape);
    }

-- A batch takes evaluations from the end of their queues and loses none: what a queue held is what is
-- left of it, followed by the batch's group in reverse. No key comes or goes.
pub next_keeps :
    (bundle : Bundle)
    → IsValid bundle
    → let (drawn, bundle') = next bundle in
      ((key : Serials)
        → queue key bundle'.queue ++ reverse (group key (taken drawn)) ≡ queue key bundle.queue)
      × (Dict.keys bundle'.queue ≡ Dict.keys bundle.queue)
next_keeps bundle valid = let k = next-Kept bundle valid in (k.whole, k.shape)

pub next-IsValid : (bundle : Bundle) → IsValid bundle → IsValid (next bundle).1
next-IsValid bundle valid = rw (next_keeps bundle valid).1 valid
