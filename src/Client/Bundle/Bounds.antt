-- ===== src/Client/Bundle/Bounds.antt =====
-- No batch of `EvaluationBundle` gives a device more than `batch_size` evaluations.
use i_cefarm.Prelude.{
  ℕ, ◌+◌, ◌-◌, ◌≤◌, ◌≡◌, String, true, some, List, [], ◌∷◌, arith, if◌then◌else◌, length, contains,
  string_key, ◌==◌, ==_iff,
}
use i_cefarm.Dict.{put, get-put}
use i_cefarm.Utils.MappedQueues.{keys, pop}
use i_cefarm.Utils.MappedQueues.Laws.{length-pop}
use i_cefarm.Client.Evaluation.{Evaluation, Serials, members, serials_key}
use i_cefarm.Client.Bundle.{
  Batch, Bundle, Amounts, amount, slots_of, add_amounts, Draw, draw_group, draw, next, sort_by_size,
}

-- How many evaluations of the batch go to a device.
abbrev pub load : String → Batch → ℕ
load serial [] = 0
load serial ((serials, commands) ∷ rest) =
    (if contains serial (members serials) then length commands else 0) + load serial rest

load-put :
    (serial : String) (serials : Serials) (commands : List Evaluation) (batch : Batch)
    → load serial (put serials commands batch)
      ≤ load serial batch + (if contains serial (members serials) then length commands else 0)
unfolding put
load-put serial serials commands [] = omega arith
load-put serial serials commands ((other, held) ∷ rest) =
    ground (arith, load-put serial serials commands rest, ==_iff other serials)

slots_of-le :
    (batch_size : ℕ) (amounts : Amounts) (serial first : String) (others : List String)
    → contains serial (first ∷ others) ≡ true
    → slots_of batch_size amounts first others ≤ batch_size - amount serial amounts
unfolding slots_of
slots_of-le batch_size amounts serial first [] h = ground (arith, ==_iff first serial)
slots_of-le batch_size amounts serial first (other ∷ rest) h =
    ground (arith, ==_iff first serial, slots_of-le batch_size amounts serial other rest)

amount-put :
    (serial other : String) (n : ℕ) (amounts : Amounts)
    → amount other (put serial n amounts) ≡ (if serial == other then n else amount other amounts)
amount-put serial other n amounts = ground (arith, get-put serial other n amounts)

amount-add_amounts :
    (count : ℕ) (serial : String) (serials : List String) (amounts : Amounts)
    → amount serial amounts + (if contains serial serials then count else 0)
      ≤ amount serial (add_amounts count serials amounts)
unfolding add_amounts
amount-add_amounts count serial [] amounts = omega arith
amount-add_amounts count serial (other ∷ rest) amounts = ground (
  arith,
  ==_iff other serial,
  amount-put other serial (amount other amounts + count) amounts,
  amount-add_amounts count serial rest (put other (amount other amounts + count) amounts),
)

-- The counter never falls behind the batch, and the batch stays in its bounds.
record Counted (batch_size : ℕ) (serial : String) (d : Draw) : Type 0 where
  counted : load serial d.batch ≤ amount serial d.serial_amounts
  bounded : load serial d.batch ≤ batch_size

draw_group-Counted :
    (batch_size : ℕ) (serial : String) (serials : Serials) (d : Draw)
    → Counted batch_size serial d
    → Counted batch_size serial (draw_group batch_size serials d)
unfolding draw_group
draw_group-Counted batch_size serial serials d v =
    let slots = slots_of batch_size d.serial_amounts serials.first serials.others in
    let commands = (pop serials slots d.queue).0 in
    ground (
      arith,
      load-put serial serials commands d.batch,
      amount-add_amounts (length commands) serial (members serials) d.serial_amounts,
      slots_of-le batch_size d.serial_amounts serial serials.first serials.others,
      length-pop serials slots d.queue,
    )

draw-Counted :
    (batch_size : ℕ) (serial : String) (order : List Serials) (d : Draw)
    → Counted batch_size serial d
    → Counted batch_size serial (draw batch_size order d)
unfolding draw
draw-Counted batch_size serial [] d v = v
draw-Counted batch_size serial (serials ∷ order) d v =
    draw-Counted batch_size serial order _ (draw_group-Counted batch_size serial serials d v)

-- Whatever is queued, the next batch holds at most `batch_size` evaluations for any one device.
pub load-next-le :
    (bundle : Bundle) (batch : Batch) (serial : String)
    → (next bundle).0 ≡ some batch
    → load serial batch ≤ bundle.batch_size
unfolding next
load-next-le bundle batch serial h =
    let start : Draw = record { serial_amounts = []; batch = []; queue = bundle.queue } in
    let order = sort_by_size (keys bundle.queue) in
    ground (
      arith,
      draw-Counted bundle.batch_size serial order start
          (record { counted = omega arith; bounded = omega arith }),
    )
