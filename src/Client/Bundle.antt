-- ===== src/Client/Bundle.antt =====
-- `EvaluationBundle` of src/icefarm/client/lib/BatchClient.py: evaluations are queued by their set of
-- serials, and `next` draws the next batch from the queues.
pub mod Bounds
pub mod Contents
pub mod Sets
pub mod Rounds
pub mod Ends
pub mod Uniform
pub mod Starved
use i_cefarm.Prelude.{
  ℕ, zero, suc, ◌+◌, ◌-◌, min, String, Bool, true, false, Option, none, some, List, [], ◌∷◌, leb,
  eqb, if◌then◌else◌, length, string_key, get_or,
}
use i_cefarm.Dict.{Dict, get, put}
use i_cefarm.Utils.MappedQueues.{MappedQueues, append, keys, pop}
use i_cefarm.Client.Evaluation.{Evaluation, Serials, members, size, serials_key}

abbrev pub Batch : Type 0
Batch = Dict Serials (List Evaluation)

pub record Bundle : Type 0 where
  pub queue : MappedQueues Serials Evaluation
  pub evaluation_lookup : Dict String Evaluation
  pub batch_size : ℕ
  pub empty : Bool

-- `for evaluation in evaluations: self.queue.append(evaluation.serials, evaluation)`
unfoldable pub fill :
    List Evaluation → MappedQueues Serials Evaluation → MappedQueues Serials Evaluation
fill [] queue = queue
fill (evaluation ∷ rest) queue = fill rest (append evaluation.serials evaluation queue)

unfoldable pub index : List Evaluation → Dict String Evaluation → Dict String Evaluation
index [] lookup = lookup
index (evaluation ∷ rest) lookup = index rest (put evaluation.id evaluation lookup)

unfoldable pub init : List Evaluation → ℕ → Bundle
unfolding fill index
init evaluations batch_size = record {
  queue = fill evaluations [];
  evaluation_lookup = index evaluations [];
  batch_size = batch_size;
  empty = false;
}

-- `sorted(keys, key=len)`, which is stable.
unfoldable pub insert_by_size : Serials → List Serials → List Serials
insert_by_size serials [] = serials ∷ []
insert_by_size serials (other ∷ rest) =
    if leb (size serials) (size other)
    then serials ∷ other ∷ rest
    else other ∷ insert_by_size serials rest

unfoldable pub sort_by_size : List Serials → List Serials
unfolding insert_by_size
sort_by_size [] = []
sort_by_size (serials ∷ rest) = insert_by_size serials (sort_by_size rest)

-- A `Counter`, which reads a missing key as 0.
abbrev pub Amounts : Type 0
Amounts = Dict String ℕ

abbrev pub amount : String → Amounts → ℕ
amount serial amounts = get_or (get serial amounts) 0

-- `min(self.batch_size - serial_amounts[serial] for serial in serials)`; no amount passes the batch
-- size, so the subtraction is exact.
unfoldable pub slots_of : ℕ → Amounts → String → List String → ℕ
slots_of batch_size amounts serial [] = batch_size - amount serial amounts
slots_of batch_size amounts serial (other ∷ rest) =
    min (batch_size - amount serial amounts) (slots_of batch_size amounts other rest)

-- `for serial in serials: serial_amounts[serial] += len(commands)`
unfoldable pub add_amounts : ℕ → List String → Amounts → Amounts
add_amounts count [] amounts = amounts
add_amounts count (serial ∷ rest) amounts =
    add_amounts count rest (put serial (amount serial amounts + count) amounts)

-- The variables of the loop of `__next__`.
pub record Draw : Type 0 where
  pub serial_amounts : Amounts
  pub batch : Batch
  pub queue : MappedQueues Serials Evaluation

unfoldable pub draw_group : ℕ → Serials → Draw → Draw
draw_group batch_size serials d =
    let slots = slots_of batch_size d.serial_amounts serials.first serials.others in
    if eqb slots 0
    then d
    else (let (commands, queue') = pop serials slots d.queue in
        record {
          serial_amounts = add_amounts (length commands) (members serials) d.serial_amounts;
          batch = put serials commands d.batch;
          queue = queue';
        })

unfoldable pub draw : ℕ → List Serials → Draw → Draw
draw batch_size [] d = d
draw batch_size (serials ∷ rest) d = draw batch_size rest (draw_group batch_size serials d)

-- `__next__`: the batch, or `none` for StopIteration.
unfoldable pub next : Bundle → Option Batch × Bundle
next bundle =
    let drawn =
      draw bundle.batch_size (sort_by_size (keys bundle.queue))
        (record { serial_amounts = []; batch = []; queue = bundle.queue }) in
    elim drawn.batch [
      | [] ↦ (none, record bundle { queue = drawn.queue; empty = true })
      | group ∷ groups ↦ (some (group ∷ groups), record bundle { queue = drawn.queue })
    ]

-- `for batch in bundle`: the batches until StopIteration, on fuel.
unfoldable pub drain : ℕ → Bundle → List Batch × Bundle
drain zero bundle = ([], bundle)
drain (suc fuel) bundle =
    let (drawn, bundle') = next bundle in
    elim drawn [
      | none ↦ ([], bundle')
      | some batch ↦ (let (batches, final) = drain fuel bundle' in (batch ∷ batches, final))
    ]
