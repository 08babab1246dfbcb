-- ===== src/Client/Factory.antt =====
-- `AbstractBatchFactory` and its three subclasses, of src/icefarm/client/lib/BatchClient.py. A method
-- takes the time that it reads as `now`; what runs under `result_cv` is one step.
pub mod Results
pub mod Stalled
pub mod Expired
pub mod Idle
pub mod Known
pub mod Accounted
pub mod Owed
pub mod Moves
pub mod Balance
use i_cefarm.Prelude.{
  ℕ, ◌+◌, ◌/◌, max, String, Bool, true, false, not, Option, none, some, List, [], ◌∷◌, ◌++◌, map,
  ltb, eqb, if◌then◌else◌, length, string_key, get_or, any, is_nonempty, contains, union, discard,
  select, add_member,
}
use i_cefarm.Dict.{Dict, get, put, keys, values}
use i_cefarm.Client.Evaluation.{Evaluation, Serials, members}
use i_cefarm.Client.Bundle
use i_cefarm.Client.Bundle.{Bundle, Batch}

-- What a device answers, or the marker `EvaluationFailed`.
pub data Outcome (V : Type 0) : Type 0 where
  answer : V → Outcome V
  evaluation_failed : Outcome V

-- A serial, the id of an evaluation, and its outcome.
abbrev pub Result : Type 0 → Type 0
Result V = String × String × Outcome V

pub record Factory (V : Type 0) : Type 0 where
  pub bundle : Bundle
  pub results : List (Result V)
  pub awaiting_results : Dict String (List String)
  pub serial_last_result : Dict String ℕ
  pub result_timeout : ℕ
  pub broken_serials : List String
  pub stop_thread : Bool

abbrev pub ids_of : List Evaluation → List String
ids_of = map (λ evaluation. evaluation.id)

-- `_readyForBatch` of the three factories.
pub data Policy : Type 0 where
  quick patient : Policy
  balanced : ℕ → Policy

-- `max(map(len, self.awaiting_results.values()))`
unfoldable pub highest_queued : List (List String) → ℕ
highest_queued [] = 0
highest_queued (ids ∷ rest) = max (length ids) (highest_queued rest)

-- What one turn of the loop of `getBatches` can do.
pub data Turn : Type 0 where
  finished waiting : Turn
  send : Batch → Turn

module _ {V : Type 0} where
  -- `__init__`
  unfoldable pub init : List Evaluation → ℕ → ℕ → Factory V
  init evaluations batch_size result_timeout = record {
    bundle = Bundle.init evaluations batch_size;
    results = [];
    awaiting_results = [];
    serial_last_result = [];
    result_timeout = result_timeout;
    broken_serials = [];
    stop_thread = false;
  }

  -- The ids that are awaited from a device.
  abbrev pub awaited : String → Factory V → List String
  awaited serial f = get_or (get serial f.awaiting_results) []

  unfoldable pub process_result : ℕ → Result V → Factory V → Factory V
  process_result now (serial, evaluation_id, result) f = elim (get serial f.awaiting_results) [
    | none ↦ f
    | some ids ↦
        if contains evaluation_id ids
        then record f {
          awaiting_results = put serial (discard evaluation_id ids) f.awaiting_results;
          serial_last_result = put serial now f.serial_last_result;
          results = f.results ++ (serial, evaluation_id, result) ∷ [];
        }
        else f
  ]

  unfoldable pub process_results : ℕ → List (Result V) → Factory V → Factory V
  process_results now [] f = f
  process_results now (result ∷ rest) f = process_results now rest (process_result now result f)

  -- `any(self.awaiting_results.values())`
  unfoldable pub is_awaiting : Factory V → Bool
  is_awaiting f = any is_nonempty (values f.awaiting_results)

  -- One round of `getResults`: nothing while there are no results to take, else what it yields and
  -- whether the generator returns after it.
  unfoldable pub get_results :
      Factory V → Option (List (String × Option Evaluation × Outcome V) × Bool) × Factory V
  unfolding is_awaiting
  get_results f =
      if is_nonempty f.results
      then (let yielded = map (λ r. (r.0, get r.1 f.bundle.evaluation_lookup, r.2)) f.results in
          let f' : Factory V = record f { results = [] } in
          if f.bundle.empty
          then (if is_awaiting f
              then (some (yielded, false), f')
              else (some (yielded, true), record f' { stop_thread = true }))
          else (some (yielded, false), f'))
      else (none, f)

  -- The body of the inner loop of `_addBatch`.
  unfoldable pub await_serial : ℕ → List String → String → Factory V → Factory V
  await_serial now ids serial f = elim (get serial f.awaiting_results) [
    | none ↦ record f {
      serial_last_result = put serial now f.serial_last_result;
      awaiting_results = put serial (union [] ids) f.awaiting_results;
    }
    | some known ↦ record f { awaiting_results = put serial (union known ids) f.awaiting_results }
  ]

  abbrev pub failures : String → List String → List (Result V)
  failures serial = map (λ id. (serial, id, evaluation_failed))

  -- The inner loop: the factory, and the failures to report for broken devices.
  unfoldable pub await_group :
      ℕ → List String → List String → Factory V → List (Result V) → Factory V × List (Result V)
  await_group now ids [] f bad_results = (f, bad_results)
  await_group now ids (serial ∷ rest) f bad_results =
      await_group now ids rest (await_serial now ids serial f) (
        if contains serial f.broken_serials
        then bad_results ++ failures serial ids
        else bad_results)

  unfoldable pub await_batch : ℕ → Batch → Factory V → List (Result V) → Factory V × List (Result V)
  await_batch now [] f bad_results = (f, bad_results)
  await_batch now ((serials, evaluations) ∷ rest) f bad_results =
      let (f', bad_results') =
        await_group now (ids_of evaluations) (members serials) f bad_results in
      await_batch now rest f' bad_results'

  unfoldable pub add_batch : ℕ → Batch → Factory V → Factory V
  add_batch now batch f =
      let (f', bad_results) = await_batch now batch f [] in process_results now bad_results f'

  unfoldable pub ready_for_batch : Policy → Factory V → Bool
  unfolding is_awaiting highest_queued
  ready_for_batch quick f = true
  ready_for_batch patient f = not (is_awaiting f)
  ready_for_batch (balanced target_batches) f =
      if is_awaiting f
      then not
          (eqb (highest_queued (values f.awaiting_results) / f.bundle.batch_size) target_batches)
      else true

  -- One turn of `getBatches` that has drawn its batch already and looks whether it may go out.
  unfoldable pub offer_batch : Policy → ℕ → Batch → Factory V → Turn × Factory V
  offer_batch policy now batch f =
      if ready_for_batch policy f then (send batch, add_batch now batch f) else (waiting, f)

  -- `for batch in self.bundle`: draws the next batch, or ends the loop.
  unfoldable pub draw_batch : Factory V → Option Batch × Factory V
  draw_batch f =
      let (drawn, bundle') = Bundle.next f.bundle in (drawn, record f { bundle = bundle' })

  -- The watchdog: the devices whose results are overdue and that are not known to be broken.
  unfoldable pub newly_expired : ℕ → Factory V → List String
  newly_expired now f =
      select (λ serial. not (contains serial f.broken_serials))
        (select (λ serial. ltb (get_or (get serial f.serial_last_result) 0 + f.result_timeout) now)
          (select (λ serial. is_nonempty (awaited serial f)) (keys f.awaiting_results)))

  -- The watchdog's loop over the devices that the reboot did not bring back; ending their reservations
  -- is the client's part.
  unfoldable pub mark_broken :
      List String → Factory V → List (Result V) → Factory V × List (Result V)
  mark_broken [] f failed = (f, failed)
  mark_broken (serial ∷ rest) f failed =
      mark_broken rest (record f { broken_serials = add_member serial f.broken_serials })
        (failed ++ failures serial (awaited serial f))

  -- What a round of the watchdog does under `result_cv`, with `reboot` for what the client's `reboot` returns: the
  -- factory, and the failures that the watchdog then reports, each by a `process_result` of its own.
  unfoldable pub watch : (List String → List String) → ℕ → Factory V → Factory V × List (Result V)
  unfolding newly_expired mark_broken
  watch reboot now f = mark_broken (reboot (newly_expired now f)) f []
