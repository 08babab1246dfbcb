-- ===== src/Client/Factory/Accounted.antt =====
-- No evaluation that a batch factory of src/icefarm/client/lib/BatchClient.py has sent to a device is
-- forgotten, in whatever order results, watchdog rounds, further batches and the consumer come.
use i_cefarm.Prelude.{
  Option, none, some, ◌&&◌, ◌==◌, false, ℕ, String, Bool, ◌||◌, List, [], ◌∷◌, ◌++◌, string_key,
  any,
}
use i_cefarm.Dict.{Dict, get}
use i_cefarm.Client.Evaluation.{Evaluation}
use i_cefarm.Client.Bundle.{Batch}
use i_cefarm.Client.Factory.{
  Factory, Result, Outcome, process_result, add_batch, watch, get_results,
}
use i_cefarm.Client.Factory.Known.{is_known}

-- What `getResults` yields for a result: the serial, the evaluation if the bundle knows the id, and the outcome.
abbrev pub Yielded : Type 0 → Type 0
Yielded V = String × Option Evaluation × Outcome V

-- A factory, the failures that the watchdog has still to report, and what `getResults` has yielded to its consumer.
pub record Run (V : Type 0) : Type 0 where
  pub factory : Factory V
  pub failed : List (Result V)
  pub collected : List (Yielded V)

pub data Event (V : Type 0) : Type 0 where
  answers : ℕ → Result V → Event V
  watches : (List String → List String) → ℕ → Event V
  reports : ℕ → Event V
  sends : ℕ → Batch → Event V
  collects : Event V

abbrev pub is_evaluation : String → Option Evaluation → Bool
is_evaluation id none = false
is_evaluation id (some evaluation) = evaluation.id == id

module _ {V : Type 0} where
  unfoldable pub report_first : ℕ → List (Result V) → Run V → Run V
  report_first now [] r = r
  report_first now (failure ∷ rest) r = record r {
    factory = process_result now failure r.factory;
    failed = rest;
  }

  abbrev yielded : Option (List (Yielded V) × Bool) → List (Yielded V)
  yielded none = []
  yielded (some (taken, ends)) = taken

  unfoldable pub step : Event V → Run V → Run V
  unfolding report_first
  step (answers now result) r = record r { factory = process_result now result r.factory }
  step (watches reboot now) r =
      let (marked, failed) = watch reboot now r.factory in
      record r { factory = marked; failed = r.failed ++ failed }
  step (reports now) r = report_first now r.failed r
  step (sends now batch) r = record r { factory = add_batch now batch r.factory }
  step collects r =
      let (taken, f) = get_results r.factory in
      record r { factory = f; collected = r.collected ++ yielded taken }

  unfoldable pub steps : List (Event V) → Run V → Run V
  steps [] r = r
  steps (e ∷ rest) r = steps rest (step e r)

  abbrev pub is_for : String → String → Yielded V → Bool
  is_for serial id y = y.0 == serial && is_evaluation id y.1

  -- The device still owes the evaluation, or a result of it is kept, or was yielded with the evaluation.
  abbrev pub is_accounted : String → String → Run V → Bool
  is_accounted serial id r = is_known serial id r.factory || any (is_for serial id) r.collected

  -- The bundle knows the evaluation by its id.
  abbrev pub knows : String → Factory V → Bool
  knows id f = is_evaluation id (get id f.bundle.evaluation_lookup)
