-- ===== src/Client/Factory/Stalled.antt =====
-- When the consumer of results waits for ever: `getResults` of src/icefarm/client/lib/BatchClient.py sleeps
-- until there are results, and nothing wakes it when the bundle turns out to be empty.
use i_cefarm.Prelude.{
  ℕ, ◌≡◌, refl, ap, String, false, none, some, List, [], ◌∷◌, string_key, arith, any, is_nonempty,
  contains, Option-cases, inl, inr,
}
use i_cefarm.Dict.{Dict, get, values}
use i_cefarm.Client.Factory.{
  Factory, Result, process_result, process_results, is_awaiting, get_results, draw_batch,
}

none_awaited :
    (serial : String) (ids : List String) (awaiting : Dict String (List String))
    → any is_nonempty (values awaiting) ≡ false
    → get serial awaiting ≡ some ids
    → ids ≡ []
unfolding get
none_awaited serial ids [] quiet found = cc
none_awaited serial ids ((other, []) ∷ rest) quiet found =
    ground (arith, quiet, found, none_awaited serial ids rest)
none_awaited serial ids ((other, id ∷ more) ∷ rest) quiet found = cc

module _ {V : Type 0} where
  process_result_quiet :
      (now : ℕ) (result : Result V) (f : Factory V)
      → is_awaiting f ≡ false
      → process_result now result f ≡ f
  unfolding process_result is_awaiting
  process_result_quiet now (serial, id, outcome) f quiet =
      elim (Option-cases (get serial f.awaiting_results)) [
        | inl unknown ↦ ground (arith, unknown)
        | inr (ids, found) ↦
            let e = none_awaited serial ids f.awaiting_results quiet found in
            ground (arith, found, e, ap (contains id) e)
      ]

  process_results_quiet :
      (now : ℕ) (results : List (Result V)) (f : Factory V)
      → is_awaiting f ≡ false
      → process_results now results f ≡ f
  unfolding process_results
  process_results_quiet now [] f quiet = refl
  process_results_quiet now (result ∷ rest) f quiet =
      rw (process_result_quiet now result f quiet) (process_results_quiet now rest f quiet)

  get_results-none : (f : Factory V) → f.results ≡ [] → (get_results f).0 ≡ none
  unfolding get_results
  get_results-none f collected = ground (arith, collected, ap is_nonempty collected)

  -- If every result was collected before the sender draws from the bundle for the last time, the consumer
  -- never returns: drawing wakes nobody, and no result that still comes in, of any device, is one that is
  -- awaited.
  pub get_results_stalls :
      (now : ℕ) (results : List (Result V)) (f : Factory V)
      → f.results ≡ []
      → is_awaiting f ≡ false
      → (get_results (process_results now results (draw_batch f).1)).0 ≡ none
  unfolding draw_batch is_awaiting
  get_results_stalls now results f collected quiet =
      let f' = (draw_batch f).1 in
      rw (process_results_quiet now results f' quiet) (get_results-none f' collected)
