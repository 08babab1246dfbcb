-- ===== src/Client/Factory/Results.antt =====
-- Each awaited evaluation gives one result: the accounting of `processResult` and `_addBatch` of
-- src/icefarm/client/lib/BatchClient.py.
use i_cefarm.Prelude.{
  ℕ, ◌≡◌, String, false, [], ◌∷◌, ◌++◌, arith, string_key, contains, discard, contains-discard,
  ==_refl, ◌==◌, if◌then◌else◌,
}
use i_cefarm.Dict.{get-put}
use i_cefarm.Client.Factory.{Factory, Outcome, awaited, process_result}

module _ {V : Type 0} where
  -- A second result for the same evaluation on the same device, whatever it says and whenever it
  -- comes, changes nothing.
  process_result_twice :
      (now later : ℕ) (serial evaluation_id : String) (first second : Outcome V) (f : Factory V)
      → process_result later
          (serial, evaluation_id, second)
          (process_result now (serial, evaluation_id, first) f)
        ≡ process_result now (serial, evaluation_id, first) f
  unfolding process_result
  process_result_twice now later serial id first second f = ground (
    arith,
    get-put serial serial (discard id (awaited serial f)) f.awaiting_results,
    ==_refl serial,
    ==_refl id,
    contains-discard id id (awaited serial f),
  )

  -- A result counts exactly when its evaluation is awaited from that device: then it is recorded last
  -- and its evaluation is awaited no more; else the factory stays as it was. What the other devices
  -- owe does not change either way.
  process_result_lem :
      (now : ℕ) (serial evaluation_id : String) (result : Outcome V) (f : Factory V)
      → let f' = process_result now (serial, evaluation_id, result) f in
        let recorded = f.results ++ (serial, evaluation_id, result) ∷ [] in
        (f'.results ≡ (if contains evaluation_id (awaited serial f) then recorded else f.results))
        × (awaited serial f' ≡ (
            if contains evaluation_id (awaited serial f)
            then discard evaluation_id (awaited serial f)
            else awaited serial f))
        × ((other : String) → (serial == other) ≡ false → awaited other f' ≡ awaited other f)
  unfolding process_result
  process_result_lem now serial id result f = (
    ground arith,
    ground (
      arith,
      get-put serial serial (discard id (awaited serial f)) f.awaiting_results,
      ==_refl serial,
    ),
    λ other apart.
        ground (arith, get-put serial other (discard id (awaited serial f)) f.awaiting_results),
  )
