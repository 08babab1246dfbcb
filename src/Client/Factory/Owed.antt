-- ===== src/Client/Factory/Owed.antt =====
-- How many results a device owes a batch factory of src/icefarm/client/lib/BatchClient.py, and what a result
-- and a batch change of it.
use i_cefarm.Prelude.{
  ℕ, ◌+◌, ◌≤◌, ap, String, List, [], ◌∷◌, ◌++◌, arith, length, string_key, contains, discard, union,
  ==_iff, ◌==◌, if◌then◌else◌, length-discard-le, length-union-le, length-map, All, Distinct,
}
use i_cefarm.Dict.{get-put}
use i_cefarm.Client.Evaluation.{Evaluation, members}
use i_cefarm.Client.Bundle.{Batch}
use i_cefarm.Client.Bundle.Bounds.{load}
use i_cefarm.Client.Factory.{
  Factory, Result, awaited, process_result, process_results, ids_of, failures, await_serial,
  await_group, await_batch, add_batch,
}

-- The members of every group are a set.
abbrev pub HoldsSets : Batch → Type 0
HoldsSets = All (λ entry. Distinct (members entry.0))

module _ {V : Type 0} where
  -- How many evaluations a device still owes.
  abbrev pub owed : String → Factory V → ℕ
  owed serial f = length (awaited serial f)

  owed-process_result :
      (now : ℕ) (result : Result V) (serial : String) (f : Factory V)
      → owed serial (process_result now result f) ≤ owed serial f
  unfolding process_result
  owed-process_result now (other, id, outcome) serial f = ground (
    arith,
    get-put other serial (discard id (awaited other f)) f.awaiting_results,
    ==_iff other serial,
    length-discard-le id (awaited other f),
  )

  pub owed-process_results :
      (now : ℕ) (results : List (Result V)) (serial : String) (f : Factory V)
      → owed serial (process_results now results f) ≤ owed serial f
  unfolding process_results
  owed-process_results now [] serial f = omega arith
  owed-process_results now (result ∷ rest) serial f = omega (
    arith,
    owed-process_results now rest serial (process_result now result f),
    owed-process_result now result serial f,
  )

  owed-await_serial :
      (now : ℕ) (ids : List String) (other serial : String) (f : Factory V)
      → owed serial (await_serial now ids other f)
        ≤ owed serial f + (if other == serial then length ids else 0)
  unfolding await_serial
  owed-await_serial now ids other serial f = ground (
    arith,
    get-put other serial (union (awaited other f) ids) f.awaiting_results,
    ==_iff other serial,
    length-union-le (awaited other f) ids,
  )

  owed-await_group :
      (now : ℕ) (ids serials : List String) (serial : String) (f : Factory V)
      (bad : List (Result V))
      → Distinct serials
      → owed serial (await_group now ids serials f bad).0
        ≤ owed serial f + (if contains serial serials then length ids else 0)
  unfolding await_group
  owed-await_group now ids [] serial f bad d = omega arith
  owed-await_group now ids (other ∷ rest) serial f bad d =
      let bad' : List (Result V) =
        if contains other f.broken_serials then bad ++ failures other ids else bad in
      ground (
        arith,
        ==_iff other serial,
        owed-await_serial now ids other serial f,
        owed-await_group now ids rest serial (await_serial now ids other f) bad' d.1,
      )

  owed-await_batch :
      (now : ℕ) (batch : Batch) (serial : String) (f : Factory V) (bad : List (Result V))
      → HoldsSets batch
      → owed serial (await_batch now batch f bad).0 ≤ owed serial f + load serial batch
  unfolding await_batch
  owed-await_batch now [] serial f bad d = omega arith
  owed-await_batch now ((serials, evaluations) ∷ rest) serial f bad d =
      let (f', bad') = await_group now (ids_of evaluations) (members serials) f bad in
      omega (
        arith,
        owed-await_batch now rest serial f' bad' d.1,
        ap (λ (n : ℕ). if contains serial (members serials) then n else 0)
            (length-map (λ (evaluation : Evaluation). evaluation.id) evaluations),
        owed-await_group now (ids_of evaluations) (members serials) serial f bad d.0,
      )

  -- A batch adds at most its own load to what a device owes; on a broken device its failures come off
  -- again.
  pub owed-add_batch :
      (now : ℕ) (batch : Batch) (serial : String) (f : Factory V)
      → HoldsSets batch
      → owed serial (add_batch now batch f) ≤ owed serial f + load serial batch
  unfolding add_batch
  owed-add_batch now batch serial f d =
      let (f', bad) = await_batch now batch f [] in
      omega
        (arith, owed-process_results now bad serial f', owed-await_batch now batch serial f [] d)
