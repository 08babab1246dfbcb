-- ===== src/Client/Factory/Known.antt =====
-- What a batch factory of src/icefarm/client/lib/BatchClient.py knows of an evaluation: it is awaited, or it
-- has a result. No operation but the collecting of results changes that for the worse.
use i_cefarm.Prelude.{
  ℕ, ◌≡◌, refl, ◌∙◌, String, Bool, true, ◌&&◌, ◌||◌, List, [], ◌∷◌, ◌++◌, arith, string_key,
  contains, contains-union, ==_iff, ◌==◌, if◌then◌else◌, any, union, Bool-cases, inl, inr,
}
use i_cefarm.Dict.{get-put}
use i_cefarm.Client.Evaluation.{members}
use i_cefarm.Client.Bundle.{Batch}
use i_cefarm.Client.Factory.{
  Factory, Result, Outcome, awaited, process_result, process_results, await_serial, await_group,
  await_batch, add_batch, newly_expired, watch, ids_of, failures,
}
use i_cefarm.Client.Factory.Expired.{is_about, mark_broken_lem, any-append, awaited-process_result}

-- Whether a batch holds an evaluation for a device.
abbrev pub holds : String → String → Batch → Bool
holds serial id batch =
    any (λ entry. contains serial (members entry.0) && contains id (ids_of entry.1)) batch

module _ {V : Type 0} where
  -- Whether an evaluation on a device is awaited, or has a result.
  abbrev pub is_known : String → String → Factory V → Bool
  is_known serial id f = contains id (awaited serial f) || any (is_about serial id) f.results

  pub known-process_result :
      (now : ℕ) (other id : String) (outcome : Outcome V) (serial x : String) (f : Factory V)
      → is_known serial x (process_result now (other, id, outcome) f) ≡ is_known serial x f
  unfolding process_result
  known-process_result now other id outcome serial x f = ground (
    arith,
    awaited-process_result now other id outcome serial x f,
    any-append (is_about serial x) f.results ((other, id, outcome) ∷ []),
    ==_iff other serial,
    ==_iff id x,
  )

  known-process_results :
      (now : ℕ) (rs : List (Result V)) (serial x : String) (f : Factory V)
      → is_known serial x (process_results now rs f) ≡ is_known serial x f
  unfolding process_results
  known-process_results now [] serial x f = refl
  known-process_results now ((other, id, outcome) ∷ rest) serial x f =
      known-process_results now rest serial x (process_result now (other, id, outcome) f)
      ∙ known-process_result now other id outcome serial x f

  -- What a round of the watchdog marks changes nothing of it.
  pub known-watch :
      (reboot : List String → List String) (now : ℕ) (serial x : String) (f : Factory V)
      → is_known serial x (watch reboot now f).0 ≡ is_known serial x f
  unfolding watch
  known-watch reboot now serial x f =
      let marked = mark_broken_lem (reboot (newly_expired now f)) serial x f [] in
      ground (arith, marked.0, marked.1)

  known-await_serial :
      (now : ℕ) (ids : List String) (other serial x : String) (f : Factory V)
      → is_known serial x f ≡ true
      → is_known serial x (await_serial now ids other f) ≡ true
  unfolding await_serial
  known-await_serial now ids other serial x f known = ground (
    arith,
    known,
    ==_iff other serial,
    get-put other serial (union [] ids) f.awaiting_results,
    get-put other serial (union (awaited other f) ids) f.awaiting_results,
    contains-union x (awaited other f) ids,
  )

  known-await_group :
      (now : ℕ) (ids serials : List String) (f : Factory V) (bad : List (Result V))
      (serial x : String)
      → is_known serial x f ≡ true
      → is_known serial x (await_group now ids serials f bad).0 ≡ true
  unfolding await_group
  known-await_group now ids [] f bad serial x known = known
  known-await_group now ids (other ∷ rest) f bad serial x known =
      known-await_group now ids rest (await_serial now ids other f) _ serial x
        (known-await_serial now ids other serial x f known)

  known-await_batch :
      (now : ℕ) (batch : Batch) (f : Factory V) (bad : List (Result V)) (serial x : String)
      → is_known serial x f ≡ true
      → is_known serial x (await_batch now batch f bad).0 ≡ true
  unfolding await_batch
  known-await_batch now [] f bad serial x known = known
  known-await_batch now ((serials, evaluations) ∷ rest) f bad serial x known =
      let (f', bad') = await_group now (ids_of evaluations) (members serials) f bad in
      known-await_batch now rest f' bad' serial x
        (known-await_group now (ids_of evaluations) (members serials) f bad serial x known)

  pub known-add_batch :
      (now : ℕ) (batch : Batch) (f : Factory V) (serial x : String)
      → is_known serial x f ≡ true
      → is_known serial x (add_batch now batch f) ≡ true
  unfolding add_batch
  known-add_batch now batch f serial x known =
      let (f', bad) = await_batch now batch f [] in
      known-process_results now bad serial x f' ∙ known-await_batch now batch f [] serial x known

  sent-await_serial :
      (now : ℕ) (ids : List String) (serial x : String) (f : Factory V)
      → contains x ids ≡ true
      → is_known serial x (await_serial now ids serial f) ≡ true
  unfolding await_serial
  sent-await_serial now ids serial x f sent = ground (
    arith,
    sent,
    ==_iff serial serial,
    get-put serial serial (union [] ids) f.awaiting_results,
    get-put serial serial (union (awaited serial f) ids) f.awaiting_results,
    contains-union x (awaited serial f) ids,
    contains-union x [] ids,
  )

  sent-await_group :
      (now : ℕ) (ids serials : List String) (f : Factory V) (bad : List (Result V))
      (serial x : String)
      → contains serial serials ≡ true
      → contains x ids ≡ true
      → is_known serial x (await_group now ids serials f bad).0 ≡ true
  unfolding await_group
  sent-await_group now ids [] f bad serial x member sent = cc
  sent-await_group now ids (other ∷ rest) f bad serial x member sent =
      let f' = await_serial now ids other f in
      let bad' = if contains other f.broken_serials then bad ++ failures other ids else bad in
      elim (Bool-cases (other == serial)) [
        | inl same ↦
            known-await_group now ids rest f' bad' serial x
              (ground (arith, same, ==_iff other serial, sent-await_serial now ids serial x f sent))
        | inr apart ↦
            sent-await_group now ids rest f' bad' serial x (ground (arith, member, apart)) sent
      ]

  sent-await_batch :
      (now : ℕ) (batch : Batch) (f : Factory V) (bad : List (Result V)) (serial x : String)
      → holds serial x batch ≡ true
      → is_known serial x (await_batch now batch f bad).0 ≡ true
  unfolding await_batch
  sent-await_batch now [] f bad serial x held = cc
  sent-await_batch now ((serials, evaluations) ∷ rest) f bad serial x held =
      let ids = ids_of evaluations in
      let (f', bad') = await_group now ids (members serials) f bad in
      elim (Bool-cases (contains serial (members serials) && contains x ids)) [
        | inl here ↦ known-await_batch now rest f' bad' serial x (
            sent-await_group now ids (members serials) f bad serial x (ground (arith, here))
              (ground (arith, here)))
        | inr elsewhere ↦
            sent-await_batch now rest f' bad' serial x (ground (arith, held, elsewhere))
      ]

  pub sent-add_batch :
      (now : ℕ) (batch : Batch) (f : Factory V) (serial x : String)
      → holds serial x batch ≡ true
      → is_known serial x (add_batch now batch f) ≡ true
  unfolding add_batch
  sent-add_batch now batch f serial x held =
      let (f', bad) = await_batch now batch f [] in
      known-process_results now bad serial x f' ∙ sent-await_batch now batch f [] serial x held
