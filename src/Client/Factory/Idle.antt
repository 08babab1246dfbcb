-- ===== src/Client/Factory/Idle.antt =====
-- When the watchdog of src/icefarm/client/lib/BatchClient.py takes a device for dead that has only been
-- idle: `_addBatch` notes the time only for a device that it has never seen.
use i_cefarm.Prelude.{
  add_member, ap, ◌||◌, ◌++◌, ◌==◌, Option, none, any, if◌then◌else◌, ℕ, ◌+◌, ◌<◌, ◌≡◌, refl,
  String, Bool, true, false, ◌&&◌, not, some, List, [], ◌∷◌, arith, string_key, contains, ==_iff,
  is_nonempty, get_or, select, ltb, union,
}
use i_cefarm.Dict.{Dict, get, put, get-put, keys}
use i_cefarm.Client.Evaluation.{Evaluation, members}
use i_cefarm.Client.Bundle.{Batch}
use i_cefarm.Client.Factory.Expired.{
  any-append, others, process_results-Same, broken-process_results,
}
use i_cefarm.Client.Factory.{
  Factory, awaited, newly_expired, await_serial, await_group, await_batch, add_batch,
  process_results, process_result, ids_of, failures, Result,
}

contains-select :
    (p : String → Bool) (x : String) (xs : List String)
    → contains x (select p xs) ≡ (p x && contains x xs)
contains-select p x [] = ground arith
contains-select p x (y ∷ xs) = ground (arith, contains-select p x xs, ==_iff y x)

contains-put :
    {V : Type 0} (k : String) (v : V) (d : Dict String V) → contains k (keys (put k v d)) ≡ true
unfolding put
contains-put k v [] = ground (arith, ==_iff k k)
contains-put k v ((j, w) ∷ d) = ground (arith, ==_iff j k, contains-put k v d)

nonempty_of_contains :
    (x : String) (xs : List String) → contains x xs ≡ true → is_nonempty xs ≡ true
nonempty_of_contains x [] h = cc
nonempty_of_contains x (y ∷ xs) h = refl

nonempty-add_member : (x : String) (xs : List String) → is_nonempty (add_member x xs) ≡ true
nonempty-add_member x [] = refl
nonempty-add_member x (y ∷ xs) = ground arith

nonempty-union :
    (xs ys : List String) → is_nonempty (union xs ys) ≡ (is_nonempty xs || is_nonempty ys)
nonempty-union xs [] = ground arith
nonempty-union xs (y ∷ ys) =
    ground (arith, nonempty-union (add_member y xs) ys, nonempty-add_member y xs)

nonempty-ids_of :
    (evaluations : List Evaluation) → is_nonempty (ids_of evaluations) ≡ is_nonempty evaluations
nonempty-ids_of [] = refl
nonempty-ids_of (evaluation ∷ rest) = refl

contains_of_owes :
    (serial : String) (d : Dict String (List String))
    → is_nonempty (get_or (get serial d) []) ≡ true
    → contains serial (keys d) ≡ true
unfolding get
contains_of_owes serial [] h = cc
contains_of_owes serial ((other, ids) ∷ d) h =
    ground (arith, h, ==_iff other serial, contains_of_owes serial d)

-- Whether a batch holds an evaluation for a device.
abbrev pub is_sent : String → Batch → Bool
is_sent serial batch = any (λ entry. contains serial (members entry.0) && is_nonempty entry.1) batch

abbrev has : Option (List String) → Bool
has none = false
has (some ids) = true

module _ {V : Type 0} where
  contains-newly_expired :
      (now : ℕ) (serial : String) (f : Factory V)
      → contains serial (newly_expired now f) ≡ (
          not (contains serial f.broken_serials)
          && (ltb (get_or (get serial f.serial_last_result) 0 + f.result_timeout) now
              && (is_nonempty (awaited serial f) && contains serial (keys f.awaiting_results))))
  unfolding newly_expired
  contains-newly_expired now serial f =
      let is_late = λ (other : String).
        ltb (get_or (get other f.serial_last_result) 0 + f.result_timeout) now in
      let owes = λ (other : String). is_nonempty (awaited other f) in
      let waiting = select owes (keys f.awaiting_results) in
      ground (
        arith,
        contains-select (λ other. not (contains other f.broken_serials)) serial
            (select is_late waiting),
        contains-select is_late serial waiting,
        contains-select owes serial (keys f.awaiting_results),
      )

  -- A device that has been sent something before and is not broken, with the time of its last result, and nothing
  -- about it among some failures.
  record IsIdle (serial : String) (last timeout : ℕ) (f : Factory V) (bad : List (Result V))
      : Type 0 where
    seen : has (get serial f.awaiting_results) ≡ true
    whole : contains serial f.broken_serials ≡ false
    answered : get_or (get serial f.serial_last_result) 0 ≡ last
    patience : f.result_timeout ≡ timeout
    silent : any (λ r. r.0 == serial) bad ≡ false

  abbrev owes : String → Factory V → Bool
  owes serial f = is_nonempty (awaited serial f)

  module _ (serial : String) (last timeout now : ℕ) where
    await_serial-IsIdle :
        (ids : List String) (other : String) (f : Factory V) (bad : List (Result V))
        → IsIdle serial last timeout f bad
        → IsIdle serial last timeout
            (await_serial now ids other f)
            (if contains other f.broken_serials then bad ++ failures other ids else bad)
    unfolding await_serial
    await_serial-IsIdle ids other f bad v = record {
      seen = ground (
        arith,
        v.seen,
        get-put other serial (union [] ids) f.awaiting_results,
        get-put other serial (union (awaited other f) ids) f.awaiting_results,
      );
      whole = ground (arith, v.whole);
      answered = ground (
        arith,
        v.seen,
        v.answered,
        ==_iff other serial,
        get-put other serial now f.serial_last_result,
      );
      patience = ground (arith, v.patience);
      silent = ground (
        arith,
        v.silent,
        v.whole,
        ==_iff other serial,
        any-append (λ r. r.0 == serial) bad (failures other ids),
        others V other serial ids,
      );
    }

    await_serial-owes :
        (ids : List String) (other : String) (f : Factory V)
        → owes serial (await_serial now ids other f)
          ≡ ((other == serial && is_nonempty ids) || owes serial f)
    unfolding await_serial
    await_serial-owes ids other f = ground (
      arith,
      ==_iff other serial,
      get-put other serial (union [] ids) f.awaiting_results,
      get-put other serial (union (awaited other f) ids) f.awaiting_results,
      nonempty-union (awaited other f) ids,
      nonempty-union [] ids,
    )

    await_group-IsIdle :
        (ids serials : List String) (f : Factory V) (bad : List (Result V))
        → IsIdle serial last timeout f bad
        → let (f', bad') = await_group now ids serials f bad in IsIdle serial last timeout f' bad'
    unfolding await_group
    await_group-IsIdle ids [] f bad v = v
    await_group-IsIdle ids (other ∷ rest) f bad v =
        await_group-IsIdle ids rest _ _ (await_serial-IsIdle ids other f bad v)

    await_batch-IsIdle :
        (batch : Batch) (f : Factory V) (bad : List (Result V))
        → IsIdle serial last timeout f bad
        → let (f', bad') = await_batch now batch f bad in IsIdle serial last timeout f' bad'
    unfolding await_batch
    await_batch-IsIdle [] f bad v = v
    await_batch-IsIdle ((serials, evaluations) ∷ rest) f bad v =
        await_batch-IsIdle rest _ _
          (await_group-IsIdle (ids_of evaluations) (members serials) f bad v)

    await_group-owes :
        (ids serials : List String) (f : Factory V) (bad : List (Result V))
        → (owes serial f || (is_nonempty ids && contains serial serials)) ≡ true
        → owes serial (await_group now ids serials f bad).0 ≡ true
    unfolding await_group
    await_group-owes ids [] f bad h = ground (arith, h)
    await_group-owes ids (other ∷ rest) f bad h =
        await_group-owes ids rest (await_serial now ids other f) _
          (ground (arith, h, await_serial-owes ids other f))

    await_batch-owes :
        (batch : Batch) (f : Factory V) (bad : List (Result V))
        → (owes serial f || is_sent serial batch) ≡ true
        → owes serial (await_batch now batch f bad).0 ≡ true
    unfolding await_batch
    await_batch-owes [] f bad h = ground (arith, h)
    await_batch-owes ((serials, evaluations) ∷ rest) f bad h =
        let (f', bad') = await_group now (ids_of evaluations) (members serials) f bad in
        await_batch-owes rest f' bad' (
          ground (
            arith,
            h,
            await_group-owes (ids_of evaluations) (members serials) f bad,
            nonempty-ids_of evaluations,
          ))

  timeout-process_results :
      (now : ℕ) (rs : List (Result V)) (f : Factory V)
      → (process_results now rs f).result_timeout ≡ f.result_timeout
  unfolding process_results process_result
  timeout-process_results now [] f = refl
  timeout-process_results now (r ∷ rest) f =
      ground (arith, timeout-process_results now rest (process_result now r f))

  -- A device that is not broken and owes nothing, and whose last result is older than the timeout, counts as expired
  -- at the very moment when the next batch with an evaluation for it is sent, whatever else is in the batch.
  pub add_batch-expires :
      (now : ℕ) (serial : String) (batch : Batch) (f : Factory V)
      → get serial f.awaiting_results ≡ some []
      → contains serial f.broken_serials ≡ false
      → get_or (get serial f.serial_last_result) 0 + f.result_timeout < now
      → is_sent serial batch ≡ true
      → contains serial (newly_expired now (add_batch now batch f)) ≡ true
  unfolding add_batch
  add_batch-expires now serial batch f idle whole late sent =
      let last = get_or (get serial f.serial_last_result) 0 in
      let (f', bad) = await_batch now batch f [] in
      let v = await_batch-IsIdle serial last f.result_timeout now batch f [] (record {
        seen = ap has idle;
        whole = whole;
        answered = refl;
        patience = refl;
        silent = refl;
      }) in
      let owing =
        await_batch-owes serial last f.result_timeout now batch f [] (ground (arith, sent)) in
      let same = process_results-Same now bad serial f' v.silent in
      let f'' = process_results now bad f' in
      ground (
        arith,
        late,
        v.whole,
        v.answered,
        v.patience,
        owing,
        same.0,
        same.1,
        broken-process_results now bad f',
        timeout-process_results now bad f',
        contains-newly_expired now serial f'',
        contains_of_owes serial f''.awaiting_results,
      )
