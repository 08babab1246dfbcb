-- ===== src/Client/Factory/Expired.antt =====
-- What the watchdog of `AbstractBatchFactory` in src/icefarm/client/lib/BatchClient.py does about devices
-- whose results are overdue.
use i_cefarm.Prelude.{
  ℕ, ◌≡◌, refl, String, Bool, true, false, ◌&&◌, ◌||◌, not, List, [], ◌∷◌, ◌++◌, arith, string_key,
  contains, discard, contains-discard, ==_iff, ◌==◌, any, all, add_member, contains-add_member, ◌∙◌,
  select, select-append, append-nil, is_nonempty, Bool-cases, inl, inr, if◌then◌else◌,
}
use i_cefarm.Dict.{get, get-put}
use i_cefarm.Client.Factory.{
  Factory, Result, Outcome, answer, evaluation_failed, awaited, process_result, process_results,
  failures, mark_broken, newly_expired, watch,
}

module _ {V : Type 0} where
  -- Whether a result is about an evaluation on a device.
  abbrev pub is_about : String → String → Result V → Bool
  is_about serial id r = r.0 == serial && r.1 == id

  abbrev pub is_failure : Outcome V → Bool
  is_failure (answer v) = false
  is_failure evaluation_failed = true

  -- Whether an evaluation is reported as failed on a device.
  abbrev pub has_failed : String → String → List (Result V) → Bool
  has_failed serial id results = any (λ r. is_about serial id r && is_failure r.2) results

  pub any-append :
      (p : Result V → Bool) (rs ss : List (Result V)) → any p (rs ++ ss) ≡ (any p rs || any p ss)
  any-append p [] ss = refl
  any-append p (r ∷ rs) ss = ground (arith, any-append p rs ss)

  pub awaited-process_result :
      (now : ℕ) (other id : String) (outcome : Outcome V) (serial x : String) (f : Factory V)
      → contains x (awaited serial (process_result now (other, id, outcome) f))
        ≡ (contains x (awaited serial f) && not (other == serial && id == x))
  unfolding process_result
  awaited-process_result now other id outcome serial x f = ground (
    arith,
    get-put other serial (discard id (awaited other f)) f.awaiting_results,
    ==_iff other serial,
    ==_iff id x,
    contains-discard x id (awaited other f),
  )

  awaited-process_results :
      (now : ℕ) (rs : List (Result V)) (serial x : String) (f : Factory V)
      → contains x (awaited serial (process_results now rs f))
        ≡ (contains x (awaited serial f) && not (any (is_about serial x) rs))
  unfolding process_results
  awaited-process_results now [] serial x f = ground arith
  awaited-process_results now ((other, id, outcome) ∷ rest) serial x f = ground (
    arith,
    awaited-process_results now rest serial x (process_result now (other, id, outcome) f),
    awaited-process_result now other id outcome serial x f,
  )

  has_failed-process_result :
      (now : ℕ) (other id : String) (outcome : Outcome V) (serial x : String) (f : Factory V)
      → has_failed serial x (process_result now (other, id, outcome) f).results ≡ (
          has_failed serial x f.results
          || (contains x (awaited serial f)
              && ((other == serial && id == x) && is_failure outcome)))
  unfolding process_result
  has_failed-process_result now other id outcome serial x f = ground (
    arith,
    ==_iff other serial,
    ==_iff id x,
    any-append (λ r. is_about serial x r && is_failure r.2) f.results ((other, id, outcome) ∷ []),
  )

  has_failed-process_results :
      (now : ℕ) (rs : List (Result V)) (serial x : String) (f : Factory V)
      → all (λ r. is_failure r.2) rs ≡ true
      → has_failed serial x (process_results now rs f).results ≡ (
          has_failed serial x f.results
          || (contains x (awaited serial f) && any (is_about serial x) rs))
  unfolding process_results
  has_failed-process_results now [] serial x f failed = ground arith
  has_failed-process_results now ((other, id, outcome) ∷ rest) serial x f failed = ground (
    arith,
    failed,
    has_failed-process_results now rest serial x (process_result now (other, id, outcome) f),
    awaited-process_result now other id outcome serial x f,
    has_failed-process_result now other id outcome serial x f,
  )

  pub broken-process_results :
      (now : ℕ) (rs : List (Result V)) (f : Factory V)
      → (process_results now rs f).broken_serials ≡ f.broken_serials
  unfolding process_results process_result
  broken-process_results now [] f = refl
  broken-process_results now (r ∷ rest) f =
      ground (arith, broken-process_results now rest (process_result now r f))

  all-append :
      (p : Result V → Bool) (rs ss : List (Result V)) → all p (rs ++ ss) ≡ (all p rs && all p ss)
  all-append p [] ss = refl
  all-append p (r ∷ rs) ss = ground (arith, all-append p rs ss)

about-failures :
    (V : Type 0) (serial x other : String) (ids : List String)
    → any (is_about serial x) (failures {V = V} other ids) ≡ (other == serial && contains x ids)
about-failures V serial x other [] = ground arith
about-failures V serial x other (id ∷ ids) = ground (arith, about-failures V serial x other ids)

pub others :
    (V : Type 0) (other serial : String) (ids : List String)
    → any (λ r. r.0 == serial) (failures {V = V} other ids) ≡ (other == serial && is_nonempty ids)
others V other serial [] = ground arith
others V other serial (id ∷ ids) = ground (arith, others V other serial ids)

all-failures :
    (V : Type 0) (serial : String) (ids : List String)
    → all (λ r. is_failure r.2) (failures {V = V} serial ids) ≡ true
all-failures V serial [] = refl
all-failures V serial (id ∷ ids) = ground (arith, all-failures V serial ids)

module _ {V : Type 0} where
  -- What the loop over the devices that did not come back does.
  pub mark_broken_lem :
      (serials : List String) (serial x : String) (f : Factory V) (failed : List (Result V))
      → let (f', failed') = mark_broken serials f failed in
        (awaited serial f' ≡ awaited serial f)
        × (f'.results ≡ f.results)
        × (contains serial f'.broken_serials
            ≡ (contains serial f.broken_serials || contains serial serials))
        × (any (is_about serial x) failed' ≡ (
            any (is_about serial x) failed
            || (contains serial serials && contains x (awaited serial f))))
        × (all (λ r. is_failure r.2) failed' ≡ all (λ r. is_failure r.2) failed)
  unfolding mark_broken
  mark_broken_lem [] serial x f failed = (refl, refl, ground arith, ground arith, refl)
  mark_broken_lem (other ∷ rest) serial x f failed =
      let f' = record f { broken_serials = add_member other f.broken_serials } in
      let later = mark_broken_lem rest serial x f' (failed ++ failures other (awaited other f)) in
      (
        later.0,
        later.1,
        ground (arith, later.2, contains-add_member serial other f.broken_serials),
        ground (
          arith,
          later.3,
          any-append (is_about serial x) failed (failures other (awaited other f)),
          about-failures V serial x other (awaited other f),
          ==_iff other serial,
        ),
        ground (
          arith,
          later.4,
          all-append (λ r. is_failure r.2) failed (failures other (awaited other f)),
          all-failures V other (awaited other f),
        ),
      )

  -- What is kept of a device: what is awaited from it, when it answered last, and its results.
  abbrev pub Same : String → Factory V → Factory V → Type 0
  Same serial f f' =
      (get serial f'.awaiting_results ≡ get serial f.awaiting_results)
      × (get serial f'.serial_last_result ≡ get serial f.serial_last_result)
      × (select (λ r. r.0 == serial) f'.results ≡ select (λ r. r.0 == serial) f.results)

  process_result-Same :
      (now : ℕ) (other id : String) (outcome : Outcome V) (serial : String) (f : Factory V)
      → (other == serial) ≡ false
      → Same serial f (process_result now (other, id, outcome) f)
  unfolding process_result
  process_result-Same now other id outcome serial f apart = (
    ground (arith, get-put other serial (discard id (awaited other f)) f.awaiting_results),
    ground (arith, get-put other serial now f.serial_last_result),
    ground (
      arith,
      select-append (λ (r : Result V). r.0 == serial) f.results ((other, id, outcome) ∷ []),
      append-nil (select (λ (r : Result V). r.0 == serial) f.results),
    ),
  )

  -- Results of other devices change nothing of a device.
  pub process_results-Same :
      (now : ℕ) (rs : List (Result V)) (serial : String) (f : Factory V)
      → any (λ r. r.0 == serial) rs ≡ false
      → Same serial f (process_results now rs f)
  unfolding process_results
  process_results-Same now [] serial f h = (refl, refl, refl)
  process_results-Same now ((other, id, outcome) ∷ rest) serial f h =
      let f' = process_result now (other, id, outcome) f in
      let first = process_result-Same now other id outcome serial f (ground (arith, h)) in
      let later = process_results-Same now rest serial f' (ground (arith, h)) in
      (later.0 ∙ first.0, later.1 ∙ first.1, later.2 ∙ first.2)

  mark_broken-Same :
      (serials : List String) (serial : String) (f : Factory V) (failed : List (Result V))
      → Same serial f (mark_broken serials f failed).0
        × (contains serial serials ≡ false
            → any (λ r. r.0 == serial) (mark_broken serials f failed).1
              ≡ any (λ r. r.0 == serial) failed)
  unfolding mark_broken
  mark_broken-Same [] serial f failed = ((refl, refl, refl), λ h. refl)
  mark_broken-Same (other ∷ rest) serial f failed =
      let f' = record f { broken_serials = add_member other f.broken_serials } in
      let later = mark_broken-Same rest serial f' (failed ++ failures other (awaited other f)) in
      (
        later.0,
        λ h. ground (
          arith,
          h,
          later.1,
          any-append (λ r. r.0 == serial) failed (failures other (awaited other f)),
          others V other serial (awaited other f),
          ==_iff other serial,
          ==_iff serial other,
        ),
      )

  -- If no other step comes between a round of the watchdog and its reports: the devices that the reboot did not bring
  -- back are broken, and what was awaited from them is awaited no more and is reported as failed. Of every other device
  -- nothing changes: whether it is broken, what is awaited from it, when it answered last, and its results.
  pub watch_fails :
      (reboot : List String → List String) (now later : ℕ) (serial : String) (f : Factory V)
      → let lost = contains serial (reboot (newly_expired now f)) in
        let (marked, failed) = watch reboot now f in
        let f' = process_results later failed marked in
        (contains serial f'.broken_serials ≡ (contains serial f.broken_serials || lost))
        × ((x : String)
            → (contains x (awaited serial f') ≡ (contains x (awaited serial f) && not lost))
              × (has_failed serial x f'.results
                  ≡ (has_failed serial x f.results || (contains x (awaited serial f) && lost))))
        × Same serial (if lost then f' else f) f'
  unfolding watch
  watch_fails reboot now later serial f =
      let serials = reboot (newly_expired now f) in
      let (marked, failed) = mark_broken serials f [] in
      (
        ground (
          arith,
          (mark_broken_lem serials serial "" f []).2,
          broken-process_results later failed marked,
        ),
        λ x.
            let fails = mark_broken_lem serials serial x f [] in
            (
              ground
                  (arith, fails.0, fails.3, awaited-process_results later failed serial x marked),
              ground (
                arith,
                fails.0,
                fails.1,
                fails.3,
                fails.4,
                has_failed-process_results later failed serial x marked,
              ),
            ),
        elim (Bool-cases (contains serial serials)) [
          | inl lost ↦ rw lost (refl, refl, refl)
          | inr back ↦
              let same = mark_broken-Same serials serial f [] in
              let told = process_results-Same later failed serial marked (same.1 back) in
              rw back (told.0 ∙ same.0.0, told.1 ∙ same.0.1, told.2 ∙ same.0.2)
        ],
      )
