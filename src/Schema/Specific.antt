-- ===== src/Schema/Specific.antt =====
-- `make_specific_reservations` grants exactly what it should.
use i_cefarm.Prelude.{
  ℕ, ◌≤◌, ◌≡◌, refl, ap, ◌∙◌, String, true, ◌&&◌, List, [], ◌∷◌, select, length, eqb, eqb_iff,
  length-map, ◌↔◌, contains, Distinct, string_key, ==_iff, arith, Bool-cases, inl, inr, Covers,
  pigeonhole, pigeonhole_full, pigeonhole-Distinct,
}
use i_cefarm.Schema.{Db}
use i_cefarm.Schema.Reservations.{
  Grant, granted_ids, candidates, write_reservations, make_specific_reservations,
}
use i_cefarm.Schema.Valid.{IsValid}
use i_cefarm.Schema.Candidates.{is_free, contains-candidates, candidates-Distinct}
use i_cefarm.Schema.Refined.{granted_of}
use i_cefarm.Schema.Rows.{select-Distinct}
use i_cefarm.Schema.Granted.{
  IsConsistent, AllFree, AllFree-of_contains, succeeded, write_reservations-succeeds, free-CanGo,
}

contains-select_named :
    (serial_ids : List String) (x : String) (rows : List Grant)
    → contains x (granted_ids (select (λ g. contains g.device_id serial_ids) rows))
      ≡ (contains x serial_ids && contains x (granted_ids rows))
contains-select_named serial_ids x [] = ground arith
contains-select_named serial_ids x (g ∷ rows) =
    ground (arith, contains-select_named serial_ids x rows, ==_iff g.device_id x)

pub Covers-of_contains :
    (ys xs : List String)
    → ((x : String) → contains x xs ≡ true → contains x ys ≡ true)
    → Covers ys xs
Covers-of_contains ys [] f = tt
Covers-of_contains ys (x ∷ xs) f =
    (f x (ground (arith, ==_iff x x)), Covers-of_contains ys xs (λ z h. f z (ground arith)))

module _ (serial_ids : List String) (kind : String) (db : Db) (v : IsValid db) where
  -- The rows that are found.
  abbrev found : List Grant
  found = select (λ g. contains g.device_id serial_ids) (candidates kind db)

  contains-found :
      (x : String)
      → contains x (granted_ids found)
        ≡ (contains x serial_ids && is_free kind x db.devices db.workers)
  contains-found x =
      contains-select_named serial_ids x (candidates kind db)
      ∙ ap (λ b. contains x serial_ids && b) (contains-candidates kind x db)

  found-Distinct : Distinct (granted_ids found)
  found-Distinct =
      select-Distinct (λ g. g.device_id) (λ g. contains g.device_id serial_ids) (candidates kind db)
        (candidates-Distinct kind db v)

  found-named : Covers serial_ids (granted_ids found)
  found-named =
      Covers-of_contains serial_ids (granted_ids found) (λ x h. ground (arith, contains-found x))

  found-AllFree : AllFree kind db (granted_ids found)
  found-AllFree =
      AllFree-of_contains kind db (granted_ids found) (λ x h. ground (arith, contains-found x))

  -- If as many rows are found as devices are named, each is named once and free.
  named_once : length found ≡ length serial_ids → Distinct serial_ids × AllFree kind db serial_ids
  named_once same =
      let enough : length serial_ids ≤ length (granted_ids found) =
        omega (arith, same, length-map (λ (g : Grant). g.device_id) found) in
      (
        pigeonhole-Distinct (granted_ids found) serial_ids found-Distinct found-named enough,
        AllFree-of_contains kind db serial_ids (λ x h. ground (
          arith,
          contains-found x,
          pigeonhole_full (granted_ids found) serial_ids x found-Distinct found-named enough h,
        )),
      )

  all_found : Distinct serial_ids → AllFree kind db serial_ids → length found ≡ length serial_ids
  all_found d f = omega (
    arith,
    length-map (λ (g : Grant). g.device_id) found,
    pigeonhole (granted_ids found) serial_ids found-Distinct found-named,
    pigeonhole serial_ids (granted_ids found) d (free-found serial_ids f (λ x h. h)),
  )
    where
      free-found :
          (ids : List String)
          → AllFree kind db ids
          → ((x : String) → contains x ids ≡ true → contains x serial_ids ≡ true)
          → Covers (granted_ids found) ids
      free-found [] f named = tt
      free-found (id ∷ ids) f named = (
        ground (arith, contains-found id, f.0, named id (ground (arith, ==_iff id id))),
        free-found ids f.1 (λ x h. named x (ground arith)),
      )

  module _ (now : ℕ) (client_name : String) (c : IsConsistent db) where
    found-written :
        (succeeded (write_reservations client_name now found db) ≡ true)
        × (granted_of (write_reservations client_name now found db) ≡ granted_ids found)
    found-written =
        write_reservations-succeeds client_name now found db found-Distinct
          (free-CanGo kind db (granted_ids found) c found-AllFree)

    -- Of a database whose keys and references hold, and where no available device is reserved: a reservation of
    -- named devices is granted exactly if they are named once each, available, and each on a worker that offers
    -- the use and does not shut down. It then grants exactly the named devices, and otherwise none.
    pub make_specific_reservations_lem :
        let answer = make_specific_reservations now client_name serial_ids kind db in
        ((succeeded answer ≡ true) ↔ (Distinct serial_ids × AllFree kind db serial_ids))
        × ((x : String)
            → contains x (granted_of answer) ≡ (succeeded answer && contains x serial_ids))
    unfolding make_specific_reservations
    make_specific_reservations_lem = elim (Bool-cases (eqb (length found) (length serial_ids))) [
      | inr e ↦
          rw e (((λ h. cc), (λ h. absurd (ground (arith, all_found h.0 h.1, e)))), (λ x. refl))
      | inl e ↦ rw e (
        ((λ h. named_once ((eqb_iff _ _).0 e)), (λ h. found-written.0)),
        (λ x. ground (
          arith,
          found-written.0,
          ap (contains x) found-written.1,
          contains-found x,
          pigeonhole_full (granted_ids found) serial_ids x found-Distinct found-named,
          length-map (λ (g : Grant). g.device_id) found,
          eqb_iff (length found) (length serial_ids),
        )),
      )
    ]
