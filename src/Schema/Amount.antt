-- ===== src/Schema/Amount.antt =====
-- `make_reservations` grants as many devices as are asked for, whatever order the database finds rows in.
use i_cefarm.Prelude.{
  ℕ, zero, suc, ◌≡◌, refl, sym, ◌∙◌, String, Bool, true, false, List, [], ◌∷◌, length, take, eqb,
  leb, length-map, length-take, contains, Distinct, string_key, arith, if◌then◌else◌, Bool-cases,
  inl, inr, pigeonhole-Distinct, subst,
}
use i_cefarm.Schema.{Db}
use i_cefarm.Schema.Reservations.{
  Grant, granted_ids, candidates, write_reservations, make_reservations,
}
use i_cefarm.Schema.Valid.{IsValid}
use i_cefarm.Schema.Candidates.{contains-candidates, candidates-Distinct}
use i_cefarm.Schema.Refined.{granted_of}
use i_cefarm.Schema.Granted.{
  IsConsistent, AllFree, AllFree-of_contains, succeeded, write_reservations-succeeds, free-CanGo,
}
use i_cefarm.Schema.Specific.{Covers-of_contains}

contains-take :
    (n : ℕ) (x : String) (rows : List Grant)
    → contains x (granted_ids (take n rows)) ≡ true
    → contains x (granted_ids rows) ≡ true
contains-take zero x rows h = cc
contains-take (suc n) x [] h = h
contains-take (suc n) x (g ∷ rows) h = ground (arith, contains-take n x rows)

take-Distinct :
    (n : ℕ) (rows : List Grant) → Distinct (granted_ids rows) → Distinct (granted_ids (take n rows))
take-Distinct zero rows d = tt
take-Distinct (suc n) [] d = tt
take-Distinct (suc n) (g ∷ rows) d =
    (absent (contains g.device_id (granted_ids (take n rows))) refl, take-Distinct n rows d.1)
  where
    absent :
        (b : Bool)
        → contains g.device_id (granted_ids (take n rows)) ≡ b
        → contains g.device_id (granted_ids (take n rows)) ≡ false
    absent false e = e
    absent true e = cc (d.0, contains-take n g.device_id rows e)

-- The order in which the database finds rows neither adds nor drops any.
pub record Reorders (order : List Grant → List Grant) : Type 0 where
  pub same_length : (rows : List Grant) → length (order rows) ≡ length rows
  pub same_rows :
      (rows : List Grant) (x : String)
      → contains x (granted_ids (order rows)) ≡ contains x (granted_ids rows)

module _ (order : List Grant → List Grant) (reorders : Reorders order) (amount : ℕ) (kind : String)
    (db : Db) (v : IsValid db) where
  abbrev ordered : List Grant
  ordered = order (candidates kind db)

  ordered-Distinct : Distinct (granted_ids ordered)
  ordered-Distinct =
      pigeonhole-Distinct (granted_ids (candidates kind db)) (granted_ids ordered)
        (candidates-Distinct kind db v)
        (Covers-of_contains (granted_ids ordered) (granted_ids (candidates kind db))
          (λ x h. reorders.same_rows (candidates kind db) x ∙ h))
        (omega (
          arith,
          length-map (λ (g : Grant). g.device_id) ordered,
          length-map (λ (g : Grant). g.device_id) (candidates kind db),
          reorders.same_length (candidates kind db),
        ))

  taken-Distinct : Distinct (granted_ids (take amount ordered))
  taken-Distinct = take-Distinct amount ordered ordered-Distinct

  taken-AllFree : AllFree kind db (granted_ids (take amount ordered))
  taken-AllFree = AllFree-of_contains kind db (granted_ids (take amount ordered)) (λ x h.
      sym (contains-candidates kind x db)
      ∙ (sym (reorders.same_rows (candidates kind db) x) ∙ contains-take amount x ordered h))

  enough : eqb (length (take amount ordered)) amount ≡ leb amount (length (candidates kind db))
  enough = ground (arith, length-take amount ordered, reorders.same_length (candidates kind db))

  module _ (now : ℕ) (client_name : String) (c : IsConsistent db) where
    taken-written :
        (succeeded (write_reservations client_name now (take amount ordered) db) ≡ true)
        × (granted_of (write_reservations client_name now (take amount ordered) db)
            ≡ granted_ids (take amount ordered))
    taken-written =
        write_reservations-succeeds client_name now (take amount ordered) db taken-Distinct
          (free-CanGo kind db (granted_ids (take amount ordered)) c taken-AllFree)

    -- Of a database whose keys and references hold, and where no available device is reserved: a reservation of
    -- some amount is granted exactly if there are that many candidates, in whatever order the rows are found. It
    -- then grants that many different devices, each available and on a worker that offers the use and does not
    -- shut down, and otherwise none.
    pub make_reservations_lem :
        let answer = make_reservations order now amount client_name kind db in
        (succeeded answer ≡ leb amount (length (candidates kind db)))
        × Distinct (granted_of answer)
        × AllFree kind db (granted_of answer)
        × (length (granted_of answer) ≡ (if succeeded answer then amount else 0))
    unfolding make_reservations
    make_reservations_lem = elim (Bool-cases (eqb (length (take amount ordered)) amount)) [
      | inr e ↦ rw e (sym e ∙ enough, tt, tt, refl)
      | inl e ↦ rw e (
        taken-written.0 ∙ (sym e ∙ enough),
        subst Distinct (sym taken-written.1) taken-Distinct,
        subst (AllFree kind db) (sym taken-written.1) taken-AllFree,
        rw (taken-written.1, taken-written.0)
            (omega
              (arith, length-map (λ (g : Grant). g.device_id) (take amount ordered), eqb→eq e)),
      )
    ]
      where
        eqb→eq :
            eqb (length (take amount ordered)) amount ≡ true → length (take amount ordered) ≡ amount
        eqb→eq h = ground arith
