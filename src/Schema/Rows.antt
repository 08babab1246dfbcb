-- ===== src/Schema/Rows.antt =====
-- Lemmas on the rows of a table: keys, and the predicates that pick rows.
use i_cefarm.Prelude.{
  ◌≡◌, refl, String, Bool, true, false, not, List, [], ◌∷◌, ◌++◌, map, select, contains,
  contains-append, Distinct, All, string_key, ==_iff, arith, Bool-cases, inl, inr,
}

module _ {A : Type 0} (key : A → String) (p : A → Bool) where
  pub contains-of-select :
      (x : String) (rows : List A)
      → contains x (map key (select p rows)) ≡ true
      → contains x (map key rows) ≡ true
  contains-of-select x [] h = h
  contains-of-select x (row ∷ rows) h = ground (arith, contains-of-select x rows)

  -- A key that none of the picked rows has is one of the others'.
  pub contains-rest :
      (x : String) (rows : List A)
      → contains x (map key rows) ≡ true
      → contains x (map key (select p rows)) ≡ false
      → contains x (map key (select (λ row. not (p row)) rows)) ≡ true
  contains-rest x [] h n = h
  contains-rest x (row ∷ rows) h n = ground (arith, contains-rest x rows)

  pub not_contains-select :
      (x : String) (rows : List A)
      → contains x (map key rows) ≡ false
      → contains x (map key (select p rows)) ≡ false
  not_contains-select x [] h = h
  not_contains-select x (row ∷ rows) h = ground (arith, not_contains-select x rows)

  pub select-Distinct :
      (rows : List A) → Distinct (map key rows) → Distinct (map key (select p rows))
  select-Distinct [] h = h
  select-Distinct (row ∷ rows) h =
      ground (arith, select-Distinct rows h.1, not_contains-select (key row) rows h.0)

pub append-Distinct :
    (x : String) (xs : List String) → Distinct xs → contains x xs ≡ false → Distinct (xs ++ x ∷ [])
append-Distinct x [] d n = (refl, tt)
append-Distinct x (y ∷ xs) d n =
    ground (arith, append-Distinct x xs d.1, contains-append y xs (x ∷ []), ==_iff x y, ==_iff y x)

module _ {A : Type 0} {P Q : A → Type 0} where
  pub All-map : ((a : A) → P a → Q a) → (rows : List A) → All P rows → All Q rows
  All-map f [] h = tt
  All-map f (row ∷ rows) h = (f row h.0, All-map f rows h.1)

  -- What holds of all rows holds, with the test passed, of the picked rows.
  pub All-select :
      (p : A → Bool)
      → ((a : A) → P a → p a ≡ true → Q a)
      → (rows : List A) → All P rows
      → All Q (select p rows)
  All-select p f [] h = tt
  All-select p f (row ∷ rows) h = elim (Bool-cases (p row)) [
    | inl e ↦ rw e (f row h.0 e, All-select p f rows h.1)
    | inr e ↦ rw e (All-select p f rows h.1)
  ]

  pub All-append_one :
      (rows : List A) (a : A) → ((b : A) → P b → Q b) → All P rows → Q a → All Q (rows ++ a ∷ [])
  All-append_one [] a f h q = (q, tt)
  All-append_one (row ∷ rows) a f h q = (f row h.0, All-append_one rows a f h.1 q)

module _ {A : Type 0} (key : A → String) (f : A → A) where
  -- A change of rows that keeps their keys.
  pub map-keys :
      ((a : A) → key (f a) ≡ key a) → (rows : List A) → map key (map f rows) ≡ map key rows
  map-keys same [] = refl
  map-keys same (row ∷ rows) = cc (same row, map-keys same rows)

module _ {A : Type 0} {P : A → Type 0} (f : A → A) where
  pub All-change : ((a : A) → P a → P (f a)) → (rows : List A) → All P rows → All P (map f rows)
  All-change keep [] h = tt
  All-change keep (row ∷ rows) h = (keep row h.0, All-change keep rows h.1)

module _ {A : Type 0} (key : A → String) (p : A → Bool) where
  -- A key of a picked row is no key of another.
  pub contains-not_both :
      (x : String) (rows : List A)
      → Distinct (map key rows)
      → contains x (map key (select p rows)) ≡ true
      → contains x (map key (select (λ row. not (p row)) rows)) ≡ false
  contains-not_both x [] d h = refl
  contains-not_both x (row ∷ rows) d h = ground (
    arith,
    contains-not_both x rows d.1,
    ==_iff (key row) x,
    contains-of-select key p x rows,
    not_contains-select key (λ row. not (p row)) x rows,
  )
