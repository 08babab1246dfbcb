-- ===== src/Utils/Loops.antt =====
-- Python's closures over a loop's variable: a thread that was started in a round of the loop reads the
-- variable when it runs, as the rounds of src/icefarm/control/Control.py and src/icefarm/worker/app.py.
use i_cefarm.Prelude.{
  ℕ, zero, suc, ◌≤◌, ◌≡◌, refl, true, List, [], ◌∷◌, arith, length, contains, Key, ==_iff,
}

-- The loop's variable, some rounds later; after the loop it keeps the last value.
unfoldable pub value_after {ℓ} : {A : Type ℓ} → ℕ → A → List A → A
value_after n x [] = x
value_after zero x (next ∷ rest) = x
value_after (suc n) x (next ∷ rest) = value_after n next rest

-- The last of a list's values, after a first one.
abbrev pub last {ℓ} : {A : Type ℓ} → A → List A → A
last x [] = x
last x (next ∷ rest) = last next rest

pub value_after-zero {ℓ} : {A : Type ℓ} (x : A) (rest : List A) → value_after 0 x rest ≡ x
unfolding value_after
value_after-zero x [] = refl
value_after-zero x (next ∷ rest) = refl

pub value_after-eq-last {ℓ} :
    {A : Type ℓ} (n : ℕ) (x : A) (rest : List A)
    → length rest ≤ n
    → value_after n x rest ≡ last x rest
unfolding value_after
value_after-eq-last n x [] h = refl
value_after-eq-last zero x (next ∷ rest) h = absurd (omega arith)
value_after-eq-last (suc n) x (next ∷ rest) h = value_after-eq-last n next rest (omega arith)

-- However late it is read, the variable has the value of this round or of a later one.
pub contains-value_after {ℓ} :
    {A : Type ℓ} ⦃k : Key A⦄ (n : ℕ) (x : A) (rest : List A)
    → contains (value_after n x rest) (x ∷ rest) ≡ true
unfolding value_after
contains-value_after n x [] = ground (arith, ==_iff x x)
contains-value_after zero x (next ∷ rest) = ground (arith, ==_iff x x)
contains-value_after (suc n) x (next ∷ rest) = ground (arith, contains-value_after n next rest)
