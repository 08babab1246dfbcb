-- ===== src/Prelude/Equality.antt =====
-- Python's `==` on the keys of a dictionary, as an interface with its instances.
use Prim.Native.Nat.{ℕ}
use Prim.Native.String.{String}
use mathlib.Core.Path.{◌≡◌, refl}
use mathlib.Core.Logic.{◌↔◌}
use mathlib.Core.Bool.{Bool, true, false, ◌&&◌}
use mathlib.Core.List.{List, [], ◌∷◌}
use native.Mathlib.Omega.{arith}
use text.Mathlib.Text.{◌==◌ as str_eq}
use text.Mathlib.TextEquality.{eq_iff}
use i_cefarm.Prelude.Tests.{eqb, eqb_iff}

-- What a type needs to serve as the key of a dictionary.
pub record Key {ℓ} (K : Type ℓ) : Type ℓ where
  pub equals : K → K → Bool
  pub equals_iff : (x y : K) → (equals x y ≡ true) ↔ (x ≡ y)

module _ {ℓ} {K : Type ℓ} ⦃k : Key K⦄ where
  infix 50 ◌==◌
  abbrev pub ◌==◌ : K → K → Bool
  x == y = k.equals x y

  pub ==_iff : (x y : K) → ((x == y) ≡ true) ↔ (x ≡ y)
  ==_iff x y = k.equals_iff x y

  pub ==_refl : (x : K) → (x == x) ≡ true
  ==_refl x = (==_iff x x).1 refl

-- Texts compare by the library's test, numbers by `compare`.
instance abbrev pub string_key : Key String
string_key = record { equals = str_eq; equals_iff = eq_iff }

instance abbrev pub nat_key : Key ℕ
nat_key = record { equals = eqb; equals_iff = eqb_iff }

module _ {ℓ} {A : Type ℓ} ⦃e : Key A⦄ where
  abbrev pub list_equals : List A → List A → Bool
  list_equals [] [] = true
  list_equals [] (y ∷ ys) = false
  list_equals (x ∷ xs) [] = false
  list_equals (x ∷ xs) (y ∷ ys) = x == y && list_equals xs ys

  pub list_equals_iff : (xs ys : List A) → (list_equals xs ys ≡ true) ↔ (xs ≡ ys)
  list_equals_iff [] [] = ground arith
  list_equals_iff [] (y ∷ ys) = ground arith
  list_equals_iff (x ∷ xs) [] = ground arith
  list_equals_iff (x ∷ xs) (y ∷ ys) = ground (arith, ==_iff x y, list_equals_iff xs ys)

instance abbrev pub list_key {ℓ} : {A : Type ℓ} ⦃e : Key A⦄ → Key (List A)
list_key = record { equals = list_equals; equals_iff = list_equals_iff }
