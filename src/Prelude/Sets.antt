-- ===== src/Prelude/Sets.antt =====
-- Python's `set` and membership, as lists without repetition.
use Prim.Native.Nat.{◌+◌, ◌≤◌}
use mathlib.Core.Path.{◌≡◌, refl}
use mathlib.Core.Bool.{Bool, false, ◌||◌}
use mathlib.Core.List.{List, [], ◌∷◌, ◌++◌}
use native.Mathlib.Omega.{arith}
use i_cefarm.Prelude.Tests.{if◌then◌else◌}
use i_cefarm.Prelude.Lists.{length, length-append}
use i_cefarm.Prelude.Equality.{Key, ◌==◌, ==_iff}

module _ {ℓ} {A : Type ℓ} ⦃e : Key A⦄ where
  -- x in xs
  abbrev pub contains : A → List A → Bool
  contains x [] = false
  contains x (y ∷ ys) = y == x || contains x ys

  -- xs.add(x)
  abbrev pub add_member : A → List A → List A
  add_member x xs = if contains x xs then xs else xs ++ x ∷ []

  -- xs |= set(ys)
  abbrev pub union : List A → List A → List A
  union xs [] = xs
  union xs (y ∷ ys) = union (add_member y xs) ys

  -- xs - {x}, and xs.discard(x)
  abbrev pub discard : A → List A → List A
  discard x [] = []
  discard x (y ∷ ys) = let rest = discard x ys in if y == x then rest else y ∷ rest

  pub contains-append :
      (x : A) (xs ys : List A) → contains x (xs ++ ys) ≡ (contains x xs || contains x ys)
  contains-append x [] ys = refl
  contains-append x (y ∷ xs) ys = ground (arith, contains-append x xs ys)

  pub contains-add_member :
      (x y : A) (xs : List A) → contains x (add_member y xs) ≡ (y == x || contains x xs)
  contains-add_member x y xs = ground (arith, contains-append x xs (y ∷ []), ==_iff y x)

  pub contains-union :
      (x : A) (xs ys : List A) → contains x (union xs ys) ≡ (contains x xs || contains x ys)
  contains-union x xs [] = ground arith
  contains-union x xs (y ∷ ys) =
      ground (arith, contains-union x (add_member y xs) ys, contains-add_member x y xs)

  pub contains-discard :
      (x y : A) (xs : List A)
      → contains x (discard y xs) ≡ (if y == x then false else contains x xs)
  contains-discard x y [] = ground arith
  contains-discard x y (z ∷ xs) =
      ground (arith, contains-discard x y xs, ==_iff z x, ==_iff z y, ==_iff y x)

  pub length-discard-le : (x : A) (xs : List A) → length (discard x xs) ≤ length xs
  length-discard-le x [] = omega arith
  length-discard-le x (y ∷ xs) = ground (arith, length-discard-le x xs)

  pub length-add_member-le : (x : A) (xs : List A) → length (add_member x xs) ≤ length xs + 1
  length-add_member-le x xs = ground (arith, length-append xs (x ∷ []))

  pub length-union-le : (xs ys : List A) → length (union xs ys) ≤ length xs + length ys
  length-union-le xs [] = omega arith
  length-union-le xs (y ∷ ys) =
      omega (arith, length-union-le (add_member y xs) ys, length-add_member-le y xs)

  -- No item stands twice.
  abbrev pub Distinct : List A → Type 0
  Distinct [] = Unit
  Distinct (x ∷ xs) = (contains x xs ≡ false) × Distinct xs
