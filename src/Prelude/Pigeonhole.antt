-- ===== src/Prelude/Pigeonhole.antt =====
-- Lists without repetition, compared by their lengths.
use Prim.Native.Nat.{◌+◌, ◌≤◌, ◌<◌}
use mathlib.Core.Path.{◌≡◌, refl}
use mathlib.Core.Logic.{inl, inr}
use mathlib.Core.Bool.{true, false}
use mathlib.Core.List.{List, [], ◌∷◌}
use native.Mathlib.Omega.{arith}
use i_cefarm.Prelude.Tests.{Bool-cases}
use i_cefarm.Prelude.Lists.{length, All}
use i_cefarm.Prelude.Equality.{Key, ==_iff}
use i_cefarm.Prelude.Sets.{contains, discard, Distinct, contains-discard, length-discard-le}

module _ {ℓ} {A : Type ℓ} ⦃e : Key A⦄ where
  -- Every item of the second list is one of the first.
  abbrev pub Covers : List A → List A → Type 0
  Covers ys xs = All (λ x. contains x ys ≡ true) xs

  length-discard-lt :
      (x : A) (ys : List A) → contains x ys ≡ true → length (discard x ys) < length ys
  length-discard-lt x [] h = cc
  length-discard-lt x (y ∷ ys) h = ground (arith, length-discard-lt x ys, length-discard-le x ys)

  discard-Distinct : (x : A) (ys : List A) → Distinct ys → Distinct (discard x ys)
  discard-Distinct x [] d = tt
  discard-Distinct x (y ∷ ys) d =
      ground (arith, discard-Distinct x ys d.1, contains-discard y x ys, ==_iff y x)

  length-le-discard : (x : A) (ys : List A) → Distinct ys → length ys ≤ length (discard x ys) + 1
  length-le-discard x [] d = omega arith
  length-le-discard x (y ∷ ys) d =
      ground (arith, length-le-discard x ys d.1, discard_absent y ys, ==_iff y x)
    where
      discard_absent :
          (z : A) (zs : List A) → contains z zs ≡ false → length (discard z zs) ≡ length zs
      discard_absent z [] h = refl
      discard_absent z (w ∷ zs) h = ground (arith, discard_absent z zs)

  Covers-discard :
      (x : A) (ys xs : List A) → Covers ys xs → contains x xs ≡ false → Covers (discard x ys) xs
  Covers-discard x ys [] c n = tt
  Covers-discard x ys (z ∷ xs) c n =
      ground
        (arith, Covers-discard x ys xs c.1, c.0, contains-discard z x ys, ==_iff z x, ==_iff x z)

  pub pigeonhole : (xs ys : List A) → Distinct xs → Covers ys xs → length xs ≤ length ys
  pigeonhole [] ys d c = omega arith
  pigeonhole (x ∷ xs) ys d c = omega (
    arith,
    pigeonhole xs (discard x ys) d.1 (Covers-discard x ys xs c.1 d.0),
    length-discard-lt x ys c.0,
  )

  -- As many different items of a list as it is long are all of them.
  pub pigeonhole_full :
      (xs ys : List A) (y : A)
      → Distinct xs
      → Covers ys xs
      → length ys ≤ length xs
      → contains y ys ≡ true
      → contains y xs ≡ true
  pigeonhole_full xs ys y d c l h = elim (Bool-cases (contains y xs)) [
    | inl e ↦ e
    | inr e ↦
        let fewer = pigeonhole xs (discard y ys) d (Covers-discard y ys xs c e) in
        absurd (omega (arith, fewer, length-discard-lt y ys h))
  ]

  Covers-tail : (y : A) (ys xs : List A) → Covers (y ∷ ys) xs → contains y ys ≡ true → Covers ys xs
  Covers-tail y ys [] c h = tt
  Covers-tail y ys (x ∷ xs) c h = ground (arith, Covers-tail y ys xs c.1, c.0, ==_iff y x)

  Covers-without : (y : A) (ys xs : List A) → Covers (y ∷ ys) xs → Covers ys (discard y xs)
  Covers-without y ys [] c = tt
  Covers-without y ys (x ∷ xs) c =
      ground (arith, Covers-without y ys xs c.1, c.0, ==_iff y x, ==_iff x y)

  pub pigeonhole-Distinct :
      (xs ys : List A) → Distinct xs → Covers ys xs → length ys ≤ length xs → Distinct ys
  pigeonhole-Distinct xs [] d c l = tt
  pigeonhole-Distinct xs (y ∷ ys) d c l = elim (Bool-cases (contains y ys)) [
    | inl e ↦ absurd (omega (arith, pigeonhole xs ys d (Covers-tail y ys xs c e)))
    | inr e ↦ (
      e,
      pigeonhole-Distinct (discard y xs) ys (discard-Distinct y xs d) (Covers-without y ys xs c)
          (omega (arith, length-le-discard y xs d)),
    )
  ]
