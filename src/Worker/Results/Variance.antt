-- ===== src/Worker/Results/Variance.antt =====
-- The variance of samples: `calculate_variance` of
-- src/icefarm/worker/device/state/reservable/VarMaxState.py.
use i_cefarm.Prelude.{
  ℕ, ◌+◌, ◌*◌, ◌≤◌, ◌≡◌, refl, ap, List, [], ◌∷◌, ◌++◌, reverse, length, length-reverse, All, arith,
}
use mathlib.Core.List.{reverse-append, reverse-cons}
use i_cefarm.Worker.Results.{abs_diff, variance_sum, calculate_variance}

abs_diff_comm : (a b : ℕ) → abs_diff a b ≡ abs_diff b a
unfolding abs_diff
abs_diff_comm a b = omega arith

variance_sum-append :
    (xs : List ℕ) (a b : ℕ)
    → variance_sum (xs ++ a ∷ b ∷ []) ≡ variance_sum (xs ++ a ∷ []) + abs_diff b a
unfolding variance_sum
variance_sum-append [] a b = omega arith
variance_sum-append (x ∷ []) a b = omega arith
variance_sum-append (x ∷ y ∷ xs) a b = omega (arith, variance_sum-append (y ∷ xs) a b)

variance_sum-reverse : (xs : List ℕ) → variance_sum (reverse xs) ≡ variance_sum xs
unfolding variance_sum
variance_sum-reverse [] = refl
variance_sum-reverse (a ∷ []) = refl
variance_sum-reverse (a ∷ b ∷ rest) = omega (
  arith,
  ap variance_sum (reverse-append (a ∷ b ∷ []) rest),
  variance_sum-append (reverse rest) b a,
  ap variance_sum (reverse-cons b rest),
  variance_sum-reverse (b ∷ rest),
  abs_diff_comm a b,
)

-- The variance does not depend on the direction in which the samples are read.
calculate_variance-reverse :
    (samples : List ℕ) → calculate_variance (reverse samples) ≡ calculate_variance samples
unfolding calculate_variance
calculate_variance-reverse samples =
    ground (arith, variance_sum-reverse samples, length-reverse samples)

variance_sum-le : (m : ℕ) (xs : List ℕ) → All (λ x. x ≤ m) xs → variance_sum xs ≤ length xs * m
unfolding variance_sum abs_diff
variance_sum-le m [] h = omega arith
variance_sum-le m (a ∷ []) h = omega arith
variance_sum-le m (a ∷ b ∷ rest) h = ground (arith, variance_sum-le m (b ∷ rest) h.1, h.0, h.1.0)

-- The variance is at most the largest sample.
calculate_variance-le :
    (m : ℕ) (samples : List ℕ)
    → All (λ x. x ≤ m) samples
    → (calculate_variance samples).numerator ≤ (calculate_variance samples).denominator * m
unfolding calculate_variance
calculate_variance-le m samples h = ground (arith, variance_sum-le m samples h)
