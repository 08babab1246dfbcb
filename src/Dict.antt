-- ===== src/Dict.antt =====
-- Python's `dict`: the entries in the order in which their keys were first inserted.
use i_cefarm.Prelude.{
  ◌≡◌, refl, false, Option, none, some, List, [], ◌∷◌, ◌++◌, map, arith, Key, ◌==◌, ==_iff,
  if◌then◌else◌, contains, Distinct, ◌||◌,
}

abbrev pub Dict {ℓ κ} : Type ℓ → Type κ → Type (ℓ ⊔ κ)
Dict K V = List (K × V)

module _ {ℓ κ} {K : Type ℓ} {V : Type κ} where
  -- list(d), list(d.values())
  abbrev pub keys : Dict K V → List K
  keys = map (λ e. e.0)

  abbrev pub values : Dict K V → List V
  values = map (λ e. e.1)

module _ {ℓ κ} {K : Type ℓ} {V : Type κ} ⦃e : Key K⦄ where
  -- d.get(k)
  unfoldable pub get : K → Dict K V → Option V
  get k [] = none
  get k ((j, v) ∷ d) = if j == k then some v else get k d

  -- d[k] = v
  unfoldable pub put : K → V → Dict K V → Dict K V
  put k v [] = (k, v) ∷ []
  put k v ((j, w) ∷ d) = if j == k then (j, v) ∷ d else (j, w) ∷ put k v d

  -- del d[k], d.pop(k, None)
  unfoldable pub remove : K → Dict K V → Dict K V
  remove k [] = []
  remove k ((j, v) ∷ d) = let rest = remove k d in if j == k then rest else (j, v) ∷ rest

  pub get-put :
      (k j : K) (v : V) (d : Dict K V) → get j (put k v d) ≡ (if k == j then some v else get j d)
  unfolding get put
  get-put k j v [] = refl
  get-put k j v ((i, w) ∷ d) = ground (arith, ==_iff k j, ==_iff i k, ==_iff i j, get-put k j v d)

  pub get-remove :
      (k j : K) (d : Dict K V) → get j (remove k d) ≡ (if k == j then none else get j d)
  unfolding get remove
  get-remove k j [] = ground arith
  get-remove k j ((i, w) ∷ d) = ground (arith, ==_iff k j, ==_iff i k, ==_iff i j, get-remove k j d)

  pub put_fresh : (k : K) (v : V) (d : Dict K V) → get k d ≡ none → put k v d ≡ d ++ (k, v) ∷ []
  unfolding get put
  put_fresh k v [] h = refl
  put_fresh k v ((i, w) ∷ d) h = ground (arith, put_fresh k v d)

  pub get-eq-none_of_not_contains :
      (k : K) (d : Dict K V) → contains k (keys d) ≡ false → get k d ≡ none
  unfolding get
  get-eq-none_of_not_contains k [] h = refl
  get-eq-none_of_not_contains k ((i, w) ∷ d) h = ground (arith, get-eq-none_of_not_contains k d)

  pub not_contains_of_get-eq-none :
      (k : K) (d : Dict K V) → get k d ≡ none → contains k (keys d) ≡ false
  unfolding get
  not_contains_of_get-eq-none k [] h = refl
  not_contains_of_get-eq-none k ((i, w) ∷ d) h = ground (arith, not_contains_of_get-eq-none k d)

  pub keys-put_known :
      (k : K) (v w : V) (d : Dict K V) → get k d ≡ some w → keys (put k v d) ≡ keys d
  unfolding get put
  keys-put_known k v w [] h = cc
  keys-put_known k v w ((i, u) ∷ d) h = ground (arith, keys-put_known k v w d)

  contains-put :
      (j k : K) (v : V) (d : Dict K V)
      → contains j (keys (put k v d)) ≡ (k == j || contains j (keys d))
  unfolding put
  contains-put j k v [] = refl
  contains-put j k v ((i, u) ∷ d) = ground (arith, contains-put j k v d, ==_iff i k)

  -- A dictionary stays one under assignment.
  pub put-Distinct :
      (k : K) (v : V) (d : Dict K V) → Distinct (keys d) → Distinct (keys (put k v d))
  unfolding put
  put-Distinct k v [] h = (refl, tt)
  put-Distinct k v ((i, u) ∷ d) h =
      ground (arith, put-Distinct k v d h.1, contains-put i k v d, ==_iff i k, ==_iff k i)
