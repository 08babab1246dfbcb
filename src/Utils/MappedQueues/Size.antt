-- ===== src/Utils/MappedQueues/Size.antt =====
-- The number of values in a `MappedQueues` of src/icefarm/utils/utils.py, and its keys, under `append`
-- and `pop`.
use i_cefarm.Prelude.{
  ℕ, zero, suc, ◌+◌, ◌≡◌, ◌≢◌, refl, none, some, List, [], ◌∷◌, ◌++◌, Key, ==_iff, arith, length,
  inl, inr, Option-cases, length-append, Distinct,
}
use i_cefarm.Dict.{Dict, get, put, get-put, put-Distinct, keys-put_known}
use i_cefarm.Dict as Dict
use i_cefarm.Utils.MappedQueues.{MappedQueues, pop_last, queue, append, pop_one, pop_loop, pop}

module _ {ℓ} {K V : Type ℓ} where
  -- The number of values in all queues.
  abbrev pub total : MappedQueues K V → ℕ
  total [] = 0
  total (entry ∷ rest) = length entry.1 + total rest

module _ {ℓ} {V : Type ℓ} where
  pop_last-ne-none : (x : V) (xs : List V) → pop_last (x ∷ xs) ≢ none
  unfolding pop_last
  pop_last-ne-none x xs = ground arith

  pop_last-length :
      (xs rest : List V) (y : V) → pop_last xs ≡ some (rest, y) → length xs ≡ length rest + 1
  unfolding pop_last
  pop_last-length [] rest y h = cc
  pop_last-length (x ∷ []) rest y h = ground arith
  pop_last-length (x ∷ z ∷ xs) rest y h = elim (Option-cases (pop_last (z ∷ xs))) [
    | inl e ↦ absurd (pop_last-ne-none z xs e)
    | inr ((front, last), e) ↦ ground (arith, e, pop_last-length (z ∷ xs) front last e)
  ]

module _ {ℓ} {K V : Type ℓ} ⦃e : Key K⦄ where
  pub total-put :
      (key : K) (found : List V) (state : MappedQueues K V)
      → total (put key found state) + length (queue key state) ≡ total state + length found
  unfolding put get
  total-put key found [] = omega arith
  total-put key found ((j, held) ∷ rest) = ground (arith, total-put key found rest)

  pub total-append :
      (key : K) (value : V) (state : MappedQueues K V)
      → total (append key value state) ≡ total state + 1
  unfolding append
  total-append key value state = ground (
    arith,
    length-append (queue key state) (value ∷ []),
    total-put key [] state,
    total-put key (queue key state ++ value ∷ []) state,
    total-put key (queue key state ++ value ∷ []) (put key [] state),
    get-put key key [] state,
    ==_iff key key,
  )

  pop_one-shape :
      (key : K) (value : V) (state state' : MappedQueues K V)
      → pop_one key state ≡ some (value, state')
      → (Dict.keys state' ≡ Dict.keys state) × (total state' + 1 ≡ total state)
  unfolding pop_one
  pop_one-shape key value state state' h = elim (Option-cases (get key state)) [
    | inl missing ↦ ground (arith, missing)
    | inr (found, known) ↦ elim (Option-cases (pop_last found)) [
      | inl e ↦ ground (arith, known, e)
      | inr ((rest, last), e) ↦ ground (
        arith,
        known,
        e,
        pop_last-length found rest last e,
        total-put key rest state,
        keys-put_known key rest found state known,
      )
    ]
  ]

  pop_loop-shape :
      (key : K) (amount : ℕ) (out : List V) (state : MappedQueues K V)
      → let (popped, state') = pop_loop key amount out state in
        (Dict.keys state' ≡ Dict.keys state)
        × (total state' + length popped ≡ total state + length out)
  unfolding pop_loop
  pop_loop-shape key zero out state = (refl, refl)
  pop_loop-shape key (suc amount) out state = elim (Option-cases (pop_one key state)) [
    | inl stop ↦ rw (stop, pop_loop) (refl, refl)
    | inr ((value, state'), go) ↦ ground (
      arith,
      go,
      pop_one-shape key value state state',
      pop_loop-shape key amount (out ++ value ∷ []) state',
      length-append out (value ∷ []),
    )
  ]

  pub pop-shape :
      (key : K) (amount : ℕ) (state : MappedQueues K V)
      → let (popped, state') = pop key amount state in
        (Dict.keys state' ≡ Dict.keys state) × (total state' + length popped ≡ total state)
  unfolding pop
  pop-shape key amount state = ground (arith, pop_loop-shape key amount [] state)

  pub append-Distinct :
      (key : K) (value : V) (state : MappedQueues K V)
      → Distinct (Dict.keys state)
      → Distinct (Dict.keys (append key value state))
  unfolding append
  append-Distinct key value state d = ground (
    arith,
    put-Distinct key (queue key state ++ value ∷ []) state d,
    put-Distinct key (queue key state ++ value ∷ []) (put key [] state)
        (put-Distinct key [] state d),
  )
