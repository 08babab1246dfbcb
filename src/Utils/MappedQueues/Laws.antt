-- ===== src/Utils/MappedQueues/Laws.antt =====
-- Proofs about `MappedQueues` of src/icefarm/utils/utils.py.
use mathlib.Core.List.{reverse-cons, reverse-append, reverse-reverse}
use i_cefarm.Prelude.{
  ℕ, zero, suc, ◌≡◌, ◌≢◌, refl, ap, sym, ◌∙◌, true, false, none, some, List, [], ◌∷◌, ◌++◌, Key,
  ◌==◌, ==_iff, ==_refl, if◌then◌else◌, is_nonempty, reverse, take, drop, take-append-drop, length,
  length-take, length-reverse, min, length-append, All, ◌↔◌, arith, append_assoc, append-nil,
  contains, select,
}
use i_cefarm.Dict.{Dict, get, put, get-put}
use i_cefarm.Dict as Dict
use i_cefarm.Utils.MappedQueues.{
  MappedQueues, pop_last, queue, append, has, pop_one, pop_loop, pop, keys,
}

pub pop_last-append {ℓ} :
    {V : Type ℓ} (xs : List V) (y : V) → pop_last (xs ++ y ∷ []) ≡ some (xs, y)
unfolding pop_last
pop_last-append [] y = refl
pop_last-append (x ∷ xs) y = rw (pop_last-append xs y)

is_nonempty-snoc {ℓ} : {V : Type ℓ} (xs : List V) (y : V) → is_nonempty (xs ++ y ∷ []) ≡ true
is_nonempty-snoc [] y = refl
is_nonempty-snoc (x ∷ xs) y = refl

module _ {ℓ} {K V : Type ℓ} ⦃e : Key K⦄ where
  -- `append` adds at the end of its own queue and leaves the others alone.
  pub queue-append :
      (key j : K) (value : V) (state : MappedQueues K V)
      → queue j (append key value state)
        ≡ (if key == j then queue key state ++ value ∷ [] else queue j state)
  unfolding append
  queue-append key j value state = ground (
    arith,
    ==_iff key j,
    ==_refl key,
    get-put key key [] state,
    get-put key j [] state,
    get-put key j (queue key state ++ value ∷ []) state,
    get-put key j (queue key state ++ value ∷ []) (put key [] state),
  )

  pub queue-put :
      (key j : K) (found : List V) (state : MappedQueues K V)
      → queue j (put key found state) ≡ (if key == j then found else queue j state)
  queue-put key j found state = ground (arith, get-put key j found state)

  pub pop_one_empty :
      (key : K) (state : MappedQueues K V) → queue key state ≡ [] → pop_one key state ≡ none
  unfolding pop_one
  pop_one_empty key state h = ground (arith, h)

  pub pop_one_nonempty :
      (key : K) (front : List V) (last : V) (state : MappedQueues K V)
      → queue key state ≡ front ++ last ∷ []
      → pop_one key state ≡ some (last, put key front state)
  unfolding pop_one
  pop_one_nonempty key front last state h =
      ground (arith, is_nonempty-snoc front last, pop_last-append front last)

  -- The loop of `pop` on a queue that is written from its end.
  pop_loop_lem :
      (key : K) (amount : ℕ) (out backwards : List V) (state : MappedQueues K V)
      → queue key state ≡ reverse backwards
      → let (popped, state') = pop_loop key amount out state in
        (popped ≡ out ++ take amount backwards)
        × (queue key state' ≡ reverse (drop amount backwards))
        × ((j : K) → (key == j) ≡ false → queue j state' ≡ queue j state)
  unfolding pop_loop
  pop_loop_lem key zero out backwards state h = (sym (append-nil out), h, λ j _. refl)
  pop_loop_lem key (suc amount) out [] state h =
      rw (pop_one_empty key state h, pop_loop) (sym (append-nil out), h, λ j _. refl)
  pop_loop_lem key (suc amount) out (x ∷ backwards) state h =
      let known = pop_one_nonempty key (reverse backwards) x state (h ∙ reverse-cons x backwards) in
      let state' : MappedQueues K V = put key (reverse backwards) state in
      let here : queue key state' ≡ reverse backwards =
        ground (arith, queue-put key key (reverse backwards) state, ==_refl key) in
      let (popped, kept, others) = pop_loop_lem key amount (out ++ x ∷ []) backwards state' here in
      rw (known, pop_loop)
        (
          popped ∙ append_assoc out (x ∷ []) (take amount backwards),
          kept,
          λ j apart. others j apart ∙ (queue-put key j (reverse backwards) state ∙ rw apart),
        )

  -- `pop` takes the last `amount` values, the newest first, keeps the rest of its own queue in order,
  -- and leaves the other queues alone.
  pub pop_lem :
      (key : K) (amount : ℕ) (state : MappedQueues K V)
      → let (popped, state') = pop key amount state in
        (popped ≡ take amount (reverse (queue key state)))
        × (queue key state' ≡ reverse (drop amount (reverse (queue key state))))
        × ((j : K) → (key == j) ≡ false → queue j state' ≡ queue j state)
  unfolding pop
  pop_lem key amount state =
      pop_loop_lem key amount [] (reverse (queue key state)) state
        (sym (reverse-reverse (queue key state)))

  -- What `pop` returns, put back in reverse, completes the queue that it left.
  pub queue-pop :
      (key : K) (amount : ℕ) (state : MappedQueues K V)
      → let (popped, state') = pop key amount state in
        queue key state' ++ reverse popped ≡ queue key state
  queue-pop key amount state =
      let (popped, kept, _) = pop_lem key amount state in
      let backwards : List V = reverse (queue key state) in
      rw (popped, kept)
        (sym (reverse-append (take amount backwards) (drop amount backwards))
          ∙ (ap reverse (take-append-drop amount backwards) ∙ reverse-reverse (queue key state)))

  pub length-pop :
      (key : K) (amount : ℕ) (state : MappedQueues K V)
      → length (pop key amount state).0 ≡ min amount (length (queue key state))
  length-pop key amount state = omega (
    arith,
    ap length (pop_lem key amount state).0,
    length-take amount (reverse (queue key state)),
    length-reverse (queue key state),
  )

  -- A key is in the mapping exactly when its queue holds a value.
  pub has_iff :
      (key : K) (state : MappedQueues K V) → (has key state ≡ true) ↔ (queue key state ≢ [])
  unfolding has
  has_iff key state = ground arith

  -- Every key that the iteration yields is in the mapping.
  pub keys-has :
      (key : K) (state : MappedQueues K V) → contains key (keys state) ≡ true → has key state ≡ true
  unfolding keys has get
  keys-has key [] h = cc
  keys-has key ((j, []) ∷ rest) h = cc
  keys-has key ((j, x ∷ xs) ∷ rest) h = ground (arith, keys-has key rest)

  -- Without an emptied queue the iteration yields every key, in the order of insertion.
  pub keys_of_full :
      (state : MappedQueues K V)
      → All (λ (entry : K × List V). is_nonempty entry.1 ≡ true) state
      → keys state ≡ Dict.keys state
  unfolding keys
  keys_of_full [] full = refl
  keys_of_full ((key, found) ∷ rest) full = ground (arith, keys_of_full rest full.1)

  -- The iteration ends at the first emptied queue.
  pub keys_stop :
      (front back : MappedQueues K V) (key : K)
      → All (λ (entry : K × List V). is_nonempty entry.1 ≡ true) front
      → keys (front ++ (key, []) ∷ back) ≡ Dict.keys front
  unfolding keys
  keys_stop [] back key full = refl
  keys_stop ((j, found) ∷ front) back key full = ground (arith, keys_stop front back key full.1)

  -- What the class comment asks for: an emptied key counts as a missing one.
  abbrev pub live_keys : MappedQueues K V → List K
  live_keys state = Dict.keys (select (λ entry. is_nonempty entry.1) state)

  live_keys_full :
      (front back : MappedQueues K V)
      → All (λ (entry : K × List V). is_nonempty entry.1 ≡ true) front
      → live_keys (front ++ back) ≡ Dict.keys front ++ live_keys back
  live_keys_full [] back full = refl
  live_keys_full ((j, found) ∷ front) back full = ground (arith, live_keys_full front back full.1)

  -- A key with values that stands behind an emptied one is not yielded: the iteration differs from
  -- the keys that hold a value.
  keys_hide_live :
      (front back : MappedQueues K V) (key live : K) (value : V) (more : List V)
      → All (λ (entry : K × List V). is_nonempty entry.1 ≡ true) front
      → let state = front ++ (key, []) ∷ (live, value ∷ more) ∷ back in keys state ≢ live_keys state
  keys_hide_live front back key live value more full h =
      let rest : MappedQueues K V = (key, []) ∷ (live, value ∷ more) ∷ back in
      absurd (
        omega (
          arith,
          ap length (
              sym (keys_stop front ((live, value ∷ more) ∷ back) key full)
              ∙ (h ∙ live_keys_full front rest full)),
          length-append (Dict.keys front) (live_keys rest),
        ))
