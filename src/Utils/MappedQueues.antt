-- ===== src/Utils/MappedQueues.antt =====
-- `MappedQueues` of src/icefarm/utils/utils.py: a dictionary of lists whose missing keys are
-- created on reading. `self.state` is the state; a method that may write returns the new one.
pub mod Laws
pub mod Size
use i_cefarm.Prelude.{
  ℕ, zero, suc, Bool, Option, none, some, List, [], ◌∷◌, ◌++◌, Key, if◌then◌else◌, is_nonempty, any,
  map, get_or,
}
use i_cefarm.Dict.{Dict, get, put, values as dict_values}

abbrev pub MappedQueues {ℓ} : Type ℓ → Type ℓ → Type ℓ
MappedQueues K V = Dict K (List V)

-- list.pop(): the last item and what is left.
unfoldable pub pop_last {ℓ} : {V : Type ℓ} → List V → Option (List V × V)
pop_last [] = none
pop_last (x ∷ xs) = elim (pop_last xs) [ none ↦ some ([], x) | some (rest, y) ↦ some (x ∷ rest, y) ]

module _ {ℓ} {K V : Type ℓ} ⦃e : Key K⦄ where
  -- The queue of a key, with a missing key read as an empty one.
  abbrev pub queue : K → MappedQueues K V → List V
  queue key state = get_or (get key state) []

  -- __getitem__
  unfoldable pub getitem : K → MappedQueues K V → List V × MappedQueues K V
  getitem key state = elim (get key state) [
    | none ↦ ([], put key [] state)
    | some found ↦ (found, state)
  ]

  unfoldable pub append : K → V → MappedQueues K V → MappedQueues K V
  unfolding getitem
  append key value state =
      let (found, state') = getitem key state in put key (found ++ value ∷ []) state'

  -- __contains__
  unfoldable pub has : K → MappedQueues K V → Bool
  has key state = is_nonempty (queue key state)

  -- One round of the loop of `pop`; `none` leaves the loop.
  unfoldable pub pop_one : K → MappedQueues K V → Option (V × MappedQueues K V)
  unfolding has getitem pop_last
  pop_one key state =
      if has key state
      then (let (found, state') = getitem key state in
          elim (pop_last found) [
            | none ↦ none
            | some (rest, value) ↦ some (value, put key rest state')
          ])
      else none

  unfoldable pub pop_loop : K → ℕ → List V → MappedQueues K V → List V × MappedQueues K V
  pop_loop key zero out state = (out, state)
  pop_loop key (suc amount) out state = elim (pop_one key state) [
    | none ↦ (out, state)
    | some (value, state') ↦ pop_loop key amount (out ++ value ∷ []) state'
  ]

  unfoldable pub pop : K → ℕ → MappedQueues K V → List V × MappedQueues K V
  unfolding pop_loop pop_one
  pop key amount state = pop_loop key amount [] state

  -- __bool__
  unfoldable pub is_true : MappedQueues K V → Bool
  is_true state = any is_nonempty (dict_values state)

  -- __iter__ and `keys`: `takewhile` stops at the first empty queue.
  unfoldable pub keys : MappedQueues K V → List K
  keys [] = []
  keys ((key, found) ∷ rest) = if is_nonempty found then key ∷ keys rest else []

  unfoldable pub values : MappedQueues K V → List (List V)
  unfolding keys
  values state = map (λ key. queue key state) (keys state)
