-- ===== src/Utils/Queue.antt =====
-- `Queue` of src/icefarm/utils/utils.py, the queue with a shutdown. Each method runs under the
-- queue's condition variable and is one step; `pop` that has to wait is `blocked`.
pub mod Laws
use i_cefarm.Prelude.{
  ℕ, Bool, true, false, Option, none, some, List, [], ◌∷◌, ◌++◌, if◌then◌else◌, length, is_nonempty,
}

pub record Queue (A : Type 0) : Type 0 where
  pub contents : List A
  pub shutting_down : Bool

-- A method that may raise `QueueShutDown`.
pub data Raises (A : Type 0) : Type 0 where
  returned : A → Raises A
  queue_shut_down : Raises A

pub data Popped (A : Type 0) : Type 0 where
  item : A → Popped A
  blocked shut : Popped A

module _ {A : Type 0} where
  -- `__init__`; no contents are `[]`.
  unfoldable pub init : List A → Queue A
  init contents = record { contents = contents; shutting_down = false }

  -- `put` of an iterable; of one item, with a list of one.
  unfoldable pub put : List A → Queue A → Raises (Queue A)
  put items q =
      if q.shutting_down
      then queue_shut_down
      else returned (record q { contents = q.contents ++ items })

  pop_first : List A → Queue A → Popped A × Queue A
  pop_first [] q = (blocked, q)
  pop_first (first ∷ rest) q = (item first, record q { contents = rest })

  unfoldable pub pop : Queue A → Popped A × Queue A
  unfolding pop_first
  pop q = if q.shutting_down then (shut, q) else pop_first q.contents q

  unfoldable pub shutdown : Queue A → List A × Queue A
  shutdown q = (q.contents, record { contents = []; shutting_down = true })

  -- `__len__`
  unfoldable pub len : Queue A → Raises ℕ
  len q = if q.shutting_down then queue_shut_down else returned (length q.contents)

  -- `__bool__`
  unfoldable pub is_true : Queue A → Raises Bool
  is_true q = if q.shutting_down then queue_shut_down else returned (is_nonempty q.contents)
