-- ===== src/Utils/Database.antt =====
-- `Database` of src/icefarm/utils/Database.py: what a query gives, and the listeners to notifications. What
-- PostgreSQL does with a statement is an argument: its rows, or none where it raises.
use i_cefarm.Prelude.{Bool, true, false, Option, none, some, List, [], ◌∷◌, if◌then◌else◌}

-- What `execute` returns; False where the statement raised.
pub data Executed (R : Type 0) : Type 0 where
  rows : List R → Executed R
  done failed : Executed R

-- `execute`, with whether the statement is a call.
unfoldable pub execute : {R : Type 0} → Bool → Option (List R) → Executed R
execute is_call none = failed
execute is_call (some found) = if is_call then done else rows found

-- The methods of `WorkerDatabase` that only run a call: whether it did not fail.
unfoldable pub call : {R : Type 0} → Option (List R) → Bool
unfolding execute
call outcome = elim (execute true outcome) [ rows found ↦ true | done ↦ true | failed ↦ false ]

module _ {P A S : Type 0} (parse : P → Option A) (callback : A → S → S) where
  -- The loops of `listenReservations` and `listenAvailable`, with what they read of a notification's payload,
  -- or none where that raises; the exception of one notification does not end the loop.
  unfoldable pub listen : List P → S → S
  listen [] s = s
  listen (payload ∷ payloads) s = elim (parse payload) [
    | none ↦ listen payloads s
    | some a ↦ listen payloads (callback a s)
  ]
