-- ===== src/Client/Waiting.antt =====
-- Waiting for devices: `BaseClientEventHandler` of src/icefarm/client/lib/BaseClient.py, and
-- `AvailabilityWaiter` of src/icefarm/client/lib/utils.py. A wait is given the list of what happens while
-- it sleeps; none is a wait that still sleeps when the list has ended.
pub mod Initialized
use i_cefarm.Prelude.{
  ℕ, String, Bool, true, false, ◌||◌, Option, none, some, List, [], ◌∷◌, if◌then◌else◌, string_key,
  leb, discard, union, is_nonempty,
}

pub record Handler : Type 0 where
  pub recently_added_serials : List String
  pub awaiting_serials : List String

-- What wakes a wait: an event "initialized", or the timer, with whether `time_passed` holds by then.
pub data Signal : Type 0 where
  initialized : String → Signal
  timer : Bool → Signal

unfoldable pub handle_initialization : String → Handler → Handler
handle_initialization serial h = record h { awaiting_serials = discard serial h.awaiting_serials }

-- The `wait_for`, whose condition is tested before it sleeps and when it is notified: an event notifies
-- only when nothing is awaited any more.
unfoldable pub wait_for : List Signal → Handler → Option (List String) × Handler
wait_for [] h = if is_nonempty h.awaiting_serials then (none, h) else (some [], h)
wait_for (initialized serial ∷ later) h =
    let h' = handle_initialization serial h in
    let rest = wait_for later h' in if is_nonempty h.awaiting_serials then rest else (some [], h)
wait_for (timer passed ∷ later) h =
    let rest = wait_for later h in
    if is_nonempty h.awaiting_serials
    then (if passed then (some h.awaiting_serials, h) else rest)
    else (some [], h)

-- `waitUntilInitilized` from where it has set `awaiting_serials`. The value is the set that is still
-- awaited. The loop over `recently_added_serials` calls `pop` of a set with arguments, which raises; the
-- list is empty at every call in the code, so the loop is left out.
unfoldable pub wait_until_initialized :
    List String → List Signal → Handler → Option (List String) × Handler
wait_until_initialized serials later h =
    wait_for later (record h { awaiting_serials = union [] serials })

-- The events that come before the wait has begun.
unfoldable pub receive_all : List String → Handler → Handler
receive_all [] h = h
receive_all (serial ∷ serials) h = receive_all serials (handle_initialization serial h)

-- `waitForAmountAvailable`, with the control server's answer, where False counts as 0, and the amounts of
-- the events "devices_available" that come while it sleeps. The value is whether it returns, with the
-- amount in `last_available` by then.
unfoldable pub sleep_until : ℕ → ℕ → List ℕ → Bool × ℕ
sleep_until amount last_available [] = (leb amount last_available, last_available)
sleep_until amount last_available (next ∷ later) =
    let rest = sleep_until amount next later in
    if leb amount last_available then (true, last_available) else rest

unfoldable pub wait_for_amount_available : ℕ → Option ℕ → ℕ → List ℕ → Bool × ℕ
wait_for_amount_available amount answer last_available later =
    let now : ℕ = elim answer [ none ↦ 0 | some available ↦ available ] in
    if leb amount now then (true, last_available) else sleep_until amount last_available later
