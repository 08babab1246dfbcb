-- ===== src/Worker/Shutdown.antt =====
-- The graceful shutdown of a worker: `handle_res_end` and `shutdown` of src/icefarm/worker/app.py, and
-- `hasReservations` and `waitUntilNoReservations` of WorkerDatabase.py. What the query for reservations
-- answers is an argument: none where it failed.
use i_cefarm.Prelude.{
  ◌≡◌, refl, String, Bool, true, false, ◌&&◌, not, Option, none, some, List, [], ◌∷◌, if◌then◌else◌,
  string_key, arith, All, all,
}
use i_cefarm.Dict.{get}
use i_cefarm.Worker.Device.{World}
use i_cefarm.Worker.Manager.{Manager, Patterns, unreserve}

-- `hasReservations`, as a condition: Python's None counts as no reservations.
unfoldable pub has_reservations : Option Bool → Bool
has_reservations none = false
has_reservations (some reserved) = reserved

module _ (patterns : Patterns) (world : World) (firmware : String) where
  -- `handle_res_end`: whether it wakes the wait, and the manager afterwards.
  unfoldable pub handle_res_end : String → Manager → Bool × Manager
  handle_res_end serial m = unreserve patterns world firmware serial m

  -- The wait's sleep, through the ends of reservations that the database notifies, each with the answer
  -- that the condition's test would get after it: whether the wait returns, and the manager by then.
  unfoldable pub sleep : List (String × Option Bool) → Manager → Bool × Manager
  sleep [] m = (false, m)
  sleep ((serial, answer) ∷ later) m =
      let (woken, m') = handle_res_end serial m in
      let rest = sleep later m' in
      if woken && not (has_reservations answer) then (true, m') else rest

  -- `waitUntilNoReservations`, with the answers to its first test and to the one before it sleeps. If it
  -- returns, `monitor` calls `manager.onExit` and tells the clients.
  unfoldable pub wait_until_no_reservations :
      Option Bool → Option Bool → List (String × Option Bool) → Manager → Bool × Manager
  wait_until_no_reservations first second later m =
      if has_reservations first
      then if has_reservations second then sleep later m else (true, m)
      else (true, m)

  sleep_unwoken :
      (later : List (String × Option Bool)) (m : Manager)
      → All (λ notice. get notice.0 m.devs ≡ none) later
      → sleep later m ≡ (false, m)
  unfolding sleep handle_res_end unreserve
  sleep_unwoken [] m unknown = refl
  sleep_unwoken ((serial, answer) ∷ later) m unknown =
      ground (arith, unknown.0, sleep_unwoken later m unknown.1)

  -- A shutdown that waits for reservations never ends if only reservations of devices that the manager does
  -- not have end from then on, even where the database then has no reservations left.
  pub wait_until_no_reservations_unwoken :
      (later : List (String × Option Bool)) (m : Manager)
      → All (λ notice. get notice.0 m.devs ≡ none) later
      → wait_until_no_reservations (some true) (some true) later m ≡ (false, m)
  unfolding wait_until_no_reservations has_reservations
  wait_until_no_reservations_unwoken later m unknown = sleep_unwoken later m unknown

  -- The worker does not exit while every answer is that there are reservations.
  sleep-reserved :
      (later : List (String × Option Bool)) (m : Manager)
      → all (λ notice. has_reservations notice.1) later ≡ true
      → (sleep later m).0 ≡ false
  unfolding sleep
  sleep-reserved [] m reserved = refl
  sleep-reserved ((serial, answer) ∷ later) m reserved =
      let m' = (handle_res_end serial m).1 in ground (arith, reserved, sleep-reserved later m')
