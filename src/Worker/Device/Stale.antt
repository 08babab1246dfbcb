-- ===== src/Worker/Device/Stale.antt =====
-- The timers of FlashState and TestState outlive the state: AbstractState.py, FlashState.py and
-- TestState.py of src/icefarm/worker/device/state/core, whose `handleExit` does nothing.
use i_cefarm.Prelude.{
  ℕ, ◌≡◌, refl, ap, ◌∙◌, String, true, false, [], some, arith, contains, nat_key,
}
use i_cefarm.Worker.Device.{
  Device, broken, World, cancel_timer, enter_broken, switch, time_out, install, handle_unreserve,
  flash_default, enter, enter_flash, flash_files, emit, fresh_flash,
}

-- When the timer of a state that has not switched runs out, the device is broken, whatever state it is in
-- by then.
pub time_out_breaks :
    (id : ℕ) (d : Device)
    → contains id d.timers ≡ true
    → contains id d.switched ≡ false
    → (time_out id d).current ≡ some (record { id = d.next_id; kind = broken })
unfolding time_out switch enter_broken install cancel_timer
time_out_breaks id d runs fresh = rw (runs, fresh) refl

-- Without device files at hand, releasing a device leaves every earlier timer running and every state's
-- record of its switches as it was.
handle_unreserve-timers :
    (world : World) (firmware : String) (id : ℕ) (d : Device)
    → world.devs ≡ []
    → contains id d.timers ≡ true
    → contains id (handle_unreserve world firmware d).1.timers ≡ true
unfolding handle_unreserve flash_default enter enter_flash flash_files install emit fresh_flash
handle_unreserve-timers world firmware id d none_found runs = rw (none_found) (ground (arith, runs))

handle_unreserve-switched :
    (world : World) (firmware : String) (d : Device)
    → world.devs ≡ []
    → (handle_unreserve world firmware d).1.switched ≡ d.switched
unfolding handle_unreserve flash_default enter enter_flash flash_files install emit fresh_flash
handle_unreserve-switched world firmware d none_found = rw (none_found) refl

-- A FlashState or TestState whose timer still runs, and that has not switched itself, breaks the device
-- after it was released: handleUnreserve replaces the state and, with no device file at hand, leaves the
-- timer, which makes the flashing device broken when it runs out.
pub handle_unreserve-time_out :
    (world : World) (firmware : String) (id : ℕ) (d : Device)
    → world.devs ≡ []
    → contains id d.timers ≡ true
    → contains id d.switched ≡ false
    → let d' = (handle_unreserve world firmware d).1 in
      (time_out id d').current ≡ some (record { id = d'.next_id; kind = broken })
handle_unreserve-time_out world firmware id d none_found runs fresh =
    let d' = (handle_unreserve world firmware d).1 in
    time_out_breaks id d' (handle_unreserve-timers world firmware id d none_found runs)
      (ap (contains id) (handle_unreserve-switched world firmware d none_found) ∙ fresh)
