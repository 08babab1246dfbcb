-- ===== src/Examples/Devices.antt =====
-- src/icefarm/worker/device at small inputs.
use i_cefarm.Prelude.{◌≡◌, ◌≤◌, refl, true, false, none, some, [], ◌∷◌, arith, string_key, nat_key}
use i_cefarm.Dict.{get}
use i_cefarm.Worker.Device.{
  Device, World, Properties, to_test, State, test, broken, uploaded, enter_flash, handle_unreserve,
  enter_test, install, time_out, init, flash_default, emit, enter, flash_files, flash_add, switch,
  cancel_timer, fresh_flash,
}
use i_cefarm.Worker.Device.Flashing.{writes, done, enter_flash_once}
use i_cefarm.Worker.Device.Stale.{handle_unreserve-time_out}

abbrev drive : Properties
drive = ("DEVNAME", "/dev/sda1") ∷ ("DEVTYPE", "partition") ∷ []

abbrev port : Properties
port = ("DEVNAME", "/dev/ttyACM0") ∷ ("SUBSYSTEM", "tty") ∷ []

abbrev bench : World
bench = record {
  devs = port ∷ port ∷ drive ∷ drive ∷ [];
  uploads = λ path. uploaded;
  is_default = λ path. true;
  connects = true;
}

abbrev bare : World
bare = record { devs = []; uploads = λ path. uploaded; is_default = λ path. true; connects = true }

abbrev idle : Device
idle = record { current = none; next_id = 0; timers = []; switched = []; effects = [] }

abbrev tested : State
tested = record { id = 4; kind = test false }

-- A device in its TestState, with the timer of that state running.
abbrev testing : Device
testing = record {
  current = some tested;
  next_id = 5;
  timers = 4 ∷ [];
  switched = [];
  effects = [];
}

flashed_once : done writes (init bench "default.uf2") ≡ 1
unfolding init flash_default enter enter_flash enter_test flash_files flash_add switch cancel_timer
    fresh_flash emit install get
flashed_once = refl

enter_flash_once_example :
    done writes (enter_flash bench "pulse.uf2" true to_test (λ d. d) idle) ≤ 1
enter_flash_once_example =
    enter_flash_once writes bench "pulse.uf2" true to_test (λ d. d) idle (λ d. omega arith)

handle_unreserve-time_out_example :
    (time_out 4 (handle_unreserve bare "default.uf2" testing).1).current
    ≡ some (record { id = (handle_unreserve bare "default.uf2" testing).1.next_id; kind = broken })
handle_unreserve-time_out_example =
    handle_unreserve-time_out bare "default.uf2" 4 testing refl refl refl
