-- ===== src/Worker/Device.antt =====
-- `Device` and its states: src/icefarm/worker/device/Device.py, and AbstractState.py, FlashState.py,
-- TestState.py, ReadyState.py and BrokenState.py of src/icefarm/worker/device/state/core, with the flasher
-- states of src/icefarm/worker/device/state/reservable. Every method runs under the device's lock and is
-- one step. A state is known by a number; `timers` holds those whose timer runs, `switched` those whose
-- `_switching` is set, also when they are no longer the device's state.
pub mod Flashing
pub mod Reported
pub mod Stale
use i_cefarm.Prelude.{
  ℕ, suc, String, Bool, true, false, not, ◌&&◌, Option, none, some, List, [], ◌∷◌, ◌++◌,
  if◌then◌else◌, string_key, nat_key, ◌==◌, contains, discard, get_or,
}
use i_cefarm.Dict.{Dict, get}

-- A device file, as the dictionary of its properties.
abbrev pub Properties : Type 0
Properties = Dict String String

-- The factories that the code passes to `switch`, but for those of ReadyState and BrokenState, which are
-- `enter_ready` and `enter_broken` below.
pub data Factory : Type 0 where
  to_test : Factory
  -- `UploadState` with the firmware for reboots, and the flasher states that lead to it.
  to_upload to_flasher : String → Factory
  -- `FlashState` with a firmware, whether it has a timeout, and the next state.
  to_flash : String → Bool → Factory → Factory

pub record Flash : Type 0 where
  pub firmware_path : String
  pub next_state_factory : Factory
  pub uploading : Bool
  pub bootloader_sent : Bool

pub data Kind : Type 0 where
  flash : Flash → Kind
  -- `TestState` with its `exiting`.
  test : Bool → Kind
  ready broken : Kind
  upload flasher : String → Kind

pub record State : Type 0 where
  pub id : ℕ
  pub kind : Kind

-- What reaches the database, the client and the hardware.
pub data Effect : Type 0 where
  status : String → Effect
  event : String → Effect
  bootloader : String → Effect
  write_firmware : String → String → Effect

pub record Device : Type 0 where
  pub current : Option State
  pub next_id : ℕ
  pub timers : List ℕ
  pub switched : List ℕ
  pub effects : List Effect

-- What `upload_firmware_path` comes to: its value, or the exception FirmwareUploadFail.
pub data Uploaded : Type 0 where
  uploaded not_uploaded raised : Uploaded

-- The hardware while one method runs: the device's files that `get_devs` finds, the firmware upload,
-- `check_default`, and whether `connectSerial` finds a port.
pub record World : Type 0 where
  pub devs : List Properties
  pub uploads : String → Uploaded
  pub is_default : String → Bool
  pub connects : Bool

-- Makes a new state the device's, after what its `__init__` does.
unfoldable pub install : Kind → Bool → List Effect → Device → Device
install kind timed effects d = record d {
  current = some (record { id = d.next_id; kind = kind });
  next_id = suc d.next_id;
  timers = if timed then d.next_id ∷ d.timers else d.timers;
  effects = d.effects ++ effects;
}

unfoldable pub emit : Effect → Device → Device
emit effect d = record d { effects = d.effects ++ effect ∷ [] }

unfoldable pub cancel_timer : ℕ → Device → Device
cancel_timer id d = record d { timers = discard id d.timers }

-- The states whose `start` does nothing.
unfoldable pub enter_ready : Device → Device
unfolding install
enter_ready = install ready false (status "available" ∷ [])

unfoldable pub enter_broken : Device → Device
unfolding install
enter_broken = install broken false (status "broken" ∷ event "failure" ∷ [])

unfoldable pub enter_test : Device → Device
unfolding install
enter_test = install (test false) true (status "testing" ∷ [])

-- `AbstractState.switch`: the first call of a state is passed on to the device, later ones are ignored.
unfoldable pub switch : ℕ → (Device → Device) → Device → Device
switch id enter d =
    if contains id d.switched then d else enter (record d { switched = id ∷ d.switched })

-- `UploadState.start`; without a port the state switches to BrokenState.
unfoldable pub enter_upload : World → String → Device → Device
enter_upload world firmware d =
    let d' = install (upload firmware) false [] d in
    if world.connects then emit (event "initialized") d' else switch d.next_id enter_broken d'

-- How a method of FlashState ends: the state stays, it stays and an exception ends the caller too, or
-- the device has switched.
pub data Flashed : Type 0 where
  stays stops : Flash → Device → Flashed
  gone : Device → Flashed

-- `FlashState.handleAdd` of state `id`; `next` enters the next state.
unfoldable pub flash_add : World → (Device → Device) → ℕ → Properties → Flash → Device → Flashed
flash_add world next id dev f d =
    let devname = get_or (get "DEVNAME" dev) "" in
    if devname == ""
    then stays f d
    else if get_or (get "SUBSYSTEM" dev) "" == "tty"
    then (if f.uploading
        then stays f d
        else if f.bootloader_sent
        then stays f d
        else stays (record f { bootloader_sent = true }) (emit (bootloader devname) d))
    else if get_or (get "DEVTYPE" dev) "" == "partition"
    then (if f.uploading
        then stays f d
        else (let d' = emit (write_firmware devname f.firmware_path) d in
            elim (world.uploads devname) [
              | raised ↦ stops (record f { uploading = true }) d'
              | not_uploaded ↦ gone (switch id enter_broken (cancel_timer id d'))
              | uploaded ↦ gone (switch id next (cancel_timer id d'))
            ]))
    else stays f d

-- The loop of `FlashState.start`, which ends when the state has switched.
unfoldable pub flash_files :
    World → (Device → Device) → ℕ → List Properties → Flash → Device → Flashed
flash_files world next id [] f d = stays f d
flash_files world next id (dev ∷ devs) f d = elim (flash_add world next id dev f d) [
  | stays f' d' ↦ flash_files world next id devs f' d'
  | stops f' d' ↦ stops f' d'
  | gone d' ↦ gone d'
]

abbrev pub put_back : ℕ → Flash → Device → Device
put_back id f d = record d { current = some (record { id = id; kind = flash f }) }

-- Writes the fields of a flash state back to the device, if it is still there.
abbrev pub settle : ℕ → Flashed → Device
settle id (stays f d) = put_back id f d
settle id (stops f d) = put_back id f d
settle id (gone d) = d

unfoldable pub fresh_flash : String → Factory → Flash
fresh_flash firmware next = record {
  firmware_path = firmware;
  next_state_factory = next;
  uploading = false;
  bootloader_sent = false;
}

-- `FlashState.__init__` and `start`; `enter` enters the state that `next` makes.
unfoldable pub enter_flash : World → String → Bool → Factory → (Device → Device) → Device → Device
enter_flash world firmware timed next enter d =
    let f = fresh_flash firmware next in
    settle d.next_id (flash_files world enter d.next_id world.devs f (install (flash f) timed [] d))

-- `Device.switch` with a factory; leaving a state has no effect that is modelled here. A flasher state
-- switches to FlashState in its `start`.
unfoldable pub enter : World → Factory → Device → Device
enter world to_test d = enter_test d
enter world (to_upload firmware) d = enter_upload world firmware d
enter world (to_flasher firmware) d =
    switch d.next_id
      (enter_flash world firmware false (to_upload firmware) (enter_upload world firmware))
      (install (flasher firmware) false [] d)
enter world (to_flash firmware timed next) d =
    enter_flash world firmware timed next (enter world next) d

-- `__flashDefault`
unfoldable pub flash_default : World → String → Device → Device
flash_default world firmware d =
    enter world (to_flash firmware true to_test) (emit (status "flashing_default") d)

unfoldable pub init : World → String → Device
init world firmware =
    flash_default world firmware
      (record { current = none; next_id = 0; timers = []; switched = []; effects = [] })

-- `TestState.handleAdd` of state `id`; `put` writes `exiting`.
unfoldable pub test_add : World → ℕ → Bool → Properties → Device → Device
test_add world id exiting dev d =
    let path = get_or (get "DEVNAME" dev) "" in
    if path == ""
    then d
    else if exiting
    then d
    else (let d' = record d { current = some (record { id = id; kind = test true }) } in
        if world.is_default path then switch id enter_ready (cancel_timer id d') else d')

-- `handleAdd` of the device's state.
unfoldable pub handle_add : World → Properties → State → Device → Device
handle_add world dev s d = elim s.kind [
  | flash f ↦ settle s.id (flash_add world (enter world f.next_state_factory) s.id dev f d)
  | test exiting ↦ test_add world s.id exiting dev d
  | ready ↦ d
  | broken ↦ d
  | upload firmware ↦ d
  | flasher firmware ↦ d
]

-- `handleDeviceEvent`; no state acts on "remove", and another action is only logged.
unfoldable pub handle_device_event : World → String → Properties → Device → Device
handle_device_event world action dev d = elim d.current [
  | none ↦ d
  | some s ↦ if action == "add" then handle_add world dev s d else d
]

-- `get_reservation_state_fac`: the registered reservables and their firmware.
unfoldable pub reservation_factory : Dict String String → String → Option Factory
reservation_factory reservables kind = elim (get kind reservables) [
  | none ↦ none
  | some firmware ↦ some (to_flasher firmware)
]

unfoldable pub handle_reserve : World → Dict String String → String → Device → Bool × Device
handle_reserve world reservables kind d = elim (reservation_factory reservables kind) [
  | none ↦ (false, d)
  | some factory ↦ (true, enter world factory d)
]

unfoldable pub handle_unreserve : World → String → Device → Bool × Device
handle_unreserve world firmware d = (true, flash_default world firmware d)

-- `reboot` of the device's state: only UploadState implements it.
unfoldable pub reboot : World → Device → Device
reboot world d = elim d.current [
  | none ↦ d
  | some s ↦ elim s.kind [
    | upload firmware ↦ switch s.id (enter world (to_flash firmware false (to_upload firmware))) d
    | flash f ↦ d
    | test exiting ↦ d
    | ready ↦ d
    | broken ↦ d
    | flasher firmware ↦ d
  ]
]

-- The timer of a FlashState or a TestState runs out: the state switches to BrokenState.
unfoldable pub time_out : ℕ → Device → Device
time_out id d = if contains id d.timers then switch id enter_broken (cancel_timer id d) else d
