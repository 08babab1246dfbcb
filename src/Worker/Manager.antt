-- ===== src/Worker/Manager.antt =====
-- `DeviceManager` of src/icefarm/worker/device/DeviceManager.py, `get_serial` of src/icefarm/utils/dev.py,
-- and the socket request of src/icefarm/worker/app.py. A thread that the manager starts for an event
-- is an entry of `started`; what it does is `handle_device_event` of Worker/Device.
pub mod Routed
use i_cefarm.Prelude.{
  ◌≡◌, String, Bool, true, false, not, ◌&&◌, ◌||◌, Option, none, some, List, [], ◌∷◌, ◌++◌,
  if◌then◌else◌, string_key, ◌==◌, get_or,
}
use i_cefarm.Dict.{Dict, get, put, remove}
use i_cefarm.Worker.Device.{
  Device, World, Properties, init, handle_reserve, handle_unreserve, reboot,
}

pub record Manager : Type 0 where
  pub devs : Dict String Device
  pub exiting : Bool
  -- The serials given to `addDevice` of the database.
  pub added : List String
  -- The threads that were started: the device, the action and the device file.
  pub started : List (String × (String × Properties))

-- What `re.match` finds at the start of a device name: "/dev/" and "/dev/bus/".
pub record Patterns : Type 0 where
  pub is_dev : String → Bool
  pub is_bus : String → Bool

unfoldable pub get_serial : Patterns → Properties → Option String
get_serial patterns dev =
    let devname = get_or (get "DEVNAME" dev) "" in
    let id_model = get_or (get "ID_MODEL" dev) "" in
    let serial = get_or (get "ID_SERIAL_SHORT" dev) "" in
    if devname == ""
    then none
    else if not (patterns.is_dev devname) || patterns.is_bus devname
    then none
    else if id_model == "RP2350" || (id_model == "pico-ice" || id_model == "Pico")
    then (if serial == "" then none else some serial)
    else none

unfoldable pub is_vendor : Properties → Bool
is_vendor dev =
    let vendor = get_or (get "ID_VENDOR_ID" dev) "" in vendor == "2e8a" || vendor == "1209"

module _ (patterns : Patterns) (world : World) (firmware : String) where
  -- The lookup of `handleDevEvent` under the lock, which adds an unknown device.
  unfoldable pub find_or_add : String → Manager → Manager
  find_or_add serial m = elim (get serial m.devs) [
    | some device ↦ m
    | none ↦ record m {
      added = m.added ++ serial ∷ [];
      devs = put serial (init world firmware) m.devs;
    }
  ]

  unfoldable pub handle_dev_event : String → Properties → Manager → Manager
  handle_dev_event action dev m =
      if m.exiting
      then m
      else if is_vendor dev
      then (elim (get_serial patterns dev) [
        | none ↦ m
        | some serial ↦
            let m' = find_or_add serial m in
            record m' { started = m'.started ++ (serial, (action, dev)) ∷ [] }
      ])
      else m

  unfoldable pub scan : List Properties → Manager → Manager
  scan [] m = m
  scan (dev ∷ devs) m = scan devs (handle_dev_event "add" dev m)

  unfoldable pub reserve : Dict String String → String → String → Manager → Bool × Manager
  reserve reservables serial kind m = elim (get serial m.devs) [
    | none ↦ (false, m)
    | some device ↦
        let r = handle_reserve world reservables kind device in
        (r.0, record m { devs = put serial r.1 m.devs })
  ]

  unfoldable pub unreserve : String → Manager → Bool × Manager
  unreserve serial m = elim (get serial m.devs) [
    | none ↦ (false, m)
    | some device ↦
        let r = handle_unreserve world firmware device in
        (r.0, record m { devs = put serial r.1 m.devs })
  ]

  -- The value is whether the device was found.
  unfoldable pub reboot_device : String → Manager → Bool × Manager
  reboot_device serial m = elim (get serial m.devs) [
    | none ↦ (false, m)
    | some device ↦ (true, record m { devs = put serial (reboot world device) m.devs })
  ]

  -- The loop of `delete` over the devices' files.
  unfoldable pub add_again : String → List Properties → Manager → Manager
  add_again serial [] m = m
  add_again serial (dev ∷ devs) m = elim (get_serial patterns dev) [
    | none ↦ add_again serial devs m
    | some other ↦
        add_again serial devs (if other == serial then handle_dev_event "add" dev m else m)
  ]

  unfoldable pub delete : List Properties → String → Manager → Bool × Manager
  delete files serial m = elim (get serial m.devs) [
    | none ↦ (false, m)
    | some device ↦ (true, add_again serial files (record m { devs = remove serial m.devs }))
  ]
