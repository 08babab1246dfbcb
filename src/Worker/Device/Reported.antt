-- ===== src/Worker/Device/Reported.antt =====
-- When the database is told that a device is available, and what it is told last: the states of
-- src/icefarm/worker/device/state/core.
use i_cefarm.Prelude.{ℕ, ◌≡◌, Bool, false, ◌&&◌, not, count, get_or, string_key, nat_key, ◌==◌}
use i_cefarm.Dict.{get}
use i_cefarm.Worker.Device.{
  Device, World, Properties, Effect, status, test, Flashed, stays, stops, gone, Kind,
}

abbrev says_available : Effect → Bool
says_available (status text) = text == "available"
says_available effect = false

-- How often the device has been declared available.
abbrev pub declared : Device → ℕ
declared d = count says_available d.effects

-- An action that declares nothing.
abbrev Quiet : (Device → Device) → Type 0
Quiet next = (d : Device) → declared (next d) ≡ declared d

abbrev declared_by : Flashed → ℕ
declared_by (stays f d) = declared d
declared_by (stops f d) = declared d
declared_by (gone d) = declared d

-- Whether the device is in a TestState that has seen no file yet, and the file of this event answers
-- with the default firmware.
abbrev pub passes_test : World → Properties → Kind → Bool
passes_test world dev (test exiting) =
    let path = get_or (get "DEVNAME" dev) "" in
    not (path == "") && (not exiting && world.is_default path)
passes_test world dev kind = false
