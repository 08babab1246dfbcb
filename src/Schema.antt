-- ===== src/Schema.antt =====
-- The database of the farm: the tables of src/icefarm/control/flyway/migrations/V1__Tables.sql with their keys,
-- and the triggers of V1.4__Triggers.sql. The procedures of the other migrations are in the modules below. A
-- statement that raises is `none`, and its transaction leaves the database as it was. A timestamp is a number
-- of microseconds. Rows of a statement without an order come in the order of the tables; only
-- `make_reservations` cuts rows off by it, and takes the order as an argument.
pub mod Workers
pub mod Devices
pub mod Reservations
pub mod Endings
pub mod Rows
pub mod Valid
pub mod Inserted
pub mod Commands
pub mod Kept
pub mod Sound
pub mod Leases
pub mod Refined
pub mod Meaning
pub mod Candidates
pub mod Granted
pub mod Specific
pub mod Amount
pub mod Written
pub mod Consistent
pub mod Announced
pub mod Exclusive
pub mod Joined
use i_cefarm.Prelude.{
  ℕ, String, Bool, true, false, not, ◌&&◌, Option, none, some, List, [], ◌∷◌, ◌++◌, map, select,
  count, contains, any, string_key, if◌then◌else◌, ◌*◌,
}

pub data DeviceStatus : Type 0 where
  available reserved await_flash_default flashing_default testing broken : DeviceStatus

abbrev pub is_available : DeviceStatus → Bool
is_available available = true
is_available reserved = false
is_available await_flash_default = false
is_available flashing_default = false
is_available testing = false
is_available broken = false

pub record Worker : Type 0 where
  pub id : String
  pub host : String
  pub port : ℕ
  pub heartbeat : ℕ
  pub farm_version : String
  pub reservables : List String
  pub shutting_down : Bool

pub record Device : Type 0 where
  pub id : String
  pub worker_id : String
  pub device_status : DeviceStatus

pub record Reservation : Type 0 where
  pub device_id : String
  pub client_id : String
  pub until : ℕ

-- What the triggers notify.
pub data Notice : Type 0 where
  reservation_update : String → String → Notice
  device_available : ℕ → Notice

-- The tables, with the notices so far.
pub record Db : Type 0 where
  pub workers : List Worker
  pub devices : List Device
  pub reservations : List Reservation
  pub notified : List Notice

-- What a statement gives: its result and the database after it, or none where it raises.
abbrev pub Answer : Type 0 → Type 0
Answer A = Option (A × Db)

abbrev pub worker_ids : List Worker → List String
worker_ids = map (λ w. w.id)

abbrev pub device_ids : List Device → List String
device_ids = map (λ d. d.id)

abbrev pub reserved_ids : List Reservation → List String
reserved_ids = map (λ r. r.device_id)

abbrev pub second : ℕ
second = 1000000

abbrev pub hour : ℕ
hour = 3600 * 1000000

abbrev pub end_notice : Reservation → Notice
end_notice r = reservation_update r.device_id r.client_id

-- A deletion from reservations, with the trigger after each row.
unfoldable pub delete_reservations : (Reservation → Bool) → Db → Db
delete_reservations p db = record db {
  reservations = select (λ r. not (p r)) db.reservations;
  notified = db.notified ++ map end_notice (select p db.reservations);
}

-- A deletion from device; the reservations of a deleted device go with it.
unfoldable pub delete_devices : (Device → Bool) → Db → Db
unfolding delete_reservations
delete_devices p db =
    delete_reservations (λ r. contains r.device_id (device_ids (select p db.devices)))
      (record db { devices = select (λ d. not (p d)) db.devices })

-- A deletion from worker; the devices of a deleted worker go with it.
unfoldable pub delete_workers : (Worker → Bool) → Db → Db
unfolding delete_devices
delete_workers p db =
    delete_devices (λ d. contains d.worker_id (worker_ids (select p db.workers)))
      (record db { workers = select (λ w. not (p w)) db.workers })

abbrev pub with_status : (Device → Bool) → DeviceStatus → Device → Device
with_status p status d = if p d then record d { device_status = status } else d

-- An update of the status of some devices, with the trigger after each device that becomes available: it
-- counts the available devices after the whole update.
unfoldable pub set_status : (Device → Bool) → DeviceStatus → Db → Db
set_status p status db =
    let devices = map (with_status p status) db.devices in
    let amount = count (λ d. is_available d.device_status) devices in
    let newly =
      select (λ d. p d && (not (is_available d.device_status) && is_available status)) db.devices in
    record db {
      devices = devices;
      notified = db.notified ++ map (λ d. device_available amount) newly;
    }

-- The insertions, which raise where a key is taken or a reference has no row.
unfoldable pub insert_worker : Worker → Db → Option Db
insert_worker worker db =
    if contains worker.id (worker_ids db.workers)
    then none
    else some (record db { workers = db.workers ++ worker ∷ [] })

unfoldable pub insert_device : Device → Db → Option Db
insert_device device db =
    if contains device.id (device_ids db.devices)
    then none
    else if contains device.worker_id (worker_ids db.workers)
    then some (record db { devices = db.devices ++ device ∷ [] })
    else none

unfoldable pub insert_reservation : Reservation → Db → Option Db
insert_reservation reservation db =
    if contains reservation.device_id (reserved_ids db.reservations)
    then none
    else if contains reservation.device_id (device_ids db.devices)
    then some (record db { reservations = db.reservations ++ reservation ∷ [] })
    else none

-- An insertion of several rows, of which each has to go in.
unfoldable pub insert_reservations : List Reservation → Db → Option Db
insert_reservations [] db = some db
insert_reservations (reservation ∷ later) db = elim (insert_reservation reservation db) [
  | none ↦ none
  | some db' ↦ insert_reservations later db'
]

-- The pairs of an inner join.
unfoldable pub join : {A B : Type 0} → (A → B → Bool) → List A → List B → List (A × B)
join on [] ys = []
join on (x ∷ xs) ys = map (λ y. (x, y)) (select (on x) ys) ++ join on xs ys
