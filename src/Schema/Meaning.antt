-- ===== src/Schema/Meaning.antt =====
-- What each command means for the reservation of one device, and that the statements on the tables do that.
use i_cefarm.Prelude.{
  ℕ, ◌≡◌, refl, String, Bool, true, not, ◌&&◌, Option, none, some, List, [], ltb, select, contains,
  string_key, ◌==◌, arith, if◌then◌else◌, ◌+◌, Bool-cases, inl, inr, ◌∙◌,
}
use i_cefarm.Schema.{
  Reservation, Worker, Db, DeviceStatus, device_ids, worker_ids, hour, delete_reservations,
  delete_workers, set_status, insert_worker, insert_device,
}
use i_cefarm.Schema.Workers
use i_cefarm.Schema.Devices
use i_cefarm.Schema.Reservations
use i_cefarm.Schema.Endings
use i_cefarm.Schema.Commands.{Command, perform}
use i_cefarm.Schema.Valid.{IsValid}
use i_cefarm.Schema.Inserted.{Always, Always-elim}
use i_cefarm.Schema.Leases.{
  lease_of, unless, change_lease, given, lease-map, lease-delete_reservations,
}
use i_cefarm.Schema.Refined.{
  granted_of, grants-write_reservations, grants-make_reservations,
  grants-make_specific_reservations, lease-cascade, lease-release,
}

-- The devices that a command grants.
abbrev pub granted : Command → Db → List String
granted (Command.make_reservations order now amount client_name kind) db =
    granted_of (Reservations.make_reservations order now amount client_name kind db)
granted (Command.make_specific_reservations now client_name serial_ids kind) db =
    granted_of (Reservations.make_specific_reservations now client_name serial_ids kind db)
granted (Command.write_reservations client_name now res) db =
    granted_of (Reservations.write_reservations client_name now res db)
granted _ db = []

abbrev pub extended : ℕ → (Reservation → Bool) → Reservation → Reservation
extended now p r = if p r then record r { until = now + hour } else r

-- The reservation of a device after a command that did not raise, from the one before, the devices that the
-- command grants, and whether the device is still listed afterwards.
abbrev pub meaning : Command → List String → Bool → String → Option Reservation → Option Reservation
meaning (Command.make_reservations order now amount client_name kind) devices listed device lease =
    if contains device devices then some (given client_name now device) else lease
meaning (Command.make_specific_reservations now client_name serial_ids kind) devices listed device
      lease =
    if contains device devices then some (given client_name now device) else lease
meaning (Command.write_reservations client_name now res) devices listed device lease =
    if contains device devices then some (given client_name now device) else lease
meaning (Command.extend_reservations now client_name serial_ids) devices listed device lease =
    change_lease (extended now (λ r. contains r.device_id serial_ids && r.client_id == client_name))
      lease
meaning (Command.extend_all_reservations now client_name) devices listed device lease =
    change_lease (extended now (λ r. r.client_id == client_name)) lease
meaning (Command.end_reservations client_name serial_ids) devices listed device lease =
    unless (λ r. r.client_id == client_name && contains r.device_id serial_ids) lease
meaning (Command.end_all_reservations client_name) devices listed device lease =
    unless (λ r. r.client_id == client_name) lease
meaning (Command.handle_reservation_timeouts now) devices listed device lease =
    unless (λ r. ltb r.until now) lease
meaning Command.clear_reservations devices listed device lease = none
meaning (Command.add_worker now id host port version reservables) devices listed device lease =
    if listed then lease else none
meaning (Command.handle_worker_timeouts now s) devices listed device lease =
    if listed then lease else none
meaning Command.clear_devices devices listed device lease = if listed then lease else none
meaning Command.clear_workers devices listed device lease = if listed then lease else none
meaning (Command.shutdown_worker wid) devices listed device lease = lease
meaning (Command.remove_worker wid) devices listed device lease = lease
meaning (Command.heartbeat_worker now wid) devices listed device lease = lease
meaning (Command.add_device did wid) devices listed device lease = lease
meaning (Command.update_device_status did status) devices listed device lease = lease

module _ (device : String) (db : Db) where
  abbrev pub Means : Command → Db → Type 0
  Means command db' =
      lease_of device db'.reservations
      ≡ meaning command (granted command db) (contains device (device_ids db'.devices)) device
          (lease_of device db.reservations)

  -- With the devices of deleted workers their leases go.
  means-delete_workers :
      (p : Worker → Bool) (v : IsValid db)
      → lease_of device (delete_workers p db).reservations ≡ (
          if contains device (device_ids (delete_workers p db).devices)
          then lease_of device db.reservations
          else none)
  unfolding delete_workers
  means-delete_workers p v =
      lease-cascade (λ d. contains d.worker_id (worker_ids (select p db.workers))) device
        (record db { workers = select (λ w. not (p w)) db.workers }) v.stored

  means-extend_where :
      (p : Reservation → Bool) (now : ℕ)
      → lease_of device (Reservations.extend_where p now db).1.reservations
        ≡ change_lease (extended now p) (lease_of device db.reservations)
  unfolding Reservations.extend_where
  means-extend_where p now = lease-map (extended now p) device db.reservations (λ r. ground arith)

  means-clear_reservations :
      IsValid db → lease_of device (delete_reservations (λ r. true) db).reservations ≡ none
  means-clear_reservations v =
      lease-delete_reservations (λ r. true) device db v.stored.reserved_once
      ∙ unless-all (lease_of device db.reservations)
    where
      unless-all : (o : Option Reservation) → unless (λ r. true) o ≡ none
      unless-all none = refl
      unless-all (some r) = refl

  Means-add_worker :
      (now : ℕ) (id host : String) (port : ℕ) (version : String) (reservables : List String)
      → IsValid db
      → Always
          (Means (Command.add_worker now id host port version reservables))
          (Workers.add_worker now id host port version reservables db)
  unfolding Workers.add_worker insert_worker
  Means-add_worker now id host port version reservables v =
      let left = delete_workers (λ w. w.id == id) db in
      elim (Bool-cases (contains id (worker_ids left.workers))) [
        | inl e ↦ rw e tt
        | inr e ↦ rw e (means-delete_workers (λ w. w.id == id) v)
      ]

  -- The commands that leave the table of reservations alone.
  Means-heartbeat_worker :
      (now : ℕ) (wid : String)
      → Always (Means (Command.heartbeat_worker now wid)) (Workers.heartbeat_worker now wid db)
  unfolding Workers.heartbeat_worker
  Means-heartbeat_worker now wid = elim (Bool-cases (contains wid (worker_ids db.workers))) [
    | inl e ↦ rw e refl
    | inr e ↦ rw e tt
  ]

  Means-add_device :
      (did wid : String)
      → Always (Means (Command.add_device did wid)) (Devices.add_device did wid db)
  unfolding Devices.add_device insert_device
  Means-add_device did wid = elim (Bool-cases (contains wid (worker_ids db.workers))) [
    | inr e ↦ rw e tt
    | inl e ↦ elim (Bool-cases (contains did (device_ids db.devices))) [
      | inl f ↦ rw (e, f) tt
      | inr f ↦ rw (e, f) refl
    ]
  ]

  Means-update_device_status :
      (did : String) (status : DeviceStatus)
      → Always
          (Means (Command.update_device_status did status))
          (Devices.update_device_status did status db)
  unfolding Devices.update_device_status set_status
  Means-update_device_status did status = elim (Bool-cases (contains did (device_ids db.devices))) [
    | inl e ↦ rw e refl
    | inr e ↦ rw e tt
  ]

  Means-perform : IsValid db → (command : Command) → Always (Means command) (perform command db)
  unfolding perform Workers.remove_worker Workers.shutdown_worker Workers.handle_worker_timeouts
      Reservations.extend_reservations Reservations.extend_all_reservations Endings.end_reservations
      Endings.end_all_reservations Endings.handle_reservation_timeouts
  Means-perform v (Command.add_worker now id host port version reservables) =
      Means-add_worker now id host port version reservables v
  Means-perform v (Command.shutdown_worker wid) = refl
  Means-perform v (Command.remove_worker wid) = tt
  Means-perform v (Command.heartbeat_worker now wid) = Means-heartbeat_worker now wid
  Means-perform v (Command.handle_worker_timeouts now s) =
      means-delete_workers (Workers.is_late now s) v
  Means-perform v (Command.add_device did wid) = Means-add_device did wid
  Means-perform v (Command.update_device_status did status) = Means-update_device_status did status
  Means-perform v (Command.make_reservations order now amount client_name kind) =
      grants-make_reservations client_name now device db order amount kind
  Means-perform v (Command.make_specific_reservations now client_name serial_ids kind) =
      grants-make_specific_reservations client_name now device db serial_ids kind
  Means-perform v (Command.write_reservations client_name now res) =
      grants-write_reservations client_name now device db res
  Means-perform v (Command.extend_reservations now client_name serial_ids) =
      means-extend_where _ now
  Means-perform v (Command.extend_all_reservations now client_name) = means-extend_where _ now
  Means-perform v (Command.end_reservations client_name serial_ids) =
      lease-release _ device db v.stored.reserved_once
  Means-perform v (Command.end_all_reservations client_name) =
      lease-release _ device db v.stored.reserved_once
  Means-perform v (Command.handle_reservation_timeouts now) =
      lease-release _ device db v.stored.reserved_once
  Means-perform v Command.clear_reservations = means-clear_reservations v
  Means-perform v Command.clear_devices = lease-cascade (λ d. true) device db v.stored
  Means-perform v Command.clear_workers = means-delete_workers (λ w. true) v

-- Where a command does not raise on a database whose keys and references hold, the reservation of every device
-- becomes what the command means: the named client gets the devices that are granted, for an hour; an extension
-- and an ending change exactly the leases of the client that they name, and a timeout those that are over; a
-- lease goes with its device; and nothing else changes.
pub lease-perform :
    (command : Command) (device : String) (db db' : Db)
    → IsValid db
    → perform command db ≡ some db'
    → lease_of device db'.reservations
      ≡ meaning command
          (granted command db)
          (contains device (device_ids db'.devices))
          device
          (lease_of device db.reservations)
lease-perform command device db db' v e =
    Always-elim (Means device db command) (perform command db) db'
      (Means-perform device db v command) e
