-- ===== src/Schema/Consistent.antt =====
-- No command but a worker's own `update_device_status` lets a reserved device be shown as available.
use i_cefarm.Prelude.{
  ℕ, ◌≡◌, refl, sym, String, Bool, true, false, not, ◌&&◌, List, select, ◌+◌, contains, string_key,
  ==_iff, ◌==◌, arith, if◌then◌else◌, Bool-cases, inl, inr, All, subst,
}
use i_cefarm.Schema.{
  Device, Worker, DeviceStatus, Reservation, Db, is_available, device_ids, reserved_ids, worker_ids,
  with_status, await_flash_default, hour, delete_reservations, delete_devices, delete_workers,
  set_status, insert_device, insert_worker,
}
use i_cefarm.Schema.Reservations
use i_cefarm.Schema.Reservations.{Grant, granted_ids, new_reservation}
use i_cefarm.Schema.Rows.{
  contains-of-select, All-map, All-select, All-append_one, All-change, map-keys,
}
use i_cefarm.Schema.Inserted.{Always}
use i_cefarm.Schema.Commands.{Command, run}
use i_cefarm.Schema.Granted.{IsConsistent}
use i_cefarm.Schema.Written.{Apart, written-IsConsistent}
use i_cefarm.Schema.Kept.{IsKept, AllAllowed, kept-run}

Apart-fewer :
    (ids ids' : List String)
    → ((x : String) → contains x ids' ≡ true → contains x ids ≡ true)
    → (devices : List Device) → All (Apart ids) devices
    → All (Apart ids') devices
Apart-fewer ids ids' fewer devices c =
    All-map (λ (d : Device) (h : Apart ids d). Apart-fewer_one d (contains d.id ids') refl h)
      devices c
  where
    Apart-fewer_one : (d : Device) (b : Bool) → contains d.id ids' ≡ b → Apart ids d → Apart ids' d
    Apart-fewer_one d true e h = ground (arith, fewer d.id e)
    Apart-fewer_one d false e h = ground arith

delete_reservations-IsConsistent :
    (p : Reservation → Bool) (db : Db) → IsConsistent db → IsConsistent (delete_reservations p db)
unfolding delete_reservations
delete_reservations-IsConsistent p db c =
    Apart-fewer (reserved_ids db.reservations) _
      (λ x h.
        contains-of-select (λ (r : Reservation). r.device_id) (λ r. not (p r)) x db.reservations h)
      db.devices c

delete_devices-IsConsistent :
    (p : Device → Bool) (db : Db) → IsConsistent db → IsConsistent (delete_devices p db)
unfolding delete_devices
delete_devices-IsConsistent p db c =
    let gone = device_ids (select p db.devices) in
    All-select (λ d. not (p d)) (λ d h e. h) db.devices
      (Apart-fewer (reserved_ids db.reservations) _
        (λ x h.
          contains-of-select (λ (r : Reservation). r.device_id)
            (λ r. not (contains r.device_id gone)) x db.reservations h)
        db.devices c)

delete_workers-IsConsistent :
    (p : Worker → Bool) (db : Db) → IsConsistent db → IsConsistent (delete_workers p db)
unfolding delete_workers
delete_workers-IsConsistent p db c =
    delete_devices-IsConsistent (λ d. contains d.worker_id (worker_ids (select p db.workers)))
      (record db { workers = select (λ w. not (p w)) db.workers }) c

-- A status is set that is not "available", or for devices that are not reserved.
set_status-IsConsistent :
    (p : Device → Bool) (status : DeviceStatus) (db : Db)
    → ((d : Device)
        → p d ≡ true
        → (is_available status && contains d.id (reserved_ids db.reservations)) ≡ false)
    → IsConsistent db
    → IsConsistent (set_status p status db)
unfolding set_status
set_status-IsConsistent p status db free c =
    All-change (with_status p status) (λ d h. change d (p d) refl h) db.devices c
  where
    change :
        (d : Device) (b : Bool)
        → p d ≡ b
        → Apart (reserved_ids db.reservations) d
        → Apart (reserved_ids db.reservations) (with_status p status d)
    change d true e h = rw e (free d e)
    change d false e h = rw e h

extend_where-IsConsistent :
    (p : Reservation → Bool) (now : ℕ) (db : Db)
    → IsConsistent db
    → IsConsistent (Reservations.extend_where p now db).1
unfolding Reservations.extend_where
extend_where-IsConsistent p now db c =
    subst (λ ids. All (Apart ids) db.devices)
      (sym (
        map-keys (λ (r : Reservation). r.device_id)
          (λ r. if p r then record r { until = now + hour } else r) (λ r. ground arith)
          db.reservations))
      c

insert_worker-IsConsistent :
    (w : Worker) (db : Db) → IsConsistent db → Always IsConsistent (insert_worker w db)
unfolding insert_worker
insert_worker-IsConsistent w db c = elim (Bool-cases (contains w.id (worker_ids db.workers))) [
  | inl e ↦ rw e tt
  | inr e ↦ rw e c
]

insert_device-IsConsistent :
    (d : Device) (db : Db)
    → is_available d.device_status ≡ false
    → IsConsistent db
    → Always IsConsistent (insert_device d db)
unfolding insert_device
insert_device-IsConsistent d db s c = elim (Bool-cases (contains d.id (device_ids db.devices))) [
  | inl e ↦ rw e tt
  | inr e ↦ elim (Bool-cases (contains d.worker_id (worker_ids db.workers))) [
    | inl f ↦ rw (e, f) (All-append_one db.devices d (λ d h. h) c (rw s refl))
    | inr f ↦ rw (e, f) tt
  ]
]

-- A worker declares a device available only while it is not reserved.
abbrev pub IsHonest : String → DeviceStatus → Db → Type 0
IsHonest did status db =
    (is_available status && contains did (reserved_ids db.reservations)) ≡ false

IsConsistent-kept : IsKept IsConsistent IsHonest
IsConsistent-kept = record {
  without_reservations = delete_reservations-IsConsistent;
  without_devices = delete_devices-IsConsistent;
  without_workers = delete_workers-IsConsistent;
  changed_workers = λ f same db c. c;
  extended = extend_where-IsConsistent;
  with_worker = insert_worker-IsConsistent;
  with_device = insert_device-IsConsistent;
  awaiting = λ p db c. set_status-IsConsistent p await_flash_default db (λ d e. refl) c;
  updated = λ did status db a c.
      set_status-IsConsistent (λ d. d.id == did) status db
        (λ d h.
          subst (λ id. (is_available status && contains id (reserved_ids db.reservations)) ≡ false)
            (sym ((==_iff d.id did).0 h)) a)
        c;
  written = written-IsConsistent;
}

-- If workers declare a device available only while it is not reserved, then whatever is asked of the database,
-- in whatever order, and whichever transactions raise, no available device is ever reserved.
pub run-IsConsistent :
    (commands : List Command) (db : Db)
    → AllAllowed IsHonest commands db
    → IsConsistent db
    → IsConsistent (run commands db)
run-IsConsistent = kept-run IsConsistent IsHonest IsConsistent-kept
