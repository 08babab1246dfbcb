-- ===== src/Schema/Valid.antt =====
-- The keys and references of the tables, and that each kind of statement keeps them.
use i_cefarm.Prelude.{
  ◌≡◌, sym, subst, String, Bool, true, not, List, map, select, contains, Distinct, All, string_key,
  arith,
}
use i_cefarm.Schema.{
  Worker, Device, Reservation, Db, DeviceStatus, worker_ids, device_ids, reserved_ids, with_status,
  delete_reservations, delete_devices, delete_workers, set_status,
}
use i_cefarm.Schema.Rows.{contains-rest, select-Distinct, All-map, All-select, map-keys, All-change}

abbrev pub IsIn : List String → String → Type 0
IsIn ids id = contains id ids ≡ true

-- No device is listed twice, none has two reservations, and what is reserved is listed.
pub record IsStored (devices : List Device) (reservations : List Reservation) : Type 0 where
  pub devices_once : Distinct (device_ids devices)
  pub reserved_once : Distinct (reserved_ids reservations)
  pub reserved_listed : All (λ r. IsIn (device_ids devices) r.device_id) reservations

pub record IsValid (db : Db) : Type 0 where
  pub workers_once : Distinct (worker_ids db.workers)
  pub placed : All (λ d. IsIn (worker_ids db.workers) d.worker_id) db.devices
  pub stored : IsStored db.devices db.reservations

select-IsStored :
    (p : Reservation → Bool) (devices : List Device) (reservations : List Reservation)
    → IsStored devices reservations
    → IsStored devices (select p reservations)
select-IsStored p devices reservations s = record {
  devices_once = s.devices_once;
  reserved_once = select-Distinct (λ r. r.device_id) p reservations s.reserved_once;
  reserved_listed = All-select p (λ r h e. h) reservations s.reserved_listed;
}

pub delete_reservations-IsValid :
    (p : Reservation → Bool) (db : Db) → IsValid db → IsValid (delete_reservations p db)
unfolding delete_reservations
delete_reservations-IsValid p db v = record {
  workers_once = v.workers_once;
  placed = v.placed;
  stored = select-IsStored (λ r. not (p r)) db.devices db.reservations v.stored;
}

delete_devices-IsStored :
    (p : Device → Bool) (db : Db)
    → IsStored db.devices db.reservations
    → IsStored (delete_devices p db).devices (delete_devices p db).reservations
unfolding delete_devices
delete_devices-IsStored p db s = record {
  devices_once = select-Distinct (λ d. d.id) (λ d. not (p d)) db.devices s.devices_once;
  reserved_once =
      select-Distinct (λ r. r.device_id)
        (λ r. not (contains r.device_id (device_ids (select p db.devices)))) db.reservations
        s.reserved_once;
  reserved_listed =
      All-select (λ r. not (contains r.device_id (device_ids (select p db.devices))))
        (λ r h e. contains-rest (λ d. d.id) p r.device_id db.devices h (ground arith))
        db.reservations s.reserved_listed;
}

pub delete_devices-IsValid :
    (p : Device → Bool) (db : Db) → IsValid db → IsValid (delete_devices p db)
unfolding delete_devices
delete_devices-IsValid p db v = record {
  workers_once = v.workers_once;
  placed = All-select (λ d. not (p d)) (λ d h e. h) db.devices v.placed;
  stored = delete_devices-IsStored p db v.stored;
}

pub delete_workers-IsValid :
    (p : Worker → Bool) (db : Db) → IsValid db → IsValid (delete_workers p db)
unfolding delete_workers
delete_workers-IsValid p db v =
    let kept = record db { workers = select (λ w. not (p w)) db.workers } in
    let gone = worker_ids (select p db.workers) in
    record {
      workers_once = select-Distinct (λ w. w.id) (λ w. not (p w)) db.workers v.workers_once;
      placed =
          All-select (λ d. not (contains d.worker_id gone))
            (λ d h e. contains-rest (λ w. w.id) p d.worker_id db.workers h (ground arith))
            db.devices v.placed;
      stored = delete_devices-IsStored (λ d. contains d.worker_id gone) kept v.stored;
    }

pub device_ids-with_status :
    (p : Device → Bool) (status : DeviceStatus) (devices : List Device)
    → device_ids (map (with_status p status) devices) ≡ device_ids devices
device_ids-with_status p status devices =
    map-keys (λ d. d.id) (with_status p status) (λ d. ground arith) devices

pub set_status-IsValid :
    (p : Device → Bool) (status : DeviceStatus) (db : Db)
    → IsValid db
    → IsValid (set_status p status db)
unfolding set_status
set_status-IsValid p status db v =
    let same = sym (device_ids-with_status p status db.devices) in
    record {
      workers_once = v.workers_once;
      placed = All-change (with_status p status) (λ d h. ground arith) db.devices v.placed;
      stored = record {
        devices_once = subst Distinct same v.stored.devices_once;
        reserved_once = v.stored.reserved_once;
        reserved_listed =
            All-map (λ r h. subst (λ ids. IsIn ids r.device_id) same h) db.reservations
              v.stored.reserved_listed;
      };
    }

-- A change of the workers that keeps their ids, as a heartbeat or a shutdown is.
pub change_workers-IsValid :
    (f : Worker → Worker)
    → ((w : Worker) → (f w).id ≡ w.id)
    → (db : Db) → IsValid db
    → IsValid (record db { workers = map f db.workers })
change_workers-IsValid f same db v =
    let ids = sym (map-keys (λ w. w.id) f same db.workers) in
    record {
      workers_once = subst Distinct ids v.workers_once;
      placed = All-map (λ d h. subst (λ ws. IsIn ws d.worker_id) ids h) db.devices v.placed;
      stored = v.stored;
    }

-- A change of the reservations that keeps their devices, as an extension is.
pub change_reservations-IsValid :
    (f : Reservation → Reservation)
    → ((r : Reservation) → (f r).device_id ≡ r.device_id)
    → (db : Db) → IsValid db
    → IsValid (record db { reservations = map f db.reservations })
change_reservations-IsValid f same db v = record {
  workers_once = v.workers_once;
  placed = v.placed;
  stored = record {
    devices_once = v.stored.devices_once;
    reserved_once =
        subst Distinct (sym (map-keys (λ r. r.device_id) f same db.reservations))
          v.stored.reserved_once;
    reserved_listed =
        All-change f (λ r h. subst (IsIn (device_ids db.devices)) (sym (same r)) h) db.reservations
          v.stored.reserved_listed;
  };
}
