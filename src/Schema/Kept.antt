-- ===== src/Schema/Kept.antt =====
-- What each kind of statement keeps, every command keeps, in every order and whichever raise.
use i_cefarm.Prelude.{
  ℕ, ◌≡◌, refl, String, Bool, true, false, Option, none, some, List, [], ◌∷◌, map, select, contains,
  get_or, arith, string_key, if◌then◌else◌, ◌==◌, Bool-cases, inl, inr, length, eqb, take,
}
use i_cefarm.Schema.{
  Db, Device, Worker, DeviceStatus, Reservation, delete_reservations, delete_devices,
  delete_workers, set_status, reserved, await_flash_default, is_available, insert_reservations,
  insert_device, insert_worker, worker_ids, device_ids,
}
use i_cefarm.Schema.Workers
use i_cefarm.Schema.Devices
use i_cefarm.Schema.Reservations
use i_cefarm.Schema.Reservations.{Grant, granted_ids, new_reservation}
use i_cefarm.Schema.Endings
use i_cefarm.Schema.Commands.{Command, state, perform, run}
use i_cefarm.Schema.Inserted.{Always}

-- That a predicate is kept by each kind of statement, where a worker's update of a status is allowed.
pub record IsKept (P : Db → Type 0) (IsAllowed : String → DeviceStatus → Db → Type 0) : Type 0 where
  pub without_reservations :
      (p : Reservation → Bool) (db : Db) → P db → P (delete_reservations p db)
  pub without_devices : (p : Device → Bool) (db : Db) → P db → P (delete_devices p db)
  pub without_workers : (p : Worker → Bool) (db : Db) → P db → P (delete_workers p db)
  pub changed_workers :
      (f : Worker → Worker)
      → ((w : Worker) → (f w).id ≡ w.id)
      → (db : Db) → P db
      → P (record db { workers = map f db.workers })
  pub extended :
      (p : Reservation → Bool) (now : ℕ) (db : Db) → P db → P (Reservations.extend_where p now db).1
  pub with_worker : (w : Worker) (db : Db) → P db → Always P (insert_worker w db)
  pub with_device :
      (d : Device) (db : Db)
      → is_available d.device_status ≡ false
      → P db
      → Always P (insert_device d db)
  pub awaiting : (p : Device → Bool) (db : Db) → P db → P (set_status p await_flash_default db)
  pub updated :
      (did : String) (status : DeviceStatus) (db : Db)
      → IsAllowed did status db
      → P db
      → P (set_status (λ d. d.id == did) status db)
  pub written :
      (client_name : String) (now : ℕ) (res : List Grant) (db : Db)
      → P db
      → Always P (
          insert_reservations
            (map (new_reservation client_name now) res)
            (set_status (λ d. contains d.id (granted_ids res)) reserved db))

module _ (IsAllowed : String → DeviceStatus → Db → Type 0) where
  abbrev pub Allows : Command → Db → Type 0
  Allows (Command.update_device_status did status) db = IsAllowed did status db
  Allows _ db = Unit

  -- Every update of a status in a run is allowed at its time.
  abbrev pub AllAllowed : List Command → Db → Type 0
  AllAllowed [] db = Unit
  AllAllowed (command ∷ commands) db =
      Allows command db × AllAllowed commands (get_or (perform command db) db)

module _ (P : Db → Type 0) (IsAllowed : String → DeviceStatus → Db → Type 0)
    (k : IsKept P IsAllowed) where
  kept-state :
      (res : List Grant) (o : Option Db)
      → Always P o
      → Always P (state (elim o [ none ↦ none | some db ↦ some (res, db) ]))
  kept-state res none h = tt
  kept-state res (some db) h = h

  kept-if :
      (b : Bool) (o : Option (List Grant × Db))
      → Always P (state o)
      → Always P (state (if b then o else none))
  kept-if true o h = h
  kept-if false o h = tt

  kept-write_reservations :
      (client_name : String) (now : ℕ) (res : List Grant) (db : Db)
      → P db
      → Always P (state (Reservations.write_reservations client_name now res db))
  unfolding Reservations.write_reservations
  kept-write_reservations client_name now res db h =
      kept-state res
        (insert_reservations (map (new_reservation client_name now) res)
          (set_status (λ d. contains d.id (granted_ids res)) reserved db))
        (k.written client_name now res db h)

  kept-make_reservations :
      (order : List Grant → List Grant) (now amount : ℕ) (client_name kind : String) (db : Db)
      → P db
      → Always P (state (Reservations.make_reservations order now amount client_name kind db))
  unfolding Reservations.make_reservations
  kept-make_reservations order now amount client_name kind db h =
      let res = take amount (order (Reservations.candidates kind db)) in
      kept-if (eqb (length res) amount) (Reservations.write_reservations client_name now res db)
        (kept-write_reservations client_name now res db h)

  kept-make_specific_reservations :
      (now : ℕ) (client_name : String) (serial_ids : List String) (kind : String) (db : Db)
      → P db
      → Always P
          (state (Reservations.make_specific_reservations now client_name serial_ids kind db))
  unfolding Reservations.make_specific_reservations
  kept-make_specific_reservations now client_name serial_ids kind db h =
      let res = select (λ g. contains g.device_id serial_ids) (Reservations.candidates kind db) in
      kept-if (eqb (length res) (length serial_ids))
        (Reservations.write_reservations client_name now res db)
        (kept-write_reservations client_name now res db h)

  kept-heartbeat_worker :
      (now : ℕ) (wid : String) (db : Db) → P db → Always P (Workers.heartbeat_worker now wid db)
  unfolding Workers.heartbeat_worker
  kept-heartbeat_worker now wid db h = elim (Bool-cases (contains wid (worker_ids db.workers))) [
    | inl e ↦ rw e (
        k.changed_workers (λ w. if w.id == wid then record w { heartbeat = now } else w)
          (λ w. ground arith) db h)
    | inr e ↦ rw e tt
  ]

  kept-add_device : (did wid : String) (db : Db) → P db → Always P (Devices.add_device did wid db)
  unfolding Devices.add_device
  kept-add_device did wid db h = elim (Bool-cases (contains wid (worker_ids db.workers))) [
    | inr e ↦ rw e tt
    | inl e ↦ elim (Bool-cases (contains did (device_ids db.devices))) [
      | inl f ↦ rw (e, f) tt
      | inr f ↦
          rw (e, f)
            (k.with_device
              (record { id = did; worker_id = wid; device_status = await_flash_default }) db refl h)
    ]
  ]

  kept-update_device_status :
      (did : String) (status : DeviceStatus) (db : Db)
      → IsAllowed did status db
      → P db
      → Always P (Devices.update_device_status did status db)
  unfolding Devices.update_device_status
  kept-update_device_status did status db a h =
      elim (Bool-cases (contains did (device_ids db.devices))) [
        | inl e ↦ rw e (k.updated did status db a h)
        | inr e ↦ rw e tt
      ]

  kept-release : (res : List String) (db : Db) → P db → P (Endings.release res db).1
  unfolding Endings.release
  kept-release res db h =
      k.awaiting (λ d. contains d.id res) (delete_reservations (λ r. contains r.device_id res) db)
        (k.without_reservations (λ r. contains r.device_id res) db h)

  kept-perform :
      (command : Command) (db : Db)
      → Allows IsAllowed command db
      → P db
      → Always P (perform command db)
  unfolding perform Workers.add_worker Workers.remove_worker Workers.shutdown_worker
      Workers.handle_worker_timeouts Reservations.extend_reservations
      Reservations.extend_all_reservations Endings.end_reservations Endings.end_all_reservations
      Endings.handle_reservation_timeouts
  kept-perform (Command.add_worker now id host port version reservables) db a h =
      k.with_worker _ (delete_workers (λ w. w.id == id) db)
        (k.without_workers (λ w. w.id == id) db h)
  kept-perform (Command.shutdown_worker wid) db a h =
      k.changed_workers (λ w. if w.id == wid then record w { shutting_down = true } else w)
        (λ w. ground arith) db h
  kept-perform (Command.remove_worker wid) db a h = tt
  kept-perform (Command.heartbeat_worker now wid) db a h = kept-heartbeat_worker now wid db h
  kept-perform (Command.handle_worker_timeouts now s) db a h =
      k.without_workers (Workers.is_late now s) db h
  kept-perform (Command.add_device did wid) db a h = kept-add_device did wid db h
  kept-perform (Command.update_device_status did status) db a h =
      kept-update_device_status did status db a h
  kept-perform (Command.make_reservations order now amount client_name kind) db a h =
      kept-make_reservations order now amount client_name kind db h
  kept-perform (Command.make_specific_reservations now client_name serial_ids kind) db a h =
      kept-make_specific_reservations now client_name serial_ids kind db h
  kept-perform (Command.write_reservations client_name now res) db a h =
      kept-write_reservations client_name now res db h
  kept-perform (Command.extend_reservations now client_name serial_ids) db a h =
      k.extended _ now db h
  kept-perform (Command.extend_all_reservations now client_name) db a h = k.extended _ now db h
  kept-perform (Command.end_reservations client_name serial_ids) db a h = kept-release _ db h
  kept-perform (Command.end_all_reservations client_name) db a h = kept-release _ db h
  kept-perform (Command.handle_reservation_timeouts now) db a h = kept-release _ db h
  kept-perform Command.clear_reservations db a h = k.without_reservations (λ r. true) db h
  kept-perform Command.clear_devices db a h = k.without_devices (λ d. true) db h
  kept-perform Command.clear_workers db a h = k.without_workers (λ w. true) db h

  kept-or : (o : Option Db) (db : Db) → P db → Always P o → P (get_or o db)
  kept-or none db h a = h
  kept-or (some db') db h a = a

  pub kept-run :
      (commands : List Command) (db : Db)
      → AllAllowed IsAllowed commands db
      → P db
      → P (run commands db)
  unfolding run
  kept-run [] db a h = h
  kept-run (command ∷ commands) db a h =
      kept-run commands (get_or (perform command db) db) a.1
        (kept-or (perform command db) db h (kept-perform command db a.0 h))
