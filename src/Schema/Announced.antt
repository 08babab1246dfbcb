-- ===== src/Schema/Announced.antt =====
-- Each reservation that ends is announced: the trigger on reservations.
use i_cefarm.Prelude.{
  ℕ, ◌≤◌, ◌≡◌, refl, ap, String, Bool, false, not, ◌&&◌, Option, none, some, List, [], ◌∷◌, map,
  select, ◌+◌, count, count-append, contains, string_key, ==_iff, ◌==◌, arith, if◌then◌else◌,
  Bool-cases, inl, inr, Distinct,
}
use i_cefarm.Schema.{
  Device, Worker, DeviceStatus, Reservation, Notice, reservation_update, device_available,
  end_notice, Db, device_ids, reserved_ids, worker_ids, await_flash_default, reserved,
  delete_reservations, delete_devices, delete_workers, set_status, insert_reservation,
  insert_reservations, insert_device, insert_worker,
}
use i_cefarm.Schema.Reservations
use i_cefarm.Schema.Reservations.{Grant, granted_ids, new_reservation}
use i_cefarm.Schema.Valid.{IsValid}
use i_cefarm.Schema.Inserted.{Always, Always-bind, Always-intro}
use i_cefarm.Schema.Leases.{
  lease_of, lease-eq-none_of_not_contains, lease-append, lease-map, change_lease,
}
use i_cefarm.Schema.Commands.{Command, run}
use i_cefarm.Schema.Kept.{IsKept, kept-run}
use i_cefarm.Schema.Sound.{AnyStatus, IsValid-kept, all_allowed}
use i_cefarm.Schema.Meaning.{extended}

module _ (device client : String) where
  -- A notice that the client's reservation of the device has ended.
  abbrev pub is_end : Notice → Bool
  is_end (reservation_update d c) = d == device && c == client
  is_end (device_available amount) = false

  abbrev pub is_held : Option Reservation → Bool
  is_held none = false
  is_held (some r) = r.client_id == client

  abbrev pub one_if : Bool → ℕ
  one_if b = if b then 1 else 0

  -- How often the end was announced, and once more while the client has the device.
  abbrev pub reservations_seen : Db → ℕ
  reservations_seen db =
      count is_end db.notified + one_if (is_held (lease_of device db.reservations))

  -- What a deletion takes from the client it announces.
  ended-le :
      (p : Reservation → Bool) (rows : List Reservation)
      → Distinct (reserved_ids rows)
      → one_if (is_held (lease_of device rows))
        ≤ count is_end (map end_notice (select p rows))
          + one_if (is_held (lease_of device (select (λ r. not (p r)) rows)))
  unfolding lease_of
  ended-le p [] d = omega arith
  ended-le p (r ∷ rows) d = ground (arith, ended-le p rows d.1, ==_iff r.device_id device)

  seen-delete_reservations :
      (p : Reservation → Bool) (db : Db)
      → Distinct (reserved_ids db.reservations)
      → reservations_seen db ≤ reservations_seen (delete_reservations p db)
  unfolding delete_reservations
  seen-delete_reservations p db d = omega (
    arith,
    ended-le p db.reservations d,
    count-append is_end db.notified (map end_notice (select p db.reservations)),
  )

  seen-delete_devices :
      (p : Device → Bool) (db : Db)
      → Distinct (reserved_ids db.reservations)
      → reservations_seen db ≤ reservations_seen (delete_devices p db)
  unfolding delete_devices
  seen-delete_devices p db d =
      seen-delete_reservations (λ r. contains r.device_id (device_ids (select p db.devices)))
        (record db { devices = select (λ d. not (p d)) db.devices }) d

  seen-delete_workers :
      (p : Worker → Bool) (db : Db)
      → Distinct (reserved_ids db.reservations)
      → reservations_seen db ≤ reservations_seen (delete_workers p db)
  unfolding delete_workers
  seen-delete_workers p db d =
      seen-delete_devices (λ d. contains d.worker_id (worker_ids (select p db.workers)))
        (record db { workers = select (λ w. not (p w)) db.workers }) d

  seen-set_status :
      (p : Device → Bool) (status : DeviceStatus) (db : Db)
      → reservations_seen db ≤ reservations_seen (set_status p status db)
  unfolding set_status
  seen-set_status p status db = omega (arith, count-append is_end db.notified _)

  seen-insert_reservation :
      (r : Reservation) (db db' : Db)
      → insert_reservation r db ≡ some db'
      → reservations_seen db ≤ reservations_seen db'
  unfolding insert_reservation
  seen-insert_reservation r db db' e = ground (
    arith,
    lease-append device db.reservations r,
    lease-eq-none_of_not_contains device db.reservations,
    ==_iff r.device_id device,
  )

  seen-extend_where :
      (p : Reservation → Bool) (now : ℕ) (db : Db)
      → reservations_seen db ≤ reservations_seen (Reservations.extend_where p now db).1
  unfolding Reservations.extend_where
  seen-extend_where p now db =
      let same = lease-map (extended now p) device db.reservations (λ r. ground arith) in
      omega (arith, ap (λ o. one_if (is_held o)) same, still-held (lease_of device db.reservations))
    where
      still-held :
          (o : Option Reservation)
          → one_if (is_held (change_lease (extended now p) o)) ≡ one_if (is_held o)
      still-held none = refl
      still-held (some r) = ground arith

  seen-insert_worker :
      (w : Worker) (db : Db)
      → Always (λ db'. reservations_seen db ≤ reservations_seen db') (insert_worker w db)
  unfolding insert_worker
  seen-insert_worker w db = elim (Bool-cases (contains w.id (worker_ids db.workers))) [
    | inl e ↦ rw e tt
    | inr e ↦ rw e (omega arith)
  ]

  seen-insert_device :
      (d : Device) (db : Db)
      → Always (λ db'. reservations_seen db ≤ reservations_seen db') (insert_device d db)
  unfolding insert_device
  seen-insert_device d db = elim (Bool-cases (contains d.id (device_ids db.devices))) [
    | inl e ↦ rw e tt
    | inr e ↦ elim (Bool-cases (contains d.worker_id (worker_ids db.workers))) [
      | inl f ↦ rw (e, f) (omega arith)
      | inr f ↦ rw (e, f) tt
    ]
  ]

  seen-insert_reservations :
      (base : Db) (rs : List Reservation) (db : Db)
      → reservations_seen base ≤ reservations_seen db
      → Always (λ db'. reservations_seen base ≤ reservations_seen db') (insert_reservations rs db)
  unfolding insert_reservations
  seen-insert_reservations base [] db s = s
  seen-insert_reservations base (r ∷ rs) db s =
      let Seen = λ (db' : Db). reservations_seen base ≤ reservations_seen db' in
      Always-bind Seen (insert_reservation r db) (insert_reservations rs)
        (Always-intro Seen (insert_reservation r db)
          (λ db' e. omega (arith, s, seen-insert_reservation r db db' e)))
        (seen-insert_reservations base rs)

  module _ (base : Db) where
    -- Nothing that was seen at first is lost.
    abbrev Seen : Db → Type 0
    Seen db = IsValid db × (reservations_seen base ≤ reservations_seen db)

    Seen-after :
        (db : Db) (o : Option Db)
        → Always IsValid o
        → Always (λ db'. reservations_seen db ≤ reservations_seen db') o
        → Seen db
        → Always Seen o
    Seen-after db none v h s = tt
    Seen-after db (some db') v h s = (v, omega (arith, h, s.1))

    Seen-kept : IsKept Seen AnyStatus
    Seen-kept = record {
      without_reservations = λ p db s. (
        IsValid-kept.without_reservations p db s.0,
        omega (arith, s.1, seen-delete_reservations p db s.0.stored.reserved_once),
      );
      without_devices = λ p db s. (
        IsValid-kept.without_devices p db s.0,
        omega (arith, s.1, seen-delete_devices p db s.0.stored.reserved_once),
      );
      without_workers = λ p db s. (
        IsValid-kept.without_workers p db s.0,
        omega (arith, s.1, seen-delete_workers p db s.0.stored.reserved_once),
      );
      changed_workers = λ f same db s. (IsValid-kept.changed_workers f same db s.0, s.1);
      extended = λ p now db s.
          (IsValid-kept.extended p now db s.0, omega (arith, s.1, seen-extend_where p now db));
      with_worker = λ w db s.
          Seen-after db (insert_worker w db) (IsValid-kept.with_worker w db s.0)
            (seen-insert_worker w db) s;
      with_device = λ d db e s.
          Seen-after db (insert_device d db) (IsValid-kept.with_device d db e s.0)
            (seen-insert_device d db) s;
      awaiting = λ p db s. (
        IsValid-kept.awaiting p db s.0,
        omega (arith, s.1, seen-set_status p await_flash_default db),
      );
      updated = λ did status db a s. (
        IsValid-kept.updated did status db a s.0,
        omega (arith, s.1, seen-set_status (λ d. d.id == did) status db),
      );
      written = λ client_name now res db s.
          let marked = set_status (λ d. contains d.id (granted_ids res)) reserved db in
          let rows = map (new_reservation client_name now) res in
          Seen-after db (insert_reservations rows marked)
            (IsValid-kept.written client_name now res db s.0)
            (seen-insert_reservations db rows marked
              (seen-set_status (λ d. contains d.id (granted_ids res)) reserved db))
            s;
    }

  -- Whatever is asked of a database whose keys and references hold, in whatever order, and whichever transactions
  -- raise: how often the triggers announced that a client's reservation of a device has ended, counted once more
  -- while the client has it, never falls. So a client that loses a device, by an ending, a timeout, or with the
  -- device or the worker, is announced to.
  pub run-reservations_seen :
      (commands : List Command) (db : Db)
      → IsValid db
      → reservations_seen db ≤ reservations_seen (run commands db)
  run-reservations_seen commands db v =
      (kept-run (Seen db) AnyStatus (Seen-kept db) commands db (all_allowed commands db)
        (v, omega arith)).1
