-- ===== src/Schema/Leases.antt =====
-- The abstract view of the table of reservations: which client holds a device, and until when.
use i_cefarm.Prelude.{
  ℕ, ◌≡◌, refl, ap, String, Bool, true, false, not, Option, none, some, List, [], ◌∷◌, ◌++◌, map,
  select, contains, Distinct, string_key, ==_iff, ◌==◌, arith, if◌then◌else◌, ◌+◌,
}
use i_cefarm.Schema.{
  Device, Reservation, Db, reserved_ids, device_ids, hour, insert_reservation, delete_reservations,
  delete_devices,
}

-- The reservation of a device.
unfoldable pub lease_of : String → List Reservation → Option Reservation
lease_of device [] = none
lease_of device (r ∷ rows) = if r.device_id == device then some r else lease_of device rows

-- What is left of a lease, where those that a test picks end.
abbrev pub unless : (Reservation → Bool) → Option Reservation → Option Reservation
unless p none = none
unless p (some r) = if p r then none else some r

abbrev pub picked : (Reservation → Bool) → Option Reservation → Bool
picked p none = false
picked p (some r) = p r

abbrev pub change_lease : (Reservation → Reservation) → Option Reservation → Option Reservation
change_lease f none = none
change_lease f (some r) = some (f r)

pub lease-eq-none_of_not_contains :
    (device : String) (rows : List Reservation)
    → contains device (reserved_ids rows) ≡ false
    → lease_of device rows ≡ none
unfolding lease_of
lease-eq-none_of_not_contains device [] h = refl
lease-eq-none_of_not_contains device (r ∷ rows) h =
    ground (arith, lease-eq-none_of_not_contains device rows)

pub not_contains_of_lease :
    (device : String) (rows : List Reservation)
    → lease_of device rows ≡ none
    → contains device (reserved_ids rows) ≡ false
unfolding lease_of
not_contains_of_lease device [] h = refl
not_contains_of_lease device (r ∷ rows) h = ground (arith, not_contains_of_lease device rows)

pub lease_of-device :
    (device : String) (rows : List Reservation) {r : Reservation}
    → lease_of device rows ≡ some r
    → (r.device_id == device) ≡ true
unfolding lease_of
lease_of-device device [] h = cc
lease_of-device device (s ∷ rows) {r} h = ground (arith, lease_of-device device rows {r = r})

-- A test on the device alone.
pub lease-select :
    (device : String) (gone : List String) (rows : List Reservation)
    → lease_of device (select (λ r. not (contains r.device_id gone)) rows)
      ≡ (if contains device gone then none else lease_of device rows)
unfolding lease_of
lease-select device gone [] = ground arith
lease-select device gone (r ∷ rows) =
    ground (arith, lease-select device gone rows, ==_iff r.device_id device)

-- The devices that a deletion picks are those whose lease it picks.
pub contains-picked :
    (p : Reservation → Bool) (device : String) (rows : List Reservation)
    → Distinct (reserved_ids rows)
    → contains device (reserved_ids (select p rows)) ≡ picked p (lease_of device rows)
unfolding lease_of
contains-picked p device [] d = refl
contains-picked p device (r ∷ rows) d = ground (
  arith,
  contains-picked p device rows d.1,
  ==_iff r.device_id device,
  lease-eq-none_of_not_contains device rows,
)

pub lease-map :
    (f : Reservation → Reservation) (device : String) (rows : List Reservation)
    → ((r : Reservation) → (f r).device_id ≡ r.device_id)
    → lease_of device (map f rows) ≡ change_lease f (lease_of device rows)
unfolding lease_of
lease-map f device [] same = refl
lease-map f device (r ∷ rows) same =
    ground (arith, same r, ap (λ d. d == device) (same r), lease-map f device rows same)

pub lease-append :
    (device : String) (rows : List Reservation) (r : Reservation)
    → contains r.device_id (reserved_ids rows) ≡ false
    → lease_of device (rows ++ r ∷ [])
      ≡ (if r.device_id == device then some r else lease_of device rows)
unfolding lease_of
lease-append device [] r h = refl
lease-append device (s ∷ rows) r h = ground (
  arith,
  lease-append device rows r,
  ==_iff s.device_id device,
  ==_iff r.device_id device,
  ==_iff s.device_id r.device_id,
)

lease-select-unless :
    (p : Reservation → Bool) (device : String) (rows : List Reservation)
    → Distinct (reserved_ids rows)
    → lease_of device (select (λ r. not (p r)) rows) ≡ unless p (lease_of device rows)
unfolding lease_of
lease-select-unless p device [] d = refl
lease-select-unless p device (r ∷ rows) d = ground (
  arith,
  lease-select-unless p device rows d.1,
  lease-eq-none_of_not_contains device rows,
  ==_iff r.device_id device,
)

pub lease-delete_reservations :
    (p : Reservation → Bool) (device : String) (db : Db)
    → Distinct (reserved_ids db.reservations)
    → lease_of device (delete_reservations p db).reservations
      ≡ unless p (lease_of device db.reservations)
unfolding delete_reservations
lease-delete_reservations p device db d = lease-select-unless p device db.reservations d

-- With a device its lease goes.
pub lease-delete_devices :
    (p : Device → Bool) (device : String) (db : Db)
    → lease_of device (delete_devices p db).reservations ≡ (
        if contains device (device_ids (select p db.devices))
        then none
        else lease_of device db.reservations)
unfolding delete_devices
lease-delete_devices p device db =
    lease-select device (device_ids (select p db.devices)) db.reservations

-- The reservation that a client is given of a device.
abbrev pub given : String → ℕ → String → Reservation
given client_name now device = record {
  device_id = device;
  client_id = client_name;
  until = now + hour;
}

pub lease-insert_reservation :
    (device : String) (r : Reservation) (db db' : Db)
    → insert_reservation r db ≡ some db'
    → lease_of device db'.reservations
      ≡ (if r.device_id == device then some r else lease_of device db.reservations)
unfolding insert_reservation
lease-insert_reservation device r db db' e = ground (arith, lease-append device db.reservations r)
