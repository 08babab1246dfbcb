-- ===== src/Schema/Refined.antt =====
-- Each command on the tables does to the reservation of every device what its abstract meaning says.
use i_cefarm.Prelude.{
  ℕ, ◌≡◌, refl, ◌∙◌, String, Bool, true, false, Option, none, some, List, [], ◌∷◌, map, select,
  take, length, eqb, contains, Distinct, string_key, ==_iff, ◌==◌, arith, if◌then◌else◌, All,
}
use i_cefarm.Schema.{
  Device, Reservation, Db, reserved_ids, device_ids, insert_reservation, insert_reservations,
  delete_reservations, delete_devices, set_status, reserved,
}
use i_cefarm.Schema.Reservations
use i_cefarm.Schema.Reservations.{Grant, granted_ids, new_reservation}
use i_cefarm.Schema.Endings
use i_cefarm.Schema.Commands.{state}
use i_cefarm.Schema.Rows.{contains-rest, contains-not_both}
use i_cefarm.Schema.Valid.{IsIn, IsStored}
use i_cefarm.Schema.Inserted.{Always, Always-bind, Always-intro, Always-map}
use i_cefarm.Schema.Leases.{
  lease_of, unless, picked, given, lease-select, contains-picked, lease-insert_reservation,
}

lease-listed :
    (devices : List Device) (device : String) (rows : List Reservation)
    → All (λ r. IsIn (device_ids devices) r.device_id) rows
    → contains device (device_ids devices) ≡ false
    → lease_of device rows ≡ none
unfolding lease_of
lease-listed devices device [] h absent = refl
lease-listed devices device (r ∷ rows) h absent =
    ground (arith, lease-listed devices device rows h.1, h.0, ==_iff r.device_id device)

-- What is left of a lease when devices go: it is kept if the device is still listed.
pub lease-cascade :
    (p : Device → Bool) (device : String) (db : Db)
    → IsStored db.devices db.reservations
    → lease_of device (delete_devices p db).reservations ≡ (
        if contains device (device_ids (delete_devices p db).devices)
        then lease_of device db.reservations
        else none)
unfolding delete_devices
lease-cascade p device db s = ground (
  arith,
  lease-select device (device_ids (select p db.devices)) db.reservations,
  contains-not_both (λ d. d.id) p device db.devices s.devices_once,
  contains-rest (λ d. d.id) p device db.devices,
  lease-listed db.devices device db.reservations s.reserved_listed,
)

pub lease-insert_reservations :
    (client_name : String) (now : ℕ) (device : String) (res : List Grant) (db : Db)
    → Always
        (λ db'. lease_of device db'.reservations ≡ (
          if contains device (granted_ids res)
          then some (given client_name now device)
          else lease_of device db.reservations))
        (insert_reservations (map (new_reservation client_name now) res) db)
unfolding insert_reservations
lease-insert_reservations client_name now device [] db = refl
lease-insert_reservations client_name now device (g ∷ res) db =
    let first = new_reservation client_name now g in
    Always-bind
      (λ db'. lease_of device db'.reservations ≡ (
        if contains device (granted_ids (g ∷ res))
        then some (given client_name now device)
        else lease_of device db.reservations))
      (insert_reservation first db)
      (insert_reservations (map (new_reservation client_name now) res))
      (Always-intro
        (λ db'.
          lease_of device db'.reservations
          ≡ (if g.device_id == device then some first else lease_of device db.reservations))
        (insert_reservation first db) (λ db' e. lease-insert_reservation device first db db' e))
      (λ db' e.
        Always-map (insert_reservations (map (new_reservation client_name now) res) db')
          (λ last h. ground (arith, h, e, ==_iff g.device_id device))
          (lease-insert_reservations client_name now device res db'))

-- The devices that an answer of the functions that reserve names.
abbrev pub granted_of : Option (List Grant × Db) → List String
granted_of none = []
granted_of (some (res, db)) = granted_ids res

module _ (client_name : String) (now : ℕ) (device : String) (db : Db) where
  -- A granted device is held by the client, and the leases of the others stay.
  abbrev pub GrantsTo : List String → Db → Type 0
  GrantsTo granted db' = lease_of device db'.reservations ≡ (
      if contains device granted
      then some (given client_name now device)
      else lease_of device db.reservations)

  grants-answer :
      (res : List Grant) (o : Option Db)
      → Always (GrantsTo (granted_ids res)) o
      → let answer : Option (List Grant × Db) = elim o [
        | none ↦ none
        | some db' ↦ some (res, db')
      ] in
        Always (GrantsTo (granted_of answer)) (state answer)
  grants-answer res none h = tt
  grants-answer res (some db') h = h

  pub grants-write_reservations :
      (res : List Grant)
      → let answer = Reservations.write_reservations client_name now res db in
        Always (GrantsTo (granted_of answer)) (state answer)
  unfolding Reservations.write_reservations set_status
  grants-write_reservations res =
      let marked = set_status (λ d. contains d.id (granted_ids res)) reserved db in
      grants-answer res (insert_reservations (map (new_reservation client_name now) res) marked)
        (lease-insert_reservations client_name now device res marked)

  grants-if :
      (b : Bool) (answer : Option (List Grant × Db))
      → Always (GrantsTo (granted_of answer)) (state answer)
      → let tested = if b then answer else none in
        Always (GrantsTo (granted_of tested)) (state tested)
  grants-if true answer h = h
  grants-if false answer h = tt

  pub grants-make_reservations :
      (order : List Grant → List Grant) (amount : ℕ) (kind : String)
      → let answer = Reservations.make_reservations order now amount client_name kind db in
        Always (GrantsTo (granted_of answer)) (state answer)
  unfolding Reservations.make_reservations
  grants-make_reservations order amount kind =
      let res = take amount (order (Reservations.candidates kind db)) in
      grants-if (eqb (length res) amount) (Reservations.write_reservations client_name now res db)
        (grants-write_reservations res)

  pub grants-make_specific_reservations :
      (serial_ids : List String) (kind : String)
      → let answer = Reservations.make_specific_reservations now client_name serial_ids kind db in
        Always (GrantsTo (granted_of answer)) (state answer)
  unfolding Reservations.make_specific_reservations
  grants-make_specific_reservations serial_ids kind =
      let res = select (λ g. contains g.device_id serial_ids) (Reservations.candidates kind db) in
      grants-if (eqb (length res) (length serial_ids))
        (Reservations.write_reservations client_name now res db) (grants-write_reservations res)

pub lease-release :
    (p : Reservation → Bool) (device : String) (db : Db)
    → Distinct (reserved_ids db.reservations)
    → lease_of device (Endings.release (reserved_ids (select p db.reservations)) db).1.reservations
      ≡ unless p (lease_of device db.reservations)
unfolding Endings.release delete_reservations set_status
lease-release p device db d =
    let gone = reserved_ids (select p db.reservations) in
    let kept = lease-select device gone db.reservations in
    let chosen = contains-picked p device db.reservations d in
    kept ∙ rw chosen (unless-picked p (lease_of device db.reservations))
  where
    unless-picked :
        (p : Reservation → Bool) (o : Option Reservation)
        → (if picked p o then none else o) ≡ unless p o
    unless-picked p none = refl
    unless-picked p (some r) = refl
