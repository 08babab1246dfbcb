-- ===== src/Schema/Granted.antt =====
-- When a reservation is granted, and what is granted.
use i_cefarm.Prelude.{
  ℕ, ◌≡◌, refl, ap, sym, ◌∙◌, String, Bool, true, false, ◌&&◌, Option, none, some, List, [], ◌∷◌,
  ◌++◌, map, subst, contains, contains-append, Distinct, string_key, ==_iff, arith, All,
}
use mathlib.Core.List.{map-append}
use i_cefarm.Schema.{
  Worker, Device, Reservation, Db, is_available, device_ids, reserved_ids, insert_reservation,
  insert_reservations, set_status, reserved,
}
use i_cefarm.Schema.Reservations.{Grant, granted_ids, new_reservation, write_reservations}
use i_cefarm.Schema.Valid.{device_ids-with_status}
use i_cefarm.Schema.Candidates.{is_free, is_free-listed}
use i_cefarm.Schema.Refined.{granted_of}

-- No device that is shown as available is reserved.
abbrev pub IsConsistent : Db → Type 0
IsConsistent db =
    All
      (λ d. (is_available d.device_status && contains d.id (reserved_ids db.reservations)) ≡ false)
      db.devices

abbrev pub succeeded : {A : Type 0} → Option A → Bool
succeeded none = false
succeeded (some a) = true

free-unreserved :
    (kind id : String) (devices : List Device) (workers : List Worker) (ids : List String)
    → All (λ d. (is_available d.device_status && contains d.id ids) ≡ false) devices
    → is_free kind id devices workers ≡ true
    → contains id ids ≡ false
free-unreserved kind id [] workers ids c h = cc
free-unreserved kind id (d ∷ devices) workers ids c h =
    ground (arith, free-unreserved kind id devices workers ids c.1, c.0, ==_iff d.id id)

-- Nothing stands in the way of the insertion of a row.
abbrev CanGo : List String → List String → String → Type 0
CanGo listed taken id = (contains id taken ≡ false) × (contains id listed ≡ true)

CanGo-later :
    (listed taken : List String) (id : String) (ids : List String)
    → contains id ids ≡ false
    → All (CanGo listed taken) ids
    → All (CanGo listed (taken ++ id ∷ [])) ids
CanGo-later listed taken id [] n c = tt
CanGo-later listed taken id (x ∷ ids) n c = ground (
  arith,
  CanGo-later listed taken id ids,
  c.0,
  c.1,
  contains-append x taken (id ∷ []),
  ==_iff x id,
  ==_iff id x,
)

succeeded-bind :
    {A B : Type 0} (o : Option A) (f : A → Option B) {a : A}
    → o ≡ some a
    → succeeded (f a) ≡ true
    → succeeded (elim o [ none ↦ none | some x ↦ f x ]) ≡ true
succeeded-bind o f {a} e h = ap (λ p. succeeded (elim p [ none ↦ none | some x ↦ f x ])) e ∙ h

insert_reservation-succeeds :
    (r : Reservation) (db : Db)
    → CanGo (device_ids db.devices) (reserved_ids db.reservations) r.device_id
    → insert_reservation r db ≡ some (record db { reservations = db.reservations ++ r ∷ [] })
unfolding insert_reservation
insert_reservation-succeeds r db c = rw (c.0, c.1) refl

insert_reservations-succeeds :
    (client_name : String) (now : ℕ) (res : List Grant) (db : Db)
    → Distinct (granted_ids res)
    → All (CanGo (device_ids db.devices) (reserved_ids db.reservations)) (granted_ids res)
    → succeeded (insert_reservations (map (new_reservation client_name now) res) db) ≡ true
unfolding insert_reservations
insert_reservations-succeeds client_name now [] db d c = refl
insert_reservations-succeeds client_name now (g ∷ res) db d c =
    let r = new_reservation client_name now g in
    let db' = record db { reservations = db.reservations ++ r ∷ [] } in
    let taken = map-append (λ (s : Reservation). s.device_id) db.reservations (r ∷ []) in
    let later =
      CanGo-later (device_ids db.devices) (reserved_ids db.reservations) g.device_id
        (granted_ids res) d.0 c.1 in
    succeeded-bind (insert_reservation r db)
      (insert_reservations (map (new_reservation client_name now) res))
      (insert_reservation-succeeds r db c.0)
      (insert_reservations-succeeds client_name now res db' d.1 (
        subst (λ ids. All (CanGo (device_ids db.devices) ids) (granted_ids res)) (sym taken) later))

pub write_reservations-succeeds :
    (client_name : String) (now : ℕ) (res : List Grant) (db : Db)
    → Distinct (granted_ids res)
    → All (CanGo (device_ids db.devices) (reserved_ids db.reservations)) (granted_ids res)
    → (succeeded (write_reservations client_name now res db) ≡ true)
      × (granted_of (write_reservations client_name now res db) ≡ granted_ids res)
unfolding write_reservations set_status
write_reservations-succeeds client_name now res db d c =
    let marked = set_status (λ d. contains d.id (granted_ids res)) reserved db in
    let same = device_ids-with_status (λ d. contains d.id (granted_ids res)) reserved db.devices in
    written (insert_reservations (map (new_reservation client_name now) res) marked) (
      insert_reservations-succeeds client_name now res marked d (
        subst (λ ids. All (CanGo ids (reserved_ids db.reservations)) (granted_ids res)) (sym same)
          c))
  where
    written :
        (o : Option Db)
        → succeeded o ≡ true
        → let answer : Option (List Grant × Db) = elim o [
          | none ↦ none
          | some db' ↦ some (res, db')
        ] in
          (succeeded answer ≡ true) × (granted_of answer ≡ granted_ids res)
    written none h = cc
    written (some db') h = (refl, refl)

-- What is found for a reservation can be written.
pub free-CanGo :
    (kind : String) (db : Db) (ids : List String)
    → IsConsistent db
    → All (λ id. is_free kind id db.devices db.workers ≡ true) ids
    → All (CanGo (device_ids db.devices) (reserved_ids db.reservations)) ids
free-CanGo kind db [] c f = tt
free-CanGo kind db (id ∷ ids) c f = (
  (
    free-unreserved kind id db.devices db.workers (reserved_ids db.reservations) c f.0,
    listed (contains id (device_ids db.devices)) refl,
  ),
  free-CanGo kind db ids c f.1,
)
  where
    listed : (b : Bool) → contains id (device_ids db.devices) ≡ b → b ≡ true
    listed true e = refl
    listed false e = cc (f.0, is_free-listed kind id db.devices db.workers e)

-- Whether each of some devices is free for a use.
abbrev pub AllFree : String → Db → List String → Type 0
AllFree kind db ids = All (λ id. is_free kind id db.devices db.workers ≡ true) ids

pub AllFree-of_contains :
    (kind : String) (db : Db) (ids : List String)
    → ((id : String) → contains id ids ≡ true → is_free kind id db.devices db.workers ≡ true)
    → AllFree kind db ids
AllFree-of_contains kind db [] f = tt
AllFree-of_contains kind db (id ∷ ids) f = (
  f id (ground (arith, ==_iff id id)),
  AllFree-of_contains kind db ids (λ x h. f x (ground arith)),
)
