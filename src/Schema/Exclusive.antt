-- ===== src/Schema/Exclusive.antt =====
-- Two reservations that found the same device: src/icefarm/control/flyway/migrations/V1.3__ReservationProc.sql
-- reads the available devices and writes afterwards, and between them other transactions are committed.
use i_cefarm.Prelude.{
  ℕ, ◌≡◌, refl, ap, ◌∙◌, String, true, Option, none, some, List, [], ◌∷◌, map, contains, string_key,
  ==_iff, ◌==◌, arith, Bool-cases, inl, inr, subst,
}
use i_cefarm.Schema.{Reservation, Db, reserved, insert_reservation, insert_reservations, set_status}
use i_cefarm.Schema.Reservations.{Grant, granted_ids, new_reservation, write_reservations}
use i_cefarm.Schema.Inserted.{Always}
use i_cefarm.Schema.Leases.{
  lease_of, given, lease-insert_reservation, lease-eq-none_of_not_contains,
}
use i_cefarm.Schema.Refined.{granted_of, GrantsTo, grants-write_reservations}
use i_cefarm.Schema.Commands.{state}

insert_reservation-taken :
    (r : Reservation) (db : Db) {held : Reservation}
    → lease_of r.device_id db.reservations ≡ some held
    → insert_reservation r db ≡ none
unfolding insert_reservation
insert_reservation-taken r db h =
    ground (arith, h, lease-eq-none_of_not_contains r.device_id db.reservations)

bind-eq-none :
    {A B : Type 0} (o : Option A) (f : A → Option B)
    → ((a : A) → o ≡ some a → f a ≡ none)
    → elim o [ none ↦ none | some a ↦ f a ] ≡ none
bind-eq-none none f h = refl
bind-eq-none (some a) f h = h a refl

insert_reservations-taken :
    (client_name : String) (now : ℕ) (device : String) (res : List Grant) (db : Db)
    (held : Reservation)
    → contains device (granted_ids res) ≡ true
    → lease_of device db.reservations ≡ some held
    → insert_reservations (map (new_reservation client_name now) res) db ≡ none
unfolding insert_reservations
insert_reservations-taken client_name now device [] db held named h = cc
insert_reservations-taken client_name now device (g ∷ res) db held named h =
    let r = new_reservation client_name now g in
    bind-eq-none (insert_reservation r db)
      (insert_reservations (map (new_reservation client_name now) res))
      (λ db' e. elim (Bool-cases (g.device_id == device)) [
        | inl same ↦
            let id = (==_iff g.device_id device).0 same in
            cc (
              insert_reservation-taken r db {held = held}
                (ap (λ d. lease_of d db.reservations) id ∙ h))
        | inr other ↦
            insert_reservations-taken client_name now device res db' held
              (ground (arith, named, other))
              (lease-insert_reservation device r db db' e ∙ rw other h)
      ])

-- A reservation whose writes name a device that is reserved by then raises, and so changes nothing.
write_reservations-taken :
    (client_name : String) (now : ℕ) (device : String) (res : List Grant) (db : Db)
    (held : Reservation)
    → contains device (granted_ids res) ≡ true
    → lease_of device db.reservations ≡ some held
    → write_reservations client_name now res db ≡ none
unfolding write_reservations set_status
write_reservations-taken client_name now device res db held named h =
    let marked = set_status (λ d. contains d.id (granted_ids res)) reserved db in
    ap (λ o. elim o [ none ↦ none | some db' ↦ some (res, db') ])
      (insert_reservations-taken client_name now device res marked held named h)

-- Of two reservations that both found a device before either wrote, the second raises and changes nothing, for
-- whichever clients and whatever else they found.
pub write_reservations-exclusive :
    (first second : String) (now later : ℕ) (device : String) (res res' : List Grant) (db db' : Db)
    → contains device (granted_ids res) ≡ true
    → contains device (granted_ids res') ≡ true
    → write_reservations first now res db ≡ some (res, db')
    → write_reservations second later res' db' ≡ none
write_reservations-exclusive first second now later device res res' db db' named named' e =
    write_reservations-taken second later device res' db' (given first now device) named' (
      subst (λ answer. Always (GrantsTo first now device db (granted_of answer)) (state answer)) e
        (grants-write_reservations first now device db res)
      ∙ rw named refl)
