-- ===== src/Schema/Written.antt =====
-- What a reservation's writes leave of the devices, and of which of them are reserved.
use i_cefarm.Prelude.{
  ℕ, ◌≡◌, refl, sym, ◌∙◌, String, Bool, true, false, ◌||◌, ◌&&◌, Option, none, some, List, [], ◌∷◌,
  map, contains, string_key, arith, All, subst,
}
use i_cefarm.Schema.{
  Device, Reservation, Db, is_available, reserved_ids, with_status, reserved, set_status,
  insert_reservation, insert_reservations,
}
use i_cefarm.Schema.Reservations.{Grant, granted_ids, new_reservation}
use i_cefarm.Schema.Inserted.{Always, Always-bind, Always-intro, Always-map}
use i_cefarm.Schema.Leases.{lease-eq-none_of_not_contains, not_contains_of_lease}
use i_cefarm.Schema.Refined.{lease-insert_reservations}
use i_cefarm.Schema.Granted.{IsConsistent}

-- A device is not both available and one of the reserved.
abbrev pub Apart : List String → Device → Type 0
Apart ids d = (is_available d.device_status && contains d.id ids) ≡ false

devices-insert_reservation :
    (r : Reservation) (db db' : Db) → insert_reservation r db ≡ some db' → db'.devices ≡ db.devices
unfolding insert_reservation
devices-insert_reservation r db db' e = ground arith

devices-insert_reservations :
    (rs : List Reservation) (db : Db)
    → Always (λ db'. db'.devices ≡ db.devices) (insert_reservations rs db)
unfolding insert_reservations
devices-insert_reservations [] db = refl
devices-insert_reservations (r ∷ rs) db =
    Always-bind (λ db'. db'.devices ≡ db.devices) (insert_reservation r db) (insert_reservations rs)
      (Always-intro (λ db'. db'.devices ≡ db.devices) (insert_reservation r db)
        (devices-insert_reservation r db))
      (λ db' e.
        Always-map (insert_reservations rs db') (λ last h. h ∙ e)
          (devices-insert_reservations rs db'))

contains-insert_reservations :
    (client_name : String) (now : ℕ) (x : String) (res : List Grant) (db : Db)
    → Always
        (λ db'.
          contains x (reserved_ids db'.reservations) ≡ true
          → (contains x (granted_ids res) || contains x (reserved_ids db.reservations)) ≡ true)
        (insert_reservations (map (new_reservation client_name now) res) db)
contains-insert_reservations client_name now x res db =
    Always-map (insert_reservations (map (new_reservation client_name now) res) db)
      (λ (db' : Db) same h. ground (
        arith,
        same,
        h,
        lease-eq-none_of_not_contains x db.reservations,
        not_contains_of_lease x db'.reservations,
      ))
      (lease-insert_reservations client_name now x res db)

Always-all :
    {A : Type 0} (P : String → A → Type 0) (o : Option A)
    → ((x : String) → Always (P x) o)
    → Always (λ a. (x : String) → P x a) o
Always-all P none f = tt
Always-all P (some a) f = f

Always-both :
    {A : Type 0} (P Q : A → Type 0) (o : Option A)
    → Always P o
    → Always Q o
    → Always (λ a. P a × Q a) o
Always-both P Q none p q = tt
Always-both P Q (some a) p q = (p, q)

marked-Apart :
    (ids ids' res : List String)
    → ((x : String) → contains x ids' ≡ true → (contains x res || contains x ids) ≡ true)
    → (devices : List Device) → All (Apart ids) devices
    → All (Apart ids') (map (with_status (λ d. contains d.id res) reserved) devices)
marked-Apart ids ids' res more [] c = tt
marked-Apart ids ids' res more (d ∷ devices) c = (
  apart (contains d.id res) (contains d.id ids') refl refl,
  marked-Apart ids ids' res more devices c.1,
)
  where
    apart :
        (b b' : Bool)
        → contains d.id res ≡ b
        → contains d.id ids' ≡ b'
        → Apart ids' (with_status (λ d. contains d.id res) reserved d)
    apart true b' e e' = rw e refl
    apart false true e e' = rw e (ground (arith, more d.id e', c.0))
    apart false false e e' = rw e (ground arith)

pub written-IsConsistent :
    (client_name : String) (now : ℕ) (res : List Grant) (db : Db)
    → IsConsistent db
    → Always IsConsistent (
        insert_reservations
          (map (new_reservation client_name now) res)
          (set_status (λ d. contains d.id (granted_ids res)) reserved db))
unfolding set_status
written-IsConsistent client_name now res db c =
    let rows = map (new_reservation client_name now) res in
    let marked = set_status (λ d. contains d.id (granted_ids res)) reserved db in
    Always-map (insert_reservations rows marked)
      (λ (db' : Db) h. subst (All (Apart (reserved_ids db'.reservations))) (sym h.0) (
        marked-Apart (reserved_ids db.reservations) (reserved_ids db'.reservations)
          (granted_ids res) h.1 db.devices c))
      (Always-both _ _ (insert_reservations rows marked) (devices-insert_reservations rows marked) (
        Always-all
          (λ x (db' : Db).
            contains x (reserved_ids db'.reservations) ≡ true
            → (contains x (granted_ids res) || contains x (reserved_ids db.reservations)) ≡ true)
          (insert_reservations rows marked)
          (λ x. contains-insert_reservations client_name now x res marked)))
