-- ===== src/Schema/Inserted.antt =====
-- The insertions keep the keys and references of the tables, wherever they do not raise.
use mathlib.Core.List.{map-append}
use i_cefarm.Prelude.{
  ◌≡◌, refl, sym, subst, String, false, Option, none, some, List, [], ◌∷◌, ◌++◌, map, contains,
  contains-append, Distinct, string_key, arith, Bool-cases, inl, inr,
}
use i_cefarm.Schema.{
  Worker, Device, Reservation, Db, worker_ids, device_ids, reserved_ids, insert_worker,
  insert_device, insert_reservation, insert_reservations,
}
use i_cefarm.Schema.Rows.{append-Distinct, All-map, All-append_one}
use i_cefarm.Schema.Valid.{IsIn, IsValid}

-- What a statement that may raise leaves behind satisfies a predicate.
abbrev pub Always {ℓ} : {A : Type 0} → (A → Type ℓ) → Option A → Type ℓ
Always P none = Unit
Always P (some a) = P a

pub Always-bind :
    {A B : Type 0} {P : A → Type 0} (Q : B → Type 0) (o : Option A) (f : A → Option B)
    → Always P o
    → ((a : A) → P a → Always Q (f a))
    → Always Q (elim o [ none ↦ none | some a ↦ f a ])
Always-bind Q none f h rest = tt
Always-bind Q (some a) f h rest = rest a h

module _ {A : Type 0} (P : A → Type 0) where
  pub Always-intro : (o : Option A) → ((a : A) → o ≡ some a → P a) → Always P o
  Always-intro none f = tt
  Always-intro (some a) f = f a refl

  pub Always-elim : (o : Option A) (a : A) → Always P o → o ≡ some a → P a
  Always-elim o a h e = subst (Always P) e h

module _ {A : Type 0} {P Q : A → Type 0} where
  pub Always-map : (o : Option A) → ((a : A) → P a → Q a) → Always P o → Always Q o
  Always-map none f h = tt
  Always-map (some a) f h = f a h

IsIn-append : (ids : List String) (x y : String) → IsIn ids x → IsIn (ids ++ y ∷ []) x
IsIn-append ids x y h = ground (arith, contains-append x ids (y ∷ []))

module _ {A : Type 0} (key : A → String) where
  keys-append : (rows : List A) (a : A) → map key rows ++ key a ∷ [] ≡ map key (rows ++ a ∷ [])
  keys-append rows a = sym (map-append key rows (a ∷ []))

  append_key-Distinct :
      (rows : List A) (a : A)
      → Distinct (map key rows)
      → contains (key a) (map key rows) ≡ false
      → Distinct (map key (rows ++ a ∷ []))
  append_key-Distinct rows a d free =
      subst Distinct (keys-append rows a) (append-Distinct (key a) (map key rows) d free)

  IsIn-append_key :
      (rows : List A) (a : A) (x : String)
      → IsIn (map key rows) x
      → IsIn (map key (rows ++ a ∷ [])) x
  IsIn-append_key rows a x h =
      subst (λ ids. IsIn ids x) (keys-append rows a) (IsIn-append (map key rows) x (key a) h)

pub insert_worker-IsValid :
    (w : Worker) (db : Db) → IsValid db → Always IsValid (insert_worker w db)
unfolding insert_worker
insert_worker-IsValid w db v = elim (Bool-cases (contains w.id (worker_ids db.workers))) [
  | inl taken ↦ rw taken tt
  | inr free ↦ rw free (record {
    workers_once = append_key-Distinct (λ u. u.id) db.workers w v.workers_once free;
    placed =
        All-map (λ d h. IsIn-append_key (λ u. u.id) db.workers w d.worker_id h) db.devices v.placed;
    stored = v.stored;
  })
]

pub insert_device-IsValid :
    (d : Device) (db : Db) → IsValid db → Always IsValid (insert_device d db)
unfolding insert_device
insert_device-IsValid d db v = elim (Bool-cases (contains d.id (device_ids db.devices))) [
  | inl taken ↦ rw taken tt
  | inr free ↦ elim (Bool-cases (contains d.worker_id (worker_ids db.workers))) [
    | inr absent ↦ rw (free, absent) tt
    | inl present ↦
        rw (free, present)
          (record {
            workers_once = v.workers_once;
            placed = All-append_one db.devices d (λ c h. h) v.placed present;
            stored = record {
              devices_once =
                  append_key-Distinct (λ c. c.id) db.devices d v.stored.devices_once free;
              reserved_once = v.stored.reserved_once;
              reserved_listed =
                  All-map (λ r h. IsIn-append_key (λ c. c.id) db.devices d r.device_id h)
                    db.reservations v.stored.reserved_listed;
            };
          })
  ]
]

pub insert_reservation-IsValid :
    (r : Reservation) (db : Db) → IsValid db → Always IsValid (insert_reservation r db)
unfolding insert_reservation
insert_reservation-IsValid r db v =
    elim (Bool-cases (contains r.device_id (reserved_ids db.reservations))) [
      | inl taken ↦ rw taken tt
      | inr free ↦ elim (Bool-cases (contains r.device_id (device_ids db.devices))) [
        | inr absent ↦ rw (free, absent) tt
        | inl present ↦
            rw (free, present)
              (record {
                workers_once = v.workers_once;
                placed = v.placed;
                stored = record {
                  devices_once = v.stored.devices_once;
                  reserved_once =
                      append_key-Distinct (λ s. s.device_id) db.reservations r
                        v.stored.reserved_once free;
                  reserved_listed =
                      All-append_one db.reservations r (λ s h. h) v.stored.reserved_listed present;
                };
              })
      ]
    ]

pub insert_reservations-IsValid :
    (rs : List Reservation) (db : Db) → IsValid db → Always IsValid (insert_reservations rs db)
unfolding insert_reservations
insert_reservations-IsValid [] db v = v
insert_reservations-IsValid (r ∷ rs) db v =
    Always-bind IsValid (insert_reservation r db) (insert_reservations rs)
      (insert_reservation-IsValid r db v) (insert_reservations-IsValid rs)
