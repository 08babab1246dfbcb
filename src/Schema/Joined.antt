-- ===== src/Schema/Joined.antt =====
-- Joins along a key that each row of one side refers to: every row of that side finds exactly one partner.
use mathlib.Core.List.{map-map}
use i_cefarm.Prelude.{
  ◌≡◌, refl, ap, sym, ◌∙◌, subst, String, true, false, List, [], ◌∷◌, map, select, is_nonempty,
  contains, Distinct, string_key, ==_iff, ◌==◌, arith, Bool-cases, inl, inr, All,
}
use i_cefarm.Schema.{Worker, Device, Reservation, Db, join, worker_ids, device_ids, reserved_ids}
use i_cefarm.Schema.Valid.{IsIn, IsValid}
use i_cefarm.Schema.Rows.{All-map}
use mathlib.Core.Path.{fun_ext}
use i_cefarm.Schema.Reservations.{has_reservations}
use i_cefarm.Schema.Endings.{Ended, to_ended, ended_rows}

module _ {B : Type 0} (key : B → String) (Q : B → Type 0) where
  no_partner :
      (k : String) (ys : List B)
      → contains k (map key ys) ≡ false
      → select (λ y. k == key y) ys ≡ []
  no_partner k [] h = refl
  no_partner k (y ∷ ys) h = ground (arith, no_partner k ys, ==_iff k (key y), ==_iff (key y) k)

  -- The only row with a key.
  one_partner :
      (k : String) (ys : List B)
      → contains k (map key ys) ≡ true
      → Distinct (map key ys)
      → All Q ys
      → (y : B) × (select (λ y. k == key y) ys ≡ y ∷ []) × (k ≡ key y) × Q y
  one_partner k [] h d q = cc
  one_partner k (y ∷ ys) h d q = elim (Bool-cases (k == key y)) [
    | inl e ↦
        let same = (==_iff k (key y)).0 e in
        (
          y,
          rw e (
              ap (◌∷◌ y)
                (no_partner k ys (subst (λ x. contains x (map key ys) ≡ false) (sym same) d.0))),
          same,
          q.0,
        )
    | inr e ↦
        let (z, found, same, holds) =
          one_partner k ys (ground (arith, h, e, ==_iff (key y) k, ==_iff k (key y))) d.1 q.1 in
        (z, rw e found, same, holds)
  ]

  module _ {A : Type 0} (g : A → String) (P : A → Type 0) (ys : List B) (d : Distinct (map key ys))
      (q : All Q ys) where
    abbrev matched : List A → List (A × B)
    matched xs = join (λ x y. g x == key y) xs ys

    pub join_one :
        (xs : List A)
        → All (λ x. P x × IsIn (map key ys) (g x)) xs
        → (map (λ p. p.0) (matched xs) ≡ xs)
          × All (λ p. P p.0 × (g p.0 ≡ key p.1) × Q p.1) (matched xs)
    unfolding join
    join_one [] h = (refl, tt)
    join_one (x ∷ xs) h =
        let (y, found, same, holds) = one_partner (g x) ys h.0.1 d q in
        let later = join_one xs h.1 in
        rw found (ap (◌∷◌ x) later.0, ((h.0.0, same, holds), later.1))

is_nonempty-map : {A B : Type 0} (f : A → B) (xs : List A) → is_nonempty (map f xs) ≡ is_nonempty xs
is_nonempty-map f [] = refl
is_nonempty-map f (x ∷ xs) = refl

==_comm : (x y : String) → (x == y) ≡ (y == x)
==_comm x y = ground (arith, ==_iff x y, ==_iff y x)

All-true : {A : Type 0} (rows : List A) → All (λ row. Unit {0}) rows
All-true [] = tt
All-true (row ∷ rows) = (tt, All-true rows)

module _ (db : Db) (v : IsValid db) where
  abbrev Placed : Device → Type 0
  Placed d = IsIn (worker_ids db.workers) d.worker_id

  -- The query for a worker's reservations answers for all workers: where keys and references hold, a worker
  -- is told that it has reservations whenever any device of the farm is reserved.
  pub has_reservations_anywhere :
      (wid : String) → has_reservations wid db ≡ is_nonempty db.reservations
  unfolding has_reservations
  has_reservations_anywhere wid =
      let with_device = join (λ r d. r.device_id == d.id) db.reservations db.devices in
      let devices =
        join_one (λ (d : Device). d.id) Placed (λ (r : Reservation). r.device_id) (λ r. Unit {0})
          db.devices v.stored.devices_once v.placed db.reservations
          (All-map (λ r h. (tt, h)) db.reservations v.stored.reserved_listed) in
      let workers =
        join_one (λ (w : Worker). w.id) (λ w. Unit {0})
          (λ (p : Reservation × Device). p.1.worker_id) (λ p. Unit {0}) db.workers v.workers_once
          (All-true db.workers) with_device (All-map (λ p h. (tt, h.2)) with_device devices.1) in
      ap (λ on. is_nonempty (join on with_device db.workers))
        (fun_ext
          (λ (p : Reservation × Device). fun_ext (λ (w : Worker). ==_comm w.id p.1.worker_id)))
      ∙ (sym (
            is_nonempty-map (λ p. p.0)
              (join (λ (p : Reservation × Device) w. p.1.worker_id == w.id) with_device db.workers))
          ∙ (ap is_nonempty workers.0
              ∙ (sym (is_nonempty-map (λ p. p.0) with_device) ∙ ap is_nonempty devices.0)))

  -- The rows that are returned for reserved devices are one for each, in order.
  pub ended_rows-devices :
      (res : List String)
      → All (IsIn (reserved_ids db.reservations)) res
      → map (λ e. e.device_id) (ended_rows res db) ≡ res
  unfolding ended_rows
  ended_rows-devices res h =
      let first =
        join (λ device_id (r : Reservation). device_id == r.device_id) res db.reservations in
      let reserved =
        join_one (λ (r : Reservation). r.device_id) (λ r. IsIn (device_ids db.devices) r.device_id)
          (λ x. x) (λ x. Unit {0}) db.reservations v.stored.reserved_once v.stored.reserved_listed
          res (All-map (λ x i. (tt, i)) res h) in
      let second = join (λ row (d : Device). row.0 == d.id) first db.devices in
      let devices =
        join_one (λ (d : Device). d.id) Placed (λ (p : String × Reservation). p.0) (λ p. Unit {0})
          db.devices v.stored.devices_once v.placed first
          (All-map (λ p i. (tt, subst (IsIn (device_ids db.devices)) (sym i.1) i.2)) first
            reserved.1) in
      let third = join (λ row (w : Worker). row.1.worker_id == w.id) second db.workers in
      let workers =
        join_one (λ (w : Worker). w.id) (λ w. Unit {0})
          (λ (p : (String × Reservation) × Device). p.1.worker_id) (λ p. Unit {0}) db.workers
          v.workers_once (All-true db.workers) second
          (All-map (λ p i. (tt, i.2)) second devices.1) in
      map-map (λ (e : Ended). e.device_id) to_ended third
      ∙ (sym (map-map (λ (p : (String × Reservation) × Device). p.0.0) (λ p. p.0) third)
          ∙ (ap (map (λ (p : (String × Reservation) × Device). p.0.0)) workers.0
              ∙ (sym (map-map (λ (p : String × Reservation). p.0) (λ p. p.0) second)
                  ∙ (ap (map (λ (p : String × Reservation). p.0)) devices.0 ∙ reserved.0))))
