-- ===== src/Schema/Candidates.antt =====
-- The rows among which the functions that reserve choose, and what they are independently of the join.
use mathlib.Core.List.{map-append}
use i_cefarm.Prelude.{
  ◌≡◌, refl, ap, ◌∙◌, String, Bool, false, not, ◌&&◌, List, [], ◌∷◌, ◌++◌, map, select,
  select-append, any, contains, contains-append, Distinct, string_key, ==_iff, ◌==◌, arith, All,
}
use i_cefarm.Schema.{Worker, Device, Db, is_available, device_ids, worker_ids, join}
use i_cefarm.Schema.Reservations.{Grant, granted_ids, can_reserve, to_grant, candidates}
use i_cefarm.Schema.Valid.{IsValid}

-- Whether a worker that does not shut down offers a use.
abbrev pub is_offered : String → String → List Worker → Bool
is_offered kind wid = any (λ w. w.id == wid && (contains kind w.reservables && not w.shutting_down))

-- Whether a device is listed, available, and on such a worker.
abbrev pub is_free : String → String → List Device → List Worker → Bool
is_free kind id devices workers =
    any (λ d. d.id == id && (is_available d.device_status && is_offered kind d.worker_id workers))
      devices

abbrev on_worker : Device → Worker → Bool
on_worker d w = w.id == d.worker_id

-- The rows of one device.
abbrev rows_of : String → Device → List Worker → List Grant
rows_of kind d workers =
    map to_grant (select (can_reserve kind) (map (λ w. (d, w)) (select (on_worker d) workers)))

abbrev rows_of_all : String → List Device → List Worker → List Grant
rows_of_all kind [] workers = []
rows_of_all kind (d ∷ devices) workers = rows_of kind d workers ++ rows_of_all kind devices workers

candidates-eq-rows_of_all :
    (kind : String) (devices : List Device) (workers : List Worker)
    → map to_grant (select (can_reserve kind) (join (λ d w. w.id == d.worker_id) devices workers))
      ≡ rows_of_all kind devices workers
unfolding join
candidates-eq-rows_of_all kind [] workers = refl
candidates-eq-rows_of_all kind (d ∷ devices) workers =
    let first = map (λ w. (d, w)) (select (on_worker d) workers) in
    let later = join (λ d w. w.id == d.worker_id) devices workers in
    ap (map to_grant) (select-append (can_reserve kind) first later)
    ∙ (map-append to_grant (select (can_reserve kind) first) (select (can_reserve kind) later)
        ∙ ap (λ rows. rows_of kind d workers ++ rows)
            (candidates-eq-rows_of_all kind devices workers))

contains-rows_of :
    (kind id : String) (d : Device) (workers : List Worker)
    → contains id (granted_ids (rows_of kind d workers))
      ≡ (d.id == id && (is_available d.device_status && is_offered kind d.worker_id workers))
contains-rows_of kind id d [] = ground arith
contains-rows_of kind id d (w ∷ workers) = ground (arith, contains-rows_of kind id d workers)

contains-rows_of_all :
    (kind id : String) (devices : List Device) (workers : List Worker)
    → contains id (granted_ids (rows_of_all kind devices workers)) ≡ is_free kind id devices workers
contains-rows_of_all kind id [] workers = refl
contains-rows_of_all kind id (d ∷ devices) workers =
    let split =
      map-append (λ g. g.device_id) (rows_of kind d workers) (rows_of_all kind devices workers) in
    rw split (
      rw contains-append (
        ground (
          arith,
          contains-rows_of kind id d workers,
          contains-rows_of_all kind id devices workers,
        )))

-- A row for a device is found exactly if the device is free.
pub contains-candidates :
    (kind id : String) (db : Db)
    → contains id (granted_ids (candidates kind db)) ≡ is_free kind id db.devices db.workers
unfolding candidates
contains-candidates kind id db =
    ap (λ rows. contains id (granted_ids rows))
      (candidates-eq-rows_of_all kind db.devices db.workers)
    ∙ contains-rows_of_all kind id db.devices db.workers

rows_of-absent :
    (kind : String) (d : Device) (workers : List Worker)
    → contains d.worker_id (worker_ids workers) ≡ false
    → rows_of kind d workers ≡ []
rows_of-absent kind d [] h = refl
rows_of-absent kind d (w ∷ workers) h = ground (arith, rows_of-absent kind d workers)

-- A device has one worker, and so one row at most.
rows_of-Distinct :
    (kind : String) (d : Device) (workers : List Worker)
    → Distinct (worker_ids workers)
    → Distinct (granted_ids (rows_of kind d workers))
rows_of-Distinct kind d [] h = tt
rows_of-Distinct kind d (w ∷ workers) h = ground (
  arith,
  rows_of-Distinct kind d workers h.1,
  ==_iff w.id d.worker_id,
  rows_of-absent kind d workers,
)

pub is_free-listed :
    (kind id : String) (devices : List Device) (workers : List Worker)
    → contains id (device_ids devices) ≡ false
    → is_free kind id devices workers ≡ false
is_free-listed kind id [] workers h = refl
is_free-listed kind id (d ∷ devices) workers h =
    ground (arith, is_free-listed kind id devices workers)

append-Distinct_apart :
    (xs ys : List String)
    → Distinct xs
    → Distinct ys
    → All (λ x. contains x ys ≡ false) xs
    → Distinct (xs ++ ys)
append-Distinct_apart [] ys dx dy apart = dy
append-Distinct_apart (x ∷ xs) ys dx dy apart =
    ground
      (arith, append-Distinct_apart xs ys dx.1 dy apart.1, contains-append x xs ys, dx.0, apart.0)

rows_of-apart :
    (kind : String) (d : Device) (devices : List Device) (workers all_workers : List Worker)
    → contains d.id (device_ids devices) ≡ false
    → All
        (λ x. contains x (granted_ids (rows_of_all kind devices all_workers)) ≡ false)
        (granted_ids (rows_of kind d workers))
rows_of-apart kind d devices [] all_workers h = tt
rows_of-apart kind d devices (w ∷ workers) all_workers h = ground (
  arith,
  rows_of-apart kind d devices workers all_workers h,
  contains-rows_of_all kind d.id devices all_workers,
  is_free-listed kind d.id devices all_workers h,
)

rows_of_all-Distinct :
    (kind : String) (devices : List Device) (workers : List Worker)
    → Distinct (device_ids devices)
    → Distinct (worker_ids workers)
    → Distinct (granted_ids (rows_of_all kind devices workers))
rows_of_all-Distinct kind [] workers dd dw = tt
rows_of_all-Distinct kind (d ∷ devices) workers dd dw =
    rw (map-append (λ g. g.device_id) (rows_of kind d workers) (rows_of_all kind devices workers)) (
      append-Distinct_apart (granted_ids (rows_of kind d workers))
        (granted_ids (rows_of_all kind devices workers)) (rows_of-Distinct kind d workers dw)
        (rows_of_all-Distinct kind devices workers dd.1 dw)
        (rows_of-apart kind d devices workers workers dd.0))

-- No device has two rows.
pub candidates-Distinct :
    (kind : String) (db : Db) → IsValid db → Distinct (granted_ids (candidates kind db))
unfolding candidates
candidates-Distinct kind db v =
    rw (candidates-eq-rows_of_all kind db.devices db.workers)
      (rows_of_all-Distinct kind db.devices db.workers v.stored.devices_once v.workers_once)
