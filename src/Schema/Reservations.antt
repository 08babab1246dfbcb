-- ===== src/Schema/Reservations.antt =====
-- The functions of src/icefarm/control/flyway/migrations/V1.3__ReservationProc.sql that make, extend and read
-- reservations.
use i_cefarm.Prelude.{
  ℕ, ◌+◌, ◌*◌, String, Bool, not, ◌&&◌, Option, none, some, List, map, contains, string_key, ◌==◌,
  if◌then◌else◌, select, take, length, count, eqb, ltb, is_nonempty,
}
use i_cefarm.Schema.{
  Worker, Device, Reservation, Db, Answer, reserved, is_available, device_ids, reserved_ids, hour,
  second, set_status, insert_reservations, join,
}

-- A row of the temporary table, of a device that is to be reserved or released.
pub record Grant : Type 0 where
  pub device_id : String
  pub worker_host : String
  pub worker_port : ℕ

abbrev pub granted_ids : List Grant → List String
granted_ids = map (λ g. g.device_id)

-- A device, of its worker, that can be reserved for a use.
abbrev pub can_reserve : String → Device × Worker → Bool
can_reserve kind row =
    is_available row.0.device_status && (contains kind row.1.reservables && not row.1.shutting_down)

abbrev pub to_grant : Device × Worker → Grant
to_grant row = record { device_id = row.0.id; worker_host = row.1.host; worker_port = row.1.port }

unfoldable pub candidates : String → Db → List Grant
unfolding join
candidates kind db =
    map to_grant
      (select (can_reserve kind) (join (λ d w. w.id == d.worker_id) db.devices db.workers))

abbrev pub new_reservation : String → ℕ → Grant → Reservation
new_reservation client_name now g = record {
  device_id = g.device_id;
  client_id = client_name;
  until = now + hour;
}

-- The writes of both functions that reserve, for the rows that were found: the devices become reserved, and
-- then their reservations are inserted.
unfoldable pub write_reservations : String → ℕ → List Grant → Db → Answer (List Grant)
unfolding set_status insert_reservations
write_reservations client_name now res db =
    elim (insert_reservations (map (new_reservation client_name now) res)
      (set_status (λ d. contains d.id (granted_ids res)) reserved db)) [
        | none ↦ none
        | some db' ↦ some (res, db')
      ]

-- `order` is the order in which the database happens to find rows.
unfoldable pub make_reservations :
    (List Grant → List Grant) → ℕ → ℕ → String → String → Db → Answer (List Grant)
unfolding candidates write_reservations
make_reservations order now amount client_name reservation_type db =
    let res = take amount (order (candidates reservation_type db)) in
    if eqb (length res) amount then write_reservations client_name now res db else none

unfoldable pub make_specific_reservations :
    ℕ → String → List String → String → Db → Answer (List Grant)
unfolding candidates write_reservations
make_specific_reservations now client_name serial_ids reservation_type db =
    let res = select (λ g. contains g.device_id serial_ids) (candidates reservation_type db) in
    if eqb (length res) (length serial_ids) then write_reservations client_name now res db else none

unfoldable pub get_amount_available : Db → ℕ
get_amount_available db = count (λ d. is_available d.device_status) db.devices

unfoldable pub get_available_devices : Db → List String
get_available_devices db = device_ids (select (λ d. is_available d.device_status) db.devices)

-- The query joins the tables, and does not name the worker.
unfoldable pub has_reservations : String → Db → Bool
unfolding join
has_reservations wid db = is_nonempty (
    join (λ rd w. w.id == rd.1.worker_id)
      (join (λ r d. r.device_id == d.id) db.reservations db.devices) db.workers)

-- The reservations that a predicate picks last another hour; their devices are returned.
unfoldable pub extend_where : (Reservation → Bool) → ℕ → Db → List String × Db
extend_where p now db = (
  reserved_ids (select p db.reservations),
  record db {
    reservations = map (λ r. if p r then record r { until = now + hour } else r) db.reservations;
  },
)

unfoldable pub extend_reservations : ℕ → String → List String → Db → List String × Db
unfolding extend_where
extend_reservations now client_name serial_ids db =
    extend_where (λ r. contains r.device_id serial_ids && r.client_id == client_name) now db

unfoldable pub extend_all_reservations : ℕ → String → Db → List String × Db
unfolding extend_where
extend_all_reservations now client_name db = extend_where (λ r. r.client_id == client_name) now db

unfoldable pub get_reservations_ending_soon : ℕ → ℕ → Db → List String
get_reservations_ending_soon now mins db =
    reserved_ids (select (λ r. ltb r.until (now + second * mins)) db.reservations)

unfoldable pub get_device_callback : String → Db → Option (List String)
get_device_callback did db =
    if contains did (device_ids db.devices)
    then some (map (λ r. r.client_id) (select (λ r. did == r.device_id) db.reservations))
    else none
