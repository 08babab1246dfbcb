-- ===== src/Schema/Endings.antt =====
-- The functions of src/icefarm/control/flyway/migrations/V1.3__ReservationProc.sql that end reservations.
use i_cefarm.Prelude.{ℕ, String, ◌&&◌, List, map, contains, string_key, ◌==◌, select, ltb}
use i_cefarm.Schema.{
  Worker, Device, Reservation, Db, reserved_ids, await_flash_default, delete_reservations,
  set_status, join,
}

-- A row of a function that ends reservations; `handle_reservation_timeouts` alone returns the client.
pub record Ended : Type 0 where
  pub device_id : String
  pub client_id : String
  pub worker_host : String
  pub worker_port : ℕ

abbrev pub to_ended : ((String × Reservation) × Device) × Worker → Ended
to_ended row = record {
  device_id = row.0.0.0;
  client_id = row.0.0.1.client_id;
  worker_host = row.1.host;
  worker_port = row.1.port;
}

-- The rows that are returned for the devices in the temporary table.
unfoldable pub ended_rows : List String → Db → List Ended
unfolding join
ended_rows res db = map to_ended (
    join (λ row w. row.1.worker_id == w.id)
      (join (λ row d. row.0 == d.id)
        (join (λ device_id r. device_id == r.device_id) res db.reservations) db.devices)
      db.workers)

-- What the three functions do with the devices in the temporary table.
unfoldable pub release : List String → Db → List Ended × Db
unfolding ended_rows delete_reservations set_status
release res db = (
  ended_rows res db,
  set_status (λ d. contains d.id res) await_flash_default
      (delete_reservations (λ r. contains r.device_id res) db),
)

unfoldable pub end_reservations : String → List String → Db → List Ended × Db
unfolding release
end_reservations client_name serial_ids db =
    release
      (reserved_ids (
        select (λ r. r.client_id == client_name && contains r.device_id serial_ids)
          db.reservations))
      db

unfoldable pub end_all_reservations : String → Db → List Ended × Db
unfolding release
end_all_reservations client_name db =
    release (reserved_ids (select (λ r. r.client_id == client_name) db.reservations)) db

unfoldable pub handle_reservation_timeouts : ℕ → Db → List Ended × Db
unfolding release
handle_reservation_timeouts now db =
    release (reserved_ids (select (λ r. ltb r.until now) db.reservations)) db
