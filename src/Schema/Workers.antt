-- ===== src/Schema/Workers.antt =====
-- The procedures on workers: src/icefarm/control/flyway/migrations/V1.1__WorkerProc.sql, with the `add_worker`
-- of V1.5__UpsertWorker.sql, which replaces the one before.
use i_cefarm.Prelude.{
  ℕ, String, Bool, true, false, Option, none, some, List, map, contains, select, string_key, ◌==◌,
  if◌then◌else◌, ltb, ◌+◌, ◌*◌,
}
use i_cefarm.Schema.{
  Worker, Device, Reservation, Db, Answer, worker_ids, second, delete_workers, insert_worker, join,
}

-- The rows of a worker with that id go first, with its devices and their reservations.
unfoldable pub add_worker : ℕ → String → String → ℕ → String → List String → Db → Option Db
unfolding delete_workers insert_worker
add_worker now id host port farm_version reservables db =
    insert_worker
      (record {
        id = id;
        host = host;
        port = port;
        heartbeat = now;
        farm_version = farm_version;
        reservables = reservables;
        shutting_down = false;
      })
      (delete_workers (λ w. w.id == id) db)

unfoldable pub shutdown_worker : String → Db → Db
shutdown_worker wid db = record db {
  workers = map (λ w. if w.id == wid then record w { shutting_down = true } else w) db.workers;
}

-- For a worker that is known the query raises: it names `device.device_id`, which is no column of device, and
-- a bare `device_id`, which is a column and a result as well. So the deletion after it is never reached.
unfoldable pub remove_worker : String → Db → Answer (List (String × String))
remove_worker wid db = none

unfoldable pub heartbeat_worker : ℕ → String → Db → Option Db
heartbeat_worker now wid db =
    if contains wid (worker_ids db.workers)
    then some (record db {
      workers = map (λ w. if w.id == wid then record w { heartbeat = now } else w) db.workers;
    })
    else none

-- A row of `handle_worker_timeouts`.
pub record TimedOut : Type 0 where
  pub serial_id : String
  pub client_id : String
  pub worker_id : String

-- The rows of worker, device and reservations that belong together.
abbrev pub held_devices : Db → List ((Worker × Device) × Reservation)
held_devices db =
    join (λ wd r. r.device_id == wd.1.id) (join (λ w d. w.id == d.worker_id) db.workers db.devices)
      db.reservations

-- `heartbeat < t`
abbrev pub is_late : ℕ → ℕ → Worker → Bool
is_late now s w = ltb (w.heartbeat + s * second) now

unfoldable pub handle_worker_timeouts : ℕ → ℕ → Db → List TimedOut × Db
unfolding delete_workers join
handle_worker_timeouts now s db = (
  map
      (λ row. record {
        serial_id = row.0.1.id;
        client_id = row.1.client_id;
        worker_id = row.0.0.id;
      })
      (held_devices (record db { workers = select (is_late now s) db.workers })),
  delete_workers (is_late now s) db,
)
