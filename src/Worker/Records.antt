-- ===== src/Worker/Records.antt =====
-- `WorkerDatabase` of src/icefarm/worker/WorkerDatabase.py, over the tables and procedures of the database. Whether
-- the database can be reached is an argument; where it cannot, or a statement raises, nothing changes.
use i_cefarm.Prelude.{ℕ, String, Bool, true, false, Option, none, some, List, if◌then◌else◌}
use i_cefarm.Schema.{Db, DeviceStatus}
use i_cefarm.Schema.Workers
use i_cefarm.Schema.Devices
use i_cefarm.Schema.Reservations

-- `execute` of a call: whether it did not fail, and the database after it.
unfoldable pub call : Bool → Option Db → Db → Bool × Db
call connects none db = (false, db)
call connects (some db') db = if connects then (true, db') else (false, db)

module _ (connects : Bool) (worker_name : String) where
  -- `__init__`; none where it raises. The database's `__init__` has connected before.
  unfoldable pub init : ℕ → String → ℕ → String → List String → Db → Option Db
  unfolding call Workers.add_worker
  init now virtual_ip virtual_server_port farm_version reservables db =
      let (added, db') =
        call connects
          (Workers.add_worker now worker_name virtual_ip virtual_server_port farm_version
            reservables db)
          db in
      if added then some db' else none

  unfoldable pub add_device : String → Db → Bool × Db
  unfolding call Devices.add_device
  add_device deviceserial db = call connects (Devices.add_device deviceserial worker_name db) db

  unfoldable pub update_device_status : String → DeviceStatus → Db → Bool × Db
  unfolding call Devices.update_device_status
  update_device_status deviceserial status db =
      call connects (Devices.update_device_status deviceserial status db) db

  unfoldable pub enable_shut_down : Db → Bool × Db
  unfolding call Workers.shutdown_worker
  enable_shut_down db = call connects (some (Workers.shutdown_worker worker_name db)) db

  -- `hasReservations`; none where the query failed.
  unfoldable pub has_reservations : Db → Option Bool
  unfolding Reservations.has_reservations
  has_reservations db =
      if connects then some (Reservations.has_reservations worker_name db) else none

  -- `onExit`: its query is a selection, and so not a call.
  unfoldable pub on_exit : Db → Db
  unfolding Workers.remove_worker
  on_exit db = elim (Workers.remove_worker worker_name db) [
    | none ↦ db
    | some (rows, db') ↦ if connects then db' else db
  ]
