-- ===== src/Schema/Devices.antt =====
-- The procedures on devices: src/icefarm/control/flyway/migrations/V1.2__DeviceProc.sql.
use i_cefarm.Prelude.{
  ℕ, String, Option, none, some, List, map, contains, string_key, ◌==◌, if◌then◌else◌, select,
}
use i_cefarm.Schema.{
  Db, DeviceStatus, await_flash_default, worker_ids, device_ids, set_status, insert_device, join,
}

unfoldable pub add_device : String → String → Db → Option Db
add_device did wid db =
    if contains wid (worker_ids db.workers)
    then if contains did (device_ids db.devices)
      then none
      else insert_device (record { id = did; worker_id = wid; device_status = await_flash_default })
          db
    else none

unfoldable pub update_device_status : String → DeviceStatus → Db → Option Db
unfolding set_status
update_device_status did status db =
    if contains did (device_ids db.devices)
    then some (set_status (λ d. d.id == did) status db)
    else none

-- The address and the port of a device's worker.
unfoldable pub get_device_worker : String → Db → Option (List (String × ℕ))
unfolding join
get_device_worker device_id db =
    if contains device_id (device_ids db.devices)
    then some (
        map (λ row. (row.1.host, row.1.port))
          (join (λ d w. d.worker_id == w.id) (select (λ d. d.id == device_id) db.devices)
            db.workers))
    else none
