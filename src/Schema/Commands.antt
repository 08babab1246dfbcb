-- ===== src/Schema/Commands.antt =====
-- What the control server and the workers ask of the database, in any order: each command is a transaction.
use i_cefarm.Prelude.{ℕ, String, true, Option, none, some, List, [], ◌∷◌, get_or, string_key}
use i_cefarm.Schema.{Db, DeviceStatus, delete_reservations, delete_devices, delete_workers}
use i_cefarm.Schema.Workers
use i_cefarm.Schema.Devices
use i_cefarm.Schema.Reservations
use i_cefarm.Schema.Reservations.{Grant}
use i_cefarm.Schema.Endings

pub data Command : Type 0 where
  add_worker : ℕ → String → String → ℕ → String → List String → Command
  shutdown_worker remove_worker : String → Command
  heartbeat_worker : ℕ → String → Command
  handle_worker_timeouts : ℕ → ℕ → Command
  add_device : String → String → Command
  update_device_status : String → DeviceStatus → Command
  make_reservations : (List Grant → List Grant) → ℕ → ℕ → String → String → Command
  make_specific_reservations : ℕ → String → List String → String → Command
  -- The writes of a reservation whose rows were found before other transactions were committed.
  write_reservations : String → ℕ → List Grant → Command
  extend_reservations : ℕ → String → List String → Command
  extend_all_reservations : ℕ → String → Command
  end_reservations : String → List String → Command
  end_all_reservations : String → Command
  handle_reservation_timeouts : ℕ → Command
  -- The deletions of all rows that the control server sends itself.
  clear_reservations clear_devices clear_workers : Command

abbrev pub state {ℓ} : {A : Type ℓ} → Option (A × Db) → Option Db
state none = none
state (some (a, db)) = some db

unfoldable pub perform : Command → Db → Option Db
perform (add_worker now id host port version reservables) db =
    Workers.add_worker now id host port version reservables db
perform (shutdown_worker wid) db = some (Workers.shutdown_worker wid db)
perform (remove_worker wid) db = state (Workers.remove_worker wid db)
perform (heartbeat_worker now wid) db = Workers.heartbeat_worker now wid db
perform (handle_worker_timeouts now s) db = some (Workers.handle_worker_timeouts now s db).1
perform (add_device did wid) db = Devices.add_device did wid db
perform (update_device_status did status) db = Devices.update_device_status did status db
perform (make_reservations order now amount client_name kind) db =
    state (Reservations.make_reservations order now amount client_name kind db)
perform (make_specific_reservations now client_name serial_ids kind) db =
    state (Reservations.make_specific_reservations now client_name serial_ids kind db)
perform (write_reservations client_name now res) db =
    state (Reservations.write_reservations client_name now res db)
perform (extend_reservations now client_name serial_ids) db =
    some (Reservations.extend_reservations now client_name serial_ids db).1
perform (extend_all_reservations now client_name) db =
    some (Reservations.extend_all_reservations now client_name db).1
perform (end_reservations client_name serial_ids) db =
    some (Endings.end_reservations client_name serial_ids db).1
perform (end_all_reservations client_name) db = some (Endings.end_all_reservations client_name db).1
perform (handle_reservation_timeouts now) db = some (Endings.handle_reservation_timeouts now db).1
perform clear_reservations db = some (delete_reservations (λ r. true) db)
perform clear_devices db = some (delete_devices (λ d. true) db)
perform clear_workers db = some (delete_workers (λ w. true) db)

-- A transaction that raises is undone.
unfoldable pub run : List Command → Db → Db
run [] db = db
run (command ∷ commands) db = run commands (get_or (perform command db) db)
