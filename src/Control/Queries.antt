-- ===== src/Control/Queries.antt =====
-- `ControlDatabase` of src/icefarm/control/ControlDatabase.py, over the tables and functions of the database. Each
-- method is one transaction (`clearWorkers` two), which fails without effect where the database cannot be
-- reached or the statement raises. `str`, of a cell, is an argument.
use i_cefarm.Prelude.{ℕ, String, Bool, true, Option, none, some, List, [], ◌∷◌, string_key}
use i_cefarm.Dict.{Dict}
use i_cefarm.Schema.{Db, delete_reservations, delete_devices, delete_workers}
use i_cefarm.Schema.Workers
use i_cefarm.Schema.Devices
use i_cefarm.Schema.Reservations
use i_cefarm.Schema.Endings
use i_cefarm.Control.Commands.{Reply, value, failure, exception}
use i_cefarm.Control.Rows
use i_cefarm.Control.Rows.{get_data}
use i_cefarm.Control.Cells.{
  Cell, text, number, ask, proc, grant_cells, ended_cells, timeout_cells, late_cells, worker_cells,
  device_cells, left_join, unchanged, first_cells, pick,
}

module _ (str : Cell → Cell) (connects : Bool) where
  unfoldable pub get_device_worker_url : (Cell → Cell → String) → String → Db → Reply String
  unfolding ask Rows.get_device_worker_url
  get_device_worker_url url serial db =
      Rows.get_device_worker_url url
        (ask connects (λ row. text row.0 ∷ number row.1 ∷ [])
          (unchanged (Devices.get_device_worker serial db) db) db).0

  unfoldable pub reserve :
      (List Reservations.Grant → List Reservations.Grant)
      → ℕ
      → ℕ
      → String
      → String
      → Db
      → Reply (List (Dict String Cell)) × Db
  unfolding ask get_data
  reserve order now amount clientname reservation_type db =
      let (found, db') =
        ask connects grant_cells
          (Reservations.make_reservations order now amount clientname reservation_type db) db in
      (get_data str found ("serial" ∷ "ip" ∷ "serverport" ∷ []) ("ip" ∷ []), db')

  unfoldable pub reserve_serials :
      ℕ → String → List String → String → Db → Reply (List (Dict String Cell)) × Db
  unfolding ask get_data
  reserve_serials now client_id serials kind db =
      let (found, db') =
        ask connects grant_cells
          (Reservations.make_specific_reservations now client_id serials kind db) db in
      (get_data str found ("serial" ∷ "ip" ∷ "serverport" ∷ []) ("ip" ∷ []), db')

  unfoldable pub extend : ℕ → String → List String → Db → Reply (List Cell) × Db
  unfolding ask Rows.extend
  extend now name serials db =
      let (found, db') =
        ask connects (λ serial. text serial ∷ [])
          (some (Reservations.extend_reservations now name serials db)) db in
      (Rows.extend found, db')

  unfoldable pub extend_all : ℕ → String → Db → Reply (List Cell) × Db
  unfolding ask Rows.extend
  extend_all now name db =
      let (found, db') =
        ask connects (λ serial. text serial ∷ [])
          (some (Reservations.extend_all_reservations now name db)) db in
      (Rows.extend found, db')

  unfoldable pub end : String → List String → Db → Reply (List (Dict String Cell)) × Db
  unfolding ask get_data
  end name serials db =
      let (found, db') =
        ask connects ended_cells (some (Endings.end_reservations name serials db)) db in
      (
        get_data str found ("serial" ∷ "workerip" ∷ "workerport" ∷ [])
            ("workerip" ∷ "workerport" ∷ []),
        db',
      )

  unfoldable pub end_all : String → Db → Reply (List (Dict String Cell)) × Db
  unfolding ask get_data
  end_all name db =
      let (found, db') =
        ask connects ended_cells (some (Endings.end_all_reservations name db)) db in
      (
        get_data str found ("serial" ∷ "workerip" ∷ "workerport" ∷ [])
            ("workerip" ∷ "workerport" ∷ []),
        db',
      )

  unfoldable pub get_workers : (ℕ → Cell) → Db → Reply (List (Dict String Cell))
  unfolding ask get_data
  get_workers timestamp db =
      get_data str (ask connects (worker_cells timestamp) (some (db.workers, db)) db).0
        ("name" ∷ "ip" ∷ "port" ∷ "heartbeat" ∷ "version" ∷ "reservables" ∷ "shutting_down" ∷ [])
        ("ip" ∷ "port" ∷ [])

  unfoldable pub get_devices : Db → Reply (List (Dict String Cell))
  unfolding ask get_data left_join
  get_devices db =
      get_data str
        (ask connects device_cells (some (left_join db.devices db.reservations, db)) db).0
        ("serial" ∷ "worker" ∷ "status" ∷ "client_id" ∷ []) ("status" ∷ [])

  unfoldable pub heartbeat_worker : ℕ → String → Db → Bool × Db
  unfolding proc
  heartbeat_worker now name db = proc connects (Workers.heartbeat_worker now name db) db

  unfoldable pub get_worker_timeouts : ℕ → ℕ → Db → Reply (List (Dict String Cell)) × Db
  unfolding ask get_data
  get_worker_timeouts now timeout_dur db =
      let (found, db') =
        ask connects late_cells (some (Workers.handle_worker_timeouts now timeout_dur db)) db in
      (get_data str found ("serial" ∷ "client_id" ∷ "worker" ∷ []) [], db')

  unfoldable pub get_reservation_ending_soon : ℕ → ℕ → Db → Reply (List Cell)
  unfolding ask first_cells
  get_reservation_ending_soon now minutes db =
      first_cells
        (ask connects (λ serial. text serial ∷ [])
          (some (Reservations.get_reservations_ending_soon now minutes db, db)) db).0

  unfoldable pub get_reservation_timeouts : ℕ → Db → Reply (List (Dict String Cell)) × Db
  unfolding ask get_data
  get_reservation_timeouts now db =
      let (found, db') =
        ask connects timeout_cells (some (Endings.handle_reservation_timeouts now db)) db in
      (
        get_data str found ("serial" ∷ "client_id" ∷ "workerip" ∷ "workerport" ∷ [])
            ("workerip" ∷ "workerport" ∷ []),
        db',
      )

  unfoldable pub end_all_reservations : Db → Db
  unfolding proc
  end_all_reservations db = (proc connects (some (delete_reservations (λ r. true) db)) db).1

  unfoldable pub clear_devices : Db → Db
  unfolding proc
  clear_devices db = (proc connects (some (delete_devices (λ d. true) db)) db).1

  -- Two transactions, of which either may fail.
  unfoldable pub clear_workers : Bool → Db → Db
  unfolding proc
  clear_workers connects_again db =
      let db' = (proc connects (some (delete_devices (λ d. true) db)) db).1 in
      (proc connects_again (some (delete_workers (λ w. true) db')) db').1

  unfoldable pub get_amount_available : Db → Reply Cell
  unfolding ask Rows.get_amount_available
  get_amount_available db =
      Rows.get_amount_available
        (ask connects (λ amount. number amount ∷ [])
          (some (Reservations.get_amount_available db ∷ [], db)) db).0

  unfoldable pub get_devices_available : Db → Reply (List Cell)
  unfolding ask get_data pick
  get_devices_available db =
      elim (get_data str
        (ask connects (λ serial. text serial ∷ [])
          (some (Reservations.get_available_devices db, db)) db).0
        ("serial_ids" ∷ []) []) [
          | value rows ↦ pick "serial_ids" rows
          | failure ↦ failure
          | exception ↦ exception
        ]

-- `EventSender.getDeviceCallback`: none where there is no reservation, and a failure for its False.
unfoldable pub get_device_callback : Bool → String → Db → Reply (Option Cell)
unfolding ask
get_device_callback connects serial db =
    elim (ask connects (λ client_id. text client_id ∷ [])
      (unchanged (Reservations.get_device_callback serial db) db) db).0 [
        | none ↦ failure
        | some [] ↦ value none
        | some ([] ∷ rows) ↦ exception
        | some ((cell ∷ row) ∷ rows) ↦ value (some cell)
      ]
