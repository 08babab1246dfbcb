-- ===== src/Control/Cells.antt =====
-- What a query gives, cell by cell, and the loops of src/icefarm/control/ControlDatabase.py over rows. A query fails
-- where the database cannot be reached or the statement raises.
use i_cefarm.Prelude.{
  ℕ, String, Bool, true, false, Option, none, some, List, [], ◌∷◌, if◌then◌else◌, map, string_key,
  ◌==◌, select, ◌++◌,
}
use i_cefarm.Dict.{Dict, get}
use i_cefarm.Schema
use i_cefarm.Schema.{Db, DeviceStatus, join, delete_reservations, delete_devices, delete_workers}
use i_cefarm.Schema.Workers
use i_cefarm.Schema.Reservations
use i_cefarm.Schema.Endings
use i_cefarm.Control.Commands.{Reply, value, failure, exception}

pub data Cell : Type 0 where
  text : String → Cell
  number : ℕ → Cell
  truth : Bool → Cell
  texts : List String → Cell
  null : Cell

abbrev pub Table : Type 0
Table = List (List Cell)

-- A query, with its rows and the database after it: no rows where it fails.
unfoldable pub ask :
    {A : Type 0} → Bool → (A → List Cell) → Option (List A × Db) → Db → Option Table × Db
ask connects cells none db = (none, db)
ask connects cells (some (rows, db')) db =
    if connects then (some (map cells rows), db') else (none, db)

-- `proc`
unfoldable pub proc : Bool → Option Db → Db → Bool × Db
proc connects none db = (false, db)
proc connects (some db') db = if connects then (true, db') else (false, db)

abbrev pub grant_cells : Reservations.Grant → List Cell
grant_cells g = text g.device_id ∷ text g.worker_host ∷ number g.worker_port ∷ []

abbrev pub ended_cells : Endings.Ended → List Cell
ended_cells e = text e.device_id ∷ text e.worker_host ∷ number e.worker_port ∷ []

abbrev pub timeout_cells : Endings.Ended → List Cell
timeout_cells e =
    text e.device_id ∷ text e.client_id ∷ text e.worker_host ∷ number e.worker_port ∷ []

abbrev pub late_cells : Workers.TimedOut → List Cell
late_cells row = text row.serial_id ∷ text row.client_id ∷ text row.worker_id ∷ []

abbrev pub worker_cells : (ℕ → Cell) → Schema.Worker → List Cell
worker_cells timestamp w =
    text w.id
    ∷ text w.host
    ∷ number w.port
    ∷ timestamp w.heartbeat
    ∷ text w.farm_version
    ∷ texts w.reservables
    ∷ truth w.shutting_down
    ∷ []

unfoldable pub status_text : DeviceStatus → String
status_text DeviceStatus.available = "available"
status_text DeviceStatus.reserved = "reserved"
status_text DeviceStatus.await_flash_default = "await_flash_default"
status_text DeviceStatus.flashing_default = "flashing_default"
status_text DeviceStatus.testing = "testing"
status_text DeviceStatus.broken = "broken"

-- A row of the view device_reservations: a device, with its client if it is reserved.
abbrev pub device_cells : Schema.Device × Option String → List Cell
device_cells (d, client) =
    text d.id
    ∷ text d.worker_id
    ∷ text (status_text d.device_status)
    ∷ elim client [ none ↦ null | some client_id ↦ text client_id ]
    ∷ []

-- The left join of a device: a row for each of its reservations, or one without a client.
unfoldable pub left_join :
    List Schema.Device → List Schema.Reservation → List (Schema.Device × Option String)
left_join [] reservations = []
left_join (d ∷ devices) reservations = elim (select (λ r. r.device_id == d.id) reservations) [
  | [] ↦ (d, none) ∷ left_join devices reservations
  | r ∷ rs ↦
      (d, some r.client_id)
      ∷ (map (λ s. (d, some s.client_id)) rs ++ left_join devices reservations)
]

-- A query that only reads.
abbrev pub unchanged : {A : Type 0} → Option (List A) → Db → Option (List A × Db)
unchanged none db = none
unchanged (some rows) db = some (rows, db)

unfoldable pub heads : Table → Reply (List Cell)
heads [] = value []
heads ([] ∷ rows) = exception
heads ((cell ∷ row) ∷ rows) = elim (heads rows) [
  | value cells ↦ value (cell ∷ cells)
  | failure ↦ failure
  | exception ↦ exception
]

-- The first cell of each row; Python's False where there are no rows.
unfoldable pub first_cells : Option Table → Reply (List Cell)
unfolding heads
first_cells none = failure
first_cells (some []) = failure
first_cells (some (row ∷ rows)) = heads (row ∷ rows)

-- `row[key]` of each row.
unfoldable pub pick : String → List (Dict String Cell) → Reply (List Cell)
pick key [] = value []
pick key (entries ∷ rest) = elim (get key entries) [
  | none ↦ exception
  | some cell ↦ elim (pick key rest) [
    | value cells ↦ value (cell ∷ cells)
    | failure ↦ failure
    | exception ↦ exception
  ]
]
