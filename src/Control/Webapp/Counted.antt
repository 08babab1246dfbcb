-- ===== src/Control/Webapp/Counted.antt =====
-- What the page counts is what the database holds.
use i_cefarm.Prelude.{
  ℕ, ◌≡◌, refl, ap, sym, ◌∙◌, subst, String, true, false, Option, none, some, List, [], ◌∷◌, map,
  select, length, count, string_key, ◌==◌, ==_iff, arith, contains, Distinct, ◌++◌, length-map,
  Bool-cases, inl, inr,
}
use i_cefarm.Dict.{Dict, get, put}
use i_cefarm.Schema.{
  Db, Device, Worker, Reservation, DeviceStatus, available, reserved, await_flash_default,
  flashing_default, testing, broken, reserved_ids, is_available,
}
use i_cefarm.Schema.Valid.{IsValid}
use i_cefarm.Schema.Reservations.{get_amount_available}
use i_cefarm.Control.Commands.{value, exception}
use i_cefarm.Control.Rows.{get_data, stringify_rows, stringify_row, zip_row}
use i_cefarm.Control.Cells.{
  Cell, text, number, texts, truth, null, ask, device_cells, worker_cells, left_join, status_text,
}
use i_cefarm.Control.Queries.{get_workers, get_devices}
use i_cefarm.Control.Webapp.{
  WorkerRow, DeviceRow, Page, page, device_row, worker_row, all_rows, filter_status, online, total,
}

-- The view has a row for each device, since a device has one reservation at most.
rows_of_device :
    (d : Device) (rows : List Reservation) (later : List (Device × Option String))
    → Distinct (reserved_ids rows)
    → (map
        (λ p. p.0)
        (elim (select (λ r. r.device_id == d.id) rows) [
          | [] ↦ (d, none) ∷ later
          | r ∷ rs ↦ (d, some r.client_id) ∷ (map (λ s. (d, some s.client_id)) rs ++ later)
        ]))
      ≡ d ∷ map (λ p. p.0) later
rows_of_device d [] later h = refl
rows_of_device d (r ∷ rows) later h = elim (Bool-cases (r.device_id == d.id)) [
  | inl e ↦
      let gone =
        none_left d.id rows (
          subst (λ x. contains x (reserved_ids rows) ≡ false) ((==_iff r.device_id d.id).0 e)
            h.0) in
      rw (e, gone) refl
  | inr e ↦ rw e (rows_of_device d rows later h.1)
]
  where
    none_left :
        (id : String) (rs : List Reservation)
        → contains id (reserved_ids rs) ≡ false
        → select (λ r. r.device_id == id) rs ≡ []
    none_left id [] n = refl
    none_left id (s ∷ rs) n = ground (arith, none_left id rs)

left_join-devices :
    (devices : List Device) (rows : List Reservation)
    → Distinct (reserved_ids rows)
    → map (λ p. p.0) (left_join devices rows) ≡ devices
unfolding left_join
left_join-devices [] rows h = refl
left_join-devices (d ∷ devices) rows h =
    rows_of_device d rows (left_join devices rows) h ∙ ap (◌∷◌ d) (left_join-devices devices rows h)

abbrev client_cell : Option String → Cell
client_cell none = null
client_cell (some client_id) = text client_id

is_available-status_text :
    (status : DeviceStatus) → (status_text status == "available") ≡ is_available status
unfolding status_text
is_available-status_text available = refl
is_available-status_text reserved = refl
is_available-status_text await_flash_default = refl
is_available-status_text flashing_default = refl
is_available-status_text testing = refl
is_available-status_text broken = refl

-- `str` leaves a text as it is.
module _ (str : Cell → Cell) (str_text : (s : String) → str (text s) ≡ text s)
    (url : Cell → Cell → String) (link : String → Cell → Cell → String) (timestamp : ℕ → Cell) where
  abbrev device_entry : Device × Option String → Dict String Cell
  device_entry p =
      ("serial", text p.0.id)
      ∷ ("worker", text p.0.worker_id)
      ∷ ("status", str (text (status_text p.0.device_status)))
      ∷ ("client_id", client_cell p.1)
      ∷ []

  abbrev shown_device : Device × Option String → DeviceRow
  shown_device p = record {
    serial = text p.0.id;
    worker = text p.0.worker_id;
    status = str (text (status_text p.0.device_status));
    client_id = client_cell p.1;
    end_reservation = link "./end" (text p.0.id) (client_cell p.1);
    reboot = link "./reboot" (text p.0.id) (client_cell p.1);
    delete = link "./delete" (text p.0.id) (client_cell p.1);
  }

  entries-devices :
      (rows : List (Device × Option String))
      → stringify_rows str ("status" ∷ []) (
          map
            (λ row. zip_row ("serial" ∷ "worker" ∷ "status" ∷ "client_id" ∷ []) row [])
            (map device_cells rows))
        ≡ some (map device_entry rows)
  unfolding stringify_rows stringify_row zip_row get put
  entries-devices [] = refl
  entries-devices ((d, none) ∷ rows) = rw (entries-devices rows) refl
  entries-devices ((d, some client_id) ∷ rows) = rw (entries-devices rows) refl

  rows-devices :
      (rows : List (Device × Option String))
      → all_rows (device_row url link) (map device_entry rows) ≡ some (map shown_device rows)
  unfolding all_rows device_row get
  rows-devices [] = refl
  rows-devices (p ∷ rows) = rw (rows-devices rows) refl

  abbrev worker_entry : Worker → Dict String Cell
  worker_entry w =
      ("name", text w.id)
      ∷ ("ip", str (text w.host))
      ∷ ("port", str (number w.port))
      ∷ ("heartbeat", timestamp w.heartbeat)
      ∷ ("version", text w.farm_version)
      ∷ ("reservables", texts w.reservables)
      ∷ ("shutting_down", truth w.shutting_down)
      ∷ []

  abbrev shown_worker : Worker → WorkerRow
  shown_worker w = record {
    name = text w.id;
    url = url (str (text w.host)) (str (number w.port));
    version = text w.farm_version;
    shutting_down = truth w.shutting_down;
    reservables_list = texts w.reservables;
  }

  entries-workers :
      (rows : List Worker)
      → stringify_rows str ("ip" ∷ "port" ∷ []) (
          map
            (λ row.
              zip_row
                ("name" ∷ "ip" ∷ "port" ∷ "heartbeat" ∷ "version" ∷ "reservables" ∷ "shutting_down"
                  ∷ [])
                row
                [])
            (map (worker_cells timestamp) rows))
        ≡ some (map worker_entry rows)
  unfolding stringify_rows stringify_row zip_row get put
  entries-workers [] = refl
  entries-workers (w ∷ rows) = rw (entries-workers rows) refl

  rows-workers :
      (rows : List Worker)
      → all_rows (worker_row url link) (map worker_entry rows) ≡ some (map shown_worker rows)
  unfolding all_rows worker_row get
  rows-workers [] = refl
  rows-workers (w ∷ rows) = rw (rows-workers rows) refl

  got-devices :
      (db : Db)
      → get_devices str true db ≡ value (map device_entry (left_join db.devices db.reservations))
  unfolding get_devices get_data ask
  got-devices db =
      ap (λ o. elim o [ none ↦ exception | some entries ↦ value entries ])
        (entries-devices (left_join db.devices db.reservations))

  got-workers : (db : Db) → get_workers str true timestamp db ≡ value (map worker_entry db.workers)
  unfolding get_workers get_data ask
  got-workers db =
      ap (λ o. elim o [ none ↦ exception | some entries ↦ value entries ])
        (entries-workers db.workers)

  abbrev shown : Db → Page
  shown db = record {
    workers = map shown_worker db.workers;
    devices = map shown_device (left_join db.devices db.reservations);
  }

  page-shown :
      (db : Db)
      → page url link (get_workers str true timestamp db) (get_devices str true db)
        ≡ some (shown db)
  unfolding page
  page-shown db =
      rw (got-workers db, got-devices db)
        (rw (rows-workers db.workers, rows-devices (left_join db.devices db.reservations)) refl)

  filter_status-rows :
      (status : String) (rows : List (Device × Option String))
      → filter_status status (map shown_device rows)
        ≡ count (λ d. status_text d.device_status == status) (map (λ p. p.0) rows)
  unfolding filter_status
  filter_status-rows status [] = refl
  filter_status-rows status (p ∷ rows) =
      rw (str_text (status_text p.0.device_status))
        (elim (Bool-cases (status_text p.0.device_status == status)) [
          | inl e ↦ rw e (omega (arith, filter_status-rows status rows))
          | inr e ↦ rw e (omega (arith, filter_status-rows status rows))
        ])

  count-available :
      (devices : List Device)
      → count (λ d. status_text d.device_status == "available") devices
        ≡ count (λ d. is_available d.device_status) devices
  count-available [] = refl
  count-available (d ∷ devices) =
      rw (is_available-status_text d.device_status) (omega (arith, count-available devices))

  -- Where keys and references hold, and the database can be reached, the page has a row for each worker and one for
  -- each device. It counts as many devices of each status as the database has, and as available those that
  -- `get_amount_available` counts.
  pub page-counts :
      (db : Db)
      → IsValid db
      → (p : Page) × (page url link (get_workers str true timestamp db) (get_devices str true db)
          ≡ some p)
        × (online p ≡ length db.workers)
        × (total p ≡ length db.devices)
        × ((status : String)
            → filter_status status p.devices
              ≡ count (λ d. status_text d.device_status == status) db.devices)
        × (filter_status "available" p.devices ≡ get_amount_available db)
  unfolding get_amount_available
  page-counts db v =
      let once = left_join-devices db.devices db.reservations v.stored.reserved_once in
      let counted = λ (status : String).
        filter_status-rows status (left_join db.devices db.reservations)
        ∙ ap (count (λ d. status_text d.device_status == status)) once in
      (
        shown db,
        page-shown db,
        length-map shown_worker db.workers,
        length-map shown_device (left_join db.devices db.reservations)
            ∙ (sym (
                  length-map (λ (p : Device × Option String). p.0)
                    (left_join db.devices db.reservations))
                ∙ ap length once),
        counted,
        counted "available" ∙ count-available db.devices,
      )
