-- ===== src/Control/Webapp.antt =====
-- The web page of src/icefarm/control/webapp.py, from the rows of the database. What renders it is an argument, and so
-- are the formats of an url and of a link's json.
pub mod Counted
use i_cefarm.Prelude.{
  ℕ, ◌≡◌, refl, ap, ◌∙◌, String, Bool, true, false, ◌&&◌, Option, none, some, List, [], ◌∷◌, map,
  select, length, count, if◌then◌else◌, string_key, ◌==◌, ==_iff, arith, contains, Distinct, ◌++◌,
  ◌+◌, length-append,
}
use i_cefarm.Dict.{Dict, get, put}
use i_cefarm.Schema.{Db, Device, Reservation, DeviceStatus, reserved_ids, is_available}
use i_cefarm.Schema.Valid.{IsValid}
use i_cefarm.Schema.Reservations
use i_cefarm.Control.Commands.{Reply, value, failure, exception}
use i_cefarm.Control.Rows.{get_data, stringify_rows, stringify_row, zip_row}
use i_cefarm.Control.Cells.{
  Cell, text, number, texts, truth, null, ask, device_cells, left_join, status_text,
}
use i_cefarm.Control.Queries

pub record WorkerRow : Type 0 where
  pub name : Cell
  pub url : String
  pub version : Cell
  pub shutting_down : Cell
  pub reservables_list : Cell

pub record DeviceRow : Type 0 where
  pub serial : Cell
  pub worker : Cell
  pub status : Cell
  pub client_id : Cell
  pub end_reservation : String
  pub reboot : String
  pub delete : String

pub record Page : Type 0 where
  pub workers : List WorkerRow
  pub devices : List DeviceRow

-- `online` and `total`
abbrev pub online : Page → ℕ
online page = length page.workers

abbrev pub total : Page → ℕ
total page = length page.devices

-- Python's `==` of a cell and a text.
abbrev pub is_text : String → Cell → Bool
is_text s (text t) = t == s
is_text s (number n) = false
is_text s (truth b) = false
is_text s (texts ts) = false
is_text s null = false

unfoldable pub filter_status : String → List DeviceRow → ℕ
filter_status status rows = length (select (λ d. is_text status d.status) rows)

-- A `KeyError` ends the page.
infixl 5 ◌>>=◌
abbrev ◌>>=◌ : {A B : Type 0} → Option A → (A → Option B) → Option B
none >>= f = none
some a >>= f = f a

unfoldable pub all_rows : {A R : Type 0} → (A → Option R) → List A → Option (List R)
all_rows f [] = some []
all_rows f (entries ∷ rest) = do row ← f entries; rows ← all_rows f rest; some (row ∷ rows)

module _ (url : Cell → Cell → String) (link : String → Cell → Cell → String) where
  -- The row of a worker; none where a key is missing.
  unfoldable pub worker_row : Dict String Cell → Option WorkerRow
  worker_row r = do
    name ← get "name" r
    ip ← get "ip" r
    port ← get "port" r
    version ← get "version" r
    shutting_down ← get "shutting_down" r
    reservables ← get "reservables" r
    some (record {
      name = name;
      url = url ip port;
      version = version;
      shutting_down = shutting_down;
      reservables_list = reservables;
    })

  unfoldable pub device_row : Dict String Cell → Option DeviceRow
  device_row r = do
    serial ← get "serial" r
    worker ← get "worker" r
    status ← get "status" r
    client_id ← get "client_id" r
    some (record {
      serial = serial;
      worker = worker;
      status = status;
      client_id = client_id;
      end_reservation = link "./end" serial client_id;
      reboot = link "./reboot" serial client_id;
      delete = link "./delete" serial client_id;
    })

  -- The page's data; none where a query failed or a key is missing.
  unfoldable pub page :
      Reply (List (Dict String Cell)) → Reply (List (Dict String Cell)) → Option Page
  unfolding all_rows worker_row device_row
  page (value worker_data) (value device_data) = do
    workers ← all_rows worker_row worker_data
    devices ← all_rows device_row device_data
    some (record { workers = workers; devices = devices })
  page (value worker_data) failure = none
  page (value worker_data) exception = none
  page failure device_data = none
  page exception device_data = none

  unfoldable pub build_page :
      (Cell → Cell) → Bool → (ℕ → Cell) → (Page → Option String) → Db → String
  unfolding page Queries.get_workers Queries.get_devices
  build_page str connects timestamp render db =
      elim (page (Queries.get_workers str connects timestamp db)
          (Queries.get_devices str connects db)
        >>= render) [ none ↦ "Failed to fetch data" | some html ↦ html ]
