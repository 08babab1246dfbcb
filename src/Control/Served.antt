-- ===== src/Control/Served.antt =====
-- The methods of src/icefarm/control/Control.py on reservations, down to the tables: what a client is answered, and
-- what it then holds.
use mathlib.Core.List.{map-map}
use i_cefarm.Prelude.{
  ◌≡◌, refl, ap, sym, ◌∙◌, String, Bool, true, false, ◌&&◌, none, some, List, [], ◌∷◌, map, select,
  contains, if◌then◌else◌, string_key, ◌==◌, arith, All, ==_iff,
}
use i_cefarm.Dict.{Dict, get, put}
use i_cefarm.Schema.{Db, Reservation, reserved_ids}
use i_cefarm.Schema.Endings
use i_cefarm.Schema.Endings.{Ended, ended_rows}
use i_cefarm.Schema.Rows.{contains-of-select}
use i_cefarm.Schema.Valid.{IsIn, IsValid}
use i_cefarm.Schema.Leases.{lease_of, unless}
use i_cefarm.Schema.Refined.{lease-release}
use i_cefarm.Schema.Joined.{ended_rows-devices}
use i_cefarm.Control.Commands.{Reply, value, failure, exception}
use i_cefarm.Control.Rows.{get_data, stringify_rows, stringify_row, zip_row}
use i_cefarm.Control.Cells.{Cell, text, number, ended_cells, pick}
use i_cefarm.Control.Queries

-- The serials of the rows that the database returned; mapping over its False raises.
unfoldable pub serials_of : Reply (List (Dict String Cell)) → Reply (List Cell)
unfolding pick
serials_of (value rows) = pick "serial" rows
serials_of failure = exception
serials_of exception = exception

module _ (str : Cell → Cell) (connects : Bool) where
  unfoldable pub end : String → List String → Db → Reply (List Cell) × Db
  unfolding serials_of Queries.end
  end client_id serials db =
      let (found, db') = Queries.end str connects client_id serials db in (serials_of found, db')

  unfoldable pub end_all : String → Db → Reply (List Cell) × Db
  unfolding serials_of Queries.end_all
  end_all client_id db =
      let (found, db') = Queries.end_all str connects client_id db in (serials_of found, db')

-- A row as the client's dictionary.
abbrev entry : (Cell → Cell) → Ended → Dict String Cell
entry str e =
    ("serial", text e.device_id)
    ∷ ("workerip", str (text e.worker_host))
    ∷ ("workerport", str (number e.worker_port))
    ∷ []

abbrev ended_columns : List String
ended_columns = "serial" ∷ "workerip" ∷ "workerport" ∷ []

module _ (str : Cell → Cell) where
  entries-rows :
      (rows : List Ended)
      → stringify_rows str
          ("workerip" ∷ "workerport" ∷ [])
          (map (λ row. zip_row ended_columns row []) (map ended_cells rows))
        ≡ some (map (entry str) rows)
  unfolding stringify_rows stringify_row zip_row get put
  entries-rows [] = refl
  entries-rows (e ∷ rows) = rw (entries-rows rows) refl

  pick-entries :
      (rows : List Ended)
      → pick "serial" (map (entry str) rows) ≡ value (map (λ e. text e.device_id) rows)
  unfolding pick get
  pick-entries [] = refl
  pick-entries (e ∷ rows) = rw (pick-entries rows) refl

  serials-rows :
      (rows : List Ended)
      → serials_of (
          get_data str (some (map ended_cells rows)) ended_columns ("workerip" ∷ "workerport" ∷ []))
        ≡ value (map text (map (λ e. e.device_id) rows))
  unfolding get_data serials_of
  serials-rows rows =
      ap (λ o. serials_of (elim o [ none ↦ exception | some entries ↦ value entries ]))
        (entries-rows rows)
      ∙ (pick-entries rows ∙ ap value (sym (map-map text (λ (e : Ended). e.device_id) rows)))

-- The devices that an ending picks are reserved.
picked-reserved :
    (p : Reservation → Bool) (rows : List Reservation)
    → All (IsIn (reserved_ids rows)) (reserved_ids (select p rows))
picked-reserved p rows =
    All-of_select (λ x h. contains-of-select (λ (r : Reservation). r.device_id) p x rows h)
      (reserved_ids (select p rows)) (λ x h. h)
  where
    All-of_select :
        ((x : String)
          → contains x (reserved_ids (select p rows)) ≡ true
          → IsIn (reserved_ids rows) x)
        → (ids : List String)
        → ((x : String) → contains x ids ≡ true → contains x (reserved_ids (select p rows)) ≡ true)
        → All (IsIn (reserved_ids rows)) ids
    All-of_select f [] among = tt
    All-of_select f (id ∷ ids) among = (
      f id (among id (ground (arith, ==_iff id id))),
      All-of_select f ids (λ x h. among x (ground arith)),
    )

-- What an ending answers, and what it leaves of each lease, by the reservations that it picks.
abbrev pub Ends : Db → Bool → (Reservation → Bool) → Reply (List Cell) × Db → Type 0
Ends db connects p answer =
    (answer.0 ≡ (
      if connects then value (map text (reserved_ids (select p db.reservations))) else exception))
    × ((device : String)
        → lease_of device answer.1.reservations ≡ (
            if connects
            then unless p (lease_of device db.reservations)
            else lease_of device db.reservations))

module _ (str : Cell → Cell) (client_id : String) (db : Db) (v : IsValid db) where
  ends-release :
      (p : Reservation → Bool)
      → serials_of (
          get_data str
            (some (map ended_cells (ended_rows (reserved_ids (select p db.reservations)) db)))
            ended_columns
            ("workerip" ∷ "workerport" ∷ []))
        ≡ value (map text (reserved_ids (select p db.reservations)))
  ends-release p =
      serials-rows str (ended_rows (reserved_ids (select p db.reservations)) db)
      ∙ ap (λ ids. value (map text ids))
          (ended_rows-devices db v (reserved_ids (select p db.reservations))
            (picked-reserved p db.reservations))

  -- Where keys and references hold: ending some serials answers with exactly those of them that the client has
  -- reserved, each once, and these are then reserved by no one, while every other reservation stays. Where the
  -- database cannot be reached it raises, and every reservation stays.
  pub end_lem :
      (connects : Bool) (serials : List String)
      → Ends db connects
          (λ r. r.client_id == client_id && contains r.device_id serials)
          (end str connects client_id serials db)
  unfolding end Endings.end_reservations
  end_lem true serials =
      let p = λ (r : Reservation). r.client_id == client_id && contains r.device_id serials in
      (ends-release p, λ device. lease-release p device db v.stored.reserved_once)
  end_lem false serials = (refl, λ device. refl)

  -- Where keys and references hold: ending all answers with exactly the serials that the client has reserved, and
  -- these are then reserved by no one, while every other reservation stays. Where the database cannot be reached
  -- it raises, and every reservation stays.
  pub end_all_lem :
      (connects : Bool)
      → Ends db connects (λ r. r.client_id == client_id) (end_all str connects client_id db)
  unfolding end_all Endings.end_all_reservations
  end_all_lem true =
      let p = λ (r : Reservation). r.client_id == client_id in
      (ends-release p, λ device. lease-release p device db v.stored.reserved_once)
  end_all_lem false = (refl, λ device. refl)
