-- ===== src/Control/Endpoints.antt =====
-- The endpoints of src/icefarm/control/app.py that end and extend reservations and that tell what is available, over
-- the tables. `to_text` is Python's str of a cell; `adapt` is how the database's driver reads a list, none where it
-- raises, which makes the query fail; `connects` is whether the database can be reached.
pub mod Called
pub mod Ended
use i_cefarm.Prelude.{ℕ, String, Bool, Option, none, some, List, [], ◌∷◌, string_key}
use i_cefarm.Dict.{Dict}
use i_cefarm.Schema.{Db}
use i_cefarm.Utils.Web.{
  Value, Values, str, list, Annotation, class, str_class, list_class, Returned, result, nothing, no,
  Answer, json_body, handler_wrapper,
}
use i_cefarm.Control.Commands.{Reply, value, failure, exception}
use i_cefarm.Control.Cells.{Cell}
use i_cefarm.Control.Queries
use i_cefarm.Control.Served

-- What the handler makes of a function's reply; a function that raises does not return.
abbrev pub returned : {R : Type 0} → Reply R → Returned R
returned (value r) = result r
returned failure = no
returned exception = nothing

abbrev pub unless_raised : {R : Type 0} → Reply R → Answer R → Answer R
unless_raised (value r) answer = answer
unless_raised failure answer = answer
unless_raised exception answer = Answer.exception

-- An endpoint, with the request's json, or none where it does not parse: its answer, and the database after it.
unfoldable pub endpoint :
    {R : Type 0}
    → List (String × Annotation)
    → (List Value → Db → Reply R × Db)
    → Option (Dict String Value)
    → Db
    → Answer R × Db
unfolding handler_wrapper
endpoint parms func json db =
    let (answer, called) = handler_wrapper parms (λ args. returned (func args db).0) json in
    elim called [
      | none ↦ (answer, db)
      | some args ↦ (unless_raised (func args db).0 answer, (func args db).1)
    ]

abbrev pub name_parms : List (String × Annotation)
name_parms = ("name", class str_class) ∷ []

abbrev pub serials_parms : List (String × Annotation)
serials_parms = ("name", class str_class) ∷ ("serials", class list_class) ∷ []

module _ (to_text : Cell → Cell) (adapt : Values → Option (List String)) (connects : Bool) where
  -- The functions of the endpoints; the handler calls none with other arguments.
  unfoldable pub end_args : List Value → Db → Reply (List Cell) × Db
  unfolding Served.end
  end_args (str name ∷ list serials ∷ []) db = elim (adapt serials) [
    | none ↦ (exception, db)
    | some ids ↦ Served.end to_text connects name ids db
  ]
  end_args args db = (exception, db)

  unfoldable pub end_all_args : List Value → Db → Reply (List Cell) × Db
  unfolding Served.end_all
  end_all_args (str name ∷ []) db = Served.end_all to_text connects name db
  end_all_args args db = (exception, db)

  unfoldable pub extend_args : ℕ → List Value → Db → Reply (List Cell) × Db
  unfolding Queries.extend
  extend_args now (str name ∷ list serials ∷ []) db = elim (adapt serials) [
    | none ↦ (failure, db)
    | some ids ↦ Queries.extend to_text connects now name ids db
  ]
  extend_args now args db = (exception, db)

  unfoldable pub extend_all_args : ℕ → List Value → Db → Reply (List Cell) × Db
  unfolding Queries.extend_all
  extend_all_args now (str name ∷ []) db = Queries.extend_all to_text connects now name db
  extend_all_args now args db = (exception, db)

  unfoldable pub end : Option (Dict String Value) → Db → Answer (List Cell) × Db
  unfolding endpoint end_args
  end json db = endpoint serials_parms end_args json db

  unfoldable pub endall : Option (Dict String Value) → Db → Answer (List Cell) × Db
  unfolding endpoint end_all_args
  endall json db = endpoint name_parms end_all_args json db

  unfoldable pub extend : ℕ → Option (Dict String Value) → Db → Answer (List Cell) × Db
  unfolding endpoint extend_args
  extend now json db = endpoint serials_parms (extend_args now) json db

  unfoldable pub extendall : ℕ → Option (Dict String Value) → Db → Answer (List Cell) × Db
  unfolding endpoint extend_all_args
  extendall now json db = endpoint name_parms (extend_all_args now) json db

  -- What flask makes of a function without the wrapper: it raises for a view that returns False.
  abbrev viewed : {R : Type 0} → Reply R → Answer R
  viewed (value r) = json_body r
  viewed failure = Answer.exception
  viewed exception = Answer.exception

  unfoldable pub available : Db → Answer Cell
  unfolding Queries.get_amount_available
  available db = viewed (Queries.get_amount_available to_text connects db)

  unfoldable pub devices : Db → Answer (List Cell)
  unfolding Queries.get_devices_available
  devices db = viewed (Queries.get_devices_available to_text connects db)
