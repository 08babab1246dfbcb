-- ===== src/Control/Rows.antt =====
-- How rows of the database become results: src/icefarm/utils/Database.py and
-- src/icefarm/control/ControlDatabase.py. What a query gives is an argument: its rows, or none where it
-- failed.
use i_cefarm.Prelude.{String, Option, none, some, List, [], ◌∷◌, string_key, map}
use i_cefarm.Dict.{Dict, get, put}
use i_cefarm.Control.Commands.{Reply, value, failure, exception}

module _ {V : Type 0} where
  -- `dict(zip(columns, row))`, entered into a dictionary.
  unfoldable pub zip_row : List String → List V → Dict String V → Dict String V
  zip_row [] row entries = entries
  zip_row (column ∷ columns) [] entries = entries
  zip_row (column ∷ columns) (cell ∷ row) entries = zip_row columns row (put column cell entries)

  -- The loop over the columns to stringify; a missing column raises.
  unfoldable pub stringify_row : (V → V) → List String → Dict String V → Option (Dict String V)
  stringify_row to_text [] entries = some entries
  stringify_row to_text (column ∷ columns) entries = elim (get column entries) [
    | none ↦ none
    | some cell ↦ stringify_row to_text columns (put column (to_text cell) entries)
  ]

  unfoldable pub stringify_rows :
      (V → V) → List String → List (Dict String V) → Option (List (Dict String V))
  stringify_rows to_text columns [] = some []
  stringify_rows to_text columns (entries ∷ rest) =
      let later = stringify_rows to_text columns rest in
      elim (stringify_row to_text columns entries) [
        | none ↦ none
        | some done ↦ elim later [ none ↦ none | some others ↦ some (done ∷ others) ]
      ]

  unfoldable pub get_data :
      (V → V) → Option (List (List V)) → List String → List String → Reply (List (Dict String V))
  get_data to_text none columns stringify = failure
  get_data to_text (some rows) columns stringify =
      elim (stringify_rows to_text stringify (map (λ row. zip_row columns row []) rows)) [
        | none ↦ exception
        | some entries ↦ value entries
      ]

  -- `extend` and `extendAll`: the first row.
  unfoldable pub extend : Option (List (List V)) → Reply (List V)
  extend none = failure
  extend (some []) = failure
  extend (some (row ∷ rows)) = value row

  -- `getAmountAvailable`: the first cell; a row without cells raises.
  unfoldable pub get_amount_available : Option (List (List V)) → Reply V
  get_amount_available none = failure
  get_amount_available (some []) = failure
  get_amount_available (some ([] ∷ rows)) = exception
  get_amount_available (some ((cell ∷ row) ∷ rows)) = value cell

  -- `getDeviceWorkerUrl`: the address and the port of the first row.
  unfoldable pub get_device_worker_url : (V → V → String) → Option (List (List V)) → Reply String
  get_device_worker_url url none = failure
  get_device_worker_url url (some []) = failure
  get_device_worker_url url (some ((ip ∷ port ∷ row) ∷ rows)) = value (url ip port)
  get_device_worker_url url (some (row ∷ rows)) = exception
