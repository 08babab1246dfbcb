-- ===== src/Control/Endpoints/Called.antt =====
-- A client's call of an endpoint of the control server: `end` and `endAll` of src/icefarm/client/lib/BaseAPI.py, with
-- src/icefarm/control/app.py on the other side. `parse` is the list that the client reads from the json of the cells.
use i_cefarm.Prelude.{
  String, Bool, true, false, Option, none, some, List, [], ◌∷◌, string_key, if◌then◌else◌, eqb,
}
use i_cefarm.Dict.{Dict}
use i_cefarm.Schema.{Db}
use i_cefarm.Utils.Web.{Value, Values, empty, more, str, list, Answer, status, json_body, exception}
use i_cefarm.Client.Connections.{Client, ConnectionInfo, Response, fails, answers, request}
use i_cefarm.Client.Connections
use i_cefarm.Control.Cells.{Cell}
use i_cefarm.Control.Endpoints

-- How a call fares on the network.
pub data Delivery : Type 0 where
  request_lost answer_lost delivered : Delivery

abbrev pub reaches : Delivery → Bool
reaches request_lost = false
reaches answer_lost = true
reaches delivered = true

abbrev pub returns_to : Delivery → Bool
returns_to request_lost = false
returns_to answer_lost = false
returns_to delivered = true

-- A list of strings in json.
abbrev pub values_of : List String → Values
values_of [] = empty
values_of (serial ∷ serials) = more (str serial) (values_of serials)

-- The answer as the client's library has it; an endpoint that raises answers with status 500.
abbrev response : (List Cell → Option (List String)) → Answer (List Cell) → Response (List String)
response parse (status n) = answers n none
response parse (json_body cells) = answers 200 (parse cells)
response parse exception = answers 500 none

abbrev pub received :
    (List Cell → Option (List String)) → Delivery → Answer (List Cell) → Response (List String)
received parse delivery answer = if returns_to delivery then response parse answer else fails

module _ {D : Type 0} (parse : List Cell → Option (List String))
    (url : ConnectionInfo → String) where
  -- A call, with an endpoint: what the client returns, the client, and the database.
  unfoldable pub call :
      Delivery
      → (Option (Dict String Value) → Db → Answer (List Cell) × Db)
      → Dict String Value
      → Client D
      → Db
      → (Option (List String) × Client D) × Db
  call delivery served json c db =
      let (answer, db') = served (some json) db in
      (
        Connections.end url (request (λ n. eqb n 200) (received parse delivery answer)) c,
        if reaches delivery then db' else db,
      )

  module _ (to_text : Cell → Cell) (adapt : Values → Option (List String)) (connects : Bool) where
    unfoldable pub end :
        Delivery → String → List String → Client D → Db → (Option (List String) × Client D) × Db
    unfolding call
    end delivery name serials c db =
        call delivery (Endpoints.end to_text adapt connects)
          (("name", str name) ∷ ("serials", list (values_of serials)) ∷ []) c db

    unfoldable pub end_all :
        Delivery → String → Client D → Db → (Option (List String) × Client D) × Db
    unfolding call
    end_all delivery name c db =
        call delivery (Endpoints.endall to_text adapt connects) (("name", str name) ∷ []) c db
