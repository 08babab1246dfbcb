-- ===== src/Control/Endpoints/Ended.antt =====
-- What a client's calls of `end` and `endAll` in src/icefarm/client/lib/BaseAPI.py do on both sides: to the reservations, and to the
-- connection data that the client keeps.
use i_cefarm.Prelude.{
  ◌≡◌, refl, ap, ◌∙◌, eqb, String, Bool, true, false, ◌&&◌, Option, none, some, List, [], ◌∷◌, map,
  select, contains, string_key, ◌==◌, if◌then◌else◌,
}
use i_cefarm.Dict.{Dict, get}
use i_cefarm.Schema.{Db, Reservation, reserved_ids}
use i_cefarm.Schema.Valid.{IsValid}
use i_cefarm.Schema.Leases.{lease_of, unless}
use i_cefarm.Utils.Web.{Values, Answer, json_body, exception, json_to_args}
use i_cefarm.Utils.Web
use i_cefarm.Client.Connections.{
  Client, ConnectionInfo, remove_serial, remove_serials, disconnect_worker, using_connection,
  request,
}
use i_cefarm.Client.Connections
use i_cefarm.Client.Connections.Forgotten.{end-told}
use i_cefarm.Control.Commands.{Reply, value}
use i_cefarm.Control.Commands
use i_cefarm.Control.Cells.{Cell, text}
use i_cefarm.Control.Served
use i_cefarm.Control.Served.{Ends, end_lem, end_all_lem}
use i_cefarm.Control.Endpoints
use i_cefarm.Control.Endpoints.{endpoint, returned, unless_raised}
use i_cefarm.Control.Endpoints.Called.{
  Delivery, received, request_lost, answer_lost, delivered, reaches, returns_to, values_of, call,
  end, end_all,
}

-- The answer of the endpoint to a client's json, from the reply of `Control.end`.
abbrev answer_of : Reply (List Cell) → Answer (List Cell)
answer_of (value cells) = json_body cells
answer_of Commands.failure = Answer.status 500
answer_of Commands.exception = exception

answer_of-reply :
    (reply : Reply (List Cell))
    → unless_raised reply (Web.answer (returned reply)) ≡ answer_of reply
unfolding Web.answer
answer_of-reply (value cells) = refl
answer_of-reply Commands.failure = refl
answer_of-reply Commands.exception = refl

module _ (to_text : Cell → Cell) (adapt : Values → Option (List String)) (connects : Bool)
    (name : String) (serials : List String)
    (adapted : adapt (values_of serials) ≡ some serials) where
  abbrev sent : Dict String Web.Value
  sent = ("name", Web.str name) ∷ ("serials", Web.list (values_of serials)) ∷ []

  end_args-adapted :
      (db : Db)
      → Endpoints.end_args to_text adapt connects
          (Web.str name ∷ Web.list (values_of serials) ∷ [])
          db
        ≡ Served.end to_text connects name serials db
  unfolding Endpoints.end_args Served.end
  end_args-adapted db = rw (Endpoints.end_args, adapted) refl

  end-answer :
      (db : Db)
      → Endpoints.end to_text adapt connects (some sent) db ≡ (
        answer_of (Served.end to_text connects name serials db).0,
        (Served.end to_text connects name serials db).1,
      )
  unfolding Endpoints.end endpoint Web.handler_wrapper Web.json_to_args Web.lookup Web.if_present
      Web.typecheck Web.is_accepted Web.is_instance get
  end-answer db =
      ap (λ r. (unless_raised r.0 (Web.answer (returned r.0)), r.1)) (end_args-adapted db)
      ∙ ap (λ a. (a, (Served.end to_text connects name serials db).1))
          (answer_of-reply (Served.end to_text connects name serials db).0)

-- Whether the client reads the serials that were ended.
abbrev pub answered : Bool → Delivery → Bool
answered connects delivery = connects && returns_to delivery

-- What a call that ends the picked reservations returns, what it leaves of each lease, and of each device that the client
-- keeps.
abbrev pub Told :
    {D : Type 0}
    → Bool
    → Delivery
    → (Reservation → Bool)
    → Client D
    → Db
    → (Option (List String) × Client D) × Db
    → Type 0
Told connects delivery p c db called =
    (called.0.0 ≡ (
      if answered connects delivery then some (reserved_ids (select p db.reservations)) else none))
    × ((device : String)
        → (lease_of device called.1.reservations ≡ (
            if connects && reaches delivery
            then unless p (lease_of device db.reservations)
            else lease_of device db.reservations))
          × (get device called.0.1.connection_info ≡ (
              if answered connects delivery
                && contains device (reserved_ids (select p db.reservations))
              then none
              else get device c.connection_info)))

module _ {D : Type 0} (parse : List Cell → Option (List String))
    (parsed : (ids : List String) → parse (map text ids) ≡ some ids) (url : ConnectionInfo → String)
    (c : Client D) (db : Db) (v : IsValid db) (connects : Bool) where
  read_reply :
      (delivery : Delivery) (reached : Bool) (ids : List String)
      → request
          (λ n. eqb n 200)
          (received parse delivery
            (answer_of (if reached then value (map text ids) else Commands.exception)))
        ≡ (if answered reached delivery then some ids else none)
  unfolding request
  read_reply request_lost true ids = refl
  read_reply request_lost false ids = refl
  read_reply answer_lost true ids = refl
  read_reply answer_lost false ids = refl
  read_reply delivered true ids = parsed ids
  read_reply delivered false ids = refl

  lease-reached :
      (reached connected : Bool) (p : Reservation → Bool) (left : Db) (device : String)
      → lease_of device left.reservations ≡ (
          if connected
          then unless p (lease_of device db.reservations)
          else lease_of device db.reservations)
      → lease_of device (if reached then left else db).reservations ≡ (
          if connected && reached
          then unless p (lease_of device db.reservations)
          else lease_of device db.reservations)
  lease-reached true true p left device h = h
  lease-reached true false p left device h = h
  lease-reached false true p left device h = refl
  lease-reached false false p left device h = refl

  -- A call is told of what the server ends, if the endpoint answers by the server's reply.
  call-Told :
      (delivery : Delivery) (served : Option (Dict String Web.Value) → Db → Answer (List Cell) × Db)
      (json : Dict String Web.Value) (p : Reservation → Bool) (ending : Reply (List Cell) × Db)
      → served (some json) db ≡ (answer_of ending.0, ending.1)
      → Ends db connects p ending
      → Told connects delivery p c db (call parse url delivery served json c db)
  unfolding call
  call-Told delivery served json p (reply, left) answers (replied, leases) =
      let ids = reserved_ids (select p db.reservations) in
      let read =
        ap (λ r. Connections.end url (request (λ n. eqb n 200) (received parse delivery r.0)) c)
          answers
        ∙ (ap
              (λ r.
                Connections.end url
                  (request (λ n. eqb n 200) (received parse delivery (answer_of r))) c)
              replied
            ∙ ap (λ o. Connections.end url o c) (read_reply delivery connects ids)) in
      let (returned, kept) = end-told url (answered connects delivery) ids c in
      (
        ap (λ r. r.0) read ∙ returned,
        λ device. (
          ap (λ r. lease_of device (if reaches delivery then r.1 else db).reservations) answers
              ∙ lease-reached (reaches delivery) connects p left device (leases device),
          ap (λ r. get device r.1.connection_info) read ∙ kept device,
        ),
      )

  module _ (to_text : Cell → Cell) (adapt : Values → Option (List String)) (name : String) where
    -- Where keys and references hold, the driver reads a list of strings as it is, and the client reads back the texts
    -- that were sent: a call of `end` that is delivered, with the database at hand, returns exactly the named serials
    -- that the client had reserved, ends these reservations and no others, and the client forgets these devices and no
    -- others. If only the answer is lost, the reservations end all the same, and the client still keeps the devices;
    -- if the request is lost or the database cannot be reached, neither side changes.
    pub end-Told :
        (serials : List String)
        → adapt (values_of serials) ≡ some serials
        → (delivery : Delivery)
        → Told connects delivery
            (λ r. r.client_id == name && contains r.device_id serials)
            c
            db
            (end parse url to_text adapt connects delivery name serials c db)
    unfolding end Endpoints.end Endpoints.end_args endpoint Web.handler_wrapper Web.json_to_args
        Web.lookup Web.if_present Web.typecheck Web.is_accepted Web.is_instance get
    end-Told serials adapted delivery =
        call-Told delivery (Endpoints.end to_text adapt connects)
          (("name", Web.str name) ∷ ("serials", Web.list (values_of serials)) ∷ [])
          (λ r. r.client_id == name && contains r.device_id serials)
          (Served.end to_text connects name serials db)
          (end-answer to_text adapt connects name serials adapted db)
          (end_lem to_text name db v connects serials)

    -- The same of a call of `endAll`, for all reservations of the client.
    end_all-Told :
        (delivery : Delivery)
        → Told connects delivery
            (λ r. r.client_id == name)
            c
            db
            (end_all parse url to_text adapt connects delivery name c db)
    unfolding end_all Endpoints.endall Endpoints.end_all_args endpoint Web.handler_wrapper
        Web.json_to_args Web.lookup Web.if_present Web.typecheck Web.is_accepted Web.is_instance get
    end_all-Told delivery =
        call-Told delivery (Endpoints.endall to_text adapt connects) (("name", Web.str name) ∷ [])
          (λ r. r.client_id == name) (Served.end_all to_text connects name db)
          (ap (λ a. (a, (Served.end_all to_text connects name db).1))
            (answer_of-reply (Served.end_all to_text connects name db).0))
          (end_all_lem to_text name db v connects)
