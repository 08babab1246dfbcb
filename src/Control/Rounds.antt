-- ===== src/Control/Rounds.antt =====
-- What the control server tells its clients: src/icefarm/control/ControlEventSender.py, and the rounds of
-- Heartbeat.py that send it. The json text of a serial's entries is an argument (none where json.dumps
-- raises), and so is the client that the database has for a serial.
use i_cefarm.Prelude.{
  ℕ, ◌≡◌, refl, String, Bool, true, false, Option, none, some, List, [], ◌∷◌, if◌then◌else◌,
  string_key, ◌==◌, arith, Option-cases, inl, inr, ==_iff,
}
use i_cefarm.Dict.{Dict, get, put, get-put}
use i_cefarm.Utils.Web.{Value, str, int}
use i_cefarm.Utils.Session.{Session, init, send}
use i_cefarm.Utils.Session.Table.{Sessions, start_session, send_client, send_all, send_serial_json}

-- A row of `getWorkerTimeouts`.
pub record TimedOut : Type 0 where
  pub serial : String
  pub client_id : String
  pub worker : String

abbrev pub event_only : String → List (Dict String Value)
event_only event = (("event", str event) ∷ []) ∷ []

module _ {M : Type 0} (pack : String → List (Dict String Value) → Option M)
    (raises : ℕ → Bool) where
  -- `sendClientJson`
  unfoldable pub send_client_json :
      String → String → List (Dict String Value) → Sessions M → Bool × Sessions M
  send_client_json serial client_id contents sessions = elim (pack serial contents) [
    | none ↦ (false, sessions)
    | some message ↦ (true, send_client raises client_id message sessions)
  ]

  unfoldable pub send_device_reservation_end : String → String → Sessions M → Sessions M
  send_device_reservation_end serial client_id sessions =
      (send_client_json serial client_id (event_only "reservation end") sessions).1

  unfoldable pub send_device_failure : String → String → Sessions M → Sessions M
  send_device_failure serial client_id sessions =
      (send_client_json serial client_id (event_only "failure") sessions).1

  unfoldable pub send_device_reservation_ending_soon :
      (String → Option String) → String → Sessions M → Sessions M
  send_device_reservation_ending_soon client_of serial sessions =
      (send_serial_json raises (client_of serial)
        (pack serial (event_only "reservation ending soon")) sessions).1

  unfoldable pub send_devices_available_change : ℕ → Sessions M → Sessions M
  send_devices_available_change amount sessions =
      elim (pack "meta" ((("event", str "devices_available") ∷ ("amount", int amount) ∷ []) ∷ [])) [
        | none ↦ sessions
        | some message ↦ send_all raises message sessions
      ]

  unfoldable pub send_failures : List TimedOut → Sessions M → Sessions M
  send_failures [] sessions = sessions
  send_failures (row ∷ rows) sessions =
      send_failures rows (send_device_failure row.serial row.client_id sessions)

  -- A round of worker timeouts; a query that failed gives none.
  unfoldable pub worker_timeouts : Option (List TimedOut) → Sessions M → Sessions M
  worker_timeouts none sessions = sessions
  worker_timeouts (some rows) sessions = send_failures rows sessions

  -- A round of reservations that end soon.
  unfoldable pub ending_soon :
      (String → Option String) → Option (List String) → Sessions M → Sessions M
  ending_soon client_of none sessions = sessions
  ending_soon client_of (some []) sessions = sessions
  ending_soon client_of (some (serial ∷ serials)) sessions =
      ending_soon client_of (some serials)
        (send_device_reservation_ending_soon client_of serial sessions)

  -- What a client is to hear of a round of timeouts: the failures of its own devices, in order.
  abbrev pub failures_of : String → List TimedOut → List M
  failures_of client_id [] = []
  failures_of client_id (row ∷ rows) =
      let later = failures_of client_id rows in
      if row.client_id == client_id
      then elim (pack row.serial (event_only "failure")) [
        | none ↦ later
        | some message ↦ message ∷ later
      ]
      else later

  -- A client's session, if it has one, after it was sent messages.
  abbrev pub deliver : String → List M → Option (Session M) → Option (Session M)
  deliver client_id [] session = session
  deliver client_id (message ∷ messages) session =
      deliver client_id messages
        (some (send raises message (elim session [ none ↦ init client_id | some s ↦ s ])))

  get-send_failures :
      (client_id : String) (rows : List TimedOut) (sessions : Sessions M)
      → get client_id (send_failures rows sessions)
        ≡ deliver client_id (failures_of client_id rows) (get client_id sessions)
  unfolding send_failures send_device_failure send_client_json send_client start_session
  get-send_failures client_id [] sessions = refl
  get-send_failures client_id (row ∷ rows) sessions =
      elim (Option-cases (pack row.serial (event_only "failure"))) [
        | inl unpacked ↦ grind (arith, unpacked, get-send_failures client_id rows sessions)
        | inr (message, packed) ↦
            let after = send raises message (start_session row.client_id sessions) in
            grind (
              arith,
              packed,
              ==_iff row.client_id client_id,
              get-send_failures client_id rows (put row.client_id after sessions),
              get-put row.client_id client_id after sessions,
            )
      ]

  -- After a round of worker timeouts each client has been sent the failures of its own reserved devices, in
  -- the order of the rows, in a session that is made for it where it has none, and no one else's.
  pub get-worker_timeouts :
      (client_id : String) (rows : List TimedOut) (sessions : Sessions M)
      → get client_id (worker_timeouts (some rows) sessions)
        ≡ deliver client_id (failures_of client_id rows) (get client_id sessions)
  unfolding worker_timeouts
  get-worker_timeouts client_id rows sessions = get-send_failures client_id rows sessions
