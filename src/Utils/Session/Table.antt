-- ===== src/Utils/Session/Table.antt =====
-- `EventSender` of src/icefarm/utils/EventSender.py: a session for each client. The database's answer for
-- a serial and the packaging of contents as json are arguments.
use i_cefarm.Prelude.{
  ℕ, ◌≡◌, refl, String, Bool, true, false, Option, none, some, List, [], ◌∷◌, if◌then◌else◌,
  string_key, nat_key, contains, ◌==◌, arith, Option-cases, inl, inr,
}
use i_cefarm.Dict.{Dict, get, put, remove, get-put, get-remove}
use i_cefarm.Utils.Session.{Session, init, send, set_socket}
use i_cefarm.Utils.Session

abbrev pub Sessions : Type 0 → Type 0
Sessions M = Dict String (Session M)

module _ {M : Type 0} where
  -- The session of a client, after `startSession` has made it where there was none.
  unfoldable pub start_session : String → Sessions M → Session M
  start_session client_id sessions = elim (get client_id sessions) [
    | none ↦ init client_id
    | some session ↦ session
  ]

  unfoldable pub add_socket : (ℕ → Bool) → String → String → Sessions M → Sessions M
  add_socket raises sock_id client_id sessions =
      put client_id (set_socket raises sock_id (start_session client_id sessions)) sessions

  -- An unknown client is only logged.
  unfoldable pub remove_socket : String → Sessions M → Sessions M
  remove_socket client_id sessions = elim (get client_id sessions) [
    | none ↦ sessions
    | some session ↦ put client_id (Session.remove_socket session) sessions
  ]

  unfoldable pub end_session : String → Sessions M → Sessions M
  end_session = remove

  -- A timer of a client's session ends it; the timers of a session that has ended are not followed.
  unfoldable pub time_out : String → ℕ → Sessions M → Sessions M
  time_out client_id id sessions = elim (get client_id sessions) [
    | none ↦ sessions
    | some session ↦
        if contains id session.running then end_session client_id sessions else sessions
  ]

  unfoldable pub send_client : (ℕ → Bool) → String → M → Sessions M → Sessions M
  send_client raises client_id contents sessions =
      put client_id (send raises contents (start_session client_id sessions)) sessions

  -- `sendSerial`, with the client that the database has for the serial, if any.
  unfoldable pub send_serial : (ℕ → Bool) → Option String → M → Sessions M → Sessions M
  send_serial raises none contents sessions = sessions
  send_serial raises (some client_id) contents sessions =
      if client_id == "" then sessions else send_client raises client_id contents sessions

  -- The loop of `sendAllJson`.
  unfoldable pub send_all : (ℕ → Bool) → M → Sessions M → Sessions M
  send_all raises contents [] = []
  send_all raises contents ((client_id, session) ∷ sessions) =
      (client_id, send raises contents session) ∷ send_all raises contents sessions

  -- `sendSerialJson`, with the packed contents, or none where they cannot be packed.
  unfoldable pub send_serial_json :
      (ℕ → Bool) → Option String → Option M → Sessions M → Bool × Sessions M
  send_serial_json raises client none sessions = (false, sessions)
  send_serial_json raises client (some contents) sessions =
      (true, send_serial raises client contents sessions)

-- What the server is asked to do for one client.
pub data Order (M : Type 0) : Type 0 where
  connects : String → Order M
  receives : M → Order M
  disconnects ends : Order M

module _ {M : Type 0} (raises : ℕ → Bool) where
  -- Each order with the client that it is for.
  unfoldable pub obey : List (String × Order M) → Sessions M → Sessions M
  obey [] sessions = sessions
  obey ((client_id, connects sock_id) ∷ orders) sessions =
      obey orders (add_socket raises sock_id client_id sessions)
  obey ((client_id, receives contents) ∷ orders) sessions =
      obey orders (send_serial raises (some client_id) contents sessions)
  obey ((client_id, disconnects) ∷ orders) sessions = obey orders (remove_socket client_id sessions)
  obey ((client_id, ends) ∷ orders) sessions = obey orders (end_session client_id sessions)

  abbrev pub concerns : String → List (String × Order M) → Bool
  concerns client_id [] = false
  concerns client_id ((other, order) ∷ orders) =
      if other == client_id then true else concerns client_id orders

  -- What the server does for other clients leaves a client's session, with its messages and its socket, as
  -- it is.
  get-obey :
      (client_id : String) (orders : List (String × Order M)) (sessions : Sessions M)
      → concerns client_id orders ≡ false
      → get client_id (obey orders sessions) ≡ get client_id sessions
  unfolding obey add_socket send_serial send_client remove_socket end_session
  get-obey client_id [] sessions others = refl
  get-obey client_id ((other, connects sock_id) ∷ orders) sessions others =
      let session = set_socket raises sock_id (start_session other sessions) in
      grind (
        arith,
        get-obey client_id orders (put other session sessions),
        get-put other client_id session sessions,
      )
  get-obey client_id ((other, receives contents) ∷ orders) sessions others =
      let session = send raises contents (start_session other sessions) in
      grind (
        arith,
        get-obey client_id orders sessions,
        get-obey client_id orders (put other session sessions),
        get-put other client_id session sessions,
      )
  get-obey client_id ((other, disconnects) ∷ orders) sessions others =
      elim (Option-cases (get other sessions)) [
        | inl unknown ↦ grind (arith, unknown, get-obey client_id orders sessions)
        | inr (session, known) ↦ grind (
          arith,
          known,
          get-obey client_id orders (put other (Session.remove_socket session) sessions),
          get-put other client_id (Session.remove_socket session) sessions,
        )
      ]
  get-obey client_id ((other, ends) ∷ orders) sessions others = grind (
    arith,
    get-obey client_id orders (remove other sessions),
    get-remove other client_id sessions,
  )
