-- ===== src/Utils/Session/Sockets/Linked.antt =====
-- Whether a client's session sends to the socket that the client has connected with, as long as a client
-- connects only one at a time: src/icefarm/worker/app.py and src/icefarm/control/app.py.
use i_cefarm.Prelude.{
  ℕ, suc, ◌≡◌, refl, String, Bool, true, false, ◌&&◌, Option, none, some, List, [], ◌∷◌, ◌++◌,
  if◌then◌else◌, string_key, nat_key, ==_iff, arith, Option-cases, inl, inr, contains,
}
use i_cefarm.Dict.{Dict, get, values, get-put, get-remove}
use i_cefarm.Utils.Session.{
  Session, emit_all, flush, send, set_socket, stop_timeout, start_timeout, init,
}
use i_cefarm.Utils.Session
use i_cefarm.Utils.Session.Table.{Sessions, start_session, add_socket, remove_socket, send_client}
use i_cefarm.Utils.Session.Sockets.{
  Server, connection, disconnect, Happening, connects, disconnects, sends, expires, happen,
  happen_all,
}

-- The socket that a client's session has.
abbrev pub socket_of : {M : Type 0} → String → Sessions M → Option String
socket_of client_id sessions = elim (get client_id sessions) [ none ↦ none | some s ↦ s.sock_id ]

-- Every connected socket is the socket of its client's session.
abbrev pub IsLinked : {M : Type 0} → Server M → Type 0
IsLinked server =
    (sid client_id : String)
    → get sid server.sock_id_to_client_id ≡ some client_id
    → socket_of client_id server.sessions ≡ some sid

-- Whether a client connects only while it has no other socket, and no session expires.
abbrev pub is_orderly : {M : Type 0} → Happening M → Server M → Bool
is_orderly (connects sid client_id) server =
    if contains client_id (values server.sock_id_to_client_id) then false else true
is_orderly (disconnects sid) server = true
is_orderly (sends client_id contents) server = true
is_orderly (expires client_id id) server = false

contains-values :
    (sid client_id : String) (d : Dict String String)
    → get sid d ≡ some client_id
    → contains client_id (values d) ≡ true
unfolding get
contains-values sid client_id [] h = cc
contains-values sid client_id ((other, value) ∷ d) h =
    ground (arith, ==_iff value client_id, contains-values sid client_id d)

module _ {M : Type 0} (raises : ℕ → Bool) where
  sock_id-emit_all :
      (n : ℕ) (messages : List M) (s : Session M)
      → (emit_all raises n messages s).sock_id ≡ s.sock_id
  unfolding emit_all
  sock_id-emit_all n [] s = refl
  sock_id-emit_all n (message ∷ messages) s = ground (
    arith,
    sock_id-emit_all (suc n) messages
        (record s { message_queue = s.message_queue ++ message ∷ [] }),
    sock_id-emit_all (suc n) messages (record s { emitted = s.emitted ++ message ∷ [] }),
  )

  sock_id-flush : (s : Session M) → (flush raises s).sock_id ≡ s.sock_id
  unfolding flush
  sock_id-flush s =
      ground (arith, sock_id-emit_all 0 s.message_queue (record s { message_queue = [] }))

  sock_id-set_socket : (sid : String) (s : Session M) → (set_socket raises sid s).sock_id ≡ some sid
  unfolding set_socket
  sock_id-set_socket sid s = sock_id-flush (stop_timeout (record s { sock_id = some sid }))

  sock_id-send : (message : M) (s : Session M) → (send raises message s).sock_id ≡ s.sock_id
  unfolding send
  sock_id-send message s =
      sock_id-flush (record s { message_queue = s.message_queue ++ message ∷ [] })

  connection-IsLinked :
      (sid client_id : String) (server : Server M)
      → contains client_id (values server.sock_id_to_client_id) ≡ false
      → IsLinked server
      → IsLinked (connection raises sid (some client_id) server)
  unfolding connection add_socket
  connection-IsLinked sid client_id server alone linked j d h =
      let session = set_socket raises sid (start_session client_id server.sessions) in
      ground (
        arith,
        linked j d,
        contains-values j d server.sock_id_to_client_id,
        get-put sid j client_id server.sock_id_to_client_id,
        get-put client_id d session server.sessions,
        sock_id-set_socket sid (start_session client_id server.sessions),
        ==_iff sid j,
        ==_iff client_id d,
      )

  disconnect-IsLinked :
      (sid : String) (server : Server M) → IsLinked server → IsLinked (disconnect sid server)
  unfolding disconnect remove_socket
  disconnect-IsLinked sid server linked j d h =
      elim (Option-cases (get sid server.sock_id_to_client_id)) [
        | inl unknown ↦ ground (arith, unknown, linked j d)
        | inr (client_id, found) ↦ elim (Option-cases (get client_id server.sessions)) [
          | inl ended ↦ ground (
            arith,
            found,
            ended,
            linked j d,
            linked sid client_id,
            get-remove sid j server.sock_id_to_client_id,
            ==_iff sid j,
          )
          | inr (session, e) ↦ ground (
            arith,
            found,
            e,
            linked j d,
            linked sid client_id,
            get-remove sid j server.sock_id_to_client_id,
            get-put client_id d (Session.remove_socket session) server.sessions,
            ==_iff sid j,
            ==_iff client_id d,
          )
        ]
      ]

  send-IsLinked :
      (client_id : String) (message : M) (server : Server M)
      → IsLinked server
      → IsLinked (happen raises (sends client_id message) server)
  unfolding happen send_client start_session
  send-IsLinked client_id message server linked j d h =
      let session = start_session client_id server.sessions in
      ground (
        arith,
        linked j d h,
        get-put client_id d (send raises message session) server.sessions,
        sock_id-send message session,
        ==_iff client_id d,
      )

  happen-IsLinked :
      (h : Happening M) (server : Server M)
      → is_orderly h server ≡ true
      → IsLinked server
      → IsLinked (happen raises h server)
  unfolding happen
  happen-IsLinked (connects sid client_id) server orderly linked =
      connection-IsLinked sid client_id server (ground (arith, orderly)) linked
  happen-IsLinked (disconnects sid) server orderly linked = disconnect-IsLinked sid server linked
  happen-IsLinked (sends client_id message) server orderly linked =
      send-IsLinked client_id message server linked
  happen-IsLinked (expires client_id id) server orderly linked = cc

  -- Whether each happening is orderly where it happens.
  abbrev pub are_orderly : List (Happening M) → Server M → Bool
  are_orderly [] server = true
  are_orderly (h ∷ rest) server = is_orderly h server && are_orderly rest (happen raises h server)

  -- As long as each client connects only while it has no other socket, and no session expires, every
  -- connected socket is the one that its client's session sends to.
  pub happen_all-IsLinked :
      (happenings : List (Happening M)) (server : Server M)
      → are_orderly happenings server ≡ true
      → IsLinked server
      → IsLinked (happen_all raises happenings server)
  unfolding happen_all
  happen_all-IsLinked [] server orderly linked = linked
  happen_all-IsLinked (h ∷ rest) server orderly linked =
      happen_all-IsLinked rest (happen raises h server) (ground (arith, orderly))
        (happen-IsLinked h server (ground (arith, orderly)) linked)
