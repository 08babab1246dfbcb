-- ===== src/Utils/Session/Sockets/Reconnected.antt =====
-- What becomes of a client that connects anew before its old socket is disconnected:
-- src/icefarm/worker/app.py and src/icefarm/control/app.py.
use i_cefarm.Prelude.{
  ℕ, ◌≡◌, ◌≢◌, ◌∙◌, String, Bool, none, some, [], ◌∷◌, if◌then◌else◌, string_key, nat_key, ◌==◌,
  ==_iff, arith, Option-cases, inl, inr,
}
use i_cefarm.Dict.{get, get-put, get-remove}
use i_cefarm.Utils.Session.{
  Session, emit_all, flush, send, set_socket, stop_timeout, start_timeout, init,
}
use i_cefarm.Utils.Session
use i_cefarm.Utils.Session.Table.{remove_socket}
use i_cefarm.Utils.Session.Sockets.{
  Server, connection, disconnect, connects, disconnects, happen, happen_all,
}
use i_cefarm.Utils.Session.Sockets.Linked.{socket_of}

module _ {M : Type 0} (raises : ℕ → Bool) where
  get-connection :
      (sid other client_id : String) (server : Server M)
      → client_id ≢ ""
      → get other (connection raises sid (some client_id) server).sock_id_to_client_id
        ≡ (if sid == other then some client_id else get other server.sock_id_to_client_id)
  unfolding connection
  get-connection sid other client_id server named =
      ground
        (arith, named, ==_iff client_id "", get-put sid other client_id server.sock_id_to_client_id)

  get-disconnect :
      (sid other : String) (server : Server M)
      → sid ≢ other
      → get other (disconnect sid server).sock_id_to_client_id
        ≡ get other server.sock_id_to_client_id
  unfolding disconnect
  get-disconnect sid other server differ =
      ground (arith, differ, ==_iff sid other, get-remove sid other server.sock_id_to_client_id)

  socket_of-disconnect :
      (sid client_id : String) (server : Server M)
      → get sid server.sock_id_to_client_id ≡ some client_id
      → socket_of client_id (disconnect sid server).sessions ≡ none
  unfolding disconnect remove_socket Session.remove_socket start_timeout
  socket_of-disconnect sid client_id server found =
      elim (Option-cases (get client_id server.sessions)) [
        | inl ended ↦ ground (arith, found, ended)
        | inr (session, e) ↦ ground (
          arith,
          found,
          e,
          get-put client_id client_id (Session.remove_socket session) server.sessions,
          ==_iff client_id client_id,
        )
      ]

  -- A client that connects anew before its old socket is disconnected loses both: whatever the state was,
  -- its session then has no socket, while the new socket is still in the table.
  pub reconnect_loses_socket :
      (old_sid new_sid client_id : String) (server : Server M)
      → client_id ≢ ""
      → old_sid ≢ new_sid
      → let server' =
          happen_all raises
            (connects old_sid client_id ∷ connects new_sid client_id ∷ disconnects old_sid ∷ [])
            server in
        (socket_of client_id server'.sessions ≡ none)
        × (get new_sid server'.sock_id_to_client_id ≡ some client_id)
  unfolding happen_all happen
  reconnect_loses_socket old_sid new_sid client_id server named other =
      let first = connection raises old_sid (some client_id) server in
      let both = connection raises new_sid (some client_id) first in
      let new_there : get new_sid both.sock_id_to_client_id ≡ some client_id =
        ground
          (arith, get-connection new_sid new_sid client_id first named, ==_iff new_sid new_sid) in
      let old_there : get old_sid both.sock_id_to_client_id ≡ some client_id = ground (
        arith,
        get-connection new_sid old_sid client_id first named,
        get-connection old_sid old_sid client_id server named,
        ==_iff old_sid old_sid,
      ) in
      (
        socket_of-disconnect old_sid client_id both old_there,
        get-disconnect old_sid new_sid both other ∙ new_there,
      )
