-- ===== src/Utils/Session/Sockets.antt =====
-- The socket callbacks that src/icefarm/worker/app.py and src/icefarm/control/app.py have in common:
-- `connection` and `disconnect`, with the table from socket ids to clients.
pub mod Linked
pub mod Reconnected
use i_cefarm.Prelude.{
  ℕ, String, Bool, Option, none, some, List, [], ◌∷◌, if◌then◌else◌, string_key, ◌==◌,
}
use i_cefarm.Dict.{Dict, get, put, remove}
use i_cefarm.Utils.Session.Table.{Sessions, add_socket, remove_socket, send_client, time_out}

pub record Server (M : Type 0) : Type 0 where
  pub sock_id_to_client_id : Dict String String
  pub sessions : Sessions M

module _ {M : Type 0} (raises : ℕ → Bool) where
  -- A connection without a client id is only logged.
  unfoldable pub connection : String → Option String → Server M → Server M
  connection sid none server = server
  connection sid (some client_id) server = if client_id == "" then server else record {
    sock_id_to_client_id = put sid client_id server.sock_id_to_client_id;
    sessions = add_socket raises sid client_id server.sessions;
  }

-- An unknown socket is only logged.
unfoldable pub disconnect : {M : Type 0} → String → Server M → Server M
disconnect sid server = elim (get sid server.sock_id_to_client_id) [
  | none ↦ server
  | some client_id ↦ record {
    sock_id_to_client_id = remove sid server.sock_id_to_client_id;
    sessions = remove_socket client_id server.sessions;
  }
]

-- What happens at a server.
pub data Happening (M : Type 0) : Type 0 where
  connects : String → String → Happening M
  disconnects : String → Happening M
  sends : String → M → Happening M
  -- The timer with a number, of a client's session.
  expires : String → ℕ → Happening M

module _ {M : Type 0} (raises : ℕ → Bool) where
  unfoldable pub happen : Happening M → Server M → Server M
  happen (connects sid client_id) server = connection raises sid (some client_id) server
  happen (disconnects sid) server = disconnect sid server
  happen (sends client_id contents) server = record server {
    sessions = send_client raises client_id contents server.sessions;
  }
  happen (expires client_id id) server = record server {
    sessions = time_out client_id id server.sessions;
  }

  unfoldable pub happen_all : List (Happening M) → Server M → Server M
  happen_all [] server = server
  happen_all (h ∷ rest) server = happen_all rest (happen h server)
