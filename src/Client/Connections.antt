-- ===== src/Client/Connections.antt =====
-- The client's view of its devices and workers: `BaseAPI` of src/icefarm/client/lib/BaseAPI.py, the worker
-- sockets of `EventServer` in EventServer.py, and `BaseClient` of BaseClient.py. The control server, the
-- socket library and the url of a connection are arguments.
pub mod Groups
pub mod Reserved
pub mod Sockets
pub mod Forgotten
pub mod Requested
use i_cefarm.Prelude.{
  ℕ, String, Bool, true, false, ◌&&◌, Option, none, some, List, [], ◌∷◌, ◌++◌, if◌then◌else◌,
  string_key, ◌==◌,
}
use i_cefarm.Dict.{Dict, get, put, remove, values}

pub record ConnectionInfo : Type 0 where
  pub ip : String
  pub server_port : String

-- `ConnectionInfo.__eq__` with another ConnectionInfo.
abbrev pub same_info : ConnectionInfo → ConnectionInfo → Bool
same_info i j = i.ip == j.ip && i.server_port == j.server_port

-- A request that reaches a worker: its socket's url, the serials, the event and the contents.
pub record Request (D : Type 0) : Type 0 where
  pub url : String
  pub serials : List String
  pub event : String
  pub contents : D

pub record Client (D : Type 0) : Type 0 where
  pub connection_info : Dict String ConnectionInfo
  -- A socket, or the False of a connection attempt that failed.
  pub worker_sockets : Dict String Bool
  pub requests : List (Request D)

-- A method's value, or an exception, with the state it leaves.
pub data Outcome (D A : Type 0) : Type 0 where
  returns raises : A → Client D → Outcome D A

-- What `requests.get` does: it raises, or answers with a status and a body that may not be json.
pub data Response (J : Type 0) : Type 0 where
  fails : Response J
  answers : ℕ → Option J → Response J

-- `BaseAPI.request`; none is its False.
unfoldable pub request : {J : Type 0} → (ℕ → Bool) → Response J → Option J
request is_ok fails = none
request is_ok (answers status json) = if is_ok status then json else none

-- `info in infos`
unfoldable pub is_among : ConnectionInfo → List ConnectionInfo → Bool
is_among info [] = false
is_among info (other ∷ infos) =
    let rest = is_among info infos in if same_info other info then true else rest

module _ {D : Type 0} where
  unfoldable pub add_serial : String → ConnectionInfo → Client D → Client D
  add_serial serial info c = record c { connection_info = put serial info c.connection_info }

  unfoldable pub get_connection_info : String → Client D → Option ConnectionInfo
  get_connection_info serial c = get serial c.connection_info

  unfoldable pub using_connection : ConnectionInfo → Client D → Bool
  using_connection info c = is_among info (values c.connection_info)

  -- `_addConnectionData`, where the control server answered with rows.
  unfoldable pub add_connection_data :
      List (String × ConnectionInfo) → Client D → List String × Client D
  add_connection_data [] c = ([], c)
  add_connection_data ((serial, info) ∷ rows) c =
      let rest = add_connection_data rows (add_serial serial info c) in (serial ∷ rest.0, rest.1)

  -- `EventServer.connectWorker` with the control socket connected; whether a new socket connects is given.
  unfoldable pub connect_worker : Bool → String → Client D → Client D
  connect_worker connects url c = elim (get url c.worker_sockets) [
    | some socket ↦ c
    | none ↦ record c { worker_sockets = put url connects c.worker_sockets }
  ]

  unfoldable pub disconnect_worker : String → Client D → Client D
  disconnect_worker url c = elim (get url c.worker_sockets) [
    | none ↦ c
    | some socket ↦ if socket then record c { worker_sockets = remove url c.worker_sockets } else c
  ]

  -- `sendWorker`, with whether the data can be packed.
  unfoldable pub send_worker : Bool → Request D → Client D → Bool × Client D
  send_worker packs r c =
      if packs
      then (elim (get r.url c.worker_sockets) [
        | none ↦ (false, c)
        | some socket ↦
            if socket then (true, record c { requests = c.requests ++ r ∷ [] }) else (false, c)
      ])
      else (false, c)

  module _ (url : ConnectionInfo → String) where
    -- `BaseClient.removeSerial`
    unfoldable pub remove_serial : String → Client D → Client D
    remove_serial serial c =
        let c' = record c { connection_info = remove serial c.connection_info } in
        elim (get serial c.connection_info) [
          | none ↦ c'
          | some info ↦ if using_connection info c' then c' else disconnect_worker (url info) c'
        ]

    -- The loop of `end` and `endAll` over the serials that the control server ended.
    unfoldable pub remove_serials : List String → Client D → Client D
    remove_serials [] c = c
    remove_serials (serial ∷ serials) c = remove_serials serials (remove_serial serial c)

    unfoldable pub end : Option (List String) → Client D → Option (List String) × Client D
    end none c = (none, c)
    end (some serials) c = (some serials, remove_serials serials c)

    -- The loop of `BaseClient.reserve`: without connection info, `info.url()` raises.
    unfoldable pub connect_serials :
        (String → Bool) → List String → Client D → Outcome D (List String)
    connect_serials connects [] c = returns [] c
    connect_serials connects (serial ∷ serials) c = elim (get_connection_info serial c) [
      | none ↦ raises [] c
      | some info ↦
          elim (connect_serials connects serials
            (connect_worker (connects (url info)) (url info) c)) [
              | returns connected c' ↦ returns (serial ∷ connected) c'
              | raises connected c' ↦ raises connected c'
            ]
    ]

    -- `reserve` and `reserveSpecific` with what the control server answers, but for the wait at the end.
    unfoldable pub reserve :
        (String → Bool)
        → Option (List (String × ConnectionInfo))
        → Client D
        → Outcome D (Option (List String))
    reserve connects none c = returns none c
    reserve connects (some rows) c =
        let added = add_connection_data rows c in
        elim (connect_serials connects added.0 added.1) [
          | returns connected c' ↦ returns (some connected) c'
          | raises connected c' ↦ raises none c'
        ]

    unfoldable pub request_worker : Bool → String → String → D → Client D → Bool × Client D
    request_worker packs serial event contents c = elim (get_connection_info serial c) [
      | none ↦ (false, c)
      | some info ↦
          send_worker packs
            (record { url = url info; serials = serial ∷ []; event = event; contents = contents }) c
    ]
