-- ===== src/Worker/Requests.antt =====
-- How a client's request reaches a method of a device's state: the callback `handle` of
-- src/icefarm/worker/app.py, `handleRequest` of DeviceManager.py, Device.py and AbstractState.py, and
-- `EventMethod` and `register` of AbstractState.py. The unpacking of the packet is an argument's work: a
-- packet is what msgpack gives.
pub mod Threads
pub mod Evaluate
use i_cefarm.Prelude.{
  ℕ, suc, String, Bool, true, false, ◌||◌, not, Option, none, some, List, [], ◌∷◌, ◌++◌,
  if◌then◌else◌, string_key, ◌==◌, is_nonempty, contains,
}
use i_cefarm.Dict.{Dict, get, put, keys}
use i_cefarm.Utils.Loops.{value_after}
use i_cefarm.Utils.Web.{Value, object, Annotation, untyped, typecheck, json_to_args}

-- A registered method: the keys of its arguments and their annotations.
pub record EventMethod : Type 0 where
  pub method : String
  pub parms : List String
  pub annotations : List Annotation

-- `EventMethod.__call__`: the arguments that the method is called with after the state, if it is. The state
-- is the value for `self`, whose parameter has no annotation.
unfoldable pub call_method : EventMethod → Dict String Value → Option (List Value)
call_method m contents = elim (json_to_args contents m.parms) [
  | none ↦ none
  | some args ↦ if typecheck (untyped ∷ m.annotations) (object ∷ args) then some args else none
]

-- `AbstractState.methods`, by class.
abbrev pub Methods : Type 0
Methods = Dict String (Dict String EventMethod)

-- `Reg.__set_name__`, for the attribute `name` of a class; none is the exception for a name that is
-- registered already.
unfoldable pub register : String → EventMethod → String → String → Methods → Option Methods
register event m owner name methods =
    let registered : Dict String EventMethod = elim (get owner methods) [
      | none ↦ []
      | some found ↦ found
    ] in
    if contains name (keys registered)
    then none
    else some (put owner (put event m registered) methods)

-- `AbstractState.handleRequest` of a state of some class: the method's name and its arguments.
unfoldable pub handle_request :
    Methods → String → String → Dict String Value → Option (String × List Value)
handle_request methods class event contents = elim (get class methods) [
  | none ↦ none
  | some found ↦ elim (get event found) [
    | none ↦ none
    | some m ↦ elim (call_method m contents) [ none ↦ none | some args ↦ some (m.method, args) ]
  ]
]

-- The field "serial" of a packet.
pub data Target : Type 0 where
  one : String → Target
  many : List String → Target

pub record Packet : Type 0 where
  pub serial : Target
  pub event : String
  pub contents : Dict String Value

-- `not serial or not event or not contents`
unfoldable pub is_bad : Packet → Bool
is_bad packet =
    let no_serial : Bool = elim packet.serial [
      | one serial ↦ serial == ""
      | many serials ↦ not (is_nonempty serials)
    ] in
    no_serial || (packet.event == "" || not (is_nonempty packet.contents))

-- The serials for which the threads call the manager; the n-th reads the loop's variable after some
-- further rounds.
unfoldable pub start_threads : (ℕ → ℕ) → ℕ → List String → List String
start_threads delays n [] = []
start_threads delays n (serial ∷ serials) =
    value_after (delays n) serial serials ∷ start_threads delays (suc n) serials

-- `handle`: the serials for which the manager handles the request. An unknown socket, a packet that cannot
-- be unpacked (none) and a bad packet are only logged.
unfoldable pub handle : (ℕ → ℕ) → Dict String String → String → Option Packet → List String
handle delays sock_id_to_client_id sid packet = elim (get sid sock_id_to_client_id) [
  | none ↦ []
  | some client_id ↦ elim packet [
    | none ↦ []
    | some p ↦ if is_bad p then [] else elim p.serial [
      | one serial ↦ serial ∷ []
      | many serials ↦ start_threads delays 0 serials
    ]
  ]
]
