-- ===== src/Worker/Reservables.antt =====
-- The registry of states that a client can reserve: src/icefarm/worker/device/state/reservable/utils.py,
-- as the decorators of PulseCountState.py and VarMaxState.py
-- fill it.
use i_cefarm.Prelude.{String, Option, none, some, List, if◌then◌else◌, string_key, contains, map}
use i_cefarm.Dict.{Dict, get, put, keys}
use i_cefarm.Utils.Web.{Value, null}

-- A registered state: its class and the keys of its constructor's arguments.
pub record Reservable : Type 0 where
  pub class : String
  pub args : List String

abbrev pub Registry : Type 0
Registry = Dict String Reservable

-- `reservable`; none is the exception for a name that is taken.
unfoldable pub reservable : String → Reservable → Registry → Option Registry
reservable name r registry =
    if contains name (keys registry) then none else some (put name r registry)

unfoldable pub get_registered_reservables : Registry → List String
get_registered_reservables = keys

abbrev pub or_null : Option Value → Value
or_null none = null
or_null (some v) = v

-- `make_state_fac`: the constructor's arguments, a missing one as None.
unfoldable pub state_args : List String → Dict String Value → List Value
state_args args event = map (λ arg. or_null (get arg event)) args

-- `get_reservation_state_fac`: the class and its arguments; none is False.
unfoldable pub get_reservation_state :
    Registry → String → Dict String Value → Option (String × List Value)
get_reservation_state registry kind event = elim (get kind registry) [
  | none ↦ none
  | some r ↦ some (r.class, state_args r.args event)
]
