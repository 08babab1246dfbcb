-- ===== src/Worker/Requests/Evaluate.antt =====
-- Which requests act on a device: `DeviceManager.handleRequest` and `Device.handleRequest` of
-- src/icefarm/worker/device, with the one method that the states register.
use i_cefarm.Prelude.{
  if◌then◌else◌, Option, ◌&&◌, ◌==◌, refl, ◌≡◌, refl, String, Bool, true, false, none, some, List,
  [], ◌∷◌, string_key, arith, Option-cases, inl, inr, ==_iff,
}
use i_cefarm.Dict.{Dict, get}
use i_cefarm.Utils.Web.{Value, untyped, object, typecheck, json_to_args, is_accepted}
use i_cefarm.Worker.Device.{Device, State, Kind, flash, test, ready, broken, upload, flasher}
use i_cefarm.Worker.Manager.{Manager}
use i_cefarm.Worker.Requests.{EventMethod, Methods, handle_request, call_method}

abbrev pub class_of : Kind → String
class_of (flash f) = "FlashState"
class_of (test exiting) = "TestState"
class_of ready = "ReadyState"
class_of broken = "BrokenState"
class_of (upload firmware) = "UploadState"
class_of (flasher firmware) = "Flasher"

-- `@AbstractState.register("evaluate", "files", "batch_id")` above `queue`, which annotates nothing.
abbrev pub queue_method : EventMethod
queue_method = record {
  method = "queue";
  parms = "files" ∷ "batch_id" ∷ [];
  annotations = untyped ∷ untyped ∷ [];
}

abbrev pub registered : Methods
registered = ("UploadState", ("evaluate", queue_method) ∷ []) ∷ []

-- What `Device.handleRequest` comes to; a device without a state raises.
pub data Handled : Type 0 where
  ignored raises : Handled
  calls : String → List Value → Handled

unfoldable pub device_request : Methods → Device → String → Dict String Value → Handled
device_request methods device event contents = elim device.current [
  | none ↦ raises
  | some s ↦ elim (handle_request methods (class_of s.kind) event contents) [
    | none ↦ ignored
    | some (method, args) ↦ calls method args
  ]
]

-- `DeviceManager.handleRequest`; an unknown device is only logged.
unfoldable pub manager_request : Methods → Manager → String → String → Dict String Value → Handled
manager_request methods m serial event contents = elim (get serial m.devs) [
  | none ↦ ignored
  | some device ↦ device_request methods device event contents
]

abbrev pub is_upload : Kind → Bool
is_upload (upload firmware) = true
is_upload kind = false

abbrev pub parms : List String
parms = "files" ∷ "batch_id" ∷ []

-- The arguments of `queue`, which pass the check of their types.
typecheck-json_to_args :
    (contents : Dict String Value) (args : List Value)
    → json_to_args contents parms ≡ some args
    → typecheck (untyped ∷ untyped ∷ untyped ∷ []) (object ∷ args) ≡ true
unfolding json_to_args typecheck is_accepted
typecheck-json_to_args contents args given = ground arith

-- What the table of methods gives for the class of a state, and for its one class with methods.
handle_upload :
    (event : String) (contents : Dict String Value)
    → handle_request registered "UploadState" event contents ≡ (
        if event == "evaluate"
        then elim (json_to_args contents parms) [ none ↦ none | some args ↦ some ("queue", args) ]
        else none)
unfolding handle_request get call_method
handle_upload event contents = elim (Option-cases (json_to_args contents parms)) [
  | inl lacking ↦ ground (arith, lacking, ==_iff "evaluate" event, ==_iff event "evaluate")
  | inr (args, given) ↦ ground (
    arith,
    given,
    typecheck-json_to_args contents args given,
    ==_iff "evaluate" event,
    ==_iff event "evaluate",
  )
]

-- The arguments of the one method that a client can call: those for `queue` of a device in UploadState.
abbrev pub queue_args : Kind → String → Dict String Value → Option (List Value)
queue_args kind event contents =
    if is_upload kind && event == "evaluate" then json_to_args contents parms else none

handle_kind :
    (kind : Kind) (event : String) (contents : Dict String Value)
    → handle_request registered (class_of kind) event contents
      ≡ elim (queue_args kind event contents) [ none ↦ none | some args ↦ some ("queue", args) ]
unfolding handle_request get
handle_kind (upload firmware) event contents = ground (arith, handle_upload event contents)
handle_kind (flash f) event contents = refl
handle_kind (test exiting) event contents = refl
handle_kind ready event contents = refl
handle_kind broken event contents = refl
handle_kind (flasher firmware) event contents = refl

-- A request to a device that has a state calls a method exactly for the event "evaluate" of a device in
-- UploadState, with a value for both arguments: then it calls `queue` with those values, and otherwise it
-- is ignored.
pub device_request-queue_args :
    (device : Device) (s : State) (event : String) (contents : Dict String Value)
    → device.current ≡ some s
    → device_request registered device event contents
      ≡ elim (queue_args s.kind event contents) [ none ↦ ignored | some args ↦ calls "queue" args ]
unfolding device_request
device_request-queue_args device s event contents now =
    elim (Option-cases (queue_args s.kind event contents)) [
      | inl lacking ↦ ground (arith, now, lacking, handle_kind s.kind event contents)
      | inr (args, given) ↦ ground (arith, now, given, handle_kind s.kind event contents)
    ]
