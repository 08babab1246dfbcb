-- ===== src/Client/Events.antt =====
-- The client's side of events and batches: the callback `event` of `EventServer` in
-- src/icefarm/client/lib/EventServer.py, and `ResultHandler` and `_evaluateBatch` in BatchClient.py. What a
-- message holds is an argument of the type of its entries.
pub mod Avoided
pub mod Routed
use i_cefarm.Prelude.{
  ℕ, String, Bool, true, false, ◌&&◌, not, Option, none, some, List, [], ◌∷◌, ◌++◌, if◌then◌else◌,
  map, string_key, ◌==◌, contains, select, is_nonempty,
}
use i_cefarm.Dict.{Dict, get, put, remove}
use i_cefarm.Client.Evaluation.{Evaluation, members}
use i_cefarm.Client.Factory.{Factory, Outcome, answer, process_results}
use i_cefarm.Client.Connections.{ConnectionInfo, Client}
use i_cefarm.Client.Connections.Groups.{request_batch_worker}

pub record Event (C : Type 0) : Type 0 where
  pub serial : String
  pub event : String
  pub contents : C

-- A parsed message: its serial, and its entries, if they are a list. An entry that is empty is none.
pub record Message (C : Type 0) : Type 0 where
  pub serial : String
  pub contents : Option (List (Option C))

module _ {C S : Type 0} (event_of : C → String) (set_serial : String → C → C)
    (handle_event : Event C → S → S) where
  -- The loop over the entries: the first bad one ends it.
  unfoldable pub handle_contents : String → List (Option C) → S → S
  handle_contents serial [] s = s
  handle_contents serial (none ∷ rest) s = s
  handle_contents serial (some content ∷ rest) s =
      let e : Event C = record {
        serial = serial;
        event = event_of content;
        contents = set_serial serial content;
      } in
      let later = handle_contents serial rest (handle_event e s) in
      if serial == "" then s else if event_of content == "" then s else later

  -- The callback, with none for data that does not parse.
  unfoldable pub receive : Option (Message C) → S → S
  receive none s = s
  receive (some message) s = elim message.contents [
    | none ↦ s
    | some contents ↦ handle_contents message.serial contents s
  ]

-- `EventServer.handleEvent`: the handlers, in the order in which they were added.
unfoldable pub handle_all : {E S : Type 0} → List (E → S → S) → E → S → S
handle_all [] e s = s
handle_all (handler ∷ handlers) e s = handle_all handlers e (handler e s)

-- `BatchClient.batch_factories`
abbrev pub Factories : Type 0 → Type 0
Factories V = Dict String (Factory V)

-- `ResultHandler.results`
unfoldable pub results :
    {V : Type 0} → ℕ → String → String → List (String × V) → Factories V → Factories V
results now batch_id serial found factories = elim (get batch_id factories) [
  | none ↦ factories
  | some factory ↦
      put batch_id (process_results now (map (λ r. (serial, r.0, answer r.1)) found) factory)
        factories
]

-- `evaluation.serials - bad_serials`, as a list.
abbrev pub good_serials : List String → Evaluation → List String
good_serials bad_serials evaluation =
    select (λ serial. not (contains serial bad_serials)) (members evaluation.serials)

module _ {D : Type 0} (url : ConnectionInfo → String) (packs : Bool)
    (to_json : Evaluation → D) where
  -- `_evaluateBatch`: the failed serials of each evaluation, or none where a request raises.
  unfoldable pub evaluate_batch :
      List Evaluation → List String → Client D → Option (List (List String)) × Client D
  evaluate_batch [] bad_serials c = (some [], c)
  evaluate_batch (evaluation ∷ evaluations) bad_serials c =
      let sent =
        request_batch_worker url packs "evaluate" (to_json evaluation)
          (good_serials bad_serials evaluation) c in
      elim sent.0 [
        | none ↦ (none, sent.1)
        | some failed ↦
            let later = evaluate_batch evaluations bad_serials sent.1 in
            elim later.0 [ none ↦ (none, later.1) | some rest ↦ (some (failed ∷ rest), later.1) ]
      ]
