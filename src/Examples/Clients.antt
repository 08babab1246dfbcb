-- ===== src/Examples/Clients.antt =====
-- Waiting, reserving, batches and results of src/icefarm/client/lib, and the server's sessions, at small
-- inputs.
use i_cefarm.Prelude.{
  ℕ, ◌≢◌, ==_iff, ◌≡◌, ◌↔◌, refl, String, true, false, Option, none, some, List, [], ◌∷◌, not,
  contains, arith, string_key, nat_key, all, any, All, get_or, ◌++◌, ◌||◌, ◌&&◌, if◌then◌else◌,
}
use i_cefarm.Dict.{Dict, get}
use i_cefarm.Utils.Web.{Value}
use i_cefarm.Utils.Session.Sockets.{Server, connects, disconnects, sends, happen_all}
use i_cefarm.Utils.Session.Sockets.Linked.{IsLinked, socket_of, happen_all-IsLinked}
use i_cefarm.Utils.Session.Sockets.Reconnected.{reconnect_loses_socket}
use i_cefarm.Control.Rounds.{TimedOut, worker_timeouts, deliver, get-worker_timeouts}
use i_cefarm.Client.Evaluation.{Evaluation, Serials}
use i_cefarm.Client.Bundle.{Bundle, drain}
use i_cefarm.Client.Connections.{ConnectionInfo, Client, Request, get_connection_info}
use i_cefarm.Client.Waiting.{
  Handler, Signal, initialized, wait_until_initialized, receive_all, wait_for,
}
use i_cefarm.Client.Waiting.Initialized.{covers, initialized_in, wait_until_initialized-ends}
use i_cefarm.Client.Reserving.{granted, Answers, Meanwhile, reserve}
use i_cefarm.Client.Reserving.Granted.{reserve-granted}
use i_cefarm.Client.Events.{evaluate_batch}
use i_cefarm.Client.Events.Avoided.{evaluate_batch-avoids}
use i_cefarm.Client.Connections.Groups.{request_batch_worker}
use i_cefarm.Client.Connections.Requested.{Adds, IsFor, has_info, is_some, request_batch_worker_lem}
use i_cefarm.Client.Drivers.{chosen_serials, evaluate_bitstreams}
use i_cefarm.Client.Drivers.Delivered.{delivered_paths, evaluate_bitstreams-delivers}
use i_cefarm.Client.Factory.{
  Factory, Result, answer, is_awaiting, get_results, process_results, draw_batch,
}
use i_cefarm.Client.Factory
use i_cefarm.Client.Factory.Stalled.{get_results_stalls}

abbrev pair : Serials
pair = record { first = "A"; others = "B" ∷ [] }

abbrev bitstreams : List (String × String)
bitstreams = ("1", "one.asc") ∷ ("2", "two.asc") ∷ []

reserved_pair : chosen_serials [] ("A" ∷ "B" ∷ []) ≡ "A" ∷ "B" ∷ []
unfolding chosen_serials
reserved_pair = refl

evaluate_bitstreams-delivers_example :
    (bundle : Bundle) × (evaluate_bitstreams [] ("A" ∷ "B" ∷ []) bitstreams ≡ some bundle)
    × (delivered_paths pair (drain 3 bundle).0 ≡ "one.asc" ∷ "two.asc" ∷ [])
    × ((drain 3 bundle).1.empty ≡ true)
evaluate_bitstreams-delivers_example =
    evaluate_bitstreams-delivers "A" ("B" ∷ []) [] ("A" ∷ "B" ∷ []) ("1", "one.asc")
      (("2", "two.asc") ∷ []) reserved_pair

abbrev awake : Handler
awake = record { recently_added_serials = []; awaiting_serials = [] }

abbrev signals : List Signal
signals = initialized "B" ∷ initialized "A" ∷ []

-- The event of device A came too early, and the wait goes on.
too_early : (wait_until_initialized ("A" ∷ []) [] (receive_all ("A" ∷ []) awake)).0 ≡ none
unfolding wait_until_initialized receive_all wait_for
too_early = refl

wait_until_initialized-ends_example :
    ((wait_until_initialized ("A" ∷ "B" ∷ []) signals (receive_all ("A" ∷ []) awake)).0 ≡ some [])
    ↔ (covers (initialized_in signals) ("A" ∷ "B" ∷ []) ≡ true)
wait_until_initialized-ends_example =
    wait_until_initialized-ends ("A" ∷ "B" ∷ []) ("A" ∷ []) signals awake refl

abbrev near : ConnectionInfo
near = record { ip = "10.0.0.1"; server_port = "8081" }

abbrev fresh : Client ℕ
fresh = record { connection_info = []; worker_sockets = []; requests = [] }

abbrev answers : Answers
answers = record {
  available = some 3;
  available_again = none;
  rows = some (("A", near) ∷ ("B", near) ∷ []);
}

abbrev during : Meanwhile
during = record { connects = λ url. true; amounts = []; signals = signals }

abbrev address : ConnectionInfo → String
address info = info.ip

reserve-granted_example :
    reserve address 2 false 0 answers during fresh awake ≡ granted ("A" ∷ "B" ∷ [])
reserve-granted_example =
    reserve-granted address 2 3 0 false (("A", near) ∷ ("B", near) ∷ []) answers during fresh awake
      refl (omega arith) refl refl refl

abbrev tracked : Client ℕ
tracked = record {
  connection_info = ("A", near) ∷ ("B", near) ∷ [];
  worker_sockets = ("10.0.0.1", true) ∷ [];
  requests = [];
}

abbrev both : List Evaluation
both = record { serials = pair; id = "1"; filepath = "one.asc" } ∷ []

evaluate_batch-avoids_example :
    Adds
      (λ r. all (λ serial. not (contains serial ("B" ∷ []))) r.serials ≡ true)
      tracked
      (evaluate_batch address true (λ e. 5) both ("B" ∷ []) tracked).1
evaluate_batch-avoids_example = evaluate_batch-avoids address true (λ e. 5) both ("B" ∷ []) tracked

request_batch_worker_lem_example :
    let (failed, c') = request_batch_worker address true "evaluate" 5 ("A" ∷ "B" ∷ []) tracked in
    (new : List (Request ℕ)) × ((c'.requests ≡ tracked.requests ++ new)
      × All (IsFor address true "evaluate" 5 ("A" ∷ "B" ∷ []) tracked) new
      × ((serial : String)
          → (if contains serial ("A" ∷ "B" ∷ [])
                && (has_info (get_connection_info serial tracked) && is_some failed)
              then contains serial (get_or failed []) || any (λ r. contains serial r.serials) new
              else true)
            ≡ true))
request_batch_worker_lem_example =
    request_batch_worker_lem address true "evaluate" 5 ("A" ∷ "B" ∷ []) tracked

abbrev collected : Factory ℕ
collected = Factory.init both 5 30

get_results_stalls_example :
    (get_results (process_results 7 (("A", "1", answer 42) ∷ []) (draw_batch collected).1)).0 ≡ none
unfolding Factory.init is_awaiting
get_results_stalls_example = get_results_stalls 7 (("A", "1", answer 42) ∷ []) collected refl refl

abbrev server : Server ℕ
server = record { sock_id_to_client_id = []; sessions = [] }

server-IsLinked : IsLinked server
unfolding get
server-IsLinked sid client_id h = cc

happen_all-IsLinked_example :
    IsLinked
      (happen_all (λ n. false) (connects "s1" "me" ∷ sends "me" 5 ∷ disconnects "s1" ∷ []) server)
unfolding happen_all
happen_all-IsLinked_example =
    happen_all-IsLinked (λ n. false) (connects "s1" "me" ∷ sends "me" 5 ∷ disconnects "s1" ∷ [])
      server refl server-IsLinked

abbrev me : String
me = "me"

abbrev nobody : String
nobody = ""

named : me ≢ nobody
named = λ e. ground (arith, ==_iff me nobody, e)

abbrev first_sid : String
first_sid = "s1"

abbrev second_sid : String
second_sid = "s2"

differ : first_sid ≢ second_sid
differ = λ e. ground (arith, ==_iff first_sid second_sid, e)

reconnect_loses_socket_example :
    socket_of "me"
      (happen_all
        (λ n. false)
        (connects "s1" "me" ∷ connects "s2" "me" ∷ disconnects "s1" ∷ [])
        server).sessions
    ≡ none
reconnect_loses_socket_example =
    (reconnect_loses_socket (λ n. false) "s1" "s2" "me" server named differ).0

abbrev name_only : String → List (Dict String Value) → Option String
name_only serial contents = some serial

abbrev failed : List TimedOut
failed =
    record { serial = "A"; client_id = "me"; worker = "w" }
    ∷ record { serial = "B"; client_id = "you"; worker = "w" }
    ∷ record { serial = "C"; client_id = "me"; worker = "w" }
    ∷ []

get-worker_timeouts_example :
    get "me" (worker_timeouts name_only (λ n. false) (some failed) [])
    ≡ deliver name_only (λ n. false) "me" ("A" ∷ "C" ∷ []) none
unfolding get
get-worker_timeouts_example = get-worker_timeouts name_only (λ n. false) "me" failed []
