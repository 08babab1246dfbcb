-- ===== src/Examples/Servers.antt =====
-- src/icefarm/control, src/icefarm/utils and src/icefarm/client/lib at small inputs.
use i_cefarm.Prelude.{
  ℕ, ◌≡◌, refl, String, true, false, Option, none, some, List, [], ◌∷◌, if◌then◌else◌, string_key,
  nat_key, ◌==◌,
}
use i_cefarm.Dict.{get}
use i_cefarm.Utils.Session.{Session}
use i_cefarm.Utils.Session.Held
use i_cefarm.Utils.Session.Held.{Schedule, sends, connects, disconnects, held, sent, held-run}
use i_cefarm.Client.Connections.{ConnectionInfo}
use i_cefarm.Client.Connections.Groups.{groups, group_from, same_key}
use i_cefarm.Utils.Web.{
  Value, int, str, int_class, str_class, class, Annotation, Returned, yes, handler_wrapper,
  json_to_args, lookup, if_present, typecheck, is_accepted, is_instance,
}
use i_cefarm.Utils.Web.Checked.{Fits, handler_wrapper-Fits}

abbrev calls : Schedule ℕ
calls =
    ((λ n. false), sends 1)
    ∷ ((λ n. n == 0), connects "sock")
    ∷ ((λ n. false), disconnects)
    ∷ ((λ n. false), sends 2)
    ∷ []

abbrev fresh : Session ℕ
fresh = record {
  client_id = "me";
  sock_id = none;
  message_queue = [];
  started = 1;
  running = 0 ∷ [];
  emitted = [];
}

held-run_example : held (λ n. n == 1) (Held.run calls fresh) ≡ 1
held-run_example = held-run (λ n. n == 1) calls fresh

abbrev near : ConnectionInfo
near = record { ip = "10.0.0.1"; server_port = "8081" }

abbrev far : ConnectionInfo
far = record { ip = "10.0.0.2"; server_port = "8081" }

abbrev host : String → Option ConnectionInfo
host serial = if serial == "a" then some near else if serial == "x" then none else some far

groups_split :
    groups host ("a" ∷ "b" ∷ "c" ∷ [])
    ≡ ((some near, "a" ∷ []) ∷ (some far, "b" ∷ "c" ∷ []) ∷ [], false)
unfolding groups group_from same_key
groups_split = refl

-- An unknown serial beside a known one ends the iteration.
groups_raise : groups host ("a" ∷ "x" ∷ []) ≡ ([], true)
unfolding groups group_from same_key
groups_raise = refl

abbrev parms : List (String × Annotation)
parms = ("amount", class int_class) ∷ ("kind", class str_class) ∷ []

abbrev func : List Value → Returned ℕ
func args = yes

handler_wrapper-Fits_example :
    Fits (("kind", str "pulsecount") ∷ ("amount", int 2) ∷ []) parms (int 2 ∷ str "pulsecount" ∷ [])
unfolding handler_wrapper json_to_args lookup if_present typecheck is_accepted is_instance get
handler_wrapper-Fits_example =
    handler_wrapper-Fits parms func (("kind", str "pulsecount") ∷ ("amount", int 2) ∷ [])
      (int 2 ∷ str "pulsecount" ∷ []) refl
