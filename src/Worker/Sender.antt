-- ===== src/Worker/Sender.antt =====
-- The events of a device: `DeviceEventSender` of src/icefarm/worker/device/DeviceEventSender.py. The json
-- text of a serial's entries is an argument, and so is the client that the database has for it.
use i_cefarm.Prelude.{ℕ, ◌≡◌, refl, String, Bool, Option, List, [], ◌∷◌, string_key, map}
use i_cefarm.Dict.{Dict, put}
use i_cefarm.Utils.Web.{Value, str}
use i_cefarm.Utils.Session.Table.{Sessions, send_serial_json}

-- An entry of a message; the key "event" of the contents is replaced.
abbrev pub Entry : Type 0
Entry = Dict String Value

-- `contents["event"] = event`
abbrev pub with_event : String → Entry → Entry
with_event event contents = put "event" (str event) contents

module _ {M : Type 0} (pack : String → List Entry → Option M) (raises : ℕ → Bool)
    (client_of : String → Option String) (serial : String) where
  unfoldable pub send_device_event : String → Entry → Sessions M → Bool × Sessions M
  send_device_event event contents sessions =
      send_serial_json raises (client_of serial) (pack serial (with_event event contents ∷ []))
        sessions

  unfoldable pub send_device_events : List (String × Entry) → Sessions M → Bool × Sessions M
  send_device_events events sessions =
      send_serial_json raises (client_of serial)
        (pack serial (map (λ (e : String × Entry). with_event e.0 e.1) events)) sessions

  unfoldable pub send_device_initialized : Sessions M → Bool × Sessions M
  send_device_initialized = send_device_event "initialized" []

  unfoldable pub send_device_reservation_end : Sessions M → Bool × Sessions M
  send_device_reservation_end = send_device_event "reservation end" []

  unfoldable pub send_device_failure : Sessions M → Bool × Sessions M
  send_device_failure = send_device_event "failure" []

  -- One event is sent like a list of one.
  send_device_events_one :
      (event : String) (contents : Entry) (sessions : Sessions M)
      → send_device_events ((event, contents) ∷ []) sessions
        ≡ send_device_event event contents sessions
  unfolding send_device_events send_device_event
  send_device_events_one event contents sessions = refl
