-- ===== src/Examples/Schemas.antt =====
-- The database of src/icefarm/control/flyway and what the control server makes of it, at a small farm.
use i_cefarm.Prelude.{
  ◌≤◌, ◌≡◌, refl, String, true, false, Option, none, some, List, [], ◌∷◌, map, string_key, ◌==◌,
  ◌&&◌, contains,
}
use i_cefarm.Utils.Web.{Values, empty, more, str}
use i_cefarm.Client.Connections.{Client}
use i_cefarm.Schema.{Db, Worker, available, reserved, testing, insert_reservation}
use i_cefarm.Schema.Reservations.{
  make_specific_reservations, make_reservations, candidates, write_reservations, has_reservations,
  Grant,
}
use i_cefarm.Schema.Endings.{end_reservations}
use i_cefarm.Schema.Commands.{Command, perform, run}
use i_cefarm.Schema.Valid.{IsValid}
use i_cefarm.Schema.Leases.{lease_of}
use i_cefarm.Schema.Meaning.{lease-perform}
use i_cefarm.Schema.Sound.{run-IsValid}
use i_cefarm.Schema.Granted.{succeeded, IsConsistent}
use i_cefarm.Schema.Specific.{make_specific_reservations_lem}
use i_cefarm.Schema.Amount.{Reorders, make_reservations_lem}
use i_cefarm.Schema.Consistent.{run-IsConsistent}
use i_cefarm.Schema.Announced.{reservations_seen, run-reservations_seen}
use i_cefarm.Schema.Exclusive.{write_reservations-exclusive}
use i_cefarm.Schema.Joined.{has_reservations_anywhere}
use i_cefarm.Control.Cells.{Cell, text}
use i_cefarm.Control.Endpoints.Called.{delivered, end}
use i_cefarm.Control.Endpoints.Ended.{Told, end-Told}

abbrev host : String → Worker
host id = record {
  id = id;
  host = "10.0.0.1";
  port = 8081;
  heartbeat = 5;
  farm_version = "1";
  reservables = "pulsecount" ∷ [];
  shutting_down = false;
}

-- Two free devices and one that "bob" has.
abbrev farm : Db
farm = record {
  workers = host "w" ∷ host "v" ∷ [];
  devices =
      record { id = "a"; worker_id = "w"; device_status = available }
      ∷ record { id = "b"; worker_id = "w"; device_status = available }
      ∷ record { id = "c"; worker_id = "w"; device_status = reserved }
      ∷ [];
  reservations = record { device_id = "c"; client_id = "bob"; until = 100 } ∷ [];
  notified = [];
}

farm-IsValid : IsValid farm
farm-IsValid = record {
  workers_once = (refl, (refl, tt));
  placed = (refl, (refl, (refl, tt)));
  stored = record {
    devices_once = (refl, (refl, (refl, tt)));
    reserved_once = (refl, tt);
    reserved_listed = (refl, tt);
  };
}

farm-IsConsistent : IsConsistent farm
farm-IsConsistent = (refl, (refl, (refl, tt)))

abbrev grant : String → Grant
grant id = record { device_id = id; worker_host = "10.0.0.1"; worker_port = 8081 }

candidates_ab : candidates "pulsecount" farm ≡ grant "a" ∷ grant "b" ∷ []
unfolding candidates
candidates_ab = refl

-- A duplicate is refused.
named_twice :
    succeeded (make_specific_reservations 9 "amy" ("a" ∷ "a" ∷ []) "pulsecount" farm) ≡ false
unfolding make_specific_reservations
named_twice = refl

abbrev day : List Command
day =
    Command.make_specific_reservations 9 "amy" ("b" ∷ []) "pulsecount"
    ∷ Command.write_reservations "eve" 9 (grant "b" ∷ [])
    ∷ Command.update_device_status "a" testing
    ∷ Command.handle_reservation_timeouts 200
    ∷ Command.add_worker 300 "w" "10.0.0.2" 8081 "2" []
    ∷ []

run-IsValid_example : IsValid (run day farm)
run-IsValid_example = run-IsValid day farm farm-IsValid

run-IsConsistent_example : IsConsistent (run day farm)
run-IsConsistent_example =
    run-IsConsistent day farm (tt, (tt, (refl, (tt, (tt, tt))))) farm-IsConsistent

run-reservations_seen_example : 1 ≤ reservations_seen "c" "bob" (run day farm)
unfolding lease_of
run-reservations_seen_example = run-reservations_seen "c" "bob" day farm farm-IsValid

lease-perform_example :
    lease_of "c" (end_reservations "bob" ("a" ∷ "c" ∷ []) farm).1.reservations ≡ none
unfolding lease_of perform end_reservations
lease-perform_example =
    lease-perform (Command.end_reservations "bob" ("a" ∷ "c" ∷ [])) "c" farm
      (end_reservations "bob" ("a" ∷ "c" ∷ []) farm).1 farm-IsValid refl

make_specific_reservations_lem_example :
    succeeded (make_specific_reservations 9 "amy" ("b" ∷ "a" ∷ []) "pulsecount" farm) ≡ true
make_specific_reservations_lem_example =
    (make_specific_reservations_lem ("b" ∷ "a" ∷ []) "pulsecount" farm farm-IsValid 9 "amy"
        farm-IsConsistent).0.1
      ((refl, (refl, tt)), (refl, (refl, tt)))

as_listed : Reorders (λ rows. rows)
as_listed = record { same_length = λ rows. refl; same_rows = λ rows x. refl }

make_reservations_lem_example :
    succeeded (make_reservations (λ rows. rows) 9 3 "amy" "pulsecount" farm) ≡ false
unfolding candidates
make_reservations_lem_example =
    (make_reservations_lem (λ rows. rows) as_listed 3 "pulsecount" farm farm-IsValid 9 "amy"
      farm-IsConsistent).0

abbrev amy_has_a : Db
amy_has_a = record farm {
  devices =
      record { id = "a"; worker_id = "w"; device_status = reserved }
      ∷ record { id = "b"; worker_id = "w"; device_status = available }
      ∷ record { id = "c"; worker_id = "w"; device_status = reserved }
      ∷ [];
  reservations =
      record { device_id = "c"; client_id = "bob"; until = 100 }
      ∷ record { device_id = "a"; client_id = "amy"; until = 3600000009 }
      ∷ [];
}

write_reservations-exclusive_example :
    write_reservations "eve" 10 (grant "b" ∷ grant "a" ∷ []) amy_has_a ≡ none
unfolding write_reservations insert_reservation
write_reservations-exclusive_example =
    write_reservations-exclusive "amy" "eve" 9 10 "a" (grant "a" ∷ []) (grant "b" ∷ grant "a" ∷ [])
      farm amy_has_a refl refl refl

-- The worker "v" has no device.
has_reservations_anywhere_example : has_reservations "v" farm ≡ true
has_reservations_anywhere_example = has_reservations_anywhere farm farm-IsValid "v"

-- The client's library and the database's driver, at lists of texts.
abbrev read_texts : List Cell → Option (List String)
read_texts [] = some []
read_texts (text id ∷ cells) = elim (read_texts cells) [ none ↦ none | some ids ↦ some (id ∷ ids) ]
read_texts (cell ∷ cells) = none

read_texts-map : (ids : List String) → read_texts (map text ids) ≡ some ids
read_texts-map [] = refl
read_texts-map (id ∷ ids) = rw (read_texts-map ids) refl

abbrev read_values : Values → Option (List String)
read_values empty = some []
read_values (more (str id) values) = elim (read_values values) [
  | none ↦ none
  | some ids ↦ some (id ∷ ids)
]
read_values (more value values) = none

abbrev bob : Client String
bob = record {
  connection_info =
      ("a", record { ip = "10.0.0.1"; server_port = "8081" })
      ∷ ("c", record { ip = "10.0.0.1"; server_port = "8081" })
      ∷ [];
  worker_sockets = [];
  requests = [];
}

-- "bob" has reserved "c" only.
end-Told_example :
    Told true delivered
      (λ r. r.client_id == "bob" && contains r.device_id ("a" ∷ "c" ∷ []))
      bob
      farm
      (end read_texts
        (λ info. info.ip)
        (λ cell. cell)
        read_values
        true
        delivered
        "bob"
        ("a" ∷ "c" ∷ [])
        bob
        farm)
end-Told_example =
    end-Told read_texts read_texts-map (λ info. info.ip) bob farm farm-IsValid true (λ cell. cell)
      read_values "bob" ("a" ∷ "c" ∷ []) refl delivered
