-- ===== src/Schema/Sound.antt =====
-- The keys and references of the tables hold in every run of commands.
use i_cefarm.Prelude.{
  ℕ, String, Bool, List, [], ◌∷◌, map, get_or, arith, string_key, if◌then◌else◌, ◌+◌, contains,
}
use i_cefarm.Schema.{Db, DeviceStatus, Reservation, hour, reserved, await_flash_default, set_status}
use i_cefarm.Schema.Reservations.{extend_where, granted_ids, new_reservation}
use i_cefarm.Schema.Commands.{Command, perform, run}
use i_cefarm.Schema.Valid.{
  IsValid, set_status-IsValid, delete_reservations-IsValid, delete_devices-IsValid,
  delete_workers-IsValid, change_reservations-IsValid, change_workers-IsValid,
}
use i_cefarm.Schema.Inserted.{
  insert_reservations-IsValid, insert_worker-IsValid, insert_device-IsValid,
}
use i_cefarm.Schema.Kept.{IsKept, Allows, AllAllowed, kept-run}

extend_where-IsValid :
    (p : Reservation → Bool) (now : ℕ) (db : Db) → IsValid db → IsValid (extend_where p now db).1
unfolding extend_where
extend_where-IsValid p now db v =
    change_reservations-IsValid (λ r. if p r then record r { until = now + hour } else r)
      (λ r. ground arith) db v

-- Any update of a status.
abbrev pub AnyStatus : String → DeviceStatus → Db → Type 0
AnyStatus did status db = Unit

pub IsValid-kept : IsKept IsValid AnyStatus
IsValid-kept = record {
  without_reservations = delete_reservations-IsValid;
  without_devices = delete_devices-IsValid;
  without_workers = delete_workers-IsValid;
  changed_workers = change_workers-IsValid;
  extended = extend_where-IsValid;
  with_worker = insert_worker-IsValid;
  with_device = λ d db s v. insert_device-IsValid d db v;
  awaiting = λ p db v. set_status-IsValid p await_flash_default db v;
  updated = λ did status db a v. set_status-IsValid _ status db v;
  written = λ client_name now res db v.
      insert_reservations-IsValid (map (new_reservation client_name now) res)
        (set_status (λ d. contains d.id (granted_ids res)) reserved db)
        (set_status-IsValid (λ d. contains d.id (granted_ids res)) reserved db v);
}

pub all_allowed : (commands : List Command) (db : Db) → AllAllowed AnyStatus commands db
all_allowed [] db = tt
all_allowed (command ∷ commands) db =
    (any command, all_allowed commands (get_or (perform command db) db))
  where
    any : (c : Command) → Allows AnyStatus c db
    any (Command.update_device_status did status) = tt
    any _ = tt

-- Whatever the servers ask of a database whose keys and references hold, in whatever order, and whichever
-- transactions raise: they hold afterwards. So no device is ever reserved twice, also where two reservations
-- found the same device, and no reservation outlives its device or its worker.
pub run-IsValid : (commands : List Command) (db : Db) → IsValid db → IsValid (run commands db)
run-IsValid commands db v =
    kept-run IsValid AnyStatus IsValid-kept commands db (all_allowed commands db) v
