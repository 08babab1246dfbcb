-- ===== src/Examples/Workers.antt =====
-- Requests, device files, firmware uploads, parsers and the remote logger of src/icefarm/worker and
-- src/icefarm/utils at small inputs.
use i_cefarm.Prelude.{◌≡◌, refl, String, true, false, some, List, [], ◌∷◌, ◌++◌, string_key}
use i_cefarm.Dict.{Dict, get}
use i_cefarm.Utils.Web.{
  Value, str, list, empty, typecheck, json_to_args, lookup, if_present, is_accepted, is_instance,
}
use i_cefarm.Utils.RemoteLogger.{Logger, Turn, writes, rounds, run, posted, posted-run}
use i_cefarm.Worker.Device.{Device, State, upload, World, uploaded, Properties}
use i_cefarm.Worker.Manager.{Patterns}
use i_cefarm.Worker.DeviceFiles.{Drive, upload_firmware}
use i_cefarm.Worker.DeviceFiles.Mounted.{after, upload_firmware_unmounts}
use i_cefarm.Worker.Requests.{handle_request, call_method}
use i_cefarm.Worker.Shutdown.{wait_until_no_reservations, wait_until_no_reservations_unwoken}
use i_cefarm.Worker.Manager.{Manager}
use i_cefarm.Worker.Requests.Evaluate.{registered, device_request, calls, device_request-queue_args}
use i_cefarm.Worker.Reader.{Text, codes}
use i_cefarm.Worker.Results.{parse_samples, is_digit, calculate_variance, variance_sum, abs_diff}
use i_cefarm.Worker.Results.Printed.{print_samples, parse_samples-print}

abbrev uploading : State
uploading = record { id = 4; kind = upload "pulse.uf2" }

abbrev device : Device
device = record { current = some uploading; next_id = 5; timers = []; switched = []; effects = [] }

abbrev contents : Dict String Value
contents = ("files", list empty) ∷ ("batch_id", str "b1") ∷ []

evaluates :
    device_request registered device "evaluate" contents
    ≡ calls "queue" (list empty ∷ str "b1" ∷ [])
unfolding device_request handle_request call_method get typecheck json_to_args lookup if_present
    is_accepted is_instance
evaluates = refl

device_request-queue_args_example :
    device_request registered device "evaluate" contents
    ≡ calls "queue" (list empty ∷ str "b1" ∷ [])
unfolding get json_to_args lookup if_present
device_request-queue_args_example =
    device_request-queue_args device uploading "evaluate" contents refl

abbrev bench : World
bench = record { devs = []; uploads = λ path. uploaded; is_default = λ path. true; connects = true }

abbrev empty_manager : Manager
empty_manager = record { devs = []; exiting = false; added = []; started = [] }

abbrev all_match : Patterns
all_match = record { is_dev = λ name. true; is_bus = λ name. false }

-- The reservation of a device that is gone ends, and with it the last one.
wait_until_no_reservations_unwoken_example :
    (wait_until_no_reservations all_match bench "default.uf2"
      (some true)
      (some true)
      (("A", some false) ∷ [])
      empty_manager)
    ≡ (false, empty_manager)
unfolding get
wait_until_no_reservations_unwoken_example =
    wait_until_no_reservations_unwoken all_match bench "default.uf2" (("A", some false) ∷ [])
      empty_manager (refl, tt)

abbrev port : Properties
port = ("DEVNAME", "/dev/ttyACM0") ∷ ("ID_MODEL", "RP2350") ∷ ("ID_SERIAL_SHORT", "A") ∷ []

-- The unmounting fails, and the partition stays mounted.
abbrev drive : Drive
drive = record {
  can_mount = true;
  listing = some ("LOG.TXT" ∷ []);
  can_write = true;
  can_unmount = false;
}

upload_firmware_unmounts_example :
    after (upload_firmware drive "/dev/sda1" "media/A" "pulse.uf2").1 []
    ≡ ("/dev/sda1", "media/A") ∷ []
upload_firmware_unmounts_example =
    upload_firmware_unmounts drive "/dev/sda1" "media/A" "pulse.uf2" []

-- The variance of 1, 4 and 2.
variance_of_three : (calculate_variance (1 ∷ 4 ∷ 2 ∷ [])).numerator ≡ 5
unfolding calculate_variance variance_sum abs_diff
variance_of_three = refl

abbrev printed : List Text
printed = codes "1" ∷ codes "22" ∷ []

parse_samples-print_example : parse_samples (print_samples printed) ≡ some (1 ∷ 22 ∷ [])
unfolding is_digit
parse_samples-print_example =
    parse_samples-print (codes "1") (codes "22" ∷ []) ((refl, refl), ((refl, refl), tt))

abbrev quiet : Logger
quiet = record { logged = []; backlog = []; posts = [] }

abbrev turns : List Turn
turns = writes 20 "one" ∷ rounds false ∷ writes 30 "two" ∷ []

posted-run_example :
    posted (run turns quiet).posts ++ (run turns quiet).backlog ≡ (20, "one") ∷ (30, "two") ∷ []
posted-run_example = posted-run turns quiet
