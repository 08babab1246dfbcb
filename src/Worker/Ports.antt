-- ===== src/Worker/Ports.antt =====
-- `connectSerial` of src/icefarm/worker/device/state/core/UploadState.py: the search for the serial port
-- of a device that has just been flashed.
use i_cefarm.Prelude.{
  subst, ℕ, zero, suc, ◌+◌, ◌<◌, ◌≡◌, String, Option, none, some, List, [], ◌∷◌, if◌then◌else◌,
  string_key, ◌==◌, get_or, arith,
}
use i_cefarm.Dict.{get}
use i_cefarm.Worker.Device.{Properties}

abbrev pub max_retries : ℕ
max_retries = 5

-- The first file of the main interface, by its device name.
unfoldable pub find_port : List Properties → Option String
find_port [] = none
find_port (dev ∷ devs) =
    let rest = find_port devs in
    if get_or (get "ID_USB_INTERFACE_NUM" dev) "" == "00"
    then some (get_or (get "DEVNAME" dev) "")
    else rest

-- The loop, with the attempts that are left, and the files that `get_devs` finds at each attempt; none is
-- the switch to BrokenState.
unfoldable pub connect_from : ℕ → ℕ → (ℕ → List Properties) → Option String
connect_from zero attempt devs = none
connect_from (suc left) attempt devs =
    let rest = connect_from left (suc attempt) devs in
    elim (find_port (devs attempt)) [ none ↦ rest | some port ↦ some port ]

unfoldable pub connect_serial : (ℕ → List Properties) → Option String
connect_serial devs = connect_from max_retries 0 devs

connect_from-finds :
    (left attempt k : ℕ) (devs : ℕ → List Properties) (port : String)
    → k < left
    → find_port (devs (attempt + k)) ≡ some port
    → ((j : ℕ) → j < k → find_port (devs (attempt + j)) ≡ none)
    → connect_from left attempt devs ≡ some port
unfolding connect_from
connect_from-finds zero attempt k devs port lt found earlier = absurd (omega arith)
connect_from-finds (suc left) attempt zero devs port lt found earlier = ground (arith, found)
connect_from-finds (suc left) attempt (suc k) devs port lt found earlier =
    let now : find_port (devs attempt) ≡ none =
      subst (λ n. find_port (devs n) ≡ none) (omega arith) (earlier 0 (omega arith)) in
    let rest =
      connect_from-finds left (suc attempt) k devs port (omega arith)
        (subst (λ n. find_port (devs n) ≡ some port) (omega arith) found)
        (λ j below.
          subst (λ n. find_port (devs n) ≡ none) (omega arith) (earlier (suc j) (omega arith))) in
    ground (arith, now, rest)

-- The port of the first attempt that finds one is used, if that is among the first five attempts.
connect_serial-finds :
    (k : ℕ) (devs : ℕ → List Properties) (port : String)
    → k < max_retries
    → find_port (devs k) ≡ some port
    → ((j : ℕ) → j < k → find_port (devs j) ≡ none)
    → connect_serial devs ≡ some port
unfolding connect_serial
connect_serial-finds k devs port lt found earlier =
    connect_from-finds max_retries 0 k devs port lt
      (subst (λ n. find_port (devs n) ≡ some port) (omega arith) found)
      (λ j below. subst (λ n. find_port (devs n) ≡ none) (omega arith) (earlier j below))
