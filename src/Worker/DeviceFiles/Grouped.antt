-- ===== src/Worker/DeviceFiles/Grouped.antt =====
-- Which files `get_devs` of src/icefarm/utils/dev.py finds for a device.
use i_cefarm.Prelude.{
  ◌≡◌, sym, String, Bool, false, Option, none, some, List, [], ◌∷◌, ◌++◌, append-nil, append_assoc,
  if◌then◌else◌, string_key, ◌==◌, ==_iff, get_or, arith, Option-cases, inl, inr,
}
use i_cefarm.Dict.{Dict, get, put, get-put}
use i_cefarm.Worker.Device.{Properties}
use i_cefarm.Worker.Manager.{Patterns, get_serial}
use i_cefarm.Worker.DeviceFiles.{add_file, collect, get_devs}

abbrev is_of : String → Option String → Bool
is_of serial none = false
is_of serial (some other) = other == serial

module _ (patterns : Patterns) where
  -- The files that belong to a device, in the order of the system.
  abbrev pub files_of : String → List Properties → List Properties
  files_of serial [] = []
  files_of serial (dev ∷ devs) =
      if is_of serial (get_serial patterns dev)
      then dev ∷ files_of serial devs
      else files_of serial devs

  collect-files_of :
      (serial : String) (devs : List Properties) (out : Dict String (List Properties))
      → get_or (get serial (collect patterns devs out)) []
        ≡ get_or (get serial out) [] ++ files_of serial devs
  unfolding collect add_file
  collect-files_of serial [] out = sym (append-nil _)
  collect-files_of serial (dev ∷ devs) out = elim (Option-cases (get_serial patterns dev)) [
    | inl unrelated ↦ grind (arith, unrelated, collect-files_of serial devs out)
    | inr (other, e) ↦
        let held = get_or (get other out) [] ++ dev ∷ [] in
        grind (
          arith,
          e,
          collect-files_of serial devs (put other held out),
          get-put other serial held out,
          ==_iff other serial,
          append_assoc (get_or (get serial out) []) (dev ∷ []) (files_of serial devs),
        )
  ]

  -- The files that are found for a device are exactly those with its serial, in the order of the system,
  -- and none if there are none.
  get_devs-files_of :
      (serial : String) (devs : List Properties)
      → get_or (get serial (get_devs patterns devs)) [] ≡ files_of serial devs
  unfolding get_devs get
  get_devs-files_of serial devs = collect-files_of serial devs []
