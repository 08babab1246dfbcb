-- ===== src/Worker/Manager/Routed.antt =====
-- Which device a device file reaches: `DeviceManager` of src/icefarm/worker/device/DeviceManager.py.
use i_cefarm.Prelude.{
  ◌≡◌, refl, ap, sym, ◌∙◌, String, some, List, [], ◌∷◌, ◌++◌, string_key, ==_iff, arith,
  Option-cases, inl, inr,
}
use i_cefarm.Dict.{Dict, get, keys, get-put, put_fresh}
use i_cefarm.Worker.Device.{Device, World, Properties, init}
use i_cefarm.Worker.Manager.{Manager, Patterns, get_serial, find_or_add, handle_dev_event, scan}

-- The database was told of exactly the devices that the manager knows, in the same order, once each.
abbrev pub IsRecorded : Manager → Type 0
IsRecorded m = m.added ≡ keys m.devs

keys-snoc :
    (serial : String) (device : Device) (devs : Dict String Device)
    → keys (devs ++ (serial, device) ∷ []) ≡ keys devs ++ serial ∷ []
keys-snoc serial device [] = refl
keys-snoc serial device ((other, d) ∷ devs) = ap (λ l. other ∷ l) (keys-snoc serial device devs)

module _ (patterns : Patterns) (world : World) (firmware : String) where
  get-find_or_add :
      (serial other : String) (m : Manager) (device : Device)
      → get other m.devs ≡ some device
      → get other (find_or_add patterns world firmware serial m).devs ≡ some device
  unfolding find_or_add
  get-find_or_add serial other m device known =
      ground (arith, get-put serial other (init world firmware) m.devs, ==_iff serial other)

  get-handle_dev_event :
      (action : String) (dev : Properties) (other : String) (m : Manager) (device : Device)
      → get other m.devs ≡ some device
      → get other (handle_dev_event patterns world firmware action dev m).devs ≡ some device
  unfolding handle_dev_event
  get-handle_dev_event action dev other m device known =
      elim (Option-cases (get_serial patterns dev)) [
        | inl unrelated ↦ ground (arith, unrelated, known)
        | inr (serial, e) ↦ ground (arith, e, known, get-find_or_add serial other m device known)
      ]

  -- However many device files a scan finds, it does not touch a device that the manager knows: it is
  -- neither made again nor given another state.
  get-scan :
      (devs : List Properties) (other : String) (m : Manager) (device : Device)
      → get other m.devs ≡ some device
      → get other (scan patterns world firmware devs m).devs ≡ some device
  unfolding scan
  get-scan [] other m device known = known
  get-scan (dev ∷ devs) other m device known =
      get-scan devs other (handle_dev_event patterns world firmware "add" dev m) device
        (get-handle_dev_event "add" dev other m device known)

  find_or_add-IsRecorded :
      (serial : String) (m : Manager)
      → IsRecorded m
      → IsRecorded (find_or_add patterns world firmware serial m)
  unfolding find_or_add
  find_or_add-IsRecorded serial m recorded = elim (Option-cases (get serial m.devs)) [
    | inl new ↦
        rw (find_or_add, new)
          (ap (λ l. l ++ serial ∷ []) recorded
            ∙ sym (
                ap keys (put_fresh serial (init world firmware) m.devs new)
                ∙ keys-snoc serial (init world firmware) m.devs))
    | inr (device, known) ↦ rw (find_or_add, known) recorded
  ]

  handle_dev_event-IsRecorded :
      (action : String) (dev : Properties) (m : Manager)
      → IsRecorded m
      → IsRecorded (handle_dev_event patterns world firmware action dev m)
  unfolding handle_dev_event
  handle_dev_event-IsRecorded action dev m recorded =
      elim (Option-cases (get_serial patterns dev)) [
        | inl unrelated ↦ ground (arith, unrelated, recorded)
        | inr (serial, e) ↦ ground (arith, e, recorded, find_or_add-IsRecorded serial m recorded)
      ]

  -- After a scan the database has been told of exactly the devices that the manager knows, once each and
  -- in order, if that was so before.
  scan-IsRecorded :
      (devs : List Properties) (m : Manager)
      → IsRecorded m
      → IsRecorded (scan patterns world firmware devs m)
  unfolding scan
  scan-IsRecorded [] m recorded = recorded
  scan-IsRecorded (dev ∷ devs) m recorded =
      scan-IsRecorded devs (handle_dev_event patterns world firmware "add" dev m)
        (handle_dev_event-IsRecorded "add" dev m recorded)
