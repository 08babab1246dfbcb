-- ===== src/Worker/Device/Flashing.antt =====
-- A flashing device is told to reboot into its bootloader at most once, and at most one firmware is
-- written: FlashState.py of src/icefarm/worker/device/state/core.
use i_cefarm.Prelude.{
  ℕ, ◌+◌, ◌≤◌, ◌≡◌, refl, ap, String, Bool, true, false, List, [], ◌∷◌, arith, count, count-append,
  if◌then◌else◌, get_or, string_key, ◌⊎◌, inl, inr, string_key, nat_key, ◌⊎◌, inl, inr,
}
use i_cefarm.Dict.{get}
use i_cefarm.Worker.Device.{
  Device, World, Properties, Effect, status, event, bootloader, write_firmware, Flash, flash,
  Flashed, stays, stops, gone, Factory, flash_add, flash_files, enter_flash, enter_broken, emit,
  switch, cancel_timer, install, settle, fresh_flash,
}

-- The two actions that reach the hardware.
pub data Action : Type 0 where
  boots writes : Action

abbrev pub is_action : Action → Effect → Bool
is_action boots (bootloader devname) = true
is_action writes (write_firmware devname firmware) = true
is_action action effect = false

abbrev pub done : Action → Device → ℕ
done action d = count (is_action action) d.effects

-- What a flash state may still do.
abbrev pub spare : Action → Flash → ℕ
spare boots f = if f.bootloader_sent then 0 else 1
spare writes f = if f.uploading then 0 else 1

-- What has been done, and may still be done where the flash state stays.
abbrev pub spent : Action → Flashed → ℕ
spent action (stays f d) = done action d + spare action f
spent action (stops f d) = done action d + spare action f
spent action (gone d) = done action d

done-switch :
    (action : Action) (id : ℕ) (next : Device → Device) (d : Device)
    → ((d : Device) → done action (next d) ≤ done action d)
    → done action (switch id next d) ≤ done action d
unfolding switch
done-switch action id next d quiet = ground (arith, quiet (record d { switched = id ∷ d.switched }))

done-enter_broken : (action : Action) (d : Device) → done action (enter_broken d) ≤ done action d
unfolding enter_broken install
done-enter_broken boots d =
    omega (arith, count-append (is_action boots) d.effects (status "broken" ∷ event "failure" ∷ []))
done-enter_broken writes d =
    omega
      (arith, count-append (is_action writes) d.effects (status "broken" ∷ event "failure" ∷ []))

done-emit :
    (action : Action) (effect : Effect) (d : Device)
    → done action (emit effect d) ≡ done action d + (if is_action action effect then 1 else 0)
unfolding emit
done-emit action effect d = omega (arith, count-append (is_action action) d.effects (effect ∷ []))

-- The three ways in which a method of FlashState ends.
pub Flashed-cases :
    (r : Flashed)
    → ((f : Flash) × (d : Device) × (r ≡ stays f d))
      ⊎ (((f : Flash) × (d : Device) × (r ≡ stops f d)) ⊎ ((d : Device) × (r ≡ gone d)))
Flashed-cases (stays f d) = inl (f, d, refl)
Flashed-cases (stops f d) = inr (inl (f, d, refl))
Flashed-cases (gone d) = inr (inr (d, refl))

module _ (world : World) (next : Device → Device) (id : ℕ) where
  flash_add-spent :
      (action : Action) (dev : Properties) (f : Flash) (d : Device)
      → ((d : Device) → done action (next d) ≤ done action d)
      → spent action (flash_add world next id dev f d) ≤ done action d + spare action f
  unfolding flash_add cancel_timer
  flash_add-spent boots dev f d quiet =
      let devname = get_or (get "DEVNAME" dev) "" in
      let d' = emit (write_firmware devname f.firmware_path) d in
      ground (
        arith,
        done-emit boots (bootloader devname) d,
        done-emit boots (write_firmware devname f.firmware_path) d,
        done-switch boots id enter_broken (cancel_timer id d') (done-enter_broken boots),
        done-switch boots id next (cancel_timer id d') quiet,
      )
  flash_add-spent writes dev f d quiet =
      let devname = get_or (get "DEVNAME" dev) "" in
      let d' = emit (write_firmware devname f.firmware_path) d in
      ground (
        arith,
        done-emit writes (bootloader devname) d,
        done-emit writes (write_firmware devname f.firmware_path) d,
        done-switch writes id enter_broken (cancel_timer id d') (done-enter_broken writes),
        done-switch writes id next (cancel_timer id d') quiet,
      )

  flash_files-spent :
      (action : Action) (devs : List Properties) (f : Flash) (d : Device)
      → ((d : Device) → done action (next d) ≤ done action d)
      → spent action (flash_files world next id devs f d) ≤ done action d + spare action f
  unfolding flash_files
  flash_files-spent action [] f d quiet = omega arith
  flash_files-spent action (dev ∷ devs) f d quiet =
      let first = flash_add-spent action dev f d quiet in
      elim (Flashed-cases (flash_add world next id dev f d)) [
        | inl (f', d', e) ↦
            rw (e, flash_files)
              (omega (arith, flash_files-spent action devs f' d' quiet, ap (spent action) e))
        | inr (inl (f', d', e)) ↦ rw (e, flash_files) (omega (arith, ap (spent action) e))
        | inr (inr (d', e)) ↦ rw (e, flash_files) (omega (arith, ap (spent action) e))
      ]

done-install :
    (action : Action) (f : Flash) (timed : Bool) (d : Device)
    → done action (install (flash f) timed [] d) ≡ done action d
unfolding install
done-install action f timed d = omega (arith, count-append (is_action action) d.effects [])

done-settle : (action : Action) (id : ℕ) (r : Flashed) → done action (settle id r) ≤ spent action r
done-settle action id (stays f d) = omega arith
done-settle action id (stops f d) = omega arith
done-settle action id (gone d) = omega arith

spare-fresh_flash :
    (action : Action) (firmware : String) (next : Factory)
    → spare action (fresh_flash firmware next) ≡ 1
unfolding fresh_flash
spare-fresh_flash boots firmware next = refl
spare-fresh_flash writes firmware next = refl

-- Starting a FlashState with any device files sends at most one bootloader signal and writes at most one
-- firmware, if the next state does neither.
pub enter_flash_once :
    (action : Action) (world : World) (firmware : String) (timed : Bool) (next : Factory)
    (enter : Device → Device) (d : Device)
    → ((d : Device) → done action (enter d) ≤ done action d)
    → done action (enter_flash world firmware timed next enter d) ≤ done action d + 1
unfolding enter_flash
enter_flash_once action world firmware timed next enter d quiet =
    let f = fresh_flash firmware next in
    let d' = install (flash f) timed [] d in
    let r = flash_files world enter d.next_id world.devs f d' in
    omega (
      arith,
      done-settle action d.next_id r,
      flash_files-spent world enter d.next_id action world.devs f d' quiet,
      done-install action f timed d,
      spare-fresh_flash action firmware next,
    )
