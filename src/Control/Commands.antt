-- ===== src/Control/Commands.antt =====
-- `Control` of src/icefarm/control/Control.py, but for the notifications of reservations, and the rounds of
-- `Heartbeat` in Heartbeat.py.
use i_cefarm.Prelude.{
  append-nil, append_assoc, ℕ, ◌≡◌, refl, String, Bool, true, false, Option, none, some, List, [],
  ◌∷◌, ◌++◌, arith, if◌then◌else◌, map,
}

-- What a method returns, or the exception that ends it.
pub data Reply (A : Type 0) : Type 0 where
  value : A → Reply A
  -- Python's False.
  failure : Reply A
  exception : Reply A

module _ (url_of : String → Option String) (accepts : String → String → Bool) where
  -- The loop of `reboot` and of `delete`, with the commands that were sent: to a worker, for a serial.
  unfoldable pub command : List String → List String → Reply (List String) × List (String × String)
  command out [] = (value out, [])
  command out (serial ∷ serials) = elim (url_of serial) [
    | none ↦ (failure, [])
    | some url ↦
        let rest = command (if accepts url serial then out ++ serial ∷ [] else out) serials in
        (rest.0, (url, serial) ∷ rest.1)
  ]

  unfoldable pub reboot : List String → Reply (List String) × List (String × String)
  reboot serials = command [] serials

  unfoldable pub delete : List String → Reply (List String) × List (String × String)
  delete serials = command [] serials

  -- The serials before the first one that the database does not know.
  abbrev pub known_first : List String → List (String × String)
  known_first [] = []
  known_first (serial ∷ serials) = elim (url_of serial) [
    | none ↦ []
    | some url ↦ (url, serial) ∷ known_first serials
  ]

  abbrev pub all_known : List String → Bool
  all_known [] = true
  all_known (serial ∷ serials) = elim (url_of serial) [
    | none ↦ false
    | some url ↦ all_known serials
  ]

  abbrev pub accepted : List (String × String) → List String
  accepted [] = []
  accepted ((url, serial) ∷ rest) =
      if accepts url serial then serial ∷ accepted rest else accepted rest

  command-sent : (out serials : List String) → (command out serials).1 ≡ known_first serials
  unfolding command
  command-sent out [] = refl
  command-sent out (serial ∷ serials) =
      grind (arith, command-sent out serials, command-sent (out ++ serial ∷ []) serials)

-- `end` and `endAll`: the serials of the rows; mapping over the database's False raises.
unfoldable pub end : {R : Type 0} → (R → String) → Option (List R) → Reply (List String)
end serial none = exception
end serial (some rows) = value (map serial rows)

-- `clearWorkers`: the amount that is broadcast after all reservations have ended.
unfoldable pub clear_workers : {D : Type 0} → (D → D) → (D → Option ℕ) → D → Option ℕ × D
clear_workers end_all amount db = let db' = end_all db in (amount db', db')

unfoldable pub amount_available : Option ℕ → Reply ℕ
amount_available none = failure
amount_available (some amount) = value amount

-- A round of the heartbeat: the workers that answered, whose heartbeat is then written.
unfoldable pub heartbeat_round : {W : Type 0} → (W → Bool) → List W → List W
heartbeat_round answers [] = []
heartbeat_round answers (worker ∷ workers) =
    let rest = heartbeat_round answers workers in if answers worker then worker ∷ rest else rest

module _ (url_of : String → Option String) (accepts : String → String → Bool) where
  command-value :
      (out serials : List String)
      → (command url_of accepts out serials).0 ≡ (
          if all_known url_of accepts serials
          then value (out ++ accepted url_of accepts (known_first url_of accepts serials))
          else failure)
  unfolding command
  command-value out [] = rw (append-nil out) refl
  command-value out (serial ∷ serials) = grind (
    arith,
    command-value out serials,
    command-value (out ++ serial ∷ []) serials,
    append_assoc out (serial ∷ []) (accepted url_of accepts (known_first url_of accepts serials)),
  )

  -- A reboot sends its command for the serials before the first unknown one. It returns those that were
  -- accepted if every serial is known, and otherwise False, whatever was sent before.
  reboot_lem :
      (serials : List String)
      → reboot url_of accepts serials ≡ (
        (if all_known url_of accepts serials
            then value (accepted url_of accepts (known_first url_of accepts serials))
            else failure),
        known_first url_of accepts serials,
      )
  unfolding reboot
  reboot_lem serials = cc (command-value [] serials, command-sent url_of accepts [] serials)
