-- ===== src/Client/Reserving.antt =====
-- `BaseClient.reserve` and `reboot` of src/icefarm/client/lib/BaseClient.py as a whole: the test of what is
-- available, the wait for it, the reservation, the worker sockets, and the wait for the devices. What
-- the control server answers, and what happens while the client sleeps, are arguments.
pub mod Granted
use i_cefarm.Prelude.{
  ℕ, String, Bool, true, false, Option, none, some, List, [], ◌∷◌, if◌then◌else◌, leb,
}
use i_cefarm.Client.Connections.{ConnectionInfo, Client, Outcome, returns, raises}
use i_cefarm.Client.Connections
use i_cefarm.Client.Waiting.{Handler, Signal, wait_until_initialized, wait_for_amount_available}

-- How the call ends: by an exception, asleep, with the control server's False, or with the serials.
pub data Reserved : Type 0 where
  raised asleep refused : Reserved
  granted : List String → Reserved

-- The control server: the answers to the two calls of `available` (none is False), and to `reserve`.
pub record Answers : Type 0 where
  pub available : Option ℕ
  pub available_again : Option ℕ
  pub rows : Option (List (String × ConnectionInfo))

-- What happens meanwhile: whether a socket connects, the amounts that are announced, and the events.
pub record Meanwhile : Type 0 where
  pub connects : String → Bool
  pub amounts : List ℕ
  pub signals : List Signal

module _ {D : Type 0} (url : ConnectionInfo → String) where
  -- From `super().reserve` on. Without serials nothing is waited for.
  unfoldable pub reserve_and_wait : Answers → Meanwhile → Client D → Handler → Reserved
  reserve_and_wait answers during c h =
      elim (Connections.reserve url during.connects answers.rows c) [
        | raises result c' ↦ raised
        | returns result c' ↦ elim result [
          | none ↦ refused
          | some [] ↦ granted []
          | some (serial ∷ serials) ↦
              elim (wait_until_initialized (serial ∷ serials) during.signals h).0 [
                | none ↦ asleep
                | some still_awaited ↦ granted (serial ∷ serials)
              ]
        ]
      ]

  unfoldable pub reserve : ℕ → Bool → ℕ → Answers → Meanwhile → Client D → Handler → Reserved
  reserve amount wait_for_available last_available answers during c h = elim answers.available [
    | none ↦ raised
    | some amount_available ↦
        if leb amount amount_available
        then reserve_and_wait answers during c h
        else if wait_for_available
        then (elim (wait_for_amount_available amount answers.available_again last_available
            during.amounts).0 [ false ↦ asleep | true ↦ reserve_and_wait answers during c h ])
        else raised
  ]

-- `reboot`, with the serials that the caller names; the value is the set that is still awaited, or none
-- while the call sleeps. What the control server answers is not looked at.
unfoldable pub reboot : List String → List Signal → Handler → Option (List String)
reboot serials signals h =
    (wait_until_initialized serials signals (record h { recently_added_serials = [] })).0
