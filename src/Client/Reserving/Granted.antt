-- ===== src/Client/Reserving/Granted.antt =====
-- When a reservation comes through: src/icefarm/client/lib/BaseClient.py.
use i_cefarm.Prelude.{
  ℕ, ◌≤◌, ◌≡◌, refl, ap, ◌∙◌, String, Bool, true, some, List, [], ◌∷◌, arith, string_key,
}
use i_cefarm.Client.Connections.{ConnectionInfo, Client, returns}
use i_cefarm.Client.Connections
use i_cefarm.Client.Connections.Reserved.{serials_of_rows, reserve-returns}
use i_cefarm.Client.Waiting.{Handler, Signal, wait_until_initialized, receive_all}
use i_cefarm.Client.Waiting.Initialized.{
  initialized_in, is_untimed, covers, wait_until_initialized-ends,
}
use i_cefarm.Client.Reserving.{granted, Answers, Meanwhile, reserve_and_wait, reserve}

wait_ends :
    (serials : List String) (signals : List Signal) (h : Handler)
    → is_untimed signals ≡ true
    → covers (initialized_in signals) serials ≡ true
    → (wait_until_initialized serials signals h).0 ≡ some []
unfolding receive_all
wait_ends serials signals h untimed covered =
    (wait_until_initialized-ends serials [] signals h untimed).1 covered

module _ {D : Type 0} (url : ConnectionInfo → String) where
  reserve_and_wait-granted :
      (rows : List (String × ConnectionInfo)) (answers : Answers) (during : Meanwhile)
      (c : Client D) (h : Handler)
      → answers.rows ≡ some rows
      → is_untimed during.signals ≡ true
      → covers (initialized_in during.signals) (serials_of_rows rows) ≡ true
      → reserve_and_wait url answers during c h ≡ granted (serials_of_rows rows)
  unfolding reserve_and_wait
  reserve_and_wait-granted [] answers during c h given untimed covered =
      let (c', e) = reserve-returns url during.connects [] c in
      rw (reserve_and_wait, ap (λ r. Connections.reserve url during.connects r c) given ∙ e) refl
  reserve_and_wait-granted ((serial, info) ∷ rows) answers during c h given untimed covered =
      let (c', e) = reserve-returns url during.connects ((serial, info) ∷ rows) c in
      rw
        (
          reserve_and_wait,
          ap (λ r. Connections.reserve url during.connects r c) given ∙ e,
          wait_ends (serial ∷ serials_of_rows rows) during.signals h untimed covered,
        )
        refl

  -- A reservation of devices that are available, and that the control server grants, returns exactly the
  -- granted serials, if after the sockets are connected every granted device sends "initialized".
  pub reserve-granted :
      (amount available last_available : ℕ) (wait_for_available : Bool)
      (rows : List (String × ConnectionInfo)) (answers : Answers) (during : Meanwhile)
      (c : Client D) (h : Handler)
      → answers.available ≡ some available
      → amount ≤ available
      → answers.rows ≡ some rows
      → is_untimed during.signals ≡ true
      → covers (initialized_in during.signals) (serials_of_rows rows) ≡ true
      → reserve url amount wait_for_available last_available answers during c h
        ≡ granted (serials_of_rows rows)
  unfolding reserve
  reserve-granted amount available last_available wait_for_available rows answers during c h enough
        le given untimed covered =
      ground
        (arith, enough, le, reserve_and_wait-granted rows answers during c h given untimed covered)
