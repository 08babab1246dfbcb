-- ===== src/Client/Connections/Reserved.antt =====
-- A reservation that the control server grants: `reserve` of src/icefarm/client/lib/BaseClient.py.
use i_cefarm.Prelude.{
  ◌≡◌, refl, ap, String, Bool, true, false, ◌&&◌, Option, none, some, List, [], ◌∷◌, map, arith,
  string_key, ==_iff, Option-cases, inl, inr,
}
use i_cefarm.Dict.{get, get-put}
use i_cefarm.Client.Connections.{
  Client, ConnectionInfo, returns, add_serial, get_connection_info, add_connection_data,
  connect_worker, connect_serials, reserve,
}

abbrev is_some : Option ConnectionInfo → Bool
is_some none = false
is_some (some info) = true

abbrev pub serials_of_rows : List (String × ConnectionInfo) → List String
serials_of_rows = map (λ row. row.0)

module _ {D : Type 0} where
  -- Whether the client has connection data for all of the serials.
  abbrev are_tracked : List String → Client D → Bool
  are_tracked [] c = true
  are_tracked (serial ∷ serials) c = is_some (get serial c.connection_info) && are_tracked serials c

  add_connection_data-serials :
      (rows : List (String × ConnectionInfo)) (c : Client D)
      → (add_connection_data rows c).0 ≡ serials_of_rows rows
  unfolding add_connection_data
  add_connection_data-serials [] c = refl
  add_connection_data-serials ((serial, info) ∷ rows) c =
      ap (λ l. serial ∷ l) (add_connection_data-serials rows (add_serial serial info c))

  add_connection_data-keeps :
      (other : String) (rows : List (String × ConnectionInfo)) (c : Client D)
      → is_some (get other c.connection_info) ≡ true
      → is_some (get other (add_connection_data rows c).1.connection_info) ≡ true
  unfolding add_connection_data add_serial
  add_connection_data-keeps other [] c known = known
  add_connection_data-keeps other ((serial, info) ∷ rows) c known =
      add_connection_data-keeps other rows (add_serial serial info c)
        (ground (arith, known, get-put serial other info c.connection_info))

  add_connection_data-are_tracked :
      (rows : List (String × ConnectionInfo)) (c : Client D)
      → are_tracked (serials_of_rows rows) (add_connection_data rows c).1 ≡ true
  unfolding add_connection_data add_serial
  add_connection_data-are_tracked [] c = refl
  add_connection_data-are_tracked ((serial, info) ∷ rows) c =
      let c' = add_serial serial info c in
      ground (
        arith,
        add_connection_data-keeps serial rows c'
            (ground (arith, get-put serial serial info c.connection_info, ==_iff serial serial)),
        add_connection_data-are_tracked rows c',
      )

  connect_worker-info :
      (works : Bool) (url : String) (c : Client D)
      → (connect_worker works url c).connection_info ≡ c.connection_info
  unfolding connect_worker
  connect_worker-info works url c = ground arith

  are_tracked_cong :
      (serials : List String) (c c' : Client D)
      → c'.connection_info ≡ c.connection_info
      → are_tracked serials c' ≡ are_tracked serials c
  are_tracked_cong [] c c' same = refl
  are_tracked_cong (serial ∷ serials) c c' same =
      grind (arith, same, are_tracked_cong serials c c' same)

  module _ (url : ConnectionInfo → String) (connects : String → Bool) where
    connect_serials-returns :
        (serials : List String) (c : Client D)
        → are_tracked serials c ≡ true
        → (c' : Client D) × (connect_serials url connects serials c ≡ returns serials c')
    unfolding connect_serials get_connection_info
    connect_serials-returns [] c tracked = (c, refl)
    connect_serials-returns (serial ∷ serials) c tracked =
        elim (Option-cases (get serial c.connection_info)) [
          | inl missing ↦ absurd (ground (arith, missing, tracked))
          | inr (info, found) ↦
              let d = connect_worker (connects (url info)) (url info) c in
              let (c', e) = connect_serials-returns serials d (
                ground (
                  arith,
                  tracked,
                  are_tracked_cong serials c d
                      (connect_worker-info (connects (url info)) (url info) c),
                )) in
              (c', rw (connect_serials, get_connection_info, found, e) refl)
        ]

    -- A reservation that the control server grants never raises for want of connection data: whichever
    -- sockets connect, it returns the serials of the answer's rows, in order.
    pub reserve-returns :
        (rows : List (String × ConnectionInfo)) (c : Client D)
        → (c' : Client D) × (reserve url connects (some rows) c
            ≡ returns (some (serials_of_rows rows)) c')
    unfolding reserve
    reserve-returns rows c =
        let added = add_connection_data rows c in
        let (c', e) =
          connect_serials-returns (serials_of_rows rows) added.1
            (add_connection_data-are_tracked rows c) in
        (c', rw (reserve, add_connection_data-serials rows c, e) refl)
