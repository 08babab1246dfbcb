-- ===== src/Client/Connections/Groups.antt =====
-- `BaseClient.requestBatchWorker` of src/icefarm/client/lib/BaseClient.py: one request for each run of
-- serials that the same worker hosts.
use i_cefarm.Prelude.{
  ◌≡◌, refl, String, Bool, true, false, Option, none, some, List, [], ◌∷◌, ◌++◌, append_assoc,
  if◌then◌else◌, arith, string_key, ==_iff, All, Option-cases, inl, inr,
}
use i_cefarm.Client.Connections.{
  ConnectionInfo, same_info, Request, Client, get_connection_info, send_worker,
}

-- `==` as groupby applies it to two keys: between a ConnectionInfo and None, `__eq__` raises.
unfoldable pub same_key : Option ConnectionInfo → Option ConnectionInfo → Option Bool
same_key none none = some true
same_key none (some j) = none
same_key (some i) none = none
same_key (some i) (some j) = some (same_info i j)

abbrev pub Group : Type 0
Group = Option ConnectionInfo × List String

-- `groupby`, inside a group with its key and the serials that it has so far: the groups that are
-- completed, and whether an exception ends the iteration.
unfoldable pub group_from :
    (String → Option ConnectionInfo)
    → Option ConnectionInfo
    → List String
    → List String
    → List Group × Bool
group_from key_of key batch [] = ((key, batch) ∷ [], false)
group_from key_of key batch (serial ∷ serials) =
    let longer = group_from key_of key (batch ++ serial ∷ []) serials in
    let next = group_from key_of (key_of serial) (serial ∷ []) serials in
    elim (same_key key (key_of serial)) [
      | none ↦ ([], true)
      | some same ↦ if same then longer else ((key, batch) ∷ next.0, next.1)
    ]

unfoldable pub groups : (String → Option ConnectionInfo) → List String → List Group × Bool
groups key_of [] = ([], false)
groups key_of (serial ∷ serials) = group_from key_of (key_of serial) (serial ∷ []) serials

module _ {D : Type 0} (url : ConnectionInfo → String) (packs : Bool) (event : String)
    (contents : D) where
  -- The loop over the groups, with the failed serials.
  unfoldable pub send_groups : List Group → Client D → List String × Client D
  send_groups [] c = ([], c)
  send_groups ((none, batch) ∷ rest) c = send_groups rest c
  send_groups ((some info, batch) ∷ rest) c =
      let r : Request D = record {
        url = url info;
        serials = batch;
        event = event;
        contents = contents;
      } in
      let attempt = send_worker packs r c in
      let later = send_groups rest attempt.1 in
      if attempt.0 then later else (batch ++ later.0, later.1)

  -- The failed serials, or none where an exception ends the method, and the state it leaves.
  unfoldable pub request_batch_worker : List String → Client D → Option (List String) × Client D
  request_batch_worker serials c =
      let g = groups (λ serial. get_connection_info serial c) serials in
      let result = send_groups g.0 c in ((if g.1 then none else some result.0), result.1)

abbrev pub serials_of : List Group → List String
serials_of [] = []
serials_of ((key, batch) ∷ rest) = batch ++ serials_of rest

module _ (key_of : String → Option ConnectionInfo) where
  group_from-serials :
      (key : Option ConnectionInfo) (batch serials : List String)
      → (group_from key_of key batch serials).1 ≡ false
      → serials_of (group_from key_of key batch serials).0 ≡ batch ++ serials
  unfolding group_from
  group_from-serials key batch [] h = refl
  group_from-serials key batch (serial ∷ serials) h = grind (
    arith,
    group_from-serials key (batch ++ serial ∷ []) serials,
    group_from-serials (key_of serial) (serial ∷ []) serials,
    append_assoc batch (serial ∷ []) serials,
  )

  -- Where no exception ends the iteration, the groups are together the serials, in order.
  pub groups-serials :
      (serials : List String)
      → (groups key_of serials).1 ≡ false
      → serials_of (groups key_of serials).0 ≡ serials
  unfolding groups
  groups-serials [] h = refl
  groups-serials (serial ∷ serials) h = group_from-serials (key_of serial) (serial ∷ []) serials h

  -- Each serial of a group has the group's connection info, if it has any.
  abbrev pub IsHosted : Group → Type 0
  IsHosted group = All (λ serial. key_of serial ≡ group.0) group.1

  same_key-eq_some : (i j : Option ConnectionInfo) → same_key i j ≡ some true → j ≡ i
  unfolding same_key
  same_key-eq_some none none h = refl
  same_key-eq_some none (some j) h = absurd (grind arith)
  same_key-eq_some (some i) none h = absurd (grind arith)
  same_key-eq_some (some i) (some j) h =
      grind (arith, ==_iff i.ip j.ip, ==_iff i.server_port j.server_port)

  IsHosted-snoc :
      (key : Option ConnectionInfo) (batch : List String) (serial : String)
      → IsHosted (key, batch)
      → key_of serial ≡ key
      → IsHosted (key, batch ++ serial ∷ [])
  IsHosted-snoc key [] serial h same = (same, tt)
  IsHosted-snoc key (first ∷ batch) serial h same = (h.0, IsHosted-snoc key batch serial h.1 same)

  group_from-IsHosted :
      (key : Option ConnectionInfo) (batch serials : List String)
      → IsHosted (key, batch)
      → All IsHosted (group_from key_of key batch serials).0
  unfolding group_from
  group_from-IsHosted key batch [] h = (h, tt)
  group_from-IsHosted key batch (serial ∷ serials) h =
      let next = group_from-IsHosted (key_of serial) (serial ∷ []) serials (refl, tt) in
      elim (Option-cases (same_key key (key_of serial))) [
        | inl raises ↦ rw (group_from, raises) tt
        | inr (true, same) ↦
            rw (group_from, same)
              (group_from-IsHosted key (batch ++ serial ∷ []) serials
                (IsHosted-snoc key batch serial h (same_key-eq_some key (key_of serial) same)))
        | inr (false, other) ↦ rw (group_from, other) (h, next)
      ]

  pub groups-IsHosted : (serials : List String) → All IsHosted (groups key_of serials).0
  unfolding groups
  groups-IsHosted [] = tt
  groups-IsHosted (serial ∷ serials) =
      group_from-IsHosted (key_of serial) (serial ∷ []) serials (refl, tt)
