-- ===== src/Client/Connections/Requested.antt =====
-- What a batch request sends: `requestBatchWorker` of src/icefarm/client/lib/BaseClient.py.
use i_cefarm.Prelude.{
  ◌≡◌, refl, sym, ap, ◌∙◌, String, Bool, true, false, ◌&&◌, ◌||◌, Option, none, some, List, [], ◌∷◌,
  ◌++◌, append_assoc, append-nil, if◌then◌else◌, arith, string_key, contains, contains-append, ◌⊎◌,
  any, All, get_or, ==_iff, Option-cases, Bool-cases, inl, inr, subst,
}
use i_cefarm.Dict.{get}
use i_cefarm.Client.Connections.{ConnectionInfo, Request, Client, get_connection_info, send_worker}
use i_cefarm.Client.Connections.Groups.{
  Group, groups, send_groups, request_batch_worker, serials_of, IsHosted, groups-IsHosted,
  groups-serials,
}

-- The requests that were added have a property.
abbrev pub Adds : {D : Type 0} → (Request D → Type 0) → Client D → Client D → Type 0
Adds {D} P c c' = (new : List (Request D)) × ((c'.requests ≡ c.requests ++ new) × All P new)

pub Adds-none : {D : Type 0} (P : Request D → Type 0) (c : Client D) → Adds P c c
Adds-none P c = ([], (sym (append-nil c.requests), tt))

All-append : {A : Type 0} (P : A → Type 0) (xs ys : List A) → All P xs → All P ys → All P (xs ++ ys)
All-append P [] ys h k = k
All-append P (x ∷ xs) ys h k = (h.0, All-append P xs ys h.1 k)

pub Adds-then :
    {D : Type 0} (P : Request D → Type 0) (c d e : Client D) → Adds P c d → Adds P d e → Adds P c e
Adds-then P c d e (xs, (h, p)) (ys, (k, q)) = (
  xs ++ ys,
  (k ∙ (ap (λ rs. rs ++ ys) h ∙ append_assoc c.requests xs ys), All-append P xs ys p q),
)

-- Whether there is connection info, and its url.
abbrev pub has_info : Option ConnectionInfo → Bool
has_info none = false
has_info (some info) = true

abbrev pub is_some : Option (List String) → Bool
is_some none = false
is_some (some failed) = true

abbrev pub url_of : (ConnectionInfo → String) → Option ConnectionInfo → Option String
url_of url none = none
url_of url (some info) = some (url info)

-- The serials of the groups that have connection info.
abbrev pub hosted : List Group → List String
hosted [] = []
hosted ((none, batch) ∷ rest) = hosted rest
hosted ((some info, batch) ∷ rest) = batch ++ hosted rest

-- A request is sent, or it fails and nothing is.
send_worker-cases :
    {D : Type 0} (packs : Bool) (r : Request D) (c : Client D)
    → (((send_worker packs r c).0 ≡ true)
        × ((send_worker packs r c).1.requests ≡ c.requests ++ r ∷ []))
      ⊎ (((send_worker packs r c).0 ≡ false) × ((send_worker packs r c).1.requests ≡ c.requests))
unfolding send_worker
send_worker-cases false r c = inr (refl, refl)
send_worker-cases true r c = elim (Option-cases (get r.url c.worker_sockets)) [
  | inl missing ↦ rw missing (inr (refl, refl))
  | inr (true, found) ↦ rw found (inl (refl, refl))
  | inr (false, found) ↦ rw found (inr (refl, refl))
]

module _ {D : Type 0} (url : ConnectionInfo → String) (packs : Bool) (event : String)
    (contents : D) where
  abbrev pub request_of : ConnectionInfo → List String → Request D
  request_of info batch = record {
    url = url info;
    serials = batch;
    event = event;
    contents = contents;
  }

  -- What a group must have for its request to have a property.
  abbrev pub AllowsGroup : (Request D → Type 0) → Group → Type 0
  AllowsGroup P group = (info : ConnectionInfo) → group.0 ≡ some info → P (request_of info group.1)

  -- The requests of some groups; a serial with connection info is in one, or failed.
  pub send_groups-Adds :
      (P : Request D → Type 0) (gs : List Group) (c : Client D)
      → All (AllowsGroup P) gs
      → (new : List (Request D)) × (((send_groups url packs event contents gs c).1.requests
            ≡ c.requests ++ new)
          × All P new
          × ((serial : String)
              → contains serial (hosted gs) ≡ true
              → (contains serial (send_groups url packs event contents gs c).0
                  || any (λ r. contains serial r.serials) new)
                ≡ true))
  unfolding send_groups
  send_groups-Adds P [] c h = ([], (sym (append-nil c.requests), tt, λ serial k. cc))
  send_groups-Adds P ((none, batch) ∷ rest) c h = send_groups-Adds P rest c h.1
  send_groups-Adds P ((some info, batch) ∷ rest) c h =
      let r = request_of info batch in
      let attempt = send_worker packs r c in
      let (new, (more, all, covers)) = send_groups-Adds P rest attempt.1 h.1 in
      elim (send_worker-cases packs r c) [
        | inl (sent, added) ↦ rw sent (
          r ∷ new,
          (
            more ∙ (ap (λ rs. rs ++ new) added ∙ append_assoc c.requests (r ∷ []) new),
            (h.0 info refl, all),
            λ serial k.
                ground (arith, k, contains-append serial batch (hosted rest), covers serial),
          ),
        )
        | inr (failed, same) ↦ rw failed (
          new,
          (
            more ∙ ap (λ rs. rs ++ new) same,
            all,
            λ serial k. ground (
              arith,
              k,
              contains-append serial batch (hosted rest),
              contains-append serial batch (send_groups url packs event contents rest attempt.1).0,
              covers serial,
            ),
          ),
        )
      ]

  module _ (serials : List String) (c : Client D) where
    -- A request for this event and these contents, at the url of each of its serials.
    abbrev pub IsFor : Request D → Type 0
    IsFor r =
        (r.event ≡ event)
        × (r.contents ≡ contents)
        × All (λ serial. url_of url (get_connection_info serial c) ≡ some r.url) r.serials

    All-url :
        (info : ConnectionInfo) (batch : List String)
        → All (λ serial. get_connection_info serial c ≡ some info) batch
        → All (λ serial. url_of url (get_connection_info serial c) ≡ some (url info)) batch
    All-url info [] h = tt
    All-url info (serial ∷ batch) h = (ap (url_of url) h.0, All-url info batch h.1)

    All-AllowsGroup :
        (gs : List Group)
        → All (IsHosted (λ serial. get_connection_info serial c)) gs
        → All (AllowsGroup IsFor) gs
    All-AllowsGroup [] h = tt
    All-AllowsGroup ((key, batch) ∷ gs) h = (
      (λ info e. (
        refl,
        refl,
        All-url info batch
            (subst (λ k. All (λ serial. get_connection_info serial c ≡ k) batch) e h.0),
      )),
      All-AllowsGroup gs h.1,
    )

    contains-hosted :
        (serial : String) (gs : List Group)
        → All (IsHosted (λ serial. get_connection_info serial c)) gs
        → has_info (get_connection_info serial c) ≡ true
        → contains serial (serials_of gs) ≡ true
        → contains serial (hosted gs) ≡ true
    contains-hosted serial [] h known k = k
    contains-hosted serial ((none, batch) ∷ rest) h known k =
        contains-hosted serial rest h.1 known
          (ground (arith, k, contains-append serial batch (serials_of rest), unknown batch h.0))
      where
        unknown :
            (batch : List String)
            → All (λ serial. get_connection_info serial c ≡ none) batch
            → contains serial batch ≡ false
        unknown [] h = refl
        unknown (other ∷ batch) h =
            ground (arith, unknown batch h.1, ==_iff other serial, ap has_info h.0, known)
    contains-hosted serial ((some info, batch) ∷ rest) h known k = ground (
      arith,
      k,
      contains-append serial batch (serials_of rest),
      contains-append serial batch (hosted rest),
      contains-hosted serial rest h.1 known,
    )

    -- Whatever a batch request sends, also before an exception, is sent for its event and contents to the url of the
    -- worker of each serial that it names. If no exception ends it, every serial that it was given and that has
    -- connection info is named in such a request, or is among those that are returned as failed.
    pub request_batch_worker_lem :
        let (answer, c') = request_batch_worker url packs event contents serials c in
        (new : List (Request D)) × ((c'.requests ≡ c.requests ++ new)
          × All IsFor new
          × ((serial : String)
              → (if contains serial serials
                    && (has_info (get_connection_info serial c) && is_some answer)
                  then contains serial (get_or answer [])
                    || any (λ r. contains serial r.serials) new
                  else true)
                ≡ true))
    unfolding request_batch_worker
    request_batch_worker_lem =
        let gs = groups (λ serial. get_connection_info serial c) serials in
        let hosts = groups-IsHosted (λ serial. get_connection_info serial c) serials in
        let (new, (more, all, covers)) =
          send_groups-Adds IsFor gs.0 c (All-AllowsGroup gs.0 hosts) in
        (
          new,
          (
            more,
            all,
            λ serial. elim (Bool-cases gs.1) [
              | inl raises ↦ rw raises (ground arith)
              | inr ends ↦ rw ends (
                  ground (
                    arith,
                    covers serial,
                    contains-hosted serial gs.0 hosts,
                    ap (contains serial)
                        (groups-serials (λ serial. get_connection_info serial c) serials ends),
                  ))
            ],
          ),
        )
