-- ===== src/Client/Events/Avoided.antt =====
-- Which devices a batch is sent to: `_evaluateBatch` of src/icefarm/client/lib/BatchClient.py through
-- `requestBatchWorker` of BaseClient.py.
use i_cefarm.Prelude.{
  ◌≡◌, refl, String, Bool, true, ◌&&◌, not, Option, List, [], ◌∷◌, ◌++◌, string_key, arith,
  contains, select, all, All, Option-cases, inl, inr,
}
use i_cefarm.Client.Evaluation.{Evaluation, members}
use i_cefarm.Client.Connections.{ConnectionInfo, Client, get_connection_info}
use i_cefarm.Client.Connections.Groups.{Group, group_from, groups, request_batch_worker}
use i_cefarm.Client.Connections.Requested.{
  Adds, Adds-none, Adds-then, AllowsGroup, send_groups-Adds,
}
use i_cefarm.Client.Events.{good_serials, evaluate_batch}

all-select : (p : String → Bool) (xs : List String) → all p (select p xs) ≡ true
all-select p [] = refl
all-select p (x ∷ xs) = ground (arith, all-select p xs)

all-append : (p : String → Bool) (xs ys : List String) → all p (xs ++ ys) ≡ (all p xs && all p ys)
all-append p [] ys = refl
all-append p (x ∷ xs) ys = ground (arith, all-append p xs ys)

module _ (p : String → Bool) where
  all_in : List Group → Bool
  all_in [] = true
  all_in ((key, batch) ∷ rest) = all p batch && all_in rest

  group_from-all :
      (key_of : String → Option ConnectionInfo) (key : Option ConnectionInfo)
      (batch serials : List String)
      → all p batch ≡ true
      → all p serials ≡ true
      → all_in (group_from key_of key batch serials).0 ≡ true
  unfolding group_from all_in
  group_from-all key_of key batch [] h k = ground (arith, h)
  group_from-all key_of key batch (serial ∷ serials) h k = ground (
    arith,
    h,
    k,
    all-append p batch (serial ∷ []),
    group_from-all key_of key (batch ++ serial ∷ []) serials,
    group_from-all key_of (key_of serial) (serial ∷ []) serials,
  )

  groups-all :
      (key_of : String → Option ConnectionInfo) (serials : List String)
      → all p serials ≡ true
      → all_in (groups key_of serials).0 ≡ true
  unfolding groups all_in
  groups-all key_of [] h = refl
  groups-all key_of (serial ∷ serials) h =
      group_from-all key_of (key_of serial) (serial ∷ []) serials (ground (arith, h))
        (ground (arith, h))

  AllowsGroup-all :
      {D : Type 0} (url : ConnectionInfo → String) (packs : Bool) (event : String) (contents : D)
      (gs : List Group)
      → all_in gs ≡ true
      → All (AllowsGroup url packs event contents (λ r. all p r.serials ≡ true)) gs
  unfolding all_in
  AllowsGroup-all url packs event contents [] h = tt
  AllowsGroup-all url packs event contents ((key, batch) ∷ gs) h = (
    (λ info e. ground (arith, h)),
    AllowsGroup-all url packs event contents gs (ground (arith, h)),
  )

  request_batch_worker-Adds :
      {D : Type 0} (url : ConnectionInfo → String) (packs : Bool) (event : String) (contents : D)
      (serials : List String) (c : Client D)
      → all p serials ≡ true
      → Adds
          (λ r. all p r.serials ≡ true)
          c
          (request_batch_worker url packs event contents serials c).1
  unfolding request_batch_worker
  request_batch_worker-Adds url packs event contents serials c h =
      let key_of = λ (serial : String). get_connection_info serial c in
      let (new, (more, good, covers)) =
        send_groups-Adds url packs event contents (λ r. all p r.serials ≡ true)
          (groups key_of serials).0 c
          (AllowsGroup-all url packs event contents (groups key_of serials).0
            (groups-all key_of serials h)) in
      (new, (more, good))

-- Whatever was sent before, the requests that a batch sends name no device that is broken when it is sent, also where
-- a request ended it by an exception.
pub evaluate_batch-avoids :
    {D : Type 0} (url : ConnectionInfo → String) (packs : Bool) (to_json : Evaluation → D)
    (evaluations : List Evaluation) (bad_serials : List String) (c : Client D)
    → Adds
        (λ r. all (λ serial. not (contains serial bad_serials)) r.serials ≡ true)
        c
        (evaluate_batch url packs to_json evaluations bad_serials c).1
unfolding evaluate_batch
evaluate_batch-avoids url packs to_json [] bad_serials c = Adds-none _ c
evaluate_batch-avoids {D} url packs to_json (evaluation ∷ evaluations) bad_serials c =
    let is_good = λ (serial : String). not (contains serial bad_serials) in
    let serials = good_serials bad_serials evaluation in
    let sent = request_batch_worker url packs "evaluate" (to_json evaluation) serials c in
    let first =
      request_batch_worker-Adds is_good url packs "evaluate" (to_json evaluation) serials c
        (all-select is_good (members evaluation.serials)) in
    let later = evaluate_batch url packs to_json evaluations bad_serials sent.1 in
    let rest = evaluate_batch-avoids url packs to_json evaluations bad_serials sent.1 in
    elim (Option-cases sent.0) [
      | inl raises ↦ rw (evaluate_batch, raises) first
      | inr (failed, e) ↦ elim (Option-cases later.0) [
        | inl raises ↦ rw (evaluate_batch, e, raises) (Adds-then _ c sent.1 later.1 first rest)
        | inr (others, e') ↦ rw (evaluate_batch, e, e') (Adds-then _ c sent.1 later.1 first rest)
      ]
    ]
