-- ===== src/Client/Factory/Balance.antt =====
-- The `BalancedBatchFactory` of src/icefarm/client/lib/BatchClient.py bounds what a device has queued.
pub mod Runs
use i_cefarm.Prelude.{
  ℕ, ◌+◌, ◌*◌, ◌/◌, ◌≤◌, ◌<◌, ◌≡◌, ◌≢◌, inl, inr, Bool-cases, eqb_iff, refl, String, true, false,
  List, [], ◌∷◌, arith, length, string_key, discard, union, ==_iff, ==_refl, any, is_nonempty,
  Distinct, get_or,
}
use i_cefarm.Dict.{Dict, get, keys, values, get-eq-none_of_not_contains, put-Distinct}
use i_cefarm.Client.Evaluation.{members}
use i_cefarm.Client.Bundle.{Batch, Bundle}
use i_cefarm.Client.Bundle.Bounds.{load}
use i_cefarm.Client.Factory.{
  Factory, Result, awaited, process_result, process_results, is_awaiting, ids_of, await_serial,
  await_group, await_batch, add_batch, highest_queued, balanced, ready_for_batch, offer_batch,
}
use i_cefarm.Client.Factory.Owed.{HoldsSets, owed, owed-add_batch}

none_awaited :
    (serial : String) (awaiting : Dict String (List String))
    → any is_nonempty (values awaiting) ≡ false
    → length (get_or (get serial awaiting) []) ≡ 0
unfolding get
none_awaited serial [] h = refl
none_awaited serial ((other, []) ∷ rest) h = ground (arith, none_awaited serial rest)
none_awaited serial ((other, x ∷ xs) ∷ rest) h = cc

owed-le-highest :
    (serial : String) (awaiting : Dict String (List String))
    → length (get_or (get serial awaiting) []) ≤ highest_queued (values awaiting)
unfolding get highest_queued
owed-le-highest serial [] = omega arith
owed-le-highest serial ((other, ids) ∷ rest) = ground (arith, owed-le-highest serial rest)

highest-lt :
    (bound : ℕ) (awaiting : Dict String (List String))
    → Distinct (keys awaiting)
    → 0 < bound
    → ((serial : String) → length (get_or (get serial awaiting) []) < bound)
    → highest_queued (values awaiting) < bound
unfolding get highest_queued
highest-lt bound [] d pos h = pos
highest-lt bound ((other, ids) ∷ rest) d pos h = ground (
  arith,
  h other,
  ==_refl other,
  highest-lt bound rest d.1 pos (λ serial.
      ground (arith, h serial, ==_iff other serial, get-eq-none_of_not_contains other rest d.0)),
)

full_batches :
    (queued target size : ℕ)
    → 0 < size
    → queued < (target + 1) * size
    → queued / size ≢ target
    → queued < target * size
full_batches queued target size pos below other = grind arith

module _ {V : Type 0} where
  -- What a `BalancedBatchFactory` keeps: no device owes `target_batches + 1` whole batches.
  pub record IsBalanced (target_batches : ℕ) (f : Factory V) : Type 0 where
    pub distinct : Distinct (keys f.awaiting_results)
    pub bound : (serial : String) → owed serial f < (target_batches + 1) * f.bundle.batch_size

  -- When it is ready, every device owes less than `target_batches` whole batches.
  ready-owed :
      (target_batches : ℕ) (f : Factory V) (serial : String)
      → 0 < target_batches
      → 0 < f.bundle.batch_size
      → IsBalanced target_batches f
      → ready_for_batch (balanced target_batches) f ≡ true
      → owed serial f < target_batches * f.bundle.batch_size
  unfolding ready_for_batch
  ready-owed target f serial tpos bpos v ready =
      let awaiting = f.awaiting_results in
      let size = f.bundle.batch_size in
      let highest = highest_queued (values awaiting) in
      let below = highest-lt ((target + 1) * size) awaiting v.distinct (grind arith) v.bound in
      elim (Bool-cases (is_awaiting f)) [
        | inl some_owed ↦
            let other : highest / size ≢ target =
              λ e. ground (arith, eqb_iff (highest / size) target) in
            omega (
              arith,
              owed-le-highest serial awaiting,
              full_batches highest target size bpos below other,
            )
        | inr none_owed ↦
            let room : 0 < target * size = grind arith in
            omega (arith, none_awaited serial awaiting none_owed, room)
      ]

  -- The dictionary of awaited results stays one, and the bundle is left alone.
  abbrev Framed : Bundle → Factory V → Type 0
  Framed b f = Distinct (keys f.awaiting_results) × (f.bundle ≡ b)

  process_results-Framed :
      (b : Bundle) (now : ℕ) (results : List (Result V)) (f : Factory V)
      → Framed b f
      → Framed b (process_results now results f)
  unfolding process_results process_result
  process_results-Framed b now [] f d = d
  process_results-Framed b now ((serial, id, outcome) ∷ rest) f d =
      process_results-Framed b now rest (process_result now (serial, id, outcome) f)
        (ground (arith, put-Distinct serial (discard id (awaited serial f)) f.awaiting_results d.0))

  await_group-Framed :
      (b : Bundle) (now : ℕ) (ids serials : List String) (f : Factory V) (bad : List (Result V))
      → Framed b f
      → Framed b (await_group now ids serials f bad).0
  unfolding await_group await_serial
  await_group-Framed b now ids [] f bad d = d
  await_group-Framed b now ids (serial ∷ rest) f bad d =
      await_group-Framed b now ids rest (await_serial now ids serial f) _
        (ground (arith, put-Distinct serial (union (awaited serial f) ids) f.awaiting_results d.0))

  await_batch-Framed :
      (b : Bundle) (now : ℕ) (batch : Batch) (f : Factory V) (bad : List (Result V))
      → Framed b f
      → Framed b (await_batch now batch f bad).0
  unfolding await_batch
  await_batch-Framed b now [] f bad d = d
  await_batch-Framed b now ((serials, evaluations) ∷ rest) f bad d =
      await_batch-Framed b now rest _ _
        (await_group-Framed b now (ids_of evaluations) (members serials) f bad d)

  add_batch-Framed :
      (b : Bundle) (now : ℕ) (batch : Batch) (f : Factory V)
      → Framed b f
      → Framed b (add_batch now batch f)
  unfolding add_batch
  add_batch-Framed b now batch f d =
      process_results-Framed b now _ _ (await_batch-Framed b now batch f [] d)

  -- `getBatches` keeps a balanced factory balanced: a batch that holds at most `batch_size` evaluations
  -- for each device goes out only when it fits.
  pub offer_batch-IsBalanced :
      (target_batches now : ℕ) (batch : Batch) (f : Factory V)
      → 0 < target_batches
      → 0 < f.bundle.batch_size
      → HoldsSets batch
      → ((serial : String) → load serial batch ≤ f.bundle.batch_size)
      → IsBalanced target_batches f
      → IsBalanced target_batches (offer_batch (balanced target_batches) now batch f).1
  unfolding offer_batch
  offer_batch-IsBalanced target now batch f tpos bpos sets fits v =
      let framed = add_batch-Framed f.bundle now batch f (v.distinct, refl) in
      elim (Bool-cases (ready_for_batch (balanced target) f)) [
        | inl ready ↦
            rw (ready, offer_batch)
              (record {
                distinct = framed.0;
                bound = λ serial.
                    let (kept, same) = framed in
                    rw same (
                      omega (
                        arith,
                        ready-owed target f serial tpos bpos v ready,
                        owed-add_batch now batch serial f sets,
                        fits serial,
                      ));
              })
        | inr busy ↦ rw (busy, offer_batch) v
      ]
