-- ===== src/Client/Factory/Balance/Runs.antt =====
-- A `BalancedBatchFactory` of src/icefarm/client/lib/BatchClient.py from its making on: what its devices owe, whatever
-- its sender, its watchdog, the results and the consumer do, in whatever order.
use i_cefarm.Prelude.{
  ℕ, ◌+◌, ◌*◌, ◌≤◌, ◌<◌, ◌≡◌, refl, String, Option, none, some, List, [], ◌∷◌, arith, string_key,
  All, Distinct, add_member, ap, sym, ◌∙◌, subst, Option-cases, Bool-cases, inl, inr,
}
use i_cefarm.Dict.{get, keys}
use i_cefarm.Client.Evaluation.{Evaluation}
use i_cefarm.Client.Bundle.{Batch, Bundle, next}
use i_cefarm.Client.Bundle
use i_cefarm.Client.Bundle.Bounds.{load, load-next-le}
use i_cefarm.Client.Bundle.Contents.{IsValid, init-IsValid, next-IsValid, taken}
use i_cefarm.Client.Bundle.Sets.{IsSerials, AreSets, init-AreSets, next-AreSets, batch_size-next}
use i_cefarm.Client.Factory.{
  Factory, Result, init, process_results, mark_broken, newly_expired, watch, get_results,
  draw_batch, offer_batch, add_batch, ready_for_batch, balanced,
}
use i_cefarm.Client.Factory.Moves.{
  Sender, Move, draws, offers, answers, watches, reports, collects, after_turn, draw_next,
  offer_drawn, move, moves, start,
}
use i_cefarm.Client.Factory.Owed.{HoldsSets, owed, owed-process_results}
use i_cefarm.Client.Factory.Accounted.{step, report_first}
use i_cefarm.Client.Factory.Balance.{
  IsBalanced, offer_batch-IsBalanced, process_results-Framed, add_batch-Framed,
}

HoldsSets-of_AreSets : (batch : Batch) → AreSets batch → HoldsSets batch
HoldsSets-of_AreSets [] h = tt
HoldsSets-of_AreSets (entry ∷ batch) h = (h.0, HoldsSets-of_AreSets batch h.1)

module _ {V : Type 0} where
  -- What holds of the factory, of its bundle, and of the batch that is drawn.
  record Holds (target size : ℕ) (f : Factory V) (drawn : Option Batch) : Type 0 where
    balance : IsBalanced target f
    sized : f.bundle.batch_size ≡ size
    valid : IsValid f.bundle
    sets : AreSets f.bundle.queue
    groups : AreSets (taken drawn)
    fits : (serial : String) → load serial (taken drawn) ≤ size

  -- Results and what a factory does with them leave less to be owed, and the bundle as it is.
  process_results-Holds :
      (target size now : ℕ) (rs : List (Result V)) (f : Factory V) (drawn : Option Batch)
      → Holds target size f drawn
      → Holds target size (process_results now rs f) drawn
  process_results-Holds target size now rs f drawn v =
      let (distinct, same) = process_results-Framed f.bundle now rs f (v.balance.distinct, refl) in
      record {
        balance = record {
          distinct = distinct;
          bound = λ serial.
              rw same (omega (arith, v.balance.bound serial, owed-process_results now rs serial f));
        };
        sized = ap (λ b. b.batch_size) same ∙ v.sized;
        valid = subst IsValid (sym same) v.valid;
        sets = subst (λ b. AreSets b.queue) (sym same) v.sets;
        groups = v.groups;
        fits = v.fits;
      }

  -- So does a change of nothing but the results, the broken devices and the flag.
  cong-Holds :
      (target size : ℕ) (f f' : Factory V) (drawn : Option Batch)
      → f'.awaiting_results ≡ f.awaiting_results
      → f'.bundle ≡ f.bundle
      → Holds target size f drawn
      → Holds target size f' drawn
  cong-Holds target size f f' drawn waits same v = record {
    balance = record {
      distinct = subst (λ d. Distinct (keys d)) (sym waits) v.balance.distinct;
      bound = λ serial. rw (same, waits) (v.balance.bound serial);
    };
    sized = ap (λ b. b.batch_size) same ∙ v.sized;
    valid = subst IsValid (sym same) v.valid;
    sets = subst (λ b. AreSets b.queue) (sym same) v.sets;
    groups = v.groups;
    fits = v.fits;
  }

  mark_broken-Holds :
      (target size : ℕ) (serials : List String) (f : Factory V) (failed : List (Result V))
      (drawn : Option Batch)
      → Holds target size f drawn
      → Holds target size (mark_broken serials f failed).0 drawn
  unfolding mark_broken
  mark_broken-Holds target size [] f failed drawn v = v
  mark_broken-Holds target size (serial ∷ rest) f failed drawn v =
      let f' = record f { broken_serials = add_member serial f.broken_serials } in
      mark_broken-Holds target size rest f' _ drawn (cong-Holds target size f f' drawn refl refl v)

  get_results-Holds :
      (target size : ℕ) (f : Factory V) (drawn : Option Batch)
      → Holds target size f drawn
      → Holds target size (get_results f).1 drawn
  unfolding get_results
  get_results-Holds target size f drawn v =
      cong-Holds target size f (get_results f).1 drawn (ground arith) (ground arith) v

  draw_batch-Holds :
      (target size : ℕ) (f : Factory V)
      → Holds target size f none
      → let (drawn, f') = draw_batch f in Holds target size f' drawn
  unfolding draw_batch
  draw_batch-Holds target size f v =
      let (groups, sets) = next-AreSets f.bundle v.valid v.sets in
      let kept = batch_size-next f.bundle in
      record {
        balance = record {
          distinct = v.balance.distinct;
          bound = λ serial. rw kept (v.balance.bound serial);
        };
        sized = kept ∙ v.sized;
        valid = next-IsValid f.bundle v.valid;
        sets = sets;
        groups = groups;
        fits = λ serial. elim (Option-cases (next f.bundle).0) [
          | inl stop ↦ rw stop (omega arith)
          | inr (batch, more) ↦
              rw more (
                subst (λ n. load serial batch ≤ n) v.sized
                  (load-next-le f.bundle batch serial more))
        ];
      }

  module _ (target size : ℕ) (tpos : 0 < target) (pos : 0 < size) where
    offer-Holds :
        (now : ℕ) (batch : Batch) (f : Factory V)
        → Holds target size f (some batch)
        → let (turn, f') = offer_batch (balanced target) now batch f in
          Holds target size f' (after_turn turn (some batch))
    unfolding offer_batch
    offer-Holds now batch f v =
        let framed = add_batch-Framed f.bundle now batch f (v.balance.distinct, refl) in
        let balance =
          offer_batch-IsBalanced target now batch f tpos (subst (λ n. 0 < n) (sym v.sized) pos)
            (HoldsSets-of_AreSets batch v.groups)
            (subst (λ n. (serial : String) → load serial batch ≤ n) (sym v.sized) v.fits)
            v.balance in
        elim (Bool-cases (ready_for_batch (balanced target) f)) [
          | inl ready ↦
              let sent : IsBalanced target (add_batch now batch f) =
                subst (IsBalanced target) (rw (offer_batch, ready) refl) balance in
              rw (offer_batch, ready)
                (record {
                  balance = sent;
                  sized = ap (λ b. b.batch_size) framed.1 ∙ v.sized;
                  valid = subst IsValid (sym framed.1) v.valid;
                  sets = subst (λ b. AreSets b.queue) (sym framed.1) v.sets;
                  groups = tt;
                  fits = λ serial. omega arith;
                })
          | inr busy ↦ rw (offer_batch, busy) v
        ]

    move-Holds :
        (m : Move V) (s : Sender V)
        → Holds target size s.run.factory s.drawn
        → Holds target size (move target m s).run.factory (move target m s).drawn
    unfolding move step report_first watch draw_next offer_drawn process_results
    move-Holds draws s v = draw s.drawn v
      where
        draw :
            (drawn : Option Batch)
            → Holds target size s.run.factory drawn
            → Holds target size
                (draw_next drawn (record s { drawn = drawn })).run.factory
                (draw_next drawn (record s { drawn = drawn })).drawn
        draw none v = draw_batch-Holds target size s.run.factory v
        draw (some batch) v = v
    move-Holds (offers now) s v = offer s.drawn v
      where
        offer :
            (drawn : Option Batch)
            → Holds target size s.run.factory drawn
            → Holds target size
                (offer_drawn target now drawn (record s { drawn = drawn })).run.factory
                (offer_drawn target now drawn (record s { drawn = drawn })).drawn
        offer none v = v
        offer (some batch) v = offer-Holds now batch s.run.factory v
    move-Holds (answers now result) s v =
        process_results-Holds target size now (result ∷ []) s.run.factory s.drawn v
    move-Holds (watches reboot now) s v =
        mark_broken-Holds target size (reboot (newly_expired now s.run.factory)) s.run.factory []
          s.drawn v
    move-Holds (reports now) s v = report s.run.failed
      where
        report :
            (failed : List (Result V))
            → Holds target size (report_first now failed s.run).factory s.drawn
        report [] = v
        report (failure ∷ rest) =
            process_results-Holds target size now (failure ∷ []) s.run.factory s.drawn v
    move-Holds collects s v = get_results-Holds target size s.run.factory s.drawn v

    moves-Holds :
        (ms : List (Move V)) (s : Sender V)
        → Holds target size s.run.factory s.drawn
        → Holds target size (moves target ms s).run.factory (moves target ms s).drawn
    unfolding moves
    moves-Holds [] s v = v
    moves-Holds (m ∷ ms) s v = moves-Holds ms (move target m s) (move-Holds m s v)

  -- A BalancedBatchFactory whose batch size and number of target batches are above 0, and whose evaluations name sets of
  -- serials: whatever its sender, its watchdog, results and the consumer do from its making on, in whatever order, no
  -- device ever owes target_batches + 1 whole batches.
  pub moves-lt :
      (evaluations : List Evaluation) (batch_size result_timeout target_batches : ℕ)
      (ms : List (Move V)) (serial : String)
      → 0 < batch_size
      → 0 < target_batches
      → All (λ e. IsSerials e.serials) evaluations
      → owed serial
          (moves target_batches ms (start evaluations batch_size result_timeout)).run.factory
        < (target_batches + 1) * batch_size
  unfolding start init Bundle.init get
  moves-lt evaluations batch_size result_timeout target_batches ms serial pos tpos sets =
      let s : Sender V = start evaluations batch_size result_timeout in
      let room : 0 < (target_batches + 1) * batch_size = grind arith in
      let v = moves-Holds target_batches batch_size tpos pos ms s (record {
        balance = record { distinct = tt; bound = λ serial. room };
        sized = refl;
        valid = init-IsValid evaluations batch_size;
        sets = init-AreSets evaluations batch_size sets;
        groups = tt;
        fits = λ serial. omega arith;
      }) in
      subst (λ n. owed serial (moves target_batches ms s).run.factory < (target_batches + 1) * n)
        v.sized (v.balance.bound serial)
