-- ===== src/Client/Factory/Moves.antt =====
-- A batch factory of src/icefarm/client/lib/BatchClient.py at work: the turns of `getBatches`, with the balanced policy,
-- between results, the watchdog and the consumer.
use i_cefarm.Prelude.{ℕ, String, Option, none, some, List, [], ◌∷◌, string_key}
use i_cefarm.Client.Evaluation.{Evaluation}
use i_cefarm.Client.Bundle.{Batch}
use i_cefarm.Client.Factory.{
  Result, Turn, finished, waiting, send, init, draw_batch, offer_batch, balanced,
}
use i_cefarm.Client.Factory.Accounted.{Run, Event, step}

-- A factory at work, with the batch that `getBatches` has drawn and not yet sent.
pub record Sender (V : Type 0) : Type 0 where
  pub run : Run V
  pub drawn : Option Batch

-- A turn of the sender, or something beside it.
pub data Move (V : Type 0) : Type 0 where
  draws : Move V
  offers : ℕ → Move V
  answers : ℕ → Result V → Move V
  watches : (List String → List String) → ℕ → Move V
  reports : ℕ → Move V
  collects : Move V

abbrev pub after_turn : Turn → Option Batch → Option Batch
after_turn (send batch) drawn = none
after_turn waiting drawn = drawn
after_turn finished drawn = drawn

module _ {V : Type 0} where
  unfoldable pub draw_next : Option Batch → Sender V → Sender V
  unfolding draw_batch
  draw_next (some batch) s = s
  draw_next none s =
      let (drawn, f) = draw_batch s.run.factory in
      record s { run = record s.run { factory = f }; drawn = drawn }

  unfoldable pub offer_drawn : ℕ → ℕ → Option Batch → Sender V → Sender V
  unfolding offer_batch
  offer_drawn target_batches now none s = s
  offer_drawn target_batches now (some batch) s =
      let (turn, f) = offer_batch (balanced target_batches) now batch s.run.factory in
      record s { run = record s.run { factory = f }; drawn = after_turn turn (some batch) }

  unfoldable pub move : ℕ → Move V → Sender V → Sender V
  unfolding draw_next offer_drawn step
  move target_batches draws s = draw_next s.drawn s
  move target_batches (offers now) s = offer_drawn target_batches now s.drawn s
  move target_batches (answers now result) s = record s {
    run = step (Event.answers now result) s.run;
  }
  move target_batches (watches reboot now) s = record s {
    run = step (Event.watches reboot now) s.run;
  }
  move target_batches (reports now) s = record s { run = step (Event.reports now) s.run }
  move target_batches collects s = record s { run = step Event.collects s.run }

  unfoldable pub moves : ℕ → List (Move V) → Sender V → Sender V
  moves target_batches [] s = s
  moves target_batches (m ∷ rest) s = moves target_batches rest (move target_batches m s)

  unfoldable pub start : List Evaluation → ℕ → ℕ → Sender V
  unfolding init
  start evaluations batch_size result_timeout = record {
    run = record {
      factory = init evaluations batch_size result_timeout;
      failed = [];
      collected = [];
    };
    drawn = none;
  }
