-- ===== src/Client/Bundle/Uniform.antt =====
-- `evaluateBitstreams` of pulsecount.py and varmax.py gives every evaluation the same serials: then the
-- iteration over the bundle delivers them all.
use mathlib.Core.List.{reverse-reverse}
use i_cefarm.Prelude.{
  ℕ, ◌+◌, ◌<◌, ◌≡◌, sym, ◌∙◌, ap, true, List, [], ◌∷◌, ◌++◌, arith, length, ==_refl, reverse,
  append-nil, append_assoc, All,
}
use i_cefarm.Dict.{Dict, get, put}
use i_cefarm.Dict as Dict
use i_cefarm.Utils.MappedQueues.{keys, queue, append, MappedQueues}
use i_cefarm.Utils.MappedQueues.Size.{total, total-append}
use i_cefarm.Client.Evaluation.{Evaluation, Serials, serials_key}
use i_cefarm.Client.Bundle.{init, fill, drain}
use i_cefarm.Client.Bundle.Contents.{init-IsValid}
use i_cefarm.Client.Bundle.Ends.{gathered, drain_ends, drain_keeps}

pub total-fill :
    (evaluations : List Evaluation) (queued : MappedQueues Serials Evaluation)
    → total (fill evaluations queued) ≡ total queued + length evaluations
unfolding fill
total-fill [] queued = omega arith
total-fill (evaluation ∷ rest) queued = omega (
  arith,
  total-fill rest (append evaluation.serials evaluation queued),
  total-append evaluation.serials evaluation queued,
)

pub SharesSerials : Serials → List Evaluation → Type 0
SharesSerials serials = All (λ evaluation. evaluation.serials ≡ serials)

fill-single :
    (serials : Serials) (evaluations queued : List Evaluation)
    → All (λ evaluation. evaluation.serials ≡ serials) evaluations
    → fill evaluations ((serials, queued) ∷ []) ≡ (serials, queued ++ evaluations) ∷ []
unfolding fill append put get
fill-single serials [] queued h = rw append-nil
fill-single serials (evaluation ∷ rest) queued h = ground (
  arith,
  h.0,
  ==_refl serials,
  fill-single serials rest (queued ++ evaluation ∷ []) h.1,
  append_assoc queued (evaluation ∷ []) rest,
)

fill-uniform :
    (serials : Serials) (evaluation : Evaluation) (rest : List Evaluation)
    → All (λ e. e.serials ≡ serials) (evaluation ∷ rest)
    → fill (evaluation ∷ rest) [] ≡ (serials, evaluation ∷ rest) ∷ []
unfolding fill append put get
fill-uniform serials evaluation rest h =
    ground (arith, h.0, ==_refl serials, fill-single serials rest (evaluation ∷ []) h.1)

-- With one key, an iteration that yields nothing means an empty queue.
pub queue_of_no_keys :
    (serials : Serials) (state : MappedQueues Serials Evaluation)
    → Dict.keys state ≡ serials ∷ []
    → keys state ≡ []
    → queue serials state ≡ []
unfolding keys get
queue_of_no_keys serials [] shape h = cc
queue_of_no_keys serials ((key, []) ∷ rest) shape h = ground (arith, ==_refl serials)
queue_of_no_keys serials ((key, x ∷ xs) ∷ rest) shape h = cc

-- With a batch size above 0, if all evaluations of a bundle name the same serials (as both drivers do), the batches
-- up to StopIteration deliver every one of them once, the last one first, within one more round than there are
-- evaluations.
pub uniform_delivers :
    (serials : Serials) (evaluation : Evaluation) (rest : List Evaluation) (batch_size : ℕ)
    → 0 < batch_size
    → All (λ e. e.serials ≡ serials) (evaluation ∷ rest)
    → let evaluations = evaluation ∷ rest in
      let (batches, final) = drain (length evaluations + 1) (init evaluations batch_size) in
      (gathered serials batches ≡ reverse evaluations) × (final.empty ≡ true)
unfolding init get
uniform_delivers serials evaluation rest batch_size pos h =
    let evaluations : List Evaluation = evaluation ∷ rest in
    let bundle = init evaluations batch_size in
    let filled = fill-uniform serials evaluation rest h in
    let (ended, empty_keys) =
      drain_ends (length evaluations + 1) bundle pos (omega (arith, total-fill evaluations [])) in
    let (whole, shape) =
      drain_keeps (length evaluations + 1) bundle (init-IsValid evaluations batch_size) in
    let left =
      queue_of_no_keys serials (drain (length evaluations + 1) bundle).1.queue
        (shape ∙ ap Dict.keys filled) empty_keys in
    let batches = (drain (length evaluations + 1) bundle).0 in
    let delivered : reverse (gathered serials batches) ≡ evaluations =
      ap (λ l. l ++ reverse (gathered serials batches)) (sym left)
      ∙ (whole serials ∙ ground (arith, filled, ==_refl serials)) in
    (sym (reverse-reverse (gathered serials batches)) ∙ ap reverse delivered, ended)
