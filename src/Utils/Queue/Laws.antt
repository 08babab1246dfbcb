-- ===== src/Utils/Queue/Laws.antt =====
-- What a `Queue` of src/icefarm/utils/utils.py promises to the threads that share it.
use i_cefarm.Prelude.{◌≡◌, refl, sym, true, List, [], ◌∷◌, ◌++◌, arith, append_assoc, append-nil}
use i_cefarm.Utils.Queue.{
  Queue, Raises, returned, queue_shut_down, Popped, item, blocked, shut, put, pop, shutdown,
}

-- A call of some thread.
pub data Call (A : Type 0) : Type 0 where
  puts : List A → Call A
  pops shuts : Call A

-- What one call adds to the items taken out of the queue and to the items let in.
pub record Moved (A : Type 0) : Type 0 where
  pub out : List A
  pub accepted : List A

module _ {A : Type 0} where
  after_put : List A → Queue A → Raises (Queue A) → Moved A × Queue A
  after_put items q (returned q') = (record { out = []; accepted = items }, q')
  after_put items q queue_shut_down = (record { out = []; accepted = [] }, q)

  after_pop : Popped A × Queue A → Moved A × Queue A
  after_pop (item x, q') = (record { out = x ∷ []; accepted = [] }, q')
  after_pop (blocked, q') = (record { out = []; accepted = [] }, q')
  after_pop (shut, q') = (record { out = []; accepted = [] }, q')

  unfoldable pub step : Call A → Queue A → Moved A × Queue A
  unfolding after_put after_pop put pop shutdown
  step (puts items) q = after_put items q (put items q)
  step pops q = after_pop (pop q)
  step shuts q = let (contents, q') = shutdown q in (record { out = contents; accepted = [] }, q')

  -- A schedule of calls, by whichever threads.
  unfoldable pub run : List (Call A) → Queue A → Moved A × Queue A
  run [] q = (record { out = []; accepted = [] }, q)
  run (call ∷ calls) q =
      let (moved, q') = step call q in
      let (later, final) = run calls q' in
      (record { out = moved.out ++ later.out; accepted = moved.accepted ++ later.accepted }, final)

  step-fifo :
      (call : Call A) (q : Queue A)
      → let (moved, q') = step call q in moved.out ++ q'.contents ≡ q.contents ++ moved.accepted
  unfolding step
  step-fifo (puts items) q = ground (arith, append-nil q.contents)
  step-fifo pops q = ground (arith, append-nil q.contents)
  step-fifo shuts q = refl

  -- Under every schedule the queue is first in, first out: the items taken by `pop` and handed back by
  -- `shutdown`, in the order in which they came out, and then the contents, are the contents at the
  -- start and then the items of every `put` that did not raise.
  pub run-fifo :
      (calls : List (Call A)) (q : Queue A)
      → let (moved, final) = run calls q in
        moved.out ++ final.contents ≡ q.contents ++ moved.accepted
  unfolding run
  run-fifo [] q = sym (append-nil q.contents)
  run-fifo (call ∷ calls) q =
      let (moved, q') = step call q in
      let (later, final) = run calls q' in
      ground (
        arith,
        step-fifo call q,
        run-fifo calls q',
        append_assoc moved.out later.out final.contents,
        append_assoc moved.out q'.contents later.accepted,
        append_assoc q.contents moved.accepted later.accepted,
      )

  -- A queue that is shut down is empty.
  abbrev pub IsValid : Queue A → Type 0
  IsValid q = q.shutting_down ≡ true → q.contents ≡ []

  pub step-IsValid : (call : Call A) (q : Queue A) → IsValid q → IsValid (step call q).1
  unfolding step
  step-IsValid (puts items) q v = ground arith
  step-IsValid pops q v = ground arith
  step-IsValid shuts q v = λ _. refl

  -- After a shutdown nothing goes in or out, whatever is called: every `put` and every `pop` raises,
  -- and the queue stays as it is.
  run-shut :
      (calls : List (Call A)) (q : Queue A)
      → let (_, q') = shutdown q in
        let (moved, final) = run calls q' in (moved.out ≡ []) × (moved.accepted ≡ []) × (final ≡ q')
  unfolding run step shutdown
  run-shut [] q = (refl, refl, refl)
  run-shut (puts items ∷ calls) q = run-shut calls q
  run-shut (pops ∷ calls) q = run-shut calls q
  run-shut (shuts ∷ calls) q = run-shut calls q
