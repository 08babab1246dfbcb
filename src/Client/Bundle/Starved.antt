-- ===== src/Client/Bundle/Starved.antt =====
-- A bundle with two sets of serials: once the queue of the first is empty, `takewhile` in
-- `MappedQueues.__iter__` hides the second, and `__next__` stops with evaluations still queued.
use i_cefarm.Prelude.{
  ℕ, ◌+◌, ◌<◌, ◌≤◌, ◌≡◌, refl, ◌∙◌, ap, true, false, none, List, [], ◌∷◌, ◌++◌, arith, length,
  length-append, length-reverse, ==_refl, ==_iff, reverse, append-nil, append_assoc, All, ◌==◌,
  String,
}
use i_cefarm.Dict.{Dict, get, put}
use i_cefarm.Dict as Dict
use i_cefarm.Utils.MappedQueues.{keys, queue, append, MappedQueues, pop}
use i_cefarm.Utils.MappedQueues.Laws.{queue-pop, pop_lem, length-pop}
use i_cefarm.Client.Evaluation.{Evaluation, Serials, serials_key, size}
use i_cefarm.Client.Bundle.{
  Bundle, Amounts, Draw, next, init, fill, draw, draw_group, sort_by_size, insert_by_size, slots_of,
}
use i_cefarm.Client.Bundle.Contents.{init-IsValid, next_keeps}
use i_cefarm.Client.Bundle.Rounds.{next-none, slots_of_started, started}

slots_of-le_size :
    (batch_size : ℕ) (amounts : Amounts) (serial : String) (others : List String)
    → slots_of batch_size amounts serial others ≤ batch_size
unfolding slots_of
slots_of-le_size batch_size amounts serial [] = omega arith
slots_of-le_size batch_size amounts serial (other ∷ rest) =
    omega (arith, slots_of-le_size batch_size amounts other rest)

module _ (batch_size : ℕ) (serials : Serials) (d : Draw) where
  -- A group is drawn from its own queue alone,
  queue-draw_group_ne :
      (key : Serials)
      → (serials == key) ≡ false
      → queue key (draw_group batch_size serials d).queue ≡ queue key d.queue
  unfolding draw_group
  queue-draw_group_ne key other =
      let slots = slots_of batch_size d.serial_amounts serials.first serials.others in
      ground (arith, (pop_lem serials slots d.queue).2 key)

  -- and at most `batch_size` from that.
  length-draw_group :
      length (queue serials d.queue)
      ≤ length (queue serials (draw_group batch_size serials d).queue) + batch_size
  unfolding draw_group
  length-draw_group =
      let slots = slots_of batch_size d.serial_amounts serials.first serials.others in
      let (popped, left) = pop serials slots d.queue in
      ground (
        arith,
        ap length (queue-pop serials slots d.queue),
        length-append (queue serials left) (reverse popped),
        length-reverse popped,
        length-pop serials slots d.queue,
        slots_of-le_size batch_size d.serial_amounts serials.first serials.others,
      )

nil_of_length {ℓ} : {A : Type ℓ} (xs : List A) → length xs ≡ 0 → xs ≡ []
nil_of_length [] h = refl
nil_of_length (x ∷ xs) h = absurd (omega arith)

-- The first group of a batch takes a lone evaluation.
queue-draw_group_lone :
    (bundle : Bundle) (serials : Serials) (lone : Evaluation)
    → 0 < bundle.batch_size
    → queue serials bundle.queue ≡ lone ∷ []
    → queue serials (draw_group bundle.batch_size serials (started bundle)).queue ≡ []
unfolding draw_group
queue-draw_group_lone bundle serials lone pos h =
    let slots = slots_of bundle.batch_size [] serials.first serials.others in
    let (popped, left) = pop serials slots bundle.queue in
    nil_of_length _ (
      ground (
        arith,
        slots_of_started bundle.batch_size serials.first serials.others,
        ap length (queue-pop serials slots bundle.queue),
        length-append (queue serials left) (reverse popped),
        length-reverse popped,
        length-pop serials slots bundle.queue,
        ap length h,
      ))

queue-next :
    (bundle : Bundle)
    → (next bundle).1.queue
      ≡ (draw bundle.batch_size (sort_by_size (keys bundle.queue)) (started bundle)).queue
unfolding next
queue-next bundle = ground arith

module _ (few many : Serials) (apart : (few == many) ≡ false) where
  fill-second :
      (queued evaluations : List Evaluation) (first : List Evaluation)
      → All (λ e. e.serials ≡ many) evaluations
      → fill evaluations ((few, first) ∷ (many, queued) ∷ [])
        ≡ (few, first) ∷ (many, queued ++ evaluations) ∷ []
  unfolding fill append put get
  fill-second queued [] first h = rw append-nil
  fill-second queued (evaluation ∷ rest) first h = ground (
    arith,
    apart,
    h.0,
    ==_refl many,
    fill-second (queued ++ evaluation ∷ []) rest first h.1,
    append_assoc queued (evaluation ∷ []) rest,
  )

  fill-two :
      (lone evaluation : Evaluation) (rest : List Evaluation)
      → lone.serials ≡ few
      → All (λ e. e.serials ≡ many) (evaluation ∷ rest)
      → fill (lone ∷ evaluation ∷ rest) [] ≡ (few, lone ∷ []) ∷ (many, evaluation ∷ rest) ∷ []
  unfolding fill append put get
  fill-two lone evaluation rest first h = ground (
    arith,
    apart,
    first,
    h.0,
    ==_refl few,
    ==_refl many,
    fill-second (evaluation ∷ []) rest (lone ∷ []) h.1,
  )

  -- The state of the queues after one batch: `few` has nothing left, and `many` lost at most
  -- `batch_size`.
  after_first :
      (bundle : Bundle) (lone evaluation : Evaluation) (rest : List Evaluation)
      → 0 < bundle.batch_size
      → size few ≤ size many
      → bundle.queue ≡ (few, lone ∷ []) ∷ (many, evaluation ∷ rest) ∷ []
      → let bundle' = (next bundle).1 in
        (queue few bundle'.queue ≡ [])
        × (length (evaluation ∷ rest) ≤ length (queue many bundle'.queue) + bundle.batch_size)
  unfolding draw sort_by_size insert_by_size keys get
  after_first bundle lone evaluation rest pos order shape =
      let d = draw_group bundle.batch_size few (started bundle) in
      let sorted : sort_by_size (keys bundle.queue) ≡ few ∷ many ∷ [] = ground (arith, shape) in
      rw (queue-next bundle, sorted, draw)
        (
          queue-draw_group_ne bundle.batch_size many d few
                (ground (arith, ==_iff few many, ==_iff many few))
              ∙ queue-draw_group_lone bundle few lone pos (ground (arith, shape, ==_refl few)),
          ground (
            arith,
            length-draw_group bundle.batch_size many d,
            queue-draw_group_ne bundle.batch_size few (started bundle) many apart,
            shape,
            apart,
            ==_refl many,
          ),
        )

  no_keys :
      (state : MappedQueues Serials Evaluation)
      → Dict.keys state ≡ few ∷ many ∷ []
      → queue few state ≡ []
      → keys state ≡ []
  unfolding keys get
  no_keys [] shape h = cc
  no_keys ((key, []) ∷ rest) shape h = refl
  no_keys ((key, x ∷ xs) ∷ rest) shape h = ground (arith, ==_refl few)

  -- With a batch size above 0, one evaluation for one set of serials, followed by more than a batch for another set
  -- that is not smaller: after one batch the bundle declares itself empty with evaluations of the second set still
  -- queued.
  pub starved :
      (lone evaluation : Evaluation) (rest : List Evaluation) (batch_size : ℕ)
      → 0 < batch_size
      → size few ≤ size many
      → lone.serials ≡ few
      → All (λ e. e.serials ≡ many) (evaluation ∷ rest)
      → batch_size < length (evaluation ∷ rest)
      → let (_, second) = next (init (lone ∷ evaluation ∷ rest) batch_size) in
        let (drawn, final) = next second in
        (drawn ≡ none) × (final.empty ≡ true) × (0 < length (queue many final.queue))
  unfolding init
  starved lone evaluation rest batch_size pos order first h long =
      let evaluations : List Evaluation = lone ∷ evaluation ∷ rest in
      let bundle = init evaluations batch_size in
      let filled = fill-two lone evaluation rest first h in
      let (drained, kept) = after_first bundle lone evaluation rest pos order filled in
      let (_, shape) = next_keeps bundle (init-IsValid evaluations batch_size) in
      let stop = next-none (next bundle).1 (no_keys _ (shape ∙ ap Dict.keys filled) drained) in
      rw stop (refl, refl, omega arith)
