-- ===== src/Worker/Upload/Conserved.antt =====
-- No bitstream that was queued is lost: UploadState.py of src/icefarm/worker/device/state/core.
use i_cefarm.Prelude.{
  count, count-append, ℕ, ◌+◌, ◌≡◌, refl, String, Bool, true, false, ◌&&◌, Option, none, some, List,
  [], ◌∷◌, ◌++◌, arith, if◌then◌else◌, string_key, ◌==◌, ==_iff, ==_refl,
}
use i_cefarm.Dict.{get, put, get-put, remove}
use i_cefarm.Utils.Queue
use i_cefarm.Utils.Queue.{Queue, Raises, returned, queue_shut_down, Popped, item, blocked, shut}
use i_cefarm.Utils.MappedQueues
use i_cefarm.Utils.MappedQueues.{MappedQueues, append}
use i_cefarm.Worker.Upload.{
  Bytes, Bitstream, ResultsEvent, Upload, bitstreams_of, queue, events_of, flush, finish, run_round,
  Attempt, answered, raised, with_current, Caller, own, beside, taken, uploading, recorded,
}

module _ (batch name : String) where
  -- Whether a bitstream is this one.
  abbrev is_it : Bitstream → Bool
  is_it bitstream = bitstream.batch_id == batch && bitstream.name == name

  abbrev in_current : Option Bitstream → ℕ
  in_current none = 0
  in_current (some bitstream) = if is_it bitstream then 1 else 0

  count-with_current :
      (bitstreams : List Bitstream) (current : Option Bitstream)
      → count is_it (with_current bitstreams current) ≡ count is_it bitstreams + in_current current
  count-with_current bitstreams none = omega arith
  count-with_current bitstreams (some bitstream) =
      ground (arith, count-append is_it bitstreams (bitstream ∷ []))

module _ {R : Type 0} (batch name : String) where
  abbrev is_named : String × R → Bool
  is_named entry = entry.0 == name

  -- How often the results of a mapping belong to this bitstream of this batch.
  abbrev in_results : MappedQueues String (String × R) → ℕ
  in_results [] = 0
  in_results (entry ∷ rest) =
      (if entry.0 == batch then count is_named entry.1 else 0) + in_results rest

  abbrev in_events : List (ResultsEvent R) → ℕ
  in_events [] = 0
  in_events (event ∷ rest) =
      (if event.batch_id == batch then count is_named event.results else 0) + in_events rest

  in_events-append :
      (xs ys : List (ResultsEvent R)) → in_events (xs ++ ys) ≡ in_events xs + in_events ys
  in_events-append [] ys = omega arith
  in_events-append (x ∷ xs) ys = omega (arith, in_events-append xs ys)

  in_events-events_of :
      (state : MappedQueues String (String × R)) → in_events (events_of state) ≡ in_results state
  unfolding events_of
  in_events-events_of [] = refl
  in_events-events_of (entry ∷ rest) = omega (arith, in_events-events_of rest)

  in_results-put :
      (key : String) (found : List (String × R)) (state : MappedQueues String (String × R))
      → in_results (put key found state)
          + (if key == batch then count is_named (MappedQueues.queue key state) else 0)
        ≡ in_results state + (if key == batch then count is_named found else 0)
  unfolding put get
  in_results-put key found [] = ground arith
  in_results-put key found (entry ∷ rest) =
      ground (arith, in_results-put key found rest, ==_iff entry.0 key)

  in_results-append :
      (key : String) (value : String × R) (state : MappedQueues String (String × R))
      → in_results (append key value state)
        ≡ in_results state + (if key == batch then (if is_named value then 1 else 0) else 0)
  unfolding append
  in_results-append key value state =
      let found = MappedQueues.queue key state ++ value ∷ [] in
      ground (
        arith,
        in_results-put key [] state,
        in_results-put key found state,
        in_results-put key found (put key [] state),
        get-put key key [] state,
        ==_refl key,
        count-append is_named (MappedQueues.queue key state) (value ∷ []),
      )

  -- How often this bitstream of this batch is queued, being uploaded, or answered.
  abbrev pub tally : Upload R → ℕ
  tally u =
      count (is_it batch name) u.bitstream_queue.contents
      + in_current batch name u.current_bitstream
      + (in_results u.results + in_events u.sent)

  -- How often it is answered.
  abbrev kept : Upload R → ℕ
  kept u = in_results u.results + in_events u.sent

  -- A flush keeps it, whether or not the events go out.
  pub tally-flush :
      (send : List (ResultsEvent R) → Bool) (now : ℕ) (u : Upload R)
      → tally (flush send now u).1 ≡ tally u
  unfolding flush Queue.is_true Queue.len
  tally-flush send now u =
      ground (arith, in_events-append u.sent (events_of u.results), in_events-events_of u.results)

  tally-finish :
      (send : List (ResultsEvent R) → Bool) (now : ℕ) (bitstream : Bitstream) (result : R)
      (u : Upload R)
      → u.current_bitstream ≡ some bitstream
      → tally (finish send now bitstream result u) ≡ tally u
  unfolding finish
  tally-finish send now bitstream result u h =
      let u' : Upload R = record u {
        results = append bitstream.batch_id (bitstream.name, result) u.results;
        files = remove bitstream.location u.files;
        current_bitstream = none;
      } in
      ground (
        arith,
        tally-flush send now u',
        in_results-append bitstream.batch_id (bitstream.name, result) u.results,
      )

  tally-run_round_at :
      (send : List (ResultsEvent R) → Bool) (now : ℕ) (attempt : Attempt R) (u : Upload R)
      (queued : List Bitstream)
      → u.bitstream_queue.contents ≡ queued
      → u.current_bitstream ≡ none
      → tally (run_round send now attempt u).1 ≡ tally u
  unfolding run_round Queue.pop
  tally-run_round_at send now attempt u [] h idle = ground arith
  tally-run_round_at send now raised u (bitstream ∷ rest) h idle = ground arith
  tally-run_round_at send now (answered result) u (bitstream ∷ rest) h idle =
      let u' : Upload R = record u {
        bitstream_queue = record u.bitstream_queue { contents = rest };
        current_bitstream = some bitstream;
      } in
      ground (arith, tally-finish send now bitstream result u' refl)

  -- A round of the upload thread neither loses nor doubles a bitstream, counted over the queue, the current
  -- upload, the held results and the sent events, however the round ends.
  pub tally-run_round :
      (send : List (ResultsEvent R) → Bool) (now : ℕ) (attempt : Attempt R) (u : Upload R)
      → u.current_bitstream ≡ none
      → tally (run_round send now attempt u).1 ≡ tally u
  tally-run_round send now attempt u idle =
      tally-run_round_at send now attempt u u.bitstream_queue.contents refl idle

  -- What the upload thread has in hand when a reboot begins, beside the queue and the results.
  abbrev pub in_hand : Caller R → Upload R → ℕ
  in_hand own u = in_current batch name u.current_bitstream
  in_hand (beside (taken bitstream attempt)) u = in_current batch name (some bitstream)
  in_hand (beside (uploading bitstream attempt)) u = in_current batch name (some bitstream)
  in_hand (beside stage) u = 0

  -- The bitstream that is noted as the current one meanwhile.
  abbrev pub noted : Caller R → Upload R → Option Bitstream
  noted own u = u.current_bitstream
  noted (beside (uploading bitstream attempt)) u = some bitstream
  noted (beside (recorded bitstream)) u = some bitstream
  noted (beside stage) u = none

  -- How often a reboot hands this bitstream over beside its own result.
  abbrev pub again : Caller R → ℕ
  again (beside (uploading bitstream (answered result))) = in_current batch name (some bitstream)
  again (beside (recorded bitstream)) = in_current batch name (some bitstream)
  again caller = 0

  abbrev pub hangs : Caller R → Bool
  hangs (beside (taken bitstream raised)) = true
  hangs (beside (uploading bitstream raised)) = true
  hangs caller = false

  abbrev pub tally_of : Option (Upload R) → Option ℕ
  tally_of none = none
  tally_of (some u) = some (tally u)

  queued :
      (u : Upload R)
      → count (is_it batch name) (with_current u.bitstream_queue.contents u.current_bitstream)
        ≡ count (is_it batch name) u.bitstream_queue.contents
          + in_current batch name u.current_bitstream
  queued u = count-with_current batch name u.bitstream_queue.contents u.current_bitstream

  -- A request adds its own bitstreams, unless the queue has been shut down: then they are dropped.
  tally-queue :
      (paths : List String) (files : List (String × Bytes)) (id : String) (u : Upload R)
      → tally (queue paths files id u).1 ≡ (
          if u.bitstream_queue.shutting_down
          then tally u
          else tally u + count (is_it batch name) (bitstreams_of paths files id))
  unfolding queue Queue.put
  tally-queue paths files id u = ground (
    arith,
    count-append (is_it batch name) u.bitstream_queue.contents (bitstreams_of paths files id),
  )
