-- ===== src/Worker/Upload.antt =====
-- `UploadState` of src/icefarm/worker/device/state/core/UploadState.py: bitstreams are queued by
-- requests, one thread uploads them and collects results, and results are flushed to the client.
-- The file system is a dictionary from path to contents; a method takes the time as `now`.
pub mod Conserved
pub mod Chunks
use i_cefarm.Prelude.{
  ℕ, zero, suc, ◌+◌, String, Bool, true, false, not, ◌&&◌, ◌||◌, Option, none, some, List, [], ◌∷◌,
  ◌++◌, map, leb, eqb, if◌then◌else◌, string_key,
}
use i_cefarm.Dict.{Dict}
use i_cefarm.Dict as Dict
use i_cefarm.Utils.Queue
use i_cefarm.Utils.Queue.{Queue, Raises, returned, queue_shut_down, item, blocked, shut}
use i_cefarm.Utils.MappedQueues.{MappedQueues, append}

abbrev pub Bytes : Type 0
Bytes = List ℕ

pub record Bitstream : Type 0 where
  pub location : String
  pub name : String
  pub batch_id : String

-- The event "results": a batch, and its pairs of a bitstream's name and its result.
pub record ResultsEvent (R : Type 0) : Type 0 where
  pub batch_id : String
  pub results : List (String × R)

pub record Upload (R : Type 0) : Type 0 where
  pub bitstream_queue : Queue Bitstream
  pub current_bitstream : Option Bitstream
  pub results : MappedQueues String (String × R)
  pub flush_interval_seconds : ℕ
  pub last_flush_time : ℕ
  pub flush_at_bitstreams_remaining : ℕ
  -- What this state has written: files, and events that were sent.
  pub files : Dict String Bytes
  pub sent : List (ResultsEvent R)

-- `zip(paths, files.values())`, each written to its path.
unfoldable pub write_files :
    List String → List (String × Bytes) → Dict String Bytes → Dict String Bytes
write_files [] files disk = disk
write_files (path ∷ paths) [] disk = disk
write_files (path ∷ paths) ((name, contents) ∷ files) disk =
    write_files paths files (Dict.put path contents disk)

unfoldable pub bitstreams_of : List String → List (String × Bytes) → String → List Bitstream
bitstreams_of [] files batch_id = []
bitstreams_of (path ∷ paths) [] batch_id = []
bitstreams_of (path ∷ paths) ((name, contents) ∷ files) batch_id =
    record { location = path; name = name; batch_id = batch_id }
    ∷ bitstreams_of paths files batch_id

-- What writing a bitstream and waiting for its result comes to: an exception of either, or the result.
pub data Attempt (R : Type 0) : Type 0 where
  answered : R → Attempt R
  raised : Attempt R

-- How one round of the loop of `run` ends.
pub data Round : Type 0 where
  waits returns reboots continues : Round

-- Where the upload thread is, with what is still to come of it: waiting for a bitstream; in a flush, with whether it
-- sends; with a bitstream that it has popped, and not noted as the current one yet; with the current bitstream, up
-- to its result; or with the result recorded, and the current bitstream not yet reset.
pub data Stage (R : Type 0) : Type 0 where
  waiting : Stage R
  flushing : Bool → Stage R
  taken uploading : Bitstream → Attempt R → Stage R
  recorded : Bitstream → Stage R

-- Who reboots: the upload thread, after an exception, or another thread beside it.
pub data Caller (R : Type 0) : Type 0 where
  own : Caller R
  beside : Stage R → Caller R

abbrev pub with_current : List Bitstream → Option Bitstream → List Bitstream
with_current bitstreams none = bitstreams
with_current bitstreams (some bitstream) = bitstreams ++ bitstream ∷ []

module _ {R : Type 0} where
  -- `__init__`; an interval of 0 stands for None too.
  unfoldable pub init : ℕ → ℕ → ℕ → Dict String Bytes → Upload R
  init now flush_interval flush_at files = record {
    bitstream_queue = Queue.init [];
    current_bitstream = none;
    results = [];
    flush_interval_seconds = flush_interval;
    last_flush_time = now;
    flush_at_bitstreams_remaining = flush_at;
    files = files;
    sent = [];
  }

  -- The request "evaluate", with a path for each file; the bitstreams of a queue that is shut down are
  -- dropped. It returns True.
  unfoldable pub queue : List String → List (String × Bytes) → String → Upload R → Bool × Upload R
  unfolding write_files bitstreams_of
  queue paths files batch_id u =
      let u' = record u { files = write_files paths files u.files } in
      elim (Queue.put (bitstreams_of paths files batch_id) u.bitstream_queue) [
        | returned q ↦ (true, record u' { bitstream_queue = q })
        | queue_shut_down ↦ (true, u')
      ]

  -- `UploadEventSender.finished`: one event for each batch.
  unfoldable pub events_of : MappedQueues String (String × R) → List (ResultsEvent R)
  events_of = map (λ entry. record { batch_id = entry.0; results = entry.1 })

  -- Whether `_flush` sends, when the queue is not shut down.
  unfoldable pub is_flush_due : ℕ → Bool → ℕ → Upload R → Bool
  is_flush_due now nonempty remaining u =
      (not nonempty || eqb remaining u.flush_at_bitstreams_remaining)
      || (not (eqb u.flush_interval_seconds 0)
          && leb (u.last_flush_time + u.flush_interval_seconds) now)

  -- `_flush`, with `send` for whether the device event sender takes the events.
  unfoldable pub flush : (List (ResultsEvent R) → Bool) → ℕ → Upload R → Bool × Upload R
  unfolding events_of is_flush_due
  flush send now u = elim (Queue.is_true u.bitstream_queue) [
    | queue_shut_down ↦ (false, u)
    | returned nonempty ↦ elim (Queue.len u.bitstream_queue) [
      | queue_shut_down ↦ (false, u)
      | returned remaining ↦
          if is_flush_due now nonempty remaining u
          then (if send (events_of u.results)
              then (
                true,
                record u {
                  results = [];
                  last_flush_time = now;
                  sent = u.sent ++ events_of u.results;
                },
              )
              else (false, u))
          else (false, u)
    ]
  ]

  -- The part of the loop that follows the result.
  unfoldable pub finish : (List (ResultsEvent R) → Bool) → ℕ → Bitstream → R → Upload R → Upload R
  finish send now bitstream result u =
      (flush send now (record u {
        results = append bitstream.batch_id (bitstream.name, result) u.results;
        files = Dict.remove bitstream.location u.files;
        current_bitstream = none;
      })).1

  attempt_one :
      (List (ResultsEvent R) → Bool) → ℕ → Bitstream → Attempt R → Upload R → Round × Upload R
  attempt_one send now bitstream (answered result) u =
      (continues, finish send now bitstream result u)
  attempt_one send now bitstream raised u = (reboots, u)

  -- One round of the loop of `run`; after `reboots` the thread calls `reboot` and returns.
  unfoldable pub run_round :
      (List (ResultsEvent R) → Bool) → ℕ → Attempt R → Upload R → Round × Upload R
  unfolding attempt_one
  run_round send now attempt u =
      let (popped, q) = Queue.pop u.bitstream_queue in
      elim popped [
        | blocked ↦ (waits, u)
        | shut ↦ (returns, u)
        | item bitstream ↦
            attempt_one send now bitstream attempt
              (record u { bitstream_queue = q; current_bitstream = some bitstream })
      ]

  -- What the upload thread, if it is not the one that reboots, still does until it ends: the queue is shut down, so
  -- it finishes what it has begun. None where it never ends: it raises and reboots as well, and waits for the
  -- device's lock, which the thread that waits for it holds.
  unfoldable pub join : (List (ResultsEvent R) → Bool) → ℕ → Caller R → Upload R → Option (Upload R)
  unfolding finish flush
  join send now own u = some u
  join send now (beside waiting) u = some u
  join send now (beside (flushing sends)) u = some (
      if sends
      then record u { results = []; last_flush_time = now; sent = u.sent ++ events_of u.results }
      else u)
  join send now (beside (taken bitstream (answered result))) u =
      some (finish send now bitstream result (record u { current_bitstream = some bitstream }))
  join send now (beside (taken bitstream raised)) u = none
  join send now (beside (uploading bitstream (answered result))) u =
      some (finish send now bitstream result u)
  join send now (beside (uploading bitstream raised)) u = none
  join send now (beside (recorded bitstream)) u =
      some
        (flush send now
          (record u { files = Dict.remove bitstream.location u.files; current_bitstream = none })).1

  -- `reboot` up to its switch: the state that `transfer_bitstreams` makes at the time `now`, of the bitstreams from
  -- before `handleExit` waits for the upload thread, and of the results from after it. None where it waits forever.
  unfoldable pub reboot :
      (List (ResultsEvent R) → Bool) → ℕ → Caller R → Upload R → Option (Upload R)
  unfolding init join
  reboot send now caller u =
      let (contents, q) = Queue.shutdown u.bitstream_queue in
      let bitstreams = with_current contents u.current_bitstream in
      elim (join send now caller (record u { bitstream_queue = q })) [
        | none ↦ none
        | some left ↦ some (
            let fresh =
              init now u.flush_interval_seconds u.flush_at_bitstreams_remaining left.files in
            record fresh {
              results = left.results;
              bitstream_queue = Queue.init bitstreams;
              sent = left.sent;
            })
      ]
