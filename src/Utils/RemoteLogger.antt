-- ===== src/Utils/RemoteLogger.antt =====
-- `RemoteLogger` of src/icefarm/utils/RemoteLogger.py: messages are logged here at once and kept for the
-- next round of the thread that posts them to the control server.
use i_cefarm.Prelude.{
  ℕ, ◌≡◌, refl, ap, sym, ◌∙◌, String, Bool, List, [], ◌∷◌, ◌++◌, append_assoc, append-nil,
  if◌then◌else◌, is_nonempty, arith,
}

abbrev pub Entry : Type 0
Entry = ℕ × String

pub record Logger : Type 0 where
  -- What the wrapped logger was given.
  pub logged : List Entry
  pub backlog : List Entry
  -- The requests to the control server, with whether each was accepted.
  pub posts : List (List Entry × Bool)

-- `log`, which every level calls.
unfoldable pub log : ℕ → String → Logger → Logger
log level msg l = record l {
  logged = l.logged ++ (level, msg) ∷ [];
  backlog = l.backlog ++ (level, msg) ∷ [];
}

abbrev pub error_level : ℕ
error_level = 40

-- One round of `_send`: without messages there is no request, and a failed one is only logged here.
unfoldable pub send_round : Bool → Logger → Logger
send_round accepted l =
    if is_nonempty l.backlog
    then (let l' : Logger = record l {
      backlog = [];
      posts = l.posts ++ (l.backlog, accepted) ∷ [];
    } in
        if accepted then l' else record l' {
          logged = l.logged ++ (error_level, "[RemoteLogger] failed to send log results") ∷ [];
        })
    else l

-- A schedule of messages and rounds.
pub data Turn : Type 0 where
  writes : ℕ → String → Turn
  rounds : Bool → Turn

unfoldable pub run : List Turn → Logger → Logger
run [] l = l
run (writes level msg ∷ turns) l = run turns (log level msg l)
run (rounds accepted ∷ turns) l = run turns (send_round accepted l)

abbrev pub posted : List (List Entry × Bool) → List Entry
posted [] = []
posted ((entries, accepted) ∷ rest) = entries ++ posted rest

abbrev pub written : List Turn → List Entry
written [] = []
written (writes level msg ∷ turns) = (level, msg) ∷ written turns
written (rounds accepted ∷ turns) = written turns

posted-append :
    (posts more : List (List Entry × Bool)) → posted (posts ++ more) ≡ posted posts ++ posted more
posted-append [] more = refl
posted-append ((entries, accepted) ∷ posts) more =
    ap (λ l. entries ++ l) (posted-append posts more)
    ∙ sym (append_assoc entries (posted posts) (posted more))

posted-send_round :
    (accepted : Bool) (l : Logger)
    → posted (send_round accepted l).posts ++ (send_round accepted l).backlog
      ≡ posted l.posts ++ l.backlog
unfolding send_round
posted-send_round accepted l = ground (
  arith,
  posted-append l.posts ((l.backlog, accepted) ∷ []),
  append-nil l.backlog,
  append-nil (posted l.posts ++ l.backlog),
  append-nil (posted l.posts ++ l.backlog ++ []),
)

-- Under every schedule each message is posted at most once and in order, and what was not posted yet is
-- still kept: a message is lost only with a request that fails.
pub posted-run :
    (turns : List Turn) (l : Logger)
    → posted (run turns l).posts ++ (run turns l).backlog
      ≡ (posted l.posts ++ l.backlog) ++ written turns
unfolding run log
posted-run [] l = sym (append-nil (posted l.posts ++ l.backlog))
posted-run (writes level msg ∷ turns) l =
    posted-run turns (log level msg l)
    ∙ (ap (λ x. x ++ written turns)
          (sym (append_assoc (posted l.posts) l.backlog ((level, msg) ∷ [])))
        ∙ append_assoc (posted l.posts ++ l.backlog) ((level, msg) ∷ []) (written turns))
posted-run (rounds accepted ∷ turns) l =
    posted-run turns (send_round accepted l)
    ∙ ap (λ x. x ++ written turns) (posted-send_round accepted l)
