-- ===== src/Worker/Requests/Threads.antt =====
-- For which devices a request to several serials is handled: the callback `handle` of
-- src/icefarm/worker/app.py.
use i_cefarm.Prelude.{
  ℕ, suc, ◌≤◌, ◌≡◌, refl, String, true, false, List, [], ◌∷◌, string_key, length, contains,
}
use i_cefarm.Utils.Loops.{
  value_after, last, value_after-zero, value_after-eq-last, contains-value_after,
}
use i_cefarm.Worker.Requests.{start_threads}

-- Each thread's serial is the one of its round, or of a later round.
abbrev pub AtOrAfter : List String → List String → Type 0
AtOrAfter [] [] = true ≡ true
AtOrAfter [] (serial ∷ serials) = true ≡ false
AtOrAfter (handled ∷ rest) [] = true ≡ false
AtOrAfter (handled ∷ rest) (serial ∷ serials) =
    (contains handled (serial ∷ serials) ≡ true) × AtOrAfter rest serials

-- However the threads of a request are delayed, there are as many of them as serials, and each handles the
-- request for a serial of the request, that of its own round or of a later one.
start_threads-AtOrAfter :
    (delays : ℕ → ℕ) (n : ℕ) (serials : List String)
    → AtOrAfter (start_threads delays n serials) serials
unfolding start_threads
start_threads-AtOrAfter delays n [] = refl
start_threads-AtOrAfter delays n (serial ∷ serials) =
    (contains-value_after (delays n) serial serials, start_threads-AtOrAfter delays (suc n) serials)

-- The last thread always handles the last serial; so with one serial the request is handled for it.
start_threads_one :
    (delays : ℕ → ℕ) (n : ℕ) (serial : String) → start_threads delays n (serial ∷ []) ≡ serial ∷ []
unfolding start_threads value_after
start_threads_one delays n serial = refl

start_threads_at_once : (n : ℕ) (serials : List String) → start_threads (λ i. 0) n serials ≡ serials
unfolding start_threads
start_threads_at_once n [] = refl
start_threads_at_once n (serial ∷ serials) =
    rw (value_after-zero serial serials, start_threads_at_once (suc n) serials) refl

-- If the loop is through before its threads run, every thread but for the last handles the request for the
-- last serial, and no other serial's request is handled.
start_threads_late :
    (k n : ℕ) (serial : String) (serials : List String)
    → length serials ≤ k
    → start_threads (λ i. k) n (serial ∷ serials)
      ≡ last serial serials ∷ start_threads (λ i. k) (suc n) serials
unfolding start_threads
start_threads_late k n serial serials h = rw (value_after-eq-last k serial serials h) refl
