-- ===== src/Client/Waiting/Initialized.antt =====
-- When a wait for initialized devices ends: `waitUntilInitilized` of src/icefarm/client/lib/BaseClient.py.
use i_cefarm.Prelude.{
  Bool-cases, inl, inr, ◌≡◌, ◌↔◌, refl, ap, ◌∙◌, String, Bool, true, false, ◌&&◌, not, none, some,
  List, [], ◌∷◌, if◌then◌else◌, string_key, ==_iff, arith, discard, union, contains,
  contains-discard, contains-union, is_nonempty,
}
use i_cefarm.Client.Waiting.{
  Handler, Signal, initialized, timer, handle_initialization, wait_for, wait_until_initialized,
  receive_all,
}

-- The events "initialized" among the signals.
abbrev pub initialized_in : List Signal → List String
initialized_in [] = []
initialized_in (initialized serial ∷ later) = serial ∷ initialized_in later
initialized_in (timer passed ∷ later) = initialized_in later

-- Whether the wait has no timeout: no timer wakes it.
abbrev pub is_untimed : List Signal → Bool
is_untimed [] = true
is_untimed (initialized serial ∷ later) = is_untimed later
is_untimed (timer passed ∷ later) = false

-- Whether every serial of the first list is in the second.
abbrev pub covers : List String → List String → Bool
covers seen [] = true
covers seen (serial ∷ serials) = contains serial seen && covers seen serials

-- What is left of the serials once the events have come.
abbrev left_after : List String → List String → List String
left_after [] serials = serials
left_after (serial ∷ seen) serials = left_after seen (discard serial serials)

left_after-nil : (seen : List String) → left_after seen [] ≡ []
left_after-nil [] = refl
left_after-nil (serial ∷ seen) = left_after-nil seen

eq-nil_of_not_nonempty : (xs : List String) → is_nonempty xs ≡ false → xs ≡ []
eq-nil_of_not_nonempty [] h = refl
eq-nil_of_not_nonempty (x ∷ xs) h = cc

-- A wait with no timeout ends exactly when nothing is left.
wait_for-left_after :
    (later : List Signal) (h : Handler)
    → is_untimed later ≡ true
    → (wait_for later h).0 ≡ (
        if is_nonempty (left_after (initialized_in later) h.awaiting_serials)
        then none
        else some [])
unfolding wait_for handle_initialization
wait_for-left_after [] h untimed = ground arith
wait_for-left_after (initialized serial ∷ later) h untimed =
    elim (Bool-cases (is_nonempty h.awaiting_serials)) [
      | inl more ↦ ground (arith, more, wait_for-left_after later (handle_initialization serial h))
      | inr done ↦
          let e = eq-nil_of_not_nonempty h.awaiting_serials done in
          ground (arith, done, e, left_after-nil (initialized_in later), ap (discard serial) e)
    ]
wait_for-left_after (timer passed ∷ later) h untimed = cc

contains-left_after :
    (seen serials : List String) (x : String)
    → contains x (left_after seen serials) ≡ (contains x serials && not (contains x seen))
contains-left_after [] serials x = ground arith
contains-left_after (serial ∷ seen) serials x = ground (
  arith,
  contains-left_after seen (discard serial serials) x,
  contains-discard x serial serials,
  ==_iff serial x,
)

covers_of :
    (seen serials : List String)
    → ((x : String) → contains x serials ≡ true → contains x seen ≡ true)
    → covers seen serials ≡ true
covers_of seen [] h = refl
covers_of seen (serial ∷ serials) h =
    ground (
      arith,
      h serial,
      ==_iff serial serial,
      covers_of seen serials (λ x m. h x (ground (arith, m))),
    )

contains_of_covers :
    (seen serials : List String) (x : String)
    → covers seen serials ≡ true
    → contains x serials ≡ true
    → contains x seen ≡ true
contains_of_covers seen [] x h m = cc
contains_of_covers seen (serial ∷ serials) x h m =
    ground (arith, h, m, ==_iff serial x, contains_of_covers seen serials x)

not_nonempty_of :
    (xs : List String) → ((x : String) → contains x xs ≡ false) → is_nonempty xs ≡ false
not_nonempty_of [] h = refl
not_nonempty_of (x ∷ xs) h = ground (arith, h x, ==_iff x x)

-- Whatever events came before, a wait with no timeout for some devices ends, with nothing left to wait
-- for, exactly if after its beginning each of them sends an event "initialized". An event that came
-- earlier does not count.
pub wait_until_initialized-ends :
    (serials early : List String) (later : List Signal) (h : Handler)
    → is_untimed later ≡ true
    → ((wait_until_initialized serials later (receive_all early h)).0 ≡ some [])
      ↔ (covers (initialized_in later) serials ≡ true)
unfolding wait_until_initialized
wait_until_initialized-ends serials early later h untimed =
    let seen = initialized_in later in
    let awaiting = union [] serials in
    let start = record (receive_all early h) { awaiting_serials = awaiting } in
    let result = wait_for-left_after later start untimed in
    (
      λ ended. covers_of seen serials (λ x m.
          let none_left : is_nonempty (left_after seen awaiting) ≡ false =
            ground (arith, result, ended) in
          ground (
            arith,
            m,
            contains-left_after seen awaiting x,
            ap (contains x) (eq-nil_of_not_nonempty (left_after seen awaiting) none_left),
            contains-union x [] serials,
          )),
      λ covered.
          result
          ∙ rw
              (not_nonempty_of (left_after seen awaiting) (λ x. ground (
                arith,
                contains-left_after seen awaiting x,
                contains-union x [] serials,
                contains_of_covers seen serials x covered,
              )))
              refl,
    )
