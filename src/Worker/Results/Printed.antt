-- ===== src/Worker/Results/Printed.antt =====
-- The samples that a device prints are the samples that the parser of
-- src/icefarm/worker/device/state/reservable/VarMaxState.py finds.
use i_cefarm.Prelude.{
  ℕ, ◌+◌, ◌-◌, ◌*◌, ◌≡◌, refl, ap, ◌∙◌, Bool, true, ◌&&◌, some, List, [], ◌∷◌, ◌++◌, map, arith,
  all, All, is_nonempty, eqb, eqb_iff, Bool-cases, inl, inr,
}
use i_cefarm.Worker.Reader.{Text, codes, after_prefix}
use i_cefarm.Worker.Results.{
  is_digit, is_space, take_while, search_run, split, strip_left, strip_right, strip, to_int,
  to_ints, is_sample_char, parse_samples,
}

-- A printed number: its digits, of which there is at least one.
abbrev pub IsNumber : Text → Type 0
IsNumber text = (is_nonempty text ≡ true) × (all is_digit text ≡ true)

-- The number that digits stand for, after those read so far.
abbrev pub number_from : ℕ → Text → ℕ
number_from n [] = n
number_from n (c ∷ text) = number_from (n * 10 + (c - b'0')) text

abbrev pub number : Text → ℕ
number text = number_from 0 text

abbrev pub join : List Text → Text
join [] = []
join (first ∷ []) = first
join (first ∷ next ∷ rest) = first ++ b',' ∷ join (next ∷ rest)

-- `samples: 1,22,3`
abbrev pub print_samples : List Text → Text
print_samples numbers = codes "samples:" ++ b' ' ∷ join numbers

after_prefix-append : (prefix text : Text) → after_prefix prefix (prefix ++ text) ≡ some text
unfolding after_prefix
after_prefix-append [] text = refl
after_prefix-append (c ∷ prefix) text = ground (arith, eqb_iff c c, after_prefix-append prefix text)

take_while-all : (p : ℕ → Bool) (text : Text) → all p text ≡ true → take_while p text ≡ text
unfolding take_while
take_while-all p [] h = refl
take_while-all p (c ∷ text) h = ground (arith, h, take_while-all p text)

search_run-prefix :
    (c : ℕ) (prefix : Text) (p : ℕ → Bool) (run : Text)
    → is_nonempty run ≡ true
    → all p run ≡ true
    → search_run (c ∷ prefix) p (c ∷ prefix ++ run) ≡ some run
unfolding search_run
search_run-prefix c prefix p run some_run h = ground (
  arith,
  some_run,
  after_prefix-append (c ∷ prefix) run,
  take_while-all p run h,
  ap is_nonempty (take_while-all p run h),
)

all_append : (p : ℕ → Bool) (xs ys : Text) → all p (xs ++ ys) ≡ (all p xs && all p ys)
all_append p [] ys = refl
all_append p (x ∷ xs) ys = ground (arith, all_append p xs ys)

digit-sample : (text : Text) → all is_digit text ≡ true → all is_sample_char text ≡ true
unfolding is_sample_char
digit-sample [] h = refl
digit-sample (c ∷ text) h = ground (arith, h, digit-sample text)

comma_sample : is_sample_char b',' ≡ true
unfolding is_sample_char is_digit
comma_sample = refl

join-sample :
    (numbers : List Text) → All IsNumber numbers → all is_sample_char (join numbers) ≡ true
join-sample [] h = refl
join-sample (first ∷ []) h = digit-sample first h.0.1
join-sample (first ∷ next ∷ rest) h = ground (
  arith,
  all_append is_sample_char first (b',' ∷ join (next ∷ rest)),
  digit-sample first h.0.1,
  comma_sample,
  join-sample (next ∷ rest) h.1,
)

split_cons : (text : Text) → (first : Text) × (rest : List Text) × (split text ≡ first ∷ rest)
unfolding split
split_cons [] = ([], [], refl)
split_cons (c ∷ text) =
    let (first, rest, e) = split_cons text in
    elim (Bool-cases (eqb c b',')) [
      | inl comma ↦ ([], first ∷ rest, ground (arith, e, comma))
      | inr other ↦ (c ∷ first, rest, ground (arith, e, other))
    ]

split_digits : (text : Text) → all is_digit text ≡ true → split text ≡ text ∷ []
unfolding split is_digit
split_digits [] h = refl
split_digits (c ∷ text) h = ground (arith, h, split_digits text)

split-comma :
    (text rest : Text) → all is_digit text ≡ true → split (text ++ b',' ∷ rest) ≡ text ∷ split rest
unfolding split is_digit
split-comma [] rest h = let (first, others, e) = split_cons rest in ground (arith, e)
split-comma (c ∷ text) rest h = ground (arith, h, split-comma text rest)

split-join :
    (first : Text) (rest : List Text)
    → All IsNumber (first ∷ rest)
    → split (join (first ∷ rest)) ≡ first ∷ rest
split-join first [] h = split_digits first h.0.1
split-join first (next ∷ rest) h =
    split-comma first (join (next ∷ rest)) h.0.1 ∙ ap (λ l. first ∷ l) (split-join next rest h.1)

strip_right_digits : (text : Text) → all is_digit text ≡ true → strip_right text ≡ text
unfolding strip_right is_digit is_space
strip_right_digits [] h = refl
strip_right_digits (c ∷ []) h = ground (arith, h)
strip_right_digits (c ∷ d ∷ text) h = ground (arith, h, strip_right_digits (d ∷ text))

strip_left_digits : (text : Text) → all is_digit text ≡ true → strip_left text ≡ text
unfolding strip_left is_digit is_space
strip_left_digits [] h = refl
strip_left_digits (c ∷ text) h = ground (arith, h)

strip_digits : (text : Text) → all is_digit text ≡ true → strip text ≡ text
unfolding strip
strip_digits text h = ap strip_right (strip_left_digits text h) ∙ strip_right_digits text h

strip_space : (text : Text) → strip (b' ' ∷ text) ≡ strip text
unfolding strip strip_left is_space
strip_space text = refl

to_int_digits :
    (n : ℕ) (text : Text) → all is_digit text ≡ true → to_int n text ≡ some (number_from n text)
unfolding to_int
to_int_digits n [] h = refl
to_int_digits n (c ∷ text) h = ground (arith, h, to_int_digits (n * 10 + (c - b'0')) text)

to_ints_numbers :
    (numbers : List Text) → All IsNumber numbers → to_ints numbers ≡ some (map number numbers)
unfolding to_ints
to_ints_numbers [] h = refl
to_ints_numbers (first ∷ rest) h =
    rw (strip_digits first h.0.1, h.0.0, to_int_digits 0 first h.0.1, to_ints_numbers rest h.1) refl

to_ints_spaced :
    (first : Text) (rest : List Text) → to_ints ((b' ' ∷ first) ∷ rest) ≡ to_ints (first ∷ rest)
unfolding to_ints
to_ints_spaced first rest = rw (strip_space first) refl

split_spaced :
    (text first : Text) (rest : List Text)
    → split text ≡ first ∷ rest
    → split (b' ' ∷ text) ≡ (b' ' ∷ first) ∷ rest
unfolding split
split_spaced text first rest e = ground (arith, e)

spaced_sample :
    (text : Text) → all is_sample_char text ≡ true → all is_sample_char (b' ' ∷ text) ≡ true
unfolding is_sample_char is_digit is_space
spaced_sample text h = ground (arith, h)

parse_samples_run :
    (text run : Text)
    → search_run (codes "samples:") is_sample_char text ≡ some run
    → parse_samples text ≡ to_ints (split run)
unfolding parse_samples
parse_samples_run text run found = rw (parse_samples, found) refl

-- For every list of at least one printed number, parsing the printed samples gives back the numbers.
pub parse_samples-print :
    (first : Text) (rest : List Text)
    → All IsNumber (first ∷ rest)
    → parse_samples (print_samples (first ∷ rest)) ≡ some (map number (first ∷ rest))
parse_samples-print first rest h =
    let numbers = first ∷ rest in
    let found =
      search_run-prefix b's' (codes "amples:") is_sample_char (b' ' ∷ join numbers) refl
        (spaced_sample (join numbers) (join-sample numbers h)) in
    parse_samples_run (print_samples numbers) (b' ' ∷ join numbers) found
    ∙ (ap to_ints (split_spaced (join numbers) first rest (split-join first rest h))
        ∙ (to_ints_spaced first rest ∙ to_ints_numbers numbers h))
