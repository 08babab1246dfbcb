-- ===== src/Worker/Results.antt =====
-- The parsers of the devices' results: `PulseCountStateFlasher` and `VarMaxStateFlasher` of
-- src/icefarm/worker/device/state/reservable, with `calculate_variance`. A text is a list of code points;
-- of the digits and spaces that the regular expressions take, those of ASCII.
pub mod Printed
pub mod Variance
use i_cefarm.Prelude.{
  ℕ, zero, suc, ◌+◌, ◌-◌, ◌*◌, String, Bool, true, false, ◌&&◌, ◌||◌, Option, none, some, List, [],
  ◌∷◌, ◌++◌, if◌then◌else◌, leb, eqb, is_nonempty, length,
}
use i_cefarm.Worker.Reader.{Text, codes, after_prefix}

unfoldable pub is_digit : ℕ → Bool
is_digit c = leb b'0' c && leb c b'9'

-- Tab, line feed, vertical tab, form feed, carriage return and space.
unfoldable pub is_space : ℕ → Bool
is_space c = eqb c b' ' || (leb 9 c && leb c 13)

unfoldable pub take_while : (ℕ → Bool) → Text → Text
take_while p [] = []
take_while p (c ∷ text) = let rest = take_while p text in if p c then c ∷ rest else []

-- `re.search` for a prefix and then a non-empty run of characters: the run at the first place where there
-- is one.
unfoldable pub search_run : Text → (ℕ → Bool) → Text → Option Text
search_run prefix p [] = none
search_run prefix p (c ∷ text) =
    let later = search_run prefix p text in
    elim (after_prefix prefix (c ∷ text)) [
      | none ↦ later
      | some rest ↦ let run = take_while p rest in if is_nonempty run then some run else later
    ]

-- The parser of PulseCountStateFlasher: the digits, as a text.
unfoldable pub parse_pulses : Text → Option Text
parse_pulses text = search_run (codes "pulses: ") is_digit text

-- `str.split(",")`
unfoldable pub split : Text → List Text
split [] = [] ∷ []
split (c ∷ text) = elim (split text) [
  | [] ↦ (c ∷ []) ∷ []
  | first ∷ rest ↦ if eqb c b',' then [] ∷ first ∷ rest else (c ∷ first) ∷ rest
]

unfoldable pub strip_left : Text → Text
strip_left [] = []
strip_left (c ∷ text) = let rest = strip_left text in if is_space c then rest else c ∷ text

unfoldable pub strip_right : Text → Text
strip_right [] = []
strip_right (c ∷ text) =
    let rest = strip_right text in
    if is_nonempty rest then c ∷ rest else if is_space c then [] else c ∷ []

unfoldable pub strip : Text → Text
strip text = strip_right (strip_left text)

-- `int` of a text of digits and spaces; none is its exception.
unfoldable pub to_int : ℕ → Text → Option ℕ
to_int n [] = some n
to_int n (c ∷ text) =
    let rest = to_int (n * 10 + (c - b'0')) text in if is_digit c then rest else none

-- The list comprehension over the pieces: empty ones are left out, and one that is no number raises.
unfoldable pub to_ints : List Text → Option (List ℕ)
to_ints [] = some []
to_ints (piece ∷ pieces) =
    let rest = to_ints pieces in
    let stripped = strip piece in
    if is_nonempty stripped
    then (elim (to_int 0 stripped) [
      | none ↦ none
      | some n ↦ elim rest [ none ↦ none | some ns ↦ some (n ∷ ns) ]
    ])
    else rest

unfoldable pub is_sample_char : ℕ → Bool
is_sample_char c = is_digit c || (eqb c b',' || is_space c)

-- The samples that the parser of VarMaxStateFlasher finds. The spaces that the expression skips before the
-- group, and those that the group loses, are those that each piece loses.
unfoldable pub parse_samples : Text → Option (List ℕ)
parse_samples text = elim (search_run (codes "samples:") is_sample_char text) [
  | none ↦ none
  | some run ↦ to_ints (split run)
]

-- `abs(a - b)`
unfoldable pub abs_diff : ℕ → ℕ → ℕ
abs_diff a b = (a - b) + (b - a)

-- The loop of `calculate_variance`.
unfoldable pub variance_sum : List ℕ → ℕ
variance_sum [] = 0
variance_sum (a ∷ []) = 0
variance_sum (a ∷ b ∷ rest) = abs_diff b a + variance_sum (b ∷ rest)

-- `calculate_variance`, as a fraction.
pub record Fraction : Type 0 where
  pub numerator : ℕ
  pub denominator : ℕ

unfoldable pub calculate_variance : List ℕ → Fraction
calculate_variance samples =
    if leb 2 (length samples)
    then record { numerator = variance_sum samples; denominator = length samples }
    else record { numerator = 0; denominator = 1 }

-- The parser of VarMaxStateFlasher: the variance, with the samples if they are wanted.
unfoldable pub parse_variance : Bool → Text → Option (Fraction × Option (List ℕ))
parse_variance send_waveform text = elim (parse_samples text) [
  | none ↦ none
  | some samples ↦ some (calculate_variance samples, if send_waveform then some samples else none)
]
