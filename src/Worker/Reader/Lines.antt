-- ===== src/Worker/Reader/Lines.antt =====
-- The lines that `Reader.read` of UploadState.py (src/icefarm/worker/device/state/core) finds do not depend
-- on how the port cuts the text into chunks.
use i_cefarm.Prelude.{
  ℕ, zero, suc, ◌+◌, ◌≤◌, ◌<◌, ◌≡◌, refl, sym, ◌∙◌, ap, none, some, List, [], ◌∷◌, ◌++◌, arith,
  length, length-append, append-nil, append_assoc, Option-cases, inl, inr,
}
use i_cefarm.Worker.Upload.Chunks.{concat}
use i_cefarm.Worker.Reader.{Text, after_prefix, line_end, cut_line, read}

length-after_prefix :
    (prefix text rest : Text)
    → after_prefix prefix text ≡ some rest
    → length text ≡ length prefix + length rest
unfolding after_prefix
length-after_prefix [] text rest h = ground arith
length-after_prefix (c ∷ prefix) [] rest h = cc
length-after_prefix (c ∷ prefix) (d ∷ text) rest h =
    ground (arith, length-after_prefix prefix text rest)

after_prefix-append :
    (prefix text rest more : Text)
    → after_prefix prefix text ≡ some rest
    → after_prefix prefix (text ++ more) ≡ some (rest ++ more)
unfolding after_prefix
after_prefix-append [] text rest more h = ground arith
after_prefix-append (c ∷ prefix) [] rest more h = cc
after_prefix-append (c ∷ prefix) (d ∷ text) rest more h =
    ground (arith, after_prefix-append prefix text rest more)

after_prefix-append_none :
    (prefix text more : Text)
    → length prefix ≤ length text
    → after_prefix prefix text ≡ none
    → after_prefix prefix (text ++ more) ≡ none
unfolding after_prefix
after_prefix-append_none [] text more long h = cc
after_prefix-append_none (c ∷ prefix) [] more long h = absurd (omega arith)
after_prefix-append_none (c ∷ prefix) (d ∷ text) more long h =
    ground (arith, after_prefix-append_none prefix text more)

length-cut_line :
    (text line rest : Text)
    → cut_line text ≡ some (line, rest)
    → length text ≡ length line + 4 + length rest
unfolding cut_line
length-cut_line [] line rest h = cc
length-cut_line (c ∷ text) line rest h = elim (Option-cases (after_prefix line_end (c ∷ text))) [
  | inr (found, e) ↦ ground (arith, e, length-after_prefix line_end (c ∷ text) found e)
  | inl e ↦ elim (Option-cases (cut_line text)) [
    | inl none_later ↦ ground (arith, e, none_later)
    | inr ((front, later), cut) ↦ ground (arith, e, cut, length-cut_line text front later cut)
  ]
]

-- A line that is complete stays the first one, whatever else arrives.
cut_line-append :
    (text line rest more : Text)
    → cut_line text ≡ some (line, rest)
    → cut_line (text ++ more) ≡ some (line, rest ++ more)
unfolding cut_line
cut_line-append [] line rest more h = cc
cut_line-append (c ∷ text) line rest more h =
    elim (Option-cases (after_prefix line_end (c ∷ text))) [
      | inr (found, e) ↦ ground (arith, e, after_prefix-append line_end (c ∷ text) found more e)
      | inl e ↦ elim (Option-cases (cut_line text)) [
        | inl none_later ↦ ground (arith, e, none_later)
        | inr ((front, later), cut) ↦
            let long = length-cut_line text front later cut in
            ground (
              arith,
              e,
              cut,
              after_prefix-append_none line_end (c ∷ text) more (omega arith) e,
              cut_line-append text front later more cut,
            )
      ]
    ]

read_line :
    (fuel : ℕ) (chunks : List Text) (text line rest : Text)
    → cut_line text ≡ some (line, rest)
    → let (lines, left) = read fuel chunks rest in
      read (suc fuel) chunks text ≡ (line ∷ lines, left)
unfolding read
read_line fuel chunks text line rest h = rw (h, read)

read_more :
    (fuel : ℕ) (chunk : Text) (chunks : List Text) (text : Text)
    → cut_line text ≡ none
    → read (suc fuel) (chunk ∷ chunks) text ≡ read fuel chunks (text ++ chunk)
unfolding read
read_more fuel chunk chunks text h = rw (h, read)

read_end : (fuel : ℕ) (text : Text) → cut_line text ≡ none → read (suc fuel) [] text ≡ ([], text)
unfolding read
read_end fuel text h = rw (h, read)

-- The rounds that a run can take.
abbrev pub rounds : List Text → Text → ℕ
rounds chunks text = length text + length (concat chunks) + length chunks

-- Without a complete line the next chunk is read.
read-concat_more :
    (fuel whole : ℕ) (chunks : List Text) (text : Text)
    → cut_line text ≡ none
    → ((chunk : Text) (later : List Text)
        → chunks ≡ chunk ∷ later
        → read fuel later (text ++ chunk) ≡ read whole [] ((text ++ chunk) ++ concat later))
    → length (text ++ concat chunks) < whole
    → read (suc fuel) chunks text ≡ read whole [] (text ++ concat chunks)
read-concat_more fuel zero chunks text none_yet ih k = absurd (omega arith)
read-concat_more fuel (suc whole) [] text none_yet ih k =
    rw append-nil (read_end fuel text none_yet ∙ sym (read_end whole text none_yet))
read-concat_more fuel (suc whole) (chunk ∷ chunks) text none_yet ih k =
    read_more fuel chunk chunks text none_yet
    ∙ (ih chunk chunks refl ∙ ap (read (suc whole) []) (append_assoc text chunk (concat chunks)))

-- With fuel for all rounds, the lines and the text that is left over are those of the whole text read in
-- one piece, however it was cut into chunks.
pub read-concat :
    (fuel whole : ℕ) (chunks : List Text) (text : Text)
    → rounds chunks text < fuel
    → length (text ++ concat chunks) < whole
    → read fuel chunks text ≡ read whole [] (text ++ concat chunks)
read-concat zero whole chunks text h k = absurd (omega arith)
read-concat (suc fuel) zero chunks text h k = absurd (omega arith)
read-concat (suc fuel) (suc whole) chunks text h k = elim (Option-cases (cut_line text)) [
  | inr ((line, rest), cut) ↦
      let shorter = length-cut_line text line rest cut in
      let later = concat chunks in
      let same : read fuel chunks rest ≡ read whole [] (rest ++ later) =
        read-concat fuel whole chunks rest (omega arith)
          (omega (arith, length-append rest later, length-append text later)) in
      read_line fuel chunks text line rest cut
      ∙ (ap (λ (r : List Text × Text). (line ∷ r.0, r.1)) same
          ∙ sym (
              read_line whole [] (text ++ later) line (rest ++ later)
                (cut_line-append text line rest later cut)))
  | inl none_yet ↦
      read-concat_more fuel (suc whole) chunks text none_yet
        (λ chunk later e.
          read-concat fuel (suc whole) later (text ++ chunk)
            (omega (
              arith,
              length-append text chunk,
              length-append chunk (concat later),
              ap length e,
              ap (λ (cs : List Text). length (concat cs)) e,
            ))
            (omega (
              arith,
              k,
              ap (λ (cs : List Text). length (text ++ concat cs)) e,
              ap length (append_assoc text chunk (concat later)),
            )))
        k
]

-- The lines, each with its line end.
abbrev pub unlines : List Text → Text
unlines [] = []
unlines (line ∷ lines) = line ++ (line_end ++ unlines lines)

after_prefix-eq :
    (prefix text rest : Text) → after_prefix prefix text ≡ some rest → text ≡ prefix ++ rest
unfolding after_prefix
after_prefix-eq [] text rest h = ground arith
after_prefix-eq (c ∷ prefix) [] rest h = cc
after_prefix-eq (c ∷ prefix) (d ∷ text) rest h = ground (arith, after_prefix-eq prefix text rest)

cut_line-eq :
    (text line rest : Text) → cut_line text ≡ some (line, rest) → text ≡ line ++ (line_end ++ rest)
unfolding cut_line
cut_line-eq [] line rest h = cc
cut_line-eq (c ∷ text) line rest h = elim (Option-cases (after_prefix line_end (c ∷ text))) [
  | inr (found, e) ↦ ground (arith, e, after_prefix-eq line_end (c ∷ text) found e)
  | inl e ↦ elim (Option-cases (cut_line text)) [
    | inl none_later ↦ ground (arith, e, none_later)
    | inr ((front, later), cut) ↦ ground (arith, e, cut, cut_line-eq text front later cut)
  ]
]

read_whole :
    (fuel : ℕ) (text : Text)
    → length text < fuel
    → let (lines, left) = read fuel [] text in
      (unlines lines ++ left ≡ text) × (cut_line left ≡ none)
read_whole zero text h = absurd (omega arith)
read_whole (suc fuel) text h = elim (Option-cases (cut_line text)) [
  | inl end ↦ rw (read_end fuel text end) (refl, end)
  | inr ((line, rest), cut) ↦
      let shorter = length-cut_line text line rest cut in
      let (kept, end) = read_whole fuel rest (omega arith) in
      let (lines, left) = read fuel [] rest in
      rw (read_line fuel [] text line rest cut) (
        append_assoc line (line_end ++ unlines lines) left
            ∙ (ap (λ t. line ++ (line_end ++ t)) kept ∙ sym (cut_line-eq text line rest cut)),
        end,
      )
]

-- Nothing of the text is dropped or added: with fuel for all rounds, the lines, each with its line end,
-- and the text left over are all that was read, and no complete line is left over.
unlines-read :
    (fuel : ℕ) (chunks : List Text) (text : Text)
    → rounds chunks text < fuel
    → let (lines, left) = read fuel chunks text in
      (unlines lines ++ left ≡ text ++ concat chunks) × (cut_line left ≡ none)
unlines-read fuel chunks text h =
    let whole = text ++ concat chunks in
    rw (read-concat fuel (suc (length whole)) chunks text h (omega arith))
      (read_whole (suc (length whole)) whole (omega arith))
