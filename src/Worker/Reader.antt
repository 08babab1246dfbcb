-- ===== src/Worker/Reader.antt =====
-- `Reader` of UploadState.py (src/icefarm/worker/device/state/core): the thread that reads the serial
-- port, cuts the text into lines and notes what they say for the upload thread. The text is a list of
-- code points; a chunk is what one read of the port gives, already printed by `str(data)[2:-1]`, so a
-- line ends with the four characters of `\r\n`. `exiting` and the state of the port do not change while the
-- chunks of a run are read; the last chunk is followed by the closing of the port.
pub mod Lines
use Prim.Native.Char.{code}
use i_cefarm.Prelude.{
  ℕ, zero, suc, String, Bool, true, false, not, ◌&&◌, ◌||◌, Option, none, some, List, [], ◌∷◌, ◌++◌,
  eqb, if◌then◌else◌, is_nonempty,
}

abbrev pub Text : Type 0
Text = List ℕ

abbrev pub codes : String → Text
codes String.[] = []
codes (String.◌∷◌ c s) = code c ∷ codes s

-- `self.last_result`: None, the False of a failure, or what the parser found.
pub data LastResult (R : Type 0) : Type 0 where
  unset failed : LastResult R
  found : R → LastResult R

pub record Reader (R : Type 0) : Type 0 where
  pub ready : Bool
  pub last_result : LastResult R

-- Whether the text begins with the given one: what follows it.
unfoldable pub after_prefix : Text → Text → Option Text
after_prefix [] text = some text
after_prefix (c ∷ prefix) [] = none
after_prefix (c ∷ prefix) (d ∷ text) =
    let rest = after_prefix prefix text in if eqb c d then rest else none

-- `prefix in text`, and `re.search` for a plain text.
unfoldable pub is_in : Text → Text → Bool
unfolding after_prefix
is_in needle [] = not (is_nonempty needle)
is_in needle (c ∷ text) = elim (after_prefix needle (c ∷ text)) [
  | some rest ↦ true
  | none ↦ is_in needle text
]

-- The text `\r\n`, four characters.
abbrev pub line_end : Text
line_end = 92 ∷ 114 ∷ 92 ∷ 110 ∷ []

-- `last_read[:i]` and `last_read[i + 4:]` for the index i of the first line end, if there is one.
unfoldable pub cut_line : Text → Option (Text × Text)
cut_line [] = none
cut_line (c ∷ text) = elim (after_prefix line_end (c ∷ text)) [
  | some rest ↦ some ([], rest)
  | none ↦ elim (cut_line text) [ none ↦ none | some (line, rest) ↦ some (c ∷ line, rest) ]
]

-- The loop of `read` on fuel: the chunks to come, the text not yet used, and the lines met so far.
-- The port closes after the last chunk, which ends the loop if no line is left.
unfoldable pub read : ℕ → List Text → Text → List Text × Text
read zero chunks last_read = ([], last_read)
read (suc fuel) chunks last_read = elim (cut_line last_read) [
  | some (line, rest) ↦ (let (lines, left) = read fuel chunks rest in (line ∷ lines, left))
  | none ↦ elim chunks [
    | [] ↦ ([], last_read)
    | chunk ∷ later ↦ read fuel later (last_read ++ chunk)
  ]
]

-- What `waitUntilPulse` comes to: it waits, it raises, or it returns the result (None on exit).
pub data Pulse (R : Type 0) : Type 0 where
  wait raise : Pulse R
  pulse : Option R → Pulse R

module _ {R : Type 0} where
  -- `__init__`
  abbrev pub init : Reader R
  init = record { ready = true; last_result = unset }

  -- What the loop does with one line; `parser` gives nothing where its value is false.
  unfoldable pub note_line : (Text → Option R) → Text → Reader R → Reader R
  unfolding is_in
  note_line parser line reader =
      let parsed : Reader R = elim (parser line) [
        | none ↦ reader
        | some result ↦ record reader { last_result = found result }
      ] in
      let timed : Reader R =
        if is_in (codes "Watchdog timeout") line
        then record parsed { last_result = failed }
        else parsed in
      if is_in (codes "Waiting for bitstream transfer") line
      then record timed { ready = true }
      else timed

  -- The lines that a run of the loop has met, noted in order.
  unfoldable pub note_lines : (Text → Option R) → List Text → Reader R → Reader R
  unfolding note_line
  note_lines parser [] reader = reader
  note_lines parser (line ∷ lines) reader = note_lines parser lines (note_line parser line reader)

  -- `waitUntilReady`, when it need not wait.
  unfoldable pub wait_until_ready : Reader R → Option (Reader R)
  wait_until_ready reader = if reader.ready then some (record reader { ready = false }) else none

  unfoldable pub wait_until_pulse : Bool → Reader R → Pulse R × Reader R
  wait_until_pulse exiting reader = elim reader.last_result [
    | failed ↦ (raise, reader)
    | found result ↦ (pulse (some result), record reader { last_result = unset })
    | unset ↦ if exiting then (pulse none, reader) else (wait, reader)
  ]
