-- ===== src/Client/Evaluation.antt =====
-- `Evaluation` of src/icefarm/client/lib/BatchClient.py and its two subclasses in pulsecount.py and
-- varmax.py, which differ in nothing but their names.
use i_cefarm.Prelude.{
  ℕ, suc, ◌≡◌, ◌↔◌, String, Bool, true, ◌&&◌, Option, none, some, List, [], ◌∷◌, arith, Key, ◌==◌,
  ==_iff, string_key, list_equals, list_equals_iff, length,
}

-- A frozen, non-empty set of serials: its members in one fixed order, so that two sets are equal
-- exactly when their lists are.
pub record Serials : Type 0 where
  pub first : String
  pub others : List String

abbrev pub members : Serials → List String
members serials = serials.first ∷ serials.others

-- len(serials)
abbrev pub size : Serials → ℕ
size serials = suc (length serials.others)

abbrev pub same_serials : Serials → Serials → Bool
same_serials a b = a.first == b.first && list_equals a.others b.others

pub same_serials_iff : (a b : Serials) → (same_serials a b ≡ true) ↔ (a ≡ b)
same_serials_iff a b = ground (arith, ==_iff a.first b.first, list_equals_iff a.others b.others)

instance abbrev pub serials_key : Key Serials
serials_key = record { equals = same_serials; equals_iff = same_serials_iff }

-- `frozenset(serials)`, behind the test that refuses an empty set.
unfoldable pub to_serials : List String → Option Serials
to_serials [] = none
to_serials (first ∷ others) = some (record { first = first; others = others })

pub record Evaluation : Type 0 where
  pub serials : Serials
  pub id : String
  pub filepath : String

-- `__init__`; the id is the fresh uuid, and `none` is the exception for no serials.
unfoldable pub init : List String → String → String → Option Evaluation
unfolding to_serials
init serials id filepath = elim (to_serials serials) [
  | none ↦ none
  | some found ↦ some (record { serials = found; id = id; filepath = filepath })
]

-- `__eq__`
unfoldable pub same : Evaluation → Evaluation → Bool
same a b = a.id == b.id

-- The request that `toJson` builds: `files` maps the id to the file's bytes.
pub record Request : Type 0 where
  pub files : List (String × List ℕ)
  pub batch_id : String

-- `toJson` of PulseCountEvaluation and of VarMaxEvaluation, with the file system as an argument.
unfoldable pub to_json : (String → List ℕ) → Evaluation → String → Request
to_json read_file evaluation batch_id = record {
  files = (evaluation.id, read_file evaluation.filepath) ∷ [];
  batch_id = batch_id;
}
