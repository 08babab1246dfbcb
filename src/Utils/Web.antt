-- ===== src/Utils/Web.antt =====
-- The arguments of the http endpoints: `typecheck` and `json_to_args` of src/icefarm/utils/utils.py, and
-- `inject_and_return_json` of web.py.
pub mod Checked
use i_cefarm.Prelude.{
  ℕ, String, Bool, true, false, ◌&&◌, Option, none, some, List, [], ◌∷◌, if◌then◌else◌, map,
  string_key, ◌==◌, ◌≡◌, refl,
}
use i_cefarm.Dict.{Dict, get}

-- A json value; no check reads what an inner object holds.
mutual
  pub data Value : Type 0 where
    null object fraction : Value
    bool : Bool → Value
    int : ℕ → Value
    str : String → Value
    list : Values → Value

  pub data Values : Type 0 where
    empty : Values
    more : Value → Values → Values

-- The classes that an annotation names.
pub data Class : Type 0 where
  bool_class int_class float_class str_class list_class dict_class : Class

unfoldable pub is_instance : Value → Class → Bool
is_instance (bool b) bool_class = true
is_instance (bool b) int_class = true
is_instance (int n) int_class = true
is_instance fraction float_class = true
is_instance (str text) str_class = true
is_instance (list values) list_class = true
is_instance object dict_class = true
is_instance value kind = false

-- A parameter's annotation; a list's or a dict's with its type arguments.
pub data Annotation : Type 0 where
  untyped : Annotation
  class : Class → Annotation
  list_of dict_of : List Class → Annotation
  other : Annotation

unfoldable pub are_instances : Values → Class → Bool
are_instances empty kind = true
are_instances (more value values) kind = is_instance value kind && are_instances values kind

-- The body of the loop of `typecheck` for one argument and its parameter.
unfoldable pub is_accepted : Value → Annotation → Bool
is_accepted value untyped = true
is_accepted value (class kind) = is_instance value kind
is_accepted value (dict_of kinds) = true
is_accepted value other = false
is_accepted (list values) (list_of (kind ∷ [])) = are_instances values kind
is_accepted value (list_of kinds) = false

unfoldable pub typecheck : List Annotation → List Value → Bool
typecheck [] [] = true
typecheck [] (arg ∷ args) = false
typecheck (parm ∷ parms) [] = false
typecheck (parm ∷ parms) (arg ∷ args) = is_accepted arg parm && typecheck parms args

unfoldable pub if_present : Value → Option Value
if_present null = none
if_present value = some value

-- `json.get`; a null counts as a missing key.
unfoldable pub lookup : Dict String Value → String → Option Value
lookup json name = elim (get name json) [ none ↦ none | some value ↦ if_present value ]

-- `json_to_args`; none is its False.
unfoldable pub json_to_args : Dict String Value → List String → Option (List Value)
json_to_args json [] = some []
json_to_args json (name ∷ names) =
    let rest = json_to_args json names in
    elim (lookup json name) [
      | none ↦ none
      | some value ↦ elim rest [ none ↦ none | some values ↦ some (value ∷ values) ]
    ]

-- What an endpoint's function returns, and what its handler answers.
pub data Returned (R : Type 0) : Type 0 where
  yes nothing no : Returned R
  result : R → Returned R

pub data Answer (R : Type 0) : Type 0 where
  status : ℕ → Answer R
  json_body : R → Answer R
  exception : Answer R

unfoldable pub answer : {R : Type 0} → Returned R → Answer R
answer yes = status 200
answer nothing = status 200
answer no = status 500
answer (result r) = json_body r

abbrev pub names : List (String × Annotation) → List String
names = map (λ parm. parm.0)

abbrev pub annotations : List (String × Annotation) → List Annotation
annotations = map (λ parm. parm.1)

-- `handler_wrapper`, with the request's json, or none where it does not parse: the answer, and the
-- arguments that the function was called with. Where `json_to_args` gives False, `typecheck` asks for its
-- length and raises.
unfoldable pub handler_wrapper :
    {R : Type 0}
    → List (String × Annotation)
    → (List Value → Returned R)
    → Option (Dict String Value)
    → Answer R × Option (List Value)
handler_wrapper parms func none = (status 400, none)
handler_wrapper parms func (some json) = elim (json_to_args json (names parms)) [
  | none ↦ (exception, none)
  | some args ↦
      if typecheck (annotations parms) args
      then (answer (func args), some args)
      else (status 400, none)
]
