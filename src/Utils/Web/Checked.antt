-- ===== src/Utils/Web/Checked.antt =====
-- What an endpoint's function is called with: `inject_and_return_json` of src/icefarm/utils/web.py.
use i_cefarm.Prelude.{
  ◌≡◌, refl, sym, String, Bool, true, false, none, some, List, [], ◌∷◌, arith, string_key,
}
use i_cefarm.Dict.{Dict}
use i_cefarm.Utils.Web.{
  Value, Annotation, Returned, exception, typecheck, lookup, json_to_args, handler_wrapper, names,
  annotations, is_accepted,
}

-- Whether the request has a value for every parameter.
abbrev pub has_all : Dict String Value → List String → Bool
has_all json [] = true
has_all json (name ∷ rest) = elim (lookup json name) [
  | none ↦ false
  | some value ↦ has_all json rest
]

json_to_args-none :
    (json : Dict String Value) (parameters : List String)
    → has_all json parameters ≡ false
    → json_to_args json parameters ≡ none
unfolding json_to_args
json_to_args-none json [] h = grind arith
json_to_args-none json (name ∷ rest) h = grind (arith, json_to_args-none json rest)

-- The arguments are the values of the parameters' names, and each passes its parameter's check.
abbrev pub Fits : Dict String Value → List (String × Annotation) → List Value → Type 0
Fits json [] [] = true ≡ true
Fits json [] (arg ∷ args) = true ≡ false
Fits json (parm ∷ parms) [] = true ≡ false
Fits json (parm ∷ parms) (arg ∷ args) =
    (lookup json parm.0 ≡ some arg) × ((is_accepted arg parm.1 ≡ true) × Fits json parms args)

typecheck-Fits :
    (json : Dict String Value) (parms : List (String × Annotation)) (args : List Value)
    → json_to_args json (names parms) ≡ some args
    → typecheck (annotations parms) args ≡ true
    → Fits json parms args
unfolding typecheck json_to_args
typecheck-Fits json [] [] found checked = refl
typecheck-Fits json [] (arg ∷ args) found checked = sym checked
typecheck-Fits json (parm ∷ parms) [] found checked = sym checked
typecheck-Fits json (parm ∷ parms) (arg ∷ args) found checked =
    (grind arith, (grind arith, typecheck-Fits json parms args (grind arith) (grind arith)))

-- An endpoint's function is called only with the request's values for its parameters, none of them
-- missing, that pass the check of their types.
pub handler_wrapper-Fits :
    {R : Type 0} (parms : List (String × Annotation)) (func : List Value → Returned R)
    (json : Dict String Value) (args : List Value)
    → (handler_wrapper parms func (some json)).1 ≡ some args
    → Fits json parms args
unfolding handler_wrapper
handler_wrapper-Fits parms func json args called =
    typecheck-Fits json parms args (grind arith) (grind arith)

-- A request that lacks a value for some parameter is not answered with status 400: the handler raises,
-- without calling the endpoint's function.
handler_wrapper-missing :
    {R : Type 0} (parms : List (String × Annotation)) (func : List Value → Returned R)
    (json : Dict String Value)
    → has_all json (names parms) ≡ false
    → handler_wrapper parms func (some json) ≡ (exception, none)
unfolding handler_wrapper
handler_wrapper-missing parms func json h =
    rw (handler_wrapper, json_to_args-none json (names parms) h) refl
