-- ===== src/Client/Handlers.antt =====
-- How an event finds its method: src/icefarm/client/lib/AbstractEventHandler.py. The classes, their bases
-- and the methods that they registered are arguments.
use i_cefarm.Prelude.{
  ℕ, zero, suc, Key, get_or, ◌≡◌, refl, String, Option, none, some, List, [], ◌∷◌, ◌++◌, string_key,
}
use i_cefarm.Dict.{Dict, get, put}

-- A registered method, with the keys of the contents that give its arguments.
pub record JsonMethodCall : Type 0 where
  pub name : String
  pub parms : List String

-- The arguments of a call; a missing key, or a None in the contents, is none.
unfoldable pub arguments : {V : Type 0} → (String → Option V) → List String → Option (List V)
arguments value_of [] = some []
arguments value_of (parm ∷ parms) =
    let rest = arguments value_of parms in
    elim (value_of parm) [
      | none ↦ none
      | some value ↦ elim rest [ none ↦ none | some values ↦ some (value ∷ values) ]
    ]

-- `REGISTERED_METHODS`, by class.
abbrev pub Registered : Type 0 → Type 0
Registered C = Dict C (Dict String JsonMethodCall)

-- `Register.__set_name__` of `register(key, *args)`, for an attribute of the class `owner`: a method that
-- the class has registered for the key is replaced.
unfoldable pub register :
    {C : Type 0} ⦃k : Key C⦄ → String → List String → C → String → Registered C → Registered C
register key args owner name methods =
    let found : Dict String JsonMethodCall = get_or (get owner methods) [] in
    put owner (put key (record { name = name; parms = args }) found) methods

module _ {C : Type 0} (bases : C → List C)
    (registered : C → Option (Dict String JsonMethodCall)) where
  -- The loop of `handleEvent` on fuel: a class that registered nothing is passed over, and its bases with
  -- it.
  unfoldable pub search : ℕ → String → List C → Option JsonMethodCall
  search zero event classes = none
  search (suc fuel) event [] = none
  search (suc fuel) event (first ∷ classes) = elim (registered first) [
    | none ↦ search fuel event classes
    | some methods ↦ elim (get event methods) [
      | some method ↦ some method
      | none ↦ search fuel event (bases first ++ classes)
    ]
  ]

  -- `handleEvent` of an object of a class: the method's arguments, or none for False.
  unfoldable pub handle_event :
      {V : Type 0} → ℕ → C → String → (String → Option V) → Option (JsonMethodCall × List V)
  handle_event fuel class event value_of = elim (search fuel event (class ∷ [])) [
    | none ↦ none
    | some method ↦ elim (arguments value_of method.parms) [
      | none ↦ none
      | some args ↦ some (method, args)
    ]
  ]

  search-empty : (fuel : ℕ) (event : String) → search fuel event [] ≡ none
  unfolding search
  search-empty zero event = refl
  search-empty (suc fuel) event = refl

  search_unregistered :
      (fuel : ℕ) (class : C) (event : String)
      → registered class ≡ none
      → search fuel event (class ∷ []) ≡ none
  unfolding search
  search_unregistered zero class event nothing = refl
  search_unregistered (suc fuel) class event nothing =
      rw (search, nothing) (search-empty fuel event)

  -- A handler whose class registers no method of its own handles no event at all, whatever the classes it
  -- derives from have registered, and however long the search goes on.
  handle_event_unregistered :
      {V : Type 0} (fuel : ℕ) (class : C) (event : String) (value_of : String → Option V)
      → registered class ≡ none
      → handle_event fuel class event value_of ≡ none
  unfolding handle_event
  handle_event_unregistered fuel class event value_of nothing =
      rw (handle_event, search_unregistered fuel class event nothing) refl
