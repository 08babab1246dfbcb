-- ===== src/Client/Events/Routed.antt =====
-- Which entries of a message are handled, and which batch a result reaches:
-- src/icefarm/client/lib/EventServer.py and BatchClient.py.
use i_cefarm.Prelude.{
  ℕ, ◌≡◌, ◌≢◌, refl, String, Option, none, some, List, [], ◌∷◌, ◌++◌, string_key, ==_iff, arith,
  map, Option-cases, inl, inr,
}
use i_cefarm.Dict.{get, get-put}
use i_cefarm.Client.Factory.{process_results, answer}
use i_cefarm.Client.Events.{Event, handle_contents, Factories, results}

module _ {C S : Type 0} (event_of : C → String) (set_serial : String → C → C)
    (handle_event : Event C → S → S) where
  -- A message whose entries are good up to a bad one is handled as if it ended there, whatever follows.
  handle_contents-append_bad :
      (serial : String) (good rest : List (Option C)) (bad : C) (s : S)
      → event_of bad ≡ ""
      → handle_contents event_of set_serial handle_event serial (good ++ some bad ∷ rest) s
        ≡ handle_contents event_of set_serial handle_event serial good s
  unfolding handle_contents
  handle_contents-append_bad serial [] rest bad s nameless =
      ground (arith, ==_iff (event_of bad) "", nameless)
  handle_contents-append_bad serial (none ∷ good) rest bad s nameless = refl
  handle_contents-append_bad serial (some content ∷ good) rest bad s nameless =
      let e : Event C = record {
        serial = serial;
        event = event_of content;
        contents = set_serial serial content;
      } in
      ground (arith, handle_contents-append_bad serial good rest bad (handle_event e s) nameless)

-- Results for one batch leave every other batch as it is.
get-results :
    {V : Type 0} (now : ℕ) (batch_id other serial : String) (found : List (String × V))
    (factories : Factories V)
    → batch_id ≢ other
    → get other (results now batch_id serial found factories) ≡ get other factories
unfolding results
get-results {V} now batch_id other serial found factories differ =
    elim (Option-cases (get batch_id factories)) [
      | inl unknown ↦ ground (arith, unknown)
      | inr (factory, e) ↦ ground (
        arith,
        e,
        differ,
        get-put batch_id other
            (process_results now (map (λ (r : String × V). (serial, r.0, answer r.1)) found)
              factory)
            factories,
        ==_iff batch_id other,
      )
    ]
