-- ===== src/GrowthRoute/Examples.antt =====
-- Sample requests of growth_routing.py, and its theorems at them.
use malts.Base.{String, true, false, ◌≡◌, ◌≢◌, refl, some, List, [], ◌∷◌, contains, sorted_set}
use malts.Base.{All, is_blank, arith, not, ◌&&◌, none, ◌⊎◌}
use malts.Base.Outcome.{done, raised}
use malts.Json.{
  bool, text, arr, no_element, element, Entries, no_entry, entry, get, elements, hashable,
}
use malts.GrowthRoute.{
  Decision, no_output, retrospective_authorized, unhashable, unknown_signal, choose_route,
  decide_route, classify_growth_route, signal_names, check_signals, read_request, is_blocked_gate,
  require_bool, require_optional_text, require_gate, gate_of_value, gate_of_text, raw_signals,
  texts,
}
use malts.GrowthRoute.Laws.{classify-write_sources, check_signals_cases, check_signals_ext}
use malts.GrowthRoute.Silence.{classify-no_output}

program : Unit {0}
unfolding classify_growth_route read_request decide_route choose_route is_blocked_gate require_bool
    require_optional_text require_gate gate_of_value gate_of_text raw_signals texts check_signals
    sorted_set get elements hashable is_blank
program = tt

abbrev write_request : Entries
write_request = entry "retrospective_authorized" (bool true) (
    entry "project_write_authorized" (bool true)
      (entry "signals" (arr (element (text "REWORK") no_element)) no_entry))

abbrev write_decision : Decision
write_decision = record {
  route = retrospective_authorized;
  signals = "REWORK" ∷ [];
  l1_in_context_only = false;
  l1_confirmation_required = false;
  durable_write_performed = false;
  durable_write_authorized = true;
  l2_or_l3_authorization_required = false;
  l3_confirmation_required = false;
  workspace_initialized = true;
  has_candidate = false;
  full_retrospective_execution = false;
  full_retrospective_authorized = true;
  creates_workspace_entities = false;
  starts_background_process = false;
}

classify-write_request : classify_growth_route write_request ≡ done write_decision
unfolding program
classify-write_request = refl

-- An array as the plan gate raises `TypeError`, which `main` does not catch.
classify-array_gate :
    classify_growth_route (entry "plan_gate" (arr no_element) no_entry) ≡ raised unhashable
unfolding program
classify-array_gate = refl

classify-unknown :
    classify_growth_route (entry "signals" (arr (element (text "X") no_element)) no_entry)
    ≡ raised (unknown_signal ("X" ∷ []))
unfolding program
classify-unknown = refl

classify-write_sources_example :
    (get "retrospective_authorized" write_request ≡ some (bool true))
    × (get "project_write_authorized" write_request ≡ some (bool true))
    × (get "plan_gate" write_request ≢ some (text "BLOCKED"))
classify-write_sources_example =
    classify-write_sources write_request write_decision classify-write_request refl

check_signals_cases_example :
    ((s : String)
      → contains s ("X" ∷ []) ≡ true
      → contains s signal_names ≡ false
      → (unknown : List String) × (check_signals ("X" ∷ []) ≡ raised (unknown_signal unknown))
        × ((t : String)
            → contains t unknown ≡ (contains t ("X" ∷ []) && not (contains t signal_names))))
    × ((signals : List String)
        → check_signals ("X" ∷ []) ≡ done signals
        → All (λ s. contains s signal_names ≡ true) signals
          × ((s : String) → contains s signals ≡ contains s ("X" ∷ [])))
check_signals_cases_example = check_signals_cases ("X" ∷ [])

doubled :
    (s : String) → contains s ("REWORK" ∷ "X" ∷ "REWORK" ∷ []) ≡ contains s ("X" ∷ "REWORK" ∷ [])
doubled s = ground arith

check_signals_ext_example :
    check_signals ("REWORK" ∷ "X" ∷ "REWORK" ∷ []) ≡ check_signals ("X" ∷ "REWORK" ∷ [])
check_signals_ext_example =
    check_signals_ext ("REWORK" ∷ "X" ∷ "REWORK" ∷ []) ("X" ∷ "REWORK" ∷ []) doubled

abbrev quiet_request : Entries
quiet_request = entry "signals" (arr no_element) (entry "high_impact" (bool false) no_entry)

abbrev quiet_decision : Decision
quiet_decision = record write_decision {
  route = no_output;
  signals = [];
  l1_in_context_only = true;
  durable_write_authorized = false;
  full_retrospective_authorized = false;
}

classify-quiet_request : classify_growth_route quiet_request ≡ done quiet_decision
unfolding program
classify-quiet_request = refl

classify-no_output_example :
    ((get "signals" quiet_request ≡ none) ⊎ (get "signals" quiet_request ≡ some (arr no_element)))
    × (get "high_impact" quiet_request ≢ some (bool true))
    × (get "retrospective_authorized" quiet_request ≢ some (bool true))
    × (get "plan_gate" quiet_request ≢ some (text "BLOCKED"))
classify-no_output_example =
    classify-no_output quiet_request quiet_decision classify-quiet_request refl
