-- ===== src/GrowthRoute.antt =====
-- tools/growth_routing.py: the final-delivery Growth gate. Reasons and messages are fixed texts,
-- one for each route or error, and are not modelled; `raised` is `GrowthRoutingError`, but for
-- `unhashable`, which is the `TypeError` of `plan_gate not in {...}` at an array or object.
pub mod Laws
pub mod Silence
pub mod Examples
use malts.Base.{String, ◌==◌, Bool, true, false, not, ◌&&◌, ◌||◌, Option, none, some}
use malts.Base.{List, [], ◌∷◌, is_empty, any, keep, contains, sorted_set, is_blank, if◌then◌else◌}
use malts.Base.Outcome.{Outcome, done, raised, ◌>>=◌, ◌>>◌, require}
use malts.Json.{
  Value, null, bool, num, other_num, text, arr, obj, Elements, no_element, element, Entries,
}
use malts.Json.{get, elements, hashable}

pub data RoutingError : Type 0 where
  not_boolean : String → RoutingError
  not_text : String → RoutingError
  bad_plan_gate : RoutingError
  bad_signals : RoutingError
  unhashable : RoutingError
  unknown_signal : List String → RoutingError
  hidden_route : RoutingError

pub data PlanGate : Type 0 where
  pass na blocked_gate : PlanGate

pub data Route : Type 0 where
  blocked retrospective_authorized no_output light_report retrospective_recommended : Route

abbrev pub signal_names : List String
signal_names =
    "USER_CORRECTION" ∷ "VERIFICATION_REVERSAL" ∷ "REPEATED_FAILURE" ∷ "REWORK"
    ∷ "RECOVERY_OR_ROLLBACK" ∷ "TOOL_FACT_CONFLICT" ∷ "MATERIALLY_SUCCESSFUL_METHOD"
    ∷ "PHASE_OR_LONG_TASK_COMPLETION" ∷ "DELIVERY_FAILURE" ∷ []

abbrev pub retrospective_signals : List String
retrospective_signals =
    "REPEATED_FAILURE" ∷ "REWORK" ∷ "PHASE_OR_LONG_TASK_COMPLETION" ∷ "DELIVERY_FAILURE" ∷ []

-- What the checked request says.
pub record Request : Type 0 where
  pub retrospective_authorized : Bool
  pub retrospective_declined : Bool
  pub high_impact : Bool
  pub workspace_initialized : Bool
  pub project_write_authorized : Bool
  pub global_promotion_requested : Bool
  pub global_promotion_authorized : Bool
  pub plan_gate : PlanGate
  pub signals : List String

pub record Decision : Type 0 where
  pub route : Route
  pub signals : List String
  pub l1_in_context_only : Bool
  pub l1_confirmation_required : Bool
  pub durable_write_performed : Bool
  pub durable_write_authorized : Bool
  pub l2_or_l3_authorization_required : Bool
  pub l3_confirmation_required : Bool
  pub workspace_initialized : Bool
  pub has_candidate : Bool
  pub full_retrospective_execution : Bool
  pub full_retrospective_authorized : Bool
  pub creates_workspace_entities : Bool
  pub starts_background_process : Bool

pub require_bool : Entries → String → Bool → Outcome RoutingError Bool
require_bool request key default = elim (get key request) [
  | none ↦ done default
  | some (bool b) ↦ done b
  | some _ ↦ raised (not_boolean key)
]

-- The two callers ignore the text that is returned.
pub require_optional_text : Entries → String → Outcome RoutingError (Unit {0})
require_optional_text request key = elim (get key request) [
  | none ↦ done tt
  | some null ↦ done tt
  | some (text s) ↦ require (not (is_blank s)) (not_text key)
  | some _ ↦ raised (not_text key)
]

gate_of_text : String → Outcome RoutingError PlanGate
gate_of_text s =
    if s == "PASS"
    then done pass
    else if s == "N/A"
    then done na
    else if s == "BLOCKED"
    then done blocked_gate
    else raised bad_plan_gate

gate_of_value : Value → Outcome RoutingError PlanGate
unfolding gate_of_text hashable
gate_of_value (text s) = gate_of_text s
gate_of_value v = if hashable v then raised bad_plan_gate else raised unhashable

pub require_gate : Entries → Outcome RoutingError PlanGate
unfolding gate_of_value
require_gate request = elim (get "plan_gate" request) [ none ↦ done na | some v ↦ gate_of_value v ]

-- `all(isinstance(item, str) for item in raw_signals)`, with the texts.
pub texts : List Value → Option (List String)
texts [] = some []
texts (text s ∷ vs) = elim (texts vs) [ none ↦ none | some ss ↦ some (s ∷ ss) ]
texts (v ∷ vs) = none

pub raw_signals : Option Value → Outcome RoutingError (List String)
unfolding texts elements
raw_signals none = done []
raw_signals (some (arr items)) = elim (texts (elements items)) [
  | none ↦ raised bad_signals
  | some ss ↦ done ss
]
raw_signals (some _) = raised bad_signals

pub check_signals : List String → Outcome RoutingError (List String)
check_signals raw =
    let signals = sorted_set raw in
    let unknown = keep (λ s. not (contains s signal_names)) signals in
    if is_empty unknown then done signals else raised (unknown_signal unknown)

-- The checks of `classify_growth_route`, in their order.
pub read_request : Entries → Outcome RoutingError Request
read_request request = do
  require_bool request "trivial" false
  authorized ← require_bool request "retrospective_authorized" false
  declined ← require_bool request "retrospective_declined" false
  impact ← require_bool request "high_impact" false
  initialized ← require_bool request "workspace_initialized" true
  write ← require_bool request "project_write_authorized" false
  promotion ← require_bool request "global_promotion_requested" false
  promotion_ok ← require_bool request "global_promotion_authorized" false
  require_optional_text request "project_authorization_ref"
  require_optional_text request "global_authorization_ref"
  gate ← require_gate request
  raw ← raw_signals (get "signals" request)
  signals ← check_signals raw
  done (record {
    retrospective_authorized = authorized;
    retrospective_declined = declined;
    high_impact = impact;
    workspace_initialized = initialized;
    project_write_authorized = write;
    global_promotion_requested = promotion;
    global_promotion_authorized = promotion_ok;
    plan_gate = gate;
    signals = signals;
  })

pub is_blocked_gate : PlanGate → Bool
is_blocked_gate blocked_gate = true
is_blocked_gate _ = false

abbrev is_authorized_route : Route → Bool
is_authorized_route retrospective_authorized = true
is_authorized_route _ = false

abbrev in_context_only : Route → Bool
in_context_only no_output = true
in_context_only light_report = true
in_context_only retrospective_recommended = true
in_context_only _ = false

abbrev pub has_retrospective_signal : List String → Bool
has_retrospective_signal signals = any (λ s. contains s signals) retrospective_signals

pub choose_route : Request → Route
unfolding is_blocked_gate
choose_route r =
    if is_blocked_gate r.plan_gate
    then blocked
    else if r.retrospective_authorized
    then retrospective_authorized
    else if is_empty r.signals && not r.high_impact
    then no_output
    else if r.retrospective_declined
    then light_report
    else if r.high_impact || has_retrospective_signal r.signals
    then retrospective_recommended
    else light_report

pub decide_route : Request → Decision
unfolding choose_route
decide_route r =
    let route = choose_route r in
    let authorized = is_authorized_route route in
    let write = authorized && r.project_write_authorized in
    record {
      route = route;
      signals = r.signals;
      l1_in_context_only = in_context_only route;
      l1_confirmation_required = false;
      durable_write_performed = false;
      durable_write_authorized = write;
      l2_or_l3_authorization_required = authorized && not write;
      l3_confirmation_required = r.global_promotion_requested && not r.global_promotion_authorized;
      workspace_initialized = r.workspace_initialized;
      has_candidate = contains "MATERIALLY_SUCCESSFUL_METHOD" r.signals;
      full_retrospective_execution = false;
      full_retrospective_authorized = authorized;
      creates_workspace_entities = false;
      starts_background_process = false;
    }

pub classify_growth_route : Entries → Outcome RoutingError Decision
classify_growth_route request = do r ← read_request request; done (decide_route r)

route_name : Route → String
route_name blocked = "BLOCKED"
route_name retrospective_authorized = "RETROSPECTIVE_AUTHORIZED"
route_name no_output = "NO_OUTPUT"
route_name light_report = "LIGHT_REPORT"
route_name retrospective_recommended = "RETROSPECTIVE_RECOMMENDED"

-- `route not in final_reply`; `mentions` is Python's substring test.
pub require_visible : (String → String → Bool) → Route → String → Outcome RoutingError (Unit {0})
unfolding route_name
require_visible mentions no_output reply = done tt
require_visible mentions route reply = require (mentions (route_name route) reply) hidden_route
