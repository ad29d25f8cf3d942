-- ===== src/Agent/Plan.antt =====
-- `plan_route` of agent_route_planner.py. Reasons that the source builds from a status are
-- constructors over it.
pub mod Selected
pub mod Dispatched
pub mod Independent
pub mod Capacity
use malts.Base.{
  ℕ, suc, ◌≤◌, min, String, ◌==◌, Bool, true, false, not, ◌&&◌, ◌||◌, Option, none, some, leb,
}
use malts.Base.{
  List, [], ◌∷◌, ◌++◌, map, any, length, contains, is_empty, text_leb, if◌then◌else◌, is_blank,
}
use malts.Base.Outcome.{Outcome, done, raised, ◌>>=◌}
use malts.Json.{Value, null, bool, num, other_num, text, arr, obj}
use malts.Agent.Contract.{
  Segment, key, index, Issue, PlannerError, TaskSize, s0, s1, s2, s3, other_size, Workload,
  mechanical, bounded_implementation, semantic_analysis, independent_verification, Level, low,
  medium, high, Risk, low_risk, medium_risk, balanced_budget, unknown_pressure, balanced_latency,
  unconstrained, TaskRequirements, BindingStatus, effective_verified, fallback_verified,
  unsupported_binding, unknown_binding, Outcomes, runtime_unsupported, TestState,
  provider_unconfigured, Contract, MultiAgent, RuntimeEvidence, ModelProfile, RoutePolicy, Services,
}
use malts.Agent.Lanes.{issue, lane_issues, Lane, read_lanes}
use malts.Agent.Recommend.{
  Recommendation, invalid_input, hard_constraint_unsatisfied, recommend, recommend_model_route,
}

pub data Decision : Type 0 where
  blocked main_only dispatched : Decision

pub data RouteStatus : Type 0 where
  route_invalid_input main_only_route no_eligible_lane authorization_required : RouteStatus
  unsupported_runtime unconfigured_provider effective_unknown lease_conflict : RouteStatus
  verification_unavailable hard_unsatisfied routing_degraded : RouteStatus
  bound : BindingStatus → RouteStatus

pub data PlanReason : Type 0 where
  route_input_invalid small_task_main_controller_preferred : PlanReason
  independent_verification_lane_required no_delegation_lane_declared : PlanReason
  verification_requires_approved_batch batch_not_authorized : PlanReason
  independent_verification_blocked delegation_blocked : RouteStatus → PlanReason
  no_conflict_free_lane verification_lane_unavailable cost_aware_route_blocked : PlanReason
  dynamic_route_selected capped_at_one_agent lanes_deferred : PlanReason

pub record Agent : Type 0 where
  pub agent_key : String
  pub task_contract_ref : String
  pub route_evidence_ref : String
  pub binding_status : BindingStatus
  pub leases : List (String × String)

pub record Dispatch : Type 0 where
  pub batch_id : String
  pub runtime_capacity : Option ℕ
  pub agents : List Agent

pub record Plan : Type 0 where
  pub decision : Decision
  pub agent_count : ℕ
  pub selected_lanes : List String
  pub deferred_lanes : List String
  pub route_status : RouteStatus
  pub reasons : List PlanReason
  pub issues : List Issue
  pub route_recommendations : List (String × Recommendation)
  pub dispatch : Option Dispatch

-- `_base_result`, with the deferred lanes that some callers set.
pub base_result : Decision → RouteStatus → List PlanReason → List Issue → List String → Plan
base_result decision status reasons issues deferred = record {
  decision = decision;
  agent_count = 0;
  selected_lanes = [];
  deferred_lanes = deferred;
  route_status = status;
  reasons = reasons;
  issues = issues;
  route_recommendations = [];
  dispatch = none;
}

unfoldable pub is_small : TaskSize → Bool
is_small s0 = true
is_small s1 = true
is_small _ = false

-- `task_size in {"S0", "S1", "S2"}`
unfoldable pub is_single : TaskSize → Bool
is_single s2 = true
is_single s = is_small s

size_issues : TaskSize → List Issue
size_issues (other_size _) = issue "AR_TASK_SIZE" (key "task_size" ∷ [])
size_issues _ = []

flag_issues : Value → List Issue
flag_issues (bool _) = []
flag_issues _ = issue "AR_INDEPENDENT_FLAG" (key "requires_independent_verification" ∷ [])

batch_issues : Value → List Issue
batch_issues (text s) = if s == "" then issue "AR_BATCH_ID" (key "batch_id" ∷ []) else []
batch_issues _ = issue "AR_BATCH_ID" (key "batch_id" ∷ [])

unfoldable pub flag_of : Value → Bool
flag_of (bool b) = b
flag_of _ = false

unfoldable pub batch_of : Value → String
batch_of (text s) = s
batch_of _ = ""

-- `_default_task_requirements`
pub default_requirements : String → TaskSize → Bool → TaskRequirements
unfolding is_small is_single
default_requirements lane_id size independent =
    let level = if is_small size then low else elim size [ s2 ↦ medium | _ ↦ high ] in
    record {
      task_id = lane_id;
      workload_class =
          if independent
          then independent_verification
          else if is_small size
          then mechanical
          else elim size [ s2 ↦ bounded_implementation | _ ↦ semantic_analysis ];
      semantic_complexity = level;
      uncertainty = level;
      write_risk = if is_small size then low_risk else medium_risk;
      recovery_risk = if is_single size then low_risk else medium_risk;
      audit_importance = if independent then high else level;
      independent = independent;
      budget_priority = balanced_budget;
      budget_pressure = unknown_pressure;
      latency_priority = balanced_latency;
      failure_count = 0;
      scope_expanded = false;
      required_capabilities = [];
      requested_route = record {
        model_id = none;
        reasoning_effort = none;
        model_constraint = unconstrained;
        effort_constraint = unconstrained;
      };
      parent_route = none;
    }

-- `sorted(lanes, key=lambda item: item["lane_id"])`, which is stable.
insert_lane : Lane → List Lane → List Lane
insert_lane l [] = l ∷ []
insert_lane l (m ∷ ms) =
    let later = m ∷ insert_lane l ms in if text_leb l.lane_id m.lane_id then l ∷ m ∷ ms else later

pub sort_lanes : List Lane → List Lane
unfolding insert_lane
sort_lanes [] = []
sort_lanes (l ∷ ls) = insert_lane l (sort_lanes ls)

abbrev pub lane_ids : List Lane → List String
lane_ids lanes = map (λ l. l.lane_id) lanes

-- `_conflicts`: a proposed lease of the candidate conflicts with a lease of a selected lane.
pub lanes_conflict : (String × String → String × String → Bool) → Lane → Lane → Bool
lanes_conflict conflict candidate lane =
    any (λ lease. any (λ proposed. conflict proposed lease) candidate.leases) lane.leases

pub conflicts : (String × String → String × String → Bool) → Lane → List Lane → Bool
unfolding lanes_conflict
conflicts conflict candidate selected = any (lanes_conflict conflict candidate) selected

-- The greedy selection loop: `selected` and `deferred`.
pub select_lanes :
    (String × String → String × String → Bool)
    → ℕ
    → List Lane
    → List Lane
    → List String
    → List Lane × List String
select_lanes conflict desired [] selected deferred = (selected, deferred)
select_lanes conflict desired (l ∷ ls) selected deferred =
    let later = select_lanes conflict desired ls selected (deferred ++ l.lane_id ∷ []) in
    let taken = select_lanes conflict desired ls (selected ++ l ∷ []) deferred in
    if leb desired (length selected) || conflicts conflict l selected then later else taken

-- `multi["allowed"] and multi["launch_review_ref"] and batch_id in multi["approved_batches"]`
pub authorized : MultiAgent → String → Bool
authorized multi batch =
    multi.allowed
    && elim multi.launch_review_ref [ none ↦ false | some r ↦ not (r == "") ]
    && contains batch multi.approved_batches

is_unsupported : BindingStatus → Bool
is_unsupported unsupported_binding = true
is_unsupported _ = false

is_unknown : BindingStatus → Bool
is_unknown unknown_binding = true
is_unknown _ = false

outcome_unsupported : Outcomes → Bool
outcome_unsupported runtime_unsupported = true
outcome_unsupported _ = false

is_unconfigured : TestState → Bool
is_unconfigured provider_unconfigured = true
is_unconfigured _ = false

pub unavailable_status : RuntimeEvidence → Option RouteStatus
unfolding is_unsupported is_unknown outcome_unsupported is_unconfigured
unavailable_status e =
    if is_unsupported e.binding_status || outcome_unsupported e.effective_selection.outcome
    then some unsupported_runtime
    else if is_unconfigured e.test_state
    then some unconfigured_provider
    else if is_unknown e.binding_status
    then some effective_unknown
    else none

-- `binding in VERIFIED_BINDINGS`
is_verified_binding : BindingStatus → Bool
is_verified_binding effective_verified = true
is_verified_binding fallback_verified = true
is_verified_binding _ = false

-- The runtime's concurrency where the binding is verified and it is known.
pub verified_concurrency : RuntimeEvidence → Option ℕ
unfolding is_verified_binding
verified_concurrency e =
    if is_verified_binding e.binding_status then e.effective_concurrency else none

pub hard_cap : Contract → RuntimeEvidence → ℕ
hard_cap contract e =
    let runtime_cap : ℕ = elim (verified_concurrency e) [ none ↦ 1 | some n ↦ n ] in
    min (min contract.multi_agent.max_agents contract.max_concurrency) runtime_cap

pub desired_count : TaskSize → ℕ → ℕ
unfolding is_single
desired_count size cap = let desired = if is_single size then 1 else cap in min desired cap

is_blocked : Recommendation → Option (RouteStatus × List Issue)
is_blocked (invalid_input issues) = some (route_invalid_input, issues)
is_blocked (hard_constraint_unsatisfied score issues) = some (hard_unsatisfied, issues)
is_blocked (recommend r) = none

-- What the recommendation loop comes to: all lanes have one, or the first BLOCKED one ended it.
pub data Routes : Type 0 where
  routed : List (String × Recommendation) → Routes
  stopped : RouteStatus → List Issue → List (String × Recommendation) → Routes

module _ (services : Services) (contract : Contract) (evidence : RuntimeEvidence)
    (profiles : List ModelProfile) (policy : RoutePolicy) (size : TaskSize) (independent : Bool)
    (batch : String) where
  pub requirements_for : Lane → TaskRequirements
  requirements_for lane = elim lane.task_requirements [
    | some t ↦ t
    | none ↦ default_requirements lane.lane_id size independent
  ]

  pub recommend_lanes : List Lane → List (String × Recommendation) → Outcome PlannerError Routes
  unfolding is_blocked
  recommend_lanes [] recs = done (routed recs)
  recommend_lanes (lane ∷ lanes) recs =
      recommend_model_route services (requirements_for lane) evidence profiles policy >>= λ r.
      let recs' = recs ++ (lane.lane_id, r) ∷ [] in
      let later = recommend_lanes lanes recs' in
      elim (is_blocked r) [
        | none ↦ later
        | some (status, issues) ↦ done (stopped status issues recs')
      ]

  pub agent_of : Lane → Agent
  agent_of lane = record {
    agent_key = lane.lane_id;
    task_contract_ref = lane.task_contract_ref;
    route_evidence_ref = lane.route_evidence_ref;
    binding_status = evidence.binding_status;
    leases = lane.leases;
  }

  pub dispatch_plan : List Lane → List String → List (String × Recommendation) → Plan
  unfolding agent_of
  dispatch_plan selected deferred recs =
      let concurrency = verified_concurrency evidence in
      record {
        decision = dispatched;
        agent_count = length selected;
        selected_lanes = lane_ids selected;
        deferred_lanes = deferred;
        route_status = elim concurrency [
          | none ↦ routing_degraded
          | some n ↦ bound evidence.binding_status
        ];
        reasons =
            dynamic_route_selected
            ∷ ((elim concurrency [ none ↦ capped_at_one_agent ∷ [] | some n ↦ [] ])
                ++ (if is_empty deferred then [] else lanes_deferred ∷ []));
        issues = [];
        route_recommendations = recs;
        dispatch = some (record {
          batch_id = batch;
          runtime_capacity = concurrency;
          agents = map agent_of selected;
        });
      }

  finish : List Lane → List Lane → List String → Routes → Plan
  finish sorted selected deferred (routed recs) = dispatch_plan selected deferred recs
  finish sorted selected deferred (stopped status issues recs) =
      record (base_result blocked status (cost_aware_route_blocked ∷ []) issues (lane_ids sorted)) {
        route_recommendations = recs;
      }

  -- From the selection of lanes on.
  pub plan_selection : List Lane → Outcome PlannerError Plan
  plan_selection sorted =
      let desired = desired_count size (hard_cap contract evidence) in
      let (selected, deferred) = select_lanes services.lease_conflict desired sorted [] [] in
      if is_empty selected
      then done (base_result blocked lease_conflict (no_conflict_free_lane ∷ []) [] [])
      else if independent && leb (length selected) 0
      then done
          (base_result blocked verification_unavailable (verification_lane_unavailable ∷ []) [] [])
      else (do routes ← recommend_lanes selected []; done (finish sorted selected deferred routes))

  unavailable_plan : List Lane → RouteStatus → Plan
  unavailable_plan sorted status =
      if independent
      then base_result blocked status (independent_verification_blocked status ∷ []) []
          (lane_ids sorted)
      else base_result main_only status (delegation_blocked status ∷ []) [] (lane_ids sorted)

  unauthorized_plan : List Lane → Plan
  unauthorized_plan sorted =
      if independent
      then base_result blocked authorization_required (verification_requires_approved_batch ∷ []) []
          (lane_ids sorted)
      else base_result main_only main_only_route (batch_not_authorized ∷ []) [] (lane_ids sorted)

  no_lane_plan : Plan
  no_lane_plan =
      if independent
      then base_result blocked no_eligible_lane (independent_verification_lane_required ∷ []) [] []
      else base_result main_only main_only_route (no_delegation_lane_declared ∷ []) [] []

  -- Everything behind the input checks, over the sorted lanes.
  pub plan_checked : List Lane → Outcome PlannerError Plan
  plan_checked sorted =
      if is_small size && not independent
      then done (
          base_result main_only main_only_route (small_task_main_controller_preferred ∷ []) []
            (lane_ids sorted))
      else if is_empty sorted
      then done no_lane_plan
      else if not (authorized contract.multi_agent batch)
      then done (unauthorized_plan sorted)
      else elim (unavailable_status evidence) [
        | some status ↦ done (unavailable_plan sorted status)
        | none ↦ plan_selection sorted
      ]

prefixed : List Segment → List Issue → List Issue
prefixed prefix = map (λ (i : Issue). record i { path = prefix ++ i.path })

pub plan_issues :
    Services
    → Contract
    → RuntimeEvidence
    → Value
    → TaskSize
    → Value
    → Value
    → Outcome PlannerError (List Issue)
unfolding prefixed size_issues flag_issues batch_issues
plan_issues services contract evidence lanes size independent batch = do
  from_lanes ← lane_issues services contract.resources lanes
  done (
      prefixed (key "contract" ∷ []) (services.contract_issues contract)
      ++ (prefixed (key "runtime_evidence" ∷ []) (services.evidence_issues evidence)
          ++ (size_issues size ++ (flag_issues independent ++ (batch_issues batch ++ from_lanes)))))

pub plan_route :
    Services
    → Contract
    → RuntimeEvidence
    → List ModelProfile
    → RoutePolicy
    → Value
    → TaskSize
    → Value
    → Value
    → Outcome PlannerError Plan
plan_route services contract evidence profiles policy lanes size independent batch = do
  issues ← plan_issues services contract evidence lanes size independent batch
  if is_empty issues
      then plan_checked services contract evidence profiles policy size (flag_of independent)
          (batch_of batch) (sort_lanes (read_lanes services lanes))
      else done (base_result blocked route_invalid_input (route_input_invalid ∷ []) issues [])

-- Opens the definitions of this module, for runs of the code on samples.
unfoldable pub plan_code : Unit {0}
unfolding base_result is_small is_single size_issues flag_issues batch_issues flag_of batch_of
    default_requirements insert_lane sort_lanes lanes_conflict conflicts select_lanes authorized
    is_unsupported is_unknown outcome_unsupported is_unconfigured unavailable_status
    is_verified_binding verified_concurrency hard_cap desired_count is_blocked requirements_for
    recommend_lanes agent_of dispatch_plan finish plan_selection unavailable_plan unauthorized_plan
    no_lane_plan plan_checked prefixed plan_issues plan_route
plan_code = tt
