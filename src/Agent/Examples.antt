-- ===== src/Agent/Examples.antt =====
-- A contract, a policy and lanes for agent_route_planner.py, and its theorems at them.
use malts.Base.{
  ℕ, ◌≤◌, String, Bool, true, false, ◌≡◌, ◌≢◌, refl, Option, none, some, List, [], ◌∷◌, ◌++◌,
}
use malts.Base.{All, map, all_distinct, ◌⊎◌, contains}
use malts.Base.Int.{ℤ, pos, ◌+ℤ◌, at_least}
use malts.Base.Outcome.{Outcome, done, raised}
use malts.Base.{text_leb}
use mathlib.Core.List.{Perm}
use malts.Json.{
  Value, bool, text, arr, obj, no_element, element, no_entry, entry, get, keys, elements, hashable,
}
use malts.Agent.Contract
use malts.Agent.Contract.{
  Issue, PlannerError, type_error, TaskSize, s0, s1, s2, s3, RouteClass, economy, balanced,
  advanced, flagship, Workload, mechanical, bounded_implementation, semantic_analysis,
  architecture_security, independent_verification, Level, low, medium, high, Risk, no_risk,
  low_risk, medium_risk, high_risk, Effort, low_effort, medium_effort, high_effort, max_effort,
  Tier, strategic, balanced_tier, efficient, CostClass, low_cost, medium_cost, high_cost, Support,
  supported, effective_verified, other_outcome, other_state, RouteSpec, RoutePolicy, ModelProfile,
  RouteSelection, RuntimeEvidence, MultiAgent, hard, Services, TaskRequirements, is_hard,
}
use malts.Agent.Lanes.{Lane, lane_issues, read_lanes, lanes_code}
use malts.Agent.Lanes.Checked.{IsChecked, lane_issues-IsChecked}
use malts.Agent.Score.{rank, score_code, is_architecture, is_high_risk, is_high}
use malts.Agent.Profiles.{profiles_code}
use malts.Agent.Profiles.Chosen.{IsUsable}
use malts.Agent.Recommend.{
  Recommendation, recommend, Recommended, recommended, recommend_model_route, recommend_code,
  justifies_max, verified_model_profile,
}
use malts.Agent.Recommend.Constraints.{IsKept, recommend-IsKept, recommend-max}
use malts.Agent.Recommend.Selection.{recommend-IsUsable, recommend-floors}
use malts.Agent.Plan.{
  Plan, blocked, main_only, dispatched, lease_conflict, plan_route, base_result,
  route_invalid_input, default_requirements, verified_concurrency, hard_cap, is_single, batch_of,
  lane_ids, agent_of, flag_of, plan_code,
}
use malts.Agent.Plan.Selected.{IsConflictFree}
use malts.Agent.Plan.Dispatched.{
  IsRecommended, dispatched-bounds, dispatched-authorized, dispatched-lanes, dispatched-routes,
}
use malts.Agent.Plan.Independent.{independent-ne-main_only}
use malts.Agent.Plan.Capacity.{lease_conflict-no_capacity}

program : Unit {0}
unfolding lanes_code score_code profiles_code recommend_code plan_code get keys elements hashable
    text_leb ◌+ℤ◌ at_least is_hard
program = tt

abbrev economy_spec : RouteSpec
economy_spec = record {
  route_class = economy;
  preferred_capability_tiers = efficient ∷ balanced_tier ∷ [];
  allowed_cost_classes = low_cost ∷ medium_cost ∷ [];
  default_effort = low_effort;
}

abbrev balanced_spec : RouteSpec
balanced_spec = record {
  route_class = balanced;
  preferred_capability_tiers = balanced_tier ∷ efficient ∷ strategic ∷ [];
  allowed_cost_classes = low_cost ∷ medium_cost ∷ [];
  default_effort = medium_effort;
}

abbrev advanced_spec : RouteSpec
advanced_spec = record {
  route_class = advanced;
  preferred_capability_tiers = balanced_tier ∷ strategic ∷ [];
  allowed_cost_classes = medium_cost ∷ high_cost ∷ [];
  default_effort = high_effort;
}

abbrev flagship_spec : RouteSpec
flagship_spec = record {
  route_class = flagship;
  preferred_capability_tiers = strategic ∷ [];
  allowed_cost_classes = high_cost ∷ medium_cost ∷ [];
  default_effort = max_effort;
}

workload_weight : Workload → ℕ
workload_weight mechanical = 0
workload_weight bounded_implementation = 2
workload_weight semantic_analysis = 3
workload_weight architecture_security = 6
workload_weight independent_verification = 6

level_weight : Level → ℤ
level_weight low = pos 0
level_weight medium = pos 1
level_weight high = pos 2

risk_weight : Risk → ℤ
risk_weight no_risk = pos 0
risk_weight low_risk = pos 0
risk_weight medium_risk = pos 1
risk_weight high_risk = pos 2

-- The bundled policy, runtime/agent-routing/model_effort_policy.json.
abbrev policy : RoutePolicy
policy = record {
  policy_id = "malts.cost-aware-default";
  route_classes = economy_spec ∷ balanced_spec ∷ advanced_spec ∷ flagship_spec ∷ [];
  thresholds = record { balanced_min = 3; advanced_min = 8; flagship_min = 13 };
  weights = record {
    workload = workload_weight;
    level = level_weight;
    risk = risk_weight;
    independent_weight = 2;
    failure = 1;
    scope_weight = 1;
  };
  safety_floors = record {
    architecture = advanced;
    high_recovery_risk = advanced;
    important_verification = flagship;
  };
  permitted_workloads = architecture_security ∷ independent_verification ∷ [];
  failure_count_threshold = 1;
  scope_expansion_escalates = true;
  high_uncertainty_escalates = true;
}

abbrev profile : ModelProfile
profile = record {
  profile_id = "p1";
  model_id = "m1";
  runtime_verified = true;
  reasoning_efforts = high_effort ∷ max_effort ∷ [];
  capabilities = "code" ∷ [];
  delegation_supported = supported;
  delegation_modes = "main" ∷ "sub-agent" ∷ [];
  base_capability_tier = strategic;
  cost_class = high_cost;
}

abbrev unset : RouteSelection
unset = record { model_id = none; reasoning_effort = none; outcome = other_outcome }

abbrev evidence : RuntimeEvidence
evidence = record {
  binding_status = effective_verified;
  test_state = other_state;
  effective_concurrency = some 2;
  recommended = unset;
  configured = unset;
  effective_selection = unset;
  bound_profile_id = none;
}

abbrev contract : Contract.Contract
contract = record {
  resources =
      record { locator = "src"; operations = "read" ∷ "write" ∷ [] }
      ∷ record { locator = "docs"; operations = "read" ∷ [] }
      ∷ [];
  multi_agent = record {
    allowed = true;
    max_agents = 3;
    approved_batches = "b1" ∷ [];
    launch_review_ref = some "review:1";
  };
  max_concurrency = 4;
}

same_locator : String × String → String × String → Bool
same_locator a b = contains a.0 (b.0 ∷ [])

abbrev services : Services
services = record {
  contract_issues = λ _. [];
  evidence_issues = λ _. [];
  policy_issues = λ _. [];
  profile_issues = λ _. [];
  requirements_issues = λ _. [];
  raw_requirements_issues = λ _. [];
  read_requirements = λ _. default_requirements "" s3 false;
  lease_conflict = same_locator;
}

abbrev lease : String → String → Value
lease locator access = obj (entry "locator" (text locator) (entry "access" (text access) no_entry))

abbrev lane : String → String → Value → Value
lane name task given = obj (
    entry "lane_id" (text name) (
      entry "task_contract_ref" (text task) (
        entry "route_evidence_ref" (text "e1")
          (entry "leases" (arr (element given no_element)) no_entry))))

abbrev lanes : Value
lanes = arr (
    element (lane "b" "t2" (lease "docs" "read")) (
      element (lane "a" "t1" (lease "src" "write"))
        (element (lane "c" "t3" (lease "src" "read")) no_element)))

abbrev plan_of : Outcome PlannerError Plan → Plan
plan_of (done p) = p
plan_of (raised e) = base_result blocked route_invalid_input [] [] []

abbrev outcome : Contract.Contract → Value → Outcome PlannerError Plan
outcome c given =
    plan_route services c evidence (profile ∷ []) policy given s3 (bool true) (text "b1")

abbrev plan : Plan
plan = plan_of (outcome contract lanes)

planned : outcome contract lanes ≡ done plan
unfolding program same_locator workload_weight level_weight risk_weight
planned = refl

ends : plan.decision ≡ dispatched
unfolding program same_locator workload_weight level_weight risk_weight
ends = refl

two_lanes : (plan.selected_lanes ≡ "a" ∷ "b" ∷ []) × (plan.deferred_lanes ≡ "c" ∷ [])
unfolding program same_locator workload_weight level_weight risk_weight
two_lanes = (refl, refl)

dispatched-bounds_example :
    (plan.agent_count ≤ 3)
    × (plan.agent_count ≤ 4)
    × (verified_concurrency evidence ≡ none → plan.agent_count ≤ 1)
    × ((n : ℕ) → verified_concurrency evidence ≡ some n → plan.agent_count ≤ n)
    × (is_single s3 ≡ true → plan.agent_count ≤ 1)
dispatched-bounds_example =
    dispatched-bounds services contract evidence (profile ∷ []) policy lanes s3 (bool true)
      (text "b1") plan planned ends

dispatched-authorized_example :
    (true ≡ true)
    × (contract.multi_agent.launch_review_ref ≢ none)
    × (contains (batch_of (text "b1")) ("b1" ∷ []) ≡ true)
dispatched-authorized_example =
    dispatched-authorized services contract evidence (profile ∷ []) policy lanes s3 (bool true)
      (text "b1") plan planned ends

dispatched-routes_example :
    (map (λ r. r.0) plan.route_recommendations ≡ plan.selected_lanes)
    × All (λ r. IsRecommended r.1) plan.route_recommendations
dispatched-routes_example =
    dispatched-routes services contract evidence (profile ∷ []) policy lanes s3 (bool true)
      (text "b1") plan planned ends

dispatched-lanes_example :
    (selected : List Lane) × (plan.selected_lanes ≡ lane_ids selected)
    × (plan.dispatch
        ≡ some (record {
          batch_id = batch_of (text "b1");
          runtime_capacity = verified_concurrency evidence;
          agents =
              map
                (agent_of services contract evidence
                  (profile ∷ [])
                  policy
                  s3
                  (flag_of (bool true))
                  (batch_of (text "b1")))
                selected;
        }))
    × IsConflictFree services.lease_conflict [] selected
    × All (IsChecked contract.resources) selected
    × Perm (plan.selected_lanes ++ plan.deferred_lanes) (lane_ids (read_lanes services lanes))
dispatched-lanes_example =
    dispatched-lanes services contract evidence (profile ∷ []) policy lanes s3 (bool true)
      (text "b1") plan planned ends

independent-ne-main_only_example : plan.decision ≢ main_only
independent-ne-main_only_example =
    independent-ne-main_only services contract evidence (profile ∷ []) policy lanes s3 (text "b1")
      plan planned

-- No agent is allowed, and the lanes are free of conflicts.
abbrev closed_contract : Contract.Contract
closed_contract = record contract { multi_agent = record contract.multi_agent { max_agents = 0 } }

abbrev one_lane : Value
one_lane = arr (element (lane "a" "t1" (lease "src" "write")) no_element)

abbrev no_room_plan : Plan
no_room_plan = plan_of (outcome closed_contract one_lane)

no_room_planned : outcome closed_contract one_lane ≡ done no_room_plan
unfolding program same_locator
no_room_planned = refl

no_room_status : no_room_plan.route_status ≡ lease_conflict
unfolding program same_locator
no_room_status = refl

lease_conflict-no_capacity_example : hard_cap closed_contract evidence ≡ 0
lease_conflict-no_capacity_example =
    lease_conflict-no_capacity services closed_contract evidence (profile ∷ []) policy one_lane s3
      (bool true) (text "b1") no_room_plan no_room_planned no_room_status

-- `access` that is an array raises `TypeError`, which `main` does not catch.
array_access :
    outcome contract (
      arr (
        element
          (lane "a" "t1"
            (obj (entry "locator" (text "src") (entry "access" (arr no_element) no_entry))))
          no_element))
    ≡ raised type_error
unfolding program
array_access = refl

lanes_checked : lane_issues services contract.resources lanes ≡ done []
unfolding program
lanes_checked = refl

lane_issues-IsChecked_example :
    All (IsChecked contract.resources) (read_lanes services lanes)
    × (all_distinct (map (λ l. l.lane_id) (read_lanes services lanes)) ≡ true)
lane_issues-IsChecked_example =
    lane_issues-IsChecked services contract.resources lanes lanes_checked

abbrev task : TaskRequirements
task = record (default_requirements "a" s3 true) {
  workload_class = architecture_security;
  requested_route = record {
    model_id = some "m1";
    reasoning_effort = some max_effort;
    model_constraint = hard;
    effort_constraint = hard;
  };
}

abbrev recommended_of : Outcome PlannerError Recommendation → Option Recommended
recommended_of (done (recommend r)) = some r
recommended_of _ = none

abbrev recommendation : Recommended
recommendation = recommended task evidence (profile ∷ []) policy flagship_spec

recommendation_made :
    recommend_model_route services task evidence (profile ∷ []) policy
    ≡ done (recommend recommendation)
unfolding program workload_weight level_weight risk_weight
recommendation_made = refl

recommend-IsKept_example :
    IsKept task.requested_route recommendation.model_id recommendation.reasoning_effort evidence
recommend-IsKept_example =
    recommend-IsKept services task evidence (profile ∷ []) policy recommendation recommendation_made

is_max : recommendation.reasoning_effort ≡ max_effort
unfolding program workload_weight level_weight risk_weight
is_max = refl

recommend-max_example : (is_hard hard ≡ true) ⊎ (justifies_max policy architecture_security ≡ true)
recommend-max_example =
    recommend-max services task evidence (profile ∷ []) policy recommendation recommendation_made
      is_max

is_verified : recommendation.model_source ≡ verified_model_profile
unfolding program workload_weight level_weight risk_weight
is_verified = refl

recommend-IsUsable_example :
    (p : ModelProfile) × IsUsable
      (profile ∷ [])
      task.required_capabilities
      recommendation.reasoning_effort
      p
    × (recommendation.model_id ≡ some p.model_id)
recommend-IsUsable_example =
    recommend-IsUsable services task evidence (profile ∷ []) policy recommendation
      recommendation_made is_verified

recommend-floors_example :
    (is_architecture architecture_security ≡ true → rank advanced ≤ rank recommendation.route_class)
    × (is_high_risk task.recovery_risk ≡ true → rank advanced ≤ rank recommendation.route_class)
    × (task.independent ≡ true
        → is_high task.audit_importance ≡ true
        → rank flagship ≤ rank recommendation.route_class)
recommend-floors_example =
    recommend-floors services task evidence (profile ∷ []) policy recommendation recommendation_made
