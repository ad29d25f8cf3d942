-- ===== src/Agent/Contract.antt =====
-- The data of agent_route_planner.py. Objects that passed their JSON schema are records of the fields
-- that the planner reads, and a closed set of words is a data type.
use malts.Base.{ℕ, String, Bool, Option, List}
use malts.Base.Int.{ℤ}
use malts.Json.{Value}

-- A JSON path: `key k` is `.k`, `index i` is `.i`.
pub data Segment : Type 0 where
  key : String → Segment
  index : ℕ → Segment

-- An issue's message is a fixed text for its code and place, and is left out.
pub record Issue : Type 0 where
  pub code : String
  pub path : List Segment

-- `KeyError` and `TypeError`, which `plan_route` lets pass.
pub data PlannerError : Type 0 where
  key_error type_error : PlannerError

pub data TaskSize : Type 0 where
  s0 s1 s2 s3 : TaskSize
  other_size : String → TaskSize

pub data RouteClass : Type 0 where
  economy balanced advanced flagship : RouteClass

pub data Workload : Type 0 where
  mechanical bounded_implementation semantic_analysis : Workload
  architecture_security independent_verification : Workload

pub data Level : Type 0 where
  low medium high : Level

pub data Risk : Type 0 where
  no_risk low_risk medium_risk high_risk : Risk

pub data BudgetPriority : Type 0 where
  minimize_cost balanced_budget quality_first : BudgetPriority

pub data BudgetPressure : Type 0 where
  low_pressure medium_pressure high_pressure critical_pressure unknown_pressure : BudgetPressure

pub data LatencyPriority : Type 0 where
  minimize_latency balanced_latency quality_latency : LatencyPriority

pub data Constraint : Type 0 where
  hard soft unconstrained : Constraint

pub data Effort : Type 0 where
  no_effort minimal low_effort medium_effort high_effort xhigh max_effort ultra unknown_effort :
      Effort

pub data Tier : Type 0 where
  strategic balanced_tier efficient specialized unknown_tier : Tier

pub data CostClass : Type 0 where
  low_cost medium_cost high_cost unknown_cost : CostClass

pub data Support : Type 0 where
  supported unsupported unknown_support : Support

pub data BindingStatus : Type 0 where
  effective_verified configured_unverified static_binding inherited : BindingStatus
  fallback_verified unsupported_binding unknown_binding : BindingStatus

pub data Outcomes : Type 0 where
  effective runtime_unsupported other_outcome : Outcomes

pub data TestState : Type 0 where
  provider_unconfigured other_state : TestState

pub record RequestedRoute : Type 0 where
  pub model_id : Option String
  pub reasoning_effort : Option Effort
  pub model_constraint : Constraint
  pub effort_constraint : Constraint

pub record ParentRoute : Type 0 where
  pub model_id : String
  pub reasoning_effort : Option Effort
  pub route_class : RouteClass

pub record TaskRequirements : Type 0 where
  pub task_id : String
  pub workload_class : Workload
  pub semantic_complexity : Level
  pub uncertainty : Level
  pub write_risk : Risk
  pub recovery_risk : Risk
  pub audit_importance : Level
  pub independent : Bool
  pub budget_priority : BudgetPriority
  pub budget_pressure : BudgetPressure
  pub latency_priority : LatencyPriority
  pub failure_count : ℕ
  pub scope_expanded : Bool
  pub required_capabilities : List String
  pub requested_route : RequestedRoute
  pub parent_route : Option ParentRoute

pub record Weights : Type 0 where
  pub workload : Workload → ℕ
  pub level : Level → ℤ
  pub risk : Risk → ℤ
  pub independent_weight : ℕ
  pub failure : ℕ
  pub scope_weight : ℕ

pub record Thresholds : Type 0 where
  pub balanced_min : ℕ
  pub advanced_min : ℕ
  pub flagship_min : ℕ

pub record RouteSpec : Type 0 where
  pub route_class : RouteClass
  pub preferred_capability_tiers : List Tier
  pub allowed_cost_classes : List CostClass
  pub default_effort : Effort

pub record SafetyFloors : Type 0 where
  pub architecture : RouteClass
  pub high_recovery_risk : RouteClass
  pub important_verification : RouteClass

pub record RoutePolicy : Type 0 where
  pub policy_id : String
  pub route_classes : List RouteSpec
  pub thresholds : Thresholds
  pub weights : Weights
  pub safety_floors : SafetyFloors
  pub permitted_workloads : List Workload
  pub failure_count_threshold : ℕ
  pub scope_expansion_escalates : Bool
  pub high_uncertainty_escalates : Bool

pub record ModelProfile : Type 0 where
  pub profile_id : String
  pub model_id : String
  pub runtime_verified : Bool
  pub reasoning_efforts : List Effort
  pub capabilities : List String
  pub delegation_supported : Support
  pub delegation_modes : List String
  pub base_capability_tier : Tier
  pub cost_class : CostClass

pub record RouteSelection : Type 0 where
  pub model_id : Option String
  pub reasoning_effort : Option Effort
  pub outcome : Outcomes

pub record RuntimeEvidence : Type 0 where
  pub binding_status : BindingStatus
  pub test_state : TestState
  pub effective_concurrency : Option ℕ
  pub recommended : RouteSelection
  pub configured : RouteSelection
  pub effective_selection : RouteSelection
  pub bound_profile_id : Option String

pub record Resource : Type 0 where
  pub locator : String
  pub operations : List String

pub record MultiAgent : Type 0 where
  pub allowed : Bool
  pub max_agents : ℕ
  pub approved_batches : List String
  pub launch_review_ref : Option String

-- The fields of a Result Contract that the planner reads.
pub record Contract : Type 0 where
  pub resources : List Resource
  pub multi_agent : MultiAgent
  pub max_concurrency : ℕ

-- What the planner takes from other modules: the issues that `validate_instance` reports, the
-- fields of an object that it accepted, and `legacy_lease_conflict` of resource_locators.py on the
-- locator and access of the proposed and of the held lease.
pub record Services : Type 0 where
  pub contract_issues : Contract → List Issue
  pub evidence_issues : RuntimeEvidence → List Issue
  pub policy_issues : RoutePolicy → List Issue
  pub profile_issues : ModelProfile → List Issue
  pub requirements_issues : TaskRequirements → List Issue
  pub raw_requirements_issues : Value → List Issue
  pub read_requirements : Value → TaskRequirements
  pub lease_conflict : String × String → String × String → Bool

unfoldable pub effort_index : Effort → ℕ
effort_index no_effort = 0
effort_index minimal = 1
effort_index low_effort = 2
effort_index medium_effort = 3
effort_index high_effort = 4
effort_index xhigh = 5
effort_index max_effort = 6
effort_index ultra = 7
effort_index unknown_effort = 8

unfoldable pub tier_index : Tier → ℕ
tier_index strategic = 0
tier_index balanced_tier = 1
tier_index efficient = 2
tier_index specialized = 3
tier_index unknown_tier = 4

-- `cost_order`
unfoldable pub cost_index : CostClass → ℕ
cost_index low_cost = 0
cost_index medium_cost = 1
cost_index high_cost = 2
cost_index unknown_cost = 3

unfoldable pub is_hard : Constraint → Bool
is_hard hard = Bool.true
is_hard _ = Bool.false
