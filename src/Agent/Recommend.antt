-- ===== src/Agent/Recommend.antt =====
-- `recommend_model_route` of agent_route_planner.py. `done` holds what the function returns, `raised`
-- the `KeyError` of a policy that lacks the chosen route class.
pub mod Constraints
pub mod Selection
use malts.Base.{
  ℕ, suc, ◌+◌, String, ◌==◌, Bool, true, false, not, ◌&&◌, ◌||◌, Option, none, some, eqb,
}
use malts.Base.{List, [], ◌∷◌, ◌++◌, map, any, is_empty, if◌then◌else◌}
use malts.Base.Int.{ℤ}
use malts.Base.Outcome.{Outcome, done, raised, ◌>>=◌, present}
use malts.Agent.Contract.{
  Segment, key, index, Issue, PlannerError, key_error, RouteClass, Workload, mechanical,
  bounded_implementation, semantic_analysis, architecture_security, independent_verification,
  Constraint, hard, is_hard, Effort, max_effort, high_effort, Outcomes, effective, RequestedRoute,
  ParentRoute, TaskRequirements, RoutePolicy, RouteSpec, ModelProfile, RouteSelection,
  RuntimeEvidence, Services,
}
use malts.Agent.Lanes.{issue}
use malts.Agent.Score.{
  Reason, explicit_hard_max_override, max_justified, max_rejected, cost_and_risk_scored,
  budget_pressure_applied, parent_inheritance_rejected, rank, score, floor_reasons,
  escalation_reasons, cost_pressure, route_class,
}
use malts.Agent.Profiles.{effort_eq, profile_candidates, exact_profiles, first}

pub data ModelSource : Type 0 where
  verified_model_profile runtime_recommendation_unverified model_catalog_required : ModelSource

pub data Inheritance : Type 0 where
  not_applicable allowed_inheritance rejected_inheritance : Inheritance

pub data ReasoningTier : Type 0 where
  no_tier light standard deep maximum unknown_tier : ReasoningTier

pub record Recommended : Type 0 where
  pub policy_id : String
  pub task_id : String
  pub score : ℤ
  pub route_class : RouteClass
  pub requested : RequestedRoute
  pub model_id : Option String
  pub profile_id : Option String
  pub reasoning_effort : Effort
  pub normalized_reasoning_tier : ReasoningTier
  pub model_source : ModelSource
  pub configured : RouteSelection
  pub effective_selection : RouteSelection
  pub inheritance : Inheritance
  pub hard_requested : Bool
  pub escalation_reasons : List Reason
  pub reasons : List Reason

-- `invalid_input` and `hard_constraint_unsatisfied` are the two BLOCKED results.
pub data Recommendation : Type 0 where
  invalid_input : List Issue → Recommendation
  hard_constraint_unsatisfied : ℤ → List Issue → Recommendation
  recommend : Recommended → Recommendation

-- `f"$.<prefix>{item.path[1:]}"`
prefixed : List Segment → List Issue → List Issue
prefixed prefix = map (λ (i : Issue). record i { path = prefix ++ i.path })

profiles_issues : Services → ℕ → List ModelProfile → List Issue
profiles_issues services i [] = []
profiles_issues services i (p ∷ ps) =
    prefixed (key "model_profiles" ∷ index i ∷ []) (services.profile_issues p)
    ++ profiles_issues services (i + 1) ps

pub input_issues :
    Services → TaskRequirements → RuntimeEvidence → List ModelProfile → RoutePolicy → List Issue
unfolding prefixed profiles_issues
input_issues services t evidence profiles policy =
    prefixed (key "task_requirements" ∷ []) (services.requirements_issues t)
    ++ (prefixed (key "route_policy" ∷ []) (services.policy_issues policy)
        ++ (prefixed (key "runtime_evidence" ∷ []) (services.evidence_issues evidence)
            ++ profiles_issues services 0 profiles))

-- `route_by_name[c]`: the last entry of the class.
pub route_by_name : RouteClass → List RouteSpec → Option RouteSpec
unfolding rank
route_by_name c [] = none
route_by_name c (r ∷ rs) =
    let later = route_by_name c rs in
    elim later [
      | some s ↦ some s
      | none ↦ if eqb (rank r.route_class) (rank c) then some r else none
    ]

workload_index : Workload → ℕ
workload_index mechanical = 0
workload_index bounded_implementation = 1
workload_index semantic_analysis = 2
workload_index architecture_security = 3
workload_index independent_verification = 4

pub justifies_max : RoutePolicy → Workload → Bool
unfolding workload_index
justifies_max policy w =
    any (λ u. eqb (workload_index u) (workload_index w)) policy.permitted_workloads

asked_effort : RequestedRoute → RouteSpec → Effort
asked_effort requested route =
    if is_hard requested.effort_constraint
    then elim requested.reasoning_effort [ some e ↦ e | none ↦ route.default_effort ]
    else route.default_effort

-- The effort, and why `max` was kept or replaced.
pub choose_effort : RoutePolicy → TaskRequirements → RouteSpec → Effort × List Reason
unfolding asked_effort effort_eq is_hard
choose_effort policy t route =
    let effort = asked_effort t.requested_route route in
    if effort_eq effort max_effort
    then if is_hard t.requested_route.effort_constraint
      then (effort, explicit_hard_max_override ∷ [])
      else if justifies_max policy t.workload_class
      then (effort, max_justified ∷ [])
      else (high_effort, max_rejected ∷ [])
    else (effort, [])

-- A requested model stands before the candidates, but a missing hard one leaves the first candidate.
pub select_profile : List ModelProfile → RouteSpec → TaskRequirements → Effort → Option ModelProfile
unfolding first
select_profile profiles route t effort =
    let candidates = first (profile_candidates profiles route t.required_capabilities effort) in
    elim t.requested_route.model_id [
      | none ↦ candidates
      | some model ↦
          let exact = first (exact_profiles profiles model t.required_capabilities effort) in
          elim exact [ some p ↦ some p | none ↦ candidates ]
    ]

unavailable_issues : List ModelProfile → TaskRequirements → Effort → List Issue
unavailable_issues profiles t effort = elim t.requested_route.model_id [
  | none ↦ []
  | some model ↦
      if is_hard t.requested_route.model_constraint
        && is_empty (exact_profiles profiles model t.required_capabilities effort)
      then issue "AR_HARD_MODEL_UNAVAILABLE"
          (key "task_requirements" ∷ key "requested_route" ∷ key "model_id" ∷ [])
      else []
]

unfoldable pub text_eq : Option String → Option String → Bool
text_eq none none = true
text_eq (some a) (some b) = a == b
text_eq _ _ = false

unfoldable pub opt_effort_eq : Option Effort → Option Effort → Bool
unfolding effort_eq
opt_effort_eq none none = true
opt_effort_eq (some a) (some b) = effort_eq a b
opt_effort_eq _ _ = false

is_effective : Outcomes → Bool
is_effective effective = true
is_effective _ = false

abbrev issue_if : Bool → String → List Segment → List Issue
issue_if true code path = issue code path
issue_if false code path = []

module _ (r : RequestedRoute) (model : Option String) (effort : Effort)
    (evidence : RuntimeEvidence) where
  abbrev model_replaced : Bool
  model_replaced = is_hard r.model_constraint && not (text_eq r.model_id model)

  abbrev effort_replaced : Bool
  effort_replaced =
      is_hard r.effort_constraint && not (opt_effort_eq r.reasoning_effort (some effort))

  abbrev configured_model_differs : Bool
  configured_model_differs =
      let configured = evidence.configured.model_id in
      is_hard r.model_constraint && not (text_eq configured none || text_eq configured r.model_id)

  abbrev configured_effort_differs : Bool
  configured_effort_differs =
      let configured = evidence.configured.reasoning_effort in
      is_hard r.effort_constraint
      && not (opt_effort_eq configured none || opt_effort_eq configured r.reasoning_effort)

  abbrev effective_model_differs : Bool
  effective_model_differs =
      let selection = evidence.effective_selection in
      is_effective selection.outcome
      && is_hard r.model_constraint
      && not (text_eq selection.model_id r.model_id)

  abbrev effective_effort_differs : Bool
  effective_effort_differs =
      let selection = evidence.effective_selection in
      is_effective selection.outcome
      && is_hard r.effort_constraint
      && not (opt_effort_eq selection.reasoning_effort r.reasoning_effort)

  pub constraint_issues : List Issue
  unfolding text_eq opt_effort_eq is_effective is_hard
  constraint_issues =
      issue_if model_replaced "AR_HARD_MODEL_MISMATCH" (key "recommended" ∷ key "model_id" ∷ [])
      ++ (issue_if effort_replaced "AR_HARD_EFFORT_MISMATCH"
            (key "recommended" ∷ key "reasoning_effort" ∷ [])
          ++ (issue_if configured_model_differs "AR_HARD_CONFIGURED_MODEL_MISMATCH"
                (key "configured" ∷ key "model_id" ∷ [])
              ++ (issue_if configured_effort_differs "AR_HARD_CONFIGURED_EFFORT_MISMATCH"
                    (key "configured" ∷ key "reasoning_effort" ∷ [])
                  ++ (issue_if effective_model_differs "AR_HARD_EFFECTIVE_MODEL_MISMATCH"
                        (key "effective" ∷ key "model_id" ∷ [])
                      ++ (issue_if effective_effort_differs "AR_HARD_EFFECTIVE_EFFORT_MISMATCH"
                            (key "effective" ∷ key "reasoning_effort" ∷ [])
                          ++ [])))))

inheritance : Option ParentRoute → Option String → Effort → RouteClass → Inheritance
unfolding text_eq opt_effort_eq rank
inheritance none _ _ _ = not_applicable
inheritance (some parent) model effort c =
    if text_eq (some parent.model_id) model
      && opt_effort_eq parent.reasoning_effort (some effort)
      && eqb (rank parent.route_class) (rank c)
    then allowed_inheritance
    else rejected_inheritance

rejected_reasons : Inheritance → List Reason
rejected_reasons rejected_inheritance = parent_inheritance_rejected ∷ []
rejected_reasons _ = []

-- NORMALIZED_EFFORT.get(effort, "unknown")
normalized : Effort → ReasoningTier
normalized Effort.no_effort = no_tier
normalized Effort.minimal = light
normalized Effort.low_effort = light
normalized Effort.medium_effort = standard
normalized Effort.high_effort = deep
normalized Effort.xhigh = deep
normalized Effort.max_effort = maximum
normalized Effort.ultra = maximum
normalized Effort.unknown_effort = unknown_tier

-- `model_id`, `profile_id` and `model_source`
pub chosen_model :
    Option ModelProfile → RuntimeEvidence → Option String × Option String × ModelSource
chosen_model (some p) evidence = (some p.model_id, some p.profile_id, verified_model_profile)
chosen_model none evidence = (
  evidence.recommended.model_id,
  evidence.bound_profile_id,
  elim evidence.recommended.model_id [
    | none ↦ model_catalog_required
    | some m ↦ if m == "" then model_catalog_required else runtime_recommendation_unverified
  ],
)

module _ (t : TaskRequirements) (evidence : RuntimeEvidence) (profiles : List ModelProfile)
    (policy : RoutePolicy) (route : RouteSpec) where
  abbrev pub final_effort : Effort
  final_effort = (choose_effort policy t route).0

  -- The profile found, the model and the profile's identity.
  abbrev pub final_model : Option String × Option String × ModelSource
  final_model = chosen_model (select_profile profiles route t final_effort) evidence

  pub hard_issues : List Issue
  unfolding unavailable_issues
  hard_issues =
      unavailable_issues profiles t final_effort
      ++ constraint_issues t.requested_route final_model.0 final_effort evidence

  pub recommended : Recommended
  unfolding inheritance rejected_reasons normalized
  recommended =
      let requested = t.requested_route in
      let c = route_class policy t in
      let (model, profile, source) = final_model in
      let inherited = inheritance t.parent_route model final_effort c in
      record {
        policy_id = policy.policy_id;
        task_id = t.task_id;
        score = score policy t;
        route_class = c;
        requested = requested;
        model_id = model;
        profile_id = profile;
        reasoning_effort = final_effort;
        normalized_reasoning_tier = normalized final_effort;
        model_source = source;
        configured = evidence.configured;
        effective_selection = evidence.effective_selection;
        inheritance = inherited;
        hard_requested = is_hard requested.model_constraint || is_hard requested.effort_constraint;
        escalation_reasons = escalation_reasons policy t;
        reasons =
            cost_and_risk_scored
            ∷ (floor_reasons t
                ++ (escalation_reasons policy t
                    ++ ((choose_effort policy t route).1
                        ++ ((if cost_pressure t then budget_pressure_applied ∷ [] else [])
                            ++ rejected_reasons inherited))));
      }

  -- Everything behind the input checks, on the entry of the route class.
  pub recommend_on : Recommendation
  recommend_on =
      if is_empty hard_issues
      then recommend recommended
      else hard_constraint_unsatisfied (score policy t) hard_issues

pub recommend_model_route :
    Services
    → TaskRequirements
    → RuntimeEvidence
    → List ModelProfile
    → RoutePolicy
    → Outcome PlannerError Recommendation
recommend_model_route services t evidence profiles policy =
    let issues = input_issues services t evidence profiles policy in
    if is_empty issues
    then (do
      route ← present (route_by_name (route_class policy t) policy.route_classes) key_error
      done (recommend_on t evidence profiles policy route))
    else done (invalid_input issues)

-- Opens the definitions of this module, for runs of the code on samples.
unfoldable pub recommend_code : Unit {0}
unfolding inheritance prefixed profiles_issues input_issues route_by_name workload_index
    justifies_max asked_effort choose_effort select_profile unavailable_issues text_eq opt_effort_eq
    is_effective constraint_issues rejected_reasons normalized chosen_model hard_issues recommended
    recommend_on recommend_model_route
recommend_code = tt
