-- ===== src/Agent/Score.antt =====
-- The route class of `recommend_model_route`: score, safety floors, escalation and cost pressure.
pub mod Floors
use malts.Base.{ℕ, zero, suc, ◌+◌, ◌-◌, min, max, Bool, true, false, ◌&&◌, ◌||◌, Option, none, some}
use malts.Base.{List, [], ◌∷◌, ◌++◌, is_empty, leb, eqb, not, if◌then◌else◌}
use Prim.Native.Nat.{◌*◌}
use malts.Base.Int.{ℤ, pos, ◌+ℤ◌, at_least}
use malts.Agent.Contract.{
  RouteClass, economy, balanced, advanced, flagship, Workload, architecture_security, Level, high,
  Risk, high_risk, BudgetPriority, minimize_cost, quality_first, BudgetPressure, high_pressure,
  critical_pressure, LatencyPriority, quality_latency, TaskRequirements, RoutePolicy, Thresholds,
}

pub data Reason : Type 0 where
  architecture_security_floor high_recovery_risk_floor important_verification_floor : Reason
  failure_threshold_reached scope_expanded high_uncertainty : Reason
  explicit_hard_max_override max_justified max_rejected : Reason
  cost_and_risk_scored budget_pressure_applied parent_inheritance_rejected : Reason

-- ROUTE_CLASSES.index(c)
unfoldable pub rank : RouteClass → ℕ
rank economy = 0
rank balanced = 1
rank advanced = 2
rank flagship = 3

-- ROUTE_CLASSES[i]; the index is never above 3.
unfoldable pub class_at : ℕ → RouteClass
class_at zero = economy
class_at (suc zero) = balanced
class_at (suc (suc zero)) = advanced
class_at (suc (suc (suc _))) = flagship

unfoldable pub is_architecture : Workload → Bool
is_architecture architecture_security = true
is_architecture _ = false

unfoldable pub is_high : Level → Bool
is_high high = true
is_high _ = false

unfoldable pub is_high_risk : Risk → Bool
is_high_risk high_risk = true
is_high_risk _ = false

wants_quality : BudgetPriority → LatencyPriority → Bool
wants_quality quality_first _ = true
wants_quality _ quality_latency = true
wants_quality _ _ = false

pressed : BudgetPriority → BudgetPressure → Bool
pressed minimize_cost _ = true
pressed _ high_pressure = true
pressed _ critical_pressure = true
pressed _ _ = false

pub cost_pressure : TaskRequirements → Bool
unfolding pressed
cost_pressure t = pressed t.budget_priority t.budget_pressure

pub score : RoutePolicy → TaskRequirements → ℤ
score policy t =
    let w = policy.weights in
    pos (w.workload t.workload_class)
    +ℤ w.level t.semantic_complexity
    +ℤ w.level t.uncertainty
    +ℤ w.risk t.write_risk
    +ℤ w.risk t.recovery_risk
    +ℤ w.level t.audit_importance
    +ℤ pos (if t.independent then w.independent_weight else 0)
    +ℤ pos (min t.failure_count 2 * w.failure)
    +ℤ pos (if t.scope_expanded then w.scope_weight else 0)

pub route_index_from_score : ℤ → Thresholds → ℕ
route_index_from_score n thresholds =
    if at_least n thresholds.flagship_min
    then 3
    else if at_least n thresholds.advanced_min
    then 2
    else if at_least n thresholds.balanced_min
    then 1
    else 0

important_verification : TaskRequirements → Bool
important_verification t = t.independent && is_high t.audit_importance

pub floor_index : RoutePolicy → TaskRequirements → ℕ
unfolding important_verification rank is_architecture is_high is_high_risk
floor_index policy t =
    let floors = policy.safety_floors in
    let first = if is_architecture t.workload_class then max 0 (rank floors.architecture) else 0 in
    let second =
      if is_high_risk t.recovery_risk then max first (rank floors.high_recovery_risk) else first in
    if important_verification t then max second (rank floors.important_verification) else second

pub floor_reasons : TaskRequirements → List Reason
unfolding important_verification is_architecture is_high_risk
floor_reasons t =
    (if is_architecture t.workload_class then architecture_security_floor ∷ [] else [])
    ++ ((if is_high_risk t.recovery_risk then high_recovery_risk_floor ∷ [] else [])
        ++ (if important_verification t then important_verification_floor ∷ [] else []))

pub escalation_reasons : RoutePolicy → TaskRequirements → List Reason
unfolding is_high
escalation_reasons policy t =
    (if leb policy.failure_count_threshold t.failure_count
      then failure_threshold_reached ∷ []
      else [])
    ++ ((if t.scope_expanded && policy.scope_expansion_escalates then scope_expanded ∷ [] else [])
        ++ (if is_high t.uncertainty && policy.high_uncertainty_escalates
            then high_uncertainty ∷ []
            else []))

-- `route_index` after the floor, the two escalations and the cost pressure.
pub final_index : RoutePolicy → TaskRequirements → ℕ
unfolding wants_quality
final_index policy t =
    let floor = floor_index policy t in
    let scored = max (route_index_from_score (score policy t) policy.thresholds) floor in
    let escalated =
      if not (is_empty (escalation_reasons policy t)) then min 3 (scored + 1) else scored in
    let preferred =
      if wants_quality t.budget_priority t.latency_priority
      then min 3 (escalated + 1)
      else escalated in
    if cost_pressure t then max floor (preferred - 1) else preferred

pub route_class : RoutePolicy → TaskRequirements → RouteClass
unfolding final_index class_at
route_class policy t = class_at (final_index policy t)

-- Opens the definitions of this module, for runs of the code on samples.
unfoldable pub score_code : Unit {0}
unfolding rank class_at is_architecture is_high is_high_risk wants_quality pressed cost_pressure
    score route_index_from_score important_verification floor_index floor_reasons escalation_reasons
    final_index route_class
score_code = tt
