-- ===== src/Agent/Score/Floors.antt =====
-- Safety floors, whatever the cost pressure.
use malts.Base.{ℕ, zero, suc, ◌≤◌, true, ◌≡◌, refl, arith}
use malts.Base.Int.{ℤ}
use malts.Agent.Contract.{RouteClass, economy, TaskRequirements, RoutePolicy, Thresholds}
use malts.Agent.Score.{
  rank, class_at, is_architecture, is_high, is_high_risk, route_index_from_score, floor_index,
  final_index, route_class, score,
}

rank_bound : (c : RouteClass) → rank c ≤ 3
unfolding rank
rank_bound economy = omega arith
rank_bound _ = omega arith

rank-class_at : (i : ℕ) → i ≤ 3 → rank (class_at i) ≡ i
unfolding rank class_at
rank-class_at zero h = refl
rank-class_at (suc zero) h = refl
rank-class_at (suc (suc zero)) h = refl
rank-class_at (suc (suc (suc zero))) h = refl
rank-class_at (suc (suc (suc (suc i)))) h = absurd (omega arith)

index_bound : (n : ℤ) (t : Thresholds) → route_index_from_score n t ≤ 3
unfolding route_index_from_score
index_bound n t = ground arith

floor_bound : (policy : RoutePolicy) (t : TaskRequirements) → floor_index policy t ≤ 3
unfolding floor_index
floor_bound policy t = ground (
  arith,
  rank_bound policy.safety_floors.architecture,
  rank_bound policy.safety_floors.high_recovery_risk,
  rank_bound policy.safety_floors.important_verification,
)

final_bounds :
    (policy : RoutePolicy) (t : TaskRequirements)
    → (floor_index policy t ≤ final_index policy t) × (final_index policy t ≤ 3)
unfolding final_index
final_bounds policy t =
    ground (arith, floor_bound policy t, index_bound (score policy t) policy.thresholds)

-- The safety floors hold under every cost pressure: an architecture or security task, a task with
-- high recovery risk, and an independent verification of high importance each get a route class at
-- least as high as the policy's floor for it.
pub route_class_floors :
    (policy : RoutePolicy) (t : TaskRequirements)
    → (is_architecture t.workload_class ≡ true
        → rank policy.safety_floors.architecture ≤ rank (route_class policy t))
      × (is_high_risk t.recovery_risk ≡ true
          → rank policy.safety_floors.high_recovery_risk ≤ rank (route_class policy t))
      × (t.independent ≡ true
          → is_high t.audit_importance ≡ true
          → rank policy.safety_floors.important_verification ≤ rank (route_class policy t))
unfolding route_class floor_index
route_class_floors policy t =
    let (above, within) = final_bounds policy t in
    let same = rank-class_at (final_index policy t) within in
    (λ h. ground arith, λ h. ground arith, λ h k. ground arith)
