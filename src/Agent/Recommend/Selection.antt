-- ===== src/Agent/Recommend/Selection.antt =====
-- Where a recommended model comes from, and the safety floors of a recommendation.
use malts.Base.{◌≤◌, true, ◌≡◌, refl, sym, ap, ◌∙◌, Option, none, some, List}
use malts.Base.{inl, inr, Option-cases, arith}
use mathlib.Core.Path.{subst}
use malts.Base.Outcome.{done}
use malts.Agent.Contract.{
  Effort, TaskRequirements, RoutePolicy, RouteSpec, ModelProfile, RuntimeEvidence, Services,
}
use malts.Agent.Score.{rank, route_class, is_architecture, is_high, is_high_risk}
use malts.Agent.Score.Floors.{route_class_floors}
use malts.Agent.Profiles.{profile_candidates, exact_profiles, first}
use malts.Agent.Profiles.Chosen.{IsUsable, candidates-IsUsable, exact-IsUsable, first-All}
use malts.Agent.Recommend.{
  Recommended, recommend, recommended, verified_model_profile, chosen_model, select_profile,
  recommend_model_route, final_effort,
}
use malts.Agent.Recommend.Constraints.{made_on, recommend_on-IsKept}

module _ (profiles : List ModelProfile) (route : RouteSpec) (t : TaskRequirements)
    (e : Effort) where
  -- The selected profile is usable, and has the requested model if the catalogue offers it.
  selected-IsUsable :
      (p : ModelProfile)
      → select_profile profiles route t e ≡ some p
      → IsUsable profiles t.required_capabilities e p
  unfolding select_profile
  selected-IsUsable p h = elim (Option-cases t.requested_route.model_id) [
    | inl none_asked ↦ candidate (rw (none_asked, select_profile) at h)
    | inr (model, asked) ↦
        elim (Option-cases (first (exact_profiles profiles model t.required_capabilities e))) [
          | inl absent ↦ candidate (ground arith)
          | inr (q, found) ↦
              let usable =
                first-All
                  (λ q. IsUsable profiles t.required_capabilities e q × (q.model_id ≡ model)) _ q
                  (exact-IsUsable t.required_capabilities e profiles model) found in
              subst (IsUsable profiles t.required_capabilities e) (ground arith) usable.0
        ]
  ]
    where
      candidate :
          first (profile_candidates profiles route t.required_capabilities e) ≡ some p
          → IsUsable profiles t.required_capabilities e p
      candidate c =
          first-All (IsUsable profiles t.required_capabilities e) _ p
            (candidates-IsUsable t.required_capabilities e profiles route) c

verified_profile :
    (o : Option ModelProfile) (evidence : RuntimeEvidence)
    → (chosen_model o evidence).2 ≡ verified_model_profile
    → (p : ModelProfile) × (o ≡ some p) × ((chosen_model o evidence).0 ≡ some p.model_id)
unfolding chosen_model
verified_profile (some p) evidence h = (p, refl, refl)
verified_profile none evidence h = ground arith

module _ (services : Services) (t : TaskRequirements) (evidence : RuntimeEvidence)
    (profiles : List ModelProfile) (policy : RoutePolicy) (r : Recommended)
    (made : recommend_model_route services t evidence profiles policy ≡ done (recommend r)) where
  -- A recommendation that calls its model verified names the model of a profile of the catalogue
  -- that was verified at run time, supports the recommended effort and delegation to sub-agents, and
  -- has every required capability.
  pub recommend-IsUsable :
      r.model_source ≡ verified_model_profile
      → (p : ModelProfile) × IsUsable profiles t.required_capabilities r.reasoning_effort p
        × (r.model_id ≡ some p.model_id)
  unfolding recommended
  recommend-IsUsable h =
      let (route, found, e) = made_on services t evidence profiles policy r made in
      let same = (recommend_on-IsKept t evidence profiles policy route r e).0 in
      let effort = final_effort t evidence profiles policy route in
      let (p, selected, named) =
        verified_profile (select_profile profiles route t effort) evidence
          (ap (λ (q : Recommended). q.model_source) same ∙ h) in
      (
        p,
        subst (λ x. IsUsable profiles t.required_capabilities x p)
            (ap (λ (q : Recommended). q.reasoning_effort) same)
            (selected-IsUsable profiles route t effort p selected),
        sym (ap (λ (q : Recommended). q.model_id) same) ∙ named,
      )

  -- A recommendation never falls below a safety floor of the policy, whatever the budget pressure.
  pub recommend-floors :
      (is_architecture t.workload_class ≡ true
        → rank policy.safety_floors.architecture ≤ rank r.route_class)
      × (is_high_risk t.recovery_risk ≡ true
          → rank policy.safety_floors.high_recovery_risk ≤ rank r.route_class)
      × (t.independent ≡ true
          → is_high t.audit_importance ≡ true
          → rank policy.safety_floors.important_verification ≤ rank r.route_class)
  unfolding recommended
  recommend-floors =
      let (route, found, e) = made_on services t evidence profiles policy r made in
      let same : route_class policy t ≡ r.route_class =
        ap (λ (q : Recommended). q.route_class)
          (recommend_on-IsKept t evidence profiles policy route r e).0 in
      let (f1, f2, f3) = route_class_floors policy t in
      (
        λ h. subst (λ c. rank policy.safety_floors.architecture ≤ rank c) same (f1 h),
        λ h. subst (λ c. rank policy.safety_floors.high_recovery_risk ≤ rank c) same (f2 h),
        λ h k. subst (λ c. rank policy.safety_floors.important_verification ≤ rank c) same (f3 h k),
      )
