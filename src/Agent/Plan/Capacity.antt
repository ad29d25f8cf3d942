-- ===== src/Agent/Plan/Capacity.antt =====
-- When `plan_route` reports a lease conflict.
use malts.Base.{ℕ, ◌<◌, String, Bool, true, not, ◌&&◌, ◌≡◌, ◌≢◌, ap, ◌∙◌, some}
use malts.Base.{
  List, [], ◌∷◌, ◌++◌, length, is_empty, arith, Bool-cases, Option-cases, inl, inr, leb,
}
use native.Mathlib.Decide.{dec_lt}
use malts.Base.Outcome.{Outcome, done, bind-eq-done}
use malts.Json.{Value}
use malts.Agent.Contract.{
  Issue, PlannerError, TaskSize, Contract, RuntimeEvidence, ModelProfile, RoutePolicy, Services,
}
use malts.Agent.Lanes.{Lane, read_lanes}
use malts.Agent.Recommend.{
  Recommendation, invalid_input, hard_constraint_unsatisfied, recommend, recommend_model_route,
}
use malts.Agent.Plan.{
  RouteStatus, lease_conflict, Plan, base_result, is_small, flag_of, batch_of, sort_lanes,
  select_lanes, authorized, unavailable_status, hard_cap, desired_count, requirements_for,
  is_blocked, Routes, routed, stopped, recommend_lanes, dispatch_plan, finish, plan_selection,
  unavailable_plan, unauthorized_plan, no_lane_plan, plan_checked, plan_issues, plan_route,
}
use malts.Agent.Plan.Selected.{select-nonempty}
use malts.Agent.Plan.Independent.{same_plan}

-- The plan does not report a lease conflict.
abbrev Spares : Plan → Type 0
Spares p = p.route_status ≢ lease_conflict

spared :
    (p plan : Plan)
    → Spares p
    → ◌≡◌ {A = Outcome PlannerError Plan} (done p) (done plan)
    → Spares plan
spared p plan h e x = h (ap (λ (q : Plan). q.route_status) (same_plan p plan e) ∙ x)

blocked-ne :
    (r : Recommendation) (s : RouteStatus) (i : List Issue)
    → is_blocked r ≡ some (s, i)
    → s ≢ lease_conflict
unfolding is_blocked
blocked-ne (invalid_input issues) s i h x = ground arith
blocked-ne (hard_constraint_unsatisfied score issues) s i h x = ground arith
blocked-ne (recommend r) s i h x = cc

unavailable-ne :
    (evidence : RuntimeEvidence) (s : RouteStatus)
    → unavailable_status evidence ≡ some s
    → s ≢ lease_conflict
unfolding unavailable_status
unavailable-ne evidence s h x = ground arith

single_or_cap : (size : TaskSize) (cap : ℕ) → 0 < cap → 0 < desired_count size cap
unfolding desired_count
single_or_cap size cap h = ground arith

module _ (services : Services) (contract : Contract) (evidence : RuntimeEvidence)
    (profiles : List ModelProfile) (policy : RoutePolicy) (size : TaskSize) (independent : Bool)
    (batch : String) (room : 0 < hard_cap contract evidence) where
  stopped-ne :
      (lanes : List Lane) (recs out : List (String × Recommendation)) (s : RouteStatus)
      (i : List Issue)
      → recommend_lanes services contract evidence profiles policy size independent batch lanes recs
        ≡ done (stopped s i out)
      → s ≢ lease_conflict
  unfolding recommend_lanes
  stopped-ne [] recs out s i h x = cc
  stopped-ne (l ∷ ls) recs out s i h x =
      let (r, e, h1) =
        bind-eq-done
          (recommend_model_route services
            (requirements_for services contract evidence profiles policy size independent batch l)
            evidence profiles policy)
          _ h in
      elim (Option-cases (is_blocked r)) [
        | inl b ↦ stopped-ne ls (recs ++ (l.lane_id, r) ∷ []) out s i (rw b at h1) x
        | inr ((status, issues), b) ↦ blocked-ne r status issues b (ground arith)
      ]

  finish-Spares :
      (sorted selected : List Lane) (deferred : List String) (r : Routes)
      → recommend_lanes services contract evidence profiles policy size independent batch selected
          []
        ≡ done r
      → Spares (
          finish services contract evidence profiles policy size independent batch sorted selected
            deferred r)
  unfolding finish dispatch_plan base_result
  finish-Spares sorted selected deferred (routed recs) h x = ground arith
  finish-Spares sorted selected deferred (stopped s i recs) h x =
      stopped-ne selected [] recs s i h x

  selection-Spares :
      (l : Lane) (ls : List Lane) (plan : Plan)
      → plan_selection services contract evidence profiles policy size independent batch (l ∷ ls)
        ≡ done plan
      → Spares plan
  unfolding plan_selection base_result
  selection-Spares l ls plan h =
      let desired = desired_count size (hard_cap contract evidence) in
      let (selected, deferred) = select_lanes services.lease_conflict desired (l ∷ ls) [] [] in
      let filled : 0 < length selected =
        select-nonempty services.lease_conflict desired l ls
          (single_or_cap size (hard_cap contract evidence) room) in
      elim (Bool-cases (is_empty selected)) [
        | inl e ↦ absurd (positive selected filled e)
        | inr e ↦ elim (Bool-cases (independent && leb (length selected) 0)) [
          | inl e' ↦ spared _ plan (λ x. cc) (rw (e, e') at h)
          | inr e' ↦
              let (r, run, ended) =
                bind-eq-done
                  (recommend_lanes services contract evidence profiles policy size independent batch
                    selected [])
                  _ (rw (e, e') at h) in
              spared _ plan (finish-Spares (l ∷ ls) selected deferred r run) ended
        ]
      ]
    where
      positive : (xs : List Lane) → 0 < length xs → is_empty xs ≡ true → ⊥
      positive [] p e = omega arith
      positive (x ∷ xs) p e = cc

  no_lane-Spares :
      Spares (no_lane_plan services contract evidence profiles policy size independent batch)
  unfolding no_lane_plan base_result
  no_lane-Spares x = ground arith

  unauthorized-Spares :
      (sorted : List Lane)
      → Spares (
          unauthorized_plan services contract evidence profiles policy size independent batch
            sorted)
  unfolding unauthorized_plan base_result
  unauthorized-Spares sorted x = ground arith

  unavailable-Spares :
      (sorted : List Lane) (s : RouteStatus)
      → s ≢ lease_conflict
      → Spares (
          unavailable_plan services contract evidence profiles policy size independent batch sorted
            s)
  unfolding unavailable_plan base_result
  unavailable-Spares sorted s h x = h (ground arith)

  checked-Spares :
      (sorted : List Lane) (plan : Plan)
      → plan_checked services contract evidence profiles policy size independent batch sorted
        ≡ done plan
      → Spares plan
  unfolding plan_checked base_result
  checked-Spares [] plan h = elim (Bool-cases (is_small size && not independent)) [
    | inl e ↦ spared _ plan (λ x. cc) (rw e at h)
    | inr e1 ↦ spared _ plan no_lane-Spares (rw e1 at h)
  ]
  checked-Spares (l ∷ ls) plan h = elim (Bool-cases (is_small size && not independent)) [
    | inl e ↦ spared _ plan (λ x. cc) (rw e at h)
    | inr e1 ↦ elim (Bool-cases (authorized contract.multi_agent batch)) [
      | inr e ↦ spared _ plan (unauthorized-Spares (l ∷ ls)) (rw (e1, e) at h)
      | inl e3 ↦ elim (Option-cases (unavailable_status evidence)) [
        | inr (s, e) ↦
            spared _ plan (unavailable-Spares (l ∷ ls) s (unavailable-ne evidence s e))
              (rw (e1, e3, e) at h)
        | inl e4 ↦ selection-Spares l ls plan (rw (e1, e3, e4) at h)
      ]
    ]
  ]

module _ (services : Services) (contract : Contract) (evidence : RuntimeEvidence)
    (profiles : List ModelProfile) (policy : RoutePolicy) (lanes : Value) (size : TaskSize)
    (independent batch : Value) (plan : Plan) where
  -- If a plan has the status lease_conflict, then the capacity for agents is zero: with room for one
  -- agent, no set of leases makes the planner report a lease conflict.
  pub lease_conflict-no_capacity :
      plan_route services contract evidence profiles policy lanes size independent batch ≡ done plan
      → plan.route_status ≡ lease_conflict
      → hard_cap contract evidence ≡ 0
  unfolding plan_route base_result
  lease_conflict-no_capacity made status =
      let (issues, e, h) =
        bind-eq-done (plan_issues services contract evidence lanes size independent batch) _ made in
      elim (Bool-cases (is_empty issues)) [
        | inr x ↦ absurd (spared _ plan (λ y. cc) (rw x at h) status)
        | inl x ↦ elim (dec_lt 0 (hard_cap contract evidence)) [
          | yes room ↦ absurd (
              checked-Spares services contract evidence profiles policy size (flag_of independent)
                (batch_of batch) room (sort_lanes (read_lanes services lanes)) plan (rw x at h)
                status)
          | no none_left ↦ omega arith
        ]
      ]
