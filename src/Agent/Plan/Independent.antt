-- ===== src/Agent/Plan/Independent.antt =====
-- What a plan for an independent verification can come to, and when a lease conflict is reported.
use malts.Base.{String, true, false, ◌&&◌, ◌≡◌, ◌≢◌, ap, ◌∙◌}
use malts.Base.{List, [], length, is_empty, arith, Bool-cases, Option-cases, inl, inr, leb}
use malts.Base.Outcome.{Outcome, done, bind-eq-done}
use malts.Json.{Value, bool}
use malts.Agent.Contract.{
  PlannerError, TaskSize, Contract, RuntimeEvidence, ModelProfile, RoutePolicy, Services,
}
use malts.Agent.Lanes.{Lane, read_lanes}
use malts.Agent.Plan.{
  Decision, main_only, Plan, base_result, is_small, flag_of, batch_of, sort_lanes, select_lanes,
  authorized, unavailable_status, hard_cap, desired_count, Routes, routed, stopped, recommend_lanes,
  dispatch_plan, finish, plan_selection, unavailable_plan, unauthorized_plan, no_lane_plan,
  plan_checked, plan_issues, plan_route,
}

-- `plan` is what was returned.
pub same_plan :
    (p plan : Plan) → ◌≡◌ {A = Outcome PlannerError Plan} (done p) (done plan) → p ≡ plan
same_plan p plan e = cc

differs :
    (d : Decision) (p plan : Plan)
    → p.decision ≢ d
    → ◌≡◌ {A = Outcome PlannerError Plan} (done p) (done plan)
    → plan.decision ≢ d
differs d p plan h e x = h (ap (λ (q : Plan). q.decision) (same_plan p plan e) ∙ x)

module _ (services : Services) (contract : Contract) (evidence : RuntimeEvidence)
    (profiles : List ModelProfile) (policy : RoutePolicy) (size : TaskSize) (batch : String) where
  abbrev finished : List Lane → List Lane → List String → Routes → Plan
  finished = finish services contract evidence profiles policy size true batch

  finish-ne :
      (sorted selected : List Lane) (deferred : List String) (r : Routes)
      → (finished sorted selected deferred r).decision ≢ main_only
  unfolding finish dispatch_plan base_result
  finish-ne sorted selected deferred (routed recs) x = cc
  finish-ne sorted selected deferred (stopped s i recs) x = cc

  selection-ne :
      (sorted : List Lane) (plan : Plan)
      → plan_selection services contract evidence profiles policy size true batch sorted ≡ done plan
      → plan.decision ≢ main_only
  unfolding plan_selection base_result
  selection-ne sorted plan h =
      let desired = desired_count size (hard_cap contract evidence) in
      let (selected, deferred) = select_lanes services.lease_conflict desired sorted [] [] in
      elim (Bool-cases (is_empty selected)) [
        | inl e ↦ differs main_only _ plan (λ x. cc) (rw e at h)
        | inr e ↦ elim (Bool-cases (leb (length selected) 0)) [
          | inl e' ↦ differs main_only _ plan (λ x. cc) (rw (e, e') at h)
          | inr e' ↦
              let (r, run, ended) =
                bind-eq-done
                  (recommend_lanes services contract evidence profiles policy size true batch
                    selected [])
                  _ (rw (e, e') at h) in
              differs main_only _ plan (finish-ne sorted selected deferred r) ended
        ]
      ]

  checked-ne :
      (sorted : List Lane) (plan : Plan)
      → plan_checked services contract evidence profiles policy size true batch sorted ≡ done plan
      → plan.decision ≢ main_only
  unfolding plan_checked no_lane_plan unauthorized_plan unavailable_plan base_result
  checked-ne sorted plan h = elim (Bool-cases (is_small size && false)) [
    | inl e ↦ absurd (ground arith)
    | inr e1 ↦ elim (Bool-cases (is_empty sorted)) [
      | inl e ↦ differs main_only _ plan (λ x. cc) (rw (e1, e) at h)
      | inr e2 ↦ elim (Bool-cases (authorized contract.multi_agent batch)) [
        | inr e ↦ differs main_only _ plan (λ x. cc) (rw (e1, e2, e) at h)
        | inl e3 ↦ elim (Option-cases (unavailable_status evidence)) [
          | inr (s, e) ↦ differs main_only _ plan (λ x. cc) (rw (e1, e2, e3, e) at h)
          | inl e4 ↦ selection-ne sorted plan (rw (e1, e2, e3, e4) at h)
        ]
      ]
    ]
  ]

module _ (services : Services) (contract : Contract) (evidence : RuntimeEvidence)
    (profiles : List ModelProfile) (policy : RoutePolicy) (lanes : Value) (size : TaskSize)
    (batch : Value) (plan : Plan) where
  -- A task that requires independent verification is never planned for the main agent alone: its
  -- plan dispatches or is BLOCKED.
  pub independent-ne-main_only :
      plan_route services contract evidence profiles policy lanes size (bool true) batch ≡ done plan
      → plan.decision ≢ main_only
  unfolding plan_route base_result flag_of
  independent-ne-main_only made =
      let (issues, e, h) =
        bind-eq-done (plan_issues services contract evidence lanes size (bool true) batch) _ made in
      elim (Bool-cases (is_empty issues)) [
        | inr x ↦ differs main_only _ plan (λ y. cc) (rw x at h)
        | inl x ↦
            checked-ne services contract evidence profiles policy size (batch_of batch)
              (sort_lanes (read_lanes services lanes)) plan (rw x at h)
      ]
