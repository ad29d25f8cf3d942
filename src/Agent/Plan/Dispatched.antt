-- ===== src/Agent/Plan/Dispatched.antt =====
-- What holds of every plan that dispatches agents.
use malts.Base.{ℕ, ◌≤◌, String, Bool, true, not, ◌&&◌, ◌≡◌, ◌≢◌, refl, sym, ap, ◌∙◌}
use malts.Base.{
  none, some, List, [], ◌∷◌, ◌++◌, map, All, All-append, length, contains, is_empty, arith,
}
use malts.Base.{Bool-cases, Option-cases, inl, inr, append-eq-nil, leb}
use mathlib.Core.List.{Perm, append_assoc, append-nil, map-append}
use mathlib.Core.List.Perm
use mathlib.Core.Path.{subst, subst₂}
use malts.Base.Outcome.{Outcome, done, bind-eq-done}
use malts.Json.{Value}
use malts.Agent.Contract.{
  key, Issue, PlannerError, TaskSize, Contract, RuntimeEvidence, ModelProfile, RoutePolicy,
  Services,
}
use malts.Agent.Lanes.{Lane, lane_issues, read_lanes}
use malts.Agent.Lanes.Checked.{IsChecked, lane_issues-IsChecked}
use malts.Agent.Recommend.{
  Recommendation, Recommended, recommend, invalid_input, hard_constraint_unsatisfied,
  recommend_model_route,
}
use malts.Agent.Plan.{
  dispatched, RouteStatus, Plan, base_result, is_small, is_single, flag_of, batch_of, sort_lanes,
  lane_ids, select_lanes, authorized, unavailable_status, verified_concurrency, hard_cap,
  desired_count, is_blocked, Routes, routed, stopped, requirements_for, recommend_lanes,
  dispatch_plan, agent_of, finish, plan_selection, unavailable_plan, unauthorized_plan,
  no_lane_plan, plan_checked, plan_issues, plan_route, flag_issues, batch_issues, size_issues,
  prefixed,
}
use malts.Agent.Plan.Selected.{
  IsConflictFree, select-free, select-length, select-perm, select-All, ids-sort, All-sort_lanes,
}

abbrev Blocks : Plan → Type 0
Blocks p = p.decision ≢ dispatched

not_dispatched :
    (p plan : Plan)
    → Blocks p
    → ◌≡◌ {A = Outcome PlannerError Plan} (done p) (done plan)
    → plan.decision ≡ dispatched
    → ⊥
not_dispatched p plan no_dispatch e d =
    let same : p ≡ plan = cc in no_dispatch (ap (λ (q : Plan). q.decision) same ∙ d)

module _ (services : Services) (contract : Contract) (evidence : RuntimeEvidence)
    (profiles : List ModelProfile) (policy : RoutePolicy) (size : TaskSize) (independent : Bool)
    (batch : String) where
  abbrev selection : List Lane → List Lane × List String
  selection sorted =
      select_lanes services.lease_conflict (desired_count size (hard_cap contract evidence)) sorted
        [] []

  -- How a plan over sorted lanes came to dispatch.
  pub record Dispatches (sorted : List Lane) (plan : Plan) : Type 0 where
    pub permitted : authorized contract.multi_agent batch ≡ true
    pub available : unavailable_status evidence ≡ none
    pub recs : List (String × Recommendation)
    pub routes :
        recommend_lanes services contract evidence profiles policy size independent batch
          (selection sorted).0
          []
        ≡ done (routed recs)
    pub made :
        dispatch_plan services contract evidence profiles policy size independent batch
          (selection sorted).0
          (selection sorted).1
          recs
        ≡ plan

  finish-dispatches :
      (sorted : List Lane) (r : Routes) (plan : Plan)
      → finish services contract evidence profiles policy size independent batch sorted
          (selection sorted).0
          (selection sorted).1
          r
        ≡ plan
      → plan.decision ≡ dispatched
      → (recs : List (String × Recommendation)) × (r ≡ routed recs)
  unfolding finish base_result
  finish-dispatches sorted (routed recs) plan e d = (recs, refl)
  finish-dispatches sorted (stopped s i recs) plan e d =
      absurd (cc (ap (λ (q : Plan). q.decision) e))

  selection-dispatches :
      (sorted : List Lane) (plan : Plan)
      → plan_selection services contract evidence profiles policy size independent batch sorted
        ≡ done plan
      → plan.decision ≡ dispatched
      → (recs : List (String × Recommendation)) × (recommend_lanes services contract evidence
            profiles policy size independent batch
            (selection sorted).0
            []
          ≡ done (routed recs))
        × (dispatch_plan services contract evidence profiles policy size independent batch
              (selection sorted).0
              (selection sorted).1
              recs
            ≡ plan)
  unfolding plan_selection base_result finish
  selection-dispatches sorted plan h d =
      let selected = (selection sorted).0 in
      let deferred = (selection sorted).1 in
      elim (Bool-cases (is_empty selected)) [
        | inl e ↦ absurd (not_dispatched _ plan (λ x. cc) (rw e at h) d)
        | inr e ↦ elim (Bool-cases (independent && leb (length selected) 0)) [
          | inl e' ↦ absurd (not_dispatched _ plan (λ x. cc) (rw (e, e') at h) d)
          | inr e' ↦
              let (r, run, ended) =
                bind-eq-done
                  (recommend_lanes services contract evidence profiles policy size independent batch
                    selected [])
                  _ (rw (e, e') at h) in
              let ended' : finish services contract evidence profiles policy size independent batch
                    sorted selected deferred r
                  ≡ plan =
                cc ended in
              let (recs, eq) = finish-dispatches sorted r plan ended' d in
              (recs, rw eq at run, rw eq at ended')
        ]
      ]

  no_lane-Blocks :
      Blocks (no_lane_plan services contract evidence profiles policy size independent batch)
  unfolding no_lane_plan base_result
  no_lane-Blocks x = ground arith

  unauthorized-Blocks :
      (sorted : List Lane)
      → Blocks (
          unauthorized_plan services contract evidence profiles policy size independent batch
            sorted)
  unfolding unauthorized_plan base_result
  unauthorized-Blocks sorted x = ground arith

  unavailable-Blocks :
      (sorted : List Lane) (s : RouteStatus)
      → Blocks (
          unavailable_plan services contract evidence profiles policy size independent batch sorted
            s)
  unfolding unavailable_plan base_result
  unavailable-Blocks sorted s x = ground arith

  checked-Dispatches :
      (sorted : List Lane) (plan : Plan)
      → plan_checked services contract evidence profiles policy size independent batch sorted
        ≡ done plan
      → plan.decision ≡ dispatched
      → Dispatches sorted plan
  unfolding plan_checked base_result
  checked-Dispatches sorted plan h d = elim (Bool-cases (is_small size && not independent)) [
    | inl e ↦ absurd (not_dispatched _ plan (λ x. cc) (rw e at h) d)
    | inr e1 ↦ elim (Bool-cases (is_empty sorted)) [
      | inl e ↦ absurd (not_dispatched _ plan no_lane-Blocks (rw (e1, e) at h) d)
      | inr e2 ↦ elim (Bool-cases (authorized contract.multi_agent batch)) [
        | inr e ↦
            absurd (not_dispatched _ plan (unauthorized-Blocks sorted) (rw (e1, e2, e) at h) d)
        | inl e3 ↦ elim (Option-cases (unavailable_status evidence)) [
          | inr (s, e) ↦
              absurd
                (not_dispatched _ plan (unavailable-Blocks sorted s) (rw (e1, e2, e3, e) at h) d)
          | inl e4 ↦
              let (recs, run, made) =
                selection-dispatches sorted plan (rw (e1, e2, e3, e4) at h) d in
              record { permitted = e3; available = e4; recs = recs; routes = run; made = made }
        ]
      ]
    ]
  ]

-- The result is a recommendation, not a refusal.
abbrev pub IsRecommended : Recommendation → Type 0
IsRecommended r = (m : Recommended) × (r ≡ recommend m)

not_blocked : (r : Recommendation) → is_blocked r ≡ none → IsRecommended r
unfolding is_blocked
not_blocked (recommend m) h = (m, refl)
not_blocked (invalid_input issues) h = cc
not_blocked (hard_constraint_unsatisfied score issues) h = cc

module _ (services : Services) (contract : Contract) (evidence : RuntimeEvidence)
    (profiles : List ModelProfile) (policy : RoutePolicy) (size : TaskSize) (independent : Bool)
    (batch : String) where
  routed-lanes :
      (lanes : List Lane) (recs out : List (String × Recommendation))
      → recommend_lanes services contract evidence profiles policy size independent batch lanes recs
        ≡ done (routed out)
      → All (λ r. IsRecommended r.1) recs
      → (map (λ r. r.0) out ≡ map (λ r. r.0) recs ++ lane_ids lanes)
        × All (λ r. IsRecommended r.1) out
  unfolding recommend_lanes
  routed-lanes [] recs out h k =
      let same : recs ≡ out = cc in
      (rw append-nil (ap (map (λ r. r.0)) (sym same)), subst (All (λ r. IsRecommended r.1)) same k)
  routed-lanes (l ∷ ls) recs out h k =
      let (r, e, h1) =
        bind-eq-done
          (recommend_model_route services
            (requirements_for services contract evidence profiles policy size independent batch l)
            evidence profiles policy)
          _ h in
      elim (Option-cases (is_blocked r)) [
        | inr ((status, issues), b) ↦ absurd (cc (rw b at h1))
        | inl b ↦
            let grown =
              All-append (λ (q : String × Recommendation). IsRecommended q.1) recs
                ((l.lane_id, r) ∷ []) k (not_blocked r b, tt) in
            let (names, all_ok) =
              routed-lanes ls (recs ++ (l.lane_id, r) ∷ []) out (rw b at h1) grown in
            (names ∙ simp (map-append, append_assoc), all_ok)
      ]

nil_of_empty : (xs : List Issue) → is_empty xs ≡ true → xs ≡ []
nil_of_empty [] h = refl
nil_of_empty (x ∷ xs) h = cc

-- The bounds that `desired` obeys.
caps :
    (contract : Contract) (evidence : RuntimeEvidence) (size : TaskSize)
    → (desired_count size (hard_cap contract evidence) ≤ contract.multi_agent.max_agents)
      × (desired_count size (hard_cap contract evidence) ≤ contract.max_concurrency)
      × (verified_concurrency evidence ≡ none → desired_count size (hard_cap contract evidence) ≤ 1)
      × (((n : ℕ)
            → verified_concurrency evidence ≡ some n
            → desired_count size (hard_cap contract evidence) ≤ n)
          × (is_single size ≡ true → desired_count size (hard_cap contract evidence) ≤ 1))
unfolding desired_count hard_cap
caps contract evidence size =
    (ground arith, ground arith, λ h. ground arith, (λ n h. ground arith, λ h. ground arith))

-- Without an issue of the input, the lane check reports none.
lanes_fine :
    (services : Services) (contract : Contract) (evidence : RuntimeEvidence) (lanes : Value)
    (size : TaskSize) (independent batch : Value)
    → plan_issues services contract evidence lanes size independent batch ≡ done []
    → lane_issues services contract.resources lanes ≡ done []
unfolding plan_issues
lanes_fine services contract evidence lanes size independent batch h =
    let (from_lanes, e, h1) = bind-eq-done (lane_issues services contract.resources lanes) _ h in
    let a = prefixed (key "contract" ∷ []) (services.contract_issues contract) in
    let b = prefixed (key "runtime_evidence" ∷ []) (services.evidence_issues evidence) in
    let joined : a
          ++ (b
              ++ (size_issues size
                  ++ (flag_issues independent ++ (batch_issues batch ++ from_lanes))))
        ≡ [] =
      cc h1 in
    let (n1, t1) = append-eq-nil a _ joined in
    let (n2, t2) = append-eq-nil b _ t1 in
    let (n3, t3) = append-eq-nil (size_issues size) _ t2 in
    let (n4, t4) = append-eq-nil (flag_issues independent) _ t3 in
    let (n5, t5) = append-eq-nil (batch_issues batch) from_lanes t4 in rw t5 at e

module _ (services : Services) (contract : Contract) (evidence : RuntimeEvidence)
    (profiles : List ModelProfile) (policy : RoutePolicy) (lanes : Value) (size : TaskSize)
    (independent batch : Value) (plan : Plan)
    (made : plan_route services contract evidence profiles policy lanes size independent batch
      ≡ done plan)
    (ends : plan.decision ≡ dispatched) where
  abbrev sorted : List Lane
  sorted = sort_lanes (read_lanes services lanes)

  abbrev flag : Bool
  flag = flag_of independent

  abbrev desired : ℕ
  desired = desired_count size (hard_cap contract evidence)

  abbrev chosen : List Lane × List String
  chosen = selection services contract evidence profiles policy size flag (batch_of batch) sorted

  route-Dispatches :
      Dispatches services contract evidence profiles policy size flag (batch_of batch) sorted plan
      × (lane_issues services contract.resources lanes ≡ done [])
  unfolding plan_route base_result
  route-Dispatches =
      let (issues, e, h) =
        bind-eq-done (plan_issues services contract evidence lanes size independent batch) _ made in
      elim (Bool-cases (is_empty issues)) [
        | inr x ↦ absurd (not_dispatched _ plan (λ y. cc) (rw x at h) ends)
        | inl x ↦ (
          checked-Dispatches services contract evidence profiles policy size flag (batch_of batch)
              sorted plan (rw x at h) ends,
          lanes_fine services contract evidence lanes size independent batch
              (rw (nil_of_empty issues x) at e),
        )
      ]

  -- A plan that dispatches stays within the contract's agents and concurrency, within the runtime's
  -- concurrency if the binding is verified and at one agent if it is not, and at one agent for the
  -- task sizes S0 to S2.
  pub dispatched-bounds :
      (plan.agent_count ≤ contract.multi_agent.max_agents)
      × (plan.agent_count ≤ contract.max_concurrency)
      × (verified_concurrency evidence ≡ none → plan.agent_count ≤ 1)
      × ((n : ℕ) → verified_concurrency evidence ≡ some n → plan.agent_count ≤ n)
      × (is_single size ≡ true → plan.agent_count ≤ 1)
  unfolding dispatch_plan
  dispatched-bounds =
      let count : length chosen.0 ≡ plan.agent_count =
        ap (λ (p : Plan). p.agent_count) route-Dispatches.0.made in
      let bound = select-length services.lease_conflict desired sorted [] [] (omega arith) in
      let (c1, c2, c3, c4) = caps contract evidence size in
      (
        omega (arith, count, bound, c1),
        omega (arith, count, bound, c2),
        λ h. omega (arith, count, bound, c3 h),
        λ n h. omega (arith, count, bound, c4.0 n h),
        λ h. omega (arith, count, bound, c4.1 h),
      )

  -- A plan that dispatches is for an authorised batch: the contract allows several agents, names a
  -- launch review, and approves the batch.
  pub dispatched-authorized :
      (contract.multi_agent.allowed ≡ true)
      × (contract.multi_agent.launch_review_ref ≢ none)
      × (contains (batch_of batch) contract.multi_agent.approved_batches ≡ true)
  unfolding authorized
  dispatched-authorized =
      let p = route-Dispatches.0.permitted in (ground arith, λ e. ground arith, ground arith)

  -- A plan that dispatches has an agent for each selected lane, in order: the lanes are free of
  -- lease conflicts with one another, the contract grants all their leases, and the selected and the
  -- deferred identities together are those of the declared lanes.
  pub dispatched-lanes :
      (selected : List Lane) × (plan.selected_lanes ≡ lane_ids selected)
      × (plan.dispatch
          ≡ some (record {
            batch_id = batch_of batch;
            runtime_capacity = verified_concurrency evidence;
            agents =
                map
                  (agent_of services contract evidence profiles policy size flag (batch_of batch))
                  selected;
          }))
      × IsConflictFree services.lease_conflict [] selected
      × All (IsChecked contract.resources) selected
      × Perm (plan.selected_lanes ++ plan.deferred_lanes) (lane_ids (read_lanes services lanes))
  unfolding dispatch_plan
  dispatched-lanes =
      let (d, fine) = route-Dispatches in
      let names : lane_ids chosen.0 ≡ plan.selected_lanes =
        ap (λ (p : Plan). p.selected_lanes) d.made in
      let later : chosen.1 ≡ plan.deferred_lanes = ap (λ (p : Plan). p.deferred_lanes) d.made in
      let checked = (lane_issues-IsChecked services contract.resources lanes fine).0 in
      let parts =
        Perm.trans (select-perm services.lease_conflict desired sorted [] [])
          (ids-sort (read_lanes services lanes)) in
      (
        chosen.0,
        sym names,
        sym (ap (λ (p : Plan). p.dispatch) d.made),
        select-free services.lease_conflict desired sorted [] [] tt,
        select-All services.lease_conflict (IsChecked contract.resources) desired sorted [] []
            (All-sort_lanes (IsChecked contract.resources) (read_lanes services lanes) checked) tt,
        subst₂ (λ x y. Perm (x ++ y) (lane_ids (read_lanes services lanes))) names later parts,
      )

  -- A plan that dispatches carries one model recommendation for each selected lane, in order, and
  -- none of them is BLOCKED.
  pub dispatched-routes :
      (map (λ r. r.0) plan.route_recommendations ≡ plan.selected_lanes)
      × All (λ r. IsRecommended r.1) plan.route_recommendations
  unfolding dispatch_plan
  dispatched-routes =
      let (d, fine) = route-Dispatches in
      let recs : d.recs ≡ plan.route_recommendations =
        ap (λ (p : Plan). p.route_recommendations) d.made in
      let (names, all_ok) =
        routed-lanes services contract evidence profiles policy size flag (batch_of batch) chosen.0
          [] d.recs d.routes tt in
      (
        ap (map (λ r. r.0)) (sym recs) ∙ names ∙ ap (λ (p : Plan). p.selected_lanes) d.made,
        subst (All (λ r. IsRecommended r.1)) recs all_ok,
      )
