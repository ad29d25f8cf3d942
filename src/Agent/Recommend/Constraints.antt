-- ===== src/Agent/Recommend/Constraints.antt =====
-- Hard constraints are kept or refused, never replaced.
use malts.Base.{ℕ, String, eq_iff, Bool, true, false, not, ◌&&◌, ◌||◌, ◌≡◌, refl, sym, ap, ◌∙◌}
use malts.Base.{Option, none, some, List, [], ◌∷◌, ◌++◌, arith, is_empty, append-eq-nil, eqb}
use malts.Base.{Option-cases, eqb→eq, if◌then◌else◌, Bool-cases, inl, inr, ◌⊎◌, false≢true}
use mathlib.Core.Path.{subst}
use malts.Base.Outcome.{done}
use malts.Agent.Contract.{
  Issue, is_hard, Effort, no_effort, minimal, low_effort, medium_effort, high_effort, xhigh,
  max_effort, ultra, unknown_effort, Outcomes, effective, RequestedRoute, TaskRequirements,
  RoutePolicy, RouteSpec, ModelProfile, RuntimeEvidence, Services, effort_index, Segment,
}
use malts.Agent.Score.{route_class}
use malts.Agent.Profiles.{effort_eq}
use malts.Agent.Recommend.{
  Recommended, recommend, justifies_max, choose_effort, asked_effort, text_eq, opt_effort_eq,
  constraint_issues, unavailable_issues, issue_if, model_replaced, effort_replaced,
  configured_model_differs, configured_effort_differs, effective_model_differs,
  effective_effort_differs, recommend_on, recommended, hard_issues, final_effort, is_effective,
  recommend_model_route, route_by_name,
}

effort_at : ℕ → Effort
effort_at i =
    if eqb i 0
    then no_effort
    else if eqb i 1
    then minimal
    else if eqb i 2
    then low_effort
    else if eqb i 3
    then medium_effort
    else if eqb i 4
    then high_effort
    else if eqb i 5
    then xhigh
    else if eqb i 6
    then max_effort
    else if eqb i 7
    then ultra
    else unknown_effort

effort_at-index : (e : Effort) → effort_at (effort_index e) ≡ e
unfolding effort_at effort_index
effort_at-index no_effort = refl
effort_at-index _ = refl

effort_eq→eq : (a b : Effort) → effort_eq a b ≡ true → a ≡ b
unfolding effort_eq
effort_eq→eq a b h =
    sym (effort_at-index a)
    ∙ ap effort_at (eqb→eq (effort_index a) (effort_index b) h)
    ∙ effort_at-index b

text_eq→eq : (a b : Option String) → text_eq a b ≡ true → a ≡ b
unfolding text_eq
text_eq→eq none none h = refl
text_eq→eq (some a) (some b) h = ap some ((eq_iff a b).0 h)
text_eq→eq none (some b) h = absurd (false≢true h)
text_eq→eq (some a) none h = absurd (false≢true h)

opt_effort_eq→eq : (a b : Option Effort) → opt_effort_eq a b ≡ true → a ≡ b
unfolding opt_effort_eq
opt_effort_eq→eq none none h = refl
opt_effort_eq→eq (some a) (some b) h = ap some (effort_eq→eq a b h)
opt_effort_eq→eq none (some b) h = absurd (false≢true h)
opt_effort_eq→eq (some a) none h = absurd (false≢true h)

nil_of_empty : (xs : List Issue) → is_empty xs ≡ true → xs ≡ []
nil_of_empty [] h = refl
nil_of_empty (x ∷ xs) h = cc

no_issue :
    (b : Bool) (code : String) (path : List Segment) (rest : List Issue)
    → issue_if b code path ++ rest ≡ []
    → (b ≡ false) × (rest ≡ [])
no_issue true code path rest h = cc
no_issue false code path rest h = (refl, h)

-- The evidence does not contradict a hard request: what is configured, if anything, and what is in
-- effect, if it is known, are what was requested.
pub record IsKept (r : RequestedRoute) (m : Option String) (e : Effort) (evidence : RuntimeEvidence)
    : Type 0 where
  pub model : is_hard r.model_constraint ≡ true → r.model_id ≡ m
  pub effort : is_hard r.effort_constraint ≡ true → r.reasoning_effort ≡ some e
  pub configured_model :
      is_hard r.model_constraint ≡ true
      → (evidence.configured.model_id ≡ none) ⊎ (evidence.configured.model_id ≡ r.model_id)
  pub configured_effort :
      is_hard r.effort_constraint ≡ true
      → (evidence.configured.reasoning_effort ≡ none)
        ⊎ (evidence.configured.reasoning_effort ≡ r.reasoning_effort)
  pub effective_model :
      evidence.effective_selection.outcome ≡ effective
      → is_hard r.model_constraint ≡ true
      → evidence.effective_selection.model_id ≡ r.model_id
  pub effective_effort :
      evidence.effective_selection.outcome ≡ effective
      → is_hard r.effort_constraint ≡ true
      → evidence.effective_selection.reasoning_effort ≡ r.reasoning_effort

kept_if : (h x : Bool) → (h && not x) ≡ false → h ≡ true → x ≡ true
kept_if h x e k = ground arith

or-cases : (x y : Bool) → (x || y) ≡ true → (x ≡ true) ⊎ (y ≡ true)
or-cases x y h = ground arith

is_effective-eq : (o : Outcomes) → o ≡ effective → is_effective o ≡ true
unfolding is_effective
is_effective-eq o h = rw h

both_hold : (o h x : Bool) → (o && h && not x) ≡ false → o ≡ true → h ≡ true → x ≡ true
both_hold o h x e k l = ground arith

no_issues-IsKept :
    (r : RequestedRoute) (model : Option String) (e : Effort) (evidence : RuntimeEvidence)
    → constraint_issues r model e evidence ≡ []
    → IsKept r model e evidence
unfolding constraint_issues
no_issues-IsKept r model e evidence h =
    let (h1, t1) = no_issue (model_replaced r model e evidence) _ _ _ h in
    let (h2, t2) = no_issue (effort_replaced r model e evidence) _ _ _ t1 in
    let (h3, t3) = no_issue (configured_model_differs r model e evidence) _ _ _ t2 in
    let (h4, t4) = no_issue (configured_effort_differs r model e evidence) _ _ _ t3 in
    let (h5, t5) = no_issue (effective_model_differs r model e evidence) _ _ _ t4 in
    let (h6, t6) = no_issue (effective_effort_differs r model e evidence) _ _ _ t5 in
    let configured = evidence.configured in
    let selection = evidence.effective_selection in
    record {
      model = λ k. text_eq→eq r.model_id model (kept_if _ _ h1 k);
      effort = λ k. opt_effort_eq→eq r.reasoning_effort (some e) (kept_if _ _ h2 k);
      configured_model = λ k. elim (or-cases _ _ (kept_if _ _ h3 k)) [
        | inl a ↦ inl (text_eq→eq configured.model_id none a)
        | inr b ↦ inr (text_eq→eq configured.model_id r.model_id b)
      ];
      configured_effort = λ k. elim (or-cases _ _ (kept_if _ _ h4 k)) [
        | inl a ↦ inl (opt_effort_eq→eq configured.reasoning_effort none a)
        | inr b ↦ inr (opt_effort_eq→eq configured.reasoning_effort r.reasoning_effort b)
      ];
      effective_model = λ o k.
          text_eq→eq selection.model_id r.model_id
            (both_hold _ _ _ h5 (is_effective-eq selection.outcome o) k);
      effective_effort = λ o k.
          opt_effort_eq→eq selection.reasoning_effort r.reasoning_effort
            (both_hold _ _ _ h6 (is_effective-eq selection.outcome o) k);
    }

module _ (t : TaskRequirements) (evidence : RuntimeEvidence) (profiles : List ModelProfile)
    (policy : RoutePolicy) (route : RouteSpec) where
  pub recommend_on-IsKept :
      (r : Recommended)
      → recommend_on t evidence profiles policy route ≡ recommend r
      → (recommended t evidence profiles policy route ≡ r)
        × IsKept t.requested_route r.model_id r.reasoning_effort evidence
  unfolding recommend_on hard_issues recommended
  recommend_on-IsKept r h =
      let issues = hard_issues t evidence profiles policy route in
      elim (Bool-cases (is_empty issues)) [
        | inr e ↦ absurd (cc (rw e at h))
        | inl e ↦
            let same : recommended t evidence profiles policy route ≡ r = cc (rw e at h) in
            let unavailable =
              unavailable_issues profiles t (final_effort t evidence profiles policy route) in
            let kept =
              no_issues-IsKept t.requested_route _ _ evidence
                (append-eq-nil unavailable _ (nil_of_empty issues e)).1 in
            (
              same,
              subst
                  (λ (q : Recommended).
                    IsKept t.requested_route q.model_id q.reasoning_effort evidence)
                  same kept,
            )
      ]

choose_effort-max :
    (policy : RoutePolicy) (t : TaskRequirements) (route : RouteSpec)
    → (choose_effort policy t route).0 ≡ max_effort
    → (is_hard t.requested_route.effort_constraint ≡ true)
      ⊎ (justifies_max policy t.workload_class ≡ true)
unfolding choose_effort
choose_effort-max policy t route e =
    let asked = asked_effort t.requested_route route in
    elim (Bool-cases (is_hard t.requested_route.effort_constraint)) [
      | inl h ↦ inl h
      | inr n ↦ elim (Bool-cases (justifies_max policy t.workload_class)) [
        | inl h ↦ inr h
        | inr m ↦ elim (Bool-cases (effort_eq asked max_effort)) [
          | inl s ↦ absurd (cc (rw (s, n, m) at e))
          | inr s ↦ absurd (cc (rw (rw s at e) at s))
        ]
      ]
    ]

module _ (services : Services) (t : TaskRequirements) (evidence : RuntimeEvidence)
    (profiles : List ModelProfile) (policy : RoutePolicy) (r : Recommended)
    (made : recommend_model_route services t evidence profiles policy ≡ done (recommend r)) where
  pub made_on :
      (route : RouteSpec) × (route_by_name (route_class policy t) policy.route_classes ≡ some route)
      × (recommend_on t evidence profiles policy route ≡ recommend r)
  unfolding recommend_model_route
  made_on = elim (Option-cases (route_by_name (route_class policy t) policy.route_classes)) [
    | inl e ↦ absurd (ground arith)
    | inr (route, e) ↦ (route, e, ground arith)
  ]

  -- A recommendation keeps every hard constraint: a hard model is the recommended model, a hard
  -- effort is the recommended effort, and the configured and the known effective selection do not
  -- contradict them.
  pub recommend-IsKept : IsKept t.requested_route r.model_id r.reasoning_effort evidence
  recommend-IsKept =
      let (route, found, e) = made_on in
      (recommend_on-IsKept t evidence profiles policy route r e).1

  -- The effort max is recommended only as a hard request of the task, or where the policy permits
  -- it for the task's workload.
  pub recommend-max :
      r.reasoning_effort ≡ max_effort
      → (is_hard t.requested_route.effort_constraint ≡ true)
        ⊎ (justifies_max policy t.workload_class ≡ true)
  unfolding recommended
  recommend-max h =
      let (route, found, e) = made_on in
      let same = (recommend_on-IsKept t evidence profiles policy route r e).0 in
      choose_effort-max policy t route (ap (λ (q : Recommended). q.reasoning_effort) same ∙ h)
