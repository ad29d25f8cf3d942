-- ===== src/Operations/Issued.antt =====
-- tools/v2_operations.py: what a record_intent that permits the effect has seen to.
use malts.Base.{
  ℕ, suc, ◌≤◌, ◌<◌, ◌+◌, ◌≡◌, refl, ap, ◌∙◌, String, ◌==◌, Bool, true, false, not, ◌&&◌, Option,
  some, arith,
}
use Prim.Native.Nat.{◌*◌}
use malts.Base.{
  All, any, if◌then◌else◌, Bool-cases, inl, inr, ltb, not-eq-true, any-eq-false, All-map,
}
use malts.Base.Outcome.{
  done, present, require, bind-eq-done, then-eq-done, present-eq-done, require-eq-done, state-eq,
  done-eq,
}
use mathlib.Core.Path.{subst}
use malts.Store.{
  Store, Services, Returns, Task, OperationState, Operation, Grant, Budget, Audit, Resolved,
  state_conflict, operation_conflict, access_denied,
}
use malts.Store.Query.{update, any-image, count_ext}
use malts.Store.Rows.{
  operation_row, grant_row, task_row, is_prepared, is_pending, is_unknown, add_audit, set_status,
  set_operation_state,
}
use malts.Store.Committed.{transaction-eq-done}
use malts.Operations.Grants.{execution_grant, held_grant, check_execution}
use malts.Operations.Budgets.{
  consumed, of_grant, of_task, of_project, budget_row, limit_of, require_limit,
  require_project_limit, require_operation_budget,
}
use malts.Operations.Lifecycle.{
  Intent, execute_once, no_execution, intent_new, commit_intent, add_lease, other_pending,
  is_unchanged, is_held, holds_conflict, held_by, resources_conflict, Held, hash_agrees,
}
use malts.Operations.Leases.{IntentRequest, record_intent, intent_in, require_seconds}

count_suc : (b : Bool) (m n : ℕ) → m ≡ n → (if b then suc m else m) ≤ suc n
count_suc true m n e = omega arith
count_suc false m n e = omega arith

-- A commit adds one intent at most to those that a test of operations counts.
consumed-commit :
    (p' p : Operation → Bool) (o : Operation) (actor : String) (expires : ℕ) (s : Store)
    → ((x : Operation) → p' x ≡ p x)
    → ((x : Operation) (st : OperationState) → p (record x { state = st }) ≡ p x)
    → consumed p' (commit_intent o actor expires s) ≤ suc (consumed p s)
unfolding consumed commit_intent add_lease add_audit set_status set_operation_state
consumed-commit p' p o actor expires s h k =
    let rows =
      update (λ (x : Operation). x.operation_id == o.operation_id)
        (λ x. record x { state = OperationState.intent_recorded }) s.operations in
    let one : (id : String)
        → any (λ (x : Operation). x.operation_id == id && p' x) rows
          ≡ any (λ (x : Operation). x.operation_id == id && p x) s.operations =
      λ id.
        any-image (λ (x : Operation). x.operation_id == id && p' x)
          (λ (x : Operation). x.operation_id == id && p x) _ _ s.operations
          (λ x. ap (λ b. x.operation_id == id && b) (h _ ∙ k x OperationState.intent_recorded))
          (λ x. ap (λ b. x.operation_id == id && b) (h x)) in
    let same =
      count_ext
        (λ (a : Audit).
          a.kind == "INTENT_RECORDED"
          && any (λ (x : Operation). x.operation_id == a.subject_id && p' x) rows)
        (λ (a : Audit).
          a.kind == "INTENT_RECORDED"
          && any (λ (x : Operation). x.operation_id == a.subject_id && p x) s.operations)
        s.audits (λ a. ap (λ b. a.kind == "INTENT_RECORDED" && b) (one a.subject_id)) in
    count_suc (any (λ (x : Operation). x.operation_id == o.operation_id && p' x) rows) _ _ same

limit-lt :
    (scope : String) (m used : ℕ) {u : Unit {0}}
    → require_limit scope (some m) used ≡ done u
    → used < m
unfolding require_limit
limit-lt scope m used h = let e : ltb used m ≡ true = require-eq-done _ _ h in ground arith

-- What an intent that is recorded for a grant leaves of the budgets.
pub record IsWithin (g : Grant) (s s' : Store) : Type 0 where
  pub grant : (m : ℕ) → g.max_operations ≡ some m → consumed (of_grant g.grant_id) s' ≤ m
  pub task :
      (b : Budget)
      → budget_row g.task_id s.task_budgets ≡ some b
      → consumed (of_task g.task_id) s' ≤ b.max_operations
  pub project :
      (t : Task) (b : Budget)
      → task_row g.task_id s ≡ some t
      → budget_row t.project_id s.project_budgets ≡ some b
      → consumed (of_project s' t.project_id) s' ≤ b.max_operations

project-commit :
    (o : Operation) (actor : String) (expires : ℕ) (s : Store) (id : String) (x : Operation)
    → of_project (commit_intent o actor expires s) id x ≡ of_project s id x
unfolding commit_intent add_lease add_audit set_status set_operation_state
project-commit o actor expires s id x =
    any-image (λ (t : Task). t.task_id == x.task_id && t.project_id == id)
      (λ (t : Task). t.task_id == x.task_id && t.project_id == id) _ _ s.tasks (λ t. refl)
      (λ t. refl)

commit-IsWithin :
    (g : Grant) (o : Operation) (actor : String) (expires : ℕ) (s : Store)
    → require_operation_budget g s ≡ done tt
    → IsWithin g s (commit_intent o actor expires s)
unfolding require_operation_budget require_project_limit
commit-IsWithin g o actor expires s h =
    let (_, e1, h1) =
      bind-eq-done (require_limit "grant" g.max_operations (consumed (of_grant g.grant_id) s)) _
        h in
    let (_, e2, h2) =
      bind-eq-done
        (require_limit "task" (limit_of (budget_row g.task_id s.task_budgets))
          (consumed (of_task g.task_id) s))
        _ h1 in
    record {
      grant = λ m e.
          let lt = limit-lt "grant" m (consumed (of_grant g.grant_id) s) (rw e at e1) in
          omega (
            arith,
            consumed-commit (of_grant g.grant_id) (of_grant g.grant_id) o actor expires s
                (λ x. refl) (λ x st. refl),
          );
      task = λ b e.
          let lt = limit-lt "task" b.max_operations (consumed (of_task g.task_id) s) (rw e at e2) in
          omega (
            arith,
            consumed-commit (of_task g.task_id) (of_task g.task_id) o actor expires s (λ x. refl)
                (λ x st. refl),
          );
      project = λ t b e f.
          let lt =
            limit-lt "project" b.max_operations (consumed (of_project s t.project_id) s)
              (rw (e, f, require_project_limit) at h2) in
          omega (
            arith,
            consumed-commit (of_project (commit_intent o actor expires s) t.project_id)
                (of_project s t.project_id) o actor expires s
                (project-commit o actor expires s t.project_id) (λ x st. refl),
          );
    }

-- No operation with a committed effect that is not settled holds what conflicts with the resource.
abbrev Free : Services → String → Held → Store → Operation → Type 0
Free services id wanted s x =
    (x.operation_id == id) ≡ false
    → is_pending x.state ≡ true
    → (h : Held) → held_by x s ≡ some h
    → resources_conflict services wanted h ≡ false

-- The state of the store in which the intent of an operation is recorded, and what is written.
pub record IsIssued (services : Services) (id : String) (s s' : Store) : Type 0 where
  pub operation : Operation
  pub grant : Grant
  pub found : operation_row id s ≡ some operation
  pub prepared : is_prepared operation.state ≡ true
  pub granted : grant_row operation.grant_id s ≡ some grant
  pub within : IsWithin grant s s'
  pub resolved : Option Resolved
  pub resource :
      services.physical_resource operation.task_id grant.resource grant.effect s ≡ done resolved
  pub free :
      All
        (Free services operation.operation_id
          (record { resource = grant.resource; effect = grant.effect; resolved = resolved })
          s)
        s.operations

Free-is_held :
    (services : Services) (id : String) (wanted : Held) (s : Store)
    → is_held services id wanted s ≡ false
    → All (Free services id wanted s) s.operations
unfolding is_held holds_conflict
Free-is_held services id wanted s h =
    All-map _ (Free services id wanted s) s.operations
      (λ x e other pending held there. one x e other pending held there)
      (any-eq-false _ s.operations h)
  where
    one :
        (x : Operation)
        → (not (x.operation_id == id) && is_pending x.state && holds_conflict services wanted x s)
          ≡ false
        → Free services id wanted s x
    one x e other pending held there =
        let off : holds_conflict services wanted x s ≡ false = ground arith in
        rw (there, holds_conflict) at off

granted_row :
    (services : Services) (now : ℕ) (id actor : String) (recovery : Bool) (s : Store) (g : Grant)
    → execution_grant services now id actor recovery s ≡ done g
    → grant_row id s ≡ some g
unfolding execution_grant held_grant
granted_row services now id actor recovery s g h =
    let (held, k, h1) = bind-eq-done (held_grant id actor s) _ h in
    let same : held ≡ g =
      done-eq (then-eq-done (check_execution services now held recovery false s) h1) in
    let (row, there, k1) =
      bind-eq-done (present (grant_row id s) (access_denied "GRANT_NOT_APPLICABLE")) _ k in
    let (_, _, k2) =
      bind-eq-done (require (row.actor == actor) (access_denied "GRANT_NOT_APPLICABLE")) _ k1 in
    present-eq-done _ _ there ∙ ap (λ x. some x) (done-eq k2 ∙ same)

intent_new-IsIssued :
    (services : Services) (o : Operation) (g : Grant) (id actor : String) (expires : ℕ)
    (s s' : Store) (x : Intent)
    → operation_row id s ≡ some o
    → is_prepared o.state ≡ true
    → grant_row o.grant_id s ≡ some g
    → intent_new services o g actor expires s ≡ done (x, s')
    → IsIssued services id s s'
unfolding intent_new
intent_new-IsIssued services o g id actor expires s s' x found ready granted h =
    let h1 = then-eq-done (services.trial_ready o.operation_id s) h in
    let h2 = then-eq-done (services.export_ready o.operation_id actor s) h1 in
    let (_, paid, h3) = bind-eq-done (require_operation_budget g s) _ h2 in
    let h4 =
      then-eq-done (require (not (other_pending o s)) (operation_conflict "PENDING_EFFECT")) h3 in
    let (resolved, r, h5) =
      bind-eq-done (services.physical_resource o.task_id g.resource g.effect s) _ h4 in
    let h6 =
      then-eq-done
        (require (is_unchanged o.resource resolved)
          (operation_conflict "RESOURCE_IDENTITY_CHANGED"))
        h5 in
    let wanted : Held = record { resource = g.resource; effect = g.effect; resolved = resolved } in
    let (_, clear, h7) =
      bind-eq-done
        (require (not (is_held services o.operation_id wanted s))
          (operation_conflict "RESOURCE_HELD"))
        _ h6 in
    record {
      operation = o;
      grant = g;
      found = found;
      prepared = ready;
      granted = granted;
      within = subst (λ t. IsWithin g s t) (state-eq h7) (commit-IsWithin g o actor expires s paid);
      resolved = resolved;
      resource = r;
      free =
          Free-is_held services o.operation_id wanted s (not-eq-true _ (require-eq-done _ _ clear));
    }

-- A record_intent that permits the effect is for a prepared operation whose grant is there: no
-- operation with a committed and unsettled effect holds what conflicts with its resource, and after it
-- the intents of the grant, of the task and of the project are within the limits that are set.
pub record_intent-IsIssued :
    (services : Services) (now second : ℕ) (r : IntentRequest) (s s' : Store) (hash epoch : String)
    (fence expires : ℕ)
    → record_intent services now second r s ≡ done (execute_once hash epoch fence expires, s')
    → IsIssued services r.operation_id s s'
unfolding record_intent intent_in
record_intent-IsIssued services now second r s s' hash epoch fence expires h =
    let h1 = then-eq-done (require_seconds r.lease_seconds) h in
    let (_, h2) = transaction-eq-done services (intent_in services now second r) s h1 in
    let (o, p, h3) = bind-eq-done (present (operation_row r.operation_id s) state_conflict) _ h2 in
    let (g, k, h4) =
      bind-eq-done (execution_grant services now o.grant_id r.actor (is_unknown o.state) s) _ h3 in
    let h5 =
      then-eq-done
        (require (hash_agrees r.expected_request_hash o.request_hash)
          (operation_conflict "OPERATION_REQUEST_MISMATCH"))
        h4 in
    elim (Bool-cases (is_prepared o.state)) [
      | inl e ↦
          intent_new-IsIssued services o g r.operation_id r.actor (now + r.lease_seconds * second) s
            s' _ (present-eq-done _ _ p) e
            (granted_row services now o.grant_id r.actor (is_unknown o.state) s g k) (rw e at h5)
      | inr e ↦ absurd (no_execution-ne (rw e at h5))
    ]
  where
    no_execution-ne :
        {st : OperationState} {t : Store}
        → ◌≡◌ {A = Returns (Intent × Store)}
            (done (no_execution st, t))
            (done (execute_once hash epoch fence expires, s'))
        → ⊥
    no_execution-ne q = cc
