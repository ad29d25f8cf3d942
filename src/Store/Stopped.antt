-- ===== src/Store/Stopped.antt =====
-- tools/v2_state_store.py: what cancel_task leaves.
use malts.Base.{
  ℕ, ◌≡◌, refl, sym, ◌∙◌, String, ◌==◌, true, false, not, ◌&&◌, Option, none, some, arith,
}
use malts.Base.{List, [], All, keep, eqb, leb, false≢true}
use malts.Base.Outcome.{done, present, require, bind-eq-done, then-eq-done, state-eq}
use mathlib.Core.Path.{subst}
use malts.Store.{
  Store, Services, TaskStatus, OperationState, Task, Grant, Operation, Run, Receipt, state_conflict,
  value_error,
}
use malts.Store.Query.{All-updated, keep-update}
use malts.Store.Rows.{
  require_text, task_of, receipt_row, is_pending, is_prepared, is_active_run, set_status, add_audit,
  cancel_operations, revoke_grants, set_runs,
}
use malts.Store.Committed.{transaction-eq-done}
use malts.Store.Cancel.{
  Cancellation, Cancelled, cancelled, cancel_task, cancel_in, cancel_known, cancel_new,
  cancel_replay, cancellation_hash, record_cancellation, stop_task, stopped_run, add_receipt,
  pending_ids, is_task_completed,
}

abbrev CancelledTask : String → Task → Type 0
CancelledTask id t = (t.task_id == id) ≡ true → t.status ≡ TaskStatus.cancelled

abbrev RevokedGrant : String → Grant → Type 0
RevokedGrant id g = (g.task_id == id) ≡ true → g.revoked ≡ true

abbrev UnpreparedOperation : String → Operation → Type 0
UnpreparedOperation id o = (o.task_id == id) ≡ true → is_prepared o.state ≡ false

abbrev InactiveRun : String → Run → Type 0
InactiveRun id x = (x.task_id == id) ≡ true → is_active_run x.state ≡ false

-- The rows of the task's operations with a committed effect that is not settled.
abbrev pending_operations : String → Store → List Operation
pending_operations id s = keep (λ o. o.task_id == id && is_pending o.state) s.operations

-- The task has stopped: what is left of it can not start an effect, and the effects that were
-- committed stay in sight.
pub record IsStopped (id : String) (s s' : Store) : Type 0 where
  pub status : All (CancelledTask id) s'.tasks
  pub grants : All (RevokedGrant id) s'.grants
  pub operations : All (UnpreparedOperation id) s'.operations
  pub runs : pending_ids id s ≡ [] → All (InactiveRun id) s'.runs
  pub pending : pending_operations id s' ≡ pending_operations id s

stop_task-IsStopped :
    (r : Cancellation) (hash : String) (s : Store)
    → IsStopped r.task_id s (
        record_cancellation r hash
          (pending_ids r.task_id s)
          (stop_task r.task_id (pending_ids r.task_id s) s))
unfolding record_cancellation stop_task set_runs cancel_operations revoke_grants set_status
    add_receipt add_audit pending_ids stopped_run is_active_run is_prepared is_pending
stop_task-IsStopped r hash s = record {
  status =
      All-updated (CancelledTask r.task_id) (λ t. t.task_id == r.task_id)
        (λ t. record t { status = TaskStatus.cancelled }) s.tasks (λ t e f. refl)
        (λ t e f. absurd (false≢true (sym e ∙ f)));
  grants =
      All-updated (RevokedGrant r.task_id) (λ g. g.task_id == r.task_id)
        (λ g. record g { revoked = true }) s.grants (λ t e f. refl)
        (λ t e f. absurd (false≢true (sym e ∙ f)));
  operations =
      All-updated (UnpreparedOperation r.task_id)
        (λ o. o.task_id == r.task_id && is_prepared o.state)
        (λ o. record o { state = OperationState.cancelled }) s.operations (λ o e f. refl)
        (λ o e f. ground arith);
  runs = λ none_pending.
      All-updated (InactiveRun r.task_id) (λ x. x.task_id == r.task_id && is_active_run x.state)
        (λ x. record x { state = stopped_run (pending_ids r.task_id s) }) s.runs
        (λ x e f. rw none_pending refl) (λ x e f. ground arith);
  pending =
      keep-update (λ (o : Operation). o.task_id == r.task_id && is_pending o.state)
        (λ o. o.task_id == r.task_id && is_prepared o.state)
        (λ o. record o { state = OperationState.cancelled }) s.operations
        (λ o e. (ground arith, ground arith));
}

pub cancel_new-eq :
    (r : Cancellation) (hash : String) (s s' : Store) (x : Cancelled)
    → cancel_new r hash s ≡ done (x, s')
    → record_cancellation r hash
        (pending_ids r.task_id s)
        (stop_task r.task_id (pending_ids r.task_id s) s)
      ≡ s'
unfolding cancel_new
cancel_new-eq r hash s s' x h =
    let (found, _, h1) = bind-eq-done (present (task_of r.task_id s) state_conflict) _ h in
    let h2 = then-eq-done (require (eqb found.0.revision r.expected_revision) state_conflict) h1 in
    state-eq (then-eq-done (require (not (is_task_completed found.0.status)) state_conflict) h2)

pub cancel_task-inside :
    (services : Services) (r : Cancellation) (s s' : Store) (x : Cancelled)
    → cancel_task services r s ≡ done (x, s')
    → cancel_in services r s ≡ done (x, s')
unfolding cancel_task
cancel_task-inside services r s s' x h =
    let h1 = then-eq-done (require_text r.task_id) h in
    let h2 = then-eq-done (require_text r.request_id) h1 in
    let h3 = then-eq-done (require_text r.authority_ref) h2 in
    let h4 = then-eq-done (require_text r.reason) h3 in
    let h5 = then-eq-done (require (leb 1 r.expected_revision) value_error) h4 in
    (transaction-eq-done services (cancel_in services r) s h5).1

cancel_known-eq :
    (r : Cancellation) (hash : String) (prior : Option Receipt) (s s' : Store) (n : ℕ)
    (ids : List String)
    → cancel_known r hash prior s ≡ done (cancelled n ids, s')
    → cancel_new r hash s ≡ done (cancelled n ids, s')
unfolding cancel_known cancel_replay
cancel_known-eq r hash none s s' n ids h = h
cancel_known-eq r hash (some prior) s s' n ids h =
    let same = then-eq-done (require (prior.request_hash == hash) state_conflict) h in cc

pub cancel_task-new :
    (services : Services) (r : Cancellation) (s s' : Store) (n : ℕ) (ids : List String)
    → cancel_task services r s ≡ done (cancelled n ids, s')
    → cancel_new r (cancellation_hash services r) s ≡ done (cancelled n ids, s')
unfolding cancel_in
cancel_task-new services r s s' n ids h =
    cancel_known-eq r (cancellation_hash services r) (receipt_row r.request_id s) s s' n ids
      (cancel_task-inside services r s s' (cancelled n ids) h)

-- A cancel_task that is no repetition leaves the task cancelled, all its grants revoked, none of its
-- operations prepared, and none of its runs active if it had no committed effect that is not
-- settled; the rows of the operations with such an effect stay as they were, their states included.
pub cancel_task-IsStopped :
    (services : Services) (r : Cancellation) (s s' : Store) (n : ℕ) (ids : List String)
    → cancel_task services r s ≡ done (cancelled n ids, s')
    → IsStopped r.task_id s s'
cancel_task-IsStopped services r s s' n ids h =
    let hash = cancellation_hash services r in
    subst (λ t. IsStopped r.task_id s t)
      (cancel_new-eq r hash s s' (cancelled n ids) (cancel_task-new services r s s' n ids h))
      (stop_task-IsStopped r hash s)
