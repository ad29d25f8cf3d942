-- ===== src/Store/Replays.antt =====
-- tools/v2_state_store.py: a repeated cancel_task.
use malts.Base.{ℕ, ◌≡◌, refl, sym, ap, ◌∙◌, String, false, not, some}
use malts.Base.{List, eqb, leb, eq_refl}
use malts.Base.Outcome.{done, present, require, bind-eq-done, then-eq-done}
use mathlib.Core.Path.{subst}
use malts.Store.{Store, Services, state_conflict, value_error, transaction}
use malts.Store.Rows.{
  require_text, task_of, receipt_row, set_status, add_audit, cancel_operations, revoke_grants,
  set_runs,
}
use malts.Store.Committed.{transaction-eq-done, transaction-runs}
use malts.Store.Cancel.{
  Cancellation, Cancelled, cancelled, cancel_replayed, cancel_task, cancel_in, cancel_known,
  cancel_new, cancel_replay, cancellation_hash, record_cancellation, stop_task, add_receipt,
  pending_ids, is_task_completed,
}
use malts.Store.Stopped.{cancel_new-eq, cancel_task-new}

-- The texts of a request that was admitted are admitted again.
cancel_task-admitted :
    (services : Services) (r : Cancellation) (s : Store) {y : Cancelled × Store}
    → cancel_task services r s ≡ done y
    → (t : Store) → cancel_task services r t ≡ transaction services (cancel_in services r) t
unfolding cancel_task
cancel_task-admitted services r s h t =
    let (_, e1, h1) = bind-eq-done (require_text r.task_id) _ h in
    let (_, e2, h2) = bind-eq-done (require_text r.request_id) _ h1 in
    let (_, e3, h3) = bind-eq-done (require_text r.authority_ref) _ h2 in
    let (_, e4, h4) = bind-eq-done (require_text r.reason) _ h3 in
    let (_, e5, h5) = bind-eq-done (require (leb 1 r.expected_revision) value_error) _ h4 in
    rw (e1, e2, e3, e4, e5) refl

abbrev after : Cancellation → String → Store → Store
after r hash s =
    record_cancellation r hash (pending_ids r.task_id s)
      (stop_task r.task_id (pending_ids r.task_id s) s)

receipt_row-after :
    (r : Cancellation) (hash : String) (s : Store)
    → receipt_row r.request_id (after r hash s)
      ≡ some (record {
        request_id = r.request_id;
        request_hash = hash;
        task_id = r.task_id;
        revision = r.expected_revision;
      })
unfolding record_cancellation add_receipt add_audit
receipt_row-after r hash s = rw (eq_refl r.request_id) refl

readonly-after :
    (r : Cancellation) (hash : String) (s : Store) → (after r hash s).readonly ≡ s.readonly
unfolding record_cancellation add_receipt add_audit stop_task set_runs cancel_operations
    revoke_grants set_status
readonly-after r hash s = refl

cancel_in-after :
    (services : Services) (r : Cancellation) (s : Store)
    → cancel_in services r (after r (cancellation_hash services r) s)
      ≡ done (cancel_replayed r.expected_revision, after r (cancellation_hash services r) s)
unfolding cancel_in cancel_known cancel_replay
cancel_in-after services r s =
    let hash = cancellation_hash services r in
    ap (λ o. cancel_known r hash o (after r hash s)) (receipt_row-after r hash s)
    ∙ rw (eq_refl hash) refl

cancel_new-revision :
    (r : Cancellation) (hash : String) (s s' : Store) (n : ℕ) (ids : List String)
    → cancel_new r hash s ≡ done (cancelled n ids, s')
    → r.expected_revision ≡ n
unfolding cancel_new
cancel_new-revision r hash s s' n ids h =
    let (found, _, h1) = bind-eq-done (present (task_of r.task_id s) state_conflict) _ h in
    let h2 = then-eq-done (require (eqb found.0.revision r.expected_revision) state_conflict) h1 in
    let h3 = then-eq-done (require (not (is_task_completed found.0.status)) state_conflict) h2 in cc

cancel_task-writable :
    (services : Services) (r : Cancellation) (s : Store) {y : Cancelled × Store}
    → cancel_task services r s ≡ done y
    → s.readonly ≡ false
cancel_task-writable services r s h =
    (transaction-eq-done services (cancel_in services r) s
      (sym (cancel_task-admitted services r s h s) ∙ h)).0

-- A cancel_task that is sent again returns the accepted revision and changes nothing, if the
-- database still admits transactions.
pub cancel_task-replays :
    (services : Services) (r : Cancellation) (s s' : Store) (n : ℕ) (ids : List String)
    → cancel_task services r s ≡ done (cancelled n ids, s')
    → services.authority_ready s' ≡ done tt
    → services.transaction_guard s' ≡ done tt
    → cancel_task services r s' ≡ done (cancel_replayed n, s')
cancel_task-replays services r s s' n ids h ready guarded =
    let hash = cancellation_hash services r in
    let new = cancel_task-new services r s s' n ids h in
    let same : after r hash s ≡ s' = cancel_new-eq r hash s s' (cancelled n ids) new in
    let writable : s'.readonly ≡ false =
      sym (ap (λ (t : Store). t.readonly) same)
      ∙ (readonly-after r hash s ∙ cancel_task-writable services r s h) in
    cancel_task-admitted services r s h s'
    ∙ (transaction-runs services (cancel_in services r) s' writable ready guarded
        ∙ subst (λ m. cancel_in services r s' ≡ done (cancel_replayed m, s'))
            (cancel_new-revision r hash s s' n ids new)
            (subst (λ t. cancel_in services r t ≡ done (cancel_replayed r.expected_revision, t))
              same (cancel_in-after services r s)))
