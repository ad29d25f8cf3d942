-- ===== src/Operations/Steps.antt =====
-- tools/v2_operations.py: the calls that prepare, commit, renew, cancel and observe an operation,
-- each as a change of the operations and the committed intents.
use malts.Base.{ℕ, ◌+◌, ◌≡◌, refl, sym, ap, ◌∙◌, String, ◌==◌, true, false, not, none, some}
use Prim.Native.Nat.{◌*◌}
use malts.Base.{◌∷◌, Bool-cases, Option-cases, inl, inr, eq_iff, leb, max, not-eq-true, text_append}
use malts.Base.Outcome.{
  done, present, require, bind-eq-done, then-eq-done, present-eq-done, require-eq-done, state-eq,
}
use malts.Store.{
  Store, OperationState, Services, Operation, Grant, state_conflict, operation_conflict,
  value_error, parameter_limit,
}
use malts.Store.Query.{find-Memᴰ}
use malts.Store.Rows.{
  operation_row, has_pending, is_prepared, is_pending, is_unknown, set_operation_state, set_status,
  add_audit, require_text,
}
use malts.Store.Committed.{transaction-eq-done}
use malts.Effects.{reconcile_effect_state}
use malts.Operations.Grants.{held_grant, execution_grant, scoped_grant}
use malts.Operations.Budgets.{require_operation_budget}
use malts.Operations.Lifecycle.{
  Request, Prepared, prepare_replay, prepare_new, prepare_in, prepare, add_operation, Intent,
  intent_new, commit_intent, add_lease, other_pending, hash_agrees, is_unchanged,
}
use malts.Operations.Leases.{
  IntentRequest, Token, intent_in, record_intent, checked_lease, renew_in, renew_lease,
  record_renewal, extend_lease, require_seconds, set_lease_state,
}
use malts.Operations.Observe.{
  CancelResult, cancel_in, cancel_prepared, record_cancel, is_cancelled, Sighting, Observed,
  observe_new, sealed_reference, observe_in, observe, record_outcome, add_observation,
  observed_state, observation_row, same_observation,
}
use malts.Operations.Change.{
  View, view, intents, row, set_state, Change, unchanged, added, dropped, committed, settled,
}
use malts.Operations.Views.{view-reconcile}
use mathlib.Core.Path.{subst}

-- A call's store with a view that a change leads to.
pub Change-view :
    (s s' : Store) (w : View) → view s' ≡ w → Change (view s) w → Change (view s) (view s')
Change-view s s' w e c = subst (λ x. Change (view s) x) (sym e) c

pub same-Change : (s s' : Store) → s ≡ s' → Change (view s) (view s')
same-Change s s' e = subst (λ x. Change (view s) (view x)) e unchanged

row-own :
    (id : String) (o : Operation) (v : View) → row id v ≡ some o → row o.operation_id v ≡ some o
row-own id o v e =
    let found = (find-Memᴰ (λ (x : Operation). x.operation_id == id) v.operations o e).1 in
    ap (λ i. row i v) ((eq_iff o.operation_id id).0 found) ∙ e

-- The writes of a preparation.
view-add_operation :
    (o : Operation) (s : Store)
    → view (add_operation o s) ≡ record (view s) { operations = o ∷ s.operations }
unfolding add_operation view intents add_audit
view-add_operation o s = refl

view-commit_intent :
    (o : Operation) (actor : String) (expires : ℕ) (s : Store)
    → view (commit_intent o actor expires s)
      ≡ record (set_state o.operation_id OperationState.intent_recorded (view s)) {
        intents = o.operation_id ∷ (view s).intents;
      }
unfolding commit_intent add_lease add_audit set_status set_operation_state view intents set_state
view-commit_intent o actor expires s = refl

view-record_cancel :
    (id actor reason : String) (s : Store)
    → view (record_cancel id actor reason s) ≡ set_state id OperationState.cancelled (view s)
unfolding record_cancel set_operation_state set_state view intents add_audit
view-record_cancel id actor reason s = refl

pub view-record_outcome :
    (r : Sighting) (s : Store)
    → view (record_outcome r s) ≡ set_state r.operation_id (observed_state r.outcome) (view s)
unfolding record_outcome set_lease_state set_operation_state add_observation set_state view intents
    add_audit
view-record_outcome r s = refl

view-record_renewal :
    (id : String) (token : Token) (expires : ℕ) (s : Store)
    → view (record_renewal id token expires s) ≡ view s
unfolding record_renewal extend_lease view intents add_audit
view-record_renewal id token expires s = refl

-- The equation of a result whose store was given in full.
pub to-Change : (s t s' : Store) → t ≡ s' → Change (view s) (view t) → Change (view s) (view s')
to-Change s t s' e c = subst (λ x. Change (view s) (view x)) e c

add_operation-Change :
    (o : Operation) (s s' : Store)
    → operation_row o.operation_id s ≡ none
    → is_prepared o.state ≡ true
    → add_operation o s ≡ s'
    → Change (view s) (view s')
unfolding view
add_operation-Change o s s' fresh ready e =
    to-Change s (add_operation o s) s' e
      (Change-view s (add_operation o s) _ (view-add_operation o s) (added o fresh ready))

commit_intent-Change :
    (o : Operation) (id actor : String) (expires : ℕ) (s s' : Store)
    → operation_row id s ≡ some o
    → is_prepared o.state ≡ true
    → other_pending o s ≡ false
    → commit_intent o actor expires s ≡ s'
    → Change (view s) (view s')
unfolding view other_pending
commit_intent-Change o id actor expires s s' found ready clear e =
    to-Change s (commit_intent o actor expires s) s' e (
      Change-view s (commit_intent o actor expires s) _ (view-commit_intent o actor expires s)
        (committed o.operation_id o (row-own id o (view s) found) ready clear))

module _ (services : Services) where
  prepare_new-Change :
      (now : ℕ) (r : Request) (g : Grant) (s s' : Store) (x : Prepared)
      → operation_row r.operation_id s ≡ none
      → prepare_new services now r g s ≡ done (x, s')
      → Change (view s) (view s')
  unfolding prepare_new is_prepared
  prepare_new-Change now r g s s' x fresh h =
      let h1 =
        then-eq-done
          (require (leb (services.parameter_bytes r.parameters) 16777216) parameter_limit) h in
      let h2 =
        then-eq-done (require (not (has_pending g.task_id s)) (operation_conflict "PENDING_EFFECT"))
          h1 in
      let (resolved, _, h3) =
        bind-eq-done (services.physical_resource g.task_id r.resource r.effect s) _ h2 in
      let (control, _, h4) =
        bind-eq-done
          (services.protected_parameters r.parameters r.resource r.capture_authority_ref s) _ h3 in
      add_operation-Change _ s s' fresh refl (state-eq h4)

  prepare_replay-same :
      (now : ℕ) (r : Request) (old : Operation) (s s' : Store) (x : Prepared)
      → prepare_replay services now r old s ≡ done (x, s')
      → s ≡ s'
  unfolding prepare_replay
  prepare_replay-same now r old s s' x h =
      let h1 = then-eq-done (require _ (operation_conflict "OPERATION_REQUEST_MISMATCH")) h in
      let (stored, _, h2) =
        bind-eq-done (services.stored_parameters r.operation_id r.actor s) _ h1 in
      state-eq (then-eq-done (require _ (operation_conflict "OPERATION_REQUEST_MISMATCH")) h2)

  pub prepare-Change :
      (now : ℕ) (r : Request) (s s' : Store) (x : Prepared)
      → prepare services now r s ≡ done (x, s')
      → Change (view s) (view s')
  unfolding prepare prepare_in
  prepare-Change now r s s' x h =
      let h1 = then-eq-done (require_text r.operation_id) h in
      let (_, h2) = transaction-eq-done services (prepare_in services now r) s h1 in
      let (g, _, h3) =
        bind-eq-done (scoped_grant services now r.grant_id r.actor r.resource r.effect s) _ h2 in
      elim (Option-cases (operation_row r.operation_id s)) [
        | inl e ↦ prepare_new-Change now r g s s' x e (rw e at h3)
        | inr (old, e) ↦ same-Change s s' (prepare_replay-same now r old s s' x (rw e at h3))
      ]

  intent_new-Change :
      (o : Operation) (g : Grant) (id actor : String) (expires : ℕ) (s s' : Store) (x : Intent)
      → operation_row id s ≡ some o
      → is_prepared o.state ≡ true
      → intent_new services o g actor expires s ≡ done (x, s')
      → Change (view s) (view s')
  unfolding intent_new
  intent_new-Change o g id actor expires s s' x found ready h =
      let h1 = then-eq-done (services.trial_ready o.operation_id s) h in
      let h2 = then-eq-done (services.export_ready o.operation_id actor s) h1 in
      let h3 = then-eq-done (require_operation_budget g s) h2 in
      let (_, clear, h4) =
        bind-eq-done (require (not (other_pending o s)) (operation_conflict "PENDING_EFFECT")) _
          h3 in
      let (resolved, _, h5) =
        bind-eq-done (services.physical_resource o.task_id g.resource g.effect s) _ h4 in
      let h6 =
        then-eq-done
          (require (is_unchanged o.resource resolved)
            (operation_conflict "RESOURCE_IDENTITY_CHANGED"))
          h5 in
      let h7 = then-eq-done (require _ (operation_conflict "RESOURCE_HELD")) h6 in
      commit_intent-Change o id actor expires s s' found ready
        (not-eq-true _ (require-eq-done _ _ clear)) (state-eq h7)

  pub record_intent-Change :
      (now second : ℕ) (r : IntentRequest) (s s' : Store) (x : Intent)
      → record_intent services now second r s ≡ done (x, s')
      → Change (view s) (view s')
  unfolding record_intent intent_in
  record_intent-Change now second r s s' x h =
      let h1 = then-eq-done (require_seconds r.lease_seconds) h in
      let (_, h2) = transaction-eq-done services (intent_in services now second r) s h1 in
      let (o, p, h3) =
        bind-eq-done (present (operation_row r.operation_id s) state_conflict) _ h2 in
      let (g, _, h4) =
        bind-eq-done (execution_grant services now o.grant_id r.actor (is_unknown o.state) s) _
          h3 in
      let h5 =
        then-eq-done
          (require (hash_agrees r.expected_request_hash o.request_hash)
            (operation_conflict "OPERATION_REQUEST_MISMATCH"))
          h4 in
      elim (Bool-cases (is_prepared o.state)) [
        | inl e ↦
            intent_new-Change o g r.operation_id r.actor (now + r.lease_seconds * second) s s' x
              (present-eq-done _ _ p) e (rw e at h5)
        | inr e ↦ same-Change s s' (state-eq (rw e at h5))
      ]

  pub renew_lease-Change :
      (now second : ℕ) (id actor : String) (token : Token) (seconds : ℕ) (s s' : Store) (x : ℕ)
      → renew_lease services now second id actor token seconds s ≡ done (x, s')
      → Change (view s) (view s')
  unfolding renew_lease renew_in
  renew_lease-Change now second id actor token seconds s s' x h =
      let h1 = then-eq-done (require_seconds seconds) h in
      let (_, h2) =
        transaction-eq-done services (renew_in services now second id actor token seconds) s h1 in
      let (l, _, h3) = bind-eq-done (checked_lease services now second id actor token s) _ h2 in
      to-Change s _ s' (state-eq h3) (
        Change-view s _ (view s)
          (view-record_renewal id token (max l.expires_at (now + seconds * second)) s) unchanged)

  pub cancel_prepared-Change :
      (id actor reason : String) (s s' : Store) (x : CancelResult)
      → cancel_prepared services id actor reason s ≡ done (x, s')
      → Change (view s) (view s')
  unfolding cancel_prepared cancel_in view
  cancel_prepared-Change id actor reason s s' x h =
      let h1 = then-eq-done (require_text reason) h in
      let (_, h2) = transaction-eq-done services (cancel_in id actor reason) s h1 in
      let (o, p, h3) = bind-eq-done (present (operation_row id s) state_conflict) _ h2 in
      let h4 = then-eq-done (held_grant o.grant_id actor s) h3 in
      elim (Bool-cases (is_cancelled o.state)) [
        | inl e ↦ same-Change s s' (state-eq (rw e at h4))
        | inr e ↦
            let (_, ready, h5) =
              bind-eq-done
                (require (is_prepared o.state) (operation_conflict "INTENT_ALREADY_ISSUED")) _
                (rw e at h4) in
            to-Change s (record_cancel id actor reason s) s' (state-eq h5) (
              Change-view s (record_cancel id actor reason s) _
                (view-record_cancel id actor reason s)
                (dropped id o (present-eq-done _ _ p) (require-eq-done _ _ ready)))
      ]

observe_new-Change :
    (services : Services) (r : Sighting) (o : Operation) (s s' : Store) (x : Observed)
    → operation_row r.operation_id s ≡ some o
    → observe_new services r o s ≡ done (x, s')
    → Change (view s) (view s')
unfolding observe_new view
observe_new-Change services r o s s' x found h =
    let (_, pending, h1) =
      bind-eq-done (require (is_pending o.state) (operation_conflict "OBSERVATION_CONFLICT")) _ h in
    let (control, _, h2) = bind-eq-done (sealed_reference services r s) _ h1 in
    let fact = text_append "observation:" r.observation_id in
    let (after, done_after, h3) =
      bind-eq-done (reconcile_effect_state o.task_id fact (record_outcome r s)) _ h2 in
    to-Change s after s' (state-eq h3) (
      Change-view s after _
        (view-reconcile o.task_id fact (record_outcome r s) after done_after
          ∙ view-record_outcome r s)
        (settled r.operation_id o r.outcome found (require-eq-done _ _ pending)))

pub observe-Change :
    (services : Services) (r : Sighting) (s s' : Store) (x : Observed)
    → observe services r s ≡ done (x, s')
    → Change (view s) (view s')
unfolding observe observe_in
observe-Change services r s s' x h =
    let h1 = then-eq-done (require_text r.observation_id) h in
    let h2 = then-eq-done (require_text r.evidence_ref) h1 in
    let h3 =
      then-eq-done (require (leb (services.reference_bytes r.evidence_ref) 16384) value_error) h2 in
    let (_, h4) = transaction-eq-done services (observe_in services r) s h3 in
    let (o, p, h5) = bind-eq-done (present (operation_row r.operation_id s) state_conflict) _ h4 in
    let h6 = then-eq-done (held_grant o.grant_id r.actor s) h5 in
    elim (Option-cases (observation_row r.observation_id s)) [
      | inl e ↦ observe_new-Change services r o s s' x (present-eq-done _ _ p) (rw e at h6)
      | inr (old, e) ↦ same-Change s s' (
          state-eq (
            then-eq-done
              (require (same_observation old r) (operation_conflict "OBSERVATION_CONFLICT"))
              (rw e at h6)))
    ]
