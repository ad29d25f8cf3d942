-- ===== src/Operations/Policies.antt =====
-- tools/v2_operations.py: the calls on grants and budgets, each as a change of the operations and the
-- committed intents.
use malts.Base.{ℕ, ◌≡◌, refl, ◌∙◌, String, ◌==◌, false, not, Option, none, some}
use malts.Base.{any, leb}
use malts.Base.Outcome.{done, present, require, bind-eq-done, then-eq-done, state-eq, done-eq}
use malts.Store.{
  Store, Services, Grant, Budget, Audit, state_conflict, operation_conflict, value_error,
}
use malts.Store.Rows.{require_text, task_of, grant_row, add_audit, revoke_grants}
use malts.Json.{text, entry, no_entry}
use malts.Store.Committed.{transaction-eq-done}
use malts.Operations.Grants.{
  Recorded, insert_grant, record_grant, record_grant_in, revoke_grant, revoke_grant_in, add_grant,
  same_grant, check_review, check_expected, require_instant, is_expired,
}
use malts.Operations.Budgets.{
  configured, add_task_budget, add_project_budget, budget_row, consumed, of_task, of_project,
  configure_task_in, configure_project_in, configure_task_budget, configure_project_budget, Scope,
  project_scope, task_scope, Amendment, Amended, set_budget, apply_amendment, replay_amendment,
  amend_in, amend_known, amend_budget, amendment_hash, owner_of, budgets_of, has_hash,
}
use malts.Operations.Change.{view, intents, Change, unchanged}
use malts.Operations.Steps.{Change-view, same-Change, to-Change}
use malts.Operations.Views.{view-add_audit, view-if}

-- A store that is returned with the view of the one before.
pub view-Change : (s t s' : Store) → view t ≡ view s → t ≡ s' → Change (view s) (view s')
view-Change s t s' e h = to-Change s t s' h (Change-view s t (view s) e unchanged)

view-add_grant : (g : Grant) (s : Store) → view (add_grant g s) ≡ view s
unfolding add_grant add_audit view intents
view-add_grant g s = refl

view-revoked :
    (id source : String) (s : Store)
    → view (
        add_audit "GRANT_REVOKED" id
          (entry "source_ref" (text source) no_entry)
          (revoke_grants (λ (h : Grant). h.grant_id == id) s))
      ≡ view s
unfolding revoke_grants add_audit view intents
view-revoked id source s = refl

insert_grant-Change :
    (g : Grant) (old : Option Grant) (s s' : Store) (x : Recorded)
    → insert_grant g old s ≡ done (x, s')
    → Change (view s) (view s')
unfolding insert_grant
insert_grant-Change g (some old) s s' x h = same-Change s s' (
    state-eq (
      then-eq-done (require (same_grant old g) (operation_conflict "GRANT_DEFINITION_CONFLICT")) h))
insert_grant-Change g none s s' x h =
    view-Change s (add_grant g s) s' (view-add_grant g s) (state-eq h)

view-add_task_budget :
    (id : String) (limit : ℕ) (authority : String) (s : Store)
    → view (add_task_budget id limit authority s) ≡ view s
unfolding add_task_budget add_audit view intents
view-add_task_budget id limit authority s = refl

view-add_project_budget :
    (id : String) (limit : ℕ) (authority : String) (s : Store)
    → view (add_project_budget id limit authority s) ≡ view s
unfolding add_project_budget add_audit view intents
view-add_project_budget id limit authority s = refl

configured-Change :
    (old : Option Budget) (used limit : ℕ) (authority : String) (s after s' : Store) (x : Recorded)
    → view after ≡ view s
    → configured old used limit authority s after ≡ done (x, s')
    → Change (view s) (view s')
unfolding configured
configured-Change (some old) used limit authority s after s' x e h =
    same-Change s s' (state-eq (then-eq-done (require _ state_conflict) h))
configured-Change none used limit authority s after s' x e h =
    view-Change s after s' e (state-eq (then-eq-done (require (leb used limit) state_conflict) h))

view-set_budget : (a : Amendment) (k : Scope) (s : Store) → view (set_budget a k s) ≡ view s
unfolding set_budget view
view-set_budget a project_scope s = refl
view-set_budget a task_scope s = refl

amend_known-Change :
    (hash : String) (a : Amendment) (prior : Option Audit) (s s' : Store) (x : Amended)
    → amend_known hash a prior s ≡ done (x, s')
    → Change (view s) (view s')
unfolding amend_known replay_amendment apply_amendment
amend_known-Change hash a (some prior) s s' x h =
    same-Change s s' (state-eq (then-eq-done (require (has_hash hash prior) state_conflict) h))
amend_known-Change hash a none s s' x h =
    let (old, _, h1) =
      bind-eq-done
        (present (budget_row a.owner_id (budgets_of a.scope s))
          (operation_conflict "BUDGET_POLICY_STALE"))
        _ h in
    let h2 = then-eq-done (require _ (operation_conflict "BUDGET_POLICY_STALE")) h1 in
    let h3 = then-eq-done (require _ (operation_conflict "BUDGET_BELOW_CONSUMPTION")) h2 in
    view-Change s _ s'
      (view-add_audit "BUDGET_AMENDED" a.request_id _ (set_budget a a.scope s) refl
        ∙ view-set_budget a a.scope s)
      (state-eq h3)

module _ (services : Services) where
  pub record_grant-Change :
      (now : ℕ) (g : Grant) (review expected : Option String) (s s' : Store) (x : Recorded)
      → record_grant services now g review expected s ≡ done (x, s')
      → Change (view s) (view s')
  unfolding record_grant record_grant_in
  record_grant-Change now g review expected s s' x h =
      let h1 = then-eq-done (require (leb 1 g.task_revision) value_error) h in
      let h2 = then-eq-done (require_text g.grant_id) h1 in
      let h3 = then-eq-done (require_text g.task_id) h2 in
      let h4 = then-eq-done (require_text g.actor) h3 in
      let h5 = then-eq-done (require_text g.source_ref) h4 in
      let h6 = then-eq-done (require_text g.resource) h5 in
      let h7 = then-eq-done (require_instant g.expires_at) h6 in
      let (old, _, h8) = bind-eq-done (is_expired services now g.expires_at) _ h7 in
      let h9 = then-eq-done (require (not old) state_conflict) h8 in
      let fresh : Grant = record g { revoked = false } in
      let (_, h10) =
        transaction-eq-done services (record_grant_in services now fresh review expected) s h9 in
      let h11 = then-eq-done (check_review review s) h10 in
      let h12 = then-eq-done (check_expected services g.task_id expected s) h11 in
      let (found, _, h13) = bind-eq-done (present (task_of g.task_id s) state_conflict) _ h12 in
      let h14 = then-eq-done (require _ state_conflict) h13 in
      insert_grant-Change fresh (grant_row g.grant_id s) s s' x h14

  pub revoke_grant-Change :
      (now : ℕ) (id source : String) (s s' : Store)
      → revoke_grant services now id source s ≡ done s'
      → Change (view s) (view s')
  unfolding revoke_grant revoke_grant_in
  revoke_grant-Change now id source s s' h =
      let h1 = then-eq-done (require_text source) h in
      let (_, h2) = transaction-eq-done services (revoke_grant_in id source) s h1 in
      let (g, _, h3) = bind-eq-done (present (grant_row id s) state_conflict) _ h2 in
      view-Change s _ s' (view-if g.revoked s _ (view s) refl (view-revoked id source s))
        (done-eq h3)

  pub configure_task_budget-Change :
      (id : String) (limit : ℕ) (authority : String) (s s' : Store) (x : Recorded)
      → configure_task_budget services id limit authority s ≡ done (x, s')
      → Change (view s) (view s')
  unfolding configure_task_budget configure_task_in
  configure_task_budget-Change id limit authority s s' x h =
      let h1 = then-eq-done (require_text authority) h in
      let (_, h2) = transaction-eq-done services (configure_task_in id limit authority) s h1 in
      let h3 = then-eq-done (present (task_of id s) state_conflict) h2 in
      configured-Change (budget_row id s.task_budgets) (consumed (of_task id) s) limit authority s
        (add_task_budget id limit authority s) s' x (view-add_task_budget id limit authority s) h3

  pub configure_project_budget-Change :
      (id : String) (limit : ℕ) (authority : String) (s s' : Store) (x : Recorded)
      → configure_project_budget services id limit authority s ≡ done (x, s')
      → Change (view s) (view s')
  unfolding configure_project_budget configure_project_in
  configure_project_budget-Change id limit authority s s' x h =
      let h1 = then-eq-done (require_text authority) h in
      let (_, h2) = transaction-eq-done services (configure_project_in id limit authority) s h1 in
      let h3 = then-eq-done (require (any (λ p. p == id) s.projects) state_conflict) h2 in
      configured-Change (budget_row id s.project_budgets) (consumed (of_project s id) s) limit
        authority s (add_project_budget id limit authority s) s' x
        (view-add_project_budget id limit authority s) h3

  pub amend_budget-Change :
      (a : Amendment) (s s' : Store) (x : Amended)
      → amend_budget services a s ≡ done (x, s')
      → Change (view s) (view s')
  unfolding amend_budget amend_in
  amend_budget-Change a s s' x h =
      let h1 = then-eq-done (require_text a.owner_id) h in
      let h2 = then-eq-done (require_text a.expected_authority_ref) h1 in
      let h3 = then-eq-done (require_text a.authority_ref) h2 in
      let h4 = then-eq-done (require_text a.reason) h3 in
      let h5 = then-eq-done (require_text a.request_id) h4 in
      let h6 = then-eq-done (require (leb 1 a.expected_revision) value_error) h5 in
      let (_, h7) = transaction-eq-done services (amend_in services a) s h6 in
      let (owner, _, h8) =
        bind-eq-done (present (owner_of a.scope a.owner_id s) state_conflict) _ h7 in
      let h9 = then-eq-done (require (any (λ p. p == owner) s.projects) state_conflict) h8 in
      amend_known-Change (amendment_hash services owner a) a _ s s' x h9
