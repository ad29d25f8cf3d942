-- ===== src/Operations/Calls.antt =====
-- tools/v2_operations.py, tools/v2_state_store.py and tools/v2_task_lifecycle.py: the calls on grants,
-- budgets and tasks, each as a change of the operations and the committed intents.
use malts.Base.{
  ◌≡◌, refl, sym, ap, ◌∙◌, String, ◌==◌, Bool, true, false, not, ◌&&◌, Option, none, some,
}
use malts.Base.{List, [], ◌∷◌, contains, Option-cases, inl, inr, eqb}
use malts.Base.Outcome.{done, present, require, bind-eq-done, then-eq-done, state-eq, done-eq}
use malts.Json.{Value, arr}
use malts.Contracts.{criteria}
use malts.Store.{Store, Services, Dependency, Receipt, state_conflict, value_error, read_only}
use malts.Store.Rows.{
  require_text, task_of, receipt_row, cancel_operations, revoke_grants, set_runs, set_status,
  add_audit,
}
use malts.Store.Committed.{transaction-eq-done}
use malts.Store.Dependencies.{
  Added, add_dependency, add_in, link, may_depend, is_prepared_for, dependency_row,
  record_dependency, insert_dependency, reject_dependency_cycle,
}
use malts.Store.Cancel.{
  Cancellation, Cancelled, cancel_task, cancel_in, cancel_known, cancel_new, cancel_replay,
  cancellation_hash, record_cancellation, stop_task, add_receipt, pending_ids, is_task_completed,
}
use malts.Store.Stopped.{cancel_task-inside}
use malts.Store.Revise.{
  Revision, Predecessor, Revised, revise_task, revise_new, revise_replay, add_predecessors,
  link_predecessors, write_dependencies, write_revision, write_task, record_revision, retire,
  copy_dependencies, check_found, check_review_text, check_dependencies, is_scope, current_revision,
  revision_hash, criteria_elements, is_some, sort_predecessors,
}
use malts.Operations.Change.{view, intents, stop, Change, unchanged, stopped}
use malts.Operations.Steps.{Change-view, same-Change, to-Change}

view-record_dependency : (d : Dependency) (s : Store) → view (record_dependency d s) ≡ view s
unfolding record_dependency insert_dependency add_audit view intents
view-record_dependency d s = refl

view-insert : (d : Dependency) (s : Store) → view (insert_dependency d s) ≡ view s
unfolding insert_dependency view
view-insert d s = refl

link-Change :
    (d : Dependency) (old : Option Dependency) (s s' : Store) (r : Added)
    → link d old s ≡ done (r, s')
    → Change (view s) (view s')
unfolding link
link-Change d none s s' r h =
    let same = state-eq (then-eq-done (reject_dependency_cycle d.task_id d.predecessor_id s) h) in
    to-Change s (record_dependency d s) s' same
      (Change-view s (record_dependency d s) (view s) (view-record_dependency d s) unchanged)
link-Change d (some old) s s' r h = same-Change s s' (
    state-eq (
      then-eq-done (require (eqb old.predecessor_revision d.predecessor_revision) state_conflict)
        h))

view-cancellation :
    (r : Cancellation) (hash : String) (pending : List String) (s : Store)
    → view (record_cancellation r hash pending (stop_task r.task_id pending s))
      ≡ stop (λ o. o.task_id == r.task_id) (view s)
unfolding record_cancellation stop_task set_runs cancel_operations revoke_grants set_status
    add_receipt add_audit view intents stop
view-cancellation r hash pending s = refl

view-written :
    (r : Revision) (acceptance : Value) (known : Bool) (s : Store)
    → view (write_revision r acceptance (write_task r known s)) ≡ view s
unfolding write_revision write_task view
view-written r acceptance true s = refl
view-written r acceptance false s = refl

view-retire :
    (r : Revision) (s : Store)
    → view (retire r s)
      ≡ stop (λ o. o.task_id == r.task_id && eqb o.task_revision r.expected_revision) (view s)
unfolding retire set_runs cancel_operations revoke_grants add_audit view intents stop
view-retire r s = refl

view-recorded :
    (r : Revision) (hash : String) (s : Store)
    → view (record_revision r hash true s) ≡ view (retire r s)
unfolding record_revision add_receipt view
view-recorded r hash s = refl

view-created :
    (r : Revision) (hash : String) (s : Store) → view (record_revision r hash false s) ≡ view s
unfolding record_revision add_receipt view
view-created r hash s = refl

view-copy : (r : Revision) (s : Store) → view (copy_dependencies r s) ≡ view s
unfolding copy_dependencies view
view-copy r s = refl

view-predecessors :
    (r : Revision) (ds : List Predecessor) (s s' : Store)
    → add_predecessors r ds s ≡ done s'
    → view s' ≡ view s
unfolding add_predecessors
view-predecessors r [] s s' h = ap view (sym (done-eq h))
view-predecessors r (d ∷ ds) s s' h =
    let (p, _, h1) = bind-eq-done (present (task_of d.predecessor_id s) state_conflict) _ h in
    let h2 = then-eq-done (require _ state_conflict) h1 in
    let h3 = then-eq-done (reject_dependency_cycle r.task_id d.predecessor_id s) h2 in
    view-predecessors r ds _ s' h3 ∙ view-insert _ s

view-link :
    (r : Revision) (known : Bool) (ds : Option (List Predecessor)) (s s' : Store)
    → link_predecessors r known ds s ≡ done s'
    → view s' ≡ view s
unfolding link_predecessors
view-link r known (some ds) s s' h = view-predecessors r (sort_predecessors ds) s s' h
view-link r true none s s' h = ap view (sym (done-eq h)) ∙ view-copy r s
view-link r false none s s' h = ap view (sym (done-eq h))

recorded-Change :
    (r : Revision) (hash : String) (known : Bool) (s t s' : Store)
    → view t ≡ view s
    → record_revision r hash known t ≡ s'
    → Change (view s) (view s')
recorded-Change r hash true s t s' e h = to-Change s (record_revision r hash true t) s' h (
    Change-view s _ _
      (view-recorded r hash t
        ∙ (view-retire r t
            ∙ ap
                (λ v.
                  stop (λ o. o.task_id == r.task_id && eqb o.task_revision r.expected_revision) v)
                e))
      (stopped _))
recorded-Change r hash false s t s' e h =
    to-Change s (record_revision r hash false t) s' h
      (Change-view s _ _ (view-created r hash t ∙ e) unchanged)

module _ (services : Services) where
  pub add_dependency-Change :
      (d : Dependency) (s s' : Store) (x : Added)
      → add_dependency services d s ≡ done (x, s')
      → Change (view s) (view s')
  unfolding add_dependency add_in
  add_dependency-Change d s s' x h =
      let (_, h1) = transaction-eq-done services (add_in d) s h in
      let (t, _, h2) = bind-eq-done (present (task_of d.task_id s) state_conflict) _ h1 in
      let (p, _, h3) = bind-eq-done (present (task_of d.predecessor_id s) state_conflict) _ h2 in
      let h4 = then-eq-done (require (may_depend d t.0 p.0) state_conflict) h3 in
      let h5 = then-eq-done (require (not (is_prepared_for d s)) state_conflict) h4 in
      link-Change d (dependency_row d s) s s' x h5

  cancel_new-Change :
      (r : Cancellation) (hash : String) (s s' : Store) (x : Cancelled)
      → cancel_new r hash s ≡ done (x, s')
      → Change (view s) (view s')
  unfolding cancel_new
  cancel_new-Change r hash s s' x h =
      let (found, _, h1) = bind-eq-done (present (task_of r.task_id s) state_conflict) _ h in
      let h2 =
        then-eq-done (require (eqb found.0.revision r.expected_revision) state_conflict) h1 in
      let h3 = then-eq-done (require (not (is_task_completed found.0.status)) state_conflict) h2 in
      to-Change s _ s' (state-eq h3)
        (Change-view s _ _ (view-cancellation r hash (pending_ids r.task_id s) s) (stopped _))

  cancel_known-Change :
      (r : Cancellation) (hash : String) (prior : Option Receipt) (s s' : Store) (x : Cancelled)
      → cancel_known r hash prior s ≡ done (x, s')
      → Change (view s) (view s')
  unfolding cancel_known cancel_replay
  cancel_known-Change r hash none s s' x h = cancel_new-Change r hash s s' x h
  cancel_known-Change r hash (some prior) s s' x h =
      same-Change s s'
        (state-eq (then-eq-done (require (prior.request_hash == hash) state_conflict) h))

  pub cancel_task-Change :
      (r : Cancellation) (s s' : Store) (x : Cancelled)
      → cancel_task services r s ≡ done (x, s')
      → Change (view s) (view s')
  unfolding cancel_in
  cancel_task-Change r s s' x h =
      cancel_known-Change r (cancellation_hash services r) (receipt_row r.request_id s) s s' x
        (cancel_task-inside services r s s' x h)

  revise_new-Change :
      (r : Revision) (acceptance : Value) (hash : String) (s s' : Store) (x : Revised)
      → revise_new services r acceptance hash s ≡ done (x, s')
      → Change (view s) (view s')
  unfolding revise_new write_dependencies
  revise_new-Change r acceptance hash s s' x h =
      let current = task_of r.task_id s in
      let known = is_some current in
      let written = write_revision r acceptance (write_task r known s) in
      let h1 =
        then-eq-done (require (eqb (current_revision current) r.expected_revision) state_conflict)
          h in
      let h2 = then-eq-done (check_found services r current s) h1 in
      let (linked, l, h3) = bind-eq-done (link_predecessors r known r.dependencies written) _ h2 in
      recorded-Change r hash known s linked s'
        (view-link r known r.dependencies written linked l ∙ view-written r acceptance known s)
        (state-eq h3)

  revise_replay-same :
      (hash : String) (prior : Receipt) (s s' : Store) (x : Revised)
      → revise_replay hash prior s ≡ done (x, s')
      → s ≡ s'
  unfolding revise_replay
  revise_replay-same hash prior s s' x h =
      state-eq (then-eq-done (require (prior.request_hash == hash) state_conflict) h)

  pub revise_task-Change :
      (r : Revision) (s s' : Store) (x : Revised)
      → revise_task services r s ≡ done (x, s')
      → Change (view s) (view s')
  unfolding revise_task
  revise_task-Change r s s' x h =
      let h1 = then-eq-done (require (not s.readonly) read_only) h in
      let h2 = then-eq-done (require_text r.task_id) h1 in
      let h3 = then-eq-done (require_text r.project_id) h2 in
      let h4 = then-eq-done (require_text r.goal) h3 in
      let h5 = then-eq-done (require_text r.request_id) h4 in
      let h6 = then-eq-done (check_review_text r.review_ref) h5 in
      let h7 = then-eq-done (check_dependencies r) h6 in
      let (cs, _, h8) = bind-eq-done (present (criteria r.acceptance) value_error) _ h7 in
      let h9 = then-eq-done (require (is_scope r.scope) value_error) h8 in
      let h10 = then-eq-done (require (contains r.project_id s.projects) state_conflict) h9 in
      let h11 = then-eq-done (services.authority_ready s) h10 in
      let acceptance = arr (criteria_elements cs) in
      let hash = revision_hash services r acceptance in
      elim (Option-cases (receipt_row r.request_id s)) [
        | inl e ↦ revise_new-Change r acceptance hash s s' x (rw e at h11)
        | inr (prior, e) ↦ same-Change s s' (revise_replay-same hash prior s s' x (rw e at h11))
      ]
