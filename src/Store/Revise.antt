-- ===== src/Store/Revise.antt =====
-- tools/v2_state_store.py: revise_task.
use malts.Base.{
  ℕ, suc, String, ◌==◌, Bool, true, false, not, ◌&&◌, ◌||◌, Option, none, some, eqb, leb,
}
use malts.Base.{
  List, [], ◌∷◌, ◌++◌, all, any, keep, map, is_empty, contains, all_distinct, is_blank, text_leb,
  if◌then◌else◌,
}
use malts.Base.Outcome.{done, ◌>>=◌, ◌>>◌, require, present}
use malts.Json.{
  Value, text, num, bool, obj, arr, null, Entries, entry, no_entry, Elements, element, no_element,
}
use malts.Contracts.{criteria}
use malts.Store.{
  Store, TaskStatus, RunState, Task, TaskRevision, Dependency, Operation, Grant, Run, Receipt,
  Returns, Services, value_error, state_conflict, read_only,
}
use malts.Store.Query.{update}
use malts.Store.Rows.{
  require_text, texts, task_of, receipt_row, has_pending, has_live_host, is_active_run,
  is_paused_run, status_in, add_audit, cancel_operations, revoke_grants, set_runs,
}
use malts.Store.Dependencies.{reject_dependency_cycle, insert_dependency}
use malts.Store.Cancel.{add_receipt, is_task_completed}

-- A predecessor that a revision asks for.
pub record Predecessor : Type 0 where
  pub predecessor_id : String
  pub predecessor_revision : ℕ

-- The arguments of revise_task.
pub record Revision : Type 0 where
  pub task_id : String
  pub project_id : String
  pub expected_revision : ℕ
  pub goal : String
  pub scope : List String
  pub acceptance : Value
  pub request_id : String
  pub review_ref : Option String
  pub dependencies : Option (List Predecessor)

pub data Revised : Type 0 where
  revise_replayed revision_applied : ℕ → Revised

-- The loop over the dependencies, with the identities that are seen.
unfoldable pub check_predecessors : List Predecessor → List String → Returns (Unit {0})
check_predecessors [] seen = done tt
check_predecessors (d ∷ ds) seen = do
  require_text d.predecessor_id
  require (leb 1 d.predecessor_revision) value_error
  require (not (contains d.predecessor_id seen)) value_error
  check_predecessors ds (d.predecessor_id ∷ seen)

unfoldable pub insert_predecessor : Predecessor → List Predecessor → List Predecessor
insert_predecessor d [] = d ∷ []
insert_predecessor d (e ∷ es) =
    let later = e ∷ insert_predecessor d es in
    if text_leb d.predecessor_id e.predecessor_id then d ∷ e ∷ es else later

-- `sorted(dependencies, key=...)`
unfoldable pub sort_predecessors : List Predecessor → List Predecessor
sort_predecessors [] = []
sort_predecessors (d ∷ ds) = insert_predecessor d (sort_predecessors ds)

unfoldable pub is_some {ℓ} : {A : Type ℓ} → Option A → Bool
is_some none = false
is_some (some _) = true

unfoldable pub check_dependencies : Revision → Returns (Unit {0})
check_dependencies r = elim r.dependencies [
  | none ↦ done tt
  | some ds ↦ do
    check_predecessors ds []
    require (eqb r.expected_revision 0 || is_some r.review_ref) state_conflict
]

unfoldable pub check_review_text : Option String → Returns (Unit {0})
check_review_text none = done tt
check_review_text (some review) = require_text review

unfoldable pub is_scope : List String → Bool
is_scope scope = not (is_empty scope) && all (λ v. not (is_blank v)) scope && all_distinct scope

unfoldable pub criteria_elements : List Entries → Elements
criteria_elements [] = no_element
criteria_elements (c ∷ cs) = element (obj c) (criteria_elements cs)

unfoldable pub predecessor_elements : List Predecessor → Elements
predecessor_elements [] = no_element
predecessor_elements (d ∷ ds) =
    element
      (obj (
        entry "predecessor_id" (text d.predecessor_id)
          (entry "predecessor_revision" (num d.predecessor_revision) no_entry)))
      (predecessor_elements ds)

unfoldable pub review_elements : Option String → Elements → Elements
review_elements none rest = rest
review_elements (some review) rest = element (obj (entry "review_ref" (text review) no_entry)) rest

unfoldable pub dependency_elements : Option (List Predecessor) → Elements
dependency_elements none = no_element
dependency_elements (some ds) =
    element
      (obj (entry "dependencies" (arr (predecessor_elements (sort_predecessors ds))) no_entry))
      no_element

unfoldable pub revision_hash : Services → Revision → Value → String
revision_hash services r acceptance = services.request_fingerprint r.project_id (
    arr (
      element (text r.task_id) (
        element (text r.project_id) (
          element (num r.expected_revision) (
            element (text r.goal) (
              element (arr (texts r.scope)) (
                element acceptance
                  (review_elements r.review_ref (dependency_elements r.dependencies)))))))))

-- `current['revision'] if current else 0`
unfoldable pub current_revision : Option (Task × TaskRevision) → ℕ
current_revision none = 0
current_revision (some found) = found.0.revision

module _ (services : Services) where
  -- What a task that is there must be for its revision.
  unfoldable pub check_current : Revision → Task → Store → Returns (Unit {0})
  check_current r t s = do
    require
        (t.project_id == r.project_id
          && status_in t.status (TaskStatus.ready ∷ TaskStatus.paused ∷ TaskStatus.completed ∷ []))
        state_conflict
    require
        (not (status_in t.status (TaskStatus.paused ∷ TaskStatus.completed ∷ []))
          || is_some r.review_ref)
        state_conflict
    require
        (not (is_task_completed t.status && services.phase_open r.task_id r.expected_revision s))
        state_conflict
    services.execution_ready s
    require (not (has_live_host r.task_id s)) state_conflict
    require (not (has_pending r.task_id s)) state_conflict
    require (not (any (λ x. x.task_id == r.task_id && is_active_run x.state) s.runs)) state_conflict

  unfoldable pub check_found : Revision → Option (Task × TaskRevision) → Store → Returns (Unit {0})
  check_found r none s = done tt
  check_found r (some found) s = check_current r found.0 s

unfoldable pub write_task : Revision → Bool → Store → Store
write_task r true s = record s {
  tasks =
      update (λ t. t.task_id == r.task_id)
        (λ t. record t { revision = suc r.expected_revision; status = TaskStatus.ready }) s.tasks;
}
write_task r false s = record s {
  tasks =
      record {
        task_id = r.task_id;
        project_id = r.project_id;
        revision = suc r.expected_revision;
        status = TaskStatus.ready;
      }
      ∷ s.tasks;
}

unfoldable pub write_revision : Revision → Value → Store → Store
write_revision r acceptance s = record s {
  revisions =
      record {
        task_id = r.task_id;
        revision = suc r.expected_revision;
        goal = r.goal;
        scope = r.scope;
        acceptance = acceptance;
      }
      ∷ s.revisions;
  completions =
      update (λ c. c.project_id == r.project_id && c.valid)
        (λ c. record c { valid = false; invalidation_ref = some "task-revised" }) s.completions;
}

-- The predecessors of the new revision, each against the store that the ones before it leave.
unfoldable pub add_predecessors : Revision → List Predecessor → Store → Returns Store
add_predecessors r [] s = done s
add_predecessors r (d ∷ ds) s = do
  p ← present (task_of d.predecessor_id s) state_conflict
  require
      (not (d.predecessor_id == r.task_id)
        && p.0.project_id == r.project_id
        && eqb p.0.revision d.predecessor_revision)
      state_conflict
  reject_dependency_cycle r.task_id d.predecessor_id s
  add_predecessors r ds (
      insert_dependency
        (record {
          task_id = r.task_id;
          task_revision = suc r.expected_revision;
          predecessor_id = d.predecessor_id;
          predecessor_revision = d.predecessor_revision;
        })
        s)

-- INSERT INTO dependency ... SELECT: the rows of the revision before, for the new one.
unfoldable pub copy_dependencies : Revision → Store → Store
copy_dependencies r s = record s {
  dependencies =
      map (λ (d : Dependency). record d { task_revision = suc r.expected_revision })
        (keep (λ d. d.task_id == r.task_id && eqb d.task_revision r.expected_revision)
          s.dependencies)
      ++ s.dependencies;
}

unfoldable pub link_predecessors :
    Revision → Bool → Option (List Predecessor) → Store → Returns Store
link_predecessors r known (some ds) s = add_predecessors r (sort_predecessors ds) s
link_predecessors r true none s = done (copy_dependencies r s)
link_predecessors r false none s = done s

unfoldable pub write_dependencies : Revision → Bool → Store → Returns Store
write_dependencies r known s = link_predecessors r known r.dependencies s

unfoldable pub review_value : Option String → Value
review_value none = null
review_value (some review) = text review

-- What the revision before loses.
unfoldable pub retire : Revision → Store → Store
retire r s =
    add_audit "TASK_REPLANNED" r.task_id
      (entry "previous_revision" (num r.expected_revision) (
        entry "revision" (num (suc r.expected_revision)) (
          entry "review_ref" (review_value r.review_ref) (
            entry "execution_authorized" (bool false) (
              entry "host_quiescence_verified" (bool false)
                (entry "dependencies_replaced" (bool (is_some r.dependencies)) no_entry))))))
      (set_runs (λ (x : Run). x.task_id == r.task_id && is_paused_run x.state) RunState.closed
        (revoke_grants
          (λ (g : Grant). g.task_id == r.task_id && eqb g.task_revision r.expected_revision)
          (cancel_operations
            (λ (o : Operation). o.task_id == r.task_id && eqb o.task_revision r.expected_revision)
            s)))

unfoldable pub record_revision : Revision → String → Bool → Store → Store
record_revision r hash known s =
    add_receipt
      (record {
        request_id = r.request_id;
        request_hash = hash;
        task_id = r.task_id;
        revision = suc r.expected_revision;
      })
      (if known then "TASK_REVISED" else "TASK_CREATED") (if known then retire r s else s)

unfoldable pub revise_replay : String → Receipt → Store → Returns (Revised × Store)
revise_replay hash prior s = do
  require (prior.request_hash == hash) state_conflict
  done (revise_replayed prior.revision, s)

module _ (services : Services) where
  unfoldable pub revise_new : Revision → Value → String → Store → Returns (Revised × Store)
  revise_new r acceptance hash s = do
    let current = task_of r.task_id s
    require (eqb (current_revision current) r.expected_revision) state_conflict
    check_found services r current s
    let known = is_some current
    linked ← write_dependencies r known (write_revision r acceptance (write_task r known s))
    done (revision_applied (suc r.expected_revision), record_revision r hash known linked)

  -- A project without its row has no key to make a fingerprint with.
  unfoldable pub revise_task : Revision → Store → Returns (Revised × Store)
  revise_task r s = do
    require (not s.readonly) read_only
    require_text r.task_id
    require_text r.project_id
    require_text r.goal
    require_text r.request_id
    check_review_text r.review_ref
    check_dependencies r
    accepted ← present (criteria r.acceptance) value_error
    require (is_scope r.scope) value_error
    require (contains r.project_id s.projects) state_conflict
    services.authority_ready s
    let acceptance = arr (criteria_elements accepted)
    let hash = revision_hash services r acceptance
    elim (receipt_row r.request_id s) [
      | some prior ↦ revise_replay hash prior s
      | none ↦ revise_new r acceptance hash s
    ]
