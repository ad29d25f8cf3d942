-- ===== src/Effects.antt =====
-- tools/v2_task_lifecycle.py: the reconciliation of a task with the recorded effects of its
-- operations and hosts, and the verification of a task.
pub mod Verify
pub mod Unknown
pub mod Rework
pub mod Examples
use malts.Base.{
  ℕ, suc, String, ◌==◌, Bool, true, false, not, ◌&&◌, ◌||◌, Option, none, some, eqb, ltb,
}
use malts.Base.{
  List, [], ◌∷◌, any, keep, map, is_empty, contains, sorted_set, if◌then◌else◌, text_append,
}
use malts.Base.Outcome.{Outcome, done, raised, ◌>>=◌, ◌>>◌, require, present}
use malts.Json.{
  Value, text, num, bool, obj, arr, Entries, entry, no_entry, element, no_element, get,
}
use malts.Store.{
  Store, TaskStatus, Task, TaskRevision, Marker, Acceptance, Audit, Run, RunState, Receipt,
  Evidence, Invalidation, Host, StoreError, value_error, state_conflict, Returns, Services,
  transaction,
}
use malts.Store.Query.{find, update}
use malts.Store.Rows.{
  require_text, task_row, task_of, receipt_row, status_in, is_pending, is_prepared, is_unknown,
  is_host_unknown, is_host_prepared, is_pause_requested, has_pending, has_live_host, is_live,
  set_status, add_audit, set_runs,
}

abbrev pub settled_or_recovering : List TaskStatus
settled_or_recovering = TaskStatus.cancelled ∷ TaskStatus.failed ∷ TaskStatus.recovery_required ∷ []

abbrev resumable : List TaskStatus
resumable =
    TaskStatus.ready ∷ TaskStatus.running ∷ TaskStatus.verifying ∷ TaskStatus.waiting
    ∷ TaskStatus.paused ∷ []

-- An operation or a host of the task in the state UNKNOWN.
unfoldable pub has_unknown : String → Store → Bool
has_unknown id s =
    any (λ o. o.task_id == id && is_unknown o.state) s.operations
    || any (λ h. h.task_id == id && is_host_unknown h.state) s.hosts

unfoldable pub marker_row : String → Store → Option Marker
marker_row id s = find (λ m. m.task_id == id) s.markers

-- `json.loads(details).get('task_revision') == revision`
unfoldable pub names_revision : ℕ → Value → Bool
names_revision revision (obj details) = elim (get "task_revision" details) [
  | some (num n) ↦ eqb n revision
  | _ ↦ false
]
names_revision revision _ = false

unfoldable pub last_audit : String → String → Store → Option Audit
last_audit kind subject s = find (λ a. a.kind == kind && a.subject_id == subject) s.audits

-- _pause_requested
unfoldable pub is_pause_asked : String → ℕ → Store → Bool
is_pause_asked id revision s =
    let settled : ℕ = elim (last_audit "TASK_PAUSE_SETTLED" id s) [
      | none ↦ 0
      | some a ↦ a.sequence
    ] in
    elim (last_audit "TASK_PAUSE_REQUESTED" id s) [
      | none ↦ false
      | some a ↦ ltb settled a.sequence && names_revision revision a.details
    ]

-- pending_hosts
unfoldable pub pending_hosts : String → Store → List String
pending_hosts id s =
    sorted_set
      (map (λ (h : Host). h.dispatch_id) (keep (λ h. h.task_id == id && is_live h) s.hosts))

-- The status of a task, in the words of the table.
unfoldable pub status_text : TaskStatus → String
status_text TaskStatus.ready = "READY"
status_text TaskStatus.running = "RUNNING"
status_text TaskStatus.verifying = "VERIFYING"
status_text TaskStatus.waiting = "WAITING"
status_text TaskStatus.paused = "PAUSED"
status_text TaskStatus.recovery_required = "RECOVERY_REQUIRED"
status_text TaskStatus.completed = "COMPLETED"
status_text TaskStatus.failed = "FAILED"
status_text TaskStatus.cancelled = "CANCELLED"

unfoldable pub is_completed : TaskStatus → Bool
is_completed TaskStatus.completed = true
is_completed _ = false

unfoldable pub invalidate_acceptance : String → Store → Store
invalidate_acceptance id s = record s {
  acceptances =
      update (λ a. a.task_id == id && a.valid)
        (λ a. record a { valid = false; invalidation_ref = some "unknown-effect" }) s.acceptances;
}

unfoldable pub add_marker : Task → Store → Store
add_marker t s =
    let resume = if status_in t.status resumable then t.status else TaskStatus.paused in
    record s {
      markers =
          record { task_id = t.task_id; task_revision = t.revision; resume_status = resume }
          ∷ s.markers;
    }

-- The branch of an unknown effect.
unfoldable pub require_recovery : Task → Option Marker → String → Store → Store
require_recovery t marker fact s =
    let marked : Store = elim marker [ none ↦ add_marker t s | some _ ↦ s ] in
    let stopped = set_status t.task_id TaskStatus.recovery_required marked in
    let invalid =
      if is_completed t.status then invalidate_acceptance t.task_id stopped else stopped in
    if status_in t.status settled_or_recovering
    then s
    else add_audit "TASK_EFFECT_RECOVERY_REQUIRED" t.task_id
        (entry "task_revision" (num t.revision) (
          entry "prior_status" (text (status_text t.status))
            (entry "fact_ref" (text fact) no_entry)))
        invalid

unfoldable pub drop_marker : String → Store → Store
drop_marker id s = record s { markers = keep (λ m. not (m.task_id == id)) s.markers }

unfoldable pub is_recovering : TaskStatus → Bool
is_recovering TaskStatus.recovery_required = true
is_recovering _ = false

unfoldable pub is_waiting : TaskStatus → Bool
is_waiting TaskStatus.waiting = true
is_waiting _ = false

-- The status that clearing the marker gives.
unfoldable pub resumed_status : Task → Option Marker → Bool → TaskStatus
resumed_status t none pausing = t.status
resumed_status t (some m) pausing =
    if is_recovering t.status
    then (if pausing then TaskStatus.waiting else m.resume_status)
    else t.status

unfoldable pub clear_marker : Task → Option Marker → TaskStatus → String → Store → Store
clear_marker t none status fact s = s
clear_marker t (some m) status fact s =
    let moved = if is_recovering t.status then set_status t.task_id status s else s in
    add_audit "TASK_EFFECT_RECOVERY_CLEARED" t.task_id
      (entry "task_revision" (num t.revision) (
        entry "resulting_status" (text (status_text status))
          (entry "fact_ref" (text fact) (entry "host_quiescence_verified" (bool false) no_entry))))
      (drop_marker t.task_id moved)

-- The runs of the task with a requested pause.
unfoldable pub requested_runs : String → Store → List String
requested_runs id s =
    map (λ (r : Run). r.run_id) (keep (λ r. r.task_id == id && is_pause_requested r.state) s.runs)

unfoldable pub pause_runs : List String → String → Store → Store
pause_runs [] fact s = s
pause_runs (r ∷ rs) fact s = pause_runs rs fact (
    add_audit "RUN_PAUSED" r
      (entry "settled_by_fact" (text fact) (entry "host_quiescence_verified" (bool false) no_entry))
      (set_runs (λ (run : Run). run.run_id == r) RunState.paused s))

unfoldable pub settle_pause : Task → TaskStatus → Bool → List String → String → Store → Store
settle_pause t status pausing requested fact s =
    let done_runs = pause_runs requested fact s in
    if is_waiting status && pausing
    then add_audit "TASK_PAUSE_SETTLED" t.task_id
        (entry "task_revision" (num t.revision) (entry "settled_by_fact" (text fact) no_entry))
        (set_status t.task_id TaskStatus.paused done_runs)
    else done_runs

-- The branch without an unknown effect.
unfoldable pub settle : Task → Option Marker → String → Store → Store
settle t marker fact s =
    let requested = requested_runs t.task_id s in
    let pausing = not (is_empty requested) || is_pause_asked t.task_id t.revision s in
    let status = resumed_status t marker pausing in
    let cleared = clear_marker t marker status fact s in
    if has_pending t.task_id cleared || not (is_empty (pending_hosts t.task_id cleared))
    then cleared
    else settle_pause t status pausing requested fact cleared

-- The call stands in a transaction.
unfoldable pub reconcile_effect_state : String → String → Store → Returns Store
reconcile_effect_state id fact s = do
  t ← present (task_row id s) state_conflict
  let marker = marker_row id s
  require (elim marker [ none ↦ true | some m ↦ eqb m.task_revision t.revision ]) state_conflict
  done (if has_unknown id s then require_recovery t marker fact s else settle t marker fact s)
