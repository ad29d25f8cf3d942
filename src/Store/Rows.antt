-- ===== src/Store/Rows.antt =====
-- The reads and writes of single rows that the operations of the store share.
use malts.Base.{ℕ, suc, String, ◌==◌, Bool, true, false, not, ◌&&◌, Option, none, some, eqb}
use malts.Base.{List, [], ◌∷◌, any, length, is_blank}
use malts.Base.Outcome.{require}
use malts.Json.{text, obj, Entries, Elements, element, no_element}
use malts.Store.{
  Store, TaskStatus, OperationState, Task, TaskRevision, Operation, Grant, Receipt, Host, Run,
  HostState, RunState, value_error, Returns,
}
use malts.Store.Query.{find, update}

-- _text
abbrev pub require_text : String → Returns (Unit {0})
require_text value = require (not (is_blank value)) value_error

abbrev pub texts : List String → Elements
texts [] = no_element
texts (s ∷ ss) = element (text s) (texts ss)

-- Whether two lifecycle words are the same.
status_index : TaskStatus → ℕ
status_index TaskStatus.ready = 0
status_index TaskStatus.running = 1
status_index TaskStatus.verifying = 2
status_index TaskStatus.waiting = 3
status_index TaskStatus.paused = 4
status_index TaskStatus.recovery_required = 5
status_index TaskStatus.completed = 6
status_index TaskStatus.failed = 7
status_index TaskStatus.cancelled = 8

-- `status in {...}`
unfoldable pub status_in : TaskStatus → List TaskStatus → Bool
unfolding status_index
status_in s ts = any (λ t. eqb (status_index s) (status_index t)) ts

-- `state IN ('INTENT_RECORDED','UNKNOWN')`
unfoldable pub is_pending : OperationState → Bool
is_pending OperationState.intent_recorded = true
is_pending OperationState.unknown = true
is_pending _ = false

unfoldable pub is_prepared : OperationState → Bool
is_prepared OperationState.prepared = true
is_prepared _ = false

unfoldable pub is_unknown : OperationState → Bool
is_unknown OperationState.unknown = true
is_unknown _ = false

unfoldable pub is_host_unknown : HostState → Bool
is_host_unknown HostState.unknown = true
is_host_unknown _ = false

unfoldable pub is_host_prepared : HostState → Bool
is_host_prepared HostState.prepared = true
is_host_prepared _ = false

unfoldable pub is_host_running : HostState → Bool
is_host_running HostState.running = true
is_host_running _ = false

unfoldable pub is_pause_requested : RunState → Bool
is_pause_requested RunState.pause_requested = true
is_pause_requested _ = false

unfoldable pub is_paused_run : RunState → Bool
is_paused_run RunState.paused = true
is_paused_run _ = false

-- `state IN ('OPEN','PAUSE_REQUESTED')`
unfoldable pub is_active_run : RunState → Bool
is_active_run RunState.opened = true
is_active_run RunState.pause_requested = true
is_active_run _ = false

abbrev pub task_row : String → Store → Option Task
task_row id s = find (λ t. t.task_id == id) s.tasks

-- StateStore.task: the row with the definition of its revision.
unfoldable pub task_of : String → Store → Option (Task × TaskRevision)
task_of id s = elim (task_row id s) [
  | none ↦ none
  | some t ↦ elim (find (λ r. r.task_id == id && eqb r.revision t.revision) s.revisions) [
    | none ↦ none
    | some r ↦ some (t, r)
  ]
]

abbrev pub operation_row : String → Store → Option Operation
operation_row id s = find (λ o. o.operation_id == id) s.operations

abbrev pub grant_row : String → Store → Option Grant
grant_row id s = find (λ g. g.grant_id == id) s.grants

abbrev pub receipt_row : String → Store → Option Receipt
receipt_row id s = find (λ r. r.request_id == id) s.receipts

-- A pending operation of the task.
unfoldable pub has_pending : String → Store → Bool
has_pending id s = any (λ o. o.task_id == id && is_pending o.state) s.operations

-- `launch_committed=1 AND coalesce(quiesced,0)=0`
unfoldable pub is_live : Host → Bool
is_live h = h.launch_committed && not (elim h.quiesced [ none ↦ false | some q ↦ q ])

unfoldable pub has_live_host : String → Store → Bool
has_live_host id s = any (λ h. h.task_id == id && is_live h) s.hosts

unfoldable pub set_status : String → TaskStatus → Store → Store
set_status id status s = record s {
  tasks = update (λ t. t.task_id == id) (λ t. record t { status = status }) s.tasks;
}

-- INSERT INTO execution_audit
unfoldable pub add_audit : String → String → Entries → Store → Store
add_audit kind subject details s = record s {
  audits =
      record {
        sequence = suc (length s.audits);
        kind = kind;
        subject_id = subject;
        details = obj details;
      }
      ∷ s.audits;
}

unfoldable pub set_operation_state : String → OperationState → Store → Store
set_operation_state id state s = record s {
  operations = update (λ o. o.operation_id == id) (λ o. record o { state = state }) s.operations;
}

-- UPDATE operation SET state='CANCELLED' WHERE ... AND state='PREPARED'
unfoldable pub cancel_operations : (Operation → Bool) → Store → Store
cancel_operations p s = record s {
  operations =
      update (λ o. p o && is_prepared o.state) (λ o. record o { state = OperationState.cancelled })
        s.operations;
}

unfoldable pub revoke_grants : (Grant → Bool) → Store → Store
revoke_grants p s = record s { grants = update p (λ g. record g { revoked = true }) s.grants }

unfoldable pub set_runs : (Run → Bool) → RunState → Store → Store
set_runs p state s = record s { runs = update p (λ r. record r { state = state }) s.runs }
