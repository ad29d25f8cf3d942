-- ===== src/Store/Cancel.antt =====
-- tools/v2_state_store.py: cancel_task.
use malts.Base.{ℕ, String, ◌==◌, Bool, true, false, not, ◌&&◌, Option, none, some, eqb, leb}
use malts.Base.{List, ◌∷◌, keep, map, is_empty, sorted_set, if◌then◌else◌}
use malts.Base.Outcome.{done, ◌>>=◌, ◌>>◌, require, present}
use malts.Json.{text, num, arr, entry, no_entry, element, no_element}
use malts.Store.{
  Store, TaskStatus, RunState, Operation, Grant, Run, Receipt, Returns, Services, value_error,
  state_conflict, transaction,
}
use malts.Store.Rows.{
  require_text, texts, task_of, receipt_row, is_pending, is_active_run, set_status, add_audit,
  cancel_operations, revoke_grants, set_runs,
}

unfoldable pub is_task_completed : TaskStatus → Bool
is_task_completed TaskStatus.completed = true
is_task_completed _ = false

-- The operations of the task with a committed effect, in order.
unfoldable pub pending_ids : String → Store → List String
pending_ids id s = sorted_set (
    map (λ (o : Operation). o.operation_id)
      (keep (λ o. o.task_id == id && is_pending o.state) s.operations))

-- INSERT INTO request_receipt and INSERT INTO audit
unfoldable pub add_receipt : Receipt → String → Store → Store
add_receipt r kind s = record s {
  receipts = r ∷ s.receipts;
  request_audits =
      record { request_id = r.request_id; kind = kind; task_id = r.task_id; revision = r.revision }
      ∷ s.request_audits;
}

-- The arguments of cancel_task.
pub record Cancellation : Type 0 where
  pub task_id : String
  pub expected_revision : ℕ
  pub request_id : String
  pub authority_ref : String
  pub reason : String

pub data Cancelled : Type 0 where
  cancel_replayed : ℕ → Cancelled
  cancelled : ℕ → List String → Cancelled

-- A run stays to be paused while an operation has a committed effect.
unfoldable pub stopped_run : List String → RunState
stopped_run pending = if is_empty pending then RunState.paused else RunState.pause_requested

-- The writes to the rows of the task.
unfoldable pub stop_task : String → List String → Store → Store
stop_task id pending s =
    set_runs (λ (r : Run). r.task_id == id && is_active_run r.state) (stopped_run pending)
      (cancel_operations (λ (o : Operation). o.task_id == id)
        (revoke_grants (λ (g : Grant). g.task_id == id) (set_status id TaskStatus.cancelled s)))

unfoldable pub cancellation_hash : Services → Cancellation → String
cancellation_hash services r = services.sha256_json (
    arr (
      element (text "task.cancel") (
        element (text r.task_id) (
          element (num r.expected_revision)
            (element (text r.authority_ref) (element (text r.reason) no_element))))))

unfoldable pub record_cancellation : Cancellation → String → List String → Store → Store
record_cancellation r hash pending s =
    add_audit "TASK_CANCELLED" r.task_id
      (entry "authority_ref" (text r.authority_ref) (
        entry "reason" (text r.reason) (entry "pending_operations" (arr (texts pending)) no_entry)))
      (add_receipt
        (record {
          request_id = r.request_id;
          request_hash = hash;
          task_id = r.task_id;
          revision = r.expected_revision;
        })
        "TASK_CANCELLED" s)

unfoldable pub cancel_replay : String → Receipt → Store → Returns (Cancelled × Store)
cancel_replay hash prior s = do
  require (prior.request_hash == hash) state_conflict
  done (cancel_replayed prior.revision, s)

unfoldable pub cancel_new : Cancellation → String → Store → Returns (Cancelled × Store)
cancel_new r hash s = do
  found ← present (task_of r.task_id s) state_conflict
  require (eqb found.0.revision r.expected_revision) state_conflict
  require (not (is_task_completed found.0.status)) state_conflict
  let pending = pending_ids r.task_id s
  done (
    cancelled r.expected_revision pending,
    record_cancellation r hash pending (stop_task r.task_id pending s),
  )

-- With the receipt of the request, if there is one.
unfoldable pub cancel_known :
    Cancellation → String → Option Receipt → Store → Returns (Cancelled × Store)
cancel_known r hash (some prior) s = cancel_replay hash prior s
cancel_known r hash none s = cancel_new r hash s

unfoldable pub cancel_in : Services → Cancellation → Store → Returns (Cancelled × Store)
cancel_in services r s =
    cancel_known r (cancellation_hash services r) (receipt_row r.request_id s) s

unfoldable pub cancel_task : Services → Cancellation → Store → Returns (Cancelled × Store)
cancel_task services r s = do
  require_text r.task_id
  require_text r.request_id
  require_text r.authority_ref
  require_text r.reason
  require (leb 1 r.expected_revision) value_error
  transaction services (cancel_in services r) s
