-- ===== src/Effects/Verify.antt =====
-- tools/v2_task_lifecycle.py: the class Verification, which takes a task into verification and back
-- to work.
use malts.Base.{Option}
use malts.Base.{ℕ, String, ◌==◌, Bool, true, false, not, ◌&&◌, ◌||◌, none, some, eqb, leb}
use malts.Base.{List, [], ◌∷◌, any, keep, if◌then◌else◌}
use malts.Base.Outcome.{done, ◌>>=◌, ◌>>◌, require, present}
use malts.Json.{text, num, bool, arr, entry, no_entry, element, no_element}
use malts.Store.{
  Store, TaskStatus, Task, Receipt, Evidence, Invalidation, value_error, state_conflict, Returns,
  Services, transaction,
}
use malts.Store.Rows.{
  require_text, task_of, receipt_row, status_in, is_pending, is_prepared, is_host_prepared, is_live,
  set_status, add_audit,
}

unfoldable pub is_verifying : TaskStatus → Bool
is_verifying TaskStatus.verifying = true
is_verifying _ = false

-- An operation of the task that is PREPARED, INTENT_RECORDED or UNKNOWN.
unfoldable pub has_unsettled : String → Store → Bool
has_unsettled id s =
    any (λ o. o.task_id == id && (is_prepared o.state || is_pending o.state)) s.operations

-- A host of the task that is prepared, or was launched and is not observed to have stopped.
unfoldable pub has_unresolved_host : String → Store → Bool
has_unresolved_host id s =
    any (λ h. h.task_id == id && (is_host_prepared h.state || is_live h)) s.hosts

module _ (services : Services) where
  unfoldable pub require_verification_ready : String → ℕ → Store → Returns Task
  require_verification_ready id revision s = do
    services.execution_ready s
    services.task_phase id s
    found ← present (task_of id s) state_conflict
    let t = found.0
    require
        (eqb t.revision revision
          && status_in t.status (TaskStatus.running ∷ TaskStatus.verifying ∷ []))
        state_conflict
    require (not (services.unresolved_dependencies id revision s)) state_conflict
    require (not (has_unsettled id s)) state_conflict
    require (not (has_unresolved_host id s)) state_conflict
    done t

  unfoldable pub start_verification : String → ℕ → String → Store → Store
  start_verification id revision review s =
      add_audit "TASK_VERIFICATION_STARTED" id
        (entry "task_revision" (num revision) (
          entry "review_ref" (text review) (
            entry "scope" (text "REGISTERED_CONTROLS")
              (entry "external_writer_quiescence_implied" (bool false) no_entry))))
        (set_status id TaskStatus.verifying s)

  unfoldable pub enter_verification : String → ℕ → String → Store → Returns Store
  enter_verification id revision review s = do
    t ← require_verification_ready id revision s
    done (if is_verifying t.status then s else start_verification id revision review s)

-- INSERT OR IGNORE: one invalidation for each evidence of the revision that has none yet.
unfoldable pub invalidate_each : String → List Evidence → List Invalidation → List Invalidation
invalidate_each authority [] known = known
invalidate_each authority (e ∷ es) known =
    let added = record { evidence_id = e.evidence_id; authority_ref = authority } ∷ known in
    invalidate_each authority es
      (if any (λ (i : Invalidation). i.evidence_id == e.evidence_id) known then known else added)

unfoldable pub invalidate_evidence : String → ℕ → String → Store → Store
invalidate_evidence id revision review s = record s {
  invalidations =
      invalidate_each review
        (keep (λ e. e.task_id == id && eqb e.task_revision revision) s.evidence) s.invalidations;
}

-- What a transition returns: the decision, with the current status.
pub data Verified : Type 0 where
  replayed verification_begun reworked : TaskStatus → Verified

module _ (services : Services) where
  unfoldable pub begin_work : String → ℕ → String → Store → Returns Store
  begin_work id revision review s = do
    t ← require_verification_ready services id revision s
    require (is_verifying t.status) state_conflict
    done (set_status id TaskStatus.running (invalidate_evidence id revision review s))

  unfoldable pub transition_kind : Bool → String
  transition_kind true = "TASK_VERIFICATION_REWORK"
  transition_kind false = "TASK_VERIFICATION_BEGIN"

  unfoldable pub fingerprint : Bool → String → ℕ → String → String
  fingerprint rework id revision review = services.sha256_json (
      arr (
        element (text (transition_kind rework))
          (element (text id) (element (num revision) (element (text review) no_element)))))

  unfoldable pub record_transition : Bool → String → ℕ → String → String → Store → Store
  record_transition rework id revision request review s =
      add_audit (transition_kind rework) id
        (entry "task_revision" (num revision)
          (entry "review_ref" (text review) (entry "request_id" (text request) no_entry)))
        (record s {
          receipts =
              record {
                request_id = request;
                request_hash = fingerprint rework id revision review;
                task_id = id;
                revision = revision;
              }
              ∷ s.receipts;
        })

  -- The status that `store.task` reads.
  unfoldable pub current_status : String → Store → Returns TaskStatus
  current_status id s = do found ← present (task_of id s) state_conflict; done found.0.status

  unfoldable pub replay : Bool → String → ℕ → String → Receipt → Store → Returns (Verified × Store)
  replay rework id revision review old s = do
    require (old.request_hash == fingerprint rework id revision review && eqb old.revision revision)
        state_conflict
    status ← current_status id s
    done (replayed status, s)

  unfoldable pub apply_transition :
      Bool → String → ℕ → String → String → Store → Returns (Verified × Store)
  apply_transition rework id revision request review s = do
    moved ←
        if rework
        then begin_work id revision review s
        else enter_verification services id revision review s
    let recorded = record_transition rework id revision request review moved
    status ← current_status id recorded
    done (if rework then reworked status else verification_begun status, recorded)

  -- With the receipt of the request, if there is one.
  unfoldable pub transition_known :
      Bool → String → ℕ → String → String → Option Receipt → Store → Returns (Verified × Store)
  transition_known rework id revision request review (some old) s =
      replay rework id revision review old s
  transition_known rework id revision request review none s =
      apply_transition rework id revision request review s

  unfoldable pub transition_in :
      Bool → String → ℕ → String → String → Store → Returns (Verified × Store)
  transition_in rework id revision request review s =
      transition_known rework id revision request review (receipt_row request s) s

  -- The numbers below 1 are the only other values of `revision`.
  unfoldable pub transition :
      Bool → String → ℕ → String → String → Store → Returns (Verified × Store)
  transition rework id revision request review s = do
    require_text id
    require_text request
    require_text review
    require (leb 1 revision) value_error
    transaction services (transition_in rework id revision request review) s
