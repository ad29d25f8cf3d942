-- ===== src/Operations/Observe.antt =====
-- tools/v2_operations.py: cancel_prepared and observe.
use malts.Base.{String, ◌==◌, Bool, true, false, ◌&&◌, Option, none, some, leb}
use malts.Base.{◌∷◌, if◌then◌else◌, text_append}
use malts.Base.Outcome.{done, ◌>>=◌, ◌>>◌, require, present}
use malts.Json.{text, entry, no_entry}
use malts.Store.{
  Store, OperationState, LeaseState, Report, Operation, Observation, Returns, Services, value_error,
  state_conflict, operation_conflict, transaction,
}
use malts.Store.Query.{find}
use malts.Store.Rows.{
  require_text, operation_row, is_prepared, is_pending, set_operation_state, add_audit,
}
use malts.Effects.{reconcile_effect_state}
use malts.Operations.Grants.{held_grant}
use malts.Operations.Leases.{set_lease_state}

pub data CancelResult : Type 0 where
  cancel_replayed operation_cancelled : CancelResult

unfoldable pub is_cancelled : OperationState → Bool
is_cancelled OperationState.cancelled = true
is_cancelled _ = false

unfoldable pub record_cancel : String → String → String → Store → Store
record_cancel id actor reason s =
    add_audit "PREPARED_OPERATION_CANCELLED" id
      (entry "reason" (text reason) (entry "actor" (text actor) no_entry))
      (set_operation_state id OperationState.cancelled s)

unfoldable pub cancel_in : String → String → String → Store → Returns (CancelResult × Store)
cancel_in id actor reason s = do
  o ← present (operation_row id s) state_conflict
  held_grant o.grant_id actor s
  if is_cancelled o.state then done (cancel_replayed, s) else (do
    require (is_prepared o.state) (operation_conflict "INTENT_ALREADY_ISSUED")
    done (operation_cancelled, record_cancel id actor reason s))

unfoldable pub cancel_prepared :
    Services → String → String → String → Store → Returns (CancelResult × Store)
cancel_prepared services id actor reason s = do
  require_text reason
  transaction services (cancel_in id actor reason) s

-- The state that an outcome gives the operation.
unfoldable pub observed_state : Report → OperationState
observed_state Report.succeeded = OperationState.observed
observed_state Report.failed = OperationState.failed
observed_state Report.unknown = OperationState.unknown

unfoldable pub observed_lease : Report → LeaseState
observed_lease Report.unknown = LeaseState.quarantined
observed_lease _ = LeaseState.released

unfoldable pub report_text : Report → String
report_text Report.succeeded = "SUCCEEDED"
report_text Report.failed = "FAILED"
report_text Report.unknown = "UNKNOWN"

-- The arguments of observe.
pub record Sighting : Type 0 where
  pub observation_id : String
  pub operation_id : String
  pub actor : String
  pub outcome : Report
  pub evidence_ref : String

pub data Observed : Type 0 where
  observe_replayed : Observed
  observed : OperationState → Observed

abbrev pub observation_row : String → Store → Option Observation
observation_row id s = find (λ b. b.observation_id == id) s.observations

unfoldable pub same_observation : Observation → Sighting → Bool
same_observation old r =
    old.operation_id == r.operation_id
    && report_text old.outcome == report_text r.outcome
    && old.evidence_ref == r.evidence_ref

unfoldable pub add_observation : Sighting → Store → Store
add_observation r s = record s {
  observations =
      record {
        observation_id = r.observation_id;
        operation_id = r.operation_id;
        outcome = r.outcome;
        evidence_ref = r.evidence_ref;
      }
      ∷ s.observations;
}

-- The writes of observe before the task is reconciled.
unfoldable pub record_outcome : Sighting → Store → Store
record_outcome r s =
    add_audit "OUTCOME_OBSERVED" r.operation_id
      (entry "observation_id" (text r.observation_id)
        (entry "outcome" (text (report_text r.outcome)) no_entry))
      (set_lease_state r.operation_id (observed_lease r.outcome)
        (set_operation_state r.operation_id (observed_state r.outcome) (add_observation r s)))

-- `encode`: the sealed form of the reference, which the row holds and is read decoded.
abbrev pub sealed_reference : Services → Sighting → Store → Returns String
sealed_reference services r s =
    services.observation_control r.observation_id r.operation_id r.actor r.outcome r.evidence_ref s

unfoldable pub observe_new : Services → Sighting → Operation → Store → Returns (Observed × Store)
observe_new services r o s = do
  require (is_pending o.state) (operation_conflict "OBSERVATION_CONFLICT")
  sealed_reference services r s
  settled ←
      reconcile_effect_state o.task_id (text_append "observation:" r.observation_id)
        (record_outcome r s)
  done (observed (observed_state r.outcome), settled)

unfoldable pub observe_in : Services → Sighting → Store → Returns (Observed × Store)
observe_in services r s = do
  o ← present (operation_row r.operation_id s) state_conflict
  held_grant o.grant_id r.actor s
  elim (observation_row r.observation_id s) [
    | some old ↦ do
      require (same_observation old r) (operation_conflict "OBSERVATION_CONFLICT")
      done (observe_replayed, s)
    | none ↦ observe_new services r o s
  ]

unfoldable pub observe : Services → Sighting → Store → Returns (Observed × Store)
observe services r s = do
  require_text r.observation_id
  require_text r.evidence_ref
  require (leb (services.reference_bytes r.evidence_ref) 16384) value_error
  transaction services (observe_in services r) s
