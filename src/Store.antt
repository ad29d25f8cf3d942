-- ===== src/Store.antt =====
-- tools/v2_state_store.py: the tables that the task and operation lifecycles read and write, and what
-- a transaction is. A table is a list of rows, newest first; a row has the columns that this code
-- reads or writes. Contents that are protected at rest (v2_definition_content.py) stand decoded.
pub mod Query
pub mod Rows
pub mod Dependencies
pub mod Cancel
pub mod Revise
pub mod Committed
pub mod Reachable
pub mod Acyclic
pub mod Stopped
pub mod Replays
use malts.Base.{ℕ, String, Bool, true, false, Option, List}
use malts.Base.Outcome.{Outcome, raised, ◌>>=◌, ◌>>◌}
use malts.Base.{if◌then◌else◌}
use malts.Json.{Value}
use malts.Locator.{Locator, Access}

pub data TaskStatus : Type 0 where
  ready running verifying waiting paused recovery_required completed failed cancelled : TaskStatus

pub data OperationState : Type 0 where
  prepared intent_recorded observed unknown failed cancelled accepted : OperationState

-- The outcome that an observation states.
pub data Report : Type 0 where
  succeeded failed unknown : Report

pub data LeaseState : Type 0 where
  held quarantined released : LeaseState

pub data RunState : Type 0 where
  opened pause_requested paused closed : RunState

pub data HostState : Type 0 where
  prepared intent_committed running cancel_requested unknown exited cancelled : HostState

pub data Effect : Type 0 where
  read write external : Effect

pub record Task : Type 0 where
  pub task_id : String
  pub project_id : String
  pub revision : ℕ
  pub status : TaskStatus

pub record TaskRevision : Type 0 where
  pub task_id : String
  pub revision : ℕ
  pub goal : String
  pub scope : List String
  pub acceptance : Value

-- task_effect_recovery
pub record Marker : Type 0 where
  pub task_id : String
  pub task_revision : ℕ
  pub resume_status : TaskStatus

pub record Dependency : Type 0 where
  pub task_id : String
  pub task_revision : ℕ
  pub predecessor_id : String
  pub predecessor_revision : ℕ

-- execution_grant
pub record Grant : Type 0 where
  pub grant_id : String
  pub task_id : String
  pub task_revision : ℕ
  pub actor : String
  pub source_ref : String
  pub resource : String
  pub effect : Effect
  pub revoked : Bool
  pub expires_at : Option String
  pub max_operations : Option ℕ

-- A normalised locator with its `identity_sha256`.
pub record Resolved : Type 0 where
  pub identity_sha256 : String
  pub locator : Locator

pub record Operation : Type 0 where
  pub operation_id : String
  pub grant_id : String
  pub task_id : String
  pub task_revision : ℕ
  pub request_hash : String
  pub request : Value
  pub resource : Option Resolved
  pub execution_epoch : String
  pub state : OperationState

-- operation_observation
pub record Observation : Type 0 where
  pub observation_id : String
  pub operation_id : String
  pub outcome : Report
  pub evidence_ref : String

-- operation_lease; instants are numbers.
pub record Lease : Type 0 where
  pub operation_id : String
  pub epoch : String
  pub fence : ℕ
  pub actor : String
  pub expires_at : ℕ
  pub state : LeaseState

pub record Budget : Type 0 where
  pub owner_id : String
  pub max_operations : ℕ
  pub authority_ref : String
  pub revision : ℕ

-- execution_run
pub record Run : Type 0 where
  pub run_id : String
  pub task_id : String
  pub state : RunState

-- host_dispatch
pub record Host : Type 0 where
  pub dispatch_id : String
  pub task_id : String
  pub project_id : String
  pub actor : String
  pub state : HostState
  pub launch_committed : Bool
  pub quiesced : Option Bool
  pub cancel_asked : Bool

pub record DispatchBudget : Type 0 where
  pub project_id : String
  pub revoked : Bool
  pub expires_at : Option String

pub record Evidence : Type 0 where
  pub evidence_id : String
  pub task_id : String
  pub task_revision : ℕ

pub record Invalidation : Type 0 where
  pub evidence_id : String
  pub authority_ref : String

pub record Acceptance : Type 0 where
  pub task_id : String
  pub task_revision : ℕ
  pub valid : Bool
  pub invalidation_ref : Option String

pub record Completion : Type 0 where
  pub project_id : String
  pub valid : Bool
  pub invalidation_ref : Option String

pub record Receipt : Type 0 where
  pub request_id : String
  pub request_hash : String
  pub task_id : String
  pub revision : ℕ

-- audit
pub record RequestAudit : Type 0 where
  pub request_id : String
  pub kind : String
  pub task_id : String
  pub revision : ℕ

-- execution_audit; `sequence` is the row's number.
pub record Audit : Type 0 where
  pub sequence : ℕ
  pub kind : String
  pub subject_id : String
  pub details : Value

pub record Store : Type 0 where
  pub readonly : Bool
  pub epoch : String
  pub projects : List String
  pub tasks : List Task
  pub revisions : List TaskRevision
  pub markers : List Marker
  pub dependencies : List Dependency
  pub grants : List Grant
  pub operations : List Operation
  pub observations : List Observation
  pub leases : List Lease
  pub task_budgets : List Budget
  pub project_budgets : List Budget
  pub runs : List Run
  pub hosts : List Host
  pub dispatch_budgets : List DispatchBudget
  pub evidence : List Evidence
  pub invalidations : List Invalidation
  pub acceptances : List Acceptance
  pub completions : List Completion
  pub receipts : List Receipt
  pub request_audits : List RequestAudit
  pub audits : List Audit

-- The text of a conflict is left out, but for the code of an OperationConflict.
pub data StoreError : Type 0 where
  value_error state_conflict read_only parameter_limit : StoreError
  access_denied : String → StoreError
  operation_conflict : String → StoreError
  budget_exhausted : String → ℕ → ℕ → StoreError

abbrev pub Returns : Type 0 → Type 0
Returns A = Outcome StoreError A

-- What the code takes from other modules: the authority over the database, the guards of a transaction
-- and of execution, the protection of parameters (of a resource, with the reference of an authority to
-- capture them) and their reading (by an operation's identity and actor), the sealing of an
-- observation's reference, the resolution of a resource on disk, the keyed fingerprint of a project's
-- requests, and Python's hashing and reading of instants; `none` is an instant that is refused.
pub record Services : Type 0 where
  pub authority_ready : Store → Returns (Unit {0})
  pub transaction_guard : Store → Returns (Unit {0})
  pub execution_ready : Store → Returns (Unit {0})
  pub task_phase : String → Store → Returns (Unit {0})
  pub unresolved_dependencies : String → ℕ → Store → Bool
  pub phase_open : String → ℕ → Store → Bool
  pub authority_sha256 : String → Store → String
  pub physical_resource : String → String → Effect → Store → Returns (Option Resolved)
  pub protected_parameters : Value → String → Option String → Store → Returns Value
  pub stored_parameters : String → String → Store → Returns Value
  pub observation_control : String → String → String → Report → String → Store → Returns String
  pub json_text : Value → String
  pub parameter_bytes : Value → ℕ
  pub reference_bytes : String → ℕ
  pub trial_ready : String → Store → Returns (Unit {0})
  pub export_ready : String → String → Store → Returns (Unit {0})
  pub sha256_json : Value → String
  pub request_fingerprint : String → Value → String
  pub instant : String → Option ℕ
  pub lease_conflict : String × Access → String × Access → Bool

-- `with store.transaction()`: what raises leaves the store as it was, so only the store of a body
-- that returns is kept.
unfoldable pub transaction : {A : Type 0} → Services → (Store → Returns A) → Store → Returns A
transaction services body s =
    if s.readonly
    then raised read_only
    else services.authority_ready s >> services.transaction_guard s >> body s
