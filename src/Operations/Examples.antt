-- ===== src/Operations/Examples.antt =====
-- Sample calls of v2_operations.py, v2_state_store.py and v2_task_lifecycle.py, and the theorems at
-- them.
use mathlib.Core.Logic.{◌↔◌}
use malts.Base.{
  String, true, false, ◌≡◌, refl, some, none, [], ◌∷◌, contains, is_blank, sorted_set, text_leb,
  false≢true,
}
use malts.Base.Outcome.{done, raised}
use malts.Json.{obj, no_entry, get}
use malts.Store.{
  Store, Services, TaskStatus, OperationState, Effect, Report, Task, TaskRevision, Dependency,
  Grant, Operation, transaction, Returns,
}
use malts.Store.Dependencies.{
  reachable, close, grow, current_edges, is_current_edge, add_dependency, add_in, link,
  reject_dependency_cycle, may_depend, is_prepared_for, is_ready, record_dependency,
  insert_dependency, dependency_added,
}
use malts.Store.Reachable.{Depends, reachable-Depends_iff}
use malts.Store.Acyclic.{IsAcyclic, add_dependency-IsAcyclic}
use malts.Store.Cancel.{
  Cancellation, cancelled, cancel_replayed, cancel_task, cancel_in, cancel_known, cancel_new,
  cancel_replay, record_cancellation, stop_task, add_receipt, pending_ids, is_task_completed,
  stopped_run, cancellation_hash,
}
use malts.Store.Stopped.{IsStopped, cancel_task-IsStopped}
use malts.Store.Replays.{cancel_task-replays}
use malts.Store.Rows.{
  task_of, status_in, has_pending, is_pending, is_prepared, is_unknown, add_audit, set_status,
  set_operation_state, cancel_operations, revoke_grants, set_runs, is_host_running, is_active_run,
  is_live, is_pause_requested, is_host_unknown,
}
use malts.Effects.{
  reconcile_effect_state, has_unknown, marker_row, settle, require_recovery, requested_runs,
  is_pause_asked, resumed_status, clear_marker, pending_hosts, settle_pause, pause_runs, is_waiting,
  is_recovering, last_audit, names_revision, add_marker, is_completed, invalidate_acceptance,
  status_text, drop_marker,
}
use malts.Effects.Unknown.{IsRecovering, reconcile-IsRecovering}
use malts.Operations.Grants.{
  held_grant, scoped_grant, execution_grant, check_execution, check_host, admitted_statuses,
  is_expired, instant_of, same_effect,
}
use malts.Operations.Budgets.{
  require_operation_budget, consumed, require_limit, require_project_limit,
}
use malts.Operations.Lifecycle.{
  Request, prepared, prepare, prepare_in, prepare_new, prepare_replay, operation_hash, effect_text,
  add_operation, execute_once, intent_new, other_pending, is_unchanged, same_identity, is_held,
  holds_conflict, held_by, resources_conflict, is_conflict, access_of, commit_intent, add_lease,
  hash_agrees,
}
use malts.Operations.Leases.{IntentRequest, record_intent, intent_in, set_lease_state}
use malts.Operations.Observe.{
  Sighting, observed, observe, observe_in, observe_new, record_outcome, observed_state,
  observed_lease, report_text, add_observation, same_observation,
}
use malts.Operations.Change.{view, intents, row, IsOnce, IsSingle}
use malts.Operations.History.{
  History, begin, extend, step_prepare, step_intent, step_observe, History-IsOnce, History-IsSingle,
}
use malts.Operations.Settled.{IsObservable, Settles, observe-returns}
use malts.Operations.Issued.{IsIssued, record_intent-IsIssued}
use malts.Operations.Life.{Evolves, History-Evolves}

program : Unit {0}
unfolding reachable close grow is_current_edge add_dependency add_in link reject_dependency_cycle
    may_depend is_prepared_for is_ready record_dependency insert_dependency transaction is_blank
    cancel_task cancel_in cancel_known cancel_new cancel_replay record_cancellation stop_task
    add_receipt pending_ids is_task_completed stopped_run cancellation_hash task_of status_in
    has_pending is_pending is_prepared is_unknown add_audit set_status set_operation_state
    cancel_operations revoke_grants set_runs is_host_running is_active_run is_live
    is_pause_requested is_host_unknown reconcile_effect_state has_unknown marker_row settle
    require_recovery requested_runs is_pause_asked resumed_status clear_marker pending_hosts
    settle_pause pause_runs is_waiting is_recovering last_audit names_revision add_marker
    is_completed invalidate_acceptance status_text drop_marker held_grant scoped_grant
    execution_grant check_execution check_host admitted_statuses is_expired instant_of same_effect
    require_operation_budget consumed require_limit require_project_limit prepare prepare_in
    prepare_new prepare_replay operation_hash effect_text add_operation intent_new other_pending
    is_unchanged same_identity is_held holds_conflict held_by resources_conflict is_conflict
    access_of commit_intent add_lease hash_agrees record_intent intent_in set_lease_state observe
    observe_in observe_new record_outcome observed_state observed_lease report_text add_observation
    same_observation view intents sorted_set text_leb get
program = tt

-- Services that admit all, with a constant hash.
abbrev pub services : Services
services = record {
  authority_ready = λ s. done tt;
  transaction_guard = λ s. done tt;
  execution_ready = λ s. done tt;
  task_phase = λ id s. done tt;
  unresolved_dependencies = λ id n s. false;
  phase_open = λ id n s. false;
  authority_sha256 = λ id s. "authority";
  physical_resource = λ id r e s. done none;
  protected_parameters = λ v r c s. done v;
  stored_parameters = λ id actor s. done (obj no_entry);
  observation_control = λ x id actor o e s. done "sealed";
  json_text = λ v. "json";
  parameter_bytes = λ v. 2;
  reference_bytes = λ t. 2;
  trial_ready = λ id s. done tt;
  export_ready = λ id actor s. done tt;
  sha256_json = λ v. "hash";
  request_fingerprint = λ id v. "hash";
  instant = λ t. none;
  lease_conflict = λ a b. false;
}

abbrev pub task : String → Task
task id = record { task_id = id; project_id = "p"; revision = 1; status = TaskStatus.ready }

abbrev definition : String → TaskRevision
definition id = record {
  task_id = id;
  revision = 1;
  goal = "goal";
  scope = "file" ∷ [];
  acceptance = obj no_entry;
}

abbrev grant : Grant
grant = record {
  grant_id = "g";
  task_id = "a";
  task_revision = 1;
  actor = "me";
  source_ref = "review";
  resource = "file";
  effect = Effect.write;
  revoked = false;
  expires_at = none;
  max_operations = some 3;
}

abbrev pub start : Store
start = record {
  readonly = false;
  epoch = "e";
  projects = "p" ∷ [];
  tasks = task "a" ∷ task "b" ∷ task "c" ∷ [];
  revisions = definition "a" ∷ definition "b" ∷ definition "c" ∷ [];
  markers = [];
  dependencies = [];
  grants = grant ∷ [];
  operations = [];
  observations = [];
  leases = [];
  task_budgets = [];
  project_budgets = [];
  runs = [];
  hosts = [];
  dispatch_budgets = [];
  evidence = [];
  invalidations = [];
  acceptances = [];
  completions = [];
  receipts = [];
  request_audits = [];
  audits = [];
}

-- The store that a call returns.
abbrev pub state : {A : Type 0} → Returns (A × Store) → Store
state (done (x, s)) = s
state (raised e) = start

abbrev edge : String → String → Dependency
edge task_id predecessor_id = record {
  task_id = task_id;
  task_revision = 1;
  predecessor_id = predecessor_id;
  predecessor_revision = 1;
}

abbrev linked : Store
linked = state (add_dependency services (edge "a" "b") start)

abbrev linked_twice : Store
linked_twice = state (add_dependency services (edge "b" "c") linked)

start-IsAcyclic : IsAcyclic (current_edges start)
unfolding IsAcyclic
start-IsAcyclic d m = elim m [ ]

linked-IsAcyclic : IsAcyclic (current_edges linked)
unfolding program
linked-IsAcyclic =
    add_dependency-IsAcyclic services (edge "a" "b") start linked dependency_added refl
      start-IsAcyclic

add_dependency-IsAcyclic_example : IsAcyclic (current_edges linked_twice)
unfolding program
add_dependency-IsAcyclic_example =
    add_dependency-IsAcyclic services (edge "b" "c") linked linked_twice dependency_added refl
      linked-IsAcyclic

reachable-Depends_iff_example :
    (contains "c" (reachable (edge "b" "c" ∷ edge "a" "b" ∷ []) "a") ≡ true)
    ↔ Depends (edge "b" "c" ∷ edge "a" "b" ∷ []) "a" "c"
reachable-Depends_iff_example = reachable-Depends_iff (edge "b" "c" ∷ edge "a" "b" ∷ []) "a" "c"

-- The predecessor of a predecessor is found in the second pass.
found_late : contains "c" (reachable (edge "b" "c" ∷ edge "a" "b" ∷ []) "a") ≡ true
unfolding program
found_late = refl

abbrev request : Request
request = record {
  operation_id = "o";
  grant_id = "g";
  actor = "me";
  resource = "file";
  effect = Effect.write;
  parameters = obj no_entry;
  capture_authority_ref = none;
}

abbrev intent : IntentRequest
intent = record {
  operation_id = "o";
  actor = "me";
  expected_request_hash = some "hash";
  lease_seconds = 60;
}

abbrev sighting : Sighting
sighting = record {
  observation_id = "x";
  operation_id = "o";
  actor = "me";
  outcome = Report.unknown;
  evidence_ref = "log";
}

abbrev ready : Store
ready = state (prepare services 5 request start)

abbrev running : Store
running = state (record_intent services 5 1 intent ready)

abbrev seen : Store
seen = state (observe services sighting running)

prepare_step : prepare services 5 request start ≡ done (prepared "hash", ready)
unfolding program
prepare_step = refl

intent_step : record_intent services 5 1 intent ready ≡ done (execute_once "hash" "e" 2 65, running)
unfolding program
intent_step = refl

observe_step : observe services sighting running ≡ done (observed OperationState.unknown, seen)
unfolding program
observe_step = refl

-- A preparation, its intent, and an observation with an unknown outcome.
history : History services start seen
history =
    extend
      (extend (extend begin (step_prepare 5 request (prepared "hash") prepare_step))
        (step_intent 5 1 intent (execute_once "hash" "e" 2 65) intent_step))
      (step_observe sighting (observed OperationState.unknown) observe_step)

start-IsOnce : IsOnce (view start)
unfolding view intents
start-IsOnce = record { once = refl; issued = λ id i. absurd (false≢true i) }

History-IsOnce_example : IsOnce (view seen)
History-IsOnce_example = History-IsOnce services start seen history start-IsOnce

start-IsSingle : IsSingle (view start)
unfolding view intents
start-IsSingle = record { keyed = λ x y m n e. elim m [ ]; single = λ x y m n f g e. elim m [ ] }

History-IsSingle_example : IsSingle (view seen)
History-IsSingle_example = History-IsSingle services start seen history start-IsSingle

record_intent-IsIssued_example : IsIssued services "o" ready running
record_intent-IsIssued_example =
    record_intent-IsIssued services 5 1 intent ready running "hash" "e" 2 65 intent_step

abbrev operation : Operation
operation = record {
  operation_id = "o";
  grant_id = "g";
  task_id = "a";
  task_revision = 1;
  request_hash = "hash";
  request = obj no_entry;
  resource = none;
  execution_epoch = "e";
  state = OperationState.prepared;
}

operation_there : row "o" (view ready) ≡ some operation
unfolding program
operation_there = refl

later : History services ready seen
later =
    extend (extend begin (step_intent 5 1 intent (execute_once "hash" "e" 2 65) intent_step))
      (step_observe sighting (observed OperationState.unknown) observe_step)

History-Evolves_example :
    (t : OperationState) × (row "o" (view seen) ≡ some (record operation { state = t }))
    × Evolves OperationState.prepared t
History-Evolves_example = History-Evolves services ready seen "o" operation later operation_there

-- The store after the outcome is recorded, before the task is reconciled.
abbrev unsettled : Store
unsettled = record_outcome sighting running

abbrev stopped : Store
stopped = elim (reconcile_effect_state "a" "fact" unsettled) [ done s ↦ s | raised e ↦ start ]

reconcile_step : reconcile_effect_state "a" "fact" unsettled ≡ done stopped
unfolding program
reconcile_step = refl

is_unsettled : has_unknown "a" unsettled ≡ true
unfolding program
is_unsettled = refl

reconcile-IsRecovering_example : IsRecovering "a" unsettled stopped
reconcile-IsRecovering_example =
    reconcile-IsRecovering "a" "fact" unsettled stopped reconcile_step is_unsettled

abbrev cancellation : Cancellation
cancellation = record {
  task_id = "a";
  expected_revision = 1;
  request_id = "r";
  authority_ref = "owner";
  reason = "done elsewhere";
}

abbrev ended : Store
ended = state (cancel_task services cancellation seen)

cancel_step : cancel_task services cancellation seen ≡ done (cancelled 1 ("o" ∷ []), ended)
unfolding program
cancel_step = refl

cancel_task-IsStopped_example : IsStopped "a" seen ended
cancel_task-IsStopped_example =
    cancel_task-IsStopped services cancellation seen ended 1 ("o" ∷ []) cancel_step

cancel_task-replays_example :
    cancel_task services cancellation ended ≡ done (cancel_replayed 1, ended)
cancel_task-replays_example =
    cancel_task-replays services cancellation seen ended 1 ("o" ∷ []) cancel_step refl refl

abbrev committed_operation : Operation
committed_operation = record operation { state = OperationState.intent_recorded }

running-IsObservable : IsObservable services sighting running
unfolding program
running-IsObservable = record {
  named = refl;
  referenced = refl;
  small = refl;
  writable = refl;
  ready = refl;
  guarded = refl;
  operation = committed_operation;
  found = refl;
  pending = refl;
  grant = grant;
  granted = refl;
  held = refl;
  fresh = refl;
  task = record (task "a") { status = TaskStatus.running };
  owned = refl;
  control = "sealed";
  sealed = refl;
  marked = λ m e. cc;
}

observe-returns_example :
    Settles sighting running-IsObservable.operation
      (λ s'. observe services sighting running ≡ done (observed OperationState.unknown, s'))
unfolding program
observe-returns_example = observe-returns services sighting running running-IsObservable
