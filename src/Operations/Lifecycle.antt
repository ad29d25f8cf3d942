-- ===== src/Operations/Lifecycle.antt =====
-- tools/v2_operations.py: prepare, and the body of record_intent.
use malts.Base.{ℕ, suc, String, ◌==◌, Bool, true, false, not, ◌&&◌, Option, none, some}
use malts.Base.{leb, ◌∷◌, any, length}
use malts.Base.Outcome.{done, ◌>>=◌, ◌>>◌, require}
use malts.Json.{Value, text, arr, entry, no_entry, element, no_element}
use malts.Locator.{Access, read_access, write_access, Conflict, locator_conflict}
use malts.Store.{
  Store, TaskStatus, OperationState, LeaseState, Effect, Grant, Operation, Resolved, Returns,
  Services, operation_conflict, parameter_limit, transaction,
}
use malts.Store.Rows.{
  require_text, operation_row, grant_row, has_pending, is_pending, set_status, set_operation_state,
  add_audit,
}
use malts.Operations.Grants.{scoped_grant}
use malts.Operations.Budgets.{require_operation_budget}

unfoldable pub effect_text : Effect → String
effect_text Effect.read = "read"
effect_text Effect.write = "write"
effect_text Effect.external = "external"

unfoldable pub operation_hash : Services → String → String → String → Effect → Value → String
operation_hash services grant actor resource effect control = services.sha256_json (
    arr (
      element (text grant) (
        element (text actor) (
          element (text resource)
            (element (text (effect_text effect)) (element control no_element))))))

pub data Prepared : Type 0 where
  prepare_replayed : OperationState → String → Prepared
  prepared : String → Prepared

unfoldable pub add_operation : Operation → Store → Store
add_operation o s =
    add_audit "OPERATION_PREPARED" o.operation_id
      (entry "request_hash" (text o.request_hash) no_entry)
      (record s { operations = o ∷ s.operations })

-- The arguments of prepare.
pub record Request : Type 0 where
  pub operation_id : String
  pub grant_id : String
  pub actor : String
  pub resource : String
  pub effect : Effect
  pub parameters : Value
  pub capture_authority_ref : Option String

module _ (services : Services) (now : ℕ) where
  unfoldable pub prepare_replay : Request → Operation → Store → Returns (Prepared × Store)
  prepare_replay r old s =
      let hash = operation_hash services r.grant_id r.actor r.resource r.effect old.request in
      do
        require (old.request_hash == hash) (operation_conflict "OPERATION_REQUEST_MISMATCH")
        stored ← services.stored_parameters r.operation_id r.actor s
        require (services.json_text stored == services.json_text r.parameters)
            (operation_conflict "OPERATION_REQUEST_MISMATCH")
        done (prepare_replayed old.state hash, s)

  unfoldable pub prepare_new : Request → Grant → Store → Returns (Prepared × Store)
  prepare_new r g s = do
    require (leb (services.parameter_bytes r.parameters) 16777216) parameter_limit
    require (not (has_pending g.task_id s)) (operation_conflict "PENDING_EFFECT")
    resolved ← services.physical_resource g.task_id r.resource r.effect s
    control ← services.protected_parameters r.parameters r.resource r.capture_authority_ref s
    let hash = operation_hash services r.grant_id r.actor r.resource r.effect control
    done (
      prepared hash,
      add_operation
          (record {
            operation_id = r.operation_id;
            grant_id = r.grant_id;
            task_id = g.task_id;
            task_revision = g.task_revision;
            request_hash = hash;
            request = control;
            resource = resolved;
            execution_epoch = s.epoch;
            state = OperationState.prepared;
          })
          s,
    )

  unfoldable pub prepare_in : Request → Store → Returns (Prepared × Store)
  prepare_in r s = do
    g ← scoped_grant services now r.grant_id r.actor r.resource r.effect s
    elim (operation_row r.operation_id s) [
      | some old ↦ prepare_replay r old s
      | none ↦ prepare_new r g s
    ]

  unfoldable pub prepare : Request → Store → Returns (Prepared × Store)
  prepare r s = do require_text r.operation_id; transaction services (prepare_in r) s

-- The access that a resource is held with.
unfoldable pub access_of : Effect → Access
access_of Effect.read = read_access
access_of _ = write_access

unfoldable pub same_identity : Option Resolved → Resolved → Bool
same_identity none now_found = false
same_identity (some before) now_found = before.identity_sha256 == now_found.identity_sha256

-- `resolved is not None and (recorded is None or ... != ...)`, negated.
unfoldable pub is_unchanged : Option Resolved → Option Resolved → Bool
is_unchanged recorded none = true
is_unchanged recorded (some r) = same_identity recorded r

unfoldable pub is_conflict : Option Conflict → Bool
is_conflict none = false
is_conflict (some _) = true

-- A resource with its effect, and how it was resolved.
pub record Held : Type 0 where
  pub resource : String
  pub effect : Effect
  pub resolved : Option Resolved

-- locator_conflict if both are resolved, legacy_lease_conflict otherwise.
unfoldable pub resources_conflict : Services → Held → Held → Bool
resources_conflict services a b =
    let lexical =
      services.lease_conflict (a.resource, access_of a.effect) (b.resource, access_of b.effect) in
    elim a.resolved [
      | none ↦ lexical
      | some x ↦ elim b.resolved [
        | none ↦ lexical
        | some y ↦ is_conflict (locator_conflict x.locator y.locator)
      ]
    ]

-- What an operation holds by its grant.
unfoldable pub held_by : Operation → Store → Option Held
held_by o s = elim (grant_row o.grant_id s) [
  | none ↦ none
  | some g ↦ some (record { resource = g.resource; effect = g.effect; resolved = o.resource })
]

unfoldable pub holds_conflict : Services → Held → Operation → Store → Bool
holds_conflict services wanted o s = elim (held_by o s) [
  | none ↦ false
  | some held ↦ resources_conflict services wanted held
]

-- Another operation with a committed effect holds a resource that conflicts.
unfoldable pub is_held : Services → String → Held → Store → Bool
is_held services id wanted s =
    any
      (λ o. not (o.operation_id == id) && is_pending o.state && holds_conflict services wanted o s)
      s.operations

unfoldable pub add_lease : Operation → String → ℕ → ℕ → Store → Store
add_lease o actor fence expires s = record s {
  leases =
      record {
        operation_id = o.operation_id;
        epoch = s.epoch;
        fence = fence;
        actor = actor;
        expires_at = expires;
        state = LeaseState.held;
      }
      ∷ s.leases;
}

-- The writes of record_intent; the fence is the number of the audit row.
unfoldable pub commit_intent : Operation → String → ℕ → Store → Store
commit_intent o actor expires s = add_lease o actor (suc (length s.audits)) expires (
    add_audit "INTENT_RECORDED" o.operation_id (entry "actor" (text actor) no_entry) (
      set_status o.task_id TaskStatus.running
        (set_operation_state o.operation_id OperationState.intent_recorded s)))

pub data Intent : Type 0 where
  no_execution : OperationState → Intent
  execute_once : String → String → ℕ → ℕ → Intent

-- `expected_request_hash is not None and ... != ...`, negated.
unfoldable pub hash_agrees : Option String → String → Bool
hash_agrees none recorded = true
hash_agrees (some expected) recorded = expected == recorded

unfoldable pub other_pending : Operation → Store → Bool
other_pending o s =
    any
      (λ p. p.task_id == o.task_id && not (p.operation_id == o.operation_id) && is_pending p.state)
      s.operations

module _ (services : Services) where
  unfoldable pub intent_new : Operation → Grant → String → ℕ → Store → Returns (Intent × Store)
  intent_new o g actor expires s = do
    services.trial_ready o.operation_id s
    services.export_ready o.operation_id actor s
    require_operation_budget g s
    require (not (other_pending o s)) (operation_conflict "PENDING_EFFECT")
    resolved ← services.physical_resource o.task_id g.resource g.effect s
    require (is_unchanged o.resource resolved) (operation_conflict "RESOURCE_IDENTITY_CHANGED")
    require
        (not (
          is_held services o.operation_id
            (record { resource = g.resource; effect = g.effect; resolved = resolved }) s))
        (operation_conflict "RESOURCE_HELD")
    done (
      execute_once o.request_hash s.epoch (suc (length s.audits)) expires,
      commit_intent o actor expires s,
    )
