-- ===== src/Operations/Leases.antt =====
-- tools/v2_operations.py: record_intent, _lease, verify_lease and renew_lease.
use malts.Base.{ℕ, ◌+◌, max, String, ◌==◌, Bool, true, false, ◌&&◌, Option}
use Prim.Native.Nat.{◌*◌}
use malts.Base.{eqb, leb, ltb, List, if◌then◌else◌}
use malts.Base.Outcome.{done, ◌>>=◌, ◌>>◌, require, present}
use malts.Json.{text, num, obj, entry, no_entry}
use malts.Store.{
  Store, OperationState, LeaseState, Operation, Lease, Returns, Services, value_error,
  state_conflict, operation_conflict, transaction,
}
use malts.Store.Query.{find, update}
use malts.Store.Rows.{operation_row, is_prepared, is_unknown, add_audit}
use malts.Operations.Grants.{execution_grant}
use malts.Operations.Lifecycle.{Intent, no_execution, hash_agrees, intent_new, is_unchanged}

-- The arguments of record_intent.
pub record IntentRequest : Type 0 where
  pub operation_id : String
  pub actor : String
  pub expected_request_hash : Option String
  pub lease_seconds : ℕ

-- An exact epoch/fence token.
pub record Token : Type 0 where
  pub epoch : String
  pub fence : ℕ

abbrev pub require_seconds : ℕ → Returns (Unit {0})
require_seconds n = require (leb 1 n && leb n 3600) value_error

abbrev pub lease_row : String → List Lease → Option Lease
lease_row id leases = find (λ l. l.operation_id == id) leases

unfoldable pub is_intent_recorded : OperationState → Bool
is_intent_recorded OperationState.intent_recorded = true
is_intent_recorded _ = false

unfoldable pub is_lease_held : LeaseState → Bool
is_lease_held LeaseState.held = true
is_lease_held _ = false

unfoldable pub extend_lease : String → ℕ → Store → Store
extend_lease id expires s = record s {
  leases = update (λ l. l.operation_id == id) (λ l. record l { expires_at = expires }) s.leases;
}

unfoldable pub set_lease_state : String → LeaseState → Store → Store
set_lease_state id state s = record s {
  leases = update (λ l. l.operation_id == id) (λ l. record l { state = state }) s.leases;
}

-- The lease's row is the one of the token.
unfoldable pub is_token_of : Token → String → Lease → Bool
is_token_of token actor l = l.epoch == token.epoch && eqb l.fence token.fence && l.actor == actor

unfoldable pub record_renewal : String → Token → ℕ → Store → Store
record_renewal id token expires s =
    add_audit "LEASE_RENEWED" id
      (entry "token"
        (obj (entry "epoch" (text token.epoch) (entry "fence" (num token.fence) no_entry)))
        (entry "expires_at" (num expires) no_entry))
      (extend_lease id expires s)

-- A second of the clock, in the unit of the instants.
module _ (services : Services) (now second : ℕ) where
  unfoldable pub intent_in : IntentRequest → Store → Returns (Intent × Store)
  intent_in r s = do
    o ← present (operation_row r.operation_id s) state_conflict
    g ← execution_grant services now o.grant_id r.actor (is_unknown o.state) s
    require (hash_agrees r.expected_request_hash o.request_hash)
        (operation_conflict "OPERATION_REQUEST_MISMATCH")
    if is_prepared o.state
        then intent_new services o g r.actor (now + r.lease_seconds * second) s
        else done (no_execution o.state, s)

  unfoldable pub record_intent : IntentRequest → Store → Returns (Intent × Store)
  record_intent r s = do require_seconds r.lease_seconds; transaction services (intent_in r) s

  -- The lease is of this epoch, held and not expired, and its operation is committed.
  unfoldable pub is_current : Lease → Operation → Store → Bool
  is_current l o s =
      s.epoch == l.epoch
      && is_lease_held l.state
      && is_intent_recorded o.state
      && ltb now l.expires_at

  -- _lease
  unfoldable pub checked_lease : String → String → Token → Store → Returns Lease
  checked_lease id actor token s = do
    l ← present (lease_row id s.leases) state_conflict
    o ← present (operation_row id s) state_conflict
    require (is_token_of token actor l) state_conflict
    require (is_current l o s) (operation_conflict "LEASE_NOT_CURRENT")
    g ← execution_grant services now o.grant_id actor false s
    services.trial_ready id s
    services.export_ready id actor s
    resolved ← services.physical_resource o.task_id g.resource g.effect s
    require (is_unchanged o.resource resolved) (operation_conflict "RESOURCE_IDENTITY_CHANGED")
    done l

  -- The expiry of a lease that is valid; nothing is written.
  unfoldable pub verify_lease : String → String → Token → Store → Returns ℕ
  verify_lease id actor token s = do l ← checked_lease id actor token s; done l.expires_at

  unfoldable pub renew_in : String → String → Token → ℕ → Store → Returns (ℕ × Store)
  renew_in id actor token seconds s = do
    l ← checked_lease id actor token s
    let expires = max l.expires_at (now + seconds * second)
    done (expires, record_renewal id token expires s)

  unfoldable pub renew_lease : String → String → Token → ℕ → Store → Returns (ℕ × Store)
  renew_lease id actor token seconds s = do
    require_seconds seconds
    transaction services (renew_in id actor token seconds) s
