-- ===== src/Operations/Grants.antt =====
-- tools/v2_operations.py: record_grant, revoke_grant and _grant.
use malts.Base.{ℕ, String, ◌==◌, Bool, true, false, not, ◌&&◌, ◌||◌, Option, none, some, eqb, leb}
use malts.Base.{List, [], ◌∷◌, ◌++◌, any, contains, if◌then◌else◌}
use malts.Base.Outcome.{done, raised, ◌>>=◌, ◌>>◌, require, present}
use malts.Json.{text, entry, no_entry}
use malts.Store.{
  Store, TaskStatus, Grant, Effect, Returns, Services, value_error, state_conflict, access_denied,
  operation_conflict, transaction,
}
use malts.Store.Query.{find}
use malts.Store.Rows.{
  require_text, task_of, grant_row, status_in, is_host_running, add_audit, revoke_grants,
}

pub data Recorded : Type 0 where
  recorded replayed : Recorded

unfoldable pub same_text : Option String → Option String → Bool
same_text none none = true
same_text (some a) (some b) = a == b
same_text _ _ = false

unfoldable pub same_limit : Option ℕ → Option ℕ → Bool
same_limit none none = true
same_limit (some a) (some b) = eqb a b
same_limit _ _ = false

effect_index : Effect → ℕ
effect_index Effect.read = 0
effect_index Effect.write = 1
effect_index Effect.external = 2

unfoldable pub same_effect : Effect → Effect → Bool
unfolding effect_index
same_effect a b = eqb (effect_index a) (effect_index b)

-- The recorded grant is the one that is asked for, and not revoked.
unfoldable pub same_grant : Grant → Grant → Bool
same_grant a b =
    a.grant_id == b.grant_id
    && a.task_id == b.task_id
    && eqb a.task_revision b.task_revision
    && a.actor == b.actor
    && a.source_ref == b.source_ref
    && a.resource == b.resource
    && same_effect a.effect b.effect
    && not a.revoked
    && same_text a.expires_at b.expires_at
    && same_limit a.max_operations b.max_operations

unfoldable pub add_grant : Grant → Store → Store
add_grant g s =
    add_audit "GRANT_RECORDED" g.grant_id (entry "source_ref" (text g.source_ref) no_entry)
      (record s { grants = g ∷ s.grants })

-- `self._instant(expires_at)`, which may be refused.
unfoldable pub instant_of : Services → String → Returns ℕ
instant_of services value = present (services.instant value) value_error

-- `expires_at is not None and self._instant(expires_at) <= self.clock()`
unfoldable pub is_expired : Services → ℕ → Option String → Returns Bool
is_expired services now none = done false
is_expired services now (some value) = do end ← instant_of services value; done (leb end now)

-- authority_review_sha256
unfoldable pub check_review : Option String → Store → Returns (Unit {0})
check_review none s = done tt
check_review (some sha) s = do
  require_text sha
  require (not (any (λ a. a.kind == "AUTHORITY_REVOKED" && a.subject_id == sha) s.audits))
      state_conflict

-- expected_authority_sha256
unfoldable pub check_expected : Services → String → Option String → Store → Returns (Unit {0})
check_expected services id none s = done tt
check_expected services id (some sha) s = do
  services.execution_ready s
  require (services.authority_sha256 id s == sha) state_conflict

unfoldable pub require_instant : Option String → Returns (Unit {0})
require_instant none = done tt
require_instant (some value) = require_text value

-- _grant: the row, if the actor holds it.
unfoldable pub held_grant : String → String → Store → Returns Grant
held_grant id actor s = do
  g ← present (grant_row id s) (access_denied "GRANT_NOT_APPLICABLE")
  require (g.actor == actor) (access_denied "GRANT_NOT_APPLICABLE")
  done g

-- The statuses in which an operation is admitted.
unfoldable pub admitted_statuses : Bool → Bool → List TaskStatus
admitted_statuses allow_recovery allow_verification =
    TaskStatus.ready
    ∷ TaskStatus.running
    ∷ ((if allow_recovery then TaskStatus.recovery_required ∷ [] else [])
        ++ (if allow_verification then TaskStatus.verifying ∷ [] else []))

unfoldable pub revoke_grant_in : String → String → Store → Returns Store
revoke_grant_in id source s = do
  g ← present (grant_row id s) state_conflict
  done (
      if g.revoked
      then s
      else add_audit "GRANT_REVOKED" id (entry "source_ref" (text source) no_entry)
          (revoke_grants (λ (h : Grant). h.grant_id == id) s))

-- With the row of the grant's identity, if there is one.
unfoldable pub insert_grant : Grant → Option Grant → Store → Returns (Recorded × Store)
insert_grant g (some old) s = do
  require (same_grant old g) (operation_conflict "GRANT_DEFINITION_CONFLICT")
  done (replayed, s)
insert_grant g none s = done (recorded, add_grant g s)

module _ (services : Services) (now : ℕ) where
  unfoldable pub record_grant_in :
      Grant → Option String → Option String → Store → Returns (Recorded × Store)
  record_grant_in g review expected s = do
    check_review review s
    check_expected services g.task_id expected s
    found ← present (task_of g.task_id s) state_conflict
    require (eqb found.0.revision g.task_revision && contains g.resource found.1.scope)
        state_conflict
    insert_grant g (grant_row g.grant_id s) s

  -- The grant that is asked for is not revoked; a limit below 0 is no number here.
  unfoldable pub record_grant :
      Grant → Option String → Option String → Store → Returns (Recorded × Store)
  record_grant g review expected s = do
    require (leb 1 g.task_revision) value_error
    require_text g.grant_id
    require_text g.task_id
    require_text g.actor
    require_text g.source_ref
    require_text g.resource
    require_instant g.expires_at
    expired ← is_expired services now g.expires_at
    require (not expired) state_conflict
    transaction services (record_grant_in (record g { revoked = false }) review expected) s

  unfoldable pub revoke_grant : String → String → Store → Returns Store
  revoke_grant id source s = do
    require_text source
    transaction services (revoke_grant_in id source) s

  -- The managed host of the actor, where one is registered.
  unfoldable pub check_host : String → Bool → Store → Returns (Unit {0})
  check_host actor allow_recovery s = elim (find (λ h. h.actor == actor) s.hosts) [
    | none ↦ done tt
    | some h ↦ elim (find (λ b. b.project_id == h.project_id) s.dispatch_budgets) [
      | none ↦ done tt
      | some b ↦
          if allow_recovery
          then done tt
          else if not (is_host_running h.state) || h.cancel_asked || b.revoked
          then raised (operation_conflict "HOST_NOT_ADMITTED")
          else (do
            expired ← is_expired services now b.expires_at
            require (not expired) (operation_conflict "HOST_NOT_ADMITTED"))
    ]
  ]

  -- _grant with `for_execution`
  unfoldable pub check_execution : Grant → Bool → Bool → Store → Returns (Unit {0})
  check_execution g allow_recovery allow_verification s = do
    services.execution_ready s
    check_host g.actor allow_recovery s
    services.task_phase g.task_id s
    found ← present (task_of g.task_id s) state_conflict
    let t = found.0
    require (not g.revoked) (operation_conflict "GRANT_REVOKED")
    require (eqb t.revision g.task_revision) (operation_conflict "GRANT_REVISION_STALE")
    require (status_in t.status (admitted_statuses allow_recovery allow_verification))
        (operation_conflict "TASK_STATE_NOT_ADMITTED")
    expired ← is_expired services now g.expires_at
    require (not expired) (operation_conflict "GRANT_EXPIRED")
    require (not (services.unresolved_dependencies g.task_id g.task_revision s))
        (operation_conflict "DEPENDENCIES_NOT_ACCEPTED")

  unfoldable pub execution_grant : String → String → Bool → Store → Returns Grant
  execution_grant id actor allow_recovery s = do
    g ← held_grant id actor s
    check_execution g allow_recovery false s
    done g

  -- With the resource and the effect that are asked for.
  unfoldable pub scoped_grant : String → String → String → Effect → Store → Returns Grant
  scoped_grant id actor resource effect s = do
    g ← held_grant id actor s
    require (g.resource == resource && same_effect g.effect effect)
        (access_denied "GRANT_SCOPE_MISMATCH")
    check_execution g false false s
    done g
