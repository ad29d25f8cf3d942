-- ===== src/Operations/Budgets.antt =====
-- tools/v2_operations.py: the budgets of grants, tasks and projects, which count committed intents.
use malts.Base.{ℕ, ◌+◌, ◌-◌, String, ◌==◌, Bool, false, ◌&&◌, Option, none, some, eqb, leb, ltb}
use malts.Base.{List, ◌∷◌, any}
use malts.Base.Outcome.{done, ◌>>=◌, ◌>>◌, require, present}
use malts.Json.{text, num, arr, obj, Entries, entry, no_entry, element, no_element, get}
use malts.Store.{
  Store, Task, Grant, Operation, Budget, Audit, Returns, Services, value_error, state_conflict,
  operation_conflict, budget_exhausted, transaction,
}
use malts.Store.Query.{find, update, count}
use malts.Store.Rows.{require_text, task_of, task_row, add_audit}
use malts.Operations.Grants.{Recorded, recorded, replayed}

-- The committed intents of the operations that a test picks.
unfoldable pub consumed : (Operation → Bool) → Store → ℕ
consumed p s =
    count
      (λ a.
        a.kind == "INTENT_RECORDED"
        && any (λ o. o.operation_id == a.subject_id && p o) s.operations)
      s.audits

abbrev pub of_grant : String → Operation → Bool
of_grant id o = o.grant_id == id

abbrev pub of_task : String → Operation → Bool
of_task id o = o.task_id == id

abbrev pub of_project : Store → String → Operation → Bool
of_project s id o = any (λ t. t.task_id == o.task_id && t.project_id == id) s.tasks

abbrev pub budget_row : String → List Budget → Option Budget
budget_row id budgets = find (λ b. b.owner_id == id) budgets

unfoldable pub require_limit : String → Option ℕ → ℕ → Returns (Unit {0})
require_limit scope none used = done tt
require_limit scope (some limit) used = require (ltb used limit) (budget_exhausted scope used limit)

abbrev pub limit_of : Option Budget → Option ℕ
limit_of none = none
limit_of (some b) = some b.max_operations

-- The project of a task whose row is there.
abbrev project_limit : Option Task → Store → Option (String × ℕ)
project_limit none s = none
project_limit (some t) s = elim (budget_row t.project_id s.project_budgets) [
  | none ↦ none
  | some b ↦ some (t.project_id, b.max_operations)
]

unfoldable pub require_project_limit : Option (String × ℕ) → Store → Returns (Unit {0})
require_project_limit none s = done tt
require_project_limit (some (project, limit)) s =
    require_limit "project" (some limit) (consumed (of_project s project) s)

unfoldable pub require_operation_budget : Grant → Store → Returns (Unit {0})
require_operation_budget g s = do
  require_limit "grant" g.max_operations (consumed (of_grant g.grant_id) s)
  require_limit "task" (limit_of (budget_row g.task_id s.task_budgets))
      (consumed (of_task g.task_id) s)
  require_project_limit (project_limit (task_row g.task_id s) s) s

-- The policy as the two tables keep it.
abbrev new_budget : String → ℕ → String → Budget
new_budget id limit authority = record {
  owner_id = id;
  max_operations = limit;
  authority_ref = authority;
  revision = 1;
}

abbrev limit_details : ℕ → String → Entries
limit_details limit authority =
    entry "max_operations" (num limit) (entry "authority_ref" (text authority) no_entry)

-- What the two configurations share, by the table and the intents counted.
unfoldable pub configured :
    Option Budget → ℕ → ℕ → String → Store → Store → Returns (Recorded × Store)
configured (some old) used limit authority s after = do
  require (eqb old.max_operations limit && old.authority_ref == authority) state_conflict
  done (replayed, s)
configured none used limit authority s after = do
  require (leb used limit) state_conflict
  done (recorded, after)

unfoldable pub add_task_budget : String → ℕ → String → Store → Store
add_task_budget id limit authority s =
    add_audit "TASK_BUDGET_CONFIGURED" id (limit_details limit authority)
      (record s { task_budgets = new_budget id limit authority ∷ s.task_budgets })

unfoldable pub add_project_budget : String → ℕ → String → Store → Store
add_project_budget id limit authority s =
    add_audit "PROJECT_BUDGET_CONFIGURED" id (limit_details limit authority)
      (record s { project_budgets = new_budget id limit authority ∷ s.project_budgets })

unfoldable pub configure_task_in : String → ℕ → String → Store → Returns (Recorded × Store)
configure_task_in id limit authority s = do
  found ← present (task_of id s) state_conflict
  configured (budget_row id s.task_budgets) (consumed (of_task id) s) limit authority s
      (add_task_budget id limit authority s)

unfoldable pub configure_project_in : String → ℕ → String → Store → Returns (Recorded × Store)
configure_project_in id limit authority s = do
  require (any (λ p. p == id) s.projects) state_conflict
  configured (budget_row id s.project_budgets) (consumed (of_project s id) s) limit authority s
      (add_project_budget id limit authority s)

module _ (services : Services) where
  unfoldable pub configure_task_budget : String → ℕ → String → Store → Returns (Recorded × Store)
  configure_task_budget id limit authority s = do
    require_text authority
    transaction services (configure_task_in id limit authority) s

  unfoldable pub configure_project_budget : String → ℕ → String → Store → Returns (Recorded × Store)
  configure_project_budget id limit authority s = do
    require_text authority
    transaction services (configure_project_in id limit authority) s

pub data Scope : Type 0 where
  project_scope task_scope : Scope

-- The arguments of amend_budget.
pub record Amendment : Type 0 where
  pub scope : Scope
  pub owner_id : String
  pub expected_revision : ℕ
  pub expected_max_operations : ℕ
  pub expected_authority_ref : String
  pub max_operations : ℕ
  pub authority_ref : String
  pub reason : String
  pub request_id : String

unfoldable pub scope_text : Scope → String
scope_text project_scope = "project"
scope_text task_scope = "task"

unfoldable pub budgets_of : Scope → Store → List Budget
budgets_of project_scope s = s.project_budgets
budgets_of task_scope s = s.task_budgets

unfoldable pub consumed_in : Scope → String → Store → ℕ
consumed_in project_scope id s = consumed (of_project s id) s
consumed_in task_scope id s = consumed (of_task id) s

-- The project that owns the budget; `none` is an unknown task. A project without its row has no key
-- to make a fingerprint with.
unfoldable pub owner_of : Scope → String → Store → Option String
owner_of project_scope id s = some id
owner_of task_scope id s = elim (task_row id s) [ none ↦ none | some t ↦ some t.project_id ]

abbrev amended : Amendment → Budget → Budget
amended a b = record b {
  max_operations = a.max_operations;
  authority_ref = a.authority_ref;
  revision = b.revision + 1;
}

unfoldable pub set_budget : Amendment → Scope → Store → Store
set_budget a project_scope s = record s {
  project_budgets = update (λ b. b.owner_id == a.owner_id) (amended a) s.project_budgets;
}
set_budget a task_scope s = record s {
  task_budgets = update (λ b. b.owner_id == a.owner_id) (amended a) s.task_budgets;
}

unfoldable pub amendment_hash : Services → String → Amendment → String
amendment_hash services owner a = services.request_fingerprint owner (
    arr (
      element (text (scope_text a.scope)) (
        element (text a.owner_id) (
          element (num a.expected_revision) (
            element (num a.expected_max_operations) (
              element (text a.expected_authority_ref) (
                element (num a.max_operations)
                  (element (text a.authority_ref) (element (text a.reason) no_element)))))))))

-- `json.loads(details)['request_hash'] == fingerprint`
unfoldable pub has_hash : String → Audit → Bool
has_hash hash a = elim a.details [
  | obj details ↦ elim (get "request_hash" details) [ some (text h) ↦ h == hash | _ ↦ false ]
  | _ ↦ false
]

unfoldable pub amendment_details : String → Amendment → ℕ → Entries
amendment_details hash a used = entry "request_hash" (text hash) (
    entry "scope" (text (scope_text a.scope)) (
      entry "owner_id" (text a.owner_id) (
        entry "previous_revision" (num a.expected_revision) (
          entry "revision" (num (a.expected_revision + 1)) (
            entry "previous_max_operations" (num a.expected_max_operations) (
              entry "previous_authority_ref" (text a.expected_authority_ref) (
                entry "max_operations" (num a.max_operations) (
                  entry "authority_ref" (text a.authority_ref) (
                    entry "reason" (text a.reason)
                      (entry "intents_consumed" (num used) no_entry))))))))))

pub data Amended : Type 0 where
  amendment_replayed : Amended
  amendment_applied : ℕ → Amended

unfoldable pub apply_amendment : String → Amendment → Store → Returns (Amended × Store)
apply_amendment hash a s = do
  old ←
      present (budget_row a.owner_id (budgets_of a.scope s))
        (operation_conflict "BUDGET_POLICY_STALE")
  require
      (eqb old.max_operations a.expected_max_operations
        && old.authority_ref == a.expected_authority_ref
        && eqb old.revision a.expected_revision)
      (operation_conflict "BUDGET_POLICY_STALE")
  let used = consumed_in a.scope a.owner_id s
  require (leb used a.max_operations) (operation_conflict "BUDGET_BELOW_CONSUMPTION")
  done (
    amendment_applied (a.max_operations - used),
    add_audit "BUDGET_AMENDED" a.request_id (amendment_details hash a used)
        (set_budget a a.scope s),
  )

-- A replay only compares the hash of the request.
unfoldable pub replay_amendment : String → Audit → Store → Returns (Amended × Store)
replay_amendment hash prior s = do
  require (has_hash hash prior) state_conflict
  done (amendment_replayed, s)

unfoldable pub amend_known : String → Amendment → Option Audit → Store → Returns (Amended × Store)
amend_known hash a (some prior) s = replay_amendment hash prior s
amend_known hash a none s = apply_amendment hash a s

unfoldable pub amend_in : Services → Amendment → Store → Returns (Amended × Store)
amend_in services a s = do
  owner ← present (owner_of a.scope a.owner_id s) state_conflict
  require (any (λ p. p == owner) s.projects) state_conflict
  amend_known (amendment_hash services owner a) a
      (find (λ x. x.kind == "BUDGET_AMENDED" && x.subject_id == a.request_id) s.audits) s

-- Limits below 0 are no numbers here.
unfoldable pub amend_budget : Services → Amendment → Store → Returns (Amended × Store)
amend_budget services a s = do
  require_text a.owner_id
  require_text a.expected_authority_ref
  require_text a.authority_ref
  require_text a.reason
  require_text a.request_id
  require (leb 1 a.expected_revision) value_error
  transaction services (amend_in services a) s
