-- ===== src/Operations/History.antt =====
-- tools/v2_operations.py, tools/v2_state_store.py and tools/v2_task_lifecycle.py: the calls as steps of
-- a store, and histories of steps.
use malts.Base.{ℕ, ◌≡◌, String, Bool, Option}
use malts.Base.Outcome.{done}
use malts.Store.{Store, Services, Dependency, Grant}
use malts.Store.Dependencies.{Added, add_dependency}
use malts.Store.Cancel.{Cancellation, Cancelled, cancel_task}
use malts.Store.Revise.{Revision, Revised, revise_task}
use malts.Effects.Verify.{Verified, transition}
use malts.Operations.Grants.{Recorded, record_grant, revoke_grant}
use malts.Operations.Budgets.{
  Amendment, Amended, configure_task_budget, configure_project_budget, amend_budget,
}
use malts.Operations.Lifecycle.{Request, Prepared, prepare, Intent}
use malts.Operations.Leases.{IntentRequest, Token, record_intent, renew_lease}
use malts.Operations.Observe.{CancelResult, cancel_prepared, Sighting, Observed, observe}
use malts.Operations.Change.{view, Change, IsOnce, IsSingle}
use malts.Operations.Once.{Change-IsOnce}
use malts.Operations.Single.{Change-IsSingle}
use malts.Operations.Steps.{
  prepare-Change, record_intent-Change, renew_lease-Change, cancel_prepared-Change, observe-Change,
}
use malts.Operations.Calls.{add_dependency-Change, cancel_task-Change, revise_task-Change}
use malts.Operations.Policies.{
  record_grant-Change, revoke_grant-Change, configure_task_budget-Change,
  configure_project_budget-Change, amend_budget-Change,
}
use malts.Operations.Verifying.{transition-Change}

-- A call that returns.
pub data Step (services : Services) : Store → Store → Type 0 where
  step_prepare :
      {s s' : Store} (now : ℕ) (r : Request) (x : Prepared)
      → prepare services now r s ≡ done (x, s')
      → Step services s s'
  step_intent :
      {s s' : Store} (now second : ℕ) (r : IntentRequest) (x : Intent)
      → record_intent services now second r s ≡ done (x, s')
      → Step services s s'
  step_renew :
      {s s' : Store} (now second : ℕ) (id actor : String) (token : Token) (seconds x : ℕ)
      → renew_lease services now second id actor token seconds s ≡ done (x, s')
      → Step services s s'
  step_drop :
      {s s' : Store} (id actor reason : String) (x : CancelResult)
      → cancel_prepared services id actor reason s ≡ done (x, s')
      → Step services s s'
  step_observe :
      {s s' : Store} (r : Sighting) (x : Observed)
      → observe services r s ≡ done (x, s')
      → Step services s s'
  step_grant :
      {s s' : Store} (now : ℕ) (g : Grant) (review expected : Option String) (x : Recorded)
      → record_grant services now g review expected s ≡ done (x, s')
      → Step services s s'
  step_revoke :
      {s s' : Store} (now : ℕ) (id source : String)
      → revoke_grant services now id source s ≡ done s'
      → Step services s s'
  step_task_budget :
      {s s' : Store} (id : String) (limit : ℕ) (authority : String) (x : Recorded)
      → configure_task_budget services id limit authority s ≡ done (x, s')
      → Step services s s'
  step_project_budget :
      {s s' : Store} (id : String) (limit : ℕ) (authority : String) (x : Recorded)
      → configure_project_budget services id limit authority s ≡ done (x, s')
      → Step services s s'
  step_amend :
      {s s' : Store} (a : Amendment) (x : Amended)
      → amend_budget services a s ≡ done (x, s')
      → Step services s s'
  step_depend :
      {s s' : Store} (d : Dependency) (x : Added)
      → add_dependency services d s ≡ done (x, s')
      → Step services s s'
  step_cancel :
      {s s' : Store} (r : Cancellation) (x : Cancelled)
      → cancel_task services r s ≡ done (x, s')
      → Step services s s'
  step_verify :
      {s s' : Store} (rework : Bool) (id : String) (revision : ℕ) (ref review : String)
      (x : Verified)
      → transition services rework id revision ref review s ≡ done (x, s')
      → Step services s s'
  step_revise :
      {s s' : Store} (r : Revision) (x : Revised)
      → revise_task services r s ≡ done (x, s')
      → Step services s s'

-- Any number of calls, in their order.
pub data History (services : Services) : Store → Store → Type 0 where
  begin : {s : Store} → History services s s
  extend : {s t u : Store} → History services s t → Step services t u → History services s u

-- Each call makes a change of the operations and the committed intents.
pub Step-Change :
    (services : Services) (s s' : Store) → Step services s s' → Change (view s) (view s')
Step-Change services s s' (step_prepare now r x h) = prepare-Change services now r s s' x h
Step-Change services s s' (step_intent now second r x h) =
    record_intent-Change services now second r s s' x h
Step-Change services s s' (step_renew now second id actor token seconds x h) =
    renew_lease-Change services now second id actor token seconds s s' x h
Step-Change services s s' (step_drop id actor reason x h) =
    cancel_prepared-Change services id actor reason s s' x h
Step-Change services s s' (step_observe r x h) = observe-Change services r s s' x h
Step-Change services s s' (step_grant now g review expected x h) =
    record_grant-Change services now g review expected s s' x h
Step-Change services s s' (step_revoke now id source h) =
    revoke_grant-Change services now id source s s' h
Step-Change services s s' (step_task_budget id limit authority x h) =
    configure_task_budget-Change services id limit authority s s' x h
Step-Change services s s' (step_project_budget id limit authority x h) =
    configure_project_budget-Change services id limit authority s s' x h
Step-Change services s s' (step_amend a x h) = amend_budget-Change services a s s' x h
Step-Change services s s' (step_depend d x h) = add_dependency-Change services d s s' x h
Step-Change services s s' (step_cancel r x h) = cancel_task-Change services r s s' x h
Step-Change services s s' (step_verify rework id revision ref review x h) =
    transition-Change services rework id revision ref review s s' x h
Step-Change services s s' (step_revise r x h) = revise_task-Change services r s s' x h

-- A history keeps that each intent is recorded once, and only for an operation that is there and
-- past its preparation: an operation is permitted to take effect once at most.
pub History-IsOnce :
    (services : Services) (s s' : Store)
    → History services s s'
    → IsOnce (view s)
    → IsOnce (view s')
History-IsOnce services s s' begin h = h
History-IsOnce services s s' (extend {t = t} past step) h =
    Change-IsOnce (view t) (view s') (Step-Change services t s' step)
      (History-IsOnce services s t past h)

-- A history keeps that a task has one operation at most whose effect is committed and not settled.
pub History-IsSingle :
    (services : Services) (s s' : Store)
    → History services s s'
    → IsSingle (view s)
    → IsSingle (view s')
History-IsSingle services s s' begin h = h
History-IsSingle services s s' (extend {t = t} past step) h =
    Change-IsSingle (view t) (view s') (Step-Change services t s' step)
      (History-IsSingle services s t past h)
