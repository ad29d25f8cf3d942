-- ===== src/Operations/Settled.antt =====
-- tools/v2_operations.py: observations of a committed effect.
use malts.Base.{
  ◌≡◌, refl, ap, ◌∙◌, String, ◌==◌, Bool, true, false, Option, none, some, arith, eqb, leb,
  is_blank, if◌then◌else◌, text_append,
}
use malts.Base.Outcome.{done}
use malts.Store.{Store, Services, Operation, Grant, Task, Marker}
use malts.Store.Rows.{
  operation_row, grant_row, task_row, is_pending, set_operation_state, add_audit,
}
use malts.Store.Committed.{transaction-runs}
use malts.Effects.{reconcile_effect_state, marker_row, has_unknown, require_recovery, settle}
use malts.Operations.Grants.{held_grant}
use malts.Operations.Leases.{set_lease_state}
use malts.Operations.Observe.{
  Sighting, observed, observe, observe_in, observe_new, sealed_reference, observed_state,
  observation_row, record_outcome, add_observation,
}
use malts.Operations.Change.{view, row}
use malts.Operations.Once.{row_set}
use malts.Operations.Views.{view-reconcile}
use malts.Operations.Steps.{view-record_outcome}

-- What an observation of a committed effect needs: that its texts are admitted, the actor of the
-- operation's grant, a new identity, and that its reference can be sealed. Neither a limit of time nor
-- the state of the task is asked for.
pub record IsObservable (services : Services) (r : Sighting) (s : Store) : Type 0 where
  pub named : is_blank r.observation_id ≡ false
  pub referenced : is_blank r.evidence_ref ≡ false
  pub small : leb (services.reference_bytes r.evidence_ref) 16384 ≡ true
  pub writable : s.readonly ≡ false
  pub ready : services.authority_ready s ≡ done tt
  pub guarded : services.transaction_guard s ≡ done tt
  pub operation : Operation
  pub found : operation_row r.operation_id s ≡ some operation
  pub pending : is_pending operation.state ≡ true
  pub grant : Grant
  pub granted : grant_row operation.grant_id s ≡ some grant
  pub held : (grant.actor == r.actor) ≡ true
  pub fresh : observation_row r.observation_id s ≡ none
  pub task : Task
  pub owned : task_row operation.task_id s ≡ some task
  pub control : String
  pub sealed : sealed_reference services r s ≡ done control
  pub marked :
      (m : Marker) → marker_row operation.task_id s ≡ some m → m.task_revision ≡ task.revision

abbrev agrees : Task → Option Marker → Bool
agrees t marker = elim marker [ none ↦ true | some m ↦ eqb m.task_revision t.revision ]

agrees-marked :
    (t : Task) (marker : Option Marker)
    → ((m : Marker) → marker ≡ some m → m.task_revision ≡ t.revision)
    → agrees t marker ≡ true
agrees-marked t none h = refl
agrees-marked t (some m) h = ground (arith, h m refl)

reconcile-returns :
    (id fact : String) (s : Store) (t : Task)
    → task_row id s ≡ some t
    → agrees t (marker_row id s) ≡ true
    → (s' : Store) × (reconcile_effect_state id fact s ≡ done s')
unfolding reconcile_effect_state
reconcile-returns id fact s t e k =
    let m = marker_row id s in
    let after : Store =
      if has_unknown id s then require_recovery t m fact s else settle t m fact s in
    (after, rw (e, k) refl)

outcome-tasks :
    (r : Sighting) (s : Store)
    → ((record_outcome r s).tasks ≡ s.tasks) × ((record_outcome r s).markers ≡ s.markers)
unfolding record_outcome add_audit set_lease_state set_operation_state add_observation
outcome-tasks r s = (refl, refl)

-- The call returns a store in which the operation has the state of the outcome.
abbrev pub Settles : Sighting → Operation → (Store → Type 0) → Type 0
Settles r o Returned =
    (s' : Store) × Returned s'
    × (row r.operation_id (view s') ≡ some (record o { state = observed_state r.outcome }))

observe_new-returns :
    (services : Services) (r : Sighting) (s : Store) (h : IsObservable services r s)
    → Settles r h.operation (λ s'.
      observe_new services r h.operation s ≡ done (observed (observed_state r.outcome), s'))
unfolding observe_new marker_row view
observe_new-returns services r s h =
    let (tasks, markers) = outcome-tasks r s in
    let fact = text_append "observation:" r.observation_id in
    let (s', e) =
      reconcile-returns h.operation.task_id fact (record_outcome r s) h.task (rw tasks h.owned)
        (rw markers (agrees-marked h.task (marker_row h.operation.task_id s) h.marked)) in
    let same =
      view-reconcile h.operation.task_id fact (record_outcome r s) s' e ∙ view-record_outcome r s in
    (
      s',
      rw (h.pending, h.sealed, e) refl,
      ap (λ v. row r.operation_id v) same
          ∙ row_set r.operation_id (observed_state r.outcome) h.operation (view s) h.found,
    )

-- An observation of an effect that is committed and not settled returns and gives the operation the
-- state of its outcome, if its texts are admitted, it is new, its reference can be sealed, its actor
-- holds the operation's grant, the store can be written, its authority and guard are ready, the task
-- is known, and no recovery of the task is for another revision: the grant may be revoked or expired
-- and the task stopped.
pub observe-returns :
    (services : Services) (r : Sighting) (s : Store) (h : IsObservable services r s)
    → Settles r h.operation
        (λ s'. observe services r s ≡ done (observed (observed_state r.outcome), s'))
unfolding observe observe_in held_grant
observe-returns services r s h =
    let (s', e, state) = observe_new-returns services r s h in
    let inside : observe_in services r s ≡ done (observed (observed_state r.outcome), s') =
      rw (h.found, h.granted, h.held, h.fresh) e in
    (
      s',
      rw (h.named, h.referenced, h.small)
          (transaction-runs services (observe_in services r) s h.writable h.ready h.guarded
            ∙ inside),
      state,
    )
