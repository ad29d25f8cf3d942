-- ===== src/Effects/Examples.antt =====
-- A sample rework of v2_task_lifecycle.py, and its theorem.
use malts.Base.{true, ◌≡◌, refl, ◌∷◌, [], is_blank, All}
use malts.Base.Outcome.{done}
use malts.Store.{Store, Evidence, TaskStatus, transaction}
use malts.Store.Rows.{task_of, status_in, set_status, add_audit}
use malts.Effects.Verify.{
  reworked, transition, transition_in, transition_known, apply_transition, begin_work,
  require_verification_ready, is_verifying, invalidate_evidence, invalidate_each, record_transition,
  current_status, has_unsettled, has_unresolved_host, transition_kind, fingerprint,
}
use malts.Effects.Rework.{Invalidated, transition-IsInvalid}
use malts.Operations.Examples.{services, start, state, task}

program : Unit {0}
unfolding transaction is_blank task_of status_in set_status add_audit transition transition_in
    transition_known apply_transition begin_work require_verification_ready is_verifying
    invalidate_evidence invalidate_each record_transition current_status has_unsettled
    has_unresolved_host transition_kind fingerprint
program = tt

abbrev proof : Evidence
proof = record { evidence_id = "v"; task_id = "a"; task_revision = 1 }

abbrev verified : Store
verified = record start {
  tasks = record (task "a") { status = TaskStatus.verifying } ∷ [];
  evidence = proof ∷ [];
}

abbrev returned : Store
returned = state (transition services true "a" 1 "r" "review" verified)

rework_step :
    transition services true "a" 1 "r" "review" verified
    ≡ done (reworked TaskStatus.running, returned)
unfolding program
rework_step = refl

transition-IsInvalid_example : All (Invalidated "a" 1 returned.invalidations) (proof ∷ [])
transition-IsInvalid_example =
    transition-IsInvalid services "a" 1 "r" "review" verified returned TaskStatus.running
      rework_step
