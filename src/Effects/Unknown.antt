-- ===== src/Effects/Unknown.antt =====
-- tools/v2_task_lifecycle.py: a task with an unknown effect.
use malts.Base.{
  ◌≡◌, refl, sym, ap, ◌∙◌, String, ◌==◌, true, false, ◌&&◌, Option, none, some, arith, eqb,
}
use malts.Base.{All, Bool-cases, inl, inr, false≢true, eq_iff}
use malts.Base.Outcome.{
  done, present, require, bind-eq-done, then-eq-done, done-eq, present-eq-done,
}
use mathlib.Core.Path.{subst}
use malts.Store.{Store, Task, TaskStatus, Marker, Acceptance, state_conflict}
use malts.Store.Query.{find, update, find-update, find-Memᴰ, All-updated}
use malts.Store.Rows.{task_row, status_in, set_status, add_audit}
use malts.Effects.{
  has_unknown, marker_row, reconcile_effect_state, require_recovery, add_marker,
  invalidate_acceptance, settled_or_recovering, is_completed,
}

abbrev InvalidAcceptance : String → Acceptance → Type 0
InvalidAcceptance id a = (a.task_id == id) ≡ true → a.valid ≡ false

-- The task with an unknown effect is stopped for recovery, or was cancelled or failed; if it was
-- completed, its acceptance is no longer valid.
pub record IsRecovering (id : String) (s s' : Store) : Type 0 where
  pub status :
      (t : Task) × (task_row id s' ≡ some t) × (status_in t.status settled_or_recovering ≡ true)
  pub acceptance :
      (t : Task)
      → task_row id s ≡ some t
      → t.status ≡ TaskStatus.completed
      → All (InvalidAcceptance id) s'.acceptances

recovery-status :
    (t : Task) (m : Option Marker) (fact : String) (s : Store)
    → status_in t.status settled_or_recovering ≡ false
    → (require_recovery t m fact s).tasks
      ≡ update
          (λ (x : Task). x.task_id == t.task_id)
          (λ x. record x { status = TaskStatus.recovery_required })
          s.tasks
unfolding require_recovery add_audit set_status add_marker invalidate_acceptance
recovery-status t none fact s h =
    rw h (elim (Bool-cases (is_completed t.status)) [ inl e ↦ rw e refl | inr e ↦ rw e refl ])
recovery-status t (some m) fact s h =
    rw h (elim (Bool-cases (is_completed t.status)) [ inl e ↦ rw e refl | inr e ↦ rw e refl ])

recovery-acceptances :
    (t : Task) (m : Option Marker) (fact : String) (s : Store)
    → status_in t.status settled_or_recovering ≡ false
    → is_completed t.status ≡ true
    → (require_recovery t m fact s).acceptances
      ≡ update
          (λ (a : Acceptance). a.task_id == t.task_id && a.valid)
          (λ a. record a { valid = false; invalidation_ref = some "unknown-effect" })
          s.acceptances
unfolding require_recovery add_audit set_status add_marker invalidate_acceptance
recovery-acceptances t none fact s h e = rw (h, e) refl
recovery-acceptances t (some m) fact s h e = rw (h, e) refl

recovery-none :
    (t : Task) (m : Option Marker) (fact : String) (s : Store)
    → status_in t.status settled_or_recovering ≡ true
    → require_recovery t m fact s ≡ s
unfolding require_recovery
recovery-none t m fact s h = rw h refl

row-id : (id : String) (s : Store) (t : Task) → task_row id s ≡ some t → t.task_id ≡ id
row-id id s t e = (eq_iff t.task_id id).0 (find-Memᴰ (λ (x : Task). x.task_id == id) s.tasks t e).1

stopped-row :
    (id : String) (s : Store) (t : Task)
    → task_row id s ≡ some t
    → find
        (λ (x : Task). x.task_id == id)
        (update
          (λ (x : Task). x.task_id == id)
          (λ x. record x { status = TaskStatus.recovery_required })
          s.tasks)
      ≡ some (record t { status = TaskStatus.recovery_required })
stopped-row id s t e =
    let found = (find-Memᴰ (λ (x : Task). x.task_id == id) s.tasks t e).1 in
    let after =
      find-update (λ (x : Task). x.task_id == id) (λ (x : Task). x.task_id == id)
        (λ x. record x { status = TaskStatus.recovery_required }) s.tasks t (λ x. refl) e in
    rw found at after

completed-row :
    (t x : Task) (s : Store)
    → task_row t.task_id s ≡ some t
    → task_row t.task_id s ≡ some x
    → x.status ≡ TaskStatus.completed
    → t.status ≡ TaskStatus.completed
completed-row t x s e e' c = let same : t ≡ x = cc in ap (λ (y : Task). y.status) same ∙ c

recovering :
    (t : Task) (m : Option Marker) (fact : String) (s : Store)
    → task_row t.task_id s ≡ some t
    → IsRecovering t.task_id s (require_recovery t m fact s)
unfolding status_in is_completed
recovering t m fact s e = elim (Bool-cases (status_in t.status settled_or_recovering)) [
  | inl k ↦
      subst (λ x. IsRecovering t.task_id s x) (sym (recovery-none t m fact s k))
        (record {
          status = (t, e, k);
          acceptance = λ x e' c.
              let status = completed-row t x s e e' c in
              absurd (false≢true (sym (ap (λ w. status_in w settled_or_recovering) status) ∙ k));
        })
  | inr k ↦ record {
    status = (
      record t { status = TaskStatus.recovery_required },
      ap (λ ts. find (λ (x : Task). x.task_id == t.task_id) ts) (recovery-status t m fact s k)
          ∙ stopped-row t.task_id s t e,
      refl,
    );
    acceptance = λ x e' c.
        let status = completed-row t x s e e' c in
        subst (λ rows. All (InvalidAcceptance t.task_id) rows)
          (sym (recovery-acceptances t m fact s k (rw status refl)))
          (All-updated (InvalidAcceptance t.task_id) (λ a. a.task_id == t.task_id && a.valid)
            (λ a. record a { valid = false; invalidation_ref = some "unknown-effect" })
            s.acceptances (λ a g f. refl) (λ a g f. ground arith));
  }
]

-- A reconciliation that returns leaves a task with an unknown effect stopped for recovery, cancelled
-- or failed, and without a valid acceptance if it was completed.
pub reconcile-IsRecovering :
    (id fact : String) (s s' : Store)
    → reconcile_effect_state id fact s ≡ done s'
    → has_unknown id s ≡ true
    → IsRecovering id s s'
unfolding reconcile_effect_state
reconcile-IsRecovering id fact s s' h unknown =
    let (t, p, h1) = bind-eq-done (present (task_row id s) state_conflict) _ h in
    let m = marker_row id s in
    let same = done-eq (
      then-eq-done
        (require (elim m [ none ↦ true | some m ↦ eqb m.task_revision t.revision ]) state_conflict)
        h1) in
    let row = present-eq-done _ _ p in
    let name = row-id id s t row in
    let after : require_recovery t m fact s ≡ s' = rw unknown at same in
    subst (λ x. IsRecovering id s x) after
      (subst (λ i. IsRecovering i s (require_recovery t m fact s)) name
        (recovering t m fact s (subst (λ i. task_row i s ≡ some t) (sym name) row)))
