-- ===== src/Effects/Rework.antt =====
-- tools/v2_task_lifecycle.py: the return to work, and the evidence of the revision.
use malts.Base.{
  ℕ, ◌≡◌, ◌≢◌, refl, sym, ap, ◌∙◌, String, ◌==◌, Bool, true, ◌&&◌, Option, none, some, arith, eqb,
  leb,
}
use malts.Base.{
  List, [], ◌∷◌, All, any, keep, if◌then◌else◌, Bool-cases, inl, inr, eq_refl, false≢true,
}
use malts.Base.Outcome.{done, require, bind-eq-done, then-eq-done, done-eq, state-eq}
use mathlib.Core.Path.{subst}
use malts.Store.{
  Store, Services, Evidence, Invalidation, Receipt, Returns, TaskStatus, state_conflict,
  value_error,
}
use malts.Store.Rows.{require_text, receipt_row, set_status, add_audit}
use malts.Store.Committed.{transaction-eq-done}
use malts.Effects.Verify.{
  Verified, reworked, replayed, transition, transition_in, transition_known, apply_transition,
  replay, begin_work, require_verification_ready, is_verifying, invalidate_each,
  invalidate_evidence, record_transition, current_status, fingerprint,
}

abbrev pub is_invalid : String → List Invalidation → Bool
is_invalid id known = any (λ (i : Invalidation). i.evidence_id == id) known

invalid-each :
    (id authority : String) (es : List Evidence) (known : List Invalidation)
    → is_invalid id known ≡ true
    → is_invalid id (invalidate_each authority es known) ≡ true
unfolding invalidate_each
invalid-each id authority [] known h = h
invalid-each id authority (e ∷ es) known h = elim (Bool-cases (is_invalid e.evidence_id known)) [
  | inl k ↦ rw k (invalid-each id authority es known h)
  | inr k ↦ rw k (invalid-each id authority es _ (ground arith))
]

-- The invalidations after the row of one evidence.
abbrev next : String → Evidence → List Invalidation → List Invalidation
next authority e known =
    if is_invalid e.evidence_id known
    then known
    else record { evidence_id = e.evidence_id; authority_ref = authority } ∷ known

is_invalid-next :
    (authority : String) (e : Evidence) (known : List Invalidation)
    → is_invalid e.evidence_id (next authority e known) ≡ true
is_invalid-next authority e known = elim (Bool-cases (is_invalid e.evidence_id known)) [
  | inl k ↦ rw k k
  | inr k ↦ rw k (ground (arith, eq_refl e.evidence_id))
]

each-invalid :
    (authority : String) (es : List Evidence) (known : List Invalidation)
    → All (λ e. is_invalid e.evidence_id (invalidate_each authority es known) ≡ true) es
unfolding invalidate_each
each-invalid authority [] known = tt
each-invalid authority (e ∷ es) known =
    let after = next authority e known in
    (
      invalid-each e.evidence_id authority es after (is_invalid-next authority e known),
      each-invalid authority es after,
    )

-- Each evidence of the revision is invalidated.
abbrev pub Invalidated : String → ℕ → List Invalidation → Evidence → Type 0
Invalidated id revision known e =
    (e.task_id == id && eqb e.task_revision revision) ≡ true → is_invalid e.evidence_id known ≡ true

kept-All :
    (id : String) (revision : ℕ) (known : List Invalidation) (es : List Evidence)
    → All
        (λ e. is_invalid e.evidence_id known ≡ true)
        (keep (λ e. e.task_id == id && eqb e.task_revision revision) es)
    → All (Invalidated id revision known) es
kept-All id revision known [] h = tt
kept-All id revision known (e ∷ es) h =
    elim (Bool-cases (e.task_id == id && eqb e.task_revision revision)) [
      | inl k ↦ let h' = rw k at h in (λ _. h'.0, kept-All id revision known es h'.1)
      | inr k ↦
          let h' = rw k at h in
          (λ j. absurd (false≢true (sym k ∙ j)), kept-All id revision known es h')
    ]

begin_work-evidence :
    (services : Services) (id : String) (revision : ℕ) (review : String) (s s' : Store)
    → begin_work services id revision review s ≡ done s'
    → All (Invalidated id revision s'.invalidations) s.evidence
unfolding begin_work invalidate_evidence set_status
begin_work-evidence services id revision review s s' h =
    let (t, _, h1) = bind-eq-done (require_verification_ready services id revision s) _ h in
    let same = done-eq (then-eq-done (require (is_verifying t.status) state_conflict) h1) in
    subst (λ (x : Store). All (Invalidated id revision x.invalidations) s.evidence) same
      (kept-All id revision _ s.evidence (each-invalid review (keep _ s.evidence) s.invalidations))

recorded-invalidations :
    (services : Services) (id : String) (revision : ℕ) (request review : String) (s : Store)
    → (record_transition services true id revision request review s).invalidations ≡ s.invalidations
unfolding record_transition add_audit
recorded-invalidations services id revision request review s = refl

replayed-ne-reworked :
    (w status : TaskStatus) (s s' : Store)
    → ◌≢◌ {A = Returns (Verified × Store)} (done (replayed w, s)) (done (reworked status, s'))
replayed-ne-reworked w status s s' h = cc

known-evidence :
    (services : Services) (id : String) (revision : ℕ) (request review : String)
    (old : Option Receipt) (s s' : Store) (status : TaskStatus)
    → transition_known services true id revision request review old s ≡ done (reworked status, s')
    → All (Invalidated id revision s'.invalidations) s.evidence
unfolding transition_known replay apply_transition
known-evidence services id revision request review (some old) s s' status h =
    let h1 =
      then-eq-done
        (require
          (old.request_hash == fingerprint services true id revision review
            && eqb old.revision revision)
          state_conflict)
        h in
    let (w, _, h2) = bind-eq-done (current_status services id s) _ h1 in
    absurd (replayed-ne-reworked w status s s' h2)
known-evidence services id revision request review none s s' status h =
    let (moved, k, h1) = bind-eq-done (begin_work services id revision review s) _ h in
    let recorded = record_transition services true id revision request review moved in
    let (w, _, h2) = bind-eq-done (current_status services id recorded) _ h1 in
    let same : moved.invalidations ≡ s'.invalidations =
      sym (recorded-invalidations services id revision request review moved)
      ∙ ap (λ (x : Store). x.invalidations) (state-eq h2) in
    subst (λ is. All (Invalidated id revision is) s.evidence) same
      (begin_work-evidence services id revision review s moved k)

-- After a rework that is no repetition, every evidence of the task's revision that the store held has
-- a row of invalidation.
pub transition-IsInvalid :
    (services : Services) (id : String) (revision : ℕ) (request review : String) (s s' : Store)
    (status : TaskStatus)
    → transition services true id revision request review s ≡ done (reworked status, s')
    → All (Invalidated id revision s'.invalidations) s.evidence
unfolding transition transition_in
transition-IsInvalid services id revision request review s s' status h =
    let h1 = then-eq-done (require_text id) h in
    let h2 = then-eq-done (require_text request) h1 in
    let h3 = then-eq-done (require_text review) h2 in
    let h4 = then-eq-done (require (leb 1 revision) value_error) h3 in
    let (_, h5) =
      transaction-eq-done services (transition_in services true id revision request review) s h4 in
    known-evidence services id revision request review (receipt_row request s) s s' status h5
