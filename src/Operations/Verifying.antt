-- ===== src/Operations/Verifying.antt =====
-- tools/v2_task_lifecycle.py: the transitions of Verification, each as a change of the operations and
-- the committed intents.
use malts.Base.{
  ℕ, ◌≡◌, refl, sym, ap, ◌∙◌, String, ◌==◌, Bool, true, false, ◌&&◌, Option, none, some,
}
use malts.Base.{eqb, leb, if◌then◌else◌}
use malts.Base.Outcome.{done, require, bind-eq-done, then-eq-done, state-eq, done-eq}
use malts.Store.{Store, Services, Receipt, TaskStatus, state_conflict, value_error}
use malts.Store.Rows.{require_text, receipt_row, set_status, add_audit}
use malts.Store.Committed.{transaction-eq-done}
use malts.Effects.Verify.{
  Verified, transition, transition_in, transition_known, transition_kind, apply_transition, replay,
  begin_work, enter_verification, require_verification_ready, record_transition, start_verification,
  invalidate_evidence, current_status, is_verifying, fingerprint,
}
use malts.Operations.Change.{view, intents, Change}
use malts.Operations.Steps.{same-Change}
use malts.Operations.Views.{view-if}
use malts.Operations.Policies.{view-Change}

view-started :
    (services : Services) (id : String) (revision : ℕ) (review : String) (s : Store)
    → view (start_verification services id revision review s) ≡ view s
unfolding start_verification set_status add_audit view intents
view-started services id revision review s = refl

view-returned :
    (id : String) (revision : ℕ) (review : String) (s : Store)
    → view (set_status id TaskStatus.running (invalidate_evidence id revision review s)) ≡ view s
unfolding invalidate_evidence set_status view
view-returned id revision review s = refl

view-transition :
    (services : Services) (rework : Bool) (id : String) (revision : ℕ) (request review : String)
    (s : Store)
    → view (record_transition services rework id revision request review s) ≡ view s
unfolding record_transition transition_kind add_audit view intents
view-transition services true id revision request review s = refl
view-transition services false id revision request review s = refl

view-moved :
    (services : Services) (rework : Bool) (id : String) (revision : ℕ) (review : String)
    (s s' : Store)
    → (if rework
        then begin_work services id revision review s
        else enter_verification services id revision review s)
      ≡ done s'
    → view s' ≡ view s
unfolding begin_work enter_verification
view-moved services true id revision review s s' h =
    let (t, _, h1) = bind-eq-done (require_verification_ready services id revision s) _ h in
    let same = done-eq (then-eq-done (require (is_verifying t.status) state_conflict) h1) in
    ap view (sym same) ∙ view-returned id revision review s
view-moved services false id revision review s s' h =
    let (t, _, h1) = bind-eq-done (require_verification_ready services id revision s) _ h in
    ap view (sym (done-eq h1))
    ∙ view-if (is_verifying t.status) s (start_verification services id revision review s) (view s)
        refl (view-started services id revision review s)

transition_known-Change :
    (services : Services) (rework : Bool) (id : String) (revision : ℕ) (request review : String)
    (old : Option Receipt) (s s' : Store) (x : Verified)
    → transition_known services rework id revision request review old s ≡ done (x, s')
    → Change (view s) (view s')
unfolding transition_known replay apply_transition
transition_known-Change services rework id revision request review (some old) s s' x h =
    let h1 =
      then-eq-done
        (require
          (old.request_hash == fingerprint services rework id revision review
            && eqb old.revision revision)
          state_conflict)
        h in
    let (w, _, h2) = bind-eq-done (current_status services id s) _ h1 in
    same-Change s s' (state-eq h2)
transition_known-Change services rework id revision request review none s s' x h =
    let (moved, k, h1) =
      bind-eq-done
        (if rework
          then begin_work services id revision review s
          else enter_verification services id revision review s)
        _ h in
    let written = record_transition services rework id revision request review moved in
    let (w, _, h2) = bind-eq-done (current_status services id written) _ h1 in
    view-Change s written s'
      (view-transition services rework id revision request review moved
        ∙ view-moved services rework id revision review s moved k)
      (state-eq h2)

pub transition-Change :
    (services : Services) (rework : Bool) (id : String) (revision : ℕ) (request review : String)
    (s s' : Store) (x : Verified)
    → transition services rework id revision request review s ≡ done (x, s')
    → Change (view s) (view s')
unfolding transition transition_in
transition-Change services rework id revision request review s s' x h =
    let h1 = then-eq-done (require_text id) h in
    let h2 = then-eq-done (require_text request) h1 in
    let h3 = then-eq-done (require_text review) h2 in
    let h4 = then-eq-done (require (leb 1 revision) value_error) h3 in
    let (_, h5) =
      transaction-eq-done services (transition_in services rework id revision request review) s
        h4 in
    transition_known-Change services rework id revision request review (receipt_row request s) s s'
      x h5
