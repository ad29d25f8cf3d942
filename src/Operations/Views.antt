-- ===== src/Operations/Views.antt =====
-- tools/v2_state_store.py and tools/v2_task_lifecycle.py: the writes that leave the operations and
-- the committed intents.
use malts.Base.{◌≡◌, refl, sym, ap, ◌∙◌, String, ◌==◌, Bool, true, false}
use malts.Base.{Option, none, some, List, [], ◌∷◌, if◌then◌else◌, ◌&&◌, eqb, is_empty, not, ◌||◌}
use malts.Base.Outcome.{done, present, require, bind-eq-done, then-eq-done}
use malts.Json.{Entries}
use malts.Store.{Store, Task, TaskStatus, Marker, state_conflict}
use malts.Store.Rows.{add_audit, set_status, set_runs, has_pending, status_in, task_row}
use malts.Effects.{
  add_marker, invalidate_acceptance, require_recovery, drop_marker, clear_marker, pause_runs,
  settle_pause, settle, reconcile_effect_state, requested_runs, is_pause_asked, resumed_status,
  pending_hosts, is_waiting, is_recovering, settled_or_recovering, is_completed, has_unknown,
  marker_row,
}
use malts.Operations.Change.{View, view, intents}

pub view-add_audit :
    (kind subject : String) (details : Entries) (s : Store)
    → (kind == "INTENT_RECORDED") ≡ false
    → view (add_audit kind subject details s) ≡ view s
unfolding view intents add_audit
view-add_audit kind subject details s h = rw h refl

view-pause_runs :
    (rs : List String) (fact : String) (s : Store) → view (pause_runs rs fact s) ≡ view s
unfolding pause_runs set_runs view
view-pause_runs [] fact s = refl
view-pause_runs (r ∷ rs) fact s = view-pause_runs rs fact _ ∙ view-add_audit "RUN_PAUSED" r _ _ refl

view-set_status : (id : String) (t : TaskStatus) (s : Store) → view (set_status id t s) ≡ view s
unfolding view set_status
view-set_status id t s = refl

-- A test between two stores of one view.
pub view-if :
    (b : Bool) (x y : Store) (v : View) → view x ≡ v → view y ≡ v → view (if b then x else y) ≡ v
view-if true x y v h k = h
view-if false x y v h k = k

view-drop_marker : (id : String) (s : Store) → view (drop_marker id s) ≡ view s
unfolding view drop_marker
view-drop_marker id s = refl

view-clear_marker :
    (t : Task) (m : Option Marker) (status : TaskStatus) (fact : String) (s : Store)
    → view (clear_marker t m status fact s) ≡ view s
unfolding clear_marker
view-clear_marker t none status fact s = refl
view-clear_marker t (some m) status fact s =
    view-add_audit "TASK_EFFECT_RECOVERY_CLEARED" t.task_id _ _ refl
    ∙ (view-drop_marker t.task_id _
        ∙ view-if (is_recovering t.status) (set_status t.task_id status s) s (view s)
            (view-set_status t.task_id status s) refl)

view-settle_pause :
    (t : Task) (status : TaskStatus) (pausing : Bool) (requested : List String) (fact : String)
    (s : Store)
    → view (settle_pause t status pausing requested fact s) ≡ view s
unfolding settle_pause
view-settle_pause t status pausing requested fact s =
    let paused = view-pause_runs requested fact s in
    view-if (is_waiting status && pausing) _ _ (view s)
      (view-add_audit "TASK_PAUSE_SETTLED" t.task_id _ _ refl
        ∙ (view-set_status t.task_id TaskStatus.paused (pause_runs requested fact s) ∙ paused))
      paused

view-settle :
    (t : Task) (m : Option Marker) (fact : String) (s : Store) → view (settle t m fact s) ≡ view s
unfolding settle
view-settle t m fact s =
    let requested = requested_runs t.task_id s in
    let pausing = not (is_empty requested) || is_pause_asked t.task_id t.revision s in
    let status = resumed_status t m pausing in
    let cleared = clear_marker t m status fact s in
    let same = view-clear_marker t m status fact s in
    view-if (has_pending t.task_id cleared || not (is_empty (pending_hosts t.task_id cleared)))
      cleared (settle_pause t status pausing requested fact cleared) (view s) same
      (view-settle_pause t status pausing requested fact cleared ∙ same)

view-add_marker : (t : Task) (s : Store) → view (add_marker t s) ≡ view s
unfolding view add_marker
view-add_marker t s = refl

view-invalidate : (id : String) (s : Store) → view (invalidate_acceptance id s) ≡ view s
unfolding view invalidate_acceptance
view-invalidate id s = refl

view-require_recovery :
    (t : Task) (m : Option Marker) (fact : String) (s : Store)
    → view (require_recovery t m fact s) ≡ view s
unfolding require_recovery
view-require_recovery t m fact s =
    let marked : Store = elim m [ none ↦ add_marker t s | some _ ↦ s ] in
    let same : view marked ≡ view s = marked-view m in
    let stop = set_status t.task_id TaskStatus.recovery_required marked in
    let stopping = view-set_status t.task_id TaskStatus.recovery_required marked ∙ same in
    view-if (status_in t.status settled_or_recovering) s _ (view s) refl (
      view-add_audit "TASK_EFFECT_RECOVERY_REQUIRED" t.task_id _ _ refl
      ∙ view-if (is_completed t.status) (invalidate_acceptance t.task_id stop) stop (view s)
          (view-invalidate t.task_id stop ∙ stopping) stopping)
  where
    marked-view :
        (o : Option Marker) → view (elim o [ none ↦ add_marker t s | some _ ↦ s ]) ≡ view s
    marked-view none = view-add_marker t s
    marked-view (some _) = refl

-- The reconciliation of a task leaves the operations and the committed intents.
pub view-reconcile :
    (id fact : String) (s s' : Store)
    → reconcile_effect_state id fact s ≡ done s'
    → view s' ≡ view s
unfolding reconcile_effect_state
view-reconcile id fact s s' h =
    let (t, _, h1) = bind-eq-done (present (task_row id s) state_conflict) _ h in
    let m = marker_row id s in
    let same =
      then-eq-done
        (require (elim m [ none ↦ true | some m ↦ eqb m.task_revision t.revision ]) state_conflict)
        h1 in
    let after : (if has_unknown id s then require_recovery t m fact s else settle t m fact s) ≡ s' =
      cc in
    ap view (sym after)
    ∙ view-if (has_unknown id s) (require_recovery t m fact s) (settle t m fact s) (view s)
        (view-require_recovery t m fact s) (view-settle t m fact s)
