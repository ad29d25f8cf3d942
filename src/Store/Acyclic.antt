-- ===== src/Store/Acyclic.antt =====
-- tools/v2_state_store.py: add_dependency and the cycles of dependencies.
use malts.Base.{◌≡◌, sym, String, not, Option, none, some}
use malts.Base.{List, ◌∷◌, Bool-cases, inl, inr, ◌⊎◌, false≢true, eqb}
use malts.Base.Outcome.{done, present, require, bind-eq-done, require-eq-done}
use mathlib.Core.List.{Memᴰ}
use mathlib.Core.Path.{subst}
use malts.Store.{Store, Dependency, Services, state_conflict}
use malts.Store.Committed.{transaction-eq-done}
use malts.Store.Rows.{task_of, add_audit}
use malts.Store.Dependencies.{
  is_current_edge, current_edges, reject_dependency_cycle, Added, add_in, may_depend,
  is_prepared_for, link, dependency_added, dependency_replayed, add_dependency, dependency_row,
  insert_dependency, record_dependency,
}
use malts.Store.Reachable.{Depends, depends_refl, depends_on, reachable-Depends_iff}

Depends-trans :
    (ds : List Dependency) (a b c : String) → Depends ds a b → Depends ds b c → Depends ds a c
Depends-trans ds a b c h depends_refl = h
Depends-trans ds a b c h (depends_on d k m) = depends_on d (Depends-trans ds a b d.task_id h k) m

-- A chain with one more row goes by the row, or was there before.
Depends-cons :
    (n : Dependency) (ds : List Dependency) (a b : String)
    → Depends (n ∷ ds) a b
    → Depends ds a b ⊎ (Depends ds a n.task_id × Depends ds n.predecessor_id b)
Depends-cons n ds a b depends_refl = inl depends_refl
Depends-cons n ds a b (depends_on d h (Memᴰ.head e)) = inr (
  elim (Depends-cons n ds a d.task_id h) [
    | inl k ↦ subst (λ (x : Dependency). Depends ds a x.task_id) e k
    | inr (k, l) ↦ k
  ],
  subst (λ (x : Dependency). Depends ds n.predecessor_id x.predecessor_id) (sym e) depends_refl,
)
Depends-cons n ds a b (depends_on d h (Memᴰ.tail m)) = elim (Depends-cons n ds a d.task_id h) [
  | inl k ↦ inl (depends_on d k m)
  | inr (k, l) ↦ inr (k, depends_on d l m)
]

-- No row leads back to its own task.
unfoldable pub IsAcyclic : List Dependency → Type 0
IsAcyclic ds = (d : Dependency) → Memᴰ d ds → ¬ Depends ds d.predecessor_id d.task_id

-- A row whose predecessor does not depend on its task keeps the rows without a cycle.
pub cons-IsAcyclic :
    (n : Dependency) (ds : List Dependency)
    → ¬ Depends ds n.predecessor_id n.task_id
    → IsAcyclic ds
    → IsAcyclic (n ∷ ds)
unfolding IsAcyclic
cons-IsAcyclic n ds f h d (Memᴰ.head e) k =
    let k' = subst (λ (x : Dependency). Depends (n ∷ ds) x.predecessor_id x.task_id) e k in
    elim (Depends-cons n ds n.predecessor_id n.task_id k') [ inl l ↦ f l | inr (l, r) ↦ f l ]
cons-IsAcyclic n ds f h d (Memᴰ.tail m) k = elim (Depends-cons n ds d.predecessor_id d.task_id k) [
  | inl l ↦ h d m l
  | inr (l, r) ↦ f (
      Depends-trans ds n.predecessor_id d.task_id n.task_id r
        (Depends-trans ds d.task_id d.predecessor_id n.task_id (depends_on d depends_refl m) l))
]

current-insert :
    (n : Dependency) (s : Store)
    → ¬ Depends (current_edges s) n.predecessor_id n.task_id
    → IsAcyclic (current_edges s)
    → IsAcyclic (current_edges (insert_dependency n s))
unfolding insert_dependency
current-insert n s f h = elim (Bool-cases (is_current_edge s.tasks n)) [
  | inl e ↦ rw e (cons-IsAcyclic n (current_edges s) f h)
  | inr e ↦ rw e h
]

reject-eq-done :
    (id predecessor : String) (s : Store) {u : Unit {0}}
    → reject_dependency_cycle id predecessor s ≡ done u
    → ¬ Depends (current_edges s) predecessor id
unfolding reject_dependency_cycle
reject-eq-done id predecessor s h k =
    let free = require-eq-done _ _ h in
    let found = (reachable-Depends_iff (current_edges s) predecessor id).1 k in
    false≢true (rw found at free)

link-IsAcyclic :
    (d : Dependency) (old : Option Dependency) (s s' : Store) (r : Added)
    → link d old s ≡ done (r, s')
    → IsAcyclic (current_edges s)
    → IsAcyclic (current_edges s')
unfolding link record_dependency add_audit
link-IsAcyclic d none s s' r h acyclic =
    let (u, free, same) =
      bind-eq-done (reject_dependency_cycle d.task_id d.predecessor_id s)
        (λ _. done (dependency_added, record_dependency d s)) h in
    let after : record_dependency d s ≡ s' = cc in
    subst (λ x. IsAcyclic (current_edges x)) after
      (current-insert d s (reject-eq-done d.task_id d.predecessor_id s free) acyclic)
link-IsAcyclic d (some old) s s' r h acyclic =
    let (u, agreed, same) =
      bind-eq-done (require (eqb old.predecessor_revision d.predecessor_revision) state_conflict)
        (λ _. done (dependency_replayed, s)) h in
    let after : s ≡ s' = cc in subst (λ x. IsAcyclic (current_edges x)) after acyclic

-- If the current dependencies have no cycle, they have none after an add_dependency that returns.
pub add_dependency-IsAcyclic :
    (services : Services) (d : Dependency) (s s' : Store) (r : Added)
    → add_dependency services d s ≡ done (r, s')
    → IsAcyclic (current_edges s)
    → IsAcyclic (current_edges s')
unfolding add_dependency add_in
add_dependency-IsAcyclic services d s s' r h acyclic =
    let (_, inside) = transaction-eq-done services (add_in d) s h in
    let (t, _, h1) = bind-eq-done (present (task_of d.task_id s) state_conflict) _ inside in
    let (p, _, h2) = bind-eq-done (present (task_of d.predecessor_id s) state_conflict) _ h1 in
    let (_, _, h3) = bind-eq-done (require (may_depend d t.0 p.0) state_conflict) _ h2 in
    let (_, _, h4) = bind-eq-done (require (not (is_prepared_for d s)) state_conflict) _ h3 in
    link-IsAcyclic d (dependency_row d s) s s' r h4 acyclic
