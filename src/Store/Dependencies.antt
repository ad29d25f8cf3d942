-- ===== src/Store/Dependencies.antt =====
-- tools/v2_state_store.py: the dependencies of tasks, which may not have a cycle.
use malts.Base.{ℕ, zero, suc, String, ◌==◌, Bool, true, false, not, ◌&&◌, Option, none, some, eqb}
use malts.Base.{List, [], ◌∷◌, any, keep, length, contains, if◌then◌else◌}
use malts.Base.Outcome.{done, ◌>>=◌, ◌>>◌, require, present}
use malts.Json.{text, num, entry, no_entry}
use malts.Store.{
  Store, TaskStatus, Task, Dependency, Returns, Services, state_conflict, transaction,
}
use malts.Store.Query.{find}
use malts.Store.Rows.{task_of, add_audit}

-- The dependency's row is one of the current revision of its task.
unfoldable pub is_current_edge : List Task → Dependency → Bool
is_current_edge tasks d = any (λ t. t.task_id == d.task_id && eqb t.revision d.task_revision) tasks

abbrev pub current_edges : Store → List Dependency
current_edges s = keep (is_current_edge s.tasks) s.dependencies

-- One pass over the rows, which adds the predecessors of what is there.
unfoldable pub grow : List Dependency → List String → List String
grow [] seen = seen
grow (d ∷ ds) seen = grow ds (
    if contains d.task_id seen && not (contains d.predecessor_id seen)
    then d.predecessor_id ∷ seen
    else seen)

-- The recursive table, by at most n passes.
unfoldable pub close : ℕ → List Dependency → List String → List String
close zero ds seen = seen
close (suc n) ds seen = close n ds (grow ds seen)

-- A pass for each row is enough.
unfoldable pub reachable : List Dependency → String → List String
reachable ds id = close (length ds) ds (id ∷ [])

unfoldable pub reject_dependency_cycle : String → String → Store → Returns (Unit {0})
reject_dependency_cycle id predecessor s =
    require (not (contains id (reachable (current_edges s) predecessor))) state_conflict

pub data Added : Type 0 where
  dependency_replayed dependency_added : Added

unfoldable pub is_ready : TaskStatus → Bool
is_ready TaskStatus.ready = true
is_ready _ = false

-- The guard of add_dependency.
unfoldable pub may_depend : Dependency → Task → Task → Bool
may_depend d t p =
    not (d.task_id == d.predecessor_id)
    && eqb t.revision d.task_revision
    && eqb p.revision d.predecessor_revision
    && t.project_id == p.project_id
    && is_ready t.status

unfoldable pub is_prepared_for : Dependency → Store → Bool
is_prepared_for d s =
    any (λ o. o.task_id == d.task_id && eqb o.task_revision d.task_revision) s.operations

abbrev pub dependency_row : Dependency → Store → Option Dependency
dependency_row d s =
    find
      (λ r.
        r.task_id == d.task_id
        && eqb r.task_revision d.task_revision
        && r.predecessor_id == d.predecessor_id)
      s.dependencies

unfoldable pub insert_dependency : Dependency → Store → Store
insert_dependency d s = record s { dependencies = d ∷ s.dependencies }

unfoldable pub record_dependency : Dependency → Store → Store
record_dependency d s =
    add_audit "DEPENDENCY_ADDED" d.task_id
      (entry "revision" (num d.task_revision) (
        entry "predecessor" (text d.predecessor_id)
          (entry "predecessor_revision" (num d.predecessor_revision) no_entry)))
      (insert_dependency d s)

-- With the row of the pair of tasks, if there is one.
unfoldable pub link : Dependency → Option Dependency → Store → Returns (Added × Store)
link d (some old) s = do
  require (eqb old.predecessor_revision d.predecessor_revision) state_conflict
  done (dependency_replayed, s)
link d none s = do
  reject_dependency_cycle d.task_id d.predecessor_id s
  done (dependency_added, record_dependency d s)

unfoldable pub add_in : Dependency → Store → Returns (Added × Store)
add_in d s = do
  t ← present (task_of d.task_id s) state_conflict
  p ← present (task_of d.predecessor_id s) state_conflict
  require (may_depend d t.0 p.0) state_conflict
  require (not (is_prepared_for d s)) state_conflict
  link d (dependency_row d s) s

unfoldable pub add_dependency : Services → Dependency → Store → Returns (Added × Store)
add_dependency services d s = transaction services (add_in d) s
