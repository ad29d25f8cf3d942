-- ===== src/Operations/Change.antt =====
-- tools/v2_operations.py: the operations and the committed intents of a store, and how a call may
-- change them.
use malts.Base.{◌≡◌, String, ◌==◌, Bool, true, false, not, ◌&&◌, Option, none, some}
use malts.Base.{List, [], ◌∷◌, any, if◌then◌else◌, contains, all_distinct}
use malts.Store.{Store, OperationState, Operation, Audit, Report}
use malts.Store.Query.{find, update}
use malts.Store.Rows.{is_pending, is_prepared}
use malts.Operations.Observe.{observed_state}
use mathlib.Core.List.{Memᴰ}

-- The operations whose intent is in the audit.
unfoldable pub intents : List Audit → List String
intents [] = []
intents (a ∷ rest) =
    let later = intents rest in if a.kind == "INTENT_RECORDED" then a.subject_id ∷ later else later

pub record View : Type 0 where
  pub operations : List Operation
  pub intents : List String

unfoldable pub view : Store → View
view s = record { operations = s.operations; intents = intents s.audits }

abbrev pub row : String → View → Option Operation
row id v = find (λ (o : Operation). o.operation_id == id) v.operations

unfoldable pub set_state : String → OperationState → View → View
set_state id state v = record v {
  operations = update (λ o. o.operation_id == id) (λ o. record o { state = state }) v.operations;
}

unfoldable pub stop : (Operation → Bool) → View → View
stop p v = record v {
  operations =
      update (λ o. p o && is_prepared o.state) (λ o. record o { state = OperationState.cancelled })
        v.operations;
}

-- A call leaves the operations, or makes one of the moves of an operation's life.
pub data Change : View → View → Type 0 where
  unchanged : {v : View} → Change v v
  added :
      {v : View} (o : Operation)
      → row o.operation_id v ≡ none
      → is_prepared o.state ≡ true
      → Change v (record v { operations = o ∷ v.operations })
  stopped : {v : View} (p : Operation → Bool) → Change v (stop p v)
  dropped :
      {v : View} (id : String) (o : Operation)
      → row id v ≡ some o
      → is_prepared o.state ≡ true
      → Change v (set_state id OperationState.cancelled v)
  committed :
      {v : View} (id : String) (o : Operation)
      → row id v ≡ some o
      → is_prepared o.state ≡ true
      → any
          (λ p.
            p.task_id == o.task_id && not (p.operation_id == o.operation_id) && is_pending p.state)
          v.operations
        ≡ false
      → Change v
          (record (set_state id OperationState.intent_recorded v) { intents = id ∷ v.intents })
  settled :
      {v : View} (id : String) (o : Operation) (r : Report)
      → row id v ≡ some o
      → is_pending o.state ≡ true
      → Change v (set_state id (observed_state r) v)

-- An effect was permitted: the intent is recorded.
unfoldable pub is_issued : OperationState → Bool
is_issued OperationState.prepared = false
is_issued OperationState.cancelled = false
is_issued _ = true

-- Each intent is recorded once, for an operation that is there and past its preparation.
pub record IsOnce (v : View) : Type 0 where
  pub once : all_distinct v.intents ≡ true
  pub issued :
      (id : String)
      → contains id v.intents ≡ true
      → (o : Operation) × (row id v ≡ some o) × (is_issued o.state ≡ true)

-- The operations with one identity are one, and a task has one operation at most with a committed
-- effect that is not settled.
pub record IsSingle (v : View) : Type 0 where
  pub keyed :
      (x y : Operation)
      → Memᴰ x v.operations
      → Memᴰ y v.operations
      → x.operation_id ≡ y.operation_id
      → x ≡ y
  pub single :
      (x y : Operation)
      → Memᴰ x v.operations
      → Memᴰ y v.operations
      → is_pending x.state ≡ true
      → is_pending y.state ≡ true
      → x.task_id ≡ y.task_id
      → x ≡ y
