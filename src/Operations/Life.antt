-- ===== src/Operations/Life.antt =====
-- tools/v2_operations.py: the life of an operation.
use malts.Base.{◌≡◌, refl, sym, ap, ◌∙◌, String, ◌==◌, true, ◌&&◌, some}
use malts.Base.{Bool-cases, inl, inr, eq_iff, and-eq-true}
use mathlib.Core.Path.{subst}
use malts.Store.{Store, Services, Operation, OperationState, Report}
use malts.Store.Query.{find-update}
use malts.Store.Rows.{is_pending, is_prepared}
use malts.Operations.Observe.{observed_state}
use malts.Operations.Change.{
  View, view, row, set_state, stop, Change, unchanged, added, stopped, dropped, committed, settled,
}
use malts.Operations.Once.{row-same}
use malts.Operations.History.{History, begin, extend, Step-Change}

-- The life of an operation: prepared, then cancelled or committed; a committed effect is settled,
-- and an unknown one may be settled again.
pub data Moves : OperationState → OperationState → Type 0 where
  commits : {a : OperationState} → is_prepared a ≡ true → Moves a OperationState.intent_recorded
  cancels : {a : OperationState} → is_prepared a ≡ true → Moves a OperationState.cancelled
  settles : {a : OperationState} (r : Report) → is_pending a ≡ true → Moves a (observed_state r)

pub data Evolves : OperationState → OperationState → Type 0 where
  stays : {a : OperationState} → Evolves a a
  moves : {a b c : OperationState} → Evolves a b → Moves b c → Evolves a c

-- The operation that a change leaves: its state has moved once at most, the rest is as it was.
abbrev Left : String → Operation → View → Type 0
Left id o w = (t : OperationState) × (row id w ≡ some (record o { state = t })) × Evolves o.state t

set-Left :
    (id id' : String) (state : OperationState) (o x : Operation) (v : View)
    → row id v ≡ some o
    → row id' v ≡ some x
    → Moves x.state state
    → Left id o (set_state id' state v)
unfolding set_state
set-Left id id' state o x v e e' m =
    let after =
      find-update (λ (y : Operation). y.operation_id == id)
        (λ (y : Operation). y.operation_id == id') (λ y. record y { state = state }) v.operations o
        (λ y. refl) e in
    elim (Bool-cases (o.operation_id == id')) [
      | inl t ↦
          let same = row-same id' id v x o e' e t in
          (
            state,
            rw t at after,
            moves stays (subst (λ (y : Operation). Moves y.state state) same m),
          )
      | inr t ↦ (o.state, rw t at after, stays)
    ]

Change-Left :
    (v w : View) (id : String) (o : Operation) → Change v w → row id v ≡ some o → Left id o w
unfolding stop
Change-Left v w id o unchanged e = (o.state, e, stays)
Change-Left v w id o (added x fresh p) e = elim (Bool-cases (x.operation_id == id)) [
  | inl t ↦ absurd (cc (sym fresh ∙ ap (λ i. row i v) ((eq_iff x.operation_id id).0 t)))
  | inr t ↦ (o.state, rw t e, stays)
]
Change-Left v w id o (stopped p) e =
    let after =
      find-update (λ (y : Operation). y.operation_id == id) (λ y. p y && is_prepared y.state)
        (λ y. record y { state = OperationState.cancelled }) v.operations o (λ y. refl) e in
    elim (Bool-cases (p o && is_prepared o.state)) [
      | inl t ↦ (
        OperationState.cancelled,
        rw t at after,
        moves stays (cancels (and-eq-true (p o) (is_prepared o.state) t).1),
      )
      | inr t ↦ (o.state, rw t at after, stays)
    ]
Change-Left v w id o (dropped id' x e' p) e =
    set-Left id id' OperationState.cancelled o x v e e' (cancels p)
Change-Left v w id o (committed id' x e' p f) e =
    set-Left id id' OperationState.intent_recorded o x v e e' (commits p)
Change-Left v w id o (settled id' x r e' p) e =
    set-Left id id' (observed_state r) o x v e e' (settles r p)

Evolves-trans : (a b c : OperationState) → Evolves a b → Evolves b c → Evolves a c
Evolves-trans a b c h stays = h
Evolves-trans a b c h (moves {b = d} k m) = moves (Evolves-trans a b d h k) m

-- The store refines the life of each operation: over any history an operation that is there stays,
-- with its grant, task, request and resource, and its state comes about by moves of that life.
pub History-Evolves :
    (services : Services) (s s' : Store) (id : String) (o : Operation)
    → History services s s'
    → row id (view s) ≡ some o
    → (t : OperationState) × (row id (view s') ≡ some (record o { state = t })) × Evolves o.state t
History-Evolves services s s' id o begin e = (o.state, e, stays)
History-Evolves services s s' id o (extend {t = m} past step) e =
    let (a, e', k) = History-Evolves services s m id o past e in
    let (b, e'', l) =
      Change-Left (view m) (view s') id (record o { state = a }) (Step-Change services m s' step)
        e' in
    (b, e'', Evolves-trans o.state a b k l)
