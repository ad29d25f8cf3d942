-- ===== src/Operations/Once.antt =====
-- tools/v2_operations.py: the recorded intents of operations.
use malts.Base.{◌≡◌, refl, sym, ap, ◌∙◌, String, ◌==◌, Bool, true, false, ◌&&◌, some, arith}
use malts.Base.{if◌then◌else◌, contains, Bool-cases, inl, inr, eq_iff, and-eq-true}
use mathlib.Core.Path.{subst}
use malts.Store.{OperationState, Operation, Report}
use malts.Store.Query.{update, find-update, find-Memᴰ}
use malts.Store.Rows.{is_prepared}
use malts.Operations.Observe.{observed_state}
use malts.Operations.Change.{
  View, row, set_state, stop, Change, unchanged, added, stopped, dropped, committed, settled,
  is_issued, IsOnce,
}

abbrev Setter : Type 0
Setter = Operation → Operation

-- An update that keeps the identities and what the found rows have issued.
IsOnce-update :
    (p : Operation → Bool) (f : Setter) (v : View)
    → ((o : Operation) → (f o).operation_id ≡ o.operation_id)
    → ((id : String) (o : Operation)
        → row id v ≡ some o
        → is_issued o.state ≡ true
        → p o ≡ true
        → is_issued (f o).state ≡ true)
    → IsOnce v
    → IsOnce (record v { operations = update p f v.operations })
IsOnce-update p f v k m h = record {
  once = h.once;
  issued = λ id i.
      let (o, e, g) = h.issued id i in
      (
        if p o then f o else o,
        find-update (λ (x : Operation). x.operation_id == id) p f v.operations o
            (λ x. ap (λ t. t == id) (k x)) e,
        elim (Bool-cases (p o)) [ inl t ↦ rw t (m id o e g t) | inr t ↦ rw t g ],
      );
}

prepared-issued : (s : OperationState) → is_prepared s ≡ true → is_issued s ≡ false
unfolding is_prepared is_issued
prepared-issued s h = ground arith

pending-issued : (r : Report) → is_issued (observed_state r) ≡ true
unfolding is_issued observed_state
pending-issued r = ground arith

-- Two rows of one identity that a search finds are the same row.
pub row-same :
    (id id' : String) (v : View) (o x : Operation)
    → row id v ≡ some o
    → row id' v ≡ some x
    → (x.operation_id == id) ≡ true
    → o ≡ x
row-same id id' v o x e e' t =
    let there = (find-Memᴰ (λ (y : Operation). y.operation_id == id') v.operations x e').1 in
    let same : id ≡ id' =
      sym ((eq_iff x.operation_id id).0 t) ∙ (eq_iff x.operation_id id').0 there in
    let both : some o ≡ some x = sym e ∙ (ap (λ t. row t v) same ∙ e') in cc

-- The row that a set state leaves.
pub row_set :
    (id : String) (state : OperationState) (o : Operation) (v : View)
    → row id v ≡ some o
    → row id (set_state id state v) ≡ some (record o { state = state })
unfolding set_state
row_set id state o v e =
    let found = find-Memᴰ (λ (x : Operation). x.operation_id == id) v.operations o e in
    let after =
      find-update (λ (x : Operation). x.operation_id == id)
        (λ (x : Operation). x.operation_id == id) (λ x. record x { state = state }) v.operations o
        (λ x. refl) e in
    rw found.1 at after

IsOnce-set :
    (id : String) (state : OperationState) (o : Operation) (v : View)
    → row id v ≡ some o
    → (is_issued o.state ≡ true → is_issued state ≡ true)
    → IsOnce v
    → IsOnce (set_state id state v)
unfolding set_state
IsOnce-set id state o v e k h =
    IsOnce-update (λ x. x.operation_id == id) (λ x. record x { state = state }) v (λ x. refl)
      (λ id' x e' g t. k (rw (row-same id id' v o x e e' t) g)) h

unissued :
    (id : String) (o : Operation) (v : View)
    → row id v ≡ some o
    → is_prepared o.state ≡ true
    → IsOnce v
    → contains id v.intents ≡ false
unissued id o v e p h = elim (Bool-cases (contains id v.intents)) [
  | inl i ↦
      let (x, e', g) = h.issued id i in
      let same : o ≡ x = cc in let no = prepared-issued o.state p in absurd (cc (rw same at no))
  | inr i ↦ i
]

-- Every change keeps that each intent is recorded once, for an operation that is there.
pub Change-IsOnce : (v w : View) → Change v w → IsOnce v → IsOnce w
unfolding stop set_state is_issued
Change-IsOnce v w unchanged h = h
Change-IsOnce v w (added o fresh p) h = record {
  once = h.once;
  issued = λ id i.
      let (x, e, g) = h.issued id i in
      elim (Bool-cases (o.operation_id == id)) [
        | inl t ↦ let same = (eq_iff o.operation_id id).0 t in absurd (cc (ap (λ t. row t v) same))
        | inr t ↦ (x, rw t e, g)
      ];
}
Change-IsOnce v w (stopped p) h =
    IsOnce-update (λ o. p o && is_prepared o.state)
      (λ o. record o { state = OperationState.cancelled }) v (λ o. refl)
      (λ id o e g t.
        let no = prepared-issued o.state (and-eq-true (p o) (is_prepared o.state) t).1 in
        absurd (cc (rw g at no)))
      h
Change-IsOnce v w (dropped id o e p) h =
    let no = prepared-issued o.state p in
    IsOnce-set id OperationState.cancelled o v e (λ g. absurd (cc (rw g at no))) h
Change-IsOnce v w (committed id o e p f) h =
    let next = IsOnce-set id OperationState.intent_recorded o v e (λ g. refl) h in
    let clean = unissued id o v e p h in
    record {
      once = ground (arith, h.once);
      issued = λ id' i. elim (Bool-cases (id == id')) [
        | inl t ↦
            subst
              (λ k.
                (x : Operation) × (row k (set_state id OperationState.intent_recorded v) ≡ some x)
                × (is_issued x.state ≡ true))
              ((eq_iff id id').0 t) (_, row_set id OperationState.intent_recorded o v e, refl)
        | inr t ↦ next.issued id' (ground arith)
      ];
    }
Change-IsOnce v w (settled id o r e p) h =
    IsOnce-set id (observed_state r) o v e (λ g. pending-issued r) h
