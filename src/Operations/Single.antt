-- ===== src/Operations/Single.antt =====
-- tools/v2_operations.py: the unsettled effects of a task.
use malts.Base.{
  ◌≡◌, refl, sym, ap, ◌∙◌, String, ◌==◌, Bool, true, false, not, ◌&&◌, none, some, arith,
}
use malts.Base.{◌∷◌, any, if◌then◌else◌, Bool-cases, inl, inr, eq_iff, false≢true}
use malts.Store.{OperationState, Operation}
use malts.Store.Query.{update, find-Memᴰ, update-Memᴰ, find-none, any_none}
use malts.Store.Rows.{is_pending, is_prepared}
use malts.Operations.Observe.{observed_state}
use malts.Operations.Change.{
  View, row, set_state, stop, Change, unchanged, added, stopped, dropped, committed, settled,
  IsSingle,
}
use mathlib.Core.List.{Memᴰ}
use mathlib.Core.Path.{subst}

prepared-pending : (s : OperationState) → is_prepared s ≡ true → is_pending s ≡ false
unfolding is_prepared is_pending
prepared-pending s h = ground arith

abbrev image : (Operation → Bool) → (Operation → OperationState) → Operation → Operation
image p g o = if p o then record o { state = g o } else o

image_id :
    (p : Operation → Bool) (g : Operation → OperationState) (o : Operation)
    → ((image p g o).operation_id ≡ o.operation_id) × ((image p g o).task_id ≡ o.task_id)
image_id p g o = elim (Bool-cases (p o)) [ inl e ↦ rw e (refl, refl) | inr e ↦ rw e (refl, refl) ]

-- An update of states, if the pending rows after it stand for one row before it.
IsSingle-image :
    (p : Operation → Bool) (g : Operation → OperationState) (v : View)
    → ((x y : Operation)
        → Memᴰ x v.operations
        → Memᴰ y v.operations
        → is_pending (image p g x).state ≡ true
        → is_pending (image p g y).state ≡ true
        → x.task_id ≡ y.task_id
        → x ≡ y)
    → IsSingle v
    → IsSingle (record v { operations = update p (λ o. record o { state = g o }) v.operations })
IsSingle-image p g v k h = record {
  keyed = λ x y m n e.
      let (x', m', i) = update-Memᴰ p (λ o. record o { state = g o }) v.operations x m in
      let (y', n', j) = update-Memᴰ p (λ o. record o { state = g o }) v.operations y n in
      let ids : x'.operation_id ≡ y'.operation_id =
        sym (ap (λ (o : Operation). o.operation_id) i ∙ (image_id p g x').0)
        ∙ (e ∙ (ap (λ (o : Operation). o.operation_id) j ∙ (image_id p g y').0)) in
      i ∙ (ap (image p g) (h.keyed x' y' m' n' ids) ∙ sym j);
  single = λ x y m n f l e.
      let (x', m', i) = update-Memᴰ p (λ o. record o { state = g o }) v.operations x m in
      let (y', n', j) = update-Memᴰ p (λ o. record o { state = g o }) v.operations y n in
      let tasks : x'.task_id ≡ y'.task_id =
        sym (ap (λ (o : Operation). o.task_id) i ∙ (image_id p g x').1)
        ∙ (e ∙ (ap (λ (o : Operation). o.task_id) j ∙ (image_id p g y').1)) in
      let a : is_pending (image p g x').state ≡ true =
        subst (λ (o : Operation). is_pending o.state ≡ true) i f in
      let b : is_pending (image p g y').state ≡ true =
        subst (λ (o : Operation). is_pending o.state ≡ true) j l in
      i ∙ (ap (image p g) (k x' y' m' n' a b tasks) ∙ sym j);
}

-- An update after which a pending row was pending before.
IsSingle-update :
    (p : Operation → Bool) (g : Operation → OperationState) (v : View)
    → ((o : Operation)
        → Memᴰ o v.operations
        → p o ≡ true
        → is_pending (g o) ≡ true
        → is_pending o.state ≡ true)
    → IsSingle v
    → IsSingle (record v { operations = update p (λ o. record o { state = g o }) v.operations })
IsSingle-update p g v k h =
    let back : (o : Operation)
        → Memᴰ o v.operations
        → is_pending (image p g o).state ≡ true
        → is_pending o.state ≡ true =
      λ o m a. elim (Bool-cases (p o)) [ inl e ↦ k o m e (rw e at a) | inr e ↦ rw e at a ] in
    IsSingle-image p g v (λ x y m n a b e. h.single x y m n (back x m a) (back y n b) e) h

-- The rows of an identity are the one that a search finds.
row-keyed :
    (id : String) (o x : Operation) (v : View)
    → row id v ≡ some o
    → Memᴰ x v.operations
    → (x.operation_id == id) ≡ true
    → IsSingle v
    → o ≡ x
row-keyed id o x v e m t h =
    let (n, found) = find-Memᴰ (λ (y : Operation). y.operation_id == id) v.operations o e in
    h.keyed o x n m ((eq_iff o.operation_id id).0 found ∙ sym ((eq_iff x.operation_id id).0 t))

-- After an intent is recorded, a pending row is the row of the intent, or was pending before.
committed-other :
    (id : String) (o x : Operation) (v : View)
    → row id v ≡ some o
    → any
        (λ p.
          p.task_id == o.task_id && not (p.operation_id == o.operation_id) && is_pending p.state)
        v.operations
      ≡ false
    → IsSingle v
    → Memᴰ x v.operations
    → x.task_id ≡ o.task_id
    → is_pending (image (λ y. y.operation_id == id) (λ y. OperationState.intent_recorded) x).state
      ≡ true
    → o ≡ x
committed-other id o x v e f h m task a = elim (Bool-cases (x.operation_id == id)) [
  | inl t ↦ row-keyed id o x v e m t h
  | inr t ↦
      let none_pending = any_none _ v.operations x f m in
      let found = (find-Memᴰ (λ (y : Operation). y.operation_id == id) v.operations o e).1 in
      let same = (eq_iff o.operation_id id).0 found in
      let pending : is_pending x.state ≡ true = rw t at a in
      absurd (
        false≢true (
          sym none_pending
          ∙ ground
              (arith, (eq_iff x.task_id o.task_id).1 task, ap (λ i. x.operation_id == i) same)))
]

committed-single :
    (id : String) (o : Operation) (v : View)
    → row id v ≡ some o
    → any
        (λ p.
          p.task_id == o.task_id && not (p.operation_id == o.operation_id) && is_pending p.state)
        v.operations
      ≡ false
    → IsSingle v
    → (x y : Operation) → Memᴰ x v.operations
    → Memᴰ y v.operations
    → is_pending (image (λ z. z.operation_id == id) (λ z. OperationState.intent_recorded) x).state
      ≡ true
    → is_pending (image (λ z. z.operation_id == id) (λ z. OperationState.intent_recorded) y).state
      ≡ true
    → x.task_id ≡ y.task_id
    → x ≡ y
committed-single id o v e f h x y m n a b q = elim (Bool-cases (x.operation_id == id)) [
  | inl t ↦
      let here = row-keyed id o x v e m t h in
      let task = sym q ∙ ap (λ (z : Operation). z.task_id) (sym here) in
      sym here ∙ committed-other id o y v e f h n task b
  | inr t ↦ elim (Bool-cases (y.operation_id == id)) [
    | inl u ↦
        let here = row-keyed id o y v e n u h in
        let task = q ∙ ap (λ (z : Operation). z.task_id) (sym here) in
        sym (committed-other id o x v e f h m task a) ∙ here
    | inr u ↦ h.single x y m n (rw t at a) (rw u at b) q
  ]
]

-- A pending row is not the one that is added.
older :
    (o x : Operation) (v : View)
    → is_prepared o.state ≡ true
    → Memᴰ x (o ∷ v.operations)
    → is_pending x.state ≡ true
    → Memᴰ x v.operations
older o x v p (Memᴰ.head e) a =
    let no = prepared-pending o.state p in
    absurd (false≢true (sym no ∙ subst (λ (z : Operation). is_pending z.state ≡ true) e a))
older o x v p (Memᴰ.tail m) a = m

-- The identity of the added row is new.
fresh-other :
    (o x y : Operation) (v : View)
    → row o.operation_id v ≡ none
    → Memᴰ x v.operations
    → y ≡ o
    → x.operation_id ≡ y.operation_id
    → ⊥
fresh-other o x y v fresh m e q =
    let other =
      find-none (λ (z : Operation). z.operation_id == o.operation_id) v.operations x fresh m in
    let ids = q ∙ ap (λ (z : Operation). z.operation_id) e in
    false≢true (sym other ∙ (eq_iff x.operation_id o.operation_id).1 ids)

added-keyed :
    (o : Operation) (v : View)
    → row o.operation_id v ≡ none
    → IsSingle v
    → (x y : Operation) → Memᴰ x (o ∷ v.operations)
    → Memᴰ y (o ∷ v.operations)
    → x.operation_id ≡ y.operation_id
    → x ≡ y
added-keyed o v fresh h x y (Memᴰ.head e) (Memᴰ.head f) q = e ∙ sym f
added-keyed o v fresh h x y (Memᴰ.head e) (Memᴰ.tail n) q =
    absurd (fresh-other o y x v fresh n e (sym q))
added-keyed o v fresh h x y (Memᴰ.tail m) (Memᴰ.head f) q = absurd (fresh-other o x y v fresh m f q)
added-keyed o v fresh h x y (Memᴰ.tail m) (Memᴰ.tail n) q = h.keyed x y m n q

-- A change keeps that a task has one operation at most with an effect that is not settled.
pub Change-IsSingle : (v w : View) → Change v w → IsSingle v → IsSingle w
unfolding stop set_state is_pending
Change-IsSingle v w unchanged h = h
Change-IsSingle v w (added o fresh p) h = record {
  keyed = added-keyed o v fresh h;
  single = λ x y m n a b e. h.single x y (older o x v p m a) (older o y v p n b) a b e;
}
Change-IsSingle v w (stopped p) h =
    IsSingle-update (λ o. p o && is_prepared o.state) (λ o. OperationState.cancelled) v
      (λ o m t a. absurd (false≢true a)) h
Change-IsSingle v w (dropped id o e p) h =
    IsSingle-update (λ x. x.operation_id == id) (λ x. OperationState.cancelled) v
      (λ o m t a. absurd (false≢true a)) h
Change-IsSingle v w (committed id o e p f) h =
    let r =
      IsSingle-image (λ x. x.operation_id == id) (λ x. OperationState.intent_recorded) v
        (committed-single id o v e f h) h in
    record { keyed = r.keyed; single = r.single }
Change-IsSingle v w (settled id o r e p) h =
    IsSingle-update (λ x. x.operation_id == id) (λ x. observed_state r) v
      (λ x m t a. rw (sym (row-keyed id o x v e m t h)) p) h
