-- ===== src/Store/Reachable.antt =====
-- tools/v2_state_store.py: the recursive query of the cycle check, and chains of dependencies.
use malts.Base.{
  ℕ, zero, suc, ◌≤◌, ◌<◌, ◌≡◌, refl, ap, ◌∙◌, String, Bool, true, false, not, ◌&&◌, ◌||◌, arith,
}
use malts.Base.{
  List, [], ◌∷◌, all, length, contains, All, Bool-cases, inl, inr, eq_refl, All-contains,
  and-eq-true,
}
use mathlib.Core.List.{Memᴰ}
use mathlib.Core.Logic.{◌↔◌}
use mathlib.Core.Path.{subst}
use malts.Store.{Dependency}
use malts.Store.Query.{count}
use malts.Store.Dependencies.{grow, close, reachable}

-- A chain of the given dependencies.
pub data Depends (ds : List Dependency) : String → String → Type 0 where
  depends_refl : {a : String} → Depends ds a a
  depends_on :
      {a : String} (d : Dependency)
      → Depends ds a d.task_id
      → Memᴰ d ds
      → Depends ds a d.predecessor_id

abbrev is_marked : List String → Dependency → Bool
is_marked seen d = not (contains d.task_id seen) || contains d.predecessor_id seen

abbrev unmarked : List Dependency → List String → ℕ
unmarked ds seen = count (λ d. not (contains d.predecessor_id seen)) ds

contains-grow :
    (x : String) (ds : List Dependency) (seen : List String)
    → contains x seen ≡ true
    → contains x (grow ds seen) ≡ true
unfolding grow
contains-grow x [] seen h = h
contains-grow x (d ∷ ds) seen h =
    elim (Bool-cases (contains d.task_id seen && not (contains d.predecessor_id seen))) [
      | inl e ↦ rw e (contains-grow x ds (d.predecessor_id ∷ seen) (ground arith))
      | inr e ↦ rw e (contains-grow x ds seen h)
    ]

grow_closed :
    (ds : List Dependency) (seen : List String)
    → all (is_marked seen) ds ≡ true
    → grow ds seen ≡ seen
unfolding grow
grow_closed [] seen h = refl
grow_closed (d ∷ ds) seen h =
    let e : (contains d.task_id seen && not (contains d.predecessor_id seen)) ≡ false =
      ground arith in
    rw e (grow_closed ds seen (ground arith))

close_closed :
    (n : ℕ) (ds : List Dependency) (seen : List String)
    → all (is_marked seen) ds ≡ true
    → close n ds seen ≡ seen
unfolding close
close_closed zero ds seen h = refl
close_closed (suc n) ds seen h = rw (grow_closed ds seen h) (close_closed n ds seen h)

-- A pass over rows that are not closed marks a new one.
grow-new :
    (ds : List Dependency) (seen : List String)
    → all (is_marked seen) ds ≡ false
    → (d : Dependency) × Memᴰ d ds
      × (contains d.predecessor_id seen ≡ false)
      × (contains d.predecessor_id (grow ds seen) ≡ true)
unfolding grow
grow-new [] seen h = cc
grow-new (d ∷ ds) seen h = elim (Bool-cases (is_marked seen d)) [
  | inl m ↦
      let e : (contains d.task_id seen && not (contains d.predecessor_id seen)) ≡ false =
        ground arith in
      let (x, i, f, g) = grow-new ds seen (ground arith) in (x, Memᴰ.tail i, f, rw e g)
  | inr m ↦
      let e : (contains d.task_id seen && not (contains d.predecessor_id seen)) ≡ true =
        ground arith in
      let f : contains d.predecessor_id (d.predecessor_id ∷ seen) ≡ true =
        ground (arith, eq_refl d.predecessor_id) in
      (d, Memᴰ.head refl, ground arith, rw e (contains-grow d.predecessor_id ds _ f))
]

module _ {ℓ} {A : Type ℓ} (p q : A → Bool) (h : (x : A) → q x ≡ true → p x ≡ true) where
  count_mono : (xs : List A) → count q xs ≤ count p xs
  count_mono [] = omega arith
  count_mono (x ∷ xs) = ground (arith, h x, count_mono xs)

  count_strict :
      (x : A) (xs : List A) → Memᴰ x xs → p x ≡ true → q x ≡ false → count q xs < count p xs
  count_strict x [] m k l = elim m [ ]
  count_strict x (y ∷ ys) (Memᴰ.head e) k l =
      let k' : p y ≡ true = subst (λ z. p z ≡ true) e k in
      let l' : q y ≡ false = subst (λ z. q z ≡ false) e l in ground (arith, count_mono ys)
  count_strict x (y ∷ ys) (Memᴰ.tail m) k l = ground (arith, h y, count_strict x ys m k l)

unmarked-zero :
    (ds : List Dependency) (seen : List String)
    → unmarked ds seen ≡ 0
    → all (is_marked seen) ds ≡ true
unmarked-zero [] seen h = refl
unmarked-zero (d ∷ ds) seen h = ground (arith, unmarked-zero ds seen)

unmarked-grow :
    (ds : List Dependency) (seen : List String)
    → all (is_marked seen) ds ≡ false
    → unmarked ds (grow ds seen) < unmarked ds seen
unmarked-grow ds seen h =
    let (d, m, f, g) = grow-new ds seen h in
    count_strict (λ (x : Dependency). not (contains x.predecessor_id seen))
      (λ (x : Dependency). not (contains x.predecessor_id (grow ds seen)))
      (λ x. ground (arith, contains-grow x.predecessor_id ds seen)) d ds m (ground arith)
      (ground arith)

-- Enough passes close the rows.
close-closed :
    (n : ℕ) (ds : List Dependency) (seen : List String)
    → unmarked ds seen ≤ n
    → all (is_marked (close n ds seen)) ds ≡ true
unfolding close
close-closed zero ds seen h = unmarked-zero ds seen (omega arith)
close-closed (suc n) ds seen h = elim (Bool-cases (all (is_marked seen) ds)) [
  | inl e ↦ rw (grow_closed ds seen e) (rw (close_closed n ds seen e) e)
  | inr e ↦ close-closed n ds (grow ds seen) (omega (arith, unmarked-grow ds seen e))
]

unmarked_bound : (ds : List Dependency) (seen : List String) → unmarked ds seen ≤ length ds
unmarked_bound [] seen = omega arith
unmarked_bound (d ∷ ds) seen = ground (arith, unmarked_bound ds seen)

grow_sound :
    (all_ds ds : List Dependency) (a : String) (seen : List String)
    → ((d : Dependency) → Memᴰ d ds → Memᴰ d all_ds)
    → All (Depends all_ds a) seen
    → All (Depends all_ds a) (grow ds seen)
unfolding grow
grow_sound all_ds [] a seen i h = h
grow_sound all_ds (d ∷ ds) a seen i h =
    elim (Bool-cases (contains d.task_id seen && not (contains d.predecessor_id seen))) [
      | inl e ↦
          let k : Depends all_ds a d.task_id = All-contains _ d.task_id seen h (ground arith) in
          rw e (
            grow_sound all_ds ds a (d.predecessor_id ∷ seen) (λ x m. i x (Memᴰ.tail m))
              (depends_on d k (i d (Memᴰ.head refl)), h))
      | inr e ↦ rw e (grow_sound all_ds ds a seen (λ x m. i x (Memᴰ.tail m)) h)
    ]

close_sound :
    (n : ℕ) (ds : List Dependency) (a : String) (seen : List String)
    → All (Depends ds a) seen
    → All (Depends ds a) (close n ds seen)
unfolding close
close_sound zero ds a seen h = h
close_sound (suc n) ds a seen h =
    close_sound n ds a (grow ds seen) (grow_sound ds ds a seen (λ d m. m) h)

contains-close :
    (x : String) (n : ℕ) (ds : List Dependency) (seen : List String)
    → contains x seen ≡ true
    → contains x (close n ds seen) ≡ true
unfolding close
contains-close x zero ds seen h = h
contains-close x (suc n) ds seen h =
    contains-close x n ds (grow ds seen) (contains-grow x ds seen h)

all-Memᴰ :
    (p : Dependency → Bool) (d : Dependency) (ds : List Dependency)
    → all p ds ≡ true
    → Memᴰ d ds
    → p d ≡ true
all-Memᴰ p d [] h m = elim m [ ]
all-Memᴰ p d (x ∷ xs) h (Memᴰ.head e) = ap p e ∙ (and-eq-true (p x) (all p xs) h).0
all-Memᴰ p d (x ∷ xs) h (Memᴰ.tail m) = all-Memᴰ p d xs (and-eq-true (p x) (all p xs) h).1 m

-- A set that is closed under the rows has all that its members depend on.
closed_complete :
    (ds : List Dependency) (seen : List String) (a b : String)
    → all (is_marked seen) ds ≡ true
    → contains a seen ≡ true
    → Depends ds a b
    → contains b seen ≡ true
closed_complete ds seen a b h k depends_refl = k
closed_complete ds seen a b h k (depends_on d p m) =
    let c = closed_complete ds seen a d.task_id h k p in
    let marked = all-Memᴰ (is_marked seen) d ds h m in ground arith

-- The recursive query, which stops after one pass for each row, returns a task just if a chain of
-- the given dependencies leads from the first task to it.
pub reachable-Depends_iff :
    (ds : List Dependency) (a b : String) → (contains b (reachable ds a) ≡ true) ↔ Depends ds a b
unfolding reachable
reachable-Depends_iff ds a b = (
  λ h.
      All-contains (Depends ds a) b (reachable ds a)
        (close_sound (length ds) ds a (a ∷ []) (depends_refl, tt)) h,
  closed_complete ds (reachable ds a) a b
      (close-closed (length ds) ds (a ∷ []) (unmarked_bound ds (a ∷ [])))
      (contains-close a (length ds) ds (a ∷ []) (ground (arith, eq_refl a))),
)
