-- ===== src/Locator/Conflicts.antt =====
-- resource_locators.py: when two locators conflict.
use malts.Base.{
  String, ◌==◌, eq_iff, Bool, true, false, not, ◌&&◌, ◌||◌, ◌≡◌, refl, sym, ap, ◌∙◌, arith,
}
use malts.Base.{Option, none, some, List, [], ◌∷◌, any, if◌then◌else◌, eqb}
use malts.Base.{Bool-cases, Option-cases, inl, inr}
use malts.Locator.{
  Kind, Locator, Conflict, Relationship, kind_eq, is_path, is_write, is_file_id, components,
  common_prefix, commonpath, with_slashes, parent_relationship, path_relationship, identities,
  path_identities, first_some, same_identity, path_conflict, search_pairs, conflict_of, kind_index,
  path_kind, artifact_kind, record_kind, service_kind, device_kind, environment_kind,
  locator_conflict, or_else,
}

abbrev pub is_some {ℓ} : {A : Type ℓ} → Option A → Bool
is_some none = false
is_some (some _) = true

is_some-or_else {ℓ} :
    {A : Type ℓ} (a b : Option A) → is_some (or_else a b) ≡ (is_some a || is_some b)
is_some-or_else none b = refl
is_some-or_else (some a) b = refl

is_some-first {ℓ κ} :
    {A : Type ℓ} {B : Type κ} (f : A → Option B) (xs : List A)
    → is_some (first_some f xs) ≡ any (λ x. is_some (f x)) xs
unfolding first_some
is_some-first f [] = refl
is_some-first f (x ∷ xs) =
    is_some-or_else (f x) (first_some f xs) ∙ ap (λ b. is_some (f x) || b) (is_some-first f xs)

any-cong {ℓ} :
    {A : Type ℓ} (p q : A → Bool) (xs : List A) → ((x : A) → p x ≡ q x) → any p xs ≡ any q xs
any-cong p q [] h = refl
any-cong p q (x ∷ xs) h = rw (h x, any-cong p q xs h) refl

any-false {ℓ} : {A : Type ℓ} (xs : List A) → any (λ _. false) xs ≡ false
any-false [] = refl
any-false (x ∷ xs) = any-false xs

any-or {ℓ} :
    {A : Type ℓ} (p q : A → Bool) (xs : List A) → any (λ x. p x || q x) xs ≡ (any p xs || any q xs)
any-or p q [] = refl
any-or p q (x ∷ xs) = ground (arith, any-or p q xs)

any-swap {ℓ} :
    {A : Type ℓ} (g : A → A → Bool) (us vs : List A)
    → any (λ u. any (g u) vs) us ≡ any (λ v. any (λ u. g u v) us) vs
any-swap g [] vs = sym (any-false vs)
any-swap g (u ∷ us) vs = rw (any-swap g us vs) (sym (any-or (g u) (λ v. any (λ w. g w v) us) vs))

eq_sym : (a b : String) → (a == b) ≡ (b == a)
eq_sym a b = ground (arith, eq_iff a b, eq_iff b a)

common_prefix_comm : (xs ys : List String) → common_prefix xs ys ≡ common_prefix ys xs
unfolding common_prefix
common_prefix_comm [] [] = refl
common_prefix_comm [] (y ∷ ys) = refl
common_prefix_comm (x ∷ xs) [] = refl
common_prefix_comm (x ∷ xs) (y ∷ ys) = elim (Bool-cases (x == y)) [
  | inl e ↦
      let same = (eq_iff x y).0 e in
      rw (e, sym (eq_sym x y) ∙ e)
        (ap (λ l. x ∷ l) (common_prefix_comm xs ys) ∙ ap (λ z. z ∷ common_prefix ys xs) same)
  | inr e ↦ rw (e, sym (eq_sym x y) ∙ e) refl
]

pub commonpath_comm : (left right : String) → commonpath left right ≡ commonpath right left
unfolding commonpath
commonpath_comm left right =
    rw (common_prefix_comm (components left) (components right)) (ground arith)

parent_relationship_comm :
    (common left right : String)
    → is_some (parent_relationship common left right)
      ≡ is_some (parent_relationship common right left)
unfolding parent_relationship
parent_relationship_comm common left right = ground arith

abbrev pub related : String → String → Bool
related u v = is_some (path_relationship u v)

related_comm : (u v : String) → related u v ≡ related v u
unfolding path_relationship
related_comm u v = elim (Bool-cases (u == v)) [
  | inl e ↦ rw (e, sym (eq_sym u v) ∙ e) refl
  | inr e ↦ elim (Bool-cases (is_file_id u || is_file_id v)) [
    | inl f ↦
        let g : (is_file_id v || is_file_id u) ≡ true = ground arith in
        rw (e, sym (eq_sym u v) ∙ e, f, g) refl
    | inr f ↦
        let g : (is_file_id v || is_file_id u) ≡ false = ground arith in
        rw (e, sym (eq_sym u v) ∙ e, f, g, commonpath_comm u v)
          (elim (Option-cases (commonpath v u)) [
            | inl n ↦ rw n refl
            | inr (c, s) ↦ rw s (parent_relationship_comm (with_slashes c) u v)
          ])
  ]
]

pub is_some-search :
    (f : String → String → Option Conflict) (us vs : List String)
    → is_some (search_pairs f us vs) ≡ any (λ u. any (λ v. is_some (f u v)) vs) us
unfolding search_pairs
is_some-search f us vs =
    is_some-first (λ u. first_some (f u) vs) us
    ∙ any-cong (λ u. is_some (first_some (f u) vs)) (λ u. any (λ v. is_some (f u v)) vs) us
        (λ u. is_some-first (f u) vs)

-- A search in both orders finds as much, if the pair test does.
search_comm :
    (f g : String → String → Option Conflict) (us vs : List String)
    → ((u v : String) → is_some (f u v) ≡ is_some (g v u))
    → is_some (search_pairs f us vs) ≡ is_some (search_pairs g vs us)
search_comm f g us vs h =
    is_some-search f us vs
    ∙ any-swap (λ u v. is_some (f u v)) us vs
    ∙ any-cong (λ v. any (λ u. is_some (f u v)) us) (λ v. any (λ u. is_some (g v u)) us) vs
        (λ v. any-cong (λ u. is_some (f u v)) (λ u. is_some (g v u)) us (λ u. h u v))
    ∙ sym (is_some-search g vs us)

is_some-conflict_of :
    (l r : Locator) (u v : String) (found : Option Relationship)
    → is_some (conflict_of l r u v found) ≡ is_some found
unfolding conflict_of
is_some-conflict_of l r u v none = refl
is_some-conflict_of l r u v (some found) = refl

pub is_some-path : (l r : Locator) (u v : String) → is_some (path_conflict l r u v) ≡ related u v
unfolding path_conflict
is_some-path l r u v = is_some-conflict_of l r u v (path_relationship u v)

pub is_some-same : (l r : Locator) (u v : String) → is_some (same_identity l r u v) ≡ (u == v)
unfolding same_identity
is_some-same l r u v = ground arith

is_path-index : (k : Kind) → is_path k ≡ eqb (kind_index k) 0
unfolding is_path kind_index
is_path-index path_kind = refl
is_path-index artifact_kind = refl
is_path-index record_kind = refl
is_path-index service_kind = refl
is_path-index device_kind = refl
is_path-index environment_kind = refl

kind_eq_comm : (a b : Kind) → (kind_eq a b && not (is_path a)) ≡ (kind_eq b a && not (is_path b))
unfolding kind_eq
kind_eq_comm a b = rw (is_path-index a, is_path-index b) (ground arith)

paths_comm :
    (l r : Locator)
    → is_some (search_pairs (path_conflict l r) (path_identities l) (path_identities r))
      ≡ is_some (search_pairs (path_conflict r l) (path_identities r) (path_identities l))
paths_comm l r =
    search_comm (path_conflict l r) (path_conflict r l) (path_identities l) (path_identities r)
      (λ u v. is_some-path l r u v ∙ related_comm u v ∙ sym (is_some-path r l v u))

logical_comm :
    (l r : Locator)
    → is_some (search_pairs (same_identity l r) (identities l) (identities r))
      ≡ is_some (search_pairs (same_identity r l) (identities r) (identities l))
logical_comm l r =
    search_comm (same_identity l r) (same_identity r l) (identities l) (identities r)
      (λ u v. is_some-same l r u v ∙ eq_sym u v ∙ sym (is_some-same r l v u))

is_some-branches {ℓ} :
    {A : Type ℓ} (silent same : Bool) (a b : Option A)
    → is_some (if silent then none else if same then or_else a b else b)
      ≡ (not silent && (same && is_some a || is_some b))
is_some-branches true same a b = refl
is_some-branches false true a b = is_some-or_else a b
is_some-branches false false a b = refl

-- A conflict is found if a side writes, and the sides have one kind and share a value, or two of
-- their path identities are related.
abbrev pub found : Locator → Locator → Bool
found l r =
    not (not (is_write l.access) && not (is_write r.access))
    && (kind_eq l.kind r.kind
          && not (is_path l.kind)
          && is_some (search_pairs (same_identity l r) (identities l) (identities r))
        || is_some (search_pairs (path_conflict l r) (path_identities l) (path_identities r)))

pub conflict-found : (l r : Locator) → is_some (locator_conflict l r) ≡ found l r
unfolding locator_conflict
conflict-found l r =
    is_some-branches (not (is_write l.access) && not (is_write r.access))
      (kind_eq l.kind r.kind && not (is_path l.kind))
      (search_pairs (same_identity l r) (identities l) (identities r))
      (search_pairs (path_conflict l r) (path_identities l) (path_identities r))

found_comm : (l r : Locator) → found l r ≡ found r l
found_comm l r = rw (kind_eq_comm l.kind r.kind, logical_comm l r, paths_comm l r) (ground arith)

-- Whether two locators conflict does not depend on which one is requested and which one is held.
pub locator_conflict_comm :
    (l r : Locator) → is_some (locator_conflict l r) ≡ is_some (locator_conflict r l)
locator_conflict_comm l r = conflict-found l r ∙ found_comm l r ∙ sym (conflict-found r l)
