-- ===== src/Locator/Above.antt =====
-- resource_locators.py: a path that is the common path of two lies above the other.
use malts.Base.{
  ℕ, String, ◌==◌, eq_iff, true, ◌&&◌, ◌≡◌, refl, sym, ap, ◌∙◌, arith, List, [], ◌∷◌, ◌++◌, keep,
  All, Bool-cases, inl, inr, text_append, some, ◌⊎◌,
}
use malts.Locator.{
  split_path, is_component, components, common_prefix, join_path, commonpath, with_slashes,
  starts_with,
}
use malts.Locator.Joined.{
  is_free, Free, free-append, slash-append, with_slashes-Free, with_slashes-same, split_path-Free,
  split_path-keeps_Free, All-kept, keep-All, join_path-Free, components-join_path,
}

-- The components of a path are the first of the other's, and both paths start at the root, or none
-- does.
pub record IsAbove (u v : String) : Type 0 where
  pub rooted : starts_with "/" u ≡ starts_with "/" v
  pub rest : List String
  pub below : components v ≡ components u ++ rest

common_prefix-All :
    (P : String → Type 0) (xs ys : List String) → All P xs → All P (common_prefix xs ys)
unfolding common_prefix
common_prefix-All P [] ys h = tt
common_prefix-All P (x ∷ xs) [] h = tt
common_prefix-All P (x ∷ xs) (y ∷ ys) h = elim (Bool-cases (x == y)) [
  | inl e ↦ rw e (h.0, common_prefix-All P xs ys h.1)
  | inr e ↦ rw e tt
]

common_prefix-begins :
    (xs ys : List String) → (rest : List String) × (ys ≡ common_prefix xs ys ++ rest)
unfolding common_prefix
common_prefix-begins [] ys = (ys, refl)
common_prefix-begins (x ∷ xs) [] = ([], refl)
common_prefix-begins (x ∷ xs) (y ∷ ys) = elim (Bool-cases (x == y)) [
  | inl e ↦
      let (rest, same) = common_prefix-begins xs ys in
      (rest, rw (e, (eq_iff x y).0 e) (ap (λ l. y ∷ l) same))
  | inr e ↦ (y ∷ ys, rw e refl)
]

components-Free : (s : String) → All (Free 47) (components s)
unfolding components
components-Free s = All-kept (Free 47) is_component (split_path s) (split_path-Free s)

components-keeps_Free : (n : ℕ) (s : String) → Free n s → All (Free n) (components s)
unfolding components
components-keeps_Free n s h =
    All-kept (Free n) is_component (split_path s) (split_path-keeps_Free n s h)

components-named : (s : String) → All (λ x. is_component x ≡ true) (components s)
unfolding components
components-named s = keep-All is_component (split_path s)

components-slash : (s : String) → components (text_append "/" s) ≡ components s
unfolding components split_path
components-slash s = ap (λ t. keep is_component (split_path t)) (slash-append s)

-- A common path is the joined common components, with the root before them if both paths have it.
commonpath-eq :
    (u v c : String)
    → commonpath u v ≡ some c
    → (starts_with "/" u ≡ starts_with "/" v)
      × ((c ≡ join_path (common_prefix (components u) (components v)))
          ⊎ (c ≡ text_append "/" (join_path (common_prefix (components u) (components v)))))
unfolding commonpath
commonpath-eq u v c h = elim (Bool-cases (starts_with "/" u)) [
  | inl e ↦ elim (Bool-cases (starts_with "/" v)) [
    | inl f ↦ (e ∙ sym f, inr (ground arith))
    | inr f ↦ ground arith
  ]
  | inr e ↦ elim (Bool-cases (starts_with "/" v)) [
    | inl f ↦ ground arith
    | inr f ↦ (e ∙ sym f, inl (ground arith))
  ]
]

-- The components of a common path are the common components, and it has no backslash if the first path
-- has none.
components-commonpath :
    (u v c : String)
    → commonpath u v ≡ some c
    → (components c ≡ common_prefix (components u) (components v)) × (Free 92 u → Free 92 c)
components-commonpath u v c h =
    let cs = common_prefix (components u) (components v) in
    let again =
      components-join_path cs
        (common_prefix-All (Free 47) (components u) (components v) (components-Free u))
        (common_prefix-All (λ x. is_component x ≡ true) (components u) (components v)
          (components-named u)) in
    let free : Free 92 u → Free 92 (join_path cs) = λ k.
      join_path-Free cs (
        common_prefix-All (Free 92) (components u) (components v) (components-keeps_Free 92 u k)) in
    elim (commonpath-eq u v c h).1 [
      | inl e ↦ (ap components e ∙ again, λ k. ap (is_free 92) e ∙ free k)
      | inr e ↦ (
        ap components e ∙ components-slash (join_path cs) ∙ again,
        λ k.
            ap (is_free 92) e
            ∙ free-append 92 "/" (join_path cs)
            ∙ ap (λ b. is_free 92 "/" && b) (free k),
      )
    ]

-- A path that is the common path of itself and another lies above the other.
pub commonpath-IsAbove :
    (u v c : String) → commonpath u v ≡ some c → with_slashes c ≡ u → IsAbove u v
commonpath-IsAbove u v c h same =
    let (found, free) = components-commonpath u v c h in
    let clean : Free 92 u = sym (ap (is_free 92) same) ∙ with_slashes-Free c in
    let whole : c ≡ u = sym (with_slashes-same c (free clean)) ∙ same in
    let (rest, begins) = common_prefix-begins (components u) (components v) in
    record {
      rooted = (commonpath-eq u v c h).0;
      rest = rest;
      below = begins ∙ ap (λ l. l ++ rest) (sym found ∙ ap components whole);
    }
