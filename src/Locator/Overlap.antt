-- ===== src/Locator/Overlap.antt =====
-- resource_locators.py: what two locators that conflict have in common.
use malts.Base.{
  String, ◌==◌, eq_iff, Bool, true, false, not, ◌&&◌, ◌||◌, ◌≡◌, refl, sym, ◌∙◌, arith,
}
use malts.Base.{some, List, [], ◌∷◌, any}
use malts.Base.{
  contains, ◌⊎◌, eq_refl, and-eq-true, not-eq-true, Bool-cases, Option-cases, inl, inr, false≢true,
}
use malts.Locator.{
  Locator, Conflict, kind_eq, is_path, is_write, is_file_id, commonpath, with_slashes,
  parent_relationship, path_relationship, identities, path_identities, same_identity, path_conflict,
  search_pairs, locator_conflict,
}
use malts.Locator.Above.{IsAbove, commonpath-IsAbove}
use malts.Locator.Conflicts.{
  is_some, commonpath_comm, related, found, conflict-found, is_some-search, is_some-path,
  is_some-same,
}

-- A search over pairs that succeeds has a pair to show.
any→pair :
    (g : String → String → Bool) (us vs : List String)
    → any (λ u. any (g u) vs) us ≡ true
    → (u : String) × (v : String) × (contains u us ≡ true) × (contains v vs ≡ true) × (g u v ≡ true)
any→pair g [] vs h = absurd (false≢true h)
any→pair g (x ∷ us) vs h = elim (Bool-cases (any (g x) vs)) [
  | inl e ↦ let (v, m, k) = inner vs e in (x, v, rw (eq_refl x) refl, m, k)
  | inr e ↦ let (u, v, m, n, k) = any→pair g us vs (rw e at h) in (u, v, ground arith, n, k)
]
  where
    inner :
        (ws : List String)
        → any (g x) ws ≡ true
        → (v : String) × (contains v ws ≡ true) × (g x v ≡ true)
    inner [] e = absurd (false≢true e)
    inner (w ∷ ws) e = elim (Bool-cases (g x w)) [
      | inl k ↦ (w, rw (eq_refl w) refl, k)
      | inr k ↦ let (v, m, n) = inner ws (rw k at e) in (v, ground arith, n)
    ]

-- Equal, or paths of which one lies above the other.
abbrev Overlapping : String → String → Type 0
Overlapping u v =
    (u ≡ v) ⊎ ((is_file_id u ≡ false) × (is_file_id v ≡ false) × (IsAbove u v ⊎ IsAbove v u))

-- A parent of two paths is one of them.
parent-Above :
    (u v c : String)
    → commonpath u v ≡ some c
    → is_some (parent_relationship (with_slashes c) u v) ≡ true
    → IsAbove u v ⊎ IsAbove v u
unfolding parent_relationship
parent-Above u v c h k = elim (Bool-cases (with_slashes c == u)) [
  | inl e ↦ inl (commonpath-IsAbove u v c h ((eq_iff (with_slashes c) u).0 e))
  | inr e ↦
      let same : (with_slashes c == v) ≡ true = ground arith in
      inr (commonpath-IsAbove v u c (commonpath_comm v u ∙ h) ((eq_iff (with_slashes c) v).0 same))
]

related-Overlapping : (u v : String) → related u v ≡ true → Overlapping u v
unfolding path_relationship
related-Overlapping u v h = elim (Bool-cases (u == v)) [
  | inl e ↦ inl ((eq_iff u v).0 e)
  | inr e ↦ elim (Bool-cases (is_file_id u || is_file_id v)) [
    | inl f ↦ absurd (false≢true (rw (e, f) at h))
    | inr f ↦ elim (Option-cases (commonpath u v)) [
      | inl n ↦ absurd (false≢true (rw (e, f, n) at h))
      | inr (c, s) ↦ inr (ground arith, ground arith, parent-Above u v c s (rw (e, f, s) at h))
    ]
  ]
]

-- A side that writes, and an identity of one kind that both have, or two path identities that are
-- equal or of which one lies above the other by its components.
pub record IsOverlap (l r : Locator) : Type 0 where
  pub writes : (is_write l.access || is_write r.access) ≡ true
  pub common :
      ((kind_eq l.kind r.kind ≡ true)
        × (is_path l.kind ≡ false)
        × ((s : String) × (contains s (identities l) ≡ true) × (contains s (identities r) ≡ true)))
      ⊎ ((u : String) × (v : String) × (contains u (path_identities l) ≡ true)
          × (contains v (path_identities r) ≡ true)
          × Overlapping u v)

shared_identity :
    (l r : Locator)
    → is_some (search_pairs (same_identity l r) (identities l) (identities r)) ≡ true
    → (s : String) × (contains s (identities l) ≡ true) × (contains s (identities r) ≡ true)
shared_identity l r h =
    let (u, v, m, n, k) =
      any→pair (λ u v. is_some (same_identity l r u v)) (identities l) (identities r)
        (sym (is_some-search (same_identity l r) (identities l) (identities r)) ∙ h) in
    let same : u ≡ v = (eq_iff u v).0 (sym (is_some-same l r u v) ∙ k) in (u, m, rw same n)

-- Two locators conflict only if a side writes, and they have one kind, no path, and share an
-- identity, or a path identity of one is equal to one of the other, or both are paths and the
-- components of one are the first components of the other, both paths being absolute or both relative.
pub locator_conflict-IsOverlap :
    (l r : Locator) (c : Conflict) → locator_conflict l r ≡ some c → IsOverlap l r
locator_conflict-IsOverlap l r c h =
    let yes_found : found l r ≡ true = sym (conflict-found l r) ∙ rw h refl in
    let writes : (is_write l.access || is_write r.access) ≡ true = ground arith in
    elim (Bool-cases
      (is_some (search_pairs (path_conflict l r) (path_identities l) (path_identities r)))) [
        | inl e ↦
            let (u, v, m, n, k) =
              any→pair (λ u v. is_some (path_conflict l r u v)) (path_identities l)
                (path_identities r)
                (sym (is_some-search (path_conflict l r) (path_identities l) (path_identities r))
                  ∙ e) in
            record {
              writes = writes;
              common = inr (u, v, m, n, related-Overlapping u v (sym (is_some-path l r u v) ∙ k));
            }
        | inr e ↦
            let (kinds, shared) : ((kind_eq l.kind r.kind && not (is_path l.kind)) ≡ true)
                × (is_some (search_pairs (same_identity l r) (identities l) (identities r))
                    ≡ true) =
              ground arith in
            let (one_kind, no_path) = and-eq-true _ _ kinds in
            record {
              writes = writes;
              common = inl (one_kind, not-eq-true _ no_path, shared_identity l r shared);
            }
      ]
