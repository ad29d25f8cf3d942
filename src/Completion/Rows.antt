-- ===== src/Completion/Rows.antt =====
-- result_completion.py: counting the verification rows of an identity, and their distinctness.
use malts.Base.{◌≤◌, String, ◌==◌, eq_iff, true, false, ◌&&◌, ◌≡◌, refl, arith}
use malts.Base.{List, [], ◌∷◌, All, All-map, all→All, All→all, contains, all_distinct}
use malts.Base.{some, eqb, eqb→eq, and-eq-true}
use malts.Base.{Option, none, sym, ap, ◌∙◌, Bool-cases, Option-cases, inl, inr, eq_refl}
use mathlib.Core.List.{Memᴰ}
use mathlib.Core.Path.{subst}
use malts.Completion.{
  Criterion, Verification, id_texts, count_id, verification_ok, row_of, row_of_id,
}

abbrev pub row_ids : List Verification → List String
row_ids [] = []
row_ids (row ∷ rows) = row.criterion_id ∷ row_ids rows

-- Every row names a criterion of the contract, and no two rows name the same one.
pub record IsUnambiguous (criteria : List Criterion) (rows : List Verification) : Type 0 where
  pub known : All (λ row. contains row.criterion_id (id_texts criteria) ≡ true) rows
  pub one_each : all_distinct (row_ids rows) ≡ true

count_le :
    (x : Verification) (s : String) (xs : List Verification) → count_id s xs ≤ count_id s (x ∷ xs)
unfolding count_id
count_le x s xs = ground arith

count_self : (xs : List Verification) → All (λ r. 1 ≤ count_id r.criterion_id xs) xs
unfolding count_id
count_self [] = tt
count_self (x ∷ xs) = (
  ground (arith, eq_iff x.criterion_id x.criterion_id),
  All-map (λ r. 1 ≤ count_id r.criterion_id xs) (λ r. 1 ≤ count_id r.criterion_id (x ∷ xs)) xs
      (λ r h. ground (arith, count_le x r.criterion_id xs)) (count_self xs),
)

count-absent :
    (s : String) (xs : List Verification) → count_id s xs ≡ 0 → contains s (row_ids xs) ≡ false
unfolding count_id
count-absent s [] h = refl
count-absent s (x ∷ xs) h = ground (arith, count-absent s xs)

absent-count :
    (s : String) (xs : List Verification) → contains s (row_ids xs) ≡ false → count_id s xs ≡ 0
unfolding count_id
absent-count s [] h = refl
absent-count s (x ∷ xs) h = ground (arith, absent-count s xs)

count-rest :
    (x : Verification) (xs zs : List Verification)
    → All (λ r. count_id r.criterion_id (x ∷ xs) ≡ 1) zs
    → All (λ r. 1 ≤ count_id r.criterion_id xs) zs
    → All (λ r. count_id r.criterion_id xs ≡ 1) zs
unfolding count_id
count-rest x xs [] h k = tt
count-rest x xs (z ∷ zs) h k = (ground arith, count-rest x xs zs h.1 k.1)

ones-distinct :
    (xs : List Verification)
    → All (λ r. count_id r.criterion_id xs ≡ 1) xs
    → all_distinct (row_ids xs) ≡ true
unfolding count_id
ones-distinct [] h = refl
ones-distinct (x ∷ xs) h =
    let only : count_id x.criterion_id xs ≡ 0 =
      ground (arith, eq_iff x.criterion_id x.criterion_id) in
    let absent = count-absent x.criterion_id xs only in
    let later = ones-distinct xs (count-rest x xs xs h.1 (count_self xs)) in ground arith

ones-cons :
    (x : Verification) (xs zs : List Verification)
    → contains x.criterion_id (row_ids zs) ≡ false
    → All (λ r. count_id r.criterion_id xs ≡ 1) zs
    → All (λ r. count_id r.criterion_id (x ∷ xs) ≡ 1) zs
unfolding count_id
ones-cons x xs [] h k = tt
ones-cons x xs (z ∷ zs) h k = (
  ground (arith, eq_iff x.criterion_id z.criterion_id, eq_iff z.criterion_id x.criterion_id, k.0),
  ones-cons x xs zs (ground arith) k.1,
)

distinct-ones :
    (xs : List Verification)
    → all_distinct (row_ids xs) ≡ true
    → All (λ r. count_id r.criterion_id xs ≡ 1) xs
unfolding count_id
distinct-ones [] h = tt
distinct-ones (x ∷ xs) h =
    let absent : contains x.criterion_id (row_ids xs) ≡ false = ground arith in
    let none_later = absent-count x.criterion_id xs absent in
    (
      ground (arith, eq_iff x.criterion_id x.criterion_id),
      ones-cons x xs xs absent (distinct-ones xs (ground arith)),
    )

pub verification_ok-IsUnambiguous :
    (criteria : List Criterion) (rows : List Verification)
    → verification_ok criteria rows ≡ true
    → IsUnambiguous criteria rows
unfolding verification_ok
verification_ok-IsUnambiguous criteria rows h =
    let each = all→All _ rows h in
    record {
      known =
          All-map _ (λ r. contains r.criterion_id (id_texts criteria) ≡ true) rows
            (λ r e. (and-eq-true _ _ e).1) each;
      one_each = ones-distinct rows (
          All-map _ (λ r. count_id r.criterion_id rows ≡ 1) rows
            (λ r e. eqb→eq _ 1 (and-eq-true _ _ e).0) each);
    }

both :
    (criteria : List Criterion) (rows zs : List Verification)
    → All (λ r. contains r.criterion_id (id_texts criteria) ≡ true) zs
    → All (λ r. count_id r.criterion_id rows ≡ 1) zs
    → All
        (λ r.
          (eqb (count_id r.criterion_id rows) 1 && contains r.criterion_id (id_texts criteria))
          ≡ true)
        zs
both criteria rows [] h k = tt
both criteria rows (z ∷ zs) h k = (rw (k.0, h.0) refl, both criteria rows zs h.1 k.1)

pub IsUnambiguous-verification_ok :
    (criteria : List Criterion) (rows : List Verification)
    → IsUnambiguous criteria rows
    → verification_ok criteria rows ≡ true
unfolding verification_ok
IsUnambiguous-verification_ok criteria rows w =
    All→all _ rows (both criteria rows rows w.known (distinct-ones rows w.one_each))

row_of-listed :
    (s : String) (rows : List Verification) (row : Verification)
    → row_of s rows ≡ some row
    → Memᴰ row rows × (row.criterion_id ≡ s)
unfolding row_of
row_of-listed s [] row h = cc
row_of-listed s (r ∷ rows) row h = elim (Option-cases (row_of s rows)) [
  | inr (found, e) ↦ let (m, n) = row_of-listed s rows row (ground arith) in (Memᴰ.tail m, n)
  | inl e ↦ elim (Bool-cases (r.criterion_id == s)) [
    | inl same ↦
        let eq : r ≡ row = ground arith in
        (
          Memᴰ.head (sym eq),
          ap (λ (v : Verification). v.criterion_id) (sym eq) ∙ (eq_iff r.criterion_id s).0 same,
        )
    | inr other ↦ absurd (ground arith)
  ]
]

pub named_row :
    (k : Option String) (rows : List Verification) (row : Verification)
    → row_of_id k rows ≡ some row
    → Memᴰ row rows × (k ≡ some row.criterion_id)
unfolding row_of_id
named_row none rows row h = cc
named_row (some s) rows row h = let (m, n) = row_of-listed s rows row h in (m, ap some (sym n))

absent-row_of :
    (s : String) (rows : List Verification)
    → contains s (row_ids rows) ≡ false
    → row_of s rows ≡ none
unfolding row_of
absent-row_of s [] h = refl
absent-row_of s (r ∷ rows) h = ground (arith, absent-row_of s rows)

-- Where no two rows name the same criterion, each row is the one that its identity finds.
pub listed-row_of :
    (row : Verification) (rows : List Verification)
    → all_distinct (row_ids rows) ≡ true
    → Memᴰ row rows
    → row_of row.criterion_id rows ≡ some row
unfolding row_of
listed-row_of row [] h m = elim m [ ]
listed-row_of row (r ∷ rows) h (Memᴰ.head e) =
    subst (λ v. row_of v.criterion_id (r ∷ rows) ≡ some v) (sym e)
      (rw (absent-row_of r.criterion_id rows (ground arith), eq_refl r.criterion_id) refl)
listed-row_of row (r ∷ rows) h (Memᴰ.tail m) = rw (listed-row_of row rows (ground arith) m) refl
