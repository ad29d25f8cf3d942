-- ===== src/Base/Sorted.antt =====
-- Python's order of texts, and `sorted(set(...))` by the members alone.
use Prim.Native.Char.{code}
use Prim.Native.String.{String}
use mathlib.Core.Path.{◌≡◌, refl, sym, ap, ◌∙◌, subst}
use mathlib.Core.Logic.{inl, inr}
use mathlib.Core.Bool.{true, false, false≢true}
use mathlib.Core.List.{List, [], ◌∷◌}
use native.Mathlib.Omega.{arith}
use text.Mathlib.Text.{◌==◌}
use text.Mathlib.TextEquality.{eq_iff, Char-path}
use text.Mathlib.TextPositions.{eq_refl}
use malts.Base.Tests.{Bool-cases}
use malts.Base.Lists.{All, All-map}
use malts.Base.Text.{text_leb, contains, insert_text, sorted_set, contains-sorted_set, All-contains}

text_leb_refl : (s : String) → text_leb s s ≡ true
unfolding text_leb
text_leb_refl String.[] = refl
text_leb_refl (String.◌∷◌ c s) = ground (arith, text_leb_refl s)

text_leb_total : (s t : String) → text_leb s t ≡ false → text_leb t s ≡ true
unfolding text_leb
text_leb_total String.[] t h = absurd (false≢true (sym h))
text_leb_total (String.◌∷◌ c s) String.[] h = refl
text_leb_total (String.◌∷◌ c s) (String.◌∷◌ d t) h = ground (arith, text_leb_total s t)

text_leb_antisym : (s t : String) → text_leb s t ≡ true → text_leb t s ≡ true → s ≡ t
unfolding text_leb
text_leb_antisym String.[] String.[] h k = refl
text_leb_antisym String.[] (String.◌∷◌ d t) h k = absurd (false≢true k)
text_leb_antisym (String.◌∷◌ c s) String.[] h k = absurd (false≢true h)
text_leb_antisym (String.◌∷◌ c s) (String.◌∷◌ d t) h k =
    let same : code c ≡ code d = ground arith in
    let rest = text_leb_antisym s t (ground arith) (ground arith) in
    ap (λ x. String.◌∷◌ x s) (Char-path c d same) ∙ ap (λ u. String.◌∷◌ d u) rest

-- The first text stands strictly before the second.
abbrev Below : String → String → Type 0
Below s t = text_leb t s ≡ false

Below-trans : (s t u : String) → Below s t → Below t u → Below s u
unfolding text_leb
Below-trans s String.[] u h k = absurd (false≢true (sym h))
Below-trans s (String.◌∷◌ d t) String.[] h k = absurd (false≢true (sym k))
Below-trans String.[] (String.◌∷◌ d t) (String.◌∷◌ e u) h k = refl
Below-trans (String.◌∷◌ c s) (String.◌∷◌ d t) (String.◌∷◌ e u) h k =
    ground (arith, Below-trans s t u)

abbrev IsSorted : List String → Type 0
IsSorted [] = Unit
IsSorted (x ∷ xs) = All (Below x) xs × IsSorted xs

insert_text-All :
    (P : String → Type 0) (s : String) (xs : List String)
    → P s
    → All P xs
    → All P (insert_text s xs)
unfolding insert_text
insert_text-All P s [] h k = (h, tt)
insert_text-All P s (x ∷ xs) h k = elim (Bool-cases (x == s)) [
  | inl e ↦ rw e k
  | inr e ↦ elim (Bool-cases (text_leb s x)) [
    | inl f ↦ rw (e, f) (h, k)
    | inr f ↦ rw (e, f) (k.0, insert_text-All P s xs h k.1)
  ]
]

insert_text-IsSorted : (s : String) (xs : List String) → IsSorted xs → IsSorted (insert_text s xs)
unfolding insert_text
insert_text-IsSorted s [] h = (tt, tt)
insert_text-IsSorted s (x ∷ xs) h = elim (Bool-cases (x == s)) [
  | inl e ↦ rw e h
  | inr e ↦ elim (Bool-cases (text_leb s x)) [
    | inl f ↦
        let first : Below s x = elim (Bool-cases (text_leb x s)) [
          | inl g ↦ absurd (false≢true (sym e ∙ (eq_iff x s).1 (text_leb_antisym x s g f)))
          | inr g ↦ g
        ] in
        rw (e, f) ((first, All-map (Below x) (Below s) xs (λ y. Below-trans s x y first) h.0), h)
    | inr f ↦ rw (e, f) (insert_text-All (Below x) s xs f h.0, insert_text-IsSorted s xs h.1)
  ]
]

sorted_set-IsSorted : (xs : List String) → IsSorted (sorted_set xs)
unfolding sorted_set
sorted_set-IsSorted [] = tt
sorted_set-IsSorted (x ∷ xs) = insert_text-IsSorted x (sorted_set xs) (sorted_set-IsSorted xs)

-- A text that stands before all of a list is no member of it.
Below-contains : (x : String) (xs : List String) → All (Below x) xs → contains x xs ≡ false
Below-contains x xs h = elim (Bool-cases (contains x xs)) [
  | inl e ↦ absurd (false≢true (sym (All-contains (Below x) x xs h e) ∙ text_leb_refl x))
  | inr e ↦ e
]

-- The first texts of two sorted lists with the same members.
first-same :
    (x y : String) (xs ys : List String)
    → All (Below x) xs
    → All (Below y) ys
    → contains x (y ∷ ys) ≡ true
    → contains y (x ∷ xs) ≡ true
    → x ≡ y
first-same x y xs ys h k m n = elim (Bool-cases (x == y)) [
  | inl e ↦ (eq_iff x y).0 e
  | inr e ↦
      let after : Below x y = All-contains (Below x) y xs h (ground arith) in
      let other : (y == x) ≡ false = ground (arith, eq_iff x y, eq_iff y x) in
      let before : Below y x = All-contains (Below y) x ys k (ground arith) in
      absurd (false≢true (sym after ∙ text_leb_total x y before))
]

IsSorted-same :
    (xs ys : List String)
    → IsSorted xs
    → IsSorted ys
    → ((s : String) → contains s xs ≡ contains s ys)
    → xs ≡ ys
IsSorted-same [] [] h k same = refl
IsSorted-same [] (y ∷ ys) h k same = ground (arith, same y, eq_refl y)
IsSorted-same (x ∷ xs) [] h k same = ground (arith, same x, eq_refl x)
IsSorted-same (x ∷ xs) (y ∷ ys) h k same =
    let heads =
      first-same x y xs ys h.0 k.0 (ground (arith, same x, eq_refl x))
        (ground (arith, same y, eq_refl y)) in
    let after : All (Below x) ys = subst (λ z. All (Below z) ys) (sym heads) k.0 in
    let tails : (s : String) → contains s xs ≡ contains s ys = λ s. elim (Bool-cases (x == s)) [
      | inl e ↦
          let at_head = (eq_iff x s).0 e in
          subst (λ t. contains t xs ≡ contains t ys) at_head
            (Below-contains x xs h.0 ∙ sym (Below-contains x ys after))
      | inr e ↦
          let other : (y == s) ≡ false = subst (λ z. (z == s) ≡ false) heads e in
          ground (arith, same s)
    ] in
    ap (λ l. x ∷ l) (IsSorted-same xs ys h.1 k.1 tails) ∙ ap (λ z. z ∷ ys) heads

-- `sorted(set(xs))` depends on the members of the list only.
pub sorted_set_ext :
    (xs ys : List String)
    → ((s : String) → contains s xs ≡ contains s ys)
    → sorted_set xs ≡ sorted_set ys
sorted_set_ext xs ys same =
    IsSorted-same (sorted_set xs) (sorted_set ys) (sorted_set-IsSorted xs) (sorted_set-IsSorted ys)
      (λ s. contains-sorted_set s xs ∙ same s ∙ sym (contains-sorted_set s ys))
