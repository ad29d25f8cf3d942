-- ===== src/Store/Query.antt =====
-- The statements of SQL that the store uses, on lists of rows.
use malts.Base.{ℕ, suc, ◌≡◌, refl, sym, ap, ◌∙◌, Bool, true, false, arith}
use malts.Base.{Option, none, some, List, [], ◌∷◌, any, keep, if◌then◌else◌}
use malts.Base.{All, Bool-cases, inl, inr}
use mathlib.Core.List.{Memᴰ}
use mathlib.Core.Path.{subst}

module _ {ℓ} {A : Type ℓ} where
  -- SELECT ... WHERE p, the first row
  abbrev pub find : (A → Bool) → List A → Option A
  find p [] = none
  find p (x ∷ xs) = let later = find p xs in if p x then some x else later

  -- UPDATE ... SET f WHERE p
  abbrev pub update : (A → Bool) → (A → A) → List A → List A
  update p f [] = []
  update p f (x ∷ xs) = (if p x then f x else x) ∷ update p f xs

  -- SELECT count(*) WHERE p
  abbrev pub count : (A → Bool) → List A → ℕ
  count p [] = 0
  count p (x ∷ xs) = let n = count p xs in if p x then suc n else n

  pub find-Memᴰ :
      (p : A → Bool) (xs : List A) (a : A) → find p xs ≡ some a → Memᴰ a xs × (p a ≡ true)
  find-Memᴰ p [] a h = cc
  find-Memᴰ p (x ∷ xs) a h = elim (Bool-cases (p x)) [
    | inl e ↦ let same : x ≡ a = ground arith in (Memᴰ.head (sym same), sym (ap p same) ∙ e)
    | inr e ↦ let (m, q) = find-Memᴰ p xs a (ground arith) in (Memᴰ.tail m, q)
  ]

  -- No row that an update makes satisfies q, unless one did before.
  pub any-update :
      (q p : A → Bool) (f : A → A) (xs : List A)
      → ((x : A) → p x ≡ true → q (f x) ≡ q x)
      → any q (update p f xs) ≡ any q xs
  any-update q p f [] h = refl
  any-update q p f (x ∷ xs) h = ground (arith, h x, any-update q p f xs h)

  -- Two tests that agree on what an update does to the rows.
  pub any-image :
      (q' q p : A → Bool) (f : A → A) (xs : List A)
      → ((x : A) → q' (f x) ≡ q x)
      → ((x : A) → q' x ≡ q x)
      → any q' (update p f xs) ≡ any q xs
  any-image q' q p f [] h k = refl
  any-image q' q p f (x ∷ xs) h k = ground (arith, h x, k x, any-image q' q p f xs h k)

  pub count_ext : (p q : A → Bool) (xs : List A) → ((x : A) → p x ≡ q x) → count p xs ≡ count q xs
  count_ext p q [] h = refl
  count_ext p q (x ∷ xs) h = ground (arith, h x, count_ext p q xs h)

  pub count-update :
      (q p : A → Bool) (f : A → A) (xs : List A)
      → ((x : A) → p x ≡ true → q (f x) ≡ q x)
      → count q (update p f xs) ≡ count q xs
  count-update q p f [] h = refl
  count-update q p f (x ∷ xs) h = ground (arith, h x, count-update q p f xs h)

  pub All-update {κ} :
      (P : A → Type κ) (p : A → Bool) (f : A → A) (xs : List A)
      → ((x : A) → P x → p x ≡ true → P (f x))
      → All P xs
      → All P (update p f xs)
  All-update P p f [] h k = tt
  All-update P p f (x ∷ xs) h k = elim (Bool-cases (p x)) [
    | inl e ↦ rw e (h x k.0 e, All-update P p f xs h k.1)
    | inr e ↦ rw e (k.0, All-update P p f xs h k.1)
  ]

  pub All-Memᴰ {κ} : (P : A → Type κ) (x : A) (xs : List A) → All P xs → Memᴰ x xs → P x
  All-Memᴰ P x [] h m = elim m [ ]
  All-Memᴰ P x (y ∷ ys) h (Memᴰ.head e) = subst P (sym e) h.0
  All-Memᴰ P x (y ∷ ys) h (Memᴰ.tail m) = All-Memᴰ P x ys h.1 m

  -- The rows after an update are the images of the rows before.
  pub update-Memᴰ :
      (p : A → Bool) (f : A → A) (xs : List A) (x : A)
      → Memᴰ x (update p f xs)
      → (y : A) × Memᴰ y xs × (x ≡ (if p y then f y else y))
  update-Memᴰ p f [] x m = elim m [ ]
  update-Memᴰ p f (y ∷ ys) x (Memᴰ.head e) = (y, Memᴰ.head refl, e)
  update-Memᴰ p f (y ∷ ys) x (Memᴰ.tail m) =
      let (z, n, e) = update-Memᴰ p f ys x m in (z, Memᴰ.tail n, e)

  -- An update that keeps what a search looks at changes the row that the search finds.
  pub find-update :
      (q p : A → Bool) (f : A → A) (xs : List A) (x : A)
      → ((y : A) → q (f y) ≡ q y)
      → find q xs ≡ some x
      → find q (update p f xs) ≡ some (if p x then f x else x)
  find-update q p f [] x k h = cc
  find-update q p f (y ∷ ys) x k h = elim (Bool-cases (q y)) [
    | inl e ↦
        let same : y ≡ x = ground arith in
        let kept : q (if p y then f y else y) ≡ true = ground (arith, k y) in
        rw kept (ap (λ z. some (if p z then f z else z)) same)
    | inr e ↦
        let other : q (if p y then f y else y) ≡ false = ground (arith, k y) in
        rw other (find-update q p f ys x k (ground arith))
  ]

  pub find-none : (q : A → Bool) (xs : List A) (x : A) → find q xs ≡ none → Memᴰ x xs → q x ≡ false
  find-none q [] x h m = elim m [ ]
  find-none q (y ∷ ys) x h (Memᴰ.head e) = ap q e ∙ ground arith
  find-none q (y ∷ ys) x h (Memᴰ.tail m) = find-none q ys x (ground arith) m

  pub any_none : (q : A → Bool) (xs : List A) (x : A) → any q xs ≡ false → Memᴰ x xs → q x ≡ false
  any_none q [] x h m = elim m [ ]
  any_none q (y ∷ ys) x h (Memᴰ.head e) = ap q e ∙ ground arith
  any_none q (y ∷ ys) x h (Memᴰ.tail m) = any_none q ys x (ground arith) m

  -- What the rows that an update changes have, and those that it leaves.
  pub All-updated {κ} :
      (Q : A → Type κ) (p : A → Bool) (f : A → A) (xs : List A)
      → ((x : A) → p x ≡ true → Q (f x))
      → ((x : A) → p x ≡ false → Q x)
      → All Q (update p f xs)
  All-updated Q p f [] h k = tt
  All-updated Q p f (x ∷ xs) h k = elim (Bool-cases (p x)) [
    | inl e ↦ rw e (h x e, All-updated Q p f xs h k)
    | inr e ↦ rw e (k x e, All-updated Q p f xs h k)
  ]

  -- An update of rows that fail a test, before and after, leaves the rows that pass it.
  pub keep-update :
      (q p : A → Bool) (f : A → A) (xs : List A)
      → ((x : A) → p x ≡ true → (q x ≡ false) × (q (f x) ≡ false))
      → keep q (update p f xs) ≡ keep q xs
  keep-update q p f [] h = refl
  keep-update q p f (x ∷ xs) h =
      let rest = keep-update q p f xs h in
      elim (Bool-cases (p x)) [
        | inl e ↦ let (before, after) = h x e in rw (e, before, after) rest
        | inr e ↦ elim (Bool-cases (q x)) [
          | inl g ↦ rw (e, g) (ap (λ l. x ∷ l) rest)
          | inr g ↦ rw (e, g) rest
        ]
      ]
