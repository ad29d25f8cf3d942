-- ===== src/Locator/Joined.antt =====
-- resource_locators.py: the components of a path that is joined from components.
use Prim.Native.Char.{Char, code}
use malts.Base.{
  ℕ, String, Bool, true, false, not, ◌&&◌, ◌≡◌, refl, ap, ◌∙◌, arith, eqb, List, [], ◌∷◌, keep, All,
  Bool-cases, inl, inr, text_append, false≢true,
}
use text.Mathlib.TextLemmas.{nil-append, cons-append}
use malts.Locator.{add_char, split_path, is_component, components, join_path, with_slashes}

-- No character of the text has the code.
abbrev pub is_free : ℕ → String → Bool
is_free n String.[] = true
is_free n (String.◌∷◌ c s) = not (eqb (code c) n) && is_free n s

abbrev pub Free : ℕ → String → Type 0
Free n s = is_free n s ≡ true

pub free-append :
    (n : ℕ) (s t : String) → is_free n (text_append s t) ≡ (is_free n s && is_free n t)
free-append n String.[] t = ap (is_free n) (nil-append t)
free-append n (String.◌∷◌ c s) t =
    ap (is_free n) (cons-append c s t) ∙ ground (arith, free-append n s t)

pub slash-append : (s : String) → text_append "/" s ≡ String.◌∷◌ "/" s
slash-append s = cons-append "/" "" s ∙ ap (λ t. String.◌∷◌ "/" t) (nil-append s)

pub with_slashes-Free : (s : String) → Free 92 (with_slashes s)
unfolding with_slashes
with_slashes-Free String.[] = refl
with_slashes-Free (String.◌∷◌ c s) = elim (Bool-cases (eqb (code c) 92)) [
  | inl e ↦
      rw e
        (free-append 92 "/" (with_slashes s) ∙ ap (λ b. is_free 92 "/" && b) (with_slashes-Free s))
  | inr e ↦ rw e (rw (e, with_slashes-Free s) refl)
]

pub with_slashes-same : (s : String) → Free 92 s → with_slashes s ≡ s
unfolding with_slashes
with_slashes-same String.[] h = refl
with_slashes-same (String.◌∷◌ c s) h = elim (Bool-cases (eqb (code c) 92)) [
  | inl e ↦ absurd (false≢true (rw e at h))
  | inr e ↦ rw e (ap (λ t. String.◌∷◌ c t) (with_slashes-same s (ground arith)))
]

add_char-Free :
    (n : ℕ) (c : Char) (rest : List String)
    → eqb (code c) n ≡ false
    → All (Free n) rest
    → All (Free n) (add_char c rest)
unfolding add_char
add_char-Free n c [] e h = (rw e refl, tt)
add_char-Free n c (w ∷ ws) e h = (rw (e, h.0) refl, h.1)

pub split_path-Free : (s : String) → All (Free 47) (split_path s)
unfolding split_path
split_path-Free String.[] = (refl, tt)
split_path-Free (String.◌∷◌ c s) = elim (Bool-cases (eqb (code c) 47)) [
  | inl e ↦ rw e (refl, split_path-Free s)
  | inr e ↦ rw e (add_char-Free 47 c (split_path s) e (split_path-Free s))
]

pub split_path-keeps_Free : (n : ℕ) (s : String) → Free n s → All (Free n) (split_path s)
unfolding split_path
split_path-keeps_Free n String.[] h = (refl, tt)
split_path-keeps_Free n (String.◌∷◌ c s) h =
    let rest = split_path-keeps_Free n s (ground arith) in
    elim (Bool-cases (eqb (code c) 47)) [
      | inl e ↦ rw e (refl, rest)
      | inr e ↦ rw e (add_char-Free n c (split_path s) (ground arith) rest)
    ]

pub All-kept :
    (P : String → Type 0) (p : String → Bool) (xs : List String) → All P xs → All P (keep p xs)
All-kept P p [] h = tt
All-kept P p (x ∷ xs) h = elim (Bool-cases (p x)) [
  | inl e ↦ rw e (h.0, All-kept P p xs h.1)
  | inr e ↦ rw e (All-kept P p xs h.1)
]

pub keep-All : (p : String → Bool) (xs : List String) → All (λ x. p x ≡ true) (keep p xs)
keep-All p [] = tt
keep-All p (x ∷ xs) = elim (Bool-cases (p x)) [
  | inl e ↦ rw e (e, keep-All p xs)
  | inr e ↦ rw e (keep-All p xs)
]

keep-same : (p : String → Bool) (xs : List String) → All (λ x. p x ≡ true) xs → keep p xs ≡ xs
keep-same p [] h = refl
keep-same p (x ∷ xs) h = rw h.0 (ap (λ l. x ∷ l) (keep-same p xs h.1))

pub join_path-Free : (xs : List String) → All (Free 92) xs → Free 92 (join_path xs)
unfolding join_path
join_path-Free [] h = refl
join_path-Free (x ∷ []) h = h.0
join_path-Free (x ∷ y ∷ ys) h =
    free-append 92 x (text_append "/" (join_path (y ∷ ys)))
    ∙ rw h.0 (
        free-append 92 "/" (join_path (y ∷ ys))
        ∙ ap (λ b. is_free 92 "/" && b) (join_path-Free (y ∷ ys) h.1))

split_path-one : (w : String) → Free 47 w → split_path w ≡ w ∷ []
unfolding split_path add_char
split_path-one String.[] h = refl
split_path-one (String.◌∷◌ c w) h = elim (Bool-cases (eqb (code c) 47)) [
  | inl e ↦ absurd (false≢true (rw e at h))
  | inr e ↦ rw (e, split_path-one w (ground arith)) refl
]

split_path-first :
    (w s : String) → Free 47 w → split_path (text_append w (text_append "/" s)) ≡ w ∷ split_path s
unfolding split_path add_char
split_path-first String.[] s h = ap split_path (nil-append (text_append "/" s) ∙ slash-append s)
split_path-first (String.◌∷◌ c w) s h = elim (Bool-cases (eqb (code c) 47)) [
  | inl e ↦ absurd (false≢true (rw e at h))
  | inr e ↦
      ap split_path (cons-append c w (text_append "/" s))
      ∙ rw e (ap (add_char c) (split_path-first w s (ground arith)))
]

split_path-join_path :
    (x : String) (xs : List String)
    → All (Free 47) (x ∷ xs)
    → split_path (join_path (x ∷ xs)) ≡ x ∷ xs
unfolding join_path
split_path-join_path x [] h = split_path-one x h.0
split_path-join_path x (y ∷ ys) h =
    split_path-first x (join_path (y ∷ ys)) h.0 ∙ ap (λ l. x ∷ l) (split_path-join_path y ys h.1)

-- Joined components are found again.
pub components-join_path :
    (xs : List String)
    → All (Free 47) xs
    → All (λ x. is_component x ≡ true) xs
    → components (join_path xs) ≡ xs
unfolding components join_path split_path
components-join_path [] h k = refl
components-join_path (x ∷ xs) h k =
    ap (keep is_component) (split_path-join_path x xs h) ∙ keep-same is_component (x ∷ xs) k
