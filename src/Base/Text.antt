-- ===== src/Base/Text.antt =====
-- Python's text operations that the program uses: strip, order, membership and `set` of texts.
use Prim.Native.Nat.{ℕ}
use Prim.Native.Char.{code}
use Prim.Native.String.{String, ◌++◌}
use mathlib.Core.Path.{◌≡◌, refl, subst}
use mathlib.Core.Logic.{inl, inr}
use mathlib.Core.Bool.{Bool, true, false, not, ◌&&◌, ◌||◌, false≢true}
use mathlib.Core.List.{List, [], ◌∷◌}
use native.Mathlib.Omega.{arith}
use text.Mathlib.Text.{◌==◌}
use text.Mathlib.TextEquality.{eq_iff}
use malts.Base.Tests.{ltb, leb, eqb, if◌then◌else◌, Bool-cases}
use malts.Base.Lists.{All}

-- The characters that `str.strip()` removes.
is_space : ℕ → Bool
is_space c =
    leb 9 c && leb c 13
    || leb 28 c && leb c 32
    || eqb c 133
    || eqb c 160
    || eqb c 5760
    || leb 8192 c && leb c 8202
    || eqb c 8232
    || eqb c 8233
    || eqb c 8239
    || eqb c 8287
    || eqb c 12288

-- `not value.strip()`
unfoldable pub is_blank : String → Bool
unfolding is_space
is_blank String.[] = true
is_blank (String.◌∷◌ c s) = is_space (code c) && is_blank s

-- `a <= b` on texts: by code points.
unfoldable pub text_leb : String → String → Bool
text_leb String.[] t = true
text_leb (String.◌∷◌ c s) String.[] = false
text_leb (String.◌∷◌ c s) (String.◌∷◌ d t) =
    if eqb (code c) (code d) then text_leb s t else ltb (code c) (code d)

-- `s + t`
abbrev pub text_append : String → String → String
text_append s t = s ++ t

-- `s in xs`
abbrev pub contains : String → List String → Bool
contains s [] = false
contains s (x ∷ xs) = x == s || contains s xs

-- `sorted(set(xs))`: one copy of each element, placed in order.
unfoldable pub insert_text : String → List String → List String
insert_text s [] = s ∷ []
insert_text s (x ∷ xs) =
    let later = x ∷ insert_text s xs in
    if x == s then x ∷ xs else if text_leb s x then s ∷ x ∷ xs else later

unfoldable pub sorted_set : List String → List String
unfolding insert_text
sorted_set [] = []
sorted_set (x ∷ xs) = insert_text x (sorted_set xs)

contains-insert_text :
    (s t : String) (xs : List String) → contains t (insert_text s xs) ≡ (s == t || contains t xs)
unfolding insert_text
contains-insert_text s t [] = refl
contains-insert_text s t (x ∷ xs) =
    ground (arith, contains-insert_text s t xs, eq_iff x s, eq_iff x t, eq_iff s t)

-- The sorted set has the members of the list.
pub contains-sorted_set :
    (t : String) (xs : List String) → contains t (sorted_set xs) ≡ contains t xs
unfolding sorted_set
contains-sorted_set t [] = refl
contains-sorted_set t (x ∷ xs) =
    ground (arith, contains-insert_text x t (sorted_set xs), contains-sorted_set t xs)

-- `len(set(xs)) == len(xs)`
abbrev pub all_distinct : List String → Bool
all_distinct [] = true
all_distinct (x ∷ xs) = not (contains x xs) && all_distinct xs

-- A member of a list has what all the list has.
pub All-contains {κ} :
    (P : String → Type κ) (s : String) (xs : List String) → All P xs → contains s xs ≡ true → P s
All-contains P s [] h m = absurd (false≢true m)
All-contains P s (x ∷ xs) h m = elim (Bool-cases (x == s)) [
  | inl e ↦ subst P ((eq_iff x s).0 e) h.0
  | inr e ↦ All-contains P s xs h.1 (ground arith)
]
