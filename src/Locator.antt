-- ===== src/Locator.antt =====
-- tools/resource_locators.py: conflicts between normalised resource locators. `os.path` is that of
-- POSIX systems. A locator that is normalised is a record of the fields that the conflict test reads.
pub mod Joined
pub mod Above
pub mod Conflicts
pub mod Overlap
pub mod Examples
use Prim.Native.Char.{Char, code}
use malts.Base.{ℕ, String, ◌==◌, Bool, true, false, not, ◌&&◌, ◌||◌, Option, none, some, eqb}
use malts.Base.{
  List, [], ◌∷◌, ◌++◌, map, any, keep, contains, sorted_set, if◌then◌else◌, text_append,
}

pub data Kind : Type 0 where
  path_kind artifact_kind record_kind service_kind device_kind environment_kind : Kind

pub data Access : Type 0 where
  read_access write_access : Access

-- `canonical_backing_paths` holds the `canonical_value` of each row.
pub record Locator : Type 0 where
  pub locator_id : String
  pub kind : Kind
  pub access : Access
  pub canonical_value : String
  pub canonical_aliases : List String
  pub canonical_backing_paths : List String
  pub physical_paths : List String
  pub physical_file_ids : List String

pub data Relationship : Type 0 where
  exact left_parent right_parent physical_file_id : Relationship

pub record Conflict : Type 0 where
  pub left_locator_id : String
  pub right_locator_id : String
  pub conflict_kind : Kind
  pub relationship : Relationship
  pub left_value : String
  pub right_value : String

kind_index : Kind → ℕ
kind_index path_kind = 0
kind_index artifact_kind = 1
kind_index record_kind = 2
kind_index service_kind = 3
kind_index device_kind = 4
kind_index environment_kind = 5

unfoldable pub kind_eq : Kind → Kind → Bool
unfolding kind_index
kind_eq a b = eqb (kind_index a) (kind_index b)

unfoldable pub is_path : Kind → Bool
is_path path_kind = true
is_path _ = false

unfoldable pub is_write : Access → Bool
is_write write_access = true
is_write read_access = false

unfoldable pub starts_with : String → String → Bool
starts_with String.[] s = true
starts_with (String.◌∷◌ c p) String.[] = false
starts_with (String.◌∷◌ c p) (String.◌∷◌ d s) = eqb (code c) (code d) && starts_with p s

abbrev pub file_id_prefix : String
file_id_prefix = "MALTS-FILE-ID:"

unfoldable pub is_file_id : String → Bool
is_file_id s = starts_with file_id_prefix s

-- A character before the first part.
unfoldable pub add_char : Char → List String → List String
add_char c [] = String.◌∷◌ c "" ∷ []
add_char c (w ∷ ws) = String.◌∷◌ c w ∷ ws

-- `path.split('/')`
unfoldable pub split_path : String → List String
split_path String.[] = "" ∷ []
split_path (String.◌∷◌ c s) =
    let rest = split_path s in if eqb (code c) 47 then "" ∷ rest else add_char c rest

abbrev pub is_component : String → Bool
is_component c = not (c == "") && not (c == ".")

-- The components that `os.path.commonpath` compares.
unfoldable pub components : String → List String
components s = keep is_component (split_path s)

unfoldable pub common_prefix : List String → List String → List String
common_prefix [] ys = []
common_prefix (x ∷ xs) [] = []
common_prefix (x ∷ xs) (y ∷ ys) = if x == y then x ∷ common_prefix xs ys else []

unfoldable pub join_path : List String → String
join_path [] = ""
join_path (x ∷ []) = x
join_path (x ∷ y ∷ ys) = text_append x (text_append "/" (join_path (y ∷ ys)))

-- `os.path.commonpath((left, right))`; `none` is the `ValueError` of an absolute and a relative path.
unfoldable pub commonpath : String → String → Option String
commonpath left right =
    let common = join_path (common_prefix (components left) (components right)) in
    if starts_with "/" left
    then (if starts_with "/" right then some (text_append "/" common) else none)
    else (if starts_with "/" right then none else some common)

-- `.replace("\\", "/")`
unfoldable pub with_slashes : String → String
with_slashes String.[] = ""
with_slashes (String.◌∷◌ c s) =
    let rest = with_slashes s in if eqb (code c) 92 then text_append "/" rest else String.◌∷◌ c rest

unfoldable pub parent_relationship : String → String → String → Option Relationship
parent_relationship common left right =
    if common == left then some left_parent else if common == right then some right_parent else none

unfoldable pub path_relationship : String → String → Option Relationship
path_relationship left right =
    if left == right
    then some exact
    else if is_file_id left || is_file_id right
    then none
    else elim (commonpath left right) [
      | none ↦ none
      | some common ↦ parent_relationship (with_slashes common) left right
    ]

unfoldable pub identities : Locator → List String
identities l = l.canonical_value ∷ l.canonical_aliases

-- Without repetitions, sorted, and those that are no file identities first.
unfoldable pub path_identities : Locator → List String
path_identities l =
    let own = if is_path l.kind then identities l else [] in
    let values =
      sorted_set
        (own ++ (l.canonical_backing_paths ++ (l.physical_paths ++ l.physical_file_ids))) in
    keep (λ s. not (is_file_id s)) values ++ keep is_file_id values

-- The first value that is found.
abbrev pub or_else {ℓ} : {A : Type ℓ} → Option A → Option A → Option A
or_else none later = later
or_else (some a) later = some a

-- The first result of a loop that returns.
unfoldable pub first_some {ℓ κ} : {A : Type ℓ} {B : Type κ} → (A → Option B) → List A → Option B
first_some f [] = none
first_some f (x ∷ xs) = or_else (f x) (first_some f xs)

unfoldable pub same_identity : Locator → Locator → String → String → Option Conflict
same_identity left right u v =
    if u == v
    then some (record {
      left_locator_id = left.locator_id;
      right_locator_id = right.locator_id;
      conflict_kind = left.kind;
      relationship = exact;
      left_value = u;
      right_value = v;
    })
    else none

unfoldable pub conflict_of :
    Locator → Locator → String → String → Option Relationship → Option Conflict
conflict_of left right u v none = none
conflict_of left right u v (some found) = some (record {
  left_locator_id = left.locator_id;
  right_locator_id = right.locator_id;
  conflict_kind = path_kind;
  relationship = if is_file_id u then physical_file_id else found;
  left_value = u;
  right_value = v;
})

unfoldable pub path_conflict : Locator → Locator → String → String → Option Conflict
path_conflict left right u v = conflict_of left right u v (path_relationship u v)

-- The nested loops over the identities of both sides.
unfoldable pub search_pairs :
    (String → String → Option Conflict) → List String → List String → Option Conflict
search_pairs f us vs = first_some (λ u. first_some (f u) vs) us

pub locator_conflict : Locator → Locator → Option Conflict
locator_conflict left right =
    let paths =
      search_pairs (path_conflict left right) (path_identities left) (path_identities right) in
    let logical = search_pairs (same_identity left right) (identities left) (identities right) in
    if not (is_write left.access) && not (is_write right.access)
    then none
    else if kind_eq left.kind right.kind && not (is_path left.kind)
    then or_else logical paths
    else paths

-- `find_conflicts` before its sort: every pair of a requested and a held locator.
conflicts_with : Locator → List Locator → List Conflict
conflicts_with left [] = []
conflicts_with left (right ∷ held) = elim (locator_conflict left right) [
  | none ↦ conflicts_with left held
  | some c ↦ c ∷ conflicts_with left held
]

pub find_conflicts : List Locator → List Locator → List Conflict
unfolding conflicts_with
find_conflicts [] held = []
find_conflicts (left ∷ requested) held = conflicts_with left held ++ find_conflicts requested held

-- Opens the definitions of this module, for runs of the code on samples.
unfoldable pub locator_code : Unit {0}
unfolding kind_index kind_eq is_path is_write starts_with is_file_id add_char split_path components
    common_prefix join_path commonpath with_slashes parent_relationship path_relationship identities
    path_identities first_some same_identity conflict_of path_conflict search_pairs locator_conflict
    conflicts_with find_conflicts sorted_set
locator_code = tt
