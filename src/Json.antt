-- ===== src/Json.antt =====
-- JSON values as Python reads them: what `request.get(key)` and the `isinstance` tests see.
use malts.Base.{ℕ, String, ◌==◌, Bool, true, false, Option, none, some, List, [], ◌∷◌}
use malts.Base.{if◌then◌else◌}

-- An object's entries and an array's elements; `other_num` is a negative or fractional number, kept
-- as its text.
mutual
  pub data Entries : Type 0 where
    entry : String → Value → Entries → Entries
    no_entry : Entries

  pub data Elements : Type 0 where
    element : Value → Elements → Elements
    no_element : Elements

  pub data Value : Type 0 where
    text : String → Value
    bool : Bool → Value
    obj : Entries → Value
    arr : Elements → Value
    other_num : String → Value
    num : ℕ → Value
    null : Value

unfoldable pub elements : Elements → List Value
elements no_element = []
elements (element v rest) = v ∷ elements rest

-- The later of two equal keys is the one that a parsed object keeps.
unfoldable pub get : String → Entries → Option Value
get k no_entry = none
get k (entry j v rest) =
    let later = get k rest in
    elim later [ some w ↦ some w | none ↦ if j == k then some v else none ]

unfoldable pub keys : Entries → List String
keys no_entry = []
keys (entry k v rest) = k ∷ keys rest

-- A value that Python can put in a set or look up in one.
unfoldable pub hashable : Value → Bool
hashable (arr _) = false
hashable (obj _) = false
hashable _ = true
