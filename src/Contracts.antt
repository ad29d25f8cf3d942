-- ===== src/Contracts.antt =====
-- tools/v2_contracts.py: criteria, which reads the acceptance criteria of a task.
use malts.Base.{String, Bool, true, false, not, ◌&&◌, Option, none, some, List, [], ◌∷◌}
use malts.Base.{all, contains, all_distinct, is_blank, if◌then◌else◌}
use malts.Json.{
  Value, text, bool, obj, arr, Entries, entry, no_entry, Elements, element, no_element, get, keys,
}

abbrev evidence_levels : List String
evidence_levels = "A" ∷ "B" ∷ "C" ∷ "D" ∷ []

abbrev criterion_fields : List String
criterion_fields =
    "criterion_id" ∷ "description" ∷ "hard" ∷ "verification_method" ∷ "minimum_evidence_level" ∷ []

unfoldable pub is_filled_text : Option Value → Bool
is_filled_text (some (text t)) = not (is_blank t)
is_filled_text _ = false

unfoldable pub is_flag : Option Value → Bool
is_flag (some (bool _)) = true
is_flag _ = false

unfoldable pub is_level : Option Value → Bool
is_level (some (text t)) = contains t evidence_levels
is_level _ = false

-- `set(value)==fields`
unfoldable pub has_criterion_fields : Entries → Bool
has_criterion_fields fields =
    all (λ k. contains k criterion_fields) (keys fields)
    && all (λ k. contains k (keys fields)) criterion_fields

unfoldable pub is_criterion : Entries → Bool
is_criterion fields =
    has_criterion_fields fields
    && is_filled_text (get "criterion_id" fields)
    && is_filled_text (get "description" fields)
    && is_filled_text (get "verification_method" fields)
    && is_flag (get "hard" fields)
    && is_level (get "minimum_evidence_level" fields)

-- A criterion that is only a text.
unfoldable pub legacy_criterion : String → Entries
legacy_criterion t = entry "criterion_id" (text t) (
    entry "description" (text t) (
      entry "hard" (bool true) (
        entry "verification_method" (text "declared-review")
          (entry "minimum_evidence_level" (text "D") no_entry))))

-- One value of the list; `none` is the ValueError.
unfoldable pub criterion : Value → Option Entries
criterion (text t) = if is_blank t then none else some (legacy_criterion t)
criterion (obj fields) = if is_criterion fields then some fields else none
criterion _ = none

unfoldable pub add_criterion : Option Entries → Option (List Entries) → Option (List Entries)
add_criterion (some c) (some rest) = some (c ∷ rest)
add_criterion _ _ = none

unfoldable pub each_criterion : Elements → Option (List Entries)
each_criterion no_element = some []
each_criterion (element v rest) = add_criterion (criterion v) (each_criterion rest)

unfoldable pub criterion_id : Entries → String
criterion_id fields = elim (get "criterion_id" fields) [ some (text t) ↦ t | _ ↦ "" ]

unfoldable pub criterion_ids : List Entries → List String
criterion_ids [] = []
criterion_ids (c ∷ cs) = criterion_id c ∷ criterion_ids cs

unfoldable pub distinct_criteria : Option (List Entries) → Option (List Entries)
distinct_criteria none = none
distinct_criteria (some cs) = if all_distinct (criterion_ids cs) then some cs else none

unfoldable pub criteria : Value → Option (List Entries)
criteria (arr (element v rest)) = distinct_criteria (each_criterion (element v rest))
criteria _ = none
