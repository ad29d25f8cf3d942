-- ===== src/Ledger/Retrieval.antt =====
-- growth_ledger.py: the query check and the matching of `retrieve_candidates`. The candidates are
-- those of a ledger bundle that passed `validate_ledger_bundle`, sorted by identity; `normal` is
-- `str(item).strip().casefold()`.
pub mod Relevant
use malts.Base.{String, ◌==◌, Bool, true, false, not, ◌&&◌, ◌||◌, Option, none, some}
use malts.Base.{
  List, [], ◌∷◌, ◌++◌, is_empty, any, all, keep, map, contains, if◌then◌else◌, text_append,
}
use malts.Json.{Value, arr, obj, Entries, get, keys, elements, no_entry}
use malts.Ledger.{Candidate, LedgerIssue, is_in, eligible_states}

abbrev pub dimensions : List String
dimensions = "task_types" ∷ "risk_levels" ∷ "tools" ∷ "workspace_keys" ∷ "failure_signatures" ∷ []

abbrev is_array : Option Value → Bool
is_array (some (arr _)) = true
is_array _ = false

-- `query[key]` where it is an array.
unfoldable pub items : String → Entries → List Value
items key query = elim (get key query) [ some (arr es) ↦ elements es | _ ↦ [] ]

shape_issue : String → LedgerIssue
shape_issue path = record { code = "GL_QUERY_SHAPE"; path = path }

array_issues : List String → Entries → List LedgerIssue
array_issues [] query = []
array_issues (key ∷ rest) query =
    (if is_array (get key query) then [] else shape_issue (text_append "$." key) ∷ [])
    ++ array_issues rest query

pub query_issues : Value → List LedgerIssue
unfolding array_issues shape_issue
query_issues (obj query) =
    if all (λ k. contains k dimensions) (keys query)
      && all (λ k. contains k (keys query)) dimensions
    then (let issues = array_issues dimensions query in
        if is_empty issues && not (any (λ k. not (is_empty (items k query))) dimensions)
        then record { code = "GL_QUERY_EMPTY"; path = "$" } ∷ []
        else issues)
    else shape_issue "$" ∷ []
query_issues _ = shape_issue "$" ∷ []

-- `_normalized`, as a list: only membership and emptiness are asked of it.
unfoldable pub normalized : (Value → String) → List Value → List String
normalized normal values = keep (λ s. not (s == "")) (map normal values)

-- `declared and not declared.intersection(query)`, negated.
unfoldable pub dimension_ok : List String → List String → Bool
dimension_ok declared query = is_empty declared || any (λ s. contains s query) declared

unfoldable pub is_relevant : (Value → String) → (Candidate → Entries) → Entries → Candidate → Bool
is_relevant normal profile query c =
    all
      (λ k.
        dimension_ok (normalized normal (items k (profile c))) (normalized normal (items k query)))
      dimensions

-- The candidates that match, in their order.
pub matched : (Value → String) → (Candidate → Entries) → Entries → List Candidate → List Candidate
matched normal profile query candidates =
    keep (λ c. is_in c.status eligible_states && is_relevant normal profile query c) candidates

pub data Retrieval : Type 0 where
  refused : List LedgerIssue → Retrieval
  found : List String → Retrieval

pub query_entries : Value → Entries
query_entries (obj query) = query
query_entries _ = no_entry

-- `bundle_issues` are those of `validate_ledger_bundle`. The decision is MATCHED or NO_MATCH as the
-- list found has an element or none.
pub retrieve_candidates :
    (Value → String) → (Candidate → Entries) → List LedgerIssue → List Candidate → Value → Retrieval
unfolding query_entries
retrieve_candidates normal profile bundle_issues candidates query =
    let issues = bundle_issues ++ query_issues query in
    if is_empty issues
    then found (
        map (λ (c : Candidate). c.candidate_id)
          (matched normal profile (query_entries query) candidates))
    else refused issues

-- Opens the definitions of this module, for runs of the code on samples.
unfoldable pub retrieval_code : Unit {0}
unfolding query_issues array_issues shape_issue matched retrieve_candidates query_entries
retrieval_code = tt
