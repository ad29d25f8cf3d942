-- ===== src/Ledger/Examples.antt =====
-- Sample candidates of growth_ledger.py, and its theorems at them.
use mathlib.Core.Logic.{◌↔◌}
use malts.Base.{String, true, false, ◌≡◌, refl, ◌≢◌, some, none, [], ◌∷◌, contains}
use malts.Base.{is_blank}
use malts.Json.{
  Value, text, arr, obj, Entries, entry, no_entry, element, no_element, elements, get, keys,
}
use malts.Ledger.{
  Status, Candidate, FutureUse, Signal, Validation, Contracts, Update, updated, denied, future_use,
  counterexample, helped, harmful, neutral, no_severity, high_severity, high_risk, l1, is_in,
  eligible_states, apply_future_validation, review_candidate_lifecycle, ledger_code, action_of,
}
use malts.Ledger.Steps.{validate, review, Reaches, stay, then_step, stopped_states}
use malts.Ledger.Lifecycle.{Extends, Reaches-Extends, IsNoLessFinal, Reaches-IsNoLessFinal}
use malts.Ledger.Evidence.{IsSupported, apply-IsSupported}
use malts.Ledger.Guards.{IsAccepted, apply-IsAccepted, apply-harmful, IsReviewed, review-IsReviewed}
use malts.Ledger.Retrieval.{
  retrieve_candidates, found, retrieval_code, items, normalized, dimension_ok, is_relevant,
}
use malts.Ledger.Retrieval.Relevant.{IsMatch, retrieve-IsMatch_iff}
use malts.Ledger.Events.{
  project_maintain, Event, Ledger, recorded, record_retrieval_event, events_code, IsRecorded,
  record-IsRecorded,
}

program : Unit {0}
unfolding ledger_code retrieval_code events_code items normalized dimension_ok is_relevant is_blank
    elements get keys
program = tt

abbrev contracts : Contracts
contracts = record {
  candidate_issues = λ c. [];
  validation_issues = λ v. [];
  signal_issues = λ s. [];
}

abbrev use_in : String → String → FutureUse
use_in task key = record {
  validation_id = task;
  future_task_id = task;
  independence_key = key;
  validation_kind = future_use;
  outcome = helped;
  severity = no_severity;
  copied = no_entry;
}

abbrev signal : Signal
signal = record { signal_id = "s1"; source_task_id = "task0"; copied = no_entry }

-- At high risk, with a helped use and a counterexample that was neutral.
abbrev tried : Candidate
tried = record {
  candidate_id = "c1";
  source_signals = "s1" ∷ [];
  authority_level = l1;
  risk_level = high_risk;
  status = Status.future_use_validating;
  future_use_validations =
      use_in "task1" "team1"
      ∷ record (use_in "task9" "team9") { validation_kind = counterexample; outcome = neutral }
      ∷ [];
  challenge_refs = [];
  status_reason = none;
  replacement_ref = none;
  copied = no_entry;
}

abbrev second : Validation
second = record { about = "c1"; use_of = use_in "task2" "team2" }

abbrev harm : Validation
harm = record {
  about = "c1";
  use_of = record (use_in "task3" "team3") { outcome = harmful; severity = high_severity };
}

abbrev candidate_of : Update → Candidate
candidate_of (updated c) = c
candidate_of (denied issues) = tried

abbrev proved : Candidate
proved = candidate_of (apply_future_validation contracts tried second (signal ∷ []))

validated_now : apply_future_validation contracts tried second (signal ∷ []) ≡ updated proved
unfolding program
validated_now = refl

is_validated : proved.status ≡ Status.validated
unfolding program
is_validated = refl

was_not : tried.status ≢ Status.validated
was_not h = cc

apply-IsSupported_example : IsSupported proved
apply-IsSupported_example =
    apply-IsSupported contracts tried proved second (signal ∷ []) validated_now is_validated was_not

apply-IsAccepted_example : IsAccepted contracts tried second (signal ∷ []) proved
apply-IsAccepted_example =
    apply-IsAccepted contracts tried proved second (signal ∷ []) validated_now

abbrev harmed : Candidate
harmed = candidate_of (apply_future_validation contracts proved harm (signal ∷ []))

harmed_now : apply_future_validation contracts proved harm (signal ∷ []) ≡ updated harmed
unfolding program
harmed_now = refl

apply-harmful_example :
    (is_in harmed.status stopped_states ≡ true) × (is_in harmed.status eligible_states ≡ false)
apply-harmful_example = apply-harmful contracts proved harmed harm (signal ∷ []) harmed_now refl

abbrev strip : String → String
strip s = s

abbrev old : Candidate
old = candidate_of (
    review_candidate_lifecycle strip contracts harmed "deprecate" "unsafe" (some "auth")
      (some "auth") none)

deprecated_now :
    review_candidate_lifecycle strip contracts harmed "deprecate" "unsafe"
      (some "auth")
      (some "auth")
      none
    ≡ updated old
unfolding program
deprecated_now = refl

review-IsReviewed_example :
    IsReviewed harmed (action_of "deprecate") "unsafe" (some "auth") (some "auth")
review-IsReviewed_example =
    review-IsReviewed strip contracts harmed old "deprecate" "unsafe" (some "auth") (some "auth")
      none deprecated_now

history : Reaches strip contracts tried old
history =
    then_step
      (then_step (then_step stay (validate second (signal ∷ []) validated_now))
        (validate harm (signal ∷ []) harmed_now))
      (review "deprecate" "unsafe" (some "auth") (some "auth") none deprecated_now)

Reaches-Extends_example : Extends tried old
Reaches-Extends_example = Reaches-Extends strip contracts tried old history

Reaches-IsNoLessFinal_example : IsNoLessFinal tried old
Reaches-IsNoLessFinal_example = Reaches-IsNoLessFinal strip contracts tried old history

abbrev normal : Value → String
normal (text s) = s
normal _ = ""

abbrev profile : Candidate → Entries
profile c = entry "tools" (arr (element (text "pytest") no_element)) no_entry

abbrev query : Entries
query = entry "task_types" (arr no_element) (
    entry "risk_levels" (arr no_element) (
      entry "tools" (arr (element (text "pytest") no_element)) (
        entry "workspace_keys" (arr no_element)
          (entry "failure_signatures" (arr no_element) no_entry))))

retrieved_now :
    retrieve_candidates normal profile [] (tried ∷ old ∷ []) (obj query) ≡ found ("c1" ∷ [])
unfolding program
retrieved_now = refl

retrieve-IsMatch_iff_example :
    (contains "c1" ("c1" ∷ []) ≡ true) ↔ IsMatch normal profile query (tried ∷ old ∷ []) "c1"
retrieve-IsMatch_iff_example =
    retrieve-IsMatch_iff normal profile query [] (tried ∷ old ∷ []) ("c1" ∷ []) "c1" retrieved_now

abbrev event : Event
event = record {
  decisions = record { adopted = true; authorization_ref = some "auth"; copied = no_entry } ∷ [];
  recorded_at = "2025-01-02T00:00:00Z";
  copied = no_entry;
}

abbrev ledger : Ledger
ledger = record {
  mode = project_maintain;
  authorization_ref = some "auth";
  retrieval_events = [];
  updated_at = "2025-01-01T00:00:00Z";
  copied = no_entry;
}

abbrev later : Ledger
later = record ledger { retrieval_events = event ∷ []; updated_at = "2025-01-02T00:00:00Z" }

recorded_now : record_retrieval_event (λ l. []) ledger event (some "auth") ≡ recorded later
unfolding program
recorded_now = refl

record-IsRecorded_example : IsRecorded ledger event (some "auth") later
record-IsRecorded_example =
    record-IsRecorded (λ l. []) ledger later event (some "auth") recorded_now
