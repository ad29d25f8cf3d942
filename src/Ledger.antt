-- ===== src/Ledger.antt =====
-- tools/growth_ledger.py: the lifecycle of a Growth candidate. Objects that passed their JSON schema
-- are records of the fields that the ledger reads or writes, with the rest in `copied`; what the
-- schema check reports is the record `Contracts` of functions. An issue's message is left out.

pub mod Steps
pub mod Lifecycle
pub mod Evidence
pub mod Guards
pub mod Retrieval
pub mod Events
pub mod Examples
use malts.Base.{ℕ, suc, String, ◌==◌, Bool, true, false, not, ◌&&◌, ◌||◌, Option, none, some}
use malts.Base.{List, [], ◌∷◌, ◌++◌, map, is_empty, any, keep, contains, is_blank, eqb, leb}
use malts.Base.{if◌then◌else◌, text_append}
use malts.Json.{Entries}

pub data Status : Type 0 where
  observed candidate project_experimental future_use_validating validated challenged : Status
  suspended system_promotion_proposed accepted rejected deprecated removed : Status

pub data ValidationKind : Type 0 where
  future_use independent_review negative_test counterexample : ValidationKind

pub data UseOutcome : Type 0 where
  helped neutral harmful inconclusive : UseOutcome

pub data Severity : Type 0 where
  no_severity low_severity medium_severity high_severity critical_severity : Severity

pub data RiskLevel : Type 0 where
  low_risk medium_risk high_risk critical_risk : RiskLevel

pub data Authority : Type 0 where
  l1 l2 l3 : Authority

-- A validation as the candidate keeps it.
pub record FutureUse : Type 0 where
  pub validation_id : String
  pub future_task_id : String
  pub independence_key : String
  pub validation_kind : ValidationKind
  pub outcome : UseOutcome
  pub severity : Severity
  pub copied : Entries

-- A validation as it arrives, with the candidate that it is about.
pub record Validation : Type 0 where
  pub about : String
  pub use_of : FutureUse

pub record Candidate : Type 0 where
  pub candidate_id : String
  pub source_signals : List String
  pub authority_level : Authority
  pub risk_level : RiskLevel
  pub status : Status
  pub future_use_validations : List FutureUse
  pub challenge_refs : List String
  pub status_reason : Option String
  pub replacement_ref : Option String
  pub copied : Entries

pub record Signal : Type 0 where
  pub signal_id : String
  pub source_task_id : String
  pub copied : Entries

pub record LedgerIssue : Type 0 where
  pub code : String
  pub path : String

-- The issues of `_contract_issues`.
pub record Contracts : Type 0 where
  pub candidate_issues : Candidate → List LedgerIssue
  pub validation_issues : Validation → List LedgerIssue
  pub signal_issues : Signal → List LedgerIssue

-- The decision and the candidate that is handed back.
pub data Update : Type 0 where
  denied : List LedgerIssue → Update
  updated : Candidate → Update

status_index : Status → ℕ
status_index observed = 0
status_index candidate = 1
status_index project_experimental = 2
status_index future_use_validating = 3
status_index validated = 4
status_index challenged = 5
status_index suspended = 6
status_index system_promotion_proposed = 7
status_index accepted = 8
status_index rejected = 9
status_index deprecated = 10
status_index removed = 11

-- `status in {...}`
unfoldable pub is_in : Status → List Status → Bool
unfolding status_index
is_in s ts = any (λ t. eqb (status_index s) (status_index t)) ts

unfoldable pub is_future_use : ValidationKind → Bool
is_future_use future_use = true
is_future_use _ = false

unfoldable pub is_helped : UseOutcome → Bool
is_helped helped = true
is_helped _ = false

unfoldable pub is_harmful : UseOutcome → Bool
is_harmful harmful = true
is_harmful _ = false

unfoldable pub is_supportive : UseOutcome → Bool
is_supportive helped = true
is_supportive neutral = true
is_supportive _ = false

unfoldable pub is_severe : Severity → Bool
is_severe high_severity = true
is_severe critical_severity = true
is_severe _ = false

unfoldable pub is_risky : RiskLevel → Bool
is_risky high_risk = true
is_risky critical_risk = true
is_risky _ = false

abbrev pub issue_unless : Bool → String → String → List LedgerIssue
issue_unless true code path = []
issue_unless false code path = record { code = code; path = path } ∷ []

unfoldable pub signals_issues : Contracts → List Signal → List LedgerIssue
signals_issues contracts [] = []
signals_issues contracts (s ∷ ss) = contracts.signal_issues s ++ signals_issues contracts ss

abbrev pub task_ids : List Signal → List String
task_ids signals = map (λ (s : Signal). s.source_task_id) signals

abbrev pub signal_ids : List Signal → List String
signal_ids signals = map (λ (s : Signal). s.signal_id) signals

-- The issues of `apply_future_validation` before anything is changed.
unfoldable pub validation_issues :
    Contracts → Candidate → Validation → List Signal → List LedgerIssue
validation_issues contracts c v signals =
    contracts.candidate_issues c
    ++ (contracts.validation_issues v
        ++ (signals_issues contracts signals
            ++ (issue_unless (v.about == c.candidate_id) "GR_VALIDATION_CANDIDATE" "$.candidate_id"
                ++ (issue_unless
                      (not (any (λ s. not (contains s (signal_ids signals))) c.source_signals))
                      "GR_SOURCE_SIGNAL_MISSING" "$.source_signals"
                    ++ issue_unless
                        (not (
                          is_future_use v.use_of.validation_kind
                          && contains v.use_of.future_task_id (task_ids signals)))
                        "GR_SOURCE_EVENT_REUSED" "$.future_task_id"))))

-- `len(set(xs))`
unfoldable pub distinct_count : List String → ℕ
distinct_count [] = 0
distinct_count (x ∷ xs) = let n = distinct_count xs in if contains x xs then n else suc n

unfoldable pub helped_uses : List FutureUse → List FutureUse
helped_uses uses = keep (λ u. is_future_use u.validation_kind && is_helped u.outcome) uses

unfoldable pub supplemental : List FutureUse → List FutureUse
supplemental uses =
    keep (λ u. not (is_future_use u.validation_kind) && is_supportive u.outcome) uses

-- `threshold and high_risk_ready`
unfoldable pub is_ready : RiskLevel → List FutureUse → Bool
is_ready risk uses =
    let used = helped_uses uses in
    leb 2 (distinct_count (map (λ (u : FutureUse). u.future_task_id) used))
    && leb 2 (distinct_count (map (λ (u : FutureUse). u.independence_key) used))
    && (not (is_risky risk) || not (is_empty (supplemental uses)))

abbrev pub retired_states : List Status
retired_states = deprecated ∷ removed ∷ rejected ∷ []

-- ELIGIBLE_RETRIEVAL_STATES
abbrev pub eligible_states : List Status
eligible_states = project_experimental ∷ future_use_validating ∷ validated ∷ []

abbrev pub contested_states : List Status
contested_states = challenged ∷ suspended ∷ []

-- A harmful outcome: the challenge is recorded, and a candidate in use is stopped.
unfoldable pub challenge : Candidate → FutureUse → Candidate
challenge c u =
    let ref = text_append "validation:" u.validation_id in
    let refs =
      if contains ref c.challenge_refs then c.challenge_refs else c.challenge_refs ++ ref ∷ [] in
    if is_in c.status retired_states then record c { challenge_refs = refs } else record c {
      challenge_refs = refs;
      status =
          if is_severe u.severity || is_in c.status (suspended ∷ []) then suspended else challenged;
      status_reason =
          some "Harmful future evidence opened a challenge and stopped automatic application.";
    }

-- Any other outcome: a candidate that is neither retired nor contested moves on.
unfoldable pub advance : Candidate → Candidate
advance c =
    if is_in c.status retired_states || is_in c.status contested_states
    then c
    else if is_ready c.risk_level c.future_use_validations
    then record c {
      status = validated;
      status_reason =
          some
            "The source event plus two independent helped future tasks satisfy three total validations.";
    }
    else if is_in c.status (observed ∷ candidate ∷ project_experimental ∷ [])
    then record c {
      status = future_use_validating;
      status_reason = some "Future-use validation is in progress.";
    }
    else c

unfoldable pub validate_use : Candidate → FutureUse → Candidate
validate_use c u =
    let noted : Candidate = record c {
      future_use_validations = c.future_use_validations ++ u ∷ [];
    } in
    if is_harmful u.outcome then challenge noted u else advance noted

-- The schema check of what is handed back.
unfoldable pub checked : Contracts → Candidate → Update
checked contracts c =
    let issues = contracts.candidate_issues c in
    if is_empty issues then updated c else denied issues

pub apply_future_validation : Contracts → Candidate → Validation → List Signal → Update
apply_future_validation contracts c v signals =
    let issues = validation_issues contracts c v signals in
    if is_empty issues then checked contracts (validate_use c v.use_of) else denied issues

-- What the text `action` names.
pub data Action : Type 0 where
  revise deprecate remove other_action : Action

unfoldable pub action_of : String → Action
action_of s =
    if s == "revise"
    then revise
    else if s == "deprecate"
    then deprecate
    else if s == "remove"
    then remove
    else other_action

-- `isinstance(ref, str) and ref.strip() and ref != candidate_id`
unfoldable pub is_replacement : Option String → String → Bool
is_replacement none own = false
is_replacement (some ref) own = not (is_blank ref) && not (ref == own)

unfoldable pub action_issues : Candidate → Action → Option String → List LedgerIssue
action_issues c revise replacement =
    issue_unless (is_in c.status contested_states) "GR_LIFECYCLE_TRANSITION" "$.status"
    ++ issue_unless (is_replacement replacement c.candidate_id) "GR_REPLACEMENT_REF"
        "$.replacement_ref"
action_issues c deprecate replacement =
    issue_unless (not (is_in c.status (deprecated ∷ removed ∷ []))) "GR_LIFECYCLE_TRANSITION"
      "$.status"
action_issues c remove replacement =
    issue_unless (is_in c.status (deprecated ∷ [])) "GR_LIFECYCLE_TRANSITION" "$.status"
action_issues c other_action replacement = issue_unless false "GR_LIFECYCLE_ACTION" "$.action"

-- `not authorization_ref or authorization_ref != project_authorization_ref`, negated.
unfoldable pub is_authorized : Option String → Option String → Bool
is_authorized none project = false
is_authorized (some ref) none = false
is_authorized (some ref) (some own) = not (ref == "") && ref == own

unfoldable pub review_issues :
    Contracts
    → Candidate
    → Action
    → String
    → Option String
    → Option String
    → Option String
    → List LedgerIssue
review_issues contracts c action reason authorization project replacement =
    contracts.candidate_issues c
    ++ (issue_unless (is_authorized authorization project) "GL_L2_AUTH" "$.authorization_ref"
        ++ (issue_unless (not (is_blank reason)) "GR_LIFECYCLE_REASON" "$.reason"
            ++ action_issues c action replacement))

unfoldable pub reviewed :
    (String → String) → Candidate → Action → String → Option String → Candidate
reviewed strip c revise reason replacement = record c {
  replacement_ref = replacement;
  status_reason = some (strip reason);
}
reviewed strip c deprecate reason none = record c {
  status = deprecated;
  status_reason = some (strip reason);
}
reviewed strip c deprecate reason (some ref) = record c {
  status = deprecated;
  status_reason = some (strip reason);
  replacement_ref = some ref;
}
reviewed strip c _ reason replacement = record c {
  status = removed;
  status_reason = some (strip reason);
}

-- `strip` is Python's `str.strip`.
pub review_candidate_lifecycle :
    (String → String)
    → Contracts
    → Candidate
    → String
    → String
    → Option String
    → Option String
    → Option String
    → Update
review_candidate_lifecycle strip contracts c action reason authorization project replacement =
    let issues =
      review_issues contracts c (action_of action) reason authorization project replacement in
    if is_empty issues
    then checked contracts (reviewed strip c (action_of action) reason replacement)
    else denied issues

-- Opens the definitions of this module, for runs of the code on samples.
unfoldable pub ledger_code : Unit {0}
unfolding status_index apply_future_validation review_candidate_lifecycle is_in is_future_use
    is_helped is_harmful is_supportive is_severe is_risky signals_issues validation_issues
    distinct_count helped_uses supplemental is_ready challenge advance validate_use checked
    action_of is_replacement action_issues is_authorized review_issues reviewed
ledger_code = tt
