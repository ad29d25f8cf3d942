-- ===== src/Ledger/Events.antt =====
-- growth_ledger.py: the analysis of a signal and the recording of a retrieval event.
use malts.Base.{String, ◌==◌, eq_iff, Bool, true, false, not, ◌&&◌, ◌||◌, ◌≡◌, refl, ap}
use malts.Base.{Option, none, some, List, [], ◌∷◌, ◌++◌, is_empty, append-eq-nil, All}
use malts.Base.{Bool-cases, inl, inr, false≢true, and-eq-true, if◌then◌else◌}
use mathlib.Core.Path.{subst}
use malts.Json.{Entries}
use malts.Ledger.{
  Candidate, Signal, Contracts, LedgerIssue, Authority, l1, is_in, issue_unless, is_authorized,
  observed, candidate,
}
use malts.Ledger.Steps.{is_empty-eq, issue_unless-eq-nil}
use malts.Ledger.Guards.{is_authorized_lem}

pub data Analysis : Type 0 where
  no_signal analyzed : Analysis
  analysis_rejected : List LedgerIssue → Analysis

is_l1 : Authority → Bool
is_l1 l1 = true
is_l1 _ = false

-- Nothing is handed back but the decision and the issues.
pub analyze_signal : Contracts → Option Signal → Option Candidate → Analysis
unfolding is_l1
analyze_signal contracts none c = no_signal
analyze_signal contracts (some signal) none = no_signal
analyze_signal contracts (some signal) (some c) =
    let issues =
      contracts.signal_issues signal
      ++ (contracts.candidate_issues c
          ++ issue_unless (is_l1 c.authority_level && is_in c.status (observed ∷ candidate ∷ []))
              "GR_L1_BOUNDARY" "$") in
    if is_empty issues then analyzed else analysis_rejected issues

pub data Mode : Type 0 where
  analysis_only project_maintain : Mode

pub record EventDecision : Type 0 where
  pub adopted : Bool
  pub authorization_ref : Option String
  pub copied : Entries

pub record Event : Type 0 where
  pub decisions : List EventDecision
  pub recorded_at : String
  pub copied : Entries

pub record Ledger : Type 0 where
  pub mode : Mode
  pub authorization_ref : Option String
  pub retrieval_events : List Event
  pub updated_at : String
  pub copied : Entries

pub data Recording : Type 0 where
  recording_denied : List LedgerIssue → Recording
  recorded : Ledger → Recording

is_maintained : Mode → Bool
is_maintained project_maintain = true
is_maintained analysis_only = false

pub same_ref : Option String → Option String → Bool
same_ref none none = true
same_ref none (some _) = false
same_ref (some _) none = false
same_ref (some a) (some b) = a == b

-- The position of the decision in the issue's path is left out.
decision_issues : Option String → List EventDecision → List LedgerIssue
unfolding same_ref
decision_issues authorization [] = []
decision_issues authorization (d ∷ ds) =
    issue_unless (not d.adopted || same_ref d.authorization_ref authorization) "GL_ADOPTION_AUTH"
      "$.decisions"
    ++ decision_issues authorization ds

-- `ledger_issues` is the schema check of the ledger.
pub record_retrieval_event :
    (Ledger → List LedgerIssue) → Ledger → Event → Option String → Recording
unfolding is_maintained decision_issues
record_retrieval_event ledger_issues ledger event authorization =
    let issues =
      ledger_issues ledger
      ++ (issue_unless
            (is_maintained ledger.mode && is_authorized authorization ledger.authorization_ref)
            "GL_L2_AUTH" "$.authorization_ref"
          ++ decision_issues authorization event.decisions) in
    let updated : Ledger = record ledger {
      retrieval_events = ledger.retrieval_events ++ event ∷ [];
      updated_at = event.recorded_at;
    } in
    let output_issues = ledger_issues updated in
    if is_empty issues
    then (if is_empty output_issues then recorded updated else recording_denied output_issues)
    else recording_denied issues

-- Opens the definitions of this module, for runs of the code on samples.
unfoldable pub events_code : Unit {0}
unfolding is_l1 analyze_signal is_maintained same_ref decision_issues record_retrieval_event
events_code = tt

pub record IsRecorded (ledger : Ledger) (event : Event) (authorization : Option String)
    (after : Ledger) : Type 0 where
  pub maintained : ledger.mode ≡ project_maintain
  pub authorized :
      (ref : String) × (authorization ≡ some ref)
      × (ledger.authorization_ref ≡ some ref)
      × ((ref == "") ≡ false)
  pub adoptions :
      All
        (λ (d : EventDecision). d.adopted ≡ true → d.authorization_ref ≡ authorization)
        event.decisions
  pub appended : after.retrieval_events ≡ ledger.retrieval_events ++ event ∷ []
  pub dated : after.updated_at ≡ event.recorded_at
  pub same_mode : after.mode ≡ ledger.mode
  pub same_authorization : after.authorization_ref ≡ ledger.authorization_ref

is_maintained_lem : (m : Mode) → is_maintained m ≡ true → m ≡ project_maintain
unfolding is_maintained
is_maintained_lem project_maintain h = refl
is_maintained_lem analysis_only h = absurd (false≢true h)

same_ref_lem : (a b : Option String) → same_ref a b ≡ true → a ≡ b
unfolding same_ref
same_ref_lem none none h = refl
same_ref_lem none (some b) h = absurd (false≢true h)
same_ref_lem (some a) none h = absurd (false≢true h)
same_ref_lem (some a) (some b) h = ap some ((eq_iff a b).0 h)

adoption_lem :
    (authorization : Option String) (ds : List EventDecision)
    → decision_issues authorization ds ≡ []
    → All (λ (d : EventDecision). d.adopted ≡ true → d.authorization_ref ≡ authorization) ds
unfolding decision_issues
adoption_lem authorization [] h = tt
adoption_lem authorization (d ∷ ds) h =
    let (here, rest) = append-eq-nil _ (decision_issues authorization ds) h in
    let either =
      issue_unless-eq-nil (not d.adopted || same_ref d.authorization_ref authorization) _ _ here in
    (
      λ a. same_ref_lem d.authorization_ref authorization (rw a at either),
      adoption_lem authorization ds rest,
    )

-- An event is recorded only in a ledger in project_maintain mode, with the ledger's own nonempty
-- authorisation, and each adoption in it carries that authorisation; the event is then the last of
-- the ledger's events, the ledger bears its date, and mode and authorisation are as before.
pub record-IsRecorded :
    (ledger_issues : Ledger → List LedgerIssue) (ledger after : Ledger) (event : Event)
    (authorization : Option String)
    → record_retrieval_event ledger_issues ledger event authorization ≡ recorded after
    → IsRecorded ledger event authorization after
unfolding record_retrieval_event
record-IsRecorded ledger_issues ledger after event authorization h =
    let issues =
      ledger_issues ledger
      ++ (issue_unless
            (is_maintained ledger.mode && is_authorized authorization ledger.authorization_ref)
            "GL_L2_AUTH" "$.authorization_ref"
          ++ decision_issues authorization event.decisions) in
    let next : Ledger = record ledger {
      retrieval_events = ledger.retrieval_events ++ event ∷ [];
      updated_at = event.recorded_at;
    } in
    elim (Bool-cases (is_empty issues)) [
      | inr e ↦ absurd (cc (rw e at h))
      | inl e ↦ elim (Bool-cases (is_empty (ledger_issues next))) [
        | inr e' ↦ absurd (cc (rw (e, e') at h))
        | inl e' ↦
            let same : next ≡ after = cc (rw (e, e') at h) in
            let (h1, t1) = append-eq-nil (ledger_issues ledger) _ (is_empty-eq issues e) in
            let (h2, h3) = append-eq-nil _ (decision_issues authorization event.decisions) t1 in
            let both =
              issue_unless-eq-nil
                (is_maintained ledger.mode && is_authorized authorization ledger.authorization_ref)
                _ _ h2 in
            subst (IsRecorded ledger event authorization) same (record {
              maintained = is_maintained_lem ledger.mode (and-eq-true _ _ both).0;
              authorized = is_authorized_lem _ _ (and-eq-true _ _ both).1;
              adoptions = adoption_lem authorization event.decisions h3;
              appended = refl;
              dated = refl;
              same_mode = refl;
              same_authorization = refl;
            })
      ]
    ]
