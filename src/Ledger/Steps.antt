-- ===== src/Ledger/Steps.antt =====
-- growth_ledger.py: the updates of a candidate as a step relation, and what no sequence of updates
-- undoes.
use malts.Base.{String, Bool, true, false, not, ◌≡◌, refl, sym, arith}
use malts.Base.{Option, none, some, List, [], ◌∷◌, ◌++◌, is_empty, append-eq-nil}
use malts.Base.{not-eq-true, Bool-cases, inl, inr, false≢true, ◌≢◌}
use malts.Ledger.{
  Status, Candidate, FutureUse, Signal, Validation, Contracts, updated, Action, revise, deprecate,
  remove, other_action, is_in, retired_states, contested_states, apply_future_validation,
  review_candidate_lifecycle, validation_issues, review_issues, validate_use, challenge, advance,
  checked, reviewed, action_of, action_issues, issue_unless,
}

-- One accepted update of a candidate.
pub data Step (strip : String → String) (contracts : Contracts)
    : Candidate → Candidate → Type 0 where
  validate :
      {c c' : Candidate}
      → (v : Validation) → (signals : List Signal)
      → apply_future_validation contracts c v signals ≡ updated c'
      → Step strip contracts c c'
  review :
      {c c' : Candidate}
      → (action reason : String) → (authorization project replacement : Option String)
      → review_candidate_lifecycle strip contracts c action reason authorization project replacement
        ≡ updated c'
      → Step strip contracts c c'

pub data Reaches (strip : String → String) (contracts : Contracts)
    : Candidate → Candidate → Type 0 where
  stay : {c : Candidate} → Reaches strip contracts c c
  then_step :
      {c d e : Candidate}
      → Reaches strip contracts c d
      → Step strip contracts d e
      → Reaches strip contracts c e

checked-updated :
    (contracts : Contracts) (c c' : Candidate) → checked contracts c ≡ updated c' → c ≡ c'
unfolding checked
checked-updated contracts c c' h = elim (Bool-cases (is_empty (contracts.candidate_issues c))) [
  | inl e ↦ cc (rw e at h)
  | inr e ↦ absurd (cc (rw e at h))
]

pub is_empty-eq : {A : Type 0} → (xs : List A) → is_empty xs ≡ true → xs ≡ []
is_empty-eq [] h = refl
is_empty-eq (x ∷ xs) h = absurd (false≢true h)

pub apply-updated :
    (contracts : Contracts) (c c' : Candidate) (v : Validation) (signals : List Signal)
    → apply_future_validation contracts c v signals ≡ updated c'
    → (validation_issues contracts c v signals ≡ []) × (validate_use c v.use_of ≡ c')
unfolding apply_future_validation
apply-updated contracts c c' v signals h =
    elim (Bool-cases (is_empty (validation_issues contracts c v signals))) [
      | inl e ↦ (is_empty-eq _ e, checked-updated contracts _ c' (rw e at h))
      | inr e ↦ absurd (cc (rw e at h))
    ]

pub review-updated :
    (strip : String → String) (contracts : Contracts) (c c' : Candidate) (action reason : String)
    (authorization project replacement : Option String)
    → review_candidate_lifecycle strip contracts c action reason authorization project replacement
      ≡ updated c'
    → (review_issues contracts c (action_of action) reason authorization project replacement ≡ [])
      × (reviewed strip c (action_of action) reason replacement ≡ c')
unfolding review_candidate_lifecycle
review-updated strip contracts c c' action reason authorization project replacement h =
    elim (Bool-cases (
      is_empty
        (review_issues contracts c (action_of action) reason authorization project replacement))) [
          | inl e ↦ (is_empty-eq _ e, checked-updated contracts _ c' (rw e at h))
          | inr e ↦ absurd (cc (rw e at h))
        ]

-- Challenged, suspended, deprecated, removed or rejected.
abbrev pub stopped_states : List Status
stopped_states = contested_states ++ retired_states

pub validate_use-stopped :
    (c : Candidate) (u : FutureUse)
    → is_in c.status stopped_states ≡ true
    → is_in (validate_use c u).status stopped_states ≡ true
unfolding validate_use challenge advance is_in
validate_use-stopped c u h = ground arith

pub validate_use-retired :
    (c : Candidate) (u : FutureUse)
    → is_in c.status retired_states ≡ true
    → (validate_use c u).status ≡ c.status
unfolding validate_use challenge advance
validate_use-retired c u h = ground arith

pub allowed_action :
    (contracts : Contracts) (c : Candidate) (action : Action) (reason : String)
    (authorization project replacement : Option String)
    → review_issues contracts c action reason authorization project replacement ≡ []
    → action_issues c action replacement ≡ []
unfolding review_issues
allowed_action contracts c action reason authorization project replacement h =
    let (h1, t1) = append-eq-nil (contracts.candidate_issues c) _ h in
    let (h2, t2) = append-eq-nil _ _ t1 in (append-eq-nil _ _ t2).1

pub issue_unless-eq-nil : (t : Bool) (code path : String) → issue_unless t code path ≡ [] → t ≡ true
issue_unless-eq-nil true code path h = refl
issue_unless-eq-nil false code path h = cc

-- What each action asks of the status.
abbrev pub Asked : Candidate → Action → Type 0
Asked c revise = is_in c.status contested_states ≡ true
Asked c deprecate = is_in c.status (Status.deprecated ∷ Status.removed ∷ []) ≡ false
Asked c remove = is_in c.status (Status.deprecated ∷ []) ≡ true
Asked c other_action = false ≡ true

pub action_issues-Asked :
    (c : Candidate) (action : Action) (replacement : Option String)
    → action_issues c action replacement ≡ []
    → Asked c action
unfolding action_issues
action_issues-Asked c revise replacement h =
    issue_unless-eq-nil _ _ _
      (append-eq-nil
        (issue_unless (is_in c.status contested_states) "GR_LIFECYCLE_TRANSITION" "$.status") _ h).0
action_issues-Asked c deprecate replacement h =
    not-eq-true _
      (issue_unless-eq-nil (not (is_in c.status (Status.deprecated ∷ Status.removed ∷ []))) _ _ h)
action_issues-Asked c remove replacement h =
    issue_unless-eq-nil (is_in c.status (Status.deprecated ∷ [])) _ _ h
action_issues-Asked c other_action replacement h = issue_unless-eq-nil false _ _ h

pub reviewed-stopped :
    (strip : String → String) (c : Candidate) (action : Action) (reason : String)
    (replacement : Option String)
    → Asked c action
    → is_in (reviewed strip c action reason replacement).status stopped_states ≡ true
unfolding reviewed is_in
reviewed-stopped strip c revise reason replacement h = ground arith
reviewed-stopped strip c deprecate reason none h = refl
reviewed-stopped strip c deprecate reason (some ref) h = refl
reviewed-stopped strip c remove reason replacement h = refl
reviewed-stopped strip c other_action reason replacement h = refl

pub reviewed-retired :
    (strip : String → String) (c : Candidate) (action : Action) (reason : String)
    (replacement : Option String)
    → Asked c action
    → is_in c.status retired_states ≡ true
    → is_in (reviewed strip c action reason replacement).status retired_states ≡ true
unfolding reviewed is_in
reviewed-retired strip c revise reason replacement h r = r
reviewed-retired strip c deprecate reason none h r = refl
reviewed-retired strip c deprecate reason (some ref) h r = refl
reviewed-retired strip c remove reason replacement h r = refl
reviewed-retired strip c other_action reason replacement h r = refl

pub never_reviewed : (c : Candidate) (action : Action) → Asked c action → c.status ≢ Status.removed
unfolding is_in
never_reviewed c revise h r = false≢true (rw r at h)
never_reviewed c deprecate h r = false≢true (sym (rw r at h))
never_reviewed c remove h r = false≢true (rw r at h)
never_reviewed c other_action h r = false≢true h
