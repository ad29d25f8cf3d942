-- ===== src/Ledger/Guards.antt =====
-- growth_ledger.py: the guards of the two updates of a candidate.
use malts.Base.{String, ◌==◌, eq_iff, true, false, not, ◌≡◌, refl, sym, ap, arith}
use malts.Base.{Option, none, some, List, [], ◌∷◌, ◌++◌, is_empty, contains, is_blank, any}
use malts.Base.{Bool-cases, inl, inr, false≢true, append-eq-nil, and-eq-true, not-eq-true}
use malts.Base.{All, All-map, any-eq-false}
use mathlib.Core.Path.{subst}
use malts.Ledger.{
  Status, Candidate, FutureUse, Signal, Validation, Contracts, updated, future_use, harmful, Action,
  is_in, apply_future_validation, review_candidate_lifecycle, validation_issues, review_issues,
  validate_use, challenge, action_of, is_harmful, is_future_use, is_authorized, task_ids,
  signal_ids, signals_issues, eligible_states, checked,
}
use malts.Ledger.Steps.{
  apply-updated, review-updated, stopped_states, issue_unless-eq-nil, is_empty-eq, Asked,
  action_issues-Asked,
}

pub record IsAccepted (contracts : Contracts) (c : Candidate) (v : Validation)
    (signals : List Signal) (c' : Candidate) : Type 0 where
  pub valid : contracts.candidate_issues c ≡ []
  pub validation_valid : contracts.validation_issues v ≡ []
  pub result_valid : contracts.candidate_issues c' ≡ []
  pub about : v.about ≡ c.candidate_id
  pub sources : All (λ s. contains s (signal_ids signals) ≡ true) c.source_signals
  pub future :
      v.use_of.validation_kind ≡ future_use
      → contains v.use_of.future_task_id (task_ids signals) ≡ false

checked-valid :
    (contracts : Contracts) (c c' : Candidate)
    → checked contracts c ≡ updated c'
    → contracts.candidate_issues c' ≡ []
unfolding checked
checked-valid contracts c c' h = elim (Bool-cases (is_empty (contracts.candidate_issues c))) [
  | inl e ↦
      let same : c ≡ c' = cc (rw e at h) in
      subst (λ d. contracts.candidate_issues d ≡ []) same (is_empty-eq _ e)
  | inr e ↦ absurd (cc (rw e at h))
]

apply-valid :
    (contracts : Contracts) (c c' : Candidate) (v : Validation) (signals : List Signal)
    → apply_future_validation contracts c v signals ≡ updated c'
    → contracts.candidate_issues c' ≡ []
unfolding apply_future_validation
apply-valid contracts c c' v signals h =
    elim (Bool-cases (is_empty (validation_issues contracts c v signals))) [
      | inl e ↦ checked-valid contracts (validate_use c v.use_of) c' (rw e at h)
      | inr e ↦ absurd (cc (rw e at h))
    ]

missing-none :
    (known sources : List String)
    → any (λ s. not (contains s known)) sources ≡ false
    → All (λ s. contains s known ≡ true) sources
missing-none known sources h =
    All-map (λ s. not (contains s known) ≡ false) (λ s. contains s known ≡ true) sources
      (λ s e. ground arith) (any-eq-false _ sources h)

-- An accepted validation is about the candidate and all the candidate's source signals were given,
-- a future use is not in a source task, and the candidate before and after and the validation pass
-- their schemas.
pub apply-IsAccepted :
    (contracts : Contracts) (c c' : Candidate) (v : Validation) (signals : List Signal)
    → apply_future_validation contracts c v signals ≡ updated c'
    → IsAccepted contracts c v signals c'
unfolding validation_issues is_future_use
apply-IsAccepted contracts c c' v signals h =
    let clean = (apply-updated contracts c c' v signals h).0 in
    let (h1, t1) = append-eq-nil (contracts.candidate_issues c) _ clean in
    let (h2, t2) = append-eq-nil (contracts.validation_issues v) _ t1 in
    let (h3, t3) = append-eq-nil (signals_issues contracts signals) _ t2 in
    let (h4, t4) = append-eq-nil _ _ t3 in
    let (h5, h6) = append-eq-nil _ _ t4 in
    let fresh = not-eq-true _ (issue_unless-eq-nil _ _ _ h6) in
    record {
      valid = h1;
      validation_valid = h2;
      result_valid = apply-valid contracts c c' v signals h;
      about = (eq_iff v.about c.candidate_id).0 (issue_unless-eq-nil _ _ _ h4);
      sources =
          missing-none (signal_ids signals) c.source_signals
            (not-eq-true _ (issue_unless-eq-nil _ _ _ h5));
      future = λ e. rw e at fresh;
    }

challenge-stopped :
    (c : Candidate) (u : FutureUse) → is_in (challenge c u).status stopped_states ≡ true
unfolding challenge is_in
challenge-stopped c u = ground arith

eligible-stopped : (s : Status) → is_in s stopped_states ≡ true → is_in s eligible_states ≡ false
unfolding is_in
eligible-stopped s h = ground arith

-- After an accepted validation with a harmful outcome the candidate is challenged, suspended or
-- retired, and its status is not one that a retrieval returns.
pub apply-harmful :
    (contracts : Contracts) (c c' : Candidate) (v : Validation) (signals : List Signal)
    → apply_future_validation contracts c v signals ≡ updated c'
    → v.use_of.outcome ≡ harmful
    → (is_in c'.status stopped_states ≡ true) × (is_in c'.status eligible_states ≡ false)
unfolding validate_use is_harmful
apply-harmful contracts c c' v signals h harm =
    let same = (apply-updated contracts c c' v signals h).1 in
    let noted : Candidate = record c {
      future_use_validations = c.future_use_validations ++ v.use_of ∷ [];
    } in
    let is_harm : is_harmful v.use_of.outcome ≡ true = rw harm refl in
    let now : challenge noted v.use_of ≡ c' = rw is_harm at same in
    let stopped : is_in c'.status stopped_states ≡ true =
      subst (λ (d : Candidate). is_in d.status stopped_states ≡ true) now
        (challenge-stopped noted v.use_of) in
    (stopped, eligible-stopped c'.status stopped)

pub record IsReviewed (c : Candidate) (action : Action) (reason : String)
    (authorization project : Option String) : Type 0 where
  pub authorized :
      (ref : String) × (authorization ≡ some ref) × (project ≡ some ref) × ((ref == "") ≡ false)
  pub reasoned : is_blank reason ≡ false
  pub asked : Asked c action

pub is_authorized_lem :
    (authorization project : Option String)
    → is_authorized authorization project ≡ true
    → (ref : String) × (authorization ≡ some ref) × (project ≡ some ref) × ((ref == "") ≡ false)
unfolding is_authorized
is_authorized_lem none project h = absurd (false≢true h)
is_authorized_lem (some ref) none h = absurd (false≢true h)
is_authorized_lem (some ref) (some own) h =
    let (nonempty, same) = and-eq-true _ _ h in
    (ref, refl, ap some (sym ((eq_iff ref own).0 same)), not-eq-true _ nonempty)

-- An accepted lifecycle decision carries the project's own nonempty authorisation and a reason, and
-- its action fits the status: a revision for a challenged or suspended candidate, a deprecation for
-- one that is not deprecated or removed, a removal for a deprecated one.
pub review-IsReviewed :
    (strip : String → String) (contracts : Contracts) (c c' : Candidate) (action reason : String)
    (authorization project replacement : Option String)
    → review_candidate_lifecycle strip contracts c action reason authorization project replacement
      ≡ updated c'
    → IsReviewed c (action_of action) reason authorization project
unfolding review_issues
review-IsReviewed strip contracts c c' action reason authorization project replacement h =
    let clean =
      (review-updated strip contracts c c' action reason authorization project replacement h).0 in
    let (h1, t1) = append-eq-nil (contracts.candidate_issues c) _ clean in
    let (h2, t2) = append-eq-nil _ _ t1 in
    let (h3, h4) = append-eq-nil _ _ t2 in
    record {
      authorized = is_authorized_lem authorization project (issue_unless-eq-nil _ _ _ h2);
      reasoned = not-eq-true _ (issue_unless-eq-nil _ _ _ h3);
      asked = action_issues-Asked c (action_of action) replacement h4;
    }
