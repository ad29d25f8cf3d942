-- ===== src/Ledger/Lifecycle.antt =====
-- growth_ledger.py: what no sequence of accepted updates of a candidate undoes.
use malts.Base.{String, true, ◌≡◌, refl, sym, ap, ◌∙◌, arith}
use malts.Base.{Option, none, some, List, [], ◌∷◌, ◌++◌, append_nil, append_assoc}
use malts.Base.{Bool-cases, inl, inr, contains, text_append}
use mathlib.Core.Path.{subst}
use malts.Ledger.{
  Status, Candidate, FutureUse, Contracts, Action, revise, deprecate, remove, other_action, is_in,
  retired_states, validate_use, challenge, advance, reviewed, action_of, is_harmful, review_issues,
}
use malts.Ledger.Steps.{
  Step, validate, review, Reaches, stay, then_step, apply-updated, review-updated, stopped_states,
  validate_use-stopped, validate_use-retired, allowed_action, action_issues-Asked, reviewed-stopped,
  reviewed-retired, never_reviewed,
}

-- The second candidate's records begin with the first one's.
pub record Extends (c e : Candidate) : Type 0 where
  pub same_id : e.candidate_id ≡ c.candidate_id
  pub same_sources : e.source_signals ≡ c.source_signals
  pub later_uses : List FutureUse
  pub uses : e.future_use_validations ≡ c.future_use_validations ++ later_uses
  pub later_challenges : List String
  pub challenges : e.challenge_refs ≡ c.challenge_refs ++ later_challenges

Extends-refl : (c : Candidate) → Extends c c
Extends-refl c = record {
  same_id = refl;
  same_sources = refl;
  later_uses = [];
  uses = sym (append_nil c.future_use_validations);
  later_challenges = [];
  challenges = sym (append_nil c.challenge_refs);
}

same_records :
    (c e : Candidate)
    → e.candidate_id ≡ c.candidate_id
    → e.source_signals ≡ c.source_signals
    → e.future_use_validations ≡ c.future_use_validations
    → e.challenge_refs ≡ c.challenge_refs
    → Extends c e
same_records c e i s u r = record {
  same_id = i;
  same_sources = s;
  later_uses = [];
  uses = u ∙ sym (append_nil c.future_use_validations);
  later_challenges = [];
  challenges = r ∙ sym (append_nil c.challenge_refs);
}

Extends-trans : (c d e : Candidate) → Extends c d → Extends d e → Extends c e
Extends-trans c d e f g = record {
  same_id = g.same_id ∙ f.same_id;
  same_sources = g.same_sources ∙ f.same_sources;
  later_uses = f.later_uses ++ g.later_uses;
  uses =
      g.uses
      ∙ ap (λ l. l ++ g.later_uses) f.uses
      ∙ append_assoc c.future_use_validations f.later_uses g.later_uses;
  later_challenges = f.later_challenges ++ g.later_challenges;
  challenges =
      g.challenges
      ∙ ap (λ l. l ++ g.later_challenges) f.challenges
      ∙ append_assoc c.challenge_refs f.later_challenges g.later_challenges;
}

abbrev reference : FutureUse → String
reference u = text_append "validation:" u.validation_id

challenge-refs :
    (c : Candidate) (u : FutureUse)
    → (later : List String) × ((challenge c u).challenge_refs ≡ c.challenge_refs ++ later)
unfolding challenge
challenge-refs c u = elim (Bool-cases (contains (reference u) c.challenge_refs)) [
  | inl e ↦ ([], rw (e, append_nil c.challenge_refs) (ground arith))
  | inr e ↦ (reference u ∷ [], rw e (ground arith))
]

advance-refs : (c : Candidate) → (advance c).challenge_refs ≡ c.challenge_refs
unfolding advance
advance-refs c = ground arith

validate_use-refs :
    (c : Candidate) (u : FutureUse)
    → (later : List String) × ((validate_use c u).challenge_refs ≡ c.challenge_refs ++ later)
unfolding validate_use
validate_use-refs c u =
    let noted : Candidate = record c {
      future_use_validations = c.future_use_validations ++ u ∷ [];
    } in
    elim (Bool-cases (is_harmful u.outcome)) [
      | inl e ↦ rw e (challenge-refs noted u)
      | inr e ↦ rw e ([], advance-refs noted ∙ sym (append_nil c.challenge_refs))
    ]

validate_use-Extends : (c : Candidate) (u : FutureUse) → Extends c (validate_use c u)
unfolding validate_use challenge advance
validate_use-Extends c u =
    let (later, refs) = validate_use-refs c u in
    record {
      same_id = ground arith;
      same_sources = ground arith;
      later_uses = u ∷ [];
      uses = ground arith;
      later_challenges = later;
      challenges = refs;
    }

reviewed-Extends :
    (strip : String → String) (c : Candidate) (action : Action) (reason : String)
    (replacement : Option String)
    → Extends c (reviewed strip c action reason replacement)
unfolding reviewed
reviewed-Extends strip c revise reason replacement = same_records c _ refl refl refl refl
reviewed-Extends strip c deprecate reason none = same_records c _ refl refl refl refl
reviewed-Extends strip c deprecate reason (some ref) = same_records c _ refl refl refl refl
reviewed-Extends strip c remove reason replacement = same_records c _ refl refl refl refl
reviewed-Extends strip c other_action reason replacement =
    same_records c (record c { status = Status.removed; status_reason = some (strip reason) }) refl
      refl refl refl

Step-Extends :
    (strip : String → String) (contracts : Contracts) (c d : Candidate)
    → Step strip contracts c d
    → Extends c d
Step-Extends strip contracts c d (validate v signals h) =
    subst (Extends c) (apply-updated contracts c d v signals h).1 (validate_use-Extends c v.use_of)
Step-Extends strip contracts c d (review action reason authorization project replacement h) =
    subst (Extends c)
      (review-updated strip contracts c d action reason authorization project replacement h).1
      (reviewed-Extends strip c (action_of action) reason replacement)

-- Whatever updates are accepted one after the other, the candidate keeps its identity and its source
-- signals, and its validations and challenges are only added to, at the end.
pub Reaches-Extends :
    (strip : String → String) (contracts : Contracts) (c e : Candidate)
    → Reaches strip contracts c e
    → Extends c e
Reaches-Extends strip contracts c e stay = Extends-refl c
Reaches-Extends strip contracts c e (then_step {d = d} r s) =
    Extends-trans c d e (Reaches-Extends strip contracts c d r) (Step-Extends strip contracts d e s)

-- What a candidate that is stopped, retired or removed stays.
pub record IsNoLessFinal (c e : Candidate) : Type 0 where
  pub stopped : is_in c.status stopped_states ≡ true → is_in e.status stopped_states ≡ true
  pub retired : is_in c.status retired_states ≡ true → is_in e.status retired_states ≡ true
  pub removed : c.status ≡ Status.removed → e.status ≡ Status.removed

validate_use-IsNoLessFinal : (c : Candidate) (u : FutureUse) → IsNoLessFinal c (validate_use c u)
unfolding is_in
validate_use-IsNoLessFinal c u = record {
  stopped = validate_use-stopped c u;
  retired = λ h. rw (validate_use-retired c u h) h;
  removed = λ h. validate_use-retired c u (rw h refl) ∙ h;
}

reviewed-IsNoLessFinal :
    (strip : String → String) (contracts : Contracts) (c : Candidate) (action : Action)
    (reason : String) (authorization project replacement : Option String)
    → review_issues contracts c action reason authorization project replacement ≡ []
    → IsNoLessFinal c (reviewed strip c action reason replacement)
reviewed-IsNoLessFinal strip contracts c action reason authorization project replacement h =
    let asked =
      action_issues-Asked c action replacement
        (allowed_action contracts c action reason authorization project replacement h) in
    record {
      stopped = λ _. reviewed-stopped strip c action reason replacement asked;
      retired = reviewed-retired strip c action reason replacement asked;
      removed = λ r. absurd (never_reviewed c action asked r);
    }

Step-IsNoLessFinal :
    (strip : String → String) (contracts : Contracts) (c d : Candidate)
    → Step strip contracts c d
    → IsNoLessFinal c d
Step-IsNoLessFinal strip contracts c d (validate v signals h) =
    subst (IsNoLessFinal c) (apply-updated contracts c d v signals h).1
      (validate_use-IsNoLessFinal c v.use_of)
Step-IsNoLessFinal strip contracts c d (review action reason authorization project replacement h) =
    let (clean, same) =
      review-updated strip contracts c d action reason authorization project replacement h in
    subst (IsNoLessFinal c) same (
      reviewed-IsNoLessFinal strip contracts c (action_of action) reason authorization project
        replacement clean)

-- Whatever updates are accepted one after the other: a candidate that is challenged, suspended or
-- retired stays one of these, a retired one (deprecated, removed or rejected) stays retired, and a
-- removed one stays removed.
pub Reaches-IsNoLessFinal :
    (strip : String → String) (contracts : Contracts) (c e : Candidate)
    → Reaches strip contracts c e
    → IsNoLessFinal c e
Reaches-IsNoLessFinal strip contracts c e stay = record {
  stopped = λ h. h;
  retired = λ h. h;
  removed = λ h. h;
}
Reaches-IsNoLessFinal strip contracts c e (then_step {d = d} r s) =
    let before = Reaches-IsNoLessFinal strip contracts c d r in
    let last = Step-IsNoLessFinal strip contracts d e s in
    record {
      stopped = λ h. last.stopped (before.stopped h);
      retired = λ h. last.retired (before.retired h);
      removed = λ h. last.removed (before.removed h);
    }
