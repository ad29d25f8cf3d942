-- ===== src/Completion/Sound.antt =====
-- result_completion.py: an empty list of rejection codes means that the work is complete.
use malts.Base.{String, ◌==◌, Bool, true, false, not, ◌≡◌, refl, sym, ap, ◌∙◌, arith}
use malts.Base.{some, List, [], ◌∷◌, ◌++◌, All, all, all→All, All-map, map, contains}
use malts.Base.{append-eq-nil, Option-cases, all_distinct, All→all, and-eq-true, not-eq-true}
use mathlib.Core.Path.{subst}
use mathlib.Core.List.{Memᴰ}
use malts.Base.{is_empty, is_blank, ◌≤◌, if◌then◌else◌, Bool-cases, inl, inr, false≢true}
use mathlib.Core.Logic.{◌↔◌}
use malts.Completion.{
  pass, Code, Criterion, Verification, Artifact, Proof, strength, required_strength, is_hash,
  same_upper, criteria_ok, terminal, artifact_ok, valid_artifacts, row_of_id, evidence_ok,
  row_issues, criteria_issues, issue_unless, artifact_issues, distinct_from, all_issues,
  evaluate_completion, has_code, is_pass, id_ok, id_texts, matches, observed_hash,
}
use malts.Completion.Rows.{
  row_ids, IsUnambiguous, verification_ok-IsUnambiguous, IsUnambiguous-verification_ok, named_row,
  listed-row_of,
}

distinct-eq-nil : (xs : List Code) → distinct_from [] xs ≡ [] → xs ≡ []
unfolding distinct_from has_code
distinct-eq-nil [] h = refl
distinct-eq-nil (x ∷ xs) h = cc

-- A row passes a hard criterion, where `declared` are the identities of the proof's artifacts: the row
-- names the criterion, its result is PASS, its evidence is at least as strong as required, its
-- references are not blank, and it is bound to declared artifacts.
pub record Passes (declared : List String) (rows : List Verification) (criterion : Criterion)
    (row : Verification) : Type 0 where
  pub listed : Memᴰ row rows
  pub named : criterion.criterion_id ≡ some row.criterion_id
  pub passed : row.result ≡ pass
  pub strong : required_strength criterion.minimum_evidence_level ≤ strength row.evidence_level
  pub refs : is_empty row.evidence_refs ≡ false
  pub refs_text : all (λ ref. not (is_blank ref)) row.evidence_refs ≡ true
  pub bound : is_empty row.artifact_ids ≡ false
  pub bound_declared : all (λ i. contains i declared) row.artifact_ids ≡ true

abbrev pub IsMet : List String → List Verification → Criterion → Type 0
IsMet declared rows k = k.hard ≡ true → (row : Verification) × Passes declared rows k row

-- The artifact has an identity and a hash, and the runtime observed it with that hash.
pub record IsCurrent (observed : List (String × String)) (artifact : Artifact) : Type 0 where
  pub named : (artifact.artifact_id == "") ≡ false
  pub declared : is_hash artifact.sha256 ≡ true
  pub hash : String
  pub seen : observed_hash artifact.artifact_id observed ≡ some hash
  pub equal : same_upper hash artifact.sha256 ≡ true

abbrev pub IsNamed : Criterion → Type 0
IsNamed k = (s : String) × (k.criterion_id ≡ some s) × ((s == "") ≡ false)

pub record IsComplete (criteria : List Criterion) (contract_sha256 : String) (proof : Proof)
    (observed states : List (String × String)) : Type 0 where
  pub hash : is_hash contract_sha256 ≡ true
  pub revision : same_upper proof.contract_sha256 contract_sha256 ≡ true
  pub some_criterion : is_empty criteria ≡ false
  pub criteria_named : All IsNamed criteria
  pub criteria_distinct : all_distinct (id_texts criteria) ≡ true
  pub no_remaining_work : proof.remaining_work ≡ []
  pub settled : All (λ s. contains s.1 terminal ≡ true) states
  pub some_artifact : is_empty proof.artifacts ≡ false
  pub artifacts_distinct : all_distinct (map (λ r. r.artifact_id) proof.artifacts) ≡ true
  pub artifacts_current : All (IsCurrent observed) proof.artifacts
  pub unambiguous : IsUnambiguous criteria proof.verification
  pub met : All (IsMet (map (λ r. r.artifact_id) proof.artifacts) proof.verification) criteria

artifact_ok-IsCurrent :
    (observed : List (String × String)) (r : Artifact)
    → artifact_ok observed r ≡ true
    → IsCurrent observed r
unfolding artifact_ok matches
artifact_ok-IsCurrent observed r h =
    let found : (x : String) × (observed_hash r.artifact_id observed ≡ some x)
        × (same_upper x r.sha256 ≡ true) =
      ground arith in
    record {
      named = ground arith;
      declared = ground arith;
      hash = found.0;
      seen = found.1;
      equal = found.2;
    }

IsCurrent-artifact_ok :
    (observed : List (String × String)) (r : Artifact)
    → IsCurrent observed r
    → artifact_ok observed r ≡ true
unfolding artifact_ok matches
IsCurrent-artifact_ok observed r w = rw (w.named, w.declared, w.seen, w.equal) refl

id_ok-IsNamed :
    (k : Criterion)
    → (id_ok k.criterion_id ≡ true → IsNamed k) × (IsNamed k → id_ok k.criterion_id ≡ true)
unfolding id_ok
id_ok-IsNamed k = (
  λ h. elim (Option-cases k.criterion_id) [
    | inl e ↦ absurd (false≢true (rw e at h))
    | inr (s, e) ↦ (s, e, not-eq-true _ (rw e at h))
  ],
  λ (s, e, n). rw (e, n) refl,
)

valid_artifacts-All :
    (observed : List (String × String)) (rows : List Artifact)
    → All (λ r. artifact_ok observed r ≡ true) rows
    → valid_artifacts observed rows ≡ map (λ r. r.artifact_id) rows
unfolding valid_artifacts
valid_artifacts-All observed [] h = refl
valid_artifacts-All observed (r ∷ rows) h =
    rw h.0 (ap (λ l. r.artifact_id ∷ l) (valid_artifacts-All observed rows h.1))

if-eq-nil {ℓ} :
    {A : Type ℓ} (t : Bool) (xs : List A) → (if t then xs else []) ≡ [] → t ≡ true → xs ≡ []
if-eq-nil true xs h e = h
if-eq-nil false xs h e = absurd (false≢true e)

nil_if {ℓ} :
    {A : Type ℓ} (t : Bool) (xs : List A) → (t ≡ true → xs ≡ []) → (if t then xs else []) ≡ []
nil_if true xs h = h refl
nil_if false xs h = refl

artifact_issues-eq-nil :
    (observed : List (String × String)) (rows : List Artifact)
    → (artifact_issues observed rows ≡ [] → All (λ r. artifact_ok observed r ≡ true) rows)
      × (All (λ r. artifact_ok observed r ≡ true) rows → artifact_issues observed rows ≡ [])
unfolding artifact_issues
artifact_issues-eq-nil observed [] = (λ h. tt, λ h. refl)
artifact_issues-eq-nil observed (r ∷ rows) =
    let (ih, back) = artifact_issues-eq-nil observed rows in
    elim (Bool-cases (artifact_ok observed r)) [
      | inl e ↦ (λ h. (e, ih (rw e at h)), λ h. rw e (back h.1))
      | inr e ↦ (λ h. absurd (cc (rw e at h)), λ h. absurd (false≢true (sym e ∙ h.0)))
    ]

module _ (valid : List String) (rows : List Verification) where
  row_issues-eq-nil :
      (k : Criterion)
      → row_issues valid k (row_of_id k.criterion_id rows) ≡ []
      → (row : Verification) × Passes valid rows k row
  unfolding row_issues evidence_ok is_pass
  row_issues-eq-nil k h = elim (Option-cases (row_of_id k.criterion_id rows)) [
    | inl e ↦ absurd (cc (rw e at h))
    | inr (row, e) ↦ (
      row,
      let h' = rw e at h in
          let (listed, named) = named_row k.criterion_id rows row e in
          record {
            listed = listed;
            named = named;
            passed = ground arith;
            strong = ground arith;
            refs = ground arith;
            refs_text = ground arith;
            bound = ground arith;
            bound_declared = ground arith;
          },
    )
  ]

  Passes-row_issues :
      (k : Criterion) (row : Verification)
      → all_distinct (row_ids rows) ≡ true
      → Passes valid rows k row
      → row_issues valid k (row_of_id k.criterion_id rows) ≡ []
  unfolding row_issues evidence_ok is_pass row_of_id
  Passes-row_issues k row one p = rw (p.named, listed-row_of row rows one p.listed) (ground arith)

  criteria_issues-eq-nil :
      (ks : List Criterion)
      → all_distinct (row_ids rows) ≡ true
      → (criteria_issues valid rows ks ≡ [] → All (IsMet valid rows) ks)
        × (All (IsMet valid rows) ks → criteria_issues valid rows ks ≡ [])
  unfolding criteria_issues
  criteria_issues-eq-nil [] one = (λ h. tt, λ h. refl)
  criteria_issues-eq-nil (k ∷ ks) one =
      let (ih, back) = criteria_issues-eq-nil ks one in
      let issues = row_issues valid k (row_of_id k.criterion_id rows) in
      (
        λ h.
            let (here, rest) =
              append-eq-nil (if k.hard then issues else []) (criteria_issues valid rows ks) h in
            (λ t. row_issues-eq-nil k (if-eq-nil k.hard issues here t), ih rest),
        λ h.
            let none_here : (if k.hard then issues else []) ≡ [] =
              nil_if k.hard issues (λ t. let (row, p) = h.0 t in Passes-row_issues k row one p) in
            subst (λ l. l ++ criteria_issues valid rows ks ≡ []) (sym none_here) (back h.1),
      )

issue_unless-eq-nil : (t : Bool) (x : Code) → issue_unless t x ≡ [] → t ≡ true
issue_unless-eq-nil true x h = refl
issue_unless-eq-nil false x h = cc

module _ (criteria : List Criterion) (sha : String) (proof : Proof)
    (observed states : List (String × String)) where
  all_issues-eq-nil :
      all_issues criteria sha proof observed states ≡ []
      → IsComplete criteria sha proof observed states
  unfolding all_issues criteria_ok
  all_issues-eq-nil h =
      let (h1, t1) = append-eq-nil _ _ h in
      let (h2, t2) = append-eq-nil _ _ t1 in
      let (h3, t3) = append-eq-nil _ _ t2 in
      let (h4, t4) = append-eq-nil _ _ t3 in
      let (h5, t5) = append-eq-nil _ _ t4 in
      let (h6, t6) = append-eq-nil _ _ t5 in
      let (h7, t7) = append-eq-nil _ _ t6 in
      let e1 = issue_unless-eq-nil _ _ h1 in
      let e2 = and-eq-true _ _ (issue_unless-eq-nil _ _ h2) in
      let e5 = issue_unless-eq-nil _ _ h5 in
      let current = (artifact_issues-eq-nil observed proof.artifacts).0 h6 in
      let rows = verification_ok-IsUnambiguous criteria _ (issue_unless-eq-nil _ _ h7) in
      let with_valid =
        criteria_issues-eq-nil (valid_artifacts observed proof.artifacts) proof.verification
          criteria rows.one_each in
      record {
        hash = (and-eq-true _ _ e1).0;
        revision = (and-eq-true _ _ e1).1;
        some_criterion = not-eq-true _ (and-eq-true _ _ e2.0).0;
        criteria_named =
            All-map _ IsNamed criteria (λ k. (id_ok-IsNamed k).0)
              (all→All _ criteria (and-eq-true _ _ e2.0).1);
        criteria_distinct = e2.1;
        no_remaining_work = no_work proof.remaining_work (issue_unless-eq-nil _ _ h3);
        settled = all→All _ states (issue_unless-eq-nil _ _ h4);
        some_artifact = not-eq-true _ (and-eq-true _ _ e5).0;
        artifacts_distinct = (and-eq-true _ _ e5).1;
        artifacts_current =
            All-map _ (IsCurrent observed) proof.artifacts (artifact_ok-IsCurrent observed) current;
        unambiguous = rows;
        met =
            subst (λ l. All (IsMet l proof.verification) criteria)
              (valid_artifacts-All observed proof.artifacts current) (with_valid.0 t7);
      }
    where
      no_work : (l : List String) → is_empty l ≡ true → l ≡ []
      no_work [] e = refl
      no_work (x ∷ l) e = cc

  IsComplete-no_issues :
      IsComplete criteria sha proof observed states
      → all_issues criteria sha proof observed states ≡ []
  unfolding all_issues criteria_ok
  IsComplete-no_issues w =
      let current =
        All-map (IsCurrent observed) (λ r. artifact_ok observed r ≡ true) proof.artifacts
          (IsCurrent-artifact_ok observed) w.artifacts_current in
      let named =
        All→all (λ k. id_ok k.criterion_id) criteria
          (All-map IsNamed (λ k. id_ok k.criterion_id ≡ true) criteria (λ k. (id_ok-IsNamed k).1)
            w.criteria_named) in
      rw
        (
          w.hash,
          w.revision,
          w.some_criterion,
          named,
          w.criteria_distinct,
          w.no_remaining_work,
          All→all _ states w.settled,
          w.some_artifact,
          w.artifacts_distinct,
          (artifact_issues-eq-nil observed proof.artifacts).1 current,
          IsUnambiguous-verification_ok criteria proof.verification w.unambiguous,
          valid_artifacts-All observed proof.artifacts current,
        )
        ((criteria_issues-eq-nil (map (λ r. r.artifact_id) proof.artifacts) proof.verification
            criteria w.unambiguous.one_each).1
          w.met)

  -- With a proof packet, no rejection code is returned exactly when the packet passes its schema and
  -- the work is complete: current contract hash and criteria, nothing remaining, every execution in
  -- a terminal state, distinct artifacts each observed with its declared hash, verification rows for
  -- distinct known criteria, and every hard criterion passed with evidence that is strong enough and
  -- bound to declared artifacts.
  pub evaluate-eq-nil_iff :
      (schema_ok : Proof → Bool)
      → (evaluate_completion schema_ok criteria sha (some proof) observed states ≡ [])
        ↔ (schema_ok proof ≡ true) × IsComplete criteria sha proof observed states
  unfolding evaluate_completion
  evaluate-eq-nil_iff schema_ok = elim (Bool-cases (schema_ok proof)) [
    | inl e ↦ (
      λ h. (e, all_issues-eq-nil (distinct-eq-nil _ (rw e at h))),
      λ (_, w). rw (e, IsComplete-no_issues w) (unfold distinct_from in refl),
    )
    | inr e ↦ (λ h. absurd (cc (rw e at h)), λ (t, w). absurd (false≢true (sym e ∙ t)))
  ]
