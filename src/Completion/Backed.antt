-- ===== src/Completion/Backed.antt =====
-- result_completion.py: what stands behind an accepted hard criterion.
use malts.Base.{String, ◌==◌, eq_iff, Bool, true, ◌≡◌, refl}
use malts.Base.{map, some, List, [], ◌∷◌, All, All-map, all→All, contains}
use malts.Base.{Bool-cases, inl, inr, false≢true}
use mathlib.Core.Path.{subst}
use mathlib.Core.List.{Memᴰ}
use malts.Completion.{
  pass, Criterion, Verification, Artifact, Proof, same_upper, observed_hash, evaluate_completion,
}
use malts.Completion.Sound.{IsMet, IsCurrent, evaluate-eq-nil_iff}

-- The identity names an artifact of the proof that the runtime observed with its declared hash.
pub record IsBacked (artifacts : List Artifact) (observed : List (String × String)) (i : String)
    : Type 0 where
  pub artifact : Artifact
  pub declared : Memᴰ artifact artifacts
  pub named : artifact.artifact_id ≡ i
  pub hash : String
  pub seen : observed_hash i observed ≡ some hash
  pub equal : same_upper hash artifact.sha256 ≡ true

abbrev pub IsPassed : Proof → List (String × String) → Criterion → Type 0
IsPassed proof observed k =
    k.hard ≡ true
    → (row : Verification) × Memᴰ row proof.verification
      × (k.criterion_id ≡ some row.criterion_id)
      × (row.result ≡ pass)
      × All (IsBacked proof.artifacts observed) row.artifact_ids

module _ (observed : List (String × String)) where
  IsBacked-cons :
      (r : Artifact) (rows : List Artifact) (i : String)
      → IsBacked rows observed i
      → IsBacked (r ∷ rows) observed i
  IsBacked-cons r rows i b = record {
    artifact = b.artifact;
    declared = Memᴰ.tail b.declared;
    named = b.named;
    hash = b.hash;
    seen = b.seen;
    equal = b.equal;
  }

  declared-IsBacked :
      (rows : List Artifact) (i : String)
      → All (IsCurrent observed) rows
      → contains i (map (λ r. r.artifact_id) rows) ≡ true
      → IsBacked rows observed i
  declared-IsBacked [] i w h = absurd (false≢true h)
  declared-IsBacked (r ∷ rows) i w h = elim (Bool-cases (r.artifact_id == i)) [
    | inr other ↦ IsBacked-cons r rows i (declared-IsBacked rows i w.1 (rw other at h))
    | inl same ↦
        let name = (eq_iff r.artifact_id i).0 same in
        record {
          artifact = r;
          declared = Memᴰ.head refl;
          named = name;
          hash = w.0.hash;
          seen = subst (λ j. observed_hash j observed ≡ some w.0.hash) name w.0.seen;
          equal = w.0.equal;
        }
  ]

module _ (criteria : List Criterion) (sha : String) (proof : Proof)
    (observed states : List (String × String)) where
  -- If no rejection code is returned, every hard criterion has a row of the proof that names it and
  -- passes, and every artifact the row is bound to is declared in the proof and was observed with
  -- the declared hash, in either letter case.
  pub evaluate-IsPassed :
      (schema_ok : Proof → Bool)
      → evaluate_completion schema_ok criteria sha (some proof) observed states ≡ []
      → All (IsPassed proof observed) criteria
  evaluate-IsPassed schema_ok h =
      let (_, w) = (evaluate-eq-nil_iff criteria sha proof observed states schema_ok).0 h in
      All-map (IsMet names proof.verification) (IsPassed proof observed) criteria
        (step w.artifacts_current) w.met
    where
      names : List String
      names = map (λ r. r.artifact_id) proof.artifacts

      step :
          All (IsCurrent observed) proof.artifacts
          → (k : Criterion) → IsMet names proof.verification k
          → IsPassed proof observed k
      step current k met hard =
          let (row, p) = met hard in
          (
            row,
            p.listed,
            p.named,
            p.passed,
            All-map (λ i. contains i names ≡ true) (IsBacked proof.artifacts observed)
                row.artifact_ids (λ i. declared-IsBacked observed proof.artifacts i current)
                (all→All _ row.artifact_ids p.bound_declared),
          )
