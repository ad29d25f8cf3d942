-- ===== src/Completion/Examples.antt =====
-- Sample packets of result_completion.py, and its theorems at them.
use mathlib.Core.Logic.{◌↔◌}
use malts.Base.{String, Bool, true, ◌≡◌, refl, some, List, [], ◌∷◌, All, is_blank}
use malts.Completion.{
  level_a, level_b, pass, fail, Code, hard_criteria, stale_artifact, Criterion, Verification, Proof,
  strength, required_strength, is_hex, all_hex, count_chars, is_hash, upper, codes_eq, same_upper,
  id_ok, id_texts, criteria_ok, observed_hash, matches, artifact_ok, artifact_issues,
  valid_artifacts, count_id, verification_ok, row_of, row_of_id, is_pass, evidence_ok, row_issues,
  criteria_issues, code_index, has_code, distinct_from, all_issues, evaluate_completion,
}
use malts.Completion.Sound.{IsComplete, evaluate-eq-nil_iff}
use malts.Completion.Backed.{IsPassed, evaluate-IsPassed}

program : Unit {0}
unfolding strength required_strength is_hex all_hex count_chars is_hash upper codes_eq same_upper
    id_ok id_texts criteria_ok observed_hash matches artifact_ok artifact_issues valid_artifacts
    count_id verification_ok row_of row_of_id is_pass evidence_ok row_issues criteria_issues
    code_index has_code distinct_from all_issues evaluate_completion is_blank
program = tt

abbrev digest : String
digest = "00112233445566778899aabbccddeeff00112233445566778899aabbccddeeff"

abbrev digest_upper : String
digest_upper = "00112233445566778899AABBCCDDEEFF00112233445566778899AABBCCDDEEFF"

abbrev criterion : Criterion
criterion = record {
  criterion_id = some "build";
  hard = true;
  minimum_evidence_level = some level_b;
}

abbrev passing : Verification
passing = record {
  criterion_id = "build";
  result = pass;
  evidence_level = level_a;
  evidence_refs = "log:1" ∷ [];
  artifact_ids = "wheel" ∷ [];
}

abbrev packet : Proof
packet = record {
  contract_sha256 = digest;
  verification = passing ∷ [];
  artifacts = record { artifact_id = "wheel"; sha256 = digest } ∷ [];
  remaining_work = [];
}

abbrev accept : Proof → Bool
accept proof = true

abbrev observed : List (String × String)
observed = ("wheel", digest_upper) ∷ []

abbrev states : List (String × String)
states = ("run", "FAILED") ∷ ("run2", "SUCCEEDED") ∷ []

accepted :
    evaluate_completion accept (criterion ∷ []) digest_upper (some packet) observed states ≡ []
unfolding program
accepted = refl

failing_build :
    evaluate_completion accept
      (criterion ∷ [])
      digest
      (some (record packet { verification = record passing { result = fail } ∷ [] }))
      []
      states
    ≡ stale_artifact ∷ hard_criteria ∷ Code.evidence ∷ []
unfolding program
failing_build = refl

evaluate-eq-nil_iff_example :
    (evaluate_completion accept (criterion ∷ []) digest_upper (some packet) observed states ≡ [])
    ↔ (true ≡ true) × IsComplete (criterion ∷ []) digest_upper packet observed states
evaluate-eq-nil_iff_example =
    evaluate-eq-nil_iff (criterion ∷ []) digest_upper packet observed states accept

evaluate-IsPassed_example : All (IsPassed packet observed) (criterion ∷ [])
evaluate-IsPassed_example =
    evaluate-IsPassed (criterion ∷ []) digest_upper packet observed states accept accepted
