-- ===== src/Completion.antt =====
-- tools/result_completion.py: the completion policy. A proof packet and a contract that passed their
-- schemas are records of their fields; the schema check itself is the parameter `schema_ok`.
pub mod Rows
pub mod Sound
pub mod Backed
pub mod Examples
use Prim.Native.Nat.{◌+◌, ◌-◌}
use Prim.Native.Char.{code}
use malts.Base.{ℕ, String, ◌==◌, Bool, true, false, not, ◌&&◌, ◌||◌, Option, none, some, ltb, leb}
use malts.Base.{List, [], ◌∷◌, ◌++◌, length, is_empty, all, any, map, keep, contains, all_distinct}
use malts.Base.{is_blank, eqb, if◌then◌else◌, suc}

pub data Level : Type 0 where
  level_a level_b level_c level_d : Level

pub data CheckResult : Type 0 where
  pass fail not_run todo : CheckResult

pub data Code : Type 0 where
  proof_required proof_invalid stale_revision invalid_criteria remaining_work : Code
  unresolved_execution stale_artifact ambiguous_verification hard_criteria evidence : Code

-- `criterion_id` is `none` where the contract has no text there.
pub record Criterion : Type 0 where
  pub criterion_id : Option String
  pub hard : Bool
  pub minimum_evidence_level : Option Level

pub record Verification : Type 0 where
  pub criterion_id : String
  pub result : CheckResult
  pub evidence_level : Level
  pub evidence_refs : List String
  pub artifact_ids : List String

pub record Artifact : Type 0 where
  pub artifact_id : String
  pub sha256 : String

pub record Proof : Type 0 where
  pub contract_sha256 : String
  pub verification : List Verification
  pub artifacts : List Artifact
  pub remaining_work : List String

-- EVIDENCE_STRENGTH
pub strength : Level → ℕ
strength level_a = 4
strength level_b = 3
strength level_c = 2
strength level_d = 1

-- EVIDENCE_STRENGTH.get(level, 99)
pub required_strength : Option Level → ℕ
unfolding strength
required_strength none = 99
required_strength (some l) = strength l

is_hex : ℕ → Bool
is_hex c = leb 48 c && leb c 57 || leb 65 c && leb c 70 || leb 97 c && leb c 102

all_hex : String → Bool
unfolding is_hex
all_hex String.[] = true
all_hex (String.◌∷◌ x s) = is_hex (code x) && all_hex s

count_chars : String → ℕ
count_chars String.[] = 0
count_chars (String.◌∷◌ x s) = suc (count_chars s)

-- HASH.fullmatch
pub is_hash : String → Bool
unfolding all_hex count_chars
is_hash s = all_hex s && eqb (count_chars s) 64

-- `str.upper()` as far as it can give hexadecimal digits: the ASCII letters, and the ligature ff.
upper : String → List ℕ
upper String.[] = []
upper (String.◌∷◌ x s) =
    let c = code x in
    (if leb 97 c && leb c 122 then (c - 32) ∷ [] else if eqb c 64256 then 70 ∷ 70 ∷ [] else c ∷ [])
    ++ upper s

codes_eq : List ℕ → List ℕ → Bool
codes_eq [] [] = true
codes_eq (x ∷ xs) (y ∷ ys) = eqb x y && codes_eq xs ys
codes_eq _ _ = false

-- `left.upper() == right.upper()`
pub same_upper : String → String → Bool
unfolding upper codes_eq
same_upper left right = codes_eq (upper left) (upper right)

id_ok : Option String → Bool
id_ok none = false
id_ok (some s) = not (s == "")

-- The texts among the identities.
pub id_texts : List Criterion → List String
id_texts [] = []
id_texts (k ∷ ks) = elim k.criterion_id [ none ↦ id_texts ks | some s ↦ s ∷ id_texts ks ]

pub criteria_ok : List Criterion → Bool
unfolding id_ok id_texts
criteria_ok criteria =
    not (is_empty criteria)
    && all (λ k. id_ok k.criterion_id) criteria
    && all_distinct (id_texts criteria)

abbrev pub terminal : List String
terminal = "SUCCEEDED" ∷ "FAILED" ∷ "CANCELLED" ∷ "NOT_RUN" ∷ []

-- `observed_artifacts.get(artifact_id)`
pub observed_hash : String → List (String × String) → Option String
observed_hash k [] = none
observed_hash k ((j, h) ∷ rest) = if j == k then some h else observed_hash k rest

matches : Option String → String → Bool
matches none expected = false
matches (some observed) expected = same_upper observed expected

pub artifact_ok : List (String × String) → Artifact → Bool
unfolding matches
artifact_ok observed row =
    not (row.artifact_id == "")
    && is_hash row.sha256
    && matches (observed_hash row.artifact_id observed) row.sha256

abbrev issue_unless : Bool → Code → List Code
issue_unless true code = []
issue_unless false code = code ∷ []

artifact_issues : List (String × String) → List Artifact → List Code
artifact_issues observed [] = []
artifact_issues observed (row ∷ rows) =
    issue_unless (artifact_ok observed row) stale_artifact ++ artifact_issues observed rows

pub valid_artifacts : List (String × String) → List Artifact → List String
valid_artifacts observed rows = map (λ r. r.artifact_id) (keep (artifact_ok observed) rows)

pub count_id : String → List Verification → ℕ
count_id s [] = 0
count_id s (row ∷ rows) = let n = count_id s rows in if row.criterion_id == s then suc n else n

-- `counts` has a key for each row, so a test of every key is a test of every row.
pub verification_ok : List Criterion → List Verification → Bool
unfolding count_id id_texts
verification_ok criteria rows =
    all
      (λ row.
        eqb (count_id row.criterion_id rows) 1 && contains row.criterion_id (id_texts criteria))
      rows

-- `by_id[s]`: the last row with the identity.
pub row_of : String → List Verification → Option Verification
row_of s [] = none
row_of s (row ∷ rows) =
    let later = row_of s rows in
    elim later [ some r ↦ some r | none ↦ if row.criterion_id == s then some row else none ]

pub row_of_id : Option String → List Verification → Option Verification
unfolding row_of
row_of_id none rows = none
row_of_id (some s) rows = row_of s rows

is_pass : CheckResult → Bool
is_pass pass = true
is_pass _ = false

pub evidence_ok : List String → Criterion → Verification → Bool
evidence_ok valid criterion row =
    not (ltb (strength row.evidence_level) (required_strength criterion.minimum_evidence_level))
    && not (is_empty row.evidence_refs)
    && all (λ ref. not (is_blank ref)) row.evidence_refs
    && not (is_empty row.artifact_ids)
    && all (λ bound. contains bound valid) row.artifact_ids

-- The empty row has no result and strength 0: both issues.
row_issues : List String → Criterion → Option Verification → List Code
unfolding is_pass
row_issues valid criterion none = hard_criteria ∷ evidence ∷ []
row_issues valid criterion (some row) =
    issue_unless (is_pass row.result) hard_criteria
    ++ issue_unless (evidence_ok valid criterion row) evidence

criteria_issues : List String → List Verification → List Criterion → List Code
unfolding row_of_id row_issues
criteria_issues valid rows [] = []
criteria_issues valid rows (k ∷ ks) =
    (if k.hard then row_issues valid k (row_of_id k.criterion_id rows) else [])
    ++ criteria_issues valid rows ks

code_index : Code → ℕ
code_index proof_required = 0
code_index proof_invalid = 1
code_index stale_revision = 2
code_index invalid_criteria = 3
code_index remaining_work = 4
code_index unresolved_execution = 5
code_index stale_artifact = 6
code_index ambiguous_verification = 7
code_index hard_criteria = 8
code_index evidence = 9

pub has_code : Code → List Code → Bool
unfolding code_index
has_code x [] = false
has_code x (y ∷ ys) = eqb (code_index x) (code_index y) || has_code x ys

-- `list(dict.fromkeys(issues))`: the first of equal codes stays; `seen` is what stands before.
distinct_from : List Code → List Code → List Code
unfolding has_code
distinct_from seen [] = []
distinct_from seen (x ∷ xs) =
    let rest = distinct_from (x ∷ seen) xs in
    let skipped = distinct_from seen xs in if has_code x seen then skipped else x ∷ rest

pub all_issues :
    List Criterion → String → Proof → List (String × String) → List (String × String) → List Code
unfolding artifact_issues criteria_issues
all_issues criteria contract_sha256 proof observed states =
    issue_unless (is_hash contract_sha256 && same_upper proof.contract_sha256 contract_sha256)
      stale_revision
    ++ (issue_unless (criteria_ok criteria) invalid_criteria
        ++ (issue_unless (is_empty proof.remaining_work) remaining_work
            ++ (issue_unless (all (λ s. contains s.1 terminal) states) unresolved_execution
                ++ (issue_unless
                      (not (is_empty proof.artifacts)
                        && all_distinct (map (λ r. r.artifact_id) proof.artifacts))
                      stale_artifact
                    ++ (artifact_issues observed proof.artifacts
                        ++ (issue_unless (verification_ok criteria proof.verification)
                              ambiguous_verification
                            ++ criteria_issues (valid_artifacts observed proof.artifacts)
                                proof.verification criteria))))))

-- `none` is a proof that is no object.
pub evaluate_completion :
    (Proof → Bool)
    → List Criterion
    → String
    → Option Proof
    → List (String × String)
    → List (String × String)
    → List Code
unfolding distinct_from
evaluate_completion schema_ok criteria contract_sha256 none observed states = proof_required ∷ []
evaluate_completion schema_ok criteria contract_sha256 (some proof) observed states =
    if schema_ok proof
    then distinct_from [] (all_issues criteria contract_sha256 proof observed states)
    else proof_invalid ∷ []
