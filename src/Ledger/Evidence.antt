-- ===== src/Ledger/Evidence.antt =====
-- growth_ledger.py: what an accepted update of a candidate rests on.
use malts.Base.{String, ◌==◌, Bool, true, false, not, ◌&&◌, ◌≡◌, refl, sym, ap, ◌∙◌, arith}
use malts.Base.{List, [], ◌∷◌, ◌++◌, map, keep, is_empty, contains, ◌≤◌, leb}
use malts.Base.{Bool-cases, inl, inr, false≢true, ◌≢◌, and-eq-true}
use mathlib.Core.Path.{subst}
use mathlib.Core.List.{Memᴰ}
use malts.Ledger.{
  Status, Candidate, FutureUse, Signal, Validation, Contracts, updated, ValidationKind, future_use,
  UseOutcome, helped, apply_future_validation, validate_use, challenge, advance, is_harmful,
  is_ready, is_future_use, is_helped, is_risky, is_supportive, helped_uses, supplemental,
  distinct_count,
}
use malts.Ledger.Steps.{apply-updated}

kept :
    (p : FutureUse → Bool) (x y : FutureUse) (ys zs : List FutureUse)
    → p y ≡ true
    → (Memᴰ x zs → Memᴰ x ys × (p x ≡ true))
    → Memᴰ x (y ∷ zs)
    → Memᴰ x (y ∷ ys) × (p x ≡ true)
kept p x y ys zs e later (Memᴰ.head same) = (Memᴰ.head same, ap p same ∙ e)
kept p x y ys zs e later (Memᴰ.tail n) = let (m, h) = later n in (Memᴰ.tail m, h)

keep-Mem :
    (p : FutureUse → Bool) (x : FutureUse) (xs : List FutureUse)
    → Memᴰ x (keep p xs)
    → Memᴰ x xs × (p x ≡ true)
keep-Mem p x [] m = elim m [ ]
keep-Mem p x (y ∷ ys) m = elim (Bool-cases (p y)) [
  | inr e ↦ let (n, h) = keep-Mem p x ys (rw e at m) in (Memᴰ.tail n, h)
  | inl e ↦ kept p x y ys (keep p ys) e (keep-Mem p x ys) (rw e at m)
]

-- Two elements of a list that a key tells apart.
abbrev pub Differ : (FutureUse → String) → List FutureUse → Type 0
Differ key uses =
    (u : FutureUse) × (v : FutureUse) × Memᴰ u uses × Memᴰ v uses × ((key u == key v) ≡ false)

distinct_count-Differ :
    (key : FutureUse → String) (us : List FutureUse)
    → 2 ≤ distinct_count (map key us)
    → Differ key us
unfolding distinct_count
distinct_count-Differ key [] h = absurd (omega (arith, h))
distinct_count-Differ key (x ∷ []) h = absurd (omega (arith, h))
distinct_count-Differ key (x ∷ y ∷ us) h = elim (Bool-cases (contains (key x) (map key (y ∷ us)))) [
  | inl e ↦
      let (u, v, m, n, d) = distinct_count-Differ key (y ∷ us) (rw e at h) in
      (u, v, Memᴰ.tail m, Memᴰ.tail n, d)
  | inr e ↦ (y, x, Memᴰ.tail (Memᴰ.head refl), Memᴰ.head refl, ground arith)
]

-- Two helped future uses that the key tells apart.
pub record HasTwo (key : FutureUse → String) (uses : List FutureUse) : Type 0 where
  pub one : FutureUse
  pub other : FutureUse
  pub one_listed : Memᴰ one uses
  pub other_listed : Memᴰ other uses
  pub one_used : one.validation_kind ≡ future_use
  pub other_used : other.validation_kind ≡ future_use
  pub one_helped : one.outcome ≡ helped
  pub other_helped : other.outcome ≡ helped
  pub different : (key one == key other) ≡ false

future_use_lem : (k : ValidationKind) → is_future_use k ≡ true → k ≡ future_use
unfolding is_future_use
future_use_lem future_use h = refl
future_use_lem ValidationKind.independent_review h = cc
future_use_lem ValidationKind.negative_test h = cc
future_use_lem ValidationKind.counterexample h = cc

helped_lem : (o : UseOutcome) → is_helped o ≡ true → o ≡ helped
unfolding is_helped
helped_lem helped h = refl
helped_lem UseOutcome.neutral h = cc
helped_lem UseOutcome.harmful h = cc
helped_lem UseOutcome.inconclusive h = cc

enough-HasTwo :
    (key : FutureUse → String) (uses : List FutureUse)
    → leb 2 (distinct_count (map key (helped_uses uses))) ≡ true
    → HasTwo key uses
unfolding helped_uses
enough-HasTwo key uses h =
    let (u, v, m, n, d) = distinct_count-Differ key (helped_uses uses) (ground arith) in
    let (m', p) = keep-Mem _ u uses m in
    let (n', q) = keep-Mem _ v uses n in
    record {
      one = u;
      other = v;
      one_listed = m';
      other_listed = n';
      one_used = future_use_lem _ (and-eq-true _ _ p).0;
      other_used = future_use_lem _ (and-eq-true _ _ q).0;
      one_helped = helped_lem _ (and-eq-true _ _ p).1;
      other_helped = helped_lem _ (and-eq-true _ _ q).1;
      different = d;
    }

-- The evidence that VALIDATED asks for.
pub record IsSupported (c : Candidate) : Type 0 where
  pub two_tasks : HasTwo (λ u. u.future_task_id) c.future_use_validations
  pub two_keys : HasTwo (λ u. u.independence_key) c.future_use_validations
  pub reviewed_risk :
      is_risky c.risk_level ≡ true
      → (u : FutureUse) × Memᴰ u c.future_use_validations
        × (u.validation_kind ≢ future_use)
        × (is_supportive u.outcome ≡ true)

some_supplemental :
    (uses : List FutureUse)
    → is_empty (supplemental uses) ≡ false
    → (u : FutureUse) × Memᴰ u uses
      × (u.validation_kind ≢ future_use)
      × (is_supportive u.outcome ≡ true)
unfolding supplemental is_future_use
some_supplemental [] h = absurd (false≢true (sym h))
some_supplemental (u ∷ uses) h =
    elim (Bool-cases (not (is_future_use u.validation_kind) && is_supportive u.outcome)) [
      | inl e ↦ (
        u,
        Memᴰ.head refl,
        λ same.
            let other : is_future_use u.validation_kind ≡ false = ground arith in
            false≢true (rw same at (sym other)),
        (and-eq-true _ _ e).1,
      )
      | inr e ↦ let (v, m, k, o) = some_supplemental uses (rw e at h) in (v, Memᴰ.tail m, k, o)
    ]

-- The steps that make a candidate VALIDATED.
advance-validated :
    (c : Candidate)
    → (advance c).status ≡ Status.validated
    → c.status ≢ Status.validated
    → is_ready c.risk_level c.future_use_validations ≡ true
unfolding advance
advance-validated c h n = ground arith

advance-records :
    (c : Candidate)
    → ((advance c).future_use_validations ≡ c.future_use_validations)
      × ((advance c).risk_level ≡ c.risk_level)
unfolding advance
advance-records c = ground arith

challenge-ne-validated :
    (c : Candidate) (u : FutureUse)
    → (challenge c u).status ≡ Status.validated
    → c.status ≡ Status.validated
unfolding challenge
challenge-ne-validated c u h = ground arith

ready-IsSupported :
    (c : Candidate) → is_ready c.risk_level c.future_use_validations ≡ true → IsSupported c
unfolding is_ready
ready-IsSupported c h =
    let (enough, risk) = and-eq-true _ _ h in
    let (tasks, keys) = and-eq-true _ _ enough in
    record {
      two_tasks = enough-HasTwo _ c.future_use_validations tasks;
      two_keys = enough-HasTwo _ c.future_use_validations keys;
      reviewed_risk = λ r. some_supplemental c.future_use_validations (ground arith);
    }

validate_use-IsSupported :
    (c : Candidate) (u : FutureUse)
    → (validate_use c u).status ≡ Status.validated
    → c.status ≢ Status.validated
    → IsSupported (validate_use c u)
unfolding validate_use
validate_use-IsSupported c u h n =
    let noted : Candidate = record c {
      future_use_validations = c.future_use_validations ++ u ∷ [];
    } in
    elim (Bool-cases (is_harmful u.outcome)) [
      | inl e ↦ absurd (n (challenge-ne-validated noted u (rw e at h)))
      | inr e ↦
          let (uses, risk) = advance-records noted in
          rw e (
            ready-IsSupported (advance noted)
              (rw (uses, risk) (advance-validated noted (rw e at h) n)))
    ]

-- If an accepted validation makes a candidate VALIDATED that was not, the candidate's validations
-- hold two helped future uses in different tasks and two with different independence keys, and, at
-- high or critical risk, a helpful or neutral validation of another kind.
pub apply-IsSupported :
    (contracts : Contracts) (c c' : Candidate) (v : Validation) (signals : List Signal)
    → apply_future_validation contracts c v signals ≡ updated c'
    → c'.status ≡ Status.validated
    → c.status ≢ Status.validated
    → IsSupported c'
apply-IsSupported contracts c c' v signals h s n =
    let same = (apply-updated contracts c c' v signals h).1 in
    subst IsSupported same
      (validate_use-IsSupported c v.use_of (ap (λ (d : Candidate). d.status) same ∙ s) n)
