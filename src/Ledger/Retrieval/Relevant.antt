-- ===== src/Ledger/Retrieval/Relevant.antt =====
-- growth_ledger.py: which candidates a retrieval returns.
use malts.Base.{String, ◌==◌, eq_iff, Bool, true, ◌&&◌, ◌≡◌, refl, sym, ap, ◌∙◌, arith}
use malts.Base.{List, [], ◌∷◌, ◌++◌, is_empty, any, map, contains, All, all→All, All→all, All-map}
use malts.Base.{Bool-cases, inl, inr, false≢true, and-eq-true, eq_refl}
use mathlib.Core.Logic.{◌↔◌}
use mathlib.Core.Path.{subst}
use mathlib.Core.List.{Memᴰ}
use malts.Json.{Value, obj, Entries}
use malts.Ledger.{Candidate, LedgerIssue, is_in, eligible_states}
use malts.Ledger.Retrieval.{
  dimensions, items, normalized, dimension_ok, is_relevant, matched, retrieve_candidates, found,
  query_issues, query_entries,
}

-- In this dimension the candidate declares nothing, or a term that the query has.
pub data Shares (declared query : List String) : Type 0 where
  undeclared : declared ≡ [] → Shares declared query
  shared :
      (s : String) → contains s declared ≡ true → contains s query ≡ true → Shares declared query

contains-any :
    (declared query : List String)
    → any (λ s. contains s query) declared ≡ true
    → (s : String) × (contains s declared ≡ true) × (contains s query ≡ true)
contains-any [] query h = absurd (false≢true h)
contains-any (x ∷ xs) query h = elim (Bool-cases (contains x query)) [
  | inl e ↦ (x, rw (eq_refl x) refl, e)
  | inr e ↦ let (s, m, n) = contains-any xs query (rw e at h) in (s, ground arith, n)
]

any-contains :
    (s : String) (declared query : List String)
    → contains s declared ≡ true
    → contains s query ≡ true
    → any (λ t. contains t query) declared ≡ true
any-contains s [] query m n = absurd (false≢true m)
any-contains s (x ∷ xs) query m n = elim (Bool-cases (x == s)) [
  | inl e ↦ let same = (eq_iff x s).0 e in rw (same, n) refl
  | inr e ↦ let later = any-contains s xs query (rw e at m) n in ground arith
]

dimension_ok-Shares :
    (declared query : List String)
    → (dimension_ok declared query ≡ true → Shares declared query)
      × (Shares declared query → dimension_ok declared query ≡ true)
unfolding dimension_ok
dimension_ok-Shares [] query = (λ _. undeclared refl, λ _. refl)
dimension_ok-Shares (x ∷ xs) query =
    (λ h. let (s, m, n) = contains-any (x ∷ xs) query h in shared s m n, λ w. back w)
  where
    back : Shares (x ∷ xs) query → any (λ s. contains s query) (x ∷ xs) ≡ true
    back (undeclared e) = absurd (cc)
    back (shared s m n) = any-contains s (x ∷ xs) query m n

module _ (normal : Value → String) (profile : Candidate → Entries) (query : Entries) where
  -- In every dimension.
  abbrev pub IsShared : Candidate → Type 0
  IsShared c =
      All
        (λ k. Shares (normalized normal (items k (profile c))) (normalized normal (items k query)))
        dimensions

  pub record IsMatch (candidates : List Candidate) (i : String) : Type 0 where
    pub match : Candidate
    pub listed : Memᴰ match candidates
    pub named : match.candidate_id ≡ i
    pub eligible : is_in match.status eligible_states ≡ true
    pub relevant : IsShared match

  abbrev ok : Candidate → String → Bool
  ok c k =
      dimension_ok (normalized normal (items k (profile c))) (normalized normal (items k query))

  abbrev SharesIn : Candidate → String → Type 0
  SharesIn c k =
      Shares (normalized normal (items k (profile c))) (normalized normal (items k query))

  is_relevant-IsShared :
      (c : Candidate)
      → (is_relevant normal profile query c ≡ true → IsShared c)
        × (IsShared c → is_relevant normal profile query c ≡ true)
  unfolding is_relevant
  is_relevant-IsShared c = (
    λ h.
        All-map (λ k. ok c k ≡ true) (SharesIn c) dimensions
          (λ k.
            (dimension_ok-Shares (normalized normal (items k (profile c)))
              (normalized normal (items k query))).0)
          (all→All (ok c) dimensions h),
    λ w. All→all (ok c) dimensions (
        All-map (SharesIn c) (λ k. ok c k ≡ true) dimensions
          (λ k.
            (dimension_ok-Shares (normalized normal (items k (profile c)))
              (normalized normal (items k query))).1)
          w),
  )

  later-IsMatch :
      (c : Candidate) (cs : List Candidate) (i : String) → IsMatch cs i → IsMatch (c ∷ cs) i
  later-IsMatch c cs i w = record {
    match = w.match;
    listed = Memᴰ.tail w.listed;
    named = w.named;
    eligible = w.eligible;
    relevant = w.relevant;
  }

  abbrev ids : List Candidate → List String
  ids cs = map (λ (c : Candidate). c.candidate_id) (matched normal profile query cs)

  abbrev passes : Candidate → Bool
  passes c = is_in c.status eligible_states && is_relevant normal profile query c

  matched-IsMatch : (i : String) (cs : List Candidate) → contains i (ids cs) ≡ true → IsMatch cs i
  unfolding matched
  matched-IsMatch i [] h = absurd (false≢true h)
  matched-IsMatch i (c ∷ cs) h = elim (Bool-cases (passes c)) [
    | inr e ↦ later-IsMatch c cs i (matched-IsMatch i cs (rw e at h))
    | inl e ↦ elim (Bool-cases (c.candidate_id == i)) [
      | inr other ↦ later-IsMatch c cs i (matched-IsMatch i cs (rw (e, other) at h))
      | inl same ↦ record {
        match = c;
        listed = Memᴰ.head refl;
        named = (eq_iff c.candidate_id i).0 same;
        eligible = (and-eq-true _ _ e).0;
        relevant = (is_relevant-IsShared c).0 (and-eq-true _ _ e).1;
      }
    ]
  ]

  match-contains :
      (c : Candidate) (cs : List Candidate)
      → Memᴰ c cs
      → passes c ≡ true
      → contains c.candidate_id (ids cs) ≡ true
  unfolding matched
  match-contains c [] m h = elim m [ ]
  match-contains c (d ∷ cs) (Memᴰ.head e) h =
      let here : passes d ≡ true = ap passes (sym e) ∙ h in
      let same : d.candidate_id ≡ c.candidate_id = ap (λ (x : Candidate). x.candidate_id) (sym e) in
      rw here (rw (same, eq_refl c.candidate_id) refl)
  match-contains c (d ∷ cs) (Memᴰ.tail m) h =
      let later = match-contains c cs m h in
      elim (Bool-cases (passes d)) [ inl e ↦ rw e (ground arith) | inr e ↦ rw e later ]

  IsMatch-contains : (i : String) (cs : List Candidate) → IsMatch cs i → contains i (ids cs) ≡ true
  IsMatch-contains i cs w =
      let relevant = (is_relevant-IsShared w.match).1 w.relevant in
      subst (λ s. contains s (ids cs) ≡ true) w.named
        (match-contains w.match cs w.listed (rw (w.eligible, relevant) refl))

  -- A retrieval that is not refused returns an identity exactly if it is that of a candidate of the
  -- ledger in an eligible state that, in each of the five dimensions, declares nothing or shares a
  -- term with the query.
  pub retrieve-IsMatch_iff :
      (bundle_issues : List LedgerIssue) (candidates : List Candidate) (returned : List String)
      (i : String)
      → retrieve_candidates normal profile bundle_issues candidates (obj query) ≡ found returned
      → (contains i returned ≡ true) ↔ IsMatch candidates i
  unfolding retrieve_candidates query_entries
  retrieve-IsMatch_iff bundle_issues candidates returned i h =
      elim (Bool-cases (is_empty (bundle_issues ++ query_issues (obj query)))) [
        | inr e ↦ absurd (cc (rw e at h))
        | inl e ↦
            let same : ids candidates ≡ returned = cc (rw e at h) in
            (
              λ m. matched-IsMatch i candidates (rw same m),
              λ w. subst (λ l. contains i l ≡ true) same (IsMatch-contains i candidates w),
            )
      ]
