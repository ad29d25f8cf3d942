-- ===== src/Agent/Profiles/Chosen.antt =====
-- Sorting and filtering the catalogue invents no profile.
use malts.Base.{String, ◌==◌, Bool, true, ◌&&◌, ◌≡◌, refl, arith, some}
use malts.Base.{All, All-map, eq_iff, text_leb}
use malts.Base.{
  List, [], ◌∷◌, keep, Bool-cases, inl, inr, and-eq-true, any, false≢true, contains, all→All, ℕ,
  sym, ap, ◌∙◌, zero, suc,
}
use mathlib.Core.List.{Memᴰ}
use mathlib.Core.Path.{subst}
use malts.Agent.Contract.{
  ModelProfile, RouteSpec, Effort, Support, supported, unsupported, unknown_support, effort_index,
  no_effort, minimal, low_effort, medium_effort, high_effort, xhigh, max_effort, ultra,
  unknown_effort,
}
use malts.Agent.Profiles.{
  profile_eligible, effort_eq, is_supported, insert_profile, sort_profiles, profile_candidates,
  exact_profiles, first, is_candidate, key_leb,
}

module _ (le : ModelProfile → ModelProfile → Bool) (P : ModelProfile → Type 0) where
  All-insert :
      (p : ModelProfile) (qs : List ModelProfile) → P p → All P qs → All P (insert_profile le p qs)
  unfolding insert_profile
  All-insert p [] h k = (h, tt)
  All-insert p (q ∷ qs) h k = elim (Bool-cases (le p q)) [
    | inl e ↦ rw e (h, k)
    | inr e ↦ rw e (k.0, All-insert p qs h k.1)
  ]

  All-sort : (ps : List ModelProfile) → All P ps → All P (sort_profiles le ps)
  unfolding sort_profiles
  All-sort [] h = tt
  All-sort (p ∷ ps) h = All-insert p (sort_profiles le ps) h.0 (All-sort ps h.1)

-- A profile of the catalogue that can take the task: it is verified at run time, offers the effort,
-- has every required capability, and takes work as a sub-agent.
pub record IsUsable (profiles : List ModelProfile) (required : List String) (effort : Effort)
    (p : ModelProfile) : Type 0 where
  pub listed : Memᴰ p profiles
  pub verified : p.runtime_verified ≡ true
  pub offered : Memᴰ effort p.reasoning_efforts
  pub capable : All (λ c. contains c p.capabilities ≡ true) required
  pub delegated : p.delegation_supported ≡ supported
  pub sub_agent : contains "sub-agent" p.delegation_modes ≡ true

-- The effort with an index, among those from no_effort on.
effort_at : ℕ → List Effort → Effort
effort_at n [] = unknown_effort
effort_at zero (e ∷ es) = e
effort_at (suc n) (e ∷ es) = effort_at n es

abbrev efforts : List Effort
efforts =
    no_effort ∷ minimal ∷ low_effort ∷ medium_effort ∷ high_effort ∷ xhigh ∷ max_effort ∷ ultra ∷ []

effort_at-effort_index : (e : Effort) → effort_at (effort_index e) efforts ≡ e
unfolding effort_at effort_index
effort_at-effort_index no_effort = refl
effort_at-effort_index minimal = refl
effort_at-effort_index low_effort = refl
effort_at-effort_index medium_effort = refl
effort_at-effort_index high_effort = refl
effort_at-effort_index xhigh = refl
effort_at-effort_index max_effort = refl
effort_at-effort_index ultra = refl
effort_at-effort_index unknown_effort = refl

effort_eq-same : (a b : Effort) → effort_eq a b ≡ true → a ≡ b
unfolding effort_eq
effort_eq-same a b h =
    let same : effort_index a ≡ effort_index b = ground arith in
    sym (effort_at-effort_index a) ∙ ap (λ n. effort_at n efforts) same ∙ effort_at-effort_index b

offered-Memᴰ : (a : Effort) (es : List Effort) → any (effort_eq a) es ≡ true → Memᴰ a es
offered-Memᴰ a [] h = absurd (false≢true h)
offered-Memᴰ a (e ∷ es) h = elim (Bool-cases (effort_eq a e)) [
  | inl k ↦ Memᴰ.head (effort_eq-same a e k)
  | inr k ↦ Memᴰ.tail (offered-Memᴰ a es (rw k at h))
]

is_supported-same : (s : Support) → is_supported s ≡ true → s ≡ supported
unfolding is_supported
is_supported-same supported h = refl
is_supported-same unsupported h = absurd (false≢true h)
is_supported-same unknown_support h = absurd (false≢true h)

eligible-IsUsable :
    (ps : List ModelProfile) (required : List String) (effort : Effort) (p : ModelProfile)
    → Memᴰ p ps
    → profile_eligible p required effort ≡ true
    → IsUsable ps required effort p
unfolding profile_eligible
eligible-IsUsable ps required effort p m h = record {
  listed = m;
  verified = ground arith;
  offered = offered-Memᴰ effort p.reasoning_efforts (ground arith);
  capable = all→All (λ c. contains c p.capabilities) required (ground arith);
  delegated = is_supported-same p.delegation_supported (ground arith);
  sub_agent = ground arith;
}

module _ (required : List String) (effort : Effort) where
  Usable-cons :
      (q : ModelProfile) (ps : List ModelProfile) (p : ModelProfile)
      → IsUsable ps required effort p
      → IsUsable (q ∷ ps) required effort p
  Usable-cons q ps p u = record {
    listed = Memᴰ.tail u.listed;
    verified = u.verified;
    offered = u.offered;
    capable = u.capable;
    delegated = u.delegated;
    sub_agent = u.sub_agent;
  }

  All-keep :
      (test : ModelProfile → Bool)
      → ((p : ModelProfile) → test p ≡ true → profile_eligible p required effort ≡ true)
      → (ps : List ModelProfile) → All (IsUsable ps required effort) (keep test ps)
  All-keep test fits [] = tt
  All-keep test fits (p ∷ ps) =
      let rest =
        All-map (IsUsable ps required effort) (IsUsable (p ∷ ps) required effort) (keep test ps)
          (Usable-cons p ps) (All-keep test fits ps) in
      elim (Bool-cases (test p)) [
        | inl e ↦
            rw e (eligible-IsUsable (p ∷ ps) required effort p (Memᴰ.head refl) (fits p e), rest)
        | inr e ↦ rw e rest
      ]

  pub candidates-IsUsable :
      (ps : List ModelProfile) (route : RouteSpec)
      → All (IsUsable ps required effort) (profile_candidates ps route required effort)
  unfolding profile_candidates
  candidates-IsUsable ps route =
      All-sort (key_leb route) (IsUsable ps required effort)
        (keep (is_candidate route required effort) ps)
        (All-keep (is_candidate route required effort) (λ p h. ground arith) ps)

  pub exact-IsUsable :
      (ps : List ModelProfile) (model : String)
      → All
          (λ p. IsUsable ps required effort p × (p.model_id ≡ model))
          (exact_profiles ps model required effort)
  unfolding exact_profiles
  exact-IsUsable ps model =
      All-sort (λ p q. text_leb p.profile_id q.profile_id)
        (λ p. IsUsable ps required effort p × (p.model_id ≡ model))
        (keep (λ p. p.model_id == model && profile_eligible p required effort) ps) (both ps)
    where
      test : ModelProfile → Bool
      test p = p.model_id == model && profile_eligible p required effort

      named : (qs : List ModelProfile) → All (λ p. p.model_id ≡ model) (keep test qs)
      named [] = tt
      named (q ∷ qs) = elim (Bool-cases (test q)) [
        | inl e ↦
            rw e ((eq_iff q.model_id model).0 (and-eq-true (q.model_id == model) _ e).0, named qs)
        | inr e ↦ rw e (named qs)
      ]

      pair :
          (qs rs : List ModelProfile)
          → All (IsUsable rs required effort) qs
          → All (λ p. p.model_id ≡ model) qs
          → All (λ p. IsUsable rs required effort p × (p.model_id ≡ model)) qs
      pair [] rs h k = tt
      pair (q ∷ qs) rs h k = ((h.0, k.0), pair qs rs h.1 k.1)

      both :
          (qs : List ModelProfile)
          → All (λ p. IsUsable qs required effort p × (p.model_id ≡ model)) (keep test qs)
      both qs = pair (keep test qs) qs (All-keep test (λ p h. ground arith) qs) (named qs)

pub first-All :
    (P : ModelProfile → Type 0) (ps : List ModelProfile) (p : ModelProfile)
    → All P ps
    → first ps ≡ some p
    → P p
unfolding first
first-All P [] p h e = cc
first-All P (q ∷ ps) p h e = subst P (ground arith) h.0
