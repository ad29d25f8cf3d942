-- ===== src/Agent/Profiles.antt =====
-- The model catalogue of agent_route_planner.py: eligible profiles and their order of preference.
pub mod Chosen
use malts.Base.{ℕ, ◌+◌, String, ◌==◌, Bool, true, false, ◌&&◌, ◌||◌, Option, none, some, eqb, ltb}
use malts.Base.{List, [], ◌∷◌, any, all, keep, contains, text_leb, if◌then◌else◌}
use malts.Agent.Contract.{
  Effort, Tier, CostClass, Support, supported, unsupported, unknown_support, ModelProfile,
  RouteSpec, effort_index, tier_index, cost_index,
}

unfoldable pub effort_eq : Effort → Effort → Bool
unfolding effort_index
effort_eq a b = eqb (effort_index a) (effort_index b)

pub is_supported : Support → Bool
is_supported supported = true
is_supported _ = false

pub profile_eligible : ModelProfile → List String → Effort → Bool
unfolding effort_eq is_supported
profile_eligible p required effort =
    p.runtime_verified
    && any (effort_eq effort) p.reasoning_efforts
    && all (λ c. contains c p.capabilities) required
    && is_supported p.delegation_supported
    && contains "sub-agent" p.delegation_modes

-- `tier_order[tier]`: the index of the last occurrence.
tier_position : Tier → ℕ → List Tier → Option ℕ
tier_position t i [] = none
tier_position t i (u ∷ us) =
    let later = tier_position t (i + 1) us in
    elim later [
      | some j ↦ some j
      | none ↦ if eqb (tier_index u) (tier_index t) then some i else none
    ]

-- `tier_order.get(tier, 99)`
tier_order : RouteSpec → ModelProfile → ℕ
unfolding tier_position
tier_order route p =
    elim (tier_position p.base_capability_tier 0 route.preferred_capability_tiers) [
      | some i ↦ i
      | none ↦ 99
    ]

-- `tier in tier_order`
in_tiers : RouteSpec → ModelProfile → Bool
in_tiers route p =
    any (λ t. eqb (tier_index t) (tier_index p.base_capability_tier))
      route.preferred_capability_tiers

in_costs : RouteSpec → ModelProfile → Bool
in_costs route p =
    any (λ c. eqb (cost_index c) (cost_index p.cost_class)) route.allowed_cost_classes

-- The sort key, compared as a tuple.
key_leb : RouteSpec → ModelProfile → ModelProfile → Bool
unfolding tier_order
key_leb route p q =
    if eqb (tier_order route p) (tier_order route q)
    then (if eqb (cost_index p.cost_class) (cost_index q.cost_class)
        then text_leb p.profile_id q.profile_id
        else ltb (cost_index p.cost_class) (cost_index q.cost_class))
    else ltb (tier_order route p) (tier_order route q)

-- `sorted`, which is stable: an element stays before those that are not smaller.
module _ (le : ModelProfile → ModelProfile → Bool) where
  insert_profile : ModelProfile → List ModelProfile → List ModelProfile
  insert_profile p [] = p ∷ []
  insert_profile p (q ∷ qs) =
      let later = q ∷ insert_profile p qs in if le p q then p ∷ q ∷ qs else later

  sort_profiles : List ModelProfile → List ModelProfile
  unfolding insert_profile
  sort_profiles [] = []
  sort_profiles (p ∷ ps) = insert_profile p (sort_profiles ps)

abbrev is_candidate : RouteSpec → List String → Effort → ModelProfile → Bool
is_candidate route required effort p =
    profile_eligible p required effort && in_tiers route p && in_costs route p

pub profile_candidates : List ModelProfile → RouteSpec → List String → Effort → List ModelProfile
unfolding key_leb in_tiers in_costs
profile_candidates profiles route required effort =
    sort_profiles (key_leb route) (keep (is_candidate route required effort) profiles)

-- `exact`, in the order of the profile identities.
pub exact_profiles : List ModelProfile → String → List String → Effort → List ModelProfile
exact_profiles profiles model required effort =
    sort_profiles (λ p q. text_leb p.profile_id q.profile_id)
      (keep (λ p. p.model_id == model && profile_eligible p required effort) profiles)

-- `values[0] if values else None`
unfoldable pub first : List ModelProfile → Option ModelProfile
first [] = none
first (p ∷ ps) = some p

-- Opens the definitions of this module, for runs of the code on samples.
unfoldable pub profiles_code : Unit {0}
unfolding effort_eq is_supported profile_eligible tier_position tier_order in_tiers in_costs key_leb
    insert_profile sort_profiles profile_candidates exact_profiles first
profiles_code = tt
