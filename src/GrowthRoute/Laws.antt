-- ===== src/GrowthRoute/Laws.antt =====
-- growth_routing.py: what the route depends on and what it permits.
use malts.Base.{String, Bool, ◌==◌, ap, eq_iff, true, false, not, ◌&&◌, ◌≡◌, ◌≢◌, refl, sym}
use malts.Base.{List, [], ◌∷◌, keep, contains, sorted_set, contains-sorted_set, sorted_set_ext}
use malts.Base.{Bool-cases, inl, inr, arith, All, some, is_empty}
use mathlib.Core.Path.{subst}
use malts.Base.{All-contains, ◌∙◌, false≢true}
use malts.Base.Outcome.{done, raised, bind-eq-done}
use malts.Json.{Entries, get, bool, text}
use malts.GrowthRoute.{
  Request, Decision, blocked_gate, unknown_signal, choose_route, decide_route,
  classify_growth_route, read_request, check_signals, require_bool, require_gate, gate_of_value,
  gate_of_text, signal_names, is_blocked_gate, is_authorized_route,
}

is_authorized :
    (r : Request)
    → is_authorized_route (choose_route r)
      ≡ (not (is_blocked_gate r.plan_gate) && r.retrospective_authorized)
unfolding choose_route
is_authorized r = ground arith

require_bool-true :
    (request : Entries) (key : String)
    → require_bool request key false ≡ done true
    → get key request ≡ some (bool true)
unfolding require_bool
require_bool-true request key h = ground arith

pub require_gate-blocked :
    (request : Entries)
    → get "plan_gate" request ≡ some (text "BLOCKED")
    → require_gate request ≡ done blocked_gate
unfolding require_gate gate_of_value gate_of_text
require_gate-blocked request h = rw (h, require_gate)

pub read_request-sources :
    (request : Entries) {r : Request}
    → read_request request ≡ done r
    → (require_bool request "retrospective_authorized" false ≡ done r.retrospective_authorized)
      × (require_bool request "project_write_authorized" false ≡ done r.project_write_authorized)
      × (require_gate request ≡ done r.plan_gate)
unfolding read_request
read_request-sources request h = ground arith

write-sources :
    (request : Entries) (r : Request)
    → read_request request ≡ done r
    → (decide_route r).durable_write_authorized ≡ true
    → (get "retrospective_authorized" request ≡ some (bool true))
      × (get "project_write_authorized" request ≡ some (bool true))
      × (get "plan_gate" request ≢ some (text "BLOCKED"))
unfolding decide_route is_blocked_gate
write-sources request r read h =
    let (auth, write, gate) = read_request-sources request read in
    (
      require_bool-true request "retrospective_authorized" (ground (arith, is_authorized r)),
      require_bool-true request "project_write_authorized" (ground (arith, is_authorized r)),
      λ e. ground (arith, is_authorized r, require_gate-blocked request e),
    )

-- If a request is classified and the decision authorises a durable write, then the request itself
-- says that the retrospective and the project write are authorised, and its plan gate is not the
-- text BLOCKED.
pub classify-write_sources :
    (request : Entries) (d : Decision)
    → classify_growth_route request ≡ done d
    → d.durable_write_authorized ≡ true
    → (get "retrospective_authorized" request ≡ some (bool true))
      × (get "project_write_authorized" request ≡ some (bool true))
      × (get "plan_gate" request ≢ some (text "BLOCKED"))
unfolding classify_growth_route
classify-write_sources request d h write =
    let (r, read, e) = bind-eq-done (read_request request) (λ r. done (decide_route r)) h in
    write-sources request r read (ground arith)

keep-known :
    (signals : List String)
    → is_empty (keep (λ s. not (contains s signal_names)) signals) ≡ true
    → All (λ s. contains s signal_names ≡ true) signals
keep-known [] h = tt
keep-known (s ∷ signals) h = elim (Bool-cases (contains s signal_names)) [
  | inl e ↦ (e, keep-known signals (rw e at h))
  | inr e ↦ absurd (false≢true (rw e at h))
]

contains-keep :
    (p : String → Bool) (t : String) (xs : List String)
    → contains t (keep p xs) ≡ (contains t xs && p t)
contains-keep p t [] = refl
contains-keep p t (x ∷ xs) =
    let rest = contains-keep p t xs in
    elim (Bool-cases (x == t)) [
      | inl e ↦ let same = ap p ((eq_iff x t).0 e) in ground (arith, rest, same)
      | inr e ↦ ground (arith, rest)
    ]

-- A list of signals with an unknown one is refused, and the error lists just the unknown signals of
-- the list; a list that is accepted comes back with the same members, all of them known.
pub check_signals_cases :
    (raw : List String)
    → ((s : String)
        → contains s raw ≡ true
        → contains s signal_names ≡ false
        → (unknown : List String) × (check_signals raw ≡ raised (unknown_signal unknown))
          × ((t : String) → contains t unknown ≡ (contains t raw && not (contains t signal_names))))
      × ((signals : List String)
          → check_signals raw ≡ done signals
          → All (λ s. contains s signal_names ≡ true) signals
            × ((s : String) → contains s signals ≡ contains s raw))
unfolding check_signals
check_signals_cases raw =
    let unknown = keep (λ s. not (contains s signal_names)) (sorted_set raw) in
    elim (Bool-cases (is_empty unknown)) [
      | inl e ↦ (
        λ s m bad.
            let known =
              All-contains (λ s. contains s signal_names ≡ true) s (sorted_set raw)
                (keep-known (sorted_set raw) e) (contains-sorted_set s raw ∙ m) in
            absurd (false≢true (sym bad ∙ known)),
        λ signals h.
            let same : sorted_set raw ≡ signals = ground arith in
            subst
              (λ l.
                All (λ s. contains s signal_names ≡ true) l
                × ((s : String) → contains s l ≡ contains s raw))
              same (keep-known (sorted_set raw) e, λ s. contains-sorted_set s raw),
      )
      | inr e ↦ (
        λ s m bad. (
          unknown,
          rw e,
          λ t.
              contains-keep (λ s. not (contains s signal_names)) t (sorted_set raw)
              ∙ ap (λ b. b && not (contains t signal_names)) (contains-sorted_set t raw),
        ),
        λ signals h. cc,
      )
    ]

-- Two lists of signals with the same members, in any order and with any repetitions, are checked with
-- the same result: both are accepted with the same list, or refused with the same error.
pub check_signals_ext :
    (raw raw' : List String)
    → ((s : String) → contains s raw ≡ contains s raw')
    → check_signals raw ≡ check_signals raw'
unfolding check_signals
check_signals_ext raw raw' same = rw (sorted_set_ext raw raw' same) refl
