-- ===== src/GrowthRoute/Silence.antt =====
-- growth_routing.py: when the gate stays silent.
use malts.Base.{String, true, false, ◌≡◌, ◌≢◌, refl, ap, ◌∙◌, eq_refl, false≢true, arith}
use malts.Base.{Option, none, some, List, [], ◌∷◌, is_empty, ◌⊎◌, inl, inr}
use malts.Base.Outcome.{done, ◌>>=◌, bind-eq-done}
use malts.Json.{
  Entries, get, bool, text, Value, null, num, other_num, arr, obj, no_element, element, elements,
}
use malts.GrowthRoute.{
  no_output, raw_signals, texts, Request, Decision, choose_route, decide_route,
  classify_growth_route, read_request, check_signals, require_bool, is_blocked_gate,
}
use malts.GrowthRoute.Laws.{require_gate-blocked, read_request-sources, check_signals_cases}

read_request-signals :
    (request : Entries) {r : Request}
    → read_request request ≡ done r
    → (require_bool request "high_impact" false ≡ done r.high_impact)
      × ((raw_signals (get "signals" request) >>= check_signals) ≡ done r.signals)
unfolding read_request
read_request-signals request h = ground arith

require_bool-given :
    (request : Entries) (key : String)
    → get key request ≡ some (bool true)
    → require_bool request key false ≡ done true
unfolding require_bool
require_bool-given request key h = ground arith

texts-nil : (v : Value) (vs : List Value) → texts (v ∷ vs) ≢ some []
unfolding texts
texts-nil (text s) vs h = ground arith
texts-nil null vs h = cc
texts-nil (bool b) vs h = cc
texts-nil (num n) vs h = cc
texts-nil (other_num t) vs h = cc
texts-nil (arr items) vs h = cc
texts-nil (obj entries) vs h = cc

-- The list of signals is empty only if none is given or an empty one.
raw_signals-nil :
    (v : Option Value) → raw_signals v ≡ done [] → (v ≡ none) ⊎ (v ≡ some (arr no_element))
unfolding raw_signals elements
raw_signals-nil none h = inl refl
raw_signals-nil (some (arr no_element)) h = inr refl
raw_signals-nil (some (arr (element v vs))) h = absurd (texts-nil v (elements vs) (ground arith))
raw_signals-nil (some null) h = cc
raw_signals-nil (some (bool b)) h = cc
raw_signals-nil (some (num n)) h = cc
raw_signals-nil (some (other_num t)) h = cc
raw_signals-nil (some (text s)) h = cc
raw_signals-nil (some (obj entries)) h = cc

check_signals-nil :
    (raw signals : List String)
    → check_signals raw ≡ done signals
    → is_empty signals ≡ true
    → raw ≡ []
check_signals-nil [] signals h e = refl
check_signals-nil (s ∷ raw) [] h e =
    let same = ((check_signals_cases (s ∷ raw)).1 [] h).1 s in ground (arith, same, eq_refl s)
check_signals-nil (s ∷ raw) (t ∷ signals) h e = absurd (false≢true e)

no_output-needs :
    (r : Request)
    → choose_route r ≡ no_output
    → (is_blocked_gate r.plan_gate ≡ false)
      × (r.retrospective_authorized ≡ false)
      × (is_empty r.signals ≡ true)
      × (r.high_impact ≡ false)
unfolding choose_route
no_output-needs r h = ground arith

-- If a request is classified and the gate stays silent, then the request gives no list of signals or
-- an empty one, does not say that the impact is high or that the retrospective is authorised, and its
-- plan gate is not the text BLOCKED.
pub classify-no_output :
    (request : Entries) (d : Decision)
    → classify_growth_route request ≡ done d
    → d.route ≡ no_output
    → ((get "signals" request ≡ none) ⊎ (get "signals" request ≡ some (arr no_element)))
      × (get "high_impact" request ≢ some (bool true))
      × (get "retrospective_authorized" request ≢ some (bool true))
      × (get "plan_gate" request ≢ some (text "BLOCKED"))
unfolding classify_growth_route decide_route is_blocked_gate
classify-no_output request d h silent =
    let (r, read, e) = bind-eq-done (read_request request) (λ r. done (decide_route r)) h in
    let (auth, write, gate) = read_request-sources request read in
    let (impact, found) = read_request-signals request read in
    let (raw, given, checked) = bind-eq-done (raw_signals (get "signals" request)) _ found in
    let same : choose_route r ≡ no_output = ground arith in
    let (open_gate, no_auth, empty, no_impact) = no_output-needs r same in
    let nothing = check_signals-nil raw r.signals checked empty in
    (
      raw_signals-nil (get "signals" request) (given ∙ ap (λ l. done l) nothing),
      λ k. ground (arith, require_bool-given request "high_impact" k),
      λ k. ground (arith, require_bool-given request "retrospective_authorized" k),
      λ k. ground (arith, require_gate-blocked request k),
    )
