-- ===== src/Agent/Lanes/Checked.antt =====
-- What the lanes have that pass `_lane_issues`.
use malts.Base.{ℕ, ◌+◌, String, ◌==◌, true, false, ◌≡◌, refl, arith}
use malts.Base.{Option, some, List, [], ◌∷◌, ◌++◌, All, all_distinct, map}
use malts.Base.{append-eq-nil, is_empty, if◌then◌else◌, Bool-cases, inl, inr}
use malts.Base.Outcome.{done, bind-eq-done}
use malts.Json.{Value, null, text, arr, obj, Elements, Entries, get, elements}
use malts.Agent.Contract.{Segment, key, index, Resource, Services}
use malts.Agent.Lanes.{
  issue, permitted, access_issues, lease_values, lease_issues, leases_issues, ref_issues, ref_texts,
  requirement_issues, closed_report, rest_issues, lane_report, Report, lane_reports, lane_issues,
  Lane, text_of, read_lease, read_leases, read_lane, read_lanes,
}

-- The lease has a locator, and the contract grants its access there.
pub record IsGranted (resources : List Resource) (lease : String × String) : Type 0 where
  pub located : (lease.0 == "") ≡ false
  pub granted : permitted resources lease.0 lease.1 ≡ true

pub record IsChecked (resources : List Resource) (lane : Lane) : Type 0 where
  pub named : (lane.lane_id == "") ≡ false
  pub contracted : (lane.task_contract_ref == "") ≡ false
  pub routed : (lane.route_evidence_ref == "") ≡ false
  pub some_lease : is_empty lane.leases ≡ false
  pub leased : All (IsGranted resources) lane.leases

module _ (resources : List Resource) where
  access-granted :
      (path : List Segment) (l : String) (v : Value)
      → access_issues resources path l v ≡ done []
      → permitted resources l (text_of (some v)) ≡ true
  unfolding access_issues text_of
  access-granted path l (text a) h = ground arith
  access-granted path l null h = ground arith
  access-granted path l _ h = ground arith

  values-IsGranted :
      (path : List Segment) (l a : Option Value)
      → lease_values resources path l a ≡ done []
      → IsGranted resources (text_of l, text_of a)
  unfolding lease_values text_of
  values-IsGranted path (some (text l)) (some a) h = elim (Bool-cases (l == "")) [
    | inl e ↦ absurd (cc (rw e at h))
    | inr e ↦ record { located = e; granted = access-granted path l a (rw e at h) }
  ]
  values-IsGranted path _ _ h = cc

  lease-IsGranted :
      (path : List Segment) (v : Value)
      → lease_issues resources path v ≡ done []
      → IsGranted resources (read_lease v)
  unfolding lease_issues read_lease
  lease-IsGranted path (obj lease) h =
      values-IsGranted path (get "locator" lease) (get "access" lease) (ground arith)
  lease-IsGranted path _ h = cc

  leases-IsGranted :
      (path : List Segment) (i : ℕ) (vs : List Value)
      → leases_issues resources path i vs ≡ done []
      → All (IsGranted resources) (map read_lease vs)
  unfolding leases_issues
  leases-IsGranted path i [] h = tt
  leases-IsGranted path i (v ∷ vs) h =
      let (here, e, h1) = bind-eq-done (lease_issues resources _ v) _ h in
      let (rest, e', h2) = bind-eq-done (leases_issues resources path (i + 1) vs) _ h1 in
      let joined : here ++ rest ≡ [] = ground arith in
      let (n, n') = append-eq-nil here rest joined in
      (lease-IsGranted _ v (rw n at e), leases-IsGranted path (i + 1) vs (rw n' at e'))

ref_ok :
    (path : List Segment) (name : String) (o : Option Value)
    → ref_issues path name o ≡ []
    → ((text_of o == "") ≡ false) × (ref_texts o ≡ text_of o ∷ [])
unfolding ref_issues ref_texts text_of
ref_ok path name (some (text s)) h = ground arith
ref_ok path name _ h = cc

module _ (services : Services) (resources : List Resource) where
  rest_ok :
      (path : List Segment) (lane : Entries) (o : Option Value)
      → rest_issues services resources path lane o ≡ done []
      → (is_empty (read_leases o) ≡ false) × All (IsGranted resources) (read_leases o)
  unfolding rest_issues read_leases elements
  rest_ok path lane (some (arr (Elements.element v vs))) h =
      let (leases, e, h1) = bind-eq-done (leases_issues resources path 0 (v ∷ elements vs)) _ h in
      let more = requirement_issues services path (get "task_requirements" lane) in
      let joined : leases ++ more ≡ [] = ground arith in
      (
        refl,
        leases-IsGranted resources path 0 (v ∷ elements vs)
            (rw (append-eq-nil leases more joined).0 at e),
      )
  rest_ok path lane (some (arr Elements.no_element)) h = cc
  rest_ok path lane _ h = cc

  closed_ok :
      (path : List Segment) (lane : Entries) (r : Report)
      → closed_report services resources path lane ≡ done r
      → r.issues ≡ []
      → IsChecked resources (read_lane services (obj lane))
        × (r.lane_ids ≡ (read_lane services (obj lane)).lane_id ∷ [])
  unfolding closed_report read_lane
  closed_ok path lane r h n =
      let (rest, e, made) =
        bind-eq-done (rest_issues services resources path lane (get "leases" lane)) _ h in
      let id_issues = ref_issues path "lane_id" (get "lane_id" lane) in
      let contract = ref_issues path "task_contract_ref" (get "task_contract_ref" lane) in
      let route = ref_issues path "route_evidence_ref" (get "route_evidence_ref" lane) in
      let joined : id_issues ++ (contract ++ (route ++ rest)) ≡ [] = ground arith in
      let (n1, t1) = append-eq-nil id_issues (contract ++ (route ++ rest)) joined in
      let (n2, t2) = append-eq-nil contract (route ++ rest) t1 in
      let (n3, n4) = append-eq-nil route rest t2 in
      let (named, ids) = ref_ok path "lane_id" (get "lane_id" lane) n1 in
      let (some_lease, granted) = rest_ok path lane (get "leases" lane) (rw n4 at e) in
      (
        record {
          named = named;
          contracted = (ref_ok path "task_contract_ref" (get "task_contract_ref" lane) n2).0;
          routed = (ref_ok path "route_evidence_ref" (get "route_evidence_ref" lane) n3).0;
          some_lease = some_lease;
          leased = granted;
        },
        ground arith,
      )

  report_ok :
      (path : List Segment) (v : Value) (r : Report)
      → lane_report services resources path v ≡ done r
      → r.issues ≡ []
      → IsChecked resources (read_lane services v)
        × (r.lane_ids ≡ (read_lane services v).lane_id ∷ [])
  unfolding lane_report
  report_ok path (obj lane) r h n = closed_ok path lane r (ground arith) n
  report_ok path _ r h n = absurd (ground arith)

  reports_ok :
      (i : ℕ) (vs : List Value) (r : Report)
      → lane_reports services resources i vs ≡ done r
      → r.issues ≡ []
      → All (IsChecked resources) (map (read_lane services) vs)
        × (r.lane_ids ≡ map (λ l. l.lane_id) (map (read_lane services) vs))
  unfolding lane_reports
  reports_ok i [] r h n = (tt, ground arith)
  reports_ok i (v ∷ vs) r h n =
      let (here, e, h1) =
        bind-eq-done (lane_report services resources (key "lanes" ∷ index i ∷ []) v) _ h in
      let (rest, e', h2) = bind-eq-done (lane_reports services resources (i + 1) vs) _ h1 in
      let joined : here.issues ++ rest.issues ≡ [] = ground arith in
      let (n1, n2) = append-eq-nil here.issues rest.issues joined in
      let (checked, ids) = report_ok (key "lanes" ∷ index i ∷ []) v here e n1 in
      let (more, more_ids) = reports_ok (i + 1) vs rest e' n2 in ((checked, more), ground arith)

  -- If the lane check reports no issue, then every lane that is read has nonempty references and at
  -- least one lease, the contract grants every lease, and the lane identities are distinct.
  pub lane_issues-IsChecked :
      (lanes : Value)
      → lane_issues services resources lanes ≡ done []
      → All (IsChecked resources) (read_lanes services lanes)
        × (all_distinct (map (λ l. l.lane_id) (read_lanes services lanes)) ≡ true)
  unfolding lane_issues read_lanes
  lane_issues-IsChecked (arr items) h =
      let (r, e, made) = bind-eq-done (lane_reports services resources 0 (elements items)) _ h in
      let lanes_issue =
        if all_distinct r.lane_ids then [] else issue "AR_DUPLICATE_LANE" (key "lanes" ∷ []) in
      let contract_issue =
        if all_distinct r.contract_refs
        then []
        else issue "AR_DUPLICATE_CONTRACT" (key "lanes" ∷ []) in
      let joined : r.issues ++ (lanes_issue ++ contract_issue) ≡ [] = ground arith in
      let (n1, t1) = append-eq-nil r.issues (lanes_issue ++ contract_issue) joined in
      let (n2, n3) = append-eq-nil lanes_issue contract_issue t1 in
      let (checked, ids) = reports_ok 0 (elements items) r e n1 in
      let distinct : all_distinct r.lane_ids ≡ true = ground arith in (checked, rw ids at distinct)
  lane_issues-IsChecked _ h = cc
