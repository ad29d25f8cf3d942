-- ===== src/Agent/Lanes.antt =====
-- The checks of `_lane_issues`, over the raw lane declarations, and the lanes that pass them.
pub mod Checked
use malts.Base.{
  ℕ, zero, suc, ◌+◌, String, ◌==◌, Bool, true, false, not, ◌&&◌, ◌||◌, Option, none, some,
}
use malts.Base.{List, [], ◌∷◌, ◌++◌, all, contains, all_distinct, if◌then◌else◌, is_empty, map}
use malts.Base.Outcome.{Outcome, done, raised, ◌>>=◌, ◌>>◌}
use malts.Json.{Value, null, text, arr, obj, Elements, Entries, get, keys, elements, hashable}
use malts.Agent.Contract.{
  Segment, key, index, Issue, PlannerError, type_error, Resource, Services, TaskRequirements,
}

abbrev pub issue : String → List Segment → List Issue
issue code path = record { code = code; path = path } ∷ []

-- `resources`: the last entry with a locator counts.
pub operations_of : String → List Resource → Option (List String)
operations_of l [] = none
operations_of l (r ∷ rs) =
    let later = operations_of l rs in
    elim later [ some ops ↦ some ops | none ↦ if r.locator == l then some r.operations else none ]

pub permitted : List Resource → String → String → Bool
permitted resources locator access = elim (operations_of locator resources) [
  | none ↦ false
  | some ops ↦ contains access ops
]

abbrev subset : List String → List String → Bool
subset xs ys = all (λ x. contains x ys) xs

abbrev lane_required : List String
lane_required = "lane_id" ∷ "task_contract_ref" ∷ "route_evidence_ref" ∷ "leases" ∷ []

abbrev lease_fields : List String
lease_fields = "locator" ∷ "access" ∷ []

module _ (resources : List Resource) (path : List Segment) where
  access_issues : String → Value → Outcome PlannerError (List Issue)
  unfolding permitted
  access_issues locator (text access) =
      if access == "read" || access == "write"
      then if permitted resources locator access
        then done []
        else done (issue "AR_LANE_LEASE_AUTH" path)
      else done (issue "AR_LANE_LEASE" path)
  access_issues locator v =
      if hashable v then done (issue "AR_LANE_LEASE" path) else raised type_error

  lease_values : Option Value → Option Value → Outcome PlannerError (List Issue)
  unfolding access_issues
  lease_values (some (text locator)) (some access) =
      if locator == "" then done (issue "AR_LANE_LEASE" path) else access_issues locator access
  lease_values _ _ = done (issue "AR_LANE_LEASE" path)

  lease_issues : Value → Outcome PlannerError (List Issue)
  unfolding lease_values
  lease_issues (obj lease) =
      if subset (keys lease) lease_fields && subset lease_fields (keys lease)
      then lease_values (get "locator" lease) (get "access" lease)
      else done (issue "AR_LANE_LEASE_SHAPE" path)
  lease_issues _ = done (issue "AR_LANE_LEASE_SHAPE" path)

leases_issues : List Resource → List Segment → ℕ → List Value → Outcome PlannerError (List Issue)
leases_issues resources path i [] = done []
leases_issues resources path i (v ∷ vs) = do
  here ← lease_issues resources (path ++ key "leases" ∷ index i ∷ []) v
  rest ← leases_issues resources path (i + 1) vs
  done (here ++ rest)

-- A reference that is no nonempty text is an issue.
ref_issues : List Segment → String → Option Value → List Issue
ref_issues path name (some (text s)) =
    if s == "" then issue "AR_LANE_REF" (path ++ key name ∷ []) else []
ref_issues path name _ = issue "AR_LANE_REF" (path ++ key name ∷ [])

ref_texts : Option Value → List String
ref_texts (some (text s)) = if s == "" then [] else s ∷ []
ref_texts _ = []

-- What one lane adds: its issues, its identity and its contract reference.
record Report : Type 0 where
  issues : List Issue
  lane_ids : List String
  contract_refs : List String

-- `item.path[1:]` behind the lane's own path.
requirement_issues : Services → List Segment → Option Value → List Issue
requirement_issues services path none = []
requirement_issues services path (some null) = []
requirement_issues services path (some v) =
    map (λ (i : Issue). record i { path = path ++ key "task_requirements" ∷ i.path })
      (services.raw_requirements_issues v)

-- The lane's issues behind those of its references: an empty or missing list of leases ends the lane.
rest_issues :
    Services
    → List Resource
    → List Segment
    → Entries
    → Option Value
    → Outcome PlannerError (List Issue)
rest_issues services resources path lane (some (arr (Elements.element v vs))) = do
  leases ← leases_issues resources path 0 (v ∷ elements vs)
  done (leases ++ requirement_issues services path (get "task_requirements" lane))
rest_issues services resources path lane _ =
    done (issue "AR_LANE_LEASE" (path ++ key "leases" ∷ []))

-- The report on a closed lane record.
closed_report : Services → List Resource → List Segment → Entries → Outcome PlannerError Report
closed_report services resources path lane = do
  rest ← rest_issues services resources path lane (get "leases" lane)
  done (record {
    issues =
        ref_issues path "lane_id" (get "lane_id" lane)
        ++ (ref_issues path "task_contract_ref" (get "task_contract_ref" lane)
            ++ (ref_issues path "route_evidence_ref" (get "route_evidence_ref" lane) ++ rest));
    lane_ids = ref_texts (get "lane_id" lane);
    contract_refs = ref_texts (get "task_contract_ref" lane);
  })

lane_report : Services → List Resource → List Segment → Value → Outcome PlannerError Report
lane_report services resources path (obj lane) =
    if subset lane_required (keys lane) && subset (keys lane) ("task_requirements" ∷ lane_required)
    then closed_report services resources path lane
    else done (record { issues = issue "AR_LANE_SHAPE" path; lane_ids = []; contract_refs = [] })
lane_report services resources path _ =
    done (record { issues = issue "AR_LANE_SHAPE" path; lane_ids = []; contract_refs = [] })

lane_reports : Services → List Resource → ℕ → List Value → Outcome PlannerError Report
lane_reports services resources i [] =
    done (record { issues = []; lane_ids = []; contract_refs = [] })
lane_reports services resources i (v ∷ vs) = do
  here ← lane_report services resources (key "lanes" ∷ index i ∷ []) v
  rest ← lane_reports services resources (i + 1) vs
  done (record {
    issues = here.issues ++ rest.issues;
    lane_ids = here.lane_ids ++ rest.lane_ids;
    contract_refs = here.contract_refs ++ rest.contract_refs;
  })

pub lane_issues : Services → List Resource → Value → Outcome PlannerError (List Issue)
lane_issues services resources (arr lanes) = do
  r ← lane_reports services resources 0 (elements lanes)
  done (
      r.issues
      ++ ((if all_distinct r.lane_ids then [] else issue "AR_DUPLICATE_LANE" (key "lanes" ∷ []))
          ++ (if all_distinct r.contract_refs
              then []
              else issue "AR_DUPLICATE_CONTRACT" (key "lanes" ∷ []))))
lane_issues services resources _ = done (issue "AR_LANES_SHAPE" (key "lanes" ∷ []))

pub record Lane : Type 0 where
  pub lane_id : String
  pub task_contract_ref : String
  pub route_evidence_ref : String
  pub leases : List (String × String)
  pub task_requirements : Option TaskRequirements

-- `lane[name]` of a lane that was checked.
unfoldable pub text_of : Option Value → String
text_of (some (text s)) = s
text_of _ = ""

unfoldable pub read_lease : Value → String × String
unfolding text_of
read_lease (obj lease) = (text_of (get "locator" lease), text_of (get "access" lease))
read_lease _ = ("", "")

read_leases : Option Value → List (String × String)
unfolding read_lease
read_leases (some (arr items)) = map read_lease (elements items)
read_leases _ = []

-- `lane.get("task_requirements")` where `None` leaves the default.
given_requirements : Services → Option Value → Option TaskRequirements
given_requirements services none = none
given_requirements services (some null) = none
given_requirements services (some v) = some (services.read_requirements v)

unfoldable pub read_lane : Services → Value → Lane
unfolding read_leases given_requirements
read_lane services (obj lane) = record {
  lane_id = text_of (get "lane_id" lane);
  task_contract_ref = text_of (get "task_contract_ref" lane);
  route_evidence_ref = text_of (get "route_evidence_ref" lane);
  leases = read_leases (get "leases" lane);
  task_requirements = given_requirements services (get "task_requirements" lane);
}
read_lane services _ = record {
  lane_id = "";
  task_contract_ref = "";
  route_evidence_ref = "";
  leases = [];
  task_requirements = none;
}

unfoldable pub read_lanes : Services → Value → List Lane
unfolding read_lane
read_lanes services (arr lanes) = map (read_lane services) (elements lanes)
read_lanes services _ = []

-- Opens the definitions of this module, for runs of the code on samples.
unfoldable pub lanes_code : Unit {0}
unfolding operations_of permitted access_issues lease_values lease_issues leases_issues ref_issues
    ref_texts requirement_issues rest_issues closed_report lane_report lane_reports lane_issues
    text_of read_lease read_leases given_requirements read_lane read_lanes
lanes_code = tt
