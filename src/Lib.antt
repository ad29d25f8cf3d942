-- ===== src/Lib.antt =====
-- A verification library of MALTS: the decisions of its routing, completion and Growth tools.
--
-- Paths are those of the repository. A tool reads JSON; what passed a JSON schema is a record of
-- the fields that the code reads, with a data type for each closed set of words, and what the code
-- takes from other code is an argument or a record of functions.
--
-- Base: tests, lists, texts, `sorted(set(...))` with Sorted, integers, and `Outcome` for a call
-- that may raise. Json: JSON values as Python reads them; `get` is `dict.get`.
--
-- GrowthRoute (tools/growth_routing.py): the gate that classifies the Growth route of a final
-- delivery. `read_request` are the checks of classify_growth_route in their order, `choose_route`
-- its chain of conditions, `decide_route` the result, `require_visible`
-- require_user_visible_growth_summary. Laws and Silence have the theorems. Reasons, summaries and
-- the command line are left out.
--
-- Completion (tools/result_completion.py): evaluate_completion, the policy for DONE. `all_issues`
-- is its body, `distinct_from` the final dict.fromkeys. The check against
-- completion_proof.schema.json is the argument `schema_ok`. Rows has the counting of verification
-- rows, Sound the equivalence with `IsComplete`, Backed what stands behind a hard criterion.
--
-- Ledger (tools/growth_ledger.py): the lifecycle of a Growth candidate. apply_future_validation and
-- review_candidate_lifecycle are functions to an `Update`; Steps makes their accepted calls a step
-- relation, Lifecycle shows what no sequence of steps undoes, Evidence and Guards what an accepted
-- call rests on. Ledger.Retrieval has retrieve_candidates, and Ledger.Events has
-- record_retrieval_event and analyze_signal. The schema checks are the record `Contracts`; Python's
-- strip and casefold are arguments. validate_ledger_bundle, which reads and hashes the record
-- files, is left out: the retrieval takes its issues and its candidates.
--
-- Agent (tools/agent_route_planner.py): the planner of agents and models. Agent.Contract has the
-- data, and the record `Services` for validate_instance (tools/malts_user_contracts.py) and
-- legacy_lease_conflict (tools/resource_locators.py). Agent.Lanes is _lane_issues on JSON and the
-- reading of checked lanes; Agent.Score the score, the safety floors and the route class;
-- Agent.Profiles _profile_eligible and _profile_candidates; Agent.Recommend recommend_model_route;
-- Agent.Plan plan_route, with Selected for the greedy selection and Dispatched, Independent and
-- Capacity for the plan. plan_route calls the parts in this order: the lane check, the
-- authorisation, the capacity, the selection, one recommendation for each selected lane. A raised
-- KeyError or TypeError is the `raised` of an `Outcome`. The command line is left out.
--
-- Locator (tools/resource_locators.py): locator_conflict on normalised locators, with
-- _path_relationship and os.path.commonpath of POSIX systems; `search_pairs` is the nested loop
-- that returns its first result. Joined and Above are about common paths, Conflicts about the order
-- of the two locators, Overlap about what a conflict needs. find_conflicts stands without its final
-- sort. normalize_locator, which reads the file system, and legacy_lease_conflict are left out.
--
-- Contracts (tools/v2_contracts.py): criteria, which reads the acceptance criteria of a task.
--
-- Store (tools/v2_state_store.py): the tables as lists of rows, newest first, with the columns that
-- the modelled code uses; the record `Services` of what it takes from other modules; `transaction`.
-- A call is a function of the store to an `Outcome`, and what raises leaves the store of before.
-- Query has the SQL on lists, Rows the reads and writes of single rows, Dependencies add_dependency
-- and the recursive query of _reject_dependency_cycle, Cancel cancel_task, Revise revise_task.
-- Committed says what a transaction that returned has run; Reachable and Acyclic are about the
-- cycle check, Stopped and Replays about cancel_task.
--
-- Effects (tools/v2_task_lifecycle.py): reconcile_effect_state and, in Effects.Verify, the
-- transitions of Verification. Effects.Unknown is about unknown effects, Effects.Rework about the
-- return to work.
--
-- Operations (tools/v2_operations.py): Grants has record_grant, revoke_grant and _grant; Budgets
-- the operation budgets; Lifecycle prepare and the body of record_intent; Leases record_intent,
-- _lease, verify_lease and renew_lease; Observe cancel_prepared and observe, which ends with the
-- reconciliation of Effects. The time of a call is an argument, and an instant is a number. Change
-- is the view of a store by its operations and committed intents, with the changes that a call may
-- make; Steps, Calls, Policies and Verifying are about the change of each call, Views about writes
-- that leave the view. Once and Single are about a change; History makes the calls a step relation,
-- and Life has the life of an operation that it refines. Issued is about a record_intent that
-- permits the effect, Settled about an observation that settles it. The protection
-- of parameters (v2_operation_inputs.py) and of an observation's reference
-- (v2_observation_content.py) may raise and is left to `Services`: prepare keeps the control that it
-- returns, a row of an observation the reference as it was given, which read_reference reads back.
-- budget_status and v2_authority.py are left out.
--
-- Store.Dependencies.close needs fuel: one pass for each row, which is enough, since a pass that
-- does not finish marks a row. No other definition needs any: every loop runs over a list that it
-- takes apart, and texts and numbers of any size are allowed. The text of messages is left out
-- where it is fixed by the code of an issue.
--
-- Not modelled: the workspace and installation runtimes and the rest of the second version
-- (tools/long_workspace.py, tools/malts_lifecycle.py, tools/workspace_*.py, the other
-- tools/v2_*.py, tools/mcp_*.py), which mostly read and write files and databases or start
-- processes, the result controller and the capability router; and adapters, skills, scripts and
-- documents, which are no program logic.
mod Base
pub mod Json
pub mod GrowthRoute
pub mod Completion
pub mod Agent
pub mod Ledger
pub mod Locator
pub mod Contracts
pub mod Store
pub mod Effects
pub mod Operations
