-- ===== src/Agent.antt =====
-- tools/agent_route_planner.py: the advisory route planner. `Contract` has the data that its schemas
-- describe, `Lanes` the checks of the lane declarations, `Recommend` the model and effort of a lane,
-- and `Plan` the planner.
pub mod Contract
pub mod Lanes
pub mod Score
pub mod Profiles
pub mod Recommend
pub mod Plan
pub mod Examples
