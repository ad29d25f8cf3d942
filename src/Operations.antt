-- ===== src/Operations.antt =====
-- tools/v2_operations.py: grants, operations, budgets and leases. `now` is the clock's reading.
pub mod Grants
pub mod Budgets
pub mod Lifecycle
pub mod Leases
pub mod Observe
pub mod Change
pub mod Once
pub mod Single
pub mod Views
pub mod Steps
pub mod Calls
pub mod Policies
pub mod Verifying
pub mod History
pub mod Life
pub mod Issued
pub mod Settled
pub mod Examples
