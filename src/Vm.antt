-- ===== src/Vm.antt =====
-- The Hyper-V side of guest setup: src/guestSetup/vmReconcile.ts, with the plan of
-- hyperVOperations.ts and the query results of hyperVQueries.ts.
mod Examples
pub mod Plan
pub mod Heartbeat
pub mod Reconcile
