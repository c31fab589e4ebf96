-- ===== src/Trust.antt =====
-- The Windows guest's certificate trust: src/guestSetup/windows/trustPlanner.ts.
mod Examples
pub mod Planner
