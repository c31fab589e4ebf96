-- ===== src/Steps.antt =====
-- The Windows guest's step runner: src/guestSetup/windows/stepRunner.ts.
mod Examples
pub mod Output
pub mod Plan
pub mod Runner
