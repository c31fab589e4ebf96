-- ===== src/Setup.antt =====
-- The phase machine of the Windows guest setup: src/guestSetup/windows/setupFlow.ts.
mod Examples
pub mod Types
pub mod Phases
pub mod Isolation
pub mod Flow
pub mod Order
pub mod Gates
pub mod Sequence
pub mod Outcomes
pub mod Credentials
pub mod Endings
