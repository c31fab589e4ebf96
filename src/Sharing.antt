-- ===== src/Sharing.antt =====
-- The VM share credentials of a Windows guest: src/guestSetup/windows/shareCredential.ts.
mod Examples
pub mod Ledger
pub mod Verdict
pub mod Operations
pub mod HostCheck
