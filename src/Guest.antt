-- ===== src/Guest.antt =====
-- PowerShell Direct into a Windows guest: src/guestSetup/windows/guestExecutor.ts and
-- isolatedReadiness.ts.
mod Examples
pub mod Executor
pub mod Isolated
pub mod Polling
pub mod Readiness
