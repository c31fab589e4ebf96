-- ===== src/Credentials.antt =====
-- The credential sources of run-hosting: src/runHosting/types.ts and planNextActions.ts (Plan),
-- credentialChannel.ts (Channel).
mod Examples
pub mod Plan
pub mod Channel
