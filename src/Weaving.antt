-- ===== src/Weaving.antt =====
-- The weaving of shares: src/collisions.ts.
pub mod Collisions
mod Examples
