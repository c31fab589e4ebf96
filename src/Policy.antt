-- ===== src/Policy.antt =====
-- The network policy of an environment: src/allowlist.ts, src/blockList.ts and src/mcpServers.ts.
mod Examples
pub mod Types
pub mod Lines
pub mod Files
pub mod Combine
pub mod Mcp
