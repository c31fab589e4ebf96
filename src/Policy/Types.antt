-- ===== src/Policy/Types.antt =====
-- The `Allowlist` of src/allowlist.ts. An entry is a text `host:port`.
use susentorno.Base.{List, String}

pub record Allowlist : Type 0 where
  pub passthrough : List String
  pub claude_authenticated : List String
  pub github_authenticated : List String
  pub codex_authenticated : List String
  pub auth_candidate : List String
  pub blocked : List String
  pub warnings : List String
