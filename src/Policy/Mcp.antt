-- ===== src/Policy/Mcp.antt =====
-- `resolveMcpAllowlistCollisions` of src/mcpServers.ts.
pub mod Winning
use susentorno.Base.{
  ◌≡◌, refl, sym, ◌∙◌, ap, arith, Bool, true, false, not, ◌&&◌, ◌||◌, List, [], ◌∷◌, ◌++◌, any,
  String, same_text, same_text_refl, if◌then◌else◌, Bool-cases, inl, inr,
}
use susentorno.Base.Strings.{join, ends_with, rest_of}
use susentorno.Base.TextSets.{has_text, IsTextSet, same_text_test}
use susentorno.Policy.Types.{Allowlist}
use susentorno.Policy.Files.{ListFile, AuthListFile, is_wildcard}
use susentorno.Policy.Combine.{
  Section, passthrough, claude_authenticated, github_authenticated, codex_authenticated,
  auth_candidate, name_of, combine_policy,
}
use susentorno.Policy.Combine.Sorting.{list_of}
use susentorno.Policy.Combine.Distinct.{combine_policy-IsTextSet}

-- Of a server only the host name matters here.
pub record McpServerConfig : Type 0 where
  pub name : String
  pub hostname : String

-- `list.splice(list.indexOf(entry), 1)`
abbrev pub remove_first : String → List String → List String
remove_first x [] = []
remove_first x (t ∷ ts) = if same_text x t then ts else t ∷ remove_first x ts

abbrev pub mcp_entry : McpServerConfig → String
mcp_entry server = join server.hostname ":443"

abbrev pub set_list : Section → List String → Allowlist → Allowlist
set_list passthrough texts a = record a { passthrough = texts }
set_list claude_authenticated texts a = record a { claude_authenticated = texts }
set_list github_authenticated texts a = record a { github_authenticated = texts }
set_list codex_authenticated texts a = record a { codex_authenticated = texts }
set_list auth_candidate texts a = record a { auth_candidate = texts }

abbrev list_warning : String → Section → String
list_warning entry section = join "collision: '" (
    join entry (
      join "' listed in " (join (name_of section) " and mcp-servers.yaml; using mcp-servers.yaml")))

abbrev pub warn : String → Allowlist → Allowlist
warn text a = record a { warnings = a.warnings ++ text ∷ [] }

-- One round of the inner loop.
abbrev pub take_out : String → Section → Allowlist → Allowlist
take_out entry section a =
    if has_text entry (list_of section a)
    then warn (list_warning entry section)
        (set_list section (remove_first entry (list_of section a)) a)
    else a

abbrev pub take_out_all : String → List Section → Allowlist → Allowlist
take_out_all entry [] a = a
take_out_all entry (section ∷ sections) a = take_out_all entry sections (take_out entry section a)

abbrev pub allowlist_sections : List Section
allowlist_sections =
    passthrough ∷ claude_authenticated ∷ github_authenticated ∷ codex_authenticated ∷ auth_candidate
    ∷ []

abbrev blocked_warning : String → String
blocked_warning hostname = join "collision: '" (
    join hostname (
      join "' listed in block-list.txt and mcp-servers.yaml; "
        "MCP servers are not subject to block-list pruning, so it stays reachable"))

-- The server's own block, and the warning where a wildcard blocks it as well or instead.
abbrev pub unblock : String → Allowlist → Allowlist
unblock hostname a =
    if has_text hostname a.blocked
    then warn (blocked_warning hostname) (record a { blocked = remove_first hostname a.blocked })
    else if any (λ pattern. is_wildcard pattern && ends_with hostname (rest_of pattern)) a.blocked
    then warn (blocked_warning hostname) a
    else a

abbrev pub resolve_server : McpServerConfig → Allowlist → Allowlist
resolve_server server a =
    unblock server.hostname (take_out_all (mcp_entry server) allowlist_sections a)

unfoldable pub resolve_mcp_allowlist_collisions : Allowlist → List McpServerConfig → Allowlist
resolve_mcp_allowlist_collisions a [] = a
resolve_mcp_allowlist_collisions a (server ∷ servers) =
    resolve_mcp_allowlist_collisions (resolve_server server a) servers
