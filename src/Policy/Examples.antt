-- ===== src/Policy/Examples.antt =====
-- A wildcard, a host it covers, a blocked host, and a host that is listed twice.
use susentorno.Base.{◌≡◌, refl, not, ◌&&◌, some, List, [], ◌∷◌, any, same_text}
use susentorno.Base.TextSets.{has_text}
use susentorno.Policy.Lines.{trim, split_lines}
use susentorno.Policy.Files.{
  ListFile, AuthListFile, parse_allow_list_file, parse_auth_list_file, allow_line, auth_line,
  is_kept,
}
use susentorno.Policy.Combine.{
  passthrough, auth_candidate, combine_policy, remove_blocked, is_blocked,
}
use susentorno.Policy.Combine.Sorting.{list_of}
use susentorno.Policy.Mcp.{McpServerConfig, mcp_entry, resolve_mcp_allowlist_collisions}
use susentorno.Policy.Mcp.Winning.{has-resolve_mcp_allowlist_collisions}

abbrev allow_list : ListFile
allow_list = record {
  entries = "*.a.com:443" ∷ "x.a.com:443" ∷ "y.com:443" ∷ "z.com:80" ∷ [];
  warnings = [];
}

abbrev auth_list : AuthListFile
auth_list = record {
  claude_authenticated = "y.com:443" ∷ [];
  github_authenticated = [];
  codex_authenticated = [];
  auth_candidate = "y.com:443" ∷ [];
  warnings = [];
}

abbrev block_list : ListFile
block_list = record { entries = "z.com" ∷ []; warnings = [] }

abbrev servers : List McpServerConfig
servers = record { name = "m"; hostname = "y.com" } ∷ []

has-resolve_mcp_allowlist_collisions_example :
    has_text "y.com:443" (
      list_of auth_candidate
        (resolve_mcp_allowlist_collisions (combine_policy allow_list auth_list block_list) servers))
    ≡ (has_text "y.com:443"
          (list_of auth_candidate (combine_policy allow_list auth_list block_list))
        && not (any (λ server. same_text "y.com:443" (mcp_entry server)) servers))
has-resolve_mcp_allowlist_collisions_example =
    has-resolve_mcp_allowlist_collisions allow_list auth_list block_list servers auth_candidate
      "y.com:443"

what_passes : (combine_policy allow_list auth_list block_list).passthrough ≡ "*.a.com:443" ∷ []
unfolding combine_policy remove_blocked is_blocked is_kept same_text
what_passes = refl

what_is_up_for_approval :
    (combine_policy allow_list auth_list block_list).auth_candidate ≡ "y.com:443" ∷ []
unfolding combine_policy remove_blocked is_blocked is_kept same_text
what_is_up_for_approval = refl

what_is_read :
    (parse_allow_list_file
      "*.a.com:443\r\n# a comment\n x.a.com:443 \nq*.b:80\n\nx.a.com:80").entries
    ≡ "*.a.com:443" ∷ "x.a.com:80" ∷ []
unfolding parse_allow_list_file allow_line trim split_lines is_kept same_text
what_is_read = refl

the_sections :
    parse_auth_list_file "a:1\n#pragma auth candidate\nb:2"
    ≡ some (record {
      claude_authenticated = [];
      github_authenticated = [];
      codex_authenticated = [];
      auth_candidate = "b:2" ∷ [];
      warnings = [];
    })
unfolding parse_auth_list_file auth_line trim split_lines same_text
the_sections = refl
