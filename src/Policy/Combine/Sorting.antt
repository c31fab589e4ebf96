-- ===== src/Policy/Combine/Sorting.antt =====
-- Which list of the combined policy an entry ends in.
use susentorno.Base.{Bool, not, ◌&&◌, ◌||◌, List, any, String}
use susentorno.Base.TextSets.{has_text}
use susentorno.Policy.Types.{Allowlist}
use susentorno.Policy.Files.{ListFile, AuthListFile, host_of, is_wildcard}
use susentorno.Policy.Combine.{
  Section, passthrough, claude_authenticated, github_authenticated, codex_authenticated,
  auth_candidate, Combined, remove_blocked, starting,
}
use susentorno.Policy.Combine.Sweeping.{is_blocked_entry}
use susentorno.Policy.Combine.Covering.{covers}

-- The list of an `Allowlist`, and of the files, that belongs to a section.
abbrev pub list_of : Section → Allowlist → List String
list_of passthrough a = a.passthrough
list_of claude_authenticated a = a.claude_authenticated
list_of github_authenticated a = a.github_authenticated
list_of codex_authenticated a = a.codex_authenticated
list_of auth_candidate a = a.auth_candidate

abbrev pub listed_in : ListFile → AuthListFile → Section → List String
listed_in allow_list auth_list passthrough = allow_list.entries
listed_in allow_list auth_list claude_authenticated = auth_list.claude_authenticated
listed_in allow_list auth_list github_authenticated = auth_list.github_authenticated
listed_in allow_list auth_list codex_authenticated = auth_list.codex_authenticated
listed_in allow_list auth_list auth_candidate = auth_list.auth_candidate

module _ (allow_list : ListFile) (auth_list : AuthListFile) (block_list : ListFile) where
  abbrev pub is_spared : Section → String → Bool
  is_spared s e =
      has_text e (listed_in allow_list auth_list s) && not (is_blocked_entry block_list.entries e)

  abbrev pub is_covered : String → Bool
  is_covered e =
      any (λ w. not (is_blocked_entry block_list.entries w) && covers e w) allow_list.entries

  abbrev pub is_candidate : String → Section → Bool
  is_candidate e passthrough =
      is_spared passthrough e && (is_wildcard (host_of e) || not (is_covered e))
  is_candidate e s = is_spared s e

  abbrev swept : Combined
  swept = remove_blocked block_list.entries (starting allow_list auth_list block_list)
