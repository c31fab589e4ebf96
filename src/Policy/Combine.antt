-- ===== src/Policy/Combine.antt =====
-- `combinePolicy` of src/allowlist.ts.
pub mod Sweeping
pub mod Covering
pub mod Resolving
pub mod Sorting
pub mod Distinct
use susentorno.Base.{
  ℕ, Bool, true, false, not, ◌&&◌, ◌||◌, List, [], ◌∷◌, ◌++◌, any, select, length, String,
  same_text, if◌then◌else◌,
}
use susentorno.Base.Strings.{join, starts_with, ends_with, rest_of}
use susentorno.Base.TextSets.{has_text, add_text, add_texts, delete_text}
use susentorno.Policy.Types.{Allowlist}
use susentorno.Policy.Files.{ListFile, AuthListFile, host_of, prune_passthrough, is_wildcard}

pub data Section : Type 0 where
  passthrough claude_authenticated github_authenticated codex_authenticated auth_candidate : Section

-- The five sets, by section.
pub record Sections : Type 0 where
  pub passthrough_set : List String
  pub claude_set : List String
  pub github_set : List String
  pub codex_set : List String
  pub candidate_set : List String

abbrev pub get : Section → Sections → List String
get passthrough s = s.passthrough_set
get claude_authenticated s = s.claude_set
get github_authenticated s = s.github_set
get codex_authenticated s = s.codex_set
get auth_candidate s = s.candidate_set

abbrev pub set : Section → List String → Sections → Sections
set passthrough texts s = record s { passthrough_set = texts }
set claude_authenticated texts s = record s { claude_set = texts }
set github_authenticated texts s = record s { github_set = texts }
set codex_authenticated texts s = record s { codex_set = texts }
set auth_candidate texts s = record s { candidate_set = texts }

abbrev pub name_of : Section → String
name_of passthrough = "passthrough"
name_of claude_authenticated = "claudeAuthenticated"
name_of github_authenticated = "githubAuthenticated"
name_of codex_authenticated = "codexAuthenticated"
name_of auth_candidate = "authCandidate"

unfoldable pub is_blocked : String → List String → Bool
is_blocked host patterns =
    any
      (λ pattern.
        same_text pattern host || (is_wildcard pattern && ends_with host (rest_of pattern)))
      patterns

-- A set and the warnings.
pub record Swept : Type 0 where
  pub texts : List String
  pub warnings : List String

abbrev blocked_warning : String → String → String
blocked_warning entry name =
    join "blocked: '" (join entry (join "' removed from " (join name " (matches block-list.txt)")))

abbrev pub sweep_one : String → List String → String → Swept → Swept
sweep_one name patterns entry s =
    if is_blocked (host_of entry) patterns
    then record {
      texts = delete_text entry s.texts;
      warnings = add_text (blocked_warning entry name) s.warnings;
    }
    else s

-- The loop over the entries that one set had before it.
abbrev pub sweep : String → List String → List String → Swept → Swept
sweep name patterns [] s = s
sweep name patterns (entry ∷ entries) s =
    sweep name patterns entries (sweep_one name patterns entry s)

-- The sets and the warnings.
pub record Combined : Type 0 where
  pub sections : Sections
  pub warnings : List String

abbrev pub sweep_section : List String → Section → Combined → Combined
sweep_section patterns section c =
    let texts = get section c.sections in
    let swept =
      sweep (name_of section) patterns texts (record { texts = texts; warnings = c.warnings }) in
    record { sections = set section swept.texts c.sections; warnings = swept.warnings }

-- The loop over `sections`.
unfoldable pub remove_blocked : List String → Combined → Combined
remove_blocked patterns c = sweep_section patterns auth_candidate (
    sweep_section patterns codex_authenticated (
      sweep_section patterns github_authenticated
        (sweep_section patterns claude_authenticated (sweep_section patterns passthrough c))))

abbrev pub by_priority : List Section
by_priority =
    auth_candidate ∷ github_authenticated ∷ codex_authenticated ∷ claude_authenticated ∷ passthrough
    ∷ []

abbrev display_order : List Section
display_order =
    passthrough ∷ claude_authenticated ∷ codex_authenticated ∷ github_authenticated ∷ auth_candidate
    ∷ []

abbrev pub present_in : String → Sections → List Section → List Section
present_in entry s sections = select (λ section. has_text entry (get section s)) sections

abbrev join_names : List Section → String
join_names [] = ""
join_names (section ∷ []) = name_of section
join_names (section ∷ (other ∷ sections)) =
    join (name_of section) (join " and " (join_names (other ∷ sections)))

abbrev collision_warning : String → List Section → Section → String
collision_warning entry listed winner =
    join "collision: '" (
      join entry
        (join "' listed in " (join (join_names listed) (join "; using " (name_of winner)))))

abbrev pub delete_from : String → List Section → Sections → Sections
delete_from entry [] s = s
delete_from entry (loser ∷ losers) s =
    delete_from entry losers (set loser (delete_text entry (get loser s)) s)

abbrev pub settle : String → List Section → Combined → Combined
settle entry [] c = c
settle entry (winner ∷ []) c = c
settle entry (winner ∷ (loser ∷ losers)) c = record {
  sections = delete_from entry (loser ∷ losers) c.sections;
  warnings =
      add_text (collision_warning entry (present_in entry c.sections display_order) winner)
        c.warnings;
}

-- The loop over the entries of all sets.
abbrev pub resolve_entries : List String → Combined → Combined
resolve_entries [] c = c
resolve_entries (entry ∷ entries) c =
    resolve_entries entries (settle entry (present_in entry c.sections by_priority) c)

abbrev pub all_entries : Sections → List String
all_entries s =
    add_texts
      (s.passthrough_set ++ (s.claude_set ++ (s.github_set ++ (s.codex_set ++ s.candidate_set)))) []

abbrev pub prune : Combined → Combined
prune c =
    let s = c.sections in
    record c {
      sections = record s { passthrough_set = add_texts (prune_passthrough s.passthrough_set) [] };
    }

abbrev pub starting : ListFile → AuthListFile → ListFile → Combined
starting allow_list auth_list block_list = record {
  sections = record {
    passthrough_set = add_texts allow_list.entries [];
    claude_set = add_texts auth_list.claude_authenticated [];
    github_set = add_texts auth_list.github_authenticated [];
    codex_set = add_texts auth_list.codex_authenticated [];
    candidate_set = add_texts auth_list.auth_candidate [];
  };
  warnings = add_texts (allow_list.warnings ++ (auth_list.warnings ++ block_list.warnings)) [];
}

unfoldable pub combine_policy : ListFile → AuthListFile → ListFile → Allowlist
combine_policy allow_list auth_list block_list =
    let pruned =
      prune (remove_blocked block_list.entries (starting allow_list auth_list block_list)) in
    let c = resolve_entries (all_entries pruned.sections) pruned in
    record {
      passthrough = c.sections.passthrough_set;
      claude_authenticated = c.sections.claude_set;
      github_authenticated = c.sections.github_set;
      codex_authenticated = c.sections.codex_set;
      auth_candidate = c.sections.candidate_set;
      blocked = block_list.entries;
      warnings = c.warnings;
    }
