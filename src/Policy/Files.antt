-- ===== src/Policy/Files.antt =====
-- The policy files: `parseAllowListFile` and `parseAuthListFile` of src/allowlist.ts, and
-- `parseBlockListFile` of src/blockList.ts.
use susentorno.Base.{
  Bool, not, ◌&&◌, ◌||◌, Option, none, some, List, [], ◌∷◌, ◌++◌, any, select, String, same_text,
  if◌then◌else◌,
}
use susentorno.Base.Strings.{
  join, starts_with, ends_with, rest_of, without_last, includes_char, before_last, after_last,
}
use susentorno.Base.TextSets.{add_text}
use susentorno.Policy.Lines.{trim, split_lines}

pub record HostPort : Type 0 where
  pub host : String
  pub port : String

-- Without a colon `lastIndexOf` is -1: the host loses its last character, and the port is all.
abbrev pub split_host_port : String → HostPort
split_host_port entry =
    if includes_char 58 entry
    then record { host = before_last 58 entry; port = after_last 58 entry }
    else record { host = without_last entry; port = entry }

abbrev pub host_of : String → String
host_of entry = (split_host_port entry).host

abbrev pub port_of : String → String
port_of entry = (split_host_port entry).port

-- `WILDCARD_HOST_PATTERN.test(host)`
abbrev pub is_wildcard_pattern : String → Bool
is_wildcard_pattern host =
    let rest = rest_of (rest_of host) in
    starts_with host "*." && (not (same_text rest "") && not (includes_char 42 rest))

abbrev pub is_wildcard : String → Bool
is_wildcard host = starts_with host "*."

-- `map.get(port) ?? []`
abbrev pub suffixes_at : String → List (String × List String) → List String
suffixes_at port [] = []
suffixes_at port ((other, suffixes) ∷ m) =
    if same_text port other then suffixes else suffixes_at port m

abbrev pub set_suffixes :
    String → List String → List (String × List String) → List (String × List String)
set_suffixes port suffixes [] = (port, suffixes) ∷ []
set_suffixes port suffixes ((other, old) ∷ m) =
    if same_text port other
    then (other, suffixes) ∷ m
    else (other, old) ∷ set_suffixes port suffixes m

abbrev pub add_suffix : String → List (String × List String) → List (String × List String)
add_suffix entry m =
    let port = port_of entry in
    if is_wildcard (host_of entry)
    then set_suffixes port (suffixes_at port m ++ rest_of (host_of entry) ∷ []) m
    else m

abbrev pub suffixes_by_port :
    List String → List (String × List String) → List (String × List String)
suffixes_by_port [] m = m
suffixes_by_port (entry ∷ entries) m = suffixes_by_port entries (add_suffix entry m)

-- Whether the filter keeps an entry: a wildcard, or one that no wildcard of its port covers.
unfoldable pub is_kept : List String → String → Bool
is_kept entries entry =
    is_wildcard (host_of entry)
    || not (
        any (ends_with (host_of entry)) (suffixes_at (port_of entry) (suffixes_by_port entries [])))

abbrev pub prune_passthrough : List String → List String
prune_passthrough entries = select (is_kept entries) entries

pub record ListFile : Type 0 where
  pub entries : List String
  pub warnings : List String

abbrev unsupported_wildcard : String → String
unsupported_wildcard line = join "unsupported wildcard syntax, excluded: '" (join line "'")

-- One line of the allow list.
unfoldable pub allow_line : String → ListFile → ListFile
allow_line line f =
    if same_text line "" || starts_with line "#"
    then f
    else if includes_char 42 (host_of line) && not (is_wildcard_pattern (host_of line))
    then record f { warnings = add_text (unsupported_wildcard line) f.warnings }
    else record f { entries = add_text line f.entries }

abbrev allow_lines : List String → ListFile → ListFile
allow_lines [] f = f
allow_lines (raw ∷ lines) f = allow_lines lines (allow_line (trim raw) f)

unfoldable pub parse_allow_list_file : String → ListFile
parse_allow_list_file content =
    let f = allow_lines (split_lines content) (record { entries = []; warnings = [] }) in
    record f { entries = prune_passthrough f.entries }

-- One line of the block list.
unfoldable pub block_line : String → ListFile → ListFile
block_line line f =
    if same_text line "" || starts_with line "#"
    then f
    else if includes_char 58 line
    then record f {
      warnings =
          add_text
            (join "block-list entries are bare hostnames, no port: excluded '" (join line "'"))
            f.warnings;
    }
    else if includes_char 42 line && not (is_wildcard_pattern line)
    then record f { warnings = add_text (unsupported_wildcard line) f.warnings }
    else record f { entries = add_text line f.entries }

abbrev block_lines : List String → ListFile → ListFile
block_lines [] f = f
block_lines (raw ∷ lines) f = block_lines lines (block_line (trim raw) f)

unfoldable pub parse_block_list_file : String → ListFile
parse_block_list_file content =
    block_lines (split_lines content) (record { entries = []; warnings = [] })

pub data AuthSection : Type 0 where
  claude_section github_section codex_section candidate_section : AuthSection

pub record AuthListFile : Type 0 where
  pub claude_authenticated : List String
  pub github_authenticated : List String
  pub codex_authenticated : List String
  pub auth_candidate : List String
  pub warnings : List String

abbrev add_to : AuthSection → String → AuthListFile → AuthListFile
add_to claude_section line f = record f {
  claude_authenticated = add_text line f.claude_authenticated;
}
add_to github_section line f = record f {
  github_authenticated = add_text line f.github_authenticated;
}
add_to codex_section line f = record f { codex_authenticated = add_text line f.codex_authenticated }
add_to candidate_section line f = record f { auth_candidate = add_text line f.auth_candidate }

-- What a line says.
pub data AuthLine : Type 0 where
  skipped : AuthLine
  pragma : AuthSection → AuthLine
  invalid : AuthLine
  listed : AuthLine

abbrev read_auth_line : String → AuthLine
read_auth_line line =
    if same_text line ""
    then skipped
    else if same_text line "#pragma claude authenticated"
    then pragma claude_section
    else if same_text line "#pragma github authenticated"
    then pragma github_section
    else if same_text line "#pragma codex authenticated"
    then pragma codex_section
    else if same_text line "#pragma auth candidate"
    then pragma candidate_section
    else if same_text line "# terminate" || starts_with line "#pragma "
    then invalid
    else if starts_with line "#"
    then skipped
    else listed

abbrev add_listed : Option AuthSection → String → AuthListFile → AuthListFile
add_listed none line f = f
add_listed (some section) line f =
    if includes_char 42 (host_of line)
    then record f { warnings = add_text (unsupported_wildcard line) f.warnings }
    else add_to section line f

-- `section`, and what has been read so far.
pub record AuthState : Type 0 where
  pub section : Option AuthSection
  pub file : AuthListFile

-- One round of the loop; none where it throws.
unfoldable pub auth_line : AuthLine → String → AuthState → Option AuthState
auth_line skipped line s = some s
auth_line (pragma section) line s = some (record s { section = some section })
auth_line invalid line s = none
auth_line listed line s = some (record s { file = add_listed s.section line s.file })

abbrev auth_lines : List String → AuthState → Option AuthListFile
auth_lines [] s = some s.file
auth_lines (raw ∷ lines) s = elim (auth_line (read_auth_line (trim raw)) (trim raw) s) [
  | none ↦ none
  | some s' ↦ auth_lines lines s'
]

unfoldable pub parse_auth_list_file : String → Option AuthListFile
parse_auth_list_file content = auth_lines (split_lines content) (record {
  section = none;
  file = record {
    claude_authenticated = [];
    github_authenticated = [];
    codex_authenticated = [];
    auth_candidate = [];
    warnings = [];
  };
})
