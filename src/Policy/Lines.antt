-- ===== src/Policy/Lines.antt =====
-- `content.split(/\r?\n/)` and `line.trim()`.
use Prim.Native.Char.{Char, code}
use Prim.Native.String.{[] as empty, ◌∷◌ as char}
use susentorno.Base.{
  ℕ, Bool, true, false, ◌&&◌, ◌||◌, List, [], ◌∷◌, String, ◌==◌, leb, has, if◌then◌else◌,
}

abbrev white_space : List ℕ
white_space =
    9 ∷ 10 ∷ 11 ∷ 12 ∷ 13 ∷ 32 ∷ 160 ∷ 5760 ∷ 8232 ∷ 8233 ∷ 8239 ∷ 8287 ∷ 12288 ∷ 65279 ∷ []

abbrev is_space : Char → Bool
is_space c = has (code c) white_space || (leb 8192 (code c) && leb (code c) 8202)

abbrev trim_start : String → String
trim_start empty = empty
trim_start (char c s) = if is_space c then trim_start s else char c s

abbrev is_empty : String → Bool
is_empty empty = true
is_empty (char c s) = false

abbrev trim_end : String → String
trim_end empty = empty
trim_end (char c s) =
    let rest = trim_end s in if is_space c && is_empty rest then empty else char c rest

unfoldable pub trim : String → String
trim s = trim_end (trim_start s)

abbrev begin_line : Char → List String → List String
begin_line c [] = char c empty ∷ []
begin_line c (line ∷ lines) = char c line ∷ lines

abbrev starts_line_feed : String → Bool
starts_line_feed empty = false
starts_line_feed (char c s) = code c == 10

unfoldable pub split_lines : String → List String
split_lines empty = empty ∷ []
split_lines (char c s) =
    let rest = split_lines s in
    if code c == 10
    then empty ∷ rest
    else if code c == 13 && starts_line_feed s
    then rest
    else begin_line c rest
