-- ===== src/Base/Strings.antt =====
-- Operations of JavaScript strings, on texts as lists of characters.
use Prim.Native.Nat.{ℕ}
use Prim.Native.Char.{code}
use Prim.Native.String.{String, [], ◌∷◌, ◌++◌}
use mathlib.Core.Bool.{Bool, true, false, ◌&&◌, ◌||◌}
use susentorno.Base.Tests.{◌==◌, if◌then◌else◌}
use susentorno.Base.Texts.{same_text}

-- `s + t`
abbrev pub join : String → String → String
join s t = s ++ t

-- `s.startsWith(t)`
abbrev pub starts_with : String → String → Bool
starts_with s [] = true
starts_with [] (d ∷ t) = false
starts_with (c ∷ s) (d ∷ t) = code c == code d && starts_with s t

-- `s.endsWith(t)`
abbrev pub ends_with : String → String → Bool
ends_with [] t = same_text [] t
ends_with (c ∷ s) t = same_text (c ∷ s) t || ends_with s t

-- `s.slice(1)`
abbrev pub rest_of : String → String
rest_of [] = []
rest_of (c ∷ s) = s

-- `s.slice(0, -1)`
abbrev pub without_last : String → String
without_last [] = []
without_last (c ∷ []) = []
without_last (c ∷ (d ∷ s)) = c ∷ without_last (d ∷ s)

-- `s.includes(c)` for a single character, by its code
abbrev pub includes_char : ℕ → String → Bool
includes_char n [] = false
includes_char n (c ∷ s) = code c == n || includes_char n s

-- What stands before the last of the characters with this code, and behind it.
abbrev pub before_last : ℕ → String → String
before_last n [] = []
before_last n (c ∷ s) =
    if includes_char n s
    then c ∷ before_last n s
    else if code c == n
    then []
    else c ∷ before_last n s

abbrev pub after_last : ℕ → String → String
after_last n [] = []
after_last n (c ∷ s) =
    if includes_char n s then after_last n s else if code c == n then s else after_last n s

-- `s.includes(t)`
abbrev pub includes : String → String → Bool
includes [] t = starts_with [] t
includes (c ∷ s) t = starts_with (c ∷ s) t || includes s t
