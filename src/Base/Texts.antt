-- ===== src/Base/Texts.antt =====
-- `===` on texts that the program only compares, and on texts that may be undefined.
use Prim.Native.String.{String}
use text.Mathlib.Text.{◌==◌ as str_eq}
use text.Mathlib.TextEquality.{eq_iff}
use mathlib.Core.Path.{◌≡◌, refl, ap}
use mathlib.Core.Bool.{Bool, true, false}
use mathlib.Core.Option.{Option, none, some}

unfoldable pub same_text : String → String → Bool
same_text = str_eq

pub same_text_refl : (s : String) → same_text s s ≡ true
unfolding same_text
same_text_refl s = (eq_iff s s).1 refl

pub same_text→eq : (s t : String) → same_text s t ≡ true → s ≡ t
unfolding same_text
same_text→eq s t h = (eq_iff s t).0 h

abbrev pub same_option : Option String → Option String → Bool
same_option none none = true
same_option (some s) (some t) = same_text s t
same_option _ _ = false

pub same_option_refl : (o : Option String) → same_option o o ≡ true
same_option_refl none = refl
same_option_refl (some s) = same_text_refl s

pub same_option→eq : (o p : Option String) → same_option o p ≡ true → o ≡ p
same_option→eq none none h = refl
same_option→eq (some s) (some t) h = ap some (same_text→eq s t h)
same_option→eq none (some t) h = cc
same_option→eq (some s) none h = cc
