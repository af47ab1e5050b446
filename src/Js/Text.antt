-- ===== src/Js/Text.antt =====
-- Texts: `||`, `trim`, `toLowerCase`, `toUpperCase` and `includes`.
-- Case conversion is that of ASCII letters; other characters stay as they are.

use Prim.Native.Char.{Char, code}
use Prim.Native.String.{String, [], ◌∷◌}
use text.Mathlib.Text.{find?}
use forge_gate.Base.{Bool, ◌&&◌, ◌||◌, Option, none, some, is_some, leb, ◌==◌, ◌=ₛ◌, if◌then◌else◌}

-- `s || d`: the empty text is falsy.
abbrev pub or_text : String → String → String
or_text s d = if s =ₛ "" then d else s

-- `o || d`, where the text may be missing.
abbrev pub or_text? : Option String → String → String
or_text? none d = d
or_text? (some s) d = or_text s d

-- The character of `to` that stands where `c` stands in `from`.
translate_char : String → String → Char → Char
translate_char (a ∷ from) (b ∷ to) c = if code a == code c then b else translate_char from to c
translate_char _ _ c = c

abbrev capitals : String
capitals = "ABCDEFGHIJKLMNOPQRSTUVWXYZ"

abbrev small_letters : String
small_letters = "abcdefghijklmnopqrstuvwxyz"

unfoldable pub to_lower : String → String
unfolding translate_char
to_lower [] = []
to_lower (c ∷ s) = translate_char capitals small_letters c ∷ to_lower s

unfoldable pub to_upper : String → String
unfolding translate_char
to_upper [] = []
to_upper (c ∷ s) = translate_char small_letters capitals c ∷ to_upper s

-- White space and line ends, as `trim` reads them.
unfoldable pub is_space : Char → Bool
is_space c =
    let n = code c in
    n == 32
    || (leb 9 n && leb n 13)
    || n == 0xa0
    || n == 0x1680
    || (leb 0x2000 n && leb n 0x200a)
    || n == 0x2028
    || n == 0x2029
    || n == 0x202f
    || n == 0x205f
    || n == 0x3000
    || n == 0xfeff

unfoldable pub trim_start : String → String
unfolding is_space
trim_start [] = []
trim_start (c ∷ s) = let rest = trim_start s in if is_space c then rest else c ∷ s

-- What is left of a character and the trimmed rest behind it.
unfoldable pub trim_cons : Char → String → String
trim_cons c [] = if is_space c then [] else c ∷ []
trim_cons c (d ∷ s) = c ∷ d ∷ s

unfoldable pub trim_end : String → String
unfolding is_space trim_cons
trim_end [] = []
trim_end (c ∷ s) = trim_cons c (trim_end s)

unfoldable pub trim : String → String
unfolding trim_start trim_end
trim s = trim_end (trim_start s)

-- `s.includes(t)`
abbrev pub contains : String → String → Bool
contains s t = is_some (find? s t)
