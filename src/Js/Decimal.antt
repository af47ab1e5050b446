-- ===== src/Js/Decimal.antt =====
-- `String(n)` of a whole number and `parseInt(s, 10)`. A number of JavaScript is exact up to 2^53,
-- and the program's numbers (seconds, statuses, indices) stay far below.
pub mod RoundTrip
use Prim.Native.Char.{Char, code}
use Prim.Native.String.{String, [], ◌∷◌}
use mathlib.Core.Option
use forge_gate.Base.{
  ℕ, zero, suc, ◌+◌, ◌-◌, ◌*◌, ◌/◌, ◌%◌, ◌&&◌, Option, none, some, ltb, leb, ◌==◌, ◌<>◌,
  if◌then◌else◌,
}
use forge_gate.Base.Int.{ℤ, pos, negsuc}
use forge_gate.Js.Text.{trim_start}

abbrev pick : String → ℕ → Char → Char
pick [] n d = d
pick (c ∷ s) zero d = c
pick (c ∷ s) (suc n) d = pick s n d

abbrev digit_char : ℕ → Char
digit_char n = pick "0123456789" n "0"

-- With as much fuel as the number and one more, every digit is written.
emit : ℕ → ℕ → String → String
emit zero n rest = rest
emit (suc f) n rest =
    let more = emit f (n / 10) (digit_char (n % 10) ∷ rest) in
    if ltb n 10 then digit_char n ∷ rest else more

unfoldable pub show : ℕ → String
unfolding emit
show n = emit (suc n) n []

unfoldable pub show_ℤ : ℤ → String
unfolding show
show_ℤ (pos n) = show n
show_ℤ (negsuc n) = "-" <> show (suc n)

digit_value : Char → Option ℕ
digit_value c = if leb b'0' (code c) && leb (code c) b'9' then some (code c - b'0') else none

-- The digits at the head of a text, behind those read so far.
read_digits : ℕ → String → ℕ
read_digits acc [] = acc
read_digits acc (c ∷ s) = elim (digit_value c) [
  | none ↦ acc
  | some d ↦ read_digits (acc * 10 + d) s
]

parse_unsigned : String → Option ℕ
parse_unsigned [] = none
parse_unsigned (c ∷ s) = elim (digit_value c) [ none ↦ none | some d ↦ some (read_digits d s) ]

abbrev negate : ℕ → ℤ
negate zero = pos zero
negate (suc n) = negsuc n

parse_signed : String → Option ℤ
parse_signed [] = none
parse_signed (c ∷ s) =
    if code c == b'-'
    then Option.map negate (parse_unsigned s)
    else if code c == b'+'
    then Option.map pos (parse_unsigned s)
    else Option.map pos (parse_unsigned (c ∷ s))

-- `none` is `NaN`.
unfoldable pub parse_int : String → Option ℤ
unfolding parse_signed parse_unsigned read_digits digit_value trim_start
parse_int s = parse_signed (trim_start s)
