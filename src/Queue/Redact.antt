-- ===== src/Queue/Redact.antt =====
-- `sanitizePayloadString` and `sanitizePayloadObject` of queue.service.ts. In each of its regular
-- expressions a piece that may be long takes all that it can, and giving back a part of it never
-- helps, since what follows does not start with what it consists of; so a match needs no search.
pub mod Payload
use Prim.Native.Char.{Char, code}
use forge_gate.Base.{
  ℕ, zero, suc, ◌+◌, ◌-◌, String, ◌<>◌, Bool, true, false, not, ◌&&◌, ◌||◌, Option, none, some,
  List, [], ◌∷◌, includes, leb, ◌==◌, if◌then◌else◌, ◌≡◌, refl,
}
use forge_gate.Js.Text.{to_lower, is_space}
use forge_gate.Js.Json.{
  Json, undefined, null, boolean, number, text, array, object, Items, no_items, item, Fields,
  no_fields, field,
}
use forge_gate.Sanitize.{mark, IsClean, AreClean, HasCleanFields, mark-IsMarked}

-- A word in either case; one of some characters, or none of them; `\s*`; `\s+`; `[^\s,]+`;
-- `[a-zA-Z0-9._-]+`.
data Piece : Type 0 where
  word : String → Piece
  one_of : String → Piece
  maybe_one_of : String → Piece
  spaces some_spaces value token : Piece

-- What was matched, how long it is, and what follows it.
record Match : Type 0 where
  size : ℕ
  matched : String
  rest : String

abbrev no_match : String → Match
no_match s = record { size = 0; matched = ""; rest = s }

abbrev match_char : Char → Match → Match
match_char c m = record m { size = suc m.size; matched = String.◌∷◌ c m.matched }

abbrev same_letter : Char → Char → Bool
same_letter a b = code a == code b

is_one_of : String → Char → Bool
is_one_of String.[] c = false
is_one_of (String.◌∷◌ a as_) c = same_letter a c || is_one_of as_ c

is_value_char : Char → Bool
is_value_char c = not (is_space c) && not (code c == 44)

is_token_char : Char → Bool
is_token_char c = is_one_of "abcdefghijklmnopqrstuvwxyzABCDEFGHIJKLMNOPQRSTUVWXYZ0123456789._-" c

-- The longest start of a text whose characters pass a test.
span : (Char → Bool) → String → Match
span test String.[] = no_match String.[]
span test (String.◌∷◌ c s) =
    let after = span test s in if test c then match_char c after else no_match (String.◌∷◌ c s)

one_or_more : Match → Option Match
one_or_more m = if m.size == 0 then none else some m

-- A capital letter of ASCII as a small one.
lower_char : Char → ℕ
lower_char c = let n = code c in if leb 65 n && leb n 90 then n + 32 else n

after_char : Char → Option Match → Option Match
after_char c none = none
after_char c (some m) = some (match_char c m)

match_word : (lower : String) → String → Option Match
match_word String.[] s = some (no_match s)
match_word (String.◌∷◌ a w) String.[] = none
match_word (String.◌∷◌ a w) (String.◌∷◌ c s) = elim (code a == lower_char c) [
  | true ↦ after_char c (match_word w s)
  | false ↦ none
]

match_one : String → String → Match
match_one chars String.[] = no_match String.[]
match_one chars (String.◌∷◌ c s) =
    if is_one_of chars c then match_char c (no_match s) else no_match (String.◌∷◌ c s)

match_piece : Piece → String → Option Match
unfolding span is_value_char is_token_char one_or_more match_word match_one
match_piece (word w) s = match_word w s
match_piece (one_of chars) s = one_or_more (match_one chars s)
match_piece (maybe_one_of chars) s = some (match_one chars s)
match_piece spaces s = some (span is_space s)
match_piece some_spaces s = one_or_more (span is_space s)
match_piece value s = one_or_more (span is_value_char s)
match_piece token s = one_or_more (span is_token_char s)

abbrev append_match : Match → Option Match → Option Match
append_match m none = none
append_match m (some n) =
    some (record { size = m.size + n.size; matched = m.matched <> n.matched; rest = n.rest })

match_pieces : List Piece → String → Option Match
unfolding match_piece
match_pieces [] s = some (no_match s)
match_pieces (p ∷ ps) s = elim (match_piece p s) [
  | none ↦ none
  | some m ↦ append_match m (match_pieces ps m.rest)
]

-- A regular expression with the flags `g` and `i`: what stands first and what follows, one of
-- several, and whether the replacement repeats the first part.
record Pattern : Type 0 where
  first : List Piece
  keeps_first : Bool
  then_one_of : List (List Piece)

match_some : List (List Piece) → String → Option Match
match_some [] s = none
match_some (ps ∷ others) s = elim (match_pieces ps s) [
  | none ↦ match_some others s
  | some m ↦ some m
]

-- The length of a match, and its replacement.
match_pattern : Pattern → String → Option (ℕ × String)
match_pattern p s = elim (match_pieces p.first s) [
  | none ↦ none
  | some m ↦ elim (match_some p.then_one_of m.rest) [
    | none ↦ none
    | some n ↦ some (m.size + n.size, (if p.keeps_first then m.matched else "") <> "[REDACTED]")
  ]
]

-- `s.replace(pattern, …)`; the first argument counts the characters of a match still to be left out.
replace_from : ℕ → Pattern → String → String
replace_from n p String.[] = String.[]
replace_from (suc n) p (String.◌∷◌ c s) = replace_from n p s
replace_from zero p (String.◌∷◌ c s) = elim (match_pattern p (String.◌∷◌ c s)) [
  | none ↦ String.◌∷◌ c (replace_from zero p s)
  | some (size, replacement) ↦ replacement <> replace_from (size - 1) p s
]

abbrev assigned : List Piece → Pattern
assigned names = record { first = names; keeps_first = true; then_one_of = (value ∷ []) ∷ [] }

-- `\s*[:=]\s*` after a name.
abbrev equals : List Piece
equals = spaces ∷ one_of ":=" ∷ spaces ∷ []

patterns : List Pattern
patterns =
    record {
      first = word "authorization:" ∷ spaces ∷ [];
      keeps_first = true;
      then_one_of = (word "bearer" ∷ some_spaces ∷ value ∷ []) ∷ (value ∷ []) ∷ [];
    }
    ∷ record {
      first = word "bearer" ∷ some_spaces ∷ [];
      keeps_first = false;
      then_one_of = (token ∷ []) ∷ [];
    }
    ∷ assigned (word "api" ∷ maybe_one_of "-_" ∷ word "key" ∷ equals)
    ∷ assigned (word "password" ∷ equals)
    ∷ assigned (word "token" ∷ equals)
    ∷ assigned (word "secret" ∷ equals)
    ∷ assigned (word "cookie" ∷ equals)
    ∷ assigned (word "jwt" ∷ equals)
    ∷ assigned (word "refresh" ∷ maybe_one_of "-_" ∷ word "token" ∷ equals)
    ∷ assigned (word "credentials" ∷ equals)
    ∷ []

replace_all : List Pattern → String → String
unfolding replace_from
replace_all [] s = s
replace_all (p ∷ ps) s = replace_all ps (replace_from 0 p s)

pub sanitize_payload_string : String → String
unfolding replace_all patterns
sanitize_payload_string s = replace_all patterns s

-- Tests.
redacts_a_password : sanitize_payload_string "Password = a1, b" ≡ "Password = [REDACTED], b"
unfolding sanitize_payload_string match_pattern match_pieces lower_char after_char match_some
    is_space is_one_of
redacts_a_password = refl

redacts_a_header : sanitize_payload_string "Authorization: Bearer x.y" ≡ "Authorization: [REDACTED]"
unfolding sanitize_payload_string match_pattern match_pieces lower_char after_char match_some
    is_space is_one_of
redacts_a_header = refl
