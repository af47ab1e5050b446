-- ===== src/Js/Split.antt =====
-- `s.split(c)` at a separator of one character.
use Prim.Native.Char.{Char, code}
use Prim.Native.String.{[], ◌∷◌}
use mathlib.Core.List.{List}
use text.Mathlib.TextLemmas.{nil-append, cons-append}
use forge_gate.Base.{
  ℕ, String, ◌<>◌, ◌≡◌, refl, ◌≢◌, ◌==◌, Option, none, some, if◌then◌else◌, arith, Bool-cases, inl,
  inr,
}

-- A text without the character `n`.
abbrev pub Lacks : ℕ → String → Type 0
Lacks n [] = Unit
Lacks n (c ∷ s) = (code c ≢ n) × Lacks n s

cons_head : Char → List String → List String
cons_head c List.[] = List.◌∷◌ (c ∷ []) List.[]
cons_head c (List.◌∷◌ p ps) = List.◌∷◌ (c ∷ p) ps

unfoldable pub split : ℕ → String → List String
unfolding cons_head
split n [] = List.◌∷◌ [] List.[]
split n (c ∷ s) = let rest = split n s in if code c == n then List.◌∷◌ [] rest else cons_head c rest

abbrev pub first : List String → Option String
first List.[] = none
first (List.◌∷◌ a rest) = some a

-- The second piece, `undefined` where there is none.
abbrev pub second : List String → Option String
second (List.◌∷◌ a (List.◌∷◌ b rest)) = some b
second _ = none

pub split_of_Lacks : (n : ℕ) (s : String) → Lacks n s → split n s ≡ List.◌∷◌ s List.[]
unfolding split
split_of_Lacks n [] h = refl
split_of_Lacks n (c ∷ s) (h, k) = elim (Bool-cases (code c == n)) [
  | inl same ↦ absurd (h (ground arith))
  | inr other ↦ rw other (rw (split_of_Lacks n s k))
]

-- A piece without the separator is cut off whole.
pub split-append :
    (n : ℕ) (d : Char) (a x : String)
    → code d ≡ n
    → Lacks n a
    → split n (a <> (d ∷ x)) ≡ List.◌∷◌ a (split n x)
unfolding split
split-append n d [] x e h = rw (nil-append (d ∷ x)) (ground arith)
split-append n d (c ∷ a) x e (h, k) =
    rw (cons-append c a (d ∷ x)) (elim (Bool-cases (code c == n)) [
      | inl same ↦ absurd (h (ground arith))
      | inr other ↦ rw other (rw (split-append n d a x e k))
    ])
