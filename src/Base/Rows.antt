-- ===== src/Base/Rows.antt =====
-- Rows that a command does not touch.
use forge_gate.Base.Lists.{any, count_of, update_row, filter}
use Prim.Native.Nat.{◌≤◌}
use mathlib.Core.Bool.{Bool, true, false, not, ◌&&◌}
use mathlib.Core.List.{List, [], ◌∷◌, map}
use mathlib.Core.Path.{◌≡◌, refl, ap, ◌∙◌}
use native.Mathlib.Omega.{arith}
use forge_gate.Base.Tests.{if◌then◌else◌, Bool-cases}
use mathlib.Core.Logic.{inl, inr}

module _ {A : Type 0} (keep test : A → Bool) where
  -- No row that is tested for is one of those that are kept.
  abbrev pub Apart : List A → Type 0
  Apart xs = any (λ x. test x && keep x) xs ≡ false

  pub filter-removed :
      (xs : List A) → Apart xs → filter keep (filter (λ x. not (test x)) xs) ≡ filter keep xs
  filter-removed [] h = refl
  filter-removed (x ∷ xs) h =
      let rest = filter-removed xs (ground arith) in
      elim (Bool-cases (test x)) [
        | inl hit ↦ let gone : keep x ≡ false = ground arith in rw hit (rw gone rest)
        | inr miss ↦ rw miss (ap (λ ys. if keep x then x ∷ ys else ys) rest)
      ]

  pub filter-updated :
      (f : A → A) (xs : List A)
      → ((x : A) → keep (f x) ≡ keep x)
      → Apart xs
      → filter keep (map (update_row test f) xs) ≡ filter keep xs
  filter-updated f [] same h = refl
  filter-updated f (x ∷ xs) same h =
      let rest = filter-updated f xs same (ground arith) in
      elim (Bool-cases (test x)) [
        | inl hit ↦
            let gone : keep x ≡ false = ground arith in
            let gone' = same x ∙ gone in rw hit (rw (gone, gone') rest)
        | inr miss ↦ rw miss (ap (λ ys. if keep x then x ∷ ys else ys) rest)
      ]

none_left :
    {A : Type 0} (keep test : A → Bool) (xs : List A) → count_of test xs ≤ 0 → Apart keep test xs
none_left keep test [] h = refl
none_left keep test (x ∷ xs) h = elim (Bool-cases (test x)) [
  | inl hit ↦ absurd (ground arith)
  | inr miss ↦ rw miss (none_left keep test xs (ground arith))
]

module _ {A : Type 0} (keep test : A → Bool) where
  -- Where one row at most is tested for, and one that is not kept is, none that is kept is.
  pub only_row :
      (xs : List A)
      → count_of test xs ≤ 1
      → any (λ x. test x && not (keep x)) xs ≡ true
      → Apart keep test xs
  only_row [] single h = refl
  only_row (x ∷ xs) single h = elim (Bool-cases (test x)) [
    | inr miss ↦ rw miss (only_row xs (ground arith) (ground arith))
    | inl hit ↦ elim (Bool-cases (keep x)) [
      | inr apart ↦ rw (hit, apart) (none_left keep test xs (ground arith))
      | inl kept ↦
          let left = none_left (λ y. not (keep y)) test xs (ground arith) in absurd (ground arith)
    ]
  ]
