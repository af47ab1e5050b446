-- ===== src/Js/Decimal/RoundTrip.antt =====
-- What is printed is read back, and printed numbers hold no white space.
use Prim.Native.Char.{Char, code}
use Prim.Native.String.{String, [], ◌∷◌}
use forge_gate.Base.{
  ℕ, zero, suc, ◌+◌, ◌*◌, ◌/◌, ◌%◌, ◌<◌, ◌≡◌, refl, ◌≢◌, false, some, ltb, ◌==◌, Bool-cases, inl,
  inr, ap, ◌∙◌, arith,
}
use mathlib.Core.Path.{subst}
use forge_gate.Base.Int.{pos}
use forge_gate.Js.Text.{is_space, trim_start, trim_end, trim}
use forge_gate.Js.Decimal.{
  digit_char, emit, show, digit_value, read_digits, parse_unsigned, parse_int,
}

record IsDigit (c : Char) (d : ℕ) : Type 0 where
  value : digit_value c ≡ some d
  solid : is_space c ≡ false
  unsigned : ((code c == b'-') ≡ false) × ((code c == b'+') ≡ false)

digit_char-IsDigit : (d : ℕ) → d < 10 → IsDigit (digit_char d) d
unfolding digit_value is_space
digit_char-IsDigit zero h = record { value = refl; solid = refl; unsigned = (refl, refl) }
digit_char-IsDigit (suc zero) h = record { value = refl; solid = refl; unsigned = (refl, refl) }
digit_char-IsDigit (suc (suc zero)) h = record {
  value = refl;
  solid = refl;
  unsigned = (refl, refl);
}
digit_char-IsDigit (suc (suc (suc zero))) h = record {
  value = refl;
  solid = refl;
  unsigned = (refl, refl);
}
digit_char-IsDigit (suc (suc (suc (suc zero)))) h = record {
  value = refl;
  solid = refl;
  unsigned = (refl, refl);
}
digit_char-IsDigit (suc (suc (suc (suc (suc zero))))) h = record {
  value = refl;
  solid = refl;
  unsigned = (refl, refl);
}
digit_char-IsDigit (suc (suc (suc (suc (suc (suc zero)))))) h = record {
  value = refl;
  solid = refl;
  unsigned = (refl, refl);
}
digit_char-IsDigit (suc (suc (suc (suc (suc (suc (suc zero))))))) h = record {
  value = refl;
  solid = refl;
  unsigned = (refl, refl);
}
digit_char-IsDigit (suc (suc (suc (suc (suc (suc (suc (suc zero)))))))) h = record {
  value = refl;
  solid = refl;
  unsigned = (refl, refl);
}
digit_char-IsDigit (suc (suc (suc (suc (suc (suc (suc (suc (suc zero))))))))) h = record {
  value = refl;
  solid = refl;
  unsigned = (refl, refl);
}
digit_char-IsDigit (suc (suc (suc (suc (suc (suc (suc (suc (suc (suc n)))))))))) h =
    absurd (omega arith)

-- A text of digits, with at least one.
abbrev Digits : String → Type 0
Digits [] = Unit
Digits (c ∷ s) = ((d : ℕ) × IsDigit c d) × Digits s

read_digit :
    (acc d : ℕ) (s : String)
    → d < 10
    → read_digits acc (digit_char d ∷ s) ≡ read_digits (acc * 10 + d) s
unfolding read_digits
read_digit acc d s h = rw ((digit_char-IsDigit d h).value, read_digits)

read_digits-emit :
    (f n : ℕ) (rest : String) → n < f → read_digits 0 (emit f n rest) ≡ read_digits n rest
unfolding emit
read_digits-emit zero n rest h = absurd (omega arith)
read_digits-emit (suc f) n rest h = elim (Bool-cases (ltb n 10)) [
  | inl small ↦
      rw small (read_digit 0 n rest (ground arith) ∙ ap (λ m. read_digits m rest) (omega arith))
  | inr big ↦ rw big (
      read_digits-emit f (n / 10) (digit_char (n % 10) ∷ rest) (ground arith)
      ∙ read_digit (n / 10) (n % 10) rest (omega arith)
      ∙ ap (λ m. read_digits m rest) (omega arith))
]

-- A text of digits that is not empty.
abbrev IsNumber : String → Type 0
IsNumber [] = ⊥
IsNumber (c ∷ s) = ((d : ℕ) × IsDigit c d) × Digits s

IsNumber-Digits : (s : String) → IsNumber s → Digits s
IsNumber-Digits [] h = tt
IsNumber-Digits (c ∷ s) h = h

digit_cons : (n : ℕ) (rest : String) → n < 10 → Digits rest → IsNumber (digit_char n ∷ rest)
digit_cons n rest h k = ((n, digit_char-IsDigit n h), k)

emit-keeps : (f n : ℕ) (rest : String) → IsNumber rest → IsNumber (emit f n rest)
unfolding emit
emit-keeps zero n rest h = h
emit-keeps (suc f) n rest h = elim (Bool-cases (ltb n 10)) [
  | inl small ↦ rw small (digit_cons n rest (ground arith) (IsNumber-Digits rest h))
  | inr big ↦
      rw big
        (emit-keeps f (n / 10) _ (digit_cons (n % 10) rest (omega arith) (IsNumber-Digits rest h)))
]

show-IsNumber : (n : ℕ) → IsNumber (show n)
unfolding show
show-IsNumber n = elim (Bool-cases (ltb n 10)) [
  | inl small ↦ rw small (digit_cons n [] (ground arith) tt)
  | inr big ↦ rw big (emit-keeps n (n / 10) _ (digit_cons (n % 10) [] (omega arith) tt))
]

parse_unsigned_of_IsDigit :
    (c : Char) (s : String) {d : ℕ}
    → IsDigit c d
    → parse_unsigned (c ∷ s) ≡ some (read_digits 0 (c ∷ s))
unfolding parse_unsigned read_digits
parse_unsigned_of_IsDigit c s {d} h =
    rw (h.value, read_digits, parse_unsigned) (ap (λ m. some (read_digits m s)) (omega arith))

-- A text of digits is read whole by `parseInt`.
parse_int_of_IsNumber : (s : String) → IsNumber s → parse_int s ≡ some (pos (read_digits 0 s))
unfolding parse_int trim_start
parse_int_of_IsNumber [] h = absurd h
parse_int_of_IsNumber (c ∷ s) ((d, h), _) =
    rw h.solid (rw h.unsigned.0 (rw h.unsigned.1 (rw (parse_unsigned_of_IsDigit c s h))))

-- What is printed is read back.
pub parse_int-show : (n : ℕ) → parse_int (show n) ≡ some (pos n)
unfolding show read_digits
parse_int-show n =
    parse_int_of_IsNumber (show n) (show-IsNumber n)
    ∙ ap (λ m. some (pos m)) (read_digits-emit (suc n) n [] (omega arith))

trim_end_of_Digits : (s : String) → Digits s → trim_end s ≡ s
unfolding trim_end
trim_end_of_Digits [] h = refl
trim_end_of_Digits (c ∷ []) ((d, h), _) = rw h.solid
trim_end_of_Digits (c ∷ c' ∷ s) (_, h) = rw (trim_end_of_Digits (c' ∷ s) h)

trim_of_IsNumber : (s : String) → IsNumber s → trim s ≡ s
unfolding trim
trim_of_IsNumber [] h = absurd h
trim_of_IsNumber (c ∷ s) ((d, h), k) = rw h.solid (trim_end_of_Digits (c ∷ s) ((d, h), k))

-- A printed number has no white space to trim.
pub trim-show : (n : ℕ) → trim (show n) ≡ show n
trim-show n = trim_of_IsNumber (show n) (show-IsNumber n)

pub show-ne-nil : (n : ℕ) → show n ≢ ""
show-ne-nil n e = subst IsNumber e (show-IsNumber n)
