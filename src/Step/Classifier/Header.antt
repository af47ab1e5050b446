-- ===== src/Step/Classifier/Header.antt =====
-- The `Retry-After` header: whole seconds, or a date.
use native.Mathlib.Decide.{dec_le}
use forge_gate.Base.{
  ℕ, ◌+◌, ◌-◌, ◌*◌, ◌/◌, ◌≤◌, ◌<◌, String, ◌≡◌, ◌≢◌, ◌⊎◌, inl, inr, Option, none, some, arith,
  eq_refl, ne→test,
}
use forge_gate.Base.Int.{ℤ, pos}
use forge_gate.Js.Text.{trim}
use forge_gate.Js.Decimal.{show, show_ℤ, parse_int}
use forge_gate.Js.Decimal.RoundTrip.{parse_int-show, trim-show, show-ne-nil}
use forge_gate.Step.Classifier.{parse_trimmed, parse_date, seconds_until, parse_retry_after_header}

date_late : (d now : ℕ) → let s = (d - now + 999) / 1000 in (s ≡ 0) ⊎ (now + 1000 * s < d + 1000)
date_late d now = elim (dec_le d now) [ yes h ↦ inl (omega arith) | no h ↦ inr (omega arith) ]

module _ (date_parse : String → Option ℤ) (now : ℕ) where
  parse_trimmed-show : (n : ℕ) → parse_trimmed date_parse now (show n) ≡ some n
  unfolding parse_trimmed show_ℤ
  parse_trimmed-show n = rw (parse_int-show n, parse_trimmed) (rw (eq_refl (show n)))

  -- A number of seconds in decimal digits is read as that number, whatever the clock says.
  pub parse_retry_after_header-show :
      (n : ℕ) → parse_retry_after_header date_parse now (show n) ≡ some n
  unfolding parse_retry_after_header
  parse_retry_after_header-show n =
      rw (ne→test _ _ (show-ne-nil n)) (rw (trim-show n) (parse_trimmed-show n))

  -- A header that holds a date and no number: the wait ends at the date or less than a second
  -- after it, and there is no wait where the date has passed.
  pub parse_retry_after_header_date :
      (h : String) {d : ℕ}
      → h ≢ ""
      → parse_int (trim h) ≡ none
      → date_parse (trim h) ≡ some (pos d)
      → (s : ℕ) × (parse_retry_after_header date_parse now h ≡ some s)
        × (d ≤ now + 1000 * s)
        × ((s ≡ 0) ⊎ (now + 1000 * s < d + 1000))
  unfolding parse_retry_after_header seconds_until
  parse_retry_after_header_date h {d} full text date = (
    (d - now + 999) / 1000,
    rw (ne→test _ _ full) (rw (text, parse_trimmed) (rw (date, parse_date))),
    omega arith,
    date_late d now,
  )
