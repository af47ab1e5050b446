-- ===== src/Limits/Clocked.antt =====
-- A Redis in memory with a clock, by which keys end.
use forge_gate.Base.{
  ℕ, ◌+◌, ◌*◌, String, Bool, true, false, Option, none, some, ◌≡◌, refl, ltb, ◌=ₛ◌, if◌then◌else◌,
  eq_iff, Bool-cases, inl, inr,
}
use forge_gate.Base.Int.{ℤ, pos, ◌+ℤ◌, ◌-ℤ◌, int_laws}
use forge_gate.Limits.Redis.{Redis, Counts, Lasts, hit}

-- A number, and the millisecond at which its key ends.
pub record Held : Type 0 where
  pub number : ℤ
  pub until : Option ℕ

pub record Timed : Type 0 where
  pub clock : ℕ
  pub keys : String → Held

abbrev pub number_at : ℕ → ℤ → Option ℕ → ℤ
number_at clock n none = n
number_at clock n (some last) = if ltb clock last then n else pos 0

-- A key that has ended has no end any more.
abbrev pub until_at : ℕ → Option ℕ → Option ℕ
until_at clock none = none
until_at clock (some last) = if ltb clock last then some last else none

abbrev pub number_in : Timed → String → ℤ
number_in s k = number_at s.clock (s.keys k).number (s.keys k).until

abbrev pub write : String → ℤ → Option ℕ → Timed → Timed
write k n until s = record s {
  keys = λ k'. if k =ₛ k' then record { number = n; until = until } else s.keys k';
}

abbrev pub keep : String → ℤ → Timed → Timed
keep k n s = write k n (until_at s.clock (s.keys k).until) s

abbrev pub clocked : Redis
clocked = record {
  Store = Timed;
  incr = λ k s. (some (number_in s k +ℤ pos 1), keep k (number_in s k +ℤ pos 1) s);
  decr = λ k s. (some (number_in s k -ℤ pos 1), keep k (number_in s k -ℤ pos 1) s);
  expire = λ k n s. (some true, write k (number_in s k) (some (s.clock + n * 1000)) s);
  ttl = λ k s. (some (pos 60), s);
  set = λ k n s. (some "OK", write k (pos n) none s);
}

abbrev pub elapse : ℕ → Timed → Timed
elapse wait s = record s { clock = s.clock + wait }

number_at-until_at :
    (clock : ℕ) (n : ℤ) (until : Option ℕ) → number_at clock n (until_at clock until) ≡ n
number_at-until_at clock n none = refl
number_at-until_at clock n (some last) = elim (Bool-cases (ltb clock last)) [
  | inl before ↦ rw before (rw before refl)
  | inr after ↦ rw after refl
]

pub number_in-write :
    (k : String) (n : ℤ) (until : Option ℕ) (s : Timed) (k' : String)
    → number_in (write k n until s) k'
      ≡ (if k =ₛ k' then number_at s.clock n until else number_in s k')
number_in-write k n until s k' = elim (Bool-cases (k =ₛ k')) [
  | inl same ↦ rw same refl
  | inr other ↦ rw other refl
]

number_in-keep :
    (k : String) (n : ℤ) (s : Timed) (k' : String)
    → number_in (keep k n s) k' ≡ (if k =ₛ k' then n else number_in s k')
number_in-keep k n s k' =
    rw
      (
        number_in-write k n (until_at s.clock (s.keys k).until) s k',
        number_at-until_at s.clock n (s.keys k).until,
      )
      refl

pub incr_number :
    (k : String) (s : Timed) (k' : String)
    → number_in (keep k (number_in s k +ℤ pos 1) s) k' ≡ number_in s k' +ℤ pos (hit k k')
incr_number k s k' =
    rw (number_in-keep k (number_in s k +ℤ pos 1) s k') (elim (Bool-cases (k =ₛ k')) [
      | inl same ↦ rw same (rw ((eq_iff k k').0 same) refl)
      | inr other ↦ rw other (grind int_laws)
    ])

pub decr_number :
    (k : String) (s : Timed) (k' : String)
    → number_in (keep k (number_in s k -ℤ pos 1) s) k' ≡ number_in s k' -ℤ pos (hit k k')
decr_number k s k' =
    rw (number_in-keep k (number_in s k -ℤ pos 1) s k') (elim (Bool-cases (k =ₛ k')) [
      | inl same ↦ rw same (rw ((eq_iff k k').0 same) refl)
      | inr other ↦ rw other (grind int_laws)
    ])

abbrev pub clocked_counts : Counts clocked
clocked_counts = record {
  count = number_in;
  incr_reply = λ k s. refl;
  incr_count = λ k s k'. incr_number k s k';
  decr_reply = λ k s. refl;
  decr_count = λ k s k'. decr_number k s k';
  set_count = λ k n s k'. number_in-write k (pos n) none s k';
}

abbrev pub is_endless : Option ℕ → Bool
is_endless none = true
is_endless (some last) = false

pub number_of_endless :
    (clock later : ℕ) (n : ℤ) (until : Option ℕ)
    → is_endless until ≡ true
    → number_at later n until ≡ number_at clock n until
number_of_endless clock later n none endless = refl
number_of_endless clock later n (some last) endless = absurd (cc)

endless-until_at :
    (clock : ℕ) (until : Option ℕ)
    → is_endless until ≡ true
    → is_endless (until_at clock until) ≡ true
endless-until_at clock none endless = refl
endless-until_at clock (some last) endless = absurd (cc)

pub endless-keep :
    (k : String) (n : ℤ) (s : Timed) (k' : String)
    → is_endless (s.keys k').until ≡ true
    → is_endless ((keep k n s).keys k').until ≡ true
endless-keep k n s k' endless = elim (Bool-cases (k =ₛ k')) [
  | inl same ↦
      rw same (rw ((eq_iff k k').0 same) (endless-until_at s.clock (s.keys k').until endless))
  | inr other ↦ rw other endless
]

abbrev pub clocked_lasts : Lasts clocked clocked_counts elapse
clocked_lasts = record {
  is_lasting = λ s k. is_endless (s.keys k).until;
  elapse_lasting = λ n s k lasting. lasting;
  elapse_count = λ n s k lasting.
      number_of_endless s.clock (s.clock + n) (s.keys k).number (s.keys k).until lasting;
  incr_lasting = λ k s k' lasting. endless-keep k (number_in s k +ℤ pos 1) s k' lasting;
}
