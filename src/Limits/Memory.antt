-- ===== src/Limits/Memory.antt =====
-- A Redis in memory, which shows that the laws of Redis can hold.
use mathlib.Core.Option.{none-ne-some}
use forge_gate.Base.{String, Bool, true, none, some, refl, sym, ◌=ₛ◌, if◌then◌else◌}
use forge_gate.Base.Int.{ℤ, pos, ◌+ℤ◌, ◌-ℤ◌}
use forge_gate.Limits.Redis.{Redis, Counts, Expires, Ttls, hit}

-- Numbers by key. EXPIRE throws where `can_expire` is false.
abbrev pub memory : Bool → Redis
memory can_expire = record {
  Store = String → ℤ;
  incr = λ k s. (some (s k +ℤ pos 1), λ k'. s k' +ℤ pos (hit k k'));
  decr = λ k s. (some (s k -ℤ pos 1), λ k'. s k' -ℤ pos (hit k k'));
  expire = λ k n s. (if can_expire then some true else none, s);
  ttl = λ k s. (some (pos 60), s);
  set = λ k n s. (some "OK", λ k'. if k =ₛ k' then pos n else s k');
}

abbrev pub memory_counts : (can_expire : Bool) → Counts (memory can_expire)
memory_counts can_expire = record {
  count = λ s. s;
  incr_reply = λ k s. refl;
  incr_count = λ k s k'. refl;
  decr_reply = λ k s. refl;
  decr_count = λ k s k'. refl;
  set_count = λ k n s k'. refl;
}

abbrev pub memory_expires : Expires (memory true) (memory_counts true)
memory_expires = record {
  expire_reply = λ k n s h. none-ne-some _ (sym h);
  expire_count = λ k n s k' lasts. refl;
}

abbrev pub memory_ttls : Ttls (memory true) (memory_counts true)
memory_ttls = record { ttl_reply = λ k s h. none-ne-some _ (sym h); ttl_count = λ k s k'. refl }
