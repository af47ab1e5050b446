-- ===== src/Limits/Redis.antt =====
-- The Redis client, which is not code of the repository: its commands are a parameter of the
-- limiters. A reply of `none` stands for a command that throws.
use forge_gate.Base.{
  ℕ, zero, ◌+◌, ◌<◌, String, Bool, true, Option, none, some, List, [], ◌∷◌, ◌≡◌, ◌≢◌, refl, eq_refl,
  ◌=ₛ◌, if◌then◌else◌,
}
use forge_gate.Base.Int.{ℤ, pos, ◌+ℤ◌, ◌-ℤ◌}

pub record Redis : Type 1 where
  pub Store : Type 0
  -- INCR and DECR give the new value.
  pub incr : String → Store → Option ℤ × Store
  pub decr : String → Store → Option ℤ × Store
  -- EXPIRE gives whether the key is there.
  pub expire : String → ℕ → Store → Option Bool × Store
  -- TTL is negative where the key is missing or does not expire.
  pub ttl : String → Store → Option ℤ × Store
  pub set : String → ℕ → Store → Option String × Store

-- 1 if the keys are the same, 0 if not.
abbrev pub hit : String → String → ℕ
hit k k' = if k =ₛ k' then 1 else 0

pub hit_self : (k : String) → hit k k ≡ 1
hit_self k = rw (eq_refl k) refl

-- How often a key stands in a list.
abbrev pub occurs : String → List String → ℕ
occurs k [] = zero
occurs k (x ∷ xs) = hit x k + occurs k xs

-- The documented effect of the commands on a server that answers: `count` is the number that a
-- key holds, 0 where it is missing. Keys end between calls, and none does between the commands of one.
pub record Counts (r : Redis) : Type 0 where
  pub count : r.Store → String → ℤ
  pub incr_reply : (k : String) (s : r.Store) → (r.incr k s).0 ≡ some (count s k +ℤ pos 1)
  pub incr_count :
      (k : String) (s : r.Store) (k' : String)
      → count (r.incr k s).1 k' ≡ count s k' +ℤ pos (hit k k')
  pub decr_reply : (k : String) (s : r.Store) → (r.decr k s).0 ≡ some (count s k -ℤ pos 1)
  pub decr_count :
      (k : String) (s : r.Store) (k' : String)
      → count (r.decr k s).1 k' ≡ count s k' -ℤ pos (hit k k')
  pub set_count :
      (k : String) (n : ℕ) (s : r.Store) (k' : String)
      → count (r.set k n s).1 k' ≡ (if k =ₛ k' then pos n else count s k')

-- EXPIRE answers and, with a time that is not 0, leaves the numbers as they are.
pub record Expires (r : Redis) (c : Counts r) : Type 0 where
  pub expire_reply : (k : String) (n : ℕ) (s : r.Store) → (r.expire k n s).0 ≢ none
  pub expire_count :
      (k : String) (n : ℕ) (s : r.Store) (k' : String)
      → 0 < n
      → c.count (r.expire k n s).1 k' ≡ c.count s k'

-- A key that has no time to live stays as it is while time goes by, and INCR gives it none. `elapse` is
-- what so many milliseconds without a command make of the store.
pub record Lasts (r : Redis) (c : Counts r) (elapse : ℕ → r.Store → r.Store) : Type 0 where
  pub is_lasting : r.Store → String → Bool
  pub elapse_lasting :
      (n : ℕ) (s : r.Store) (k : String) → is_lasting s k ≡ true → is_lasting (elapse n s) k ≡ true
  pub elapse_count :
      (n : ℕ) (s : r.Store) (k : String)
      → is_lasting s k ≡ true
      → c.count (elapse n s) k ≡ c.count s k
  pub incr_lasting :
      (k : String) (s : r.Store) (k' : String)
      → is_lasting s k' ≡ true
      → is_lasting (r.incr k s).1 k' ≡ true

-- TTL answers and leaves the numbers as they are.
pub record Ttls (r : Redis) (c : Counts r) : Type 0 where
  pub ttl_reply : (k : String) (s : r.Store) → (r.ttl k s).0 ≢ none
  pub ttl_count : (k : String) (s : r.Store) (k' : String) → c.count (r.ttl k s).1 k' ≡ c.count s k'
