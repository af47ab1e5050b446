-- ===== src/Limits/Concurrency/Ledger.antt =====
-- The numbers in Redis while slots are taken and given back.
use forge_gate.Base.{
  ℕ, ◌+◌, String, true, List, [], ◌∷◌, ◌++◌, ◌≡◌, refl, Option-cases, arith, Bool-cases, inl, inr,
  sym, ◌∙◌,
}
use mathlib.Core.List.{append_assoc, append-nil}
use forge_gate.Base.Int.{ℤ, pos, ◌+ℤ◌, ◌-ℤ◌, ◌≤ℤ◌, ltb_ℤ, int_laws}
use forge_gate.Limits.Redis.{Redis, Counts, Expires, hit, occurs}
use forge_gate.Limits.Concurrency.{
  ScopeToCheck, Taken, held, full, default_lease_ttl, decr_all, acquire_scopes,
}

pub +ℤ-zero : (a : ℤ) → a +ℤ pos 0 ≡ a
+ℤ-zero a = grind int_laws

pub add_back : (a b : ℤ) (n m : ℕ) → a +ℤ pos n ≡ b -ℤ pos m → a +ℤ pos (m + n) ≡ b
add_back a b n m h = grind int_laws

pub add_both : (a b : ℤ) (n m : ℕ) → a ≡ b +ℤ pos n → a +ℤ pos m ≡ b +ℤ pos (n + m)
add_both a b n m h = grind int_laws

pub take_off :
    (a b d : ℤ) (n m : ℕ) {l : ℕ}
    → a +ℤ pos l ≡ b
    → b ≡ d +ℤ pos m
    → l ≡ n + (m + 0)
    → a +ℤ pos n ≡ d
take_off a b d n m h g e = grind int_laws

pub was_full :
    (limit : ℕ) (n : ℤ) → ltb_ℤ (pos limit) (n +ℤ pos 1) ≡ true → pos limit ≤ℤ (n +ℤ pos 1) -ℤ pos 1
was_full limit n h = grind int_laws

pub occurs-append :
    (k : String) (xs ys : List String) → occurs k (xs ++ ys) ≡ occurs k xs + occurs k ys
occurs-append k [] ys = omega arith
occurs-append k (x ∷ xs) ys = omega (arith, occurs-append k xs ys)

module _ (r : Redis) (c : Counts r) where
  -- Giving back a list of keys takes each number down by how often its key is listed.
  pub decr_all-count :
      (keys : List String) (s : r.Store)
      → ((decr_all r keys s).0 ≡ true)
        × ((k : String) → c.count (decr_all r keys s).1 k +ℤ pos (occurs k keys) ≡ c.count s k)
  unfolding decr_all
  decr_all-count [] s = (refl, λ k. +ℤ-zero (c.count s k))
  decr_all-count (x ∷ xs) s =
      let after = (r.decr x s).1 in
      let (done, counts) = decr_all-count xs after in
      rw (c.decr_reply x s, decr_all)
        (done, λ k. add_back _ _ (occurs k xs) (hit x k) (counts k ∙ c.decr_count x s k))

abbrev pub keys_of : List ScopeToCheck → List String
keys_of [] = []
keys_of (item ∷ rest) = item.key ∷ keys_of rest

module _ (r : Redis) (c : Counts r) where
  -- What the loop owes for the scopes `items` when the keys `keys` were acquired before it: it has
  -- acquired all of them, or has given back these keys too.
  abbrev pub IsSettled : List ScopeToCheck → List String → r.Store → Taken × r.Store → Type 0
  IsSettled items keys s (held all, s') =
      (all ≡ keys ++ keys_of items)
      × ((k : String) → c.count s' k ≡ c.count s k +ℤ pos (occurs k (keys_of items)))
  IsSettled items keys s (full scope n limit, s') =
      (pos limit ≤ℤ n) × ((k : String) → c.count s' k +ℤ pos (occurs k keys) ≡ c.count s k)

  -- A scope that was acquired first is settled with the rest.
  settle :
      (item : ScopeToCheck) (items : List ScopeToCheck) (keys : List String) (s s1 : r.Store)
      (t : Taken × r.Store)
      → ((k : String) → c.count s1 k ≡ c.count s k +ℤ pos (hit item.key k))
      → IsSettled items (keys ++ (item.key ∷ [])) s1 t
      → IsSettled (item ∷ items) keys s t
  settle item items keys s s1 (held all, s') one (e, counts) = (
    e ∙ append_assoc keys (item.key ∷ []) (keys_of items),
    λ k. counts k ∙ add_both _ _ (hit item.key k) (occurs k (keys_of items)) (one k),
  )
  settle item items keys s s1 (full scope n limit, s') one (room, counts) = (
    room,
    λ k.
        take_off _ _ _ (occurs k keys) (hit item.key k) (counts k) (one k)
          (occurs-append k keys (item.key ∷ [])),
  )

  module _ (e : Expires r c) where
    pub after_both :
        (key : String) (s : r.Store) (k : String)
        → c.count (r.expire key default_lease_ttl (r.incr key s).1).1 k
          ≡ c.count s k +ℤ pos (hit key k)
    after_both key s k =
        e.expire_count key default_lease_ttl (r.incr key s).1 k (omega arith) ∙ c.incr_count key s k

    pub acquire_scopes-IsSettled :
        (items : List ScopeToCheck) (keys : List String) (s : r.Store)
        → IsSettled items keys s (acquire_scopes r items keys s)
    unfolding acquire_scopes
    acquire_scopes-IsSettled [] keys s = (sym (append-nil keys), λ k. sym (+ℤ-zero (c.count s k)))
    acquire_scopes-IsSettled (item ∷ items) keys s =
        let s1 = (r.incr item.key s).1 in
        let s2 = (r.expire item.key default_lease_ttl s1).1 in
        let count = c.count s item.key +ℤ pos 1 in
        elim (Option-cases (r.expire item.key default_lease_ttl s1).0) [
          | inl lost ↦ absurd (e.expire_reply item.key default_lease_ttl s1 lost)
          | inr (there, replied) ↦
              rw (c.incr_reply item.key s, acquire_scopes)
                (rw replied (elim (Bool-cases (ltb_ℤ (pos item.limit) count)) [
                  | inl over ↦ rw over (
                      let (done, back) = decr_all-count r c (item.key ∷ keys) s2 in
                      rw done (
                        was_full item.limit _ over,
                        λ k.
                            take_off _ _ _ (occurs k keys) (hit item.key k) (back k)
                              (after_both item.key s k) (omega arith),
                      ))
                  | inr room ↦ rw room (
                      settle item items keys s s2 _ (after_both item.key s)
                        (acquire_scopes-IsSettled items (keys ++ (item.key ∷ [])) s2))
                ]))
        ]
