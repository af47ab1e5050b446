-- ===== src/Idempotency/Keys.antt =====
-- A Redis in memory: its state is a function of its keys, with the millisecond at which each ends.
use forge_gate.Base.{
  ℕ, ◌+◌, ◌*◌, String, Bool, true, false, Option, none, some, ltb, ◌=ₛ◌, if◌then◌else◌, ◌≡◌, refl,
  Bool-cases, inl, inr,
}
use forge_gate.Idempotency.Redis.{Answer, answered, Commands}

abbrev pub Keys : Type 0
Keys = String → Option (String × ℕ)

-- What is left of a value at a time.
abbrev pub alive : ℕ → Option (String × ℕ) → Option String
alive now none = none
alive now (some (v, until)) = if ltb now until then some v else none

abbrev pub put : String → String → ℕ → Keys → Keys
put k v until s q = if k =ₛ q then some (v, until) else s q

abbrev pub put_new : Option String → String → String → ℕ → Keys → Answer Bool × Keys
put_new none k v until s = (answered true, put k v until s)
put_new (some held) k v until s = (answered false, s)

-- The commands at a reading of the clock.
abbrev pub server : ℕ → Commands Keys
server now = record {
  get = λ k s. answered (alive now (s k));
  set_ex = λ k v ttl s. (true, put k v (now + ttl * 1000) s);
  set_nx = λ k v ttl s. put_new (alive now (s k)) k v (now + ttl * 1000) s;
  del = λ k s q. if k =ₛ q then none else s q;
}

pub alive-put :
    (t : ℕ) (k v : String) (until : ℕ) (s : Keys) (q : String)
    → alive t (put k v until s q)
      ≡ (if k =ₛ q then if ltb t until then some v else none else alive t (s q))
alive-put t k v until s q = elim (Bool-cases (k =ₛ q)) [ inl h ↦ rw h refl | inr h ↦ rw h refl ]

pub alive-del :
    (t : ℕ) (k : String) (s : Keys) (q : String)
    → alive t (if k =ₛ q then none else s q) ≡ (if k =ₛ q then none else alive t (s q))
alive-del t k s q = elim (Bool-cases (k =ₛ q)) [ inl h ↦ rw h refl | inr h ↦ rw h refl ]
