-- ===== src/Idempotency/Guarded.antt =====
-- The key of the lock of `processIdempotentOperation`, as long as a request has the lock. The key ends
-- 30 seconds after it was set, whether or not the operation has ended by then.
use forge_gate.Base.{
  Option, ℕ, ◌+◌, ◌*◌, ◌≤◌, ◌<◌, String, Bool, true, false, List, [], ◌∷◌, ◌++◌, All, count_of, ◌≡◌,
  refl, ◌⊎◌, inl, inr, arith, Bool-cases,
}
use forge_gate.Idempotency.{Done, gave, failed}
use forge_gate.Idempotency.Redis.{
  Answer, answered, refused, Commands, Read, found, nothing, broken, lock_key, is_released,
}
use forge_gate.Idempotency.Machine.{
  Phase, to_run, to_store, to_release, after_read, after_lock, after_run, after_look, Contender,
}

abbrev pub has_lock {ℓ} : {T : Type ℓ} → Phase T → Bool
has_lock to_run = true
has_lock (to_store t) = true
has_lock (to_release r) = true
has_lock _ = false

abbrev pub is_holder {ℓ} : {T : Type ℓ} → Contender T → Bool
is_holder p = has_lock p.phase

-- No request that has the lock asked for it 30 seconds ago or earlier, when the clock reads `now`.
abbrev pub IsPrompt {ℓ} : {T : Type ℓ} → ℕ → Contender T → Type 0
IsPrompt now p = is_holder p ≡ true → now < p.since + 30 * 1000

abbrev pub bit : Bool → ℕ
bit true = 1
bit false = 0

pub count_of-insert {ℓ} :
    {A : Type ℓ} (f : A → Bool) (ps : List A) (p : A) (qs : List A)
    → count_of f (ps ++ p ∷ qs) ≡ count_of f ps + count_of f qs + bit (f p)
count_of-insert f [] p qs = elim (Bool-cases (f p)) [
  | inl h ↦ rw h (omega arith)
  | inr h ↦ rw h (omega arith)
]
count_of-insert f (q ∷ ps) p qs =
    let rest = count_of-insert f ps p qs in
    elim (Bool-cases (f q)) [
      | inl h ↦ rw h (omega (arith, rest))
      | inr h ↦ rw h (omega (arith, rest))
    ]

pub All-split {ℓ κ} :
    {A : Type ℓ} (P : A → Type κ) (ps : List A) (p : A) (qs : List A)
    → All P (ps ++ p ∷ qs)
    → All P ps × P p × All P qs
All-split P [] p qs h = (tt, h.0, h.1)
All-split P (q ∷ ps) p qs h = let rest = All-split P ps p qs h.1 in ((h.0, rest.0), rest.1, rest.2)

All-insert {ℓ κ} :
    {A : Type ℓ} (P : A → Type κ) (ps : List A) (p : A) (qs : List A)
    → All P ps
    → P p
    → All P qs
    → All P (ps ++ p ∷ qs)
All-insert P [] p qs hs h rest = (h, rest)
All-insert P (q ∷ ps) p qs hs h rest = (hs.0, All-insert P ps p qs hs.1 h rest)

-- What Redis promises of the key of the lock, whether or not a command throws: only where the key is
-- not there does `NX` set it, it is then there for its time to live, and the record of the request
-- is under another key. `held t s` says whether a server in the state `s` has the key when the clock
-- reads `t`.
pub record Guards {Server : Type 0} (redis : ℕ → Commands Server) (key : String) : Type 0 where
  pub held : ℕ → Server → Bool
  pub set_nx_free :
      (now : ℕ) (v : String) (ttl : ℕ) (s : Server)
      → ((redis now).set_nx (lock_key key) v ttl s).0 ≡ answered true
      → held now s ≡ false
  pub set_nx_held :
      (now : ℕ) (v : String) (ttl : ℕ) (s : Server) (t : ℕ)
      → ((redis now).set_nx (lock_key key) v ttl s).0 ≡ answered true
      → t < now + ttl * 1000
      → held t ((redis now).set_nx (lock_key key) v ttl s).1 ≡ true
  pub set_nx_keeps :
      (now : ℕ) (v : String) (ttl : ℕ) (s : Server) (t : ℕ)
      → held t s ≡ true
      → held t ((redis now).set_nx (lock_key key) v ttl s).1 ≡ true
  pub set_ex_keeps :
      (now : ℕ) (v : String) (ttl : ℕ) (s : Server) (t : ℕ)
      → held t s ≡ true
      → held t ((redis now).set_ex key v ttl s).1 ≡ true

module _ {ℓ} {T : Type ℓ} where
  pub out_of_read :
      (read : Read T) (next : Phase T)
      → has_lock next ≡ false
      → has_lock (after_read read next) ≡ false
  unfolding after_read
  out_of_read (found t) next h = refl
  out_of_read broken next h = refl
  out_of_read nothing next h = h

  pub in_after_run : (d : Done T) → has_lock (after_run d) ≡ true
  unfolding after_run
  in_after_run (gave t) = refl
  in_after_run (failed e) = refl

pub out_of_look {ℓ} :
    (T : Type ℓ) (cached lock : Answer (Option String))
    → has_lock (after_look {T = T} cached lock) ≡ false
unfolding after_look
out_of_look T cached refused = refl
out_of_look T cached (answered lock) =
    elim (Bool-cases (is_released (record { cached = cached; lock = answered lock }))) [
      | inl out ↦ rw out refl
      | inr waits ↦ rw waits refl
    ]

module _ {Server : Type 0} {redis : ℕ → Commands Server} {key : String}
    (guards : Guards redis key) where
  -- The key stays wherever it is.
  abbrev pub Stays : Server → Server → Type 0
  Stays s s' = (t : ℕ) → guards.held t s ≡ true → guards.held t s' ≡ true

  module _ {ℓ} {T : Type ℓ} where
    -- For 30 seconds, the key is there for a request that has the lock.
    abbrev pub IsGuarded : Phase T → ℕ → Server → Type 0
    IsGuarded p since s =
        has_lock p ≡ true → (t : ℕ) → t < since + 30 * 1000 → guards.held t s ≡ true

    abbrev pub IsGuardedIn : Server → Contender T → Type 0
    IsGuardedIn s r = IsGuarded r.phase r.since s

    -- A turn that leads to the phase `p`, among others of which `n` have the lock.
    abbrev pub IsSafe : ℕ → Phase T → ℕ → Server → Server → Type 0
    IsSafe n p since s s' =
        (n + bit (has_lock p) ≤ 1) × IsGuarded p since s' × (Stays s s' ⊎ (n ≡ 0))

    pub idle-IsSafe :
        (n : ℕ) (p : Phase T) (since : ℕ) (s s' : Server)
        → has_lock p ≡ false
        → n ≤ 1
        → Stays s s'
        → IsSafe n p since s s'
    idle-IsSafe n p since s s' out few stays =
        (rw out (omega (arith, few)), (λ h. absurd (cc)), inl stays)

    pub holder-IsSafe :
        (n : ℕ) (p q : Phase T) (since : ℕ) (s s' : Server)
        → has_lock p ≡ true
        → has_lock q ≡ true
        → n + bit (has_lock p) ≤ 1
        → IsGuarded p since s
        → Stays s s'
        → IsSafe n q since s s'
    holder-IsSafe n p q since s s' has has' few guarded stays =
        (rw has' (rw has at few), λ h t soon. stays t (guarded has t soon), inl stays)

    -- Where the key is not there, no prompt request has the lock.
    pub none_of_free :
        (now : ℕ) (s : Server) (rs : List (Contender T))
        → guards.held now s ≡ false
        → All (IsGuardedIn s) rs
        → All (IsPrompt now) rs
        → count_of is_holder rs ≡ 0
    none_of_free now s [] free guarded prompt = refl
    none_of_free now s (r ∷ rs) free guarded prompt = elim (Bool-cases (is_holder r)) [
      | inl has ↦ let there = guarded.0 has now (prompt.0 has) in absurd (cc)
      | inr out ↦ rw out (none_of_free now s rs free guarded.1 prompt.1)
    ]

    stay_guarded :
        (s s' : Server) (rs : List (Contender T))
        → Stays s s'
        → All (IsGuardedIn s) rs
        → All (IsGuardedIn s') rs
    stay_guarded s s' [] stays guarded = tt
    stay_guarded s s' (r ∷ rs) stays guarded =
        (λ has t soon. stays t (guarded.0 has t soon), stay_guarded s s' rs stays guarded.1)

    pub none_guarded :
        (s : Server) (rs : List (Contender T)) → count_of is_holder rs ≡ 0 → All (IsGuardedIn s) rs
    none_guarded s [] none_has = tt
    none_guarded s (r ∷ rs) none_has = elim (Bool-cases (is_holder r)) [
      | inl has ↦ absurd (omega (arith, rw has at none_has))
      | inr out ↦ ((λ has. absurd (cc)), none_guarded s rs (rw out at none_has))
    ]

    others_guarded :
        (s s' : Server) (rs : List (Contender T)) (n : ℕ)
        → count_of is_holder rs ≤ n
        → Stays s s' ⊎ (n ≡ 0)
        → All (IsGuardedIn s) rs
        → All (IsGuardedIn s') rs
    others_guarded s s' rs n few (inl stays) guarded = stay_guarded s s' rs stays guarded
    others_guarded s s' rs n few (inr nobody) guarded =
        none_guarded s' rs (omega (arith, few, nobody))

    pub turn-IsExclusive :
        (ps qs : List (Contender T)) (p' : Contender T) (s s' : Server)
        → let n = count_of is_holder ps + count_of is_holder qs in
          IsSafe n p'.phase p'.since s s'
          → All (IsGuardedIn s) ps
          → All (IsGuardedIn s) qs
          → (count_of is_holder (ps ++ p' ∷ qs) ≤ 1) × All (IsGuardedIn s') (ps ++ p' ∷ qs)
    turn-IsExclusive ps qs p' s s' safe before behind = (
      rw (count_of-insert is_holder ps p' qs) safe.0,
      All-insert (IsGuardedIn s') ps p' qs (others_guarded s s' ps _ (omega arith) safe.2 before)
          safe.1 (others_guarded s s' qs _ (omega arith) safe.2 behind),
    )

  pub lock-IsSafe {ℓ} :
      (T : Type ℓ) (n now : ℕ) (answer : Answer Bool) (s s' : Server)
      → (answer ≡ answered true → guards.held now s ≡ false)
      → (answer ≡ answered true → (t : ℕ) → t < now + 30 * 1000 → guards.held t s' ≡ true)
      → Stays s s'
      → n ≤ 1
      → (guards.held now s ≡ false → n ≡ 0)
      → IsSafe n (after_lock {T = T} answer) now s s'
  unfolding after_lock
  lock-IsSafe T n now refused s s' free taken stays few none_of =
      idle-IsSafe n (after_lock {T = T} refused) now s s' refl few stays
  lock-IsSafe T n now (answered false) s s' free taken stays few none_of =
      idle-IsSafe n (after_lock {T = T} (answered false)) now s s' refl few stays
  lock-IsSafe T n now (answered true) s s' free taken stays few none_of =
      let zero_of = none_of (free refl) in
      (omega (arith, zero_of), (λ h t soon. taken refl t soon), inl stays)
