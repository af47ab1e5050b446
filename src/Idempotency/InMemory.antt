-- ===== src/Idempotency/InMemory.antt =====
-- The store in memory against the contract: the operations on its records.
use forge_gate.Base.{
  ℕ, ◌+◌, ◌-◌, ◌≤◌, String, Bool, true, false, Option, none, some, List, [], ◌∷◌, All, ◌≡◌, refl,
  sym, ◌∙◌, ltb, ◌=ₛ◌, if◌then◌else◌, arith, eq_iff, eq_refl, Bool-cases, test_of_same, tests_apart,
  inl, inr,
}
use forge_gate.Idempotency.{
  RecordStatus, IdempotencyRecord, in_progress, completed, Entry, Done, gave, failed,
  default_ttl_ms, get, delete, set, clean_expired, finish, outcome_of,
}
use forge_gate.Idempotency.Contract.{remember}

abbrev pub result_in {ℓ} : {T : Type ℓ} → RecordStatus T → Option T
result_in in_progress = none
result_in (completed t) = t

abbrev pub result_of {ℓ} : {T : Type ℓ} → Option (IdempotencyRecord T) → Option T
result_of none = none
result_of (some r) = result_in r.status

abbrev pub is_pending {ℓ} : {T : Type ℓ} → RecordStatus T → Bool
is_pending in_progress = true
is_pending (completed t) = false

-- A record that is complete, and not older than the start of the run.
abbrev pub IsKept {ℓ} : {T : Type ℓ} → ℕ → Entry T → Type 0
IsKept start e = (start ≤ e.value.created_at) × (is_pending e.value.status ≡ false)

not_expired :
    (start now created : ℕ)
    → start ≤ created
    → now ≤ start + default_ttl_ms
    → ltb default_ttl_ms (now - created) ≡ false
not_expired start now created old soon = ground arith

module _ {ℓ} {T : Type ℓ} where
  -- The store holds what is promised, and nothing of it is in progress or expires.
  abbrev pub Keeps : ℕ → List (Entry T) → (String → Option T) → Type ℓ
  Keeps start es f = All (IsKept start) es × ((q : String) → result_of (get q es) ≡ f q)

  pub clean_expired-id :
      (start now : ℕ) (es : List (Entry T))
      → now ≤ start + default_ttl_ms
      → All (IsKept start) es
      → clean_expired now es ≡ es
  unfolding clean_expired
  clean_expired-id start now [] soon kept = refl
  clean_expired-id start now (e ∷ es) soon kept =
      rw
        (
          not_expired start now e.value.created_at kept.0.0 soon,
          clean_expired-id start now es soon kept.1,
        )
        refl

  delete-IsKept :
      (start : ℕ) (key : String) (es : List (Entry T))
      → All (IsKept start) es
      → All (IsKept start) (delete key es)
  unfolding delete
  delete-IsKept start key [] kept = kept
  delete-IsKept start key (e ∷ es) kept = elim (Bool-cases (e.key =ₛ key)) [
    | inl h ↦ rw h (delete-IsKept start key es kept.1)
    | inr h ↦ rw h (kept.0, delete-IsKept start key es kept.1)
  ]

  result_of-delete :
      (key q : String) (es : List (Entry T))
      → result_of (get q (delete key es)) ≡ (if key =ₛ q then none else result_of (get q es))
  unfolding get delete
  result_of-delete key q [] = elim (Bool-cases (key =ₛ q)) [ inl h ↦ rw h refl | inr h ↦ rw h refl ]
  result_of-delete key q (e ∷ es) = elim (Bool-cases (e.key =ₛ key)) [
    | inl h ↦
        rw (h, test_of_same e.key key q h)
          (elim (Bool-cases (key =ₛ q)) [
            | inl g ↦ rw g (rw g at (result_of-delete key q es))
            | inr g ↦ rw g (rw g at (result_of-delete key q es))
          ])
    | inr h ↦ elim (Bool-cases (e.key =ₛ q)) [
      | inl g ↦ rw (h, g) (rw (tests_apart e.key q key g h) refl)
      | inr g ↦ rw (h, g) (result_of-delete key q es)
    ]
  ]

  pending_of_some :
      (v r : IdempotencyRecord T)
      → some v ≡ some r
      → is_pending v.status ≡ false
      → is_pending r.status ≡ false
  pending_of_some v r h p = cc

  pub get-IsKept :
      (start : ℕ) (key : String) (es : List (Entry T)) (r : IdempotencyRecord T)
      → All (IsKept start) es
      → get key es ≡ some r
      → is_pending r.status ≡ false
  unfolding get
  get-IsKept start key [] r kept h = absurd (cc)
  get-IsKept start key (e ∷ es) r kept h = elim (Bool-cases (e.key =ₛ key)) [
    | inl g ↦ pending_of_some e.value r (rw g at h) kept.0.1
    | inr g ↦ get-IsKept start key es r kept.1 (rw g at h)
  ]

  -- Without a result under a key, it makes no difference whether the key is looked at.
  same_without :
      (f : String → Option T) (key q : String)
      → f key ≡ none
      → (if key =ₛ q then none else f q) ≡ f q
  same_without f key q new = elim (Bool-cases (key =ₛ q)) [
    | inl h ↦ rw h (sym new ∙ rw ((eq_iff key q).0 h) refl)
    | inr h ↦ rw h refl
  ]

  -- The mark of a key that has no result makes no difference when it is deleted.
  delete-Keeps :
      (start : ℕ) (key : String) (v : IdempotencyRecord T) (es : List (Entry T))
      (f : String → Option T)
      → f key ≡ none
      → Keeps start es f
      → Keeps start (delete key (set key v es)) f
  unfolding set delete
  delete-Keeps start key v es f new keeps = rw (eq_refl key) (
    delete-IsKept start key _ (delete-IsKept start key es keeps.0),
    λ q.
        result_of-delete key q (delete key es)
        ∙ rw
            (
              result_of-delete key q es,
              keeps.1 q,
              same_without f key q new,
              same_without f key q new,
            )
            refl,
  )

  result_of-push :
      (key q : String) (v : IdempotencyRecord T) (es : List (Entry T))
      → result_of (get q (record { key = key; value = v } ∷ es))
        ≡ (if key =ₛ q then result_of (some v) else result_of (get q es))
  unfolding get
  result_of-push key q v es = elim (Bool-cases (key =ₛ q)) [ inl h ↦ rw h refl | inr h ↦ rw h refl ]

  module _ {World : Type 0} where
    -- What the end of an operation leaves, as it was promised.
    pub finish-Keeps :
        (start now : ℕ) (key : String) (d : Done T) (w : World) (v : IdempotencyRecord T)
        (es : List (Entry T)) (f : String → Option T)
        → start ≤ now
        → f key ≡ none
        → Keeps start es f
        → let left = finish key now d w (set key v es) in
          (left.0 ≡ outcome_of (d, w))
          × (left.1.world ≡ w)
          × Keeps start left.1.store (remember key d f)
    unfolding finish outcome_of remember set
    finish-Keeps start now key (gave none) w v es f late new keeps =
        let rest = delete-Keeps start key v es f new keeps in
        (
          refl,
          refl,
          (
            ((late, refl), rest.0),
            λ q. result_of-push key q _ _ ∙ rw (rest.1 q, same_without f key q new) refl,
          ),
        )
    finish-Keeps start now key (gave (some t)) w v es f late new keeps =
        let rest = delete-Keeps start key v es f new keeps in
        (refl, refl, (((late, refl), rest.0), λ q. result_of-push key q _ _ ∙ rw (rest.1 q) refl))
    finish-Keeps start now key (failed e) w v es f late new keeps =
        (refl, refl, delete-Keeps start key v es f new keeps)
