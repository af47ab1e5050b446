-- ===== src/Idempotency/Contract.antt =====
-- What the idempotency service promises: the results that it remembers, as a function of the key, and
-- what a call does to them. On Redis a result is remembered for a time, so that the results are a
-- function of the time too.
use forge_gate.Base.{ℕ, ◌+◌, ◌*◌, String, true, false, Option, none, some, ltb, ◌=ₛ◌, if◌then◌else◌}
use forge_gate.Js.Text.{or_text?, trim}
use forge_gate.Idempotency.{Outcome, returned, Done, gave, failed, storage_key, outcome_of}

-- The arguments of a call, and the clock when it is made.
pub record Call {ℓ} (T : Type ℓ) (World : Type 0) : Type ℓ where
  pub tenant_id : String
  pub operation_scope : String
  pub idempotency_key : Option String
  pub at : ℕ
  pub operation : World → Done T × World

pub record Promise {ℓ} (T : Type ℓ) (World : Type 0) : Type ℓ where
  pub results : String → Option T
  pub world : World

pub record TimedPromise {ℓ} (T : Type ℓ) (World : Type 0) : Type ℓ where
  pub results : ℕ → String → Option T
  pub world : World

-- What there is until a time, at a time.
abbrev pub until {ℓ} : {A : Type ℓ} → (last t : ℕ) → Option A → Option A
until last t o = if ltb t last then o else none

module _ {ℓ} {T : Type ℓ} where
  -- A result is remembered under its key; neither a missing one nor an error is.
  unfoldable pub remember : String → Done T → (String → Option T) → String → Option T
  remember key (gave (some t)) f q = if key =ₛ q then some t else f q
  remember key _ f q = f q

  -- What the operation gave is all that is remembered under the key, until the time is over; after
  -- an error the results stay.
  unfoldable pub remember_until :
      String → (last : ℕ) → Done T → (ℕ → String → Option T) → ℕ → String → Option T
  remember_until key last (gave d) f t q = if key =ₛ q then until last t d else f t q
  remember_until key last (failed e) f t q = f t q

  module _ {World : Type 0} where
    -- A result that is remembered is given again; otherwise the operation runs.
    unfoldable pub promise_of :
        String → (World → Done T × World) → Promise T World → Outcome T × Promise T World
    unfolding remember
    promise_of key operation a =
        let ran = operation a.world in
        elim (a.results key) [
          | some t ↦ (returned (some t), a)
          | none ↦
              (outcome_of ran, record { results = remember key ran.0 a.results; world = ran.1 })
        ]

    abbrev pub stated_key : Call T World → String
    stated_key c = or_text? c.idempotency_key ""

    abbrev pub key_of : Call T World → String
    key_of c = storage_key c.tenant_id c.operation_scope (stated_key c)

    -- Without a key, the operation runs each time.
    unfoldable pub promise_call : Call T World → Promise T World → Outcome T × Promise T World
    unfolding promise_of
    promise_call c a =
        let ran = c.operation a.world in
        elim (trim (stated_key c) =ₛ "") [
          | true ↦ (outcome_of ran, record a { world = ran.1 })
          | false ↦ promise_of (key_of c) c.operation a
        ]

    -- A result that is remembered at the time of the call is given again; otherwise the operation
    -- runs, and its result is remembered for so many seconds.
    unfoldable pub timed_promise_of :
        String
        → (ttl_seconds now : ℕ) → (World → Done T × World)
        → TimedPromise T World
        → Outcome T × TimedPromise T World
    unfolding remember_until
    timed_promise_of key ttl_seconds now operation a =
        let ran = operation a.world in
        elim (a.results now key) [
          | some t ↦ (returned (some t), a)
          | none ↦ (
            outcome_of ran,
            record {
              results = remember_until key (now + ttl_seconds * 1000) ran.0 a.results;
              world = ran.1;
            },
          )
        ]

    unfoldable pub timed_promise_call :
        (ttl_seconds : ℕ) → Call T World → TimedPromise T World → Outcome T × TimedPromise T World
    unfolding timed_promise_of
    timed_promise_call ttl_seconds c a =
        let ran = c.operation a.world in
        elim (trim (stated_key c) =ₛ "") [
          | true ↦ (outcome_of ran, record a { world = ran.1 })
          | false ↦ timed_promise_of (key_of c) ttl_seconds c.at c.operation a
        ]
