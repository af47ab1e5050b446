-- ===== src/Step/Retry/Budget.antt =====
-- Retries end: each one uses up a unit of one of two budgets.
use forge_gate.Base.{
  ℕ, suc, ◌+◌, ◌-◌, ◌≤◌, ◌≡◌, true, arith, List, [], ◌∷◌, or_default, if◌then◌else◌,
}
use forge_gate.Step.Retry.{Thrown, RetryPolicyConfig, RetryDecision, calculate_retry_decision}

-- The failures of one execution: what was thrown, when, and the outcome of `Math.random()`.
pub record Failure : Type 0 where
  pub error : Thrown
  pub now : ℕ
  pub random : ℕ

module _ (created_at : ℕ) (config : RetryPolicyConfig) where
  abbrev pub decide : Failure → ℕ → ℕ → RetryDecision
  decide f attempt deferrals =
      calculate_retry_decision f.error attempt deferrals created_at config f.now f.random

  -- How often the job is scheduled again, if it fails in this way: the counters of each decision
  -- are those of the next.
  unfoldable pub retries : (attempt deferrals : ℕ) → List Failure → ℕ
  retries attempt deferrals [] = 0
  retries attempt deferrals (f ∷ fs) =
      let d = decide f attempt deferrals in
      let rest = retries d.new_normal_attempt_count d.new_rate_limit_deferrals_count fs in
      if d.should_retry then suc rest else 0

  abbrev pub budget : ℕ → ℕ → ℕ
  budget attempt deferrals =
      (or_default config.max_normal_retries 3 - attempt)
      + (or_default config.max_rate_limit_deferrals 5 - deferrals)

  -- Each retry counts one attempt or one deferral, within its limit; a refusal changes neither.
  pub decide_counts :
      (f : Failure) (attempt deferrals : ℕ)
      → let d = decide f attempt deferrals in
        (d.should_retry ≡ true
          → budget attempt deferrals
            ≡ suc (budget d.new_normal_attempt_count d.new_rate_limit_deferrals_count))
  unfolding calculate_retry_decision
  decide_counts f attempt deferrals h = ground arith

  -- However an execution goes on failing, it is scheduled again at most as often as the attempts
  -- and deferrals that are left allow.
  pub retries-le :
      (attempt deferrals : ℕ) (fs : List Failure)
      → retries attempt deferrals fs ≤ budget attempt deferrals
  unfolding retries
  retries-le attempt deferrals [] = omega arith
  retries-le attempt deferrals (f ∷ fs) =
      let d = decide f attempt deferrals in
      ground (
        arith,
        decide_counts f attempt deferrals,
        retries-le d.new_normal_attempt_count d.new_rate_limit_deferrals_count fs,
      )
