-- ===== src/Queue/Settled.antt =====
-- An execution that goes on failing ends in the dead-letter queue.
use forge_gate.Base.{
  any, ℕ, suc, ◌+◌, ◌-◌, ◌≤◌, ◌<◌, String, Bool, true, false, Option, none, some, or_default, List,
  [], ◌∷◌, ◌++◌, ◌≡◌, refl, ap, ◌∙◌, length, arith, Bool-cases, inl, inr,
}
use forge_gate.Step.Retry.{Thrown, RetryDecision, no_config}
use forge_gate.Step.Retry.Budget.{decide_counts}
use forge_gate.Engine.{claimable}
use forge_gate.Engine.Database.{Prisma, Tables}
use forge_gate.Engine.Failed.{mark_as_failed-claimable}
use forge_gate.Queue.{JobData, Job, DeadJob, Bull, Jobs}
use forge_gate.Queue.Worker.{
  decision_of, retry_data, dead_letter_of, handle_decision, on_failed, created_at_of,
}

module _ (b : Bull) (jobs : Jobs b) (p : Prisma) (t : Tables p) where
  -- A failure: what is thrown, the moment, the outcome of `Math.random()`, and the database as it
  -- is then, whatever happened to it before.
  pub record JobFailure : Type 0 where
    pub job_id : String
    pub error : Thrown
    pub now : ℕ
    pub random : ℕ
    pub iso : String
    pub db : p.Db

  job_of : JobFailure → JobData → Job
  job_of f d = record { id = f.job_id; job_data = d; attempts_made = 0; failed_reason = none }

  -- A job that fails again and again, each time with the counters that the handler gave it: the
  -- database and the queues once the job is dead, or the queues while it is not.
  pub follow : List JobFailure → JobData → b.Queues → Option p.Db × b.Queues
  follow [] d q = (none, q)
  follow (f ∷ fs) d q =
      let job = job_of f d in
      let decision = decision_of b p job f.error f.now f.random f.db in
      let after = on_failed b p job f.error f.now f.random f.iso (f.db, q) in
      elim decision.should_retry [
        | true ↦ follow fs (retry_data d decision) after.1
        | false ↦ (some after.0, after.1)
      ]

  -- How often a job can still be tried again.
  abbrev pub tries_left : JobData → ℕ
  tries_left d = (3 - or_default d.normal_attempts 1) + (5 - or_default d.rate_limit_deferrals 0)

  retry_uses_one :
      (f : JobFailure) (d : JobData)
      → let decision = decision_of b p (job_of f d) f.error f.now f.random f.db in
        decision.should_retry ≡ true → tries_left d ≡ suc (tries_left (retry_data d decision))
  unfolding decision_of retry_data job_of
  retry_uses_one f d h =
      decide_counts (created_at_of (p.find_by_id d.execution_id f.db) f.now) no_config
        (record { error = f.error; now = f.now; random = f.random })
        (or_default d.normal_attempts 1) (or_default d.rate_limit_deferrals 0) h

  -- What is so of an execution once its job is dead.
  abbrev pub IsSettled : JobData → b.Queues → Option p.Db × b.Queues → Type 0
  IsSettled d q (none, after) = ⊥
  IsSettled d q (some db, after) =
      (any (claimable d.execution_id) (t.executions db) ≡ false)
      × ((j : DeadJob) × (jobs.dead after ≡ jobs.dead q ++ (j ∷ []))
          × (j.letter.execution_id ≡ d.execution_id)
          × (j.letter.tenant_id ≡ d.tenant_id)
          × (j.letter.replayed ≡ false))
      × (length (jobs.live after) ≤ tries_left d + length (jobs.live q))

  IsSettled-retry :
      (d d' : JobData) (q q' : b.Queues) (out : Option p.Db × b.Queues)
      → d'.execution_id ≡ d.execution_id
      → d'.tenant_id ≡ d.tenant_id
      → jobs.dead q' ≡ jobs.dead q
      → tries_left d' + length (jobs.live q') ≤ tries_left d + length (jobs.live q)
      → IsSettled d' q' out
      → IsSettled d q out
  IsSettled-retry d d' q q' (none, after) id tenant dead fewer h = h
  IsSettled-retry d d' q q' (some db, after) id tenant dead fewer (closed, (j, a, e, f, g), l) =
      (rw⁻¹ id closed, (j, a ∙ ap (λ x. x ++ (j ∷ [])) dead, e ∙ id, f ∙ tenant, g), omega arith)

  same_execution :
      (d : JobData) (r : RetryDecision) → (retry_data d r).execution_id ≡ d.execution_id
  unfolding retry_data
  same_execution d r = refl

  same_tenant : (d : JobData) (r : RetryDecision) → (retry_data d r).tenant_id ≡ d.tenant_id
  unfolding retry_data
  same_tenant d r = refl

  added :
      (again : Bool) (r : RetryDecision) (f : JobFailure) (d : JobData) (q : b.Queues)
      → again ≡ true
      → let after = (handle_decision b p again r (job_of f d) f.error f.now f.iso (f.db, q)).1 in
        (jobs.live after ≡ retry_data d r ∷ jobs.live q) × (jobs.dead after ≡ jobs.dead q)
  unfolding handle_decision job_of
  added true r f d q h = jobs.add_lem q _ _
  added false r f d q h = absurd (cc)

  letter_fields :
      (job : Job) (err : Thrown) (r : RetryDecision) (iso : String) (db : p.Db)
      → let letter = dead_letter_of b p job err r iso db in
        (letter.execution_id ≡ job.job_data.execution_id)
        × (letter.tenant_id ≡ job.job_data.tenant_id)
        × (letter.replayed ≡ false)
  unfolding dead_letter_of
  letter_fields job err r iso db = (refl, refl, refl)

  buried :
      (again : Bool) (r : RetryDecision) (f : JobFailure) (d : JobData) (q : b.Queues)
      → again ≡ false
      → let after = handle_decision b p again r (job_of f d) f.error f.now f.iso (f.db, q) in
        IsSettled d q (some after.0, after.1)
  unfolding handle_decision job_of
  buried true r f d q h = absurd (cc)
  buried false r f d q h =
      let (live, (j, is, dead)) =
        jobs.add_dead_lem q (dead_letter_of b p (job_of f d) f.error r f.iso f.db) in
      let (id, tenant, fresh) = letter_fields (job_of f d) f.error r f.iso f.db in
      (
        mark_as_failed-claimable p t d.execution_id _ f.now f.db,
        (
          j,
          dead,
          ap (λ l. l.execution_id) is ∙ id,
          ap (λ l. l.tenant_id) is ∙ tenant,
          ap (λ l. l.replayed) is ∙ fresh,
        ),
        omega (arith, ap length live),
      )

  retried :
      (f : JobFailure) (d : JobData) (q : b.Queues)
      → let r = decision_of b p (job_of f d) f.error f.now f.random f.db in
        let after = (on_failed b p (job_of f d) f.error f.now f.random f.iso (f.db, q)).1 in
        r.should_retry ≡ true
        → (jobs.live after ≡ retry_data d r ∷ jobs.live q) × (jobs.dead after ≡ jobs.dead q)
  unfolding on_failed
  retried f d q h = added _ _ f d q h

  IsSettled-now :
      (f : JobFailure) (d : JobData) (q : b.Queues)
      → let r = decision_of b p (job_of f d) f.error f.now f.random f.db in
        let after = on_failed b p (job_of f d) f.error f.now f.random f.iso (f.db, q) in
        r.should_retry ≡ false → IsSettled d q (some after.0, after.1)
  unfolding on_failed
  IsSettled-now f d q h = buried _ _ f d q h

  -- A job that fails more often than it can be tried again is put into the dead-letter queue once,
  -- with its execution and tenant and not replayed, after at most so many retries, and then no
  -- row of its execution can be claimed any more.
  pub follow_settles :
      (fs : List JobFailure) (d : JobData) (q : b.Queues)
      → tries_left d < length fs
      → IsSettled d q (follow fs d q)
  unfolding follow
  follow_settles [] d q h = absurd (omega arith)
  follow_settles (f ∷ fs) d q h =
      let r = decision_of b p (job_of f d) f.error f.now f.random f.db in
      elim (Bool-cases r.should_retry) [
        | inr dead ↦ rw (dead, follow) (IsSettled-now f d q dead)
        | inl again ↦
            let uses = retry_uses_one f d again in
            let (live, same) = retried f d q again in
            let q' = (on_failed b p (job_of f d) f.error f.now f.random f.iso (f.db, q)).1 in
            let d' = retry_data d r in
            rw (again, follow)
              (IsSettled-retry d d' q q' (follow fs d' q') (same_execution d r) (same_tenant d r)
                same (omega (arith, ap length live, uses))
                (follow_settles fs d' q' (omega (arith, uses))))
      ]
