-- ===== src/Queue/Tenants.antt =====
-- Who is not an administrator cannot touch the dead jobs or the queued jobs of another tenant.
use forge_gate.Base.{
  any, ◌&&◌, not, count_of, find, ◌≤◌, String, true, false, some, List, [], ◌∷◌, filter, ◌≡◌, refl,
  ap, ◌∙◌, ◌=ₛ◌, arith, Bool-cases, inl, inr, eq_iff,
}
use forge_gate.Base.Rows.{filter-removed, only_row}
use forge_gate.Auth.Policy.{UserContext}
use forge_gate.Engine.Database.{Prisma}
use forge_gate.Queue.{first_data, JobData, DeadLetter, DeadJob, Bull, Jobs}
use forge_gate.Queue.Replay.{crosses, replay_dlq_job, tenant_filter, retry_dlq_job}
use forge_gate.Queue.Replayed.{without, replay_dlq_job_cases, find_id}

-- The dead jobs and the queued jobs of other tenants.
abbrev pub dead_of_others : String → List DeadJob → List DeadJob
dead_of_others tenant_id js = filter (λ j. not (j.letter.tenant_id =ₛ tenant_id)) js

abbrev pub live_of_others : String → List JobData → List JobData
live_of_others tenant_id ds = filter (λ d. not (d.tenant_id =ₛ tenant_id)) ds

-- The dead job of a name, where it is one of a tenant's, is one of the rows of that tenant.
found_own :
    (id tenant_id : String) (js : List DeadJob) (job : DeadJob)
    → find (λ j. j.id =ₛ id) js ≡ some job
    → (job.letter.tenant_id =ₛ tenant_id) ≡ true
    → any (λ j. j.id =ₛ id && not (not (j.letter.tenant_id =ₛ tenant_id))) js ≡ true
found_own id tenant_id [] job found own = absurd (cc)
found_own id tenant_id (j ∷ js) job found own = elim (Bool-cases (j.id =ₛ id)) [
  | inl here ↦ let mine = own_first here in ground arith
  | inr other ↦ let there = found_own id tenant_id js job (ground arith) own in ground arith
]
  where
    own_first : (j.id =ₛ id) ≡ true → (j.letter.tenant_id =ₛ tenant_id) ≡ true
    own_first here = ground arith

dead_of_others-without :
    (id tenant_id : String) (js : List DeadJob) (job : DeadJob)
    → find (λ j. j.id =ₛ id) js ≡ some job
    → (job.letter.tenant_id =ₛ tenant_id) ≡ true
    → count_of (λ j. j.id =ₛ id) js ≤ 1
    → dead_of_others tenant_id (without id js) ≡ dead_of_others tenant_id js
dead_of_others-without id tenant_id js job found own single =
    filter-removed _ (λ j. j.id =ₛ id) js
      (only_row (λ j. not (j.letter.tenant_id =ₛ tenant_id)) (λ j. j.id =ₛ id) js single
        (found_own id tenant_id js job found own))

crosses_own :
    (tenant_id owner : String)
    → (tenant_id =ₛ "") ≡ false
    → crosses (some tenant_id) owner ≡ false
    → (owner =ₛ tenant_id) ≡ true
unfolding crosses
crosses_own tenant_id owner there clear = ground arith

own_job :
    (tenant_id : String) (d : DeadLetter) (ds : List JobData)
    → (d.tenant_id =ₛ tenant_id) ≡ true
    → live_of_others tenant_id (first_data d.execution_id d.tenant_id d.correlation_id ∷ ds)
      ≡ live_of_others tenant_id ds
own_job tenant_id d ds own = rw own refl

module _ (b : Bull) (jobs : Jobs b) (p : Prisma) where
  others_untouched :
      (id operator_id tenant_id at : String) (db : p.Db) (q : b.Queues)
      → (tenant_id =ₛ "") ≡ false
      → count_of (λ j. j.id =ₛ id) (jobs.dead q) ≤ 1
      → let after = (replay_dlq_job b p id operator_id (some tenant_id) at (db, q)).2 in
        (dead_of_others tenant_id (jobs.dead after) ≡ dead_of_others tenant_id (jobs.dead q))
        × (live_of_others tenant_id (jobs.live after) ≡ live_of_others tenant_id (jobs.live q))
  others_untouched id operator_id tenant_id at db q there single =
      elim (replay_dlq_job_cases b jobs p id operator_id (some tenant_id) at db q) [
        | inl (refused, _, same) ↦ (
          ap (λ x. dead_of_others tenant_id (jobs.dead x)) same,
          ap (λ x. live_of_others tenant_id (jobs.live x)) same,
        )
        | inr (job, found, (clear, _, _), _, (dead, live)) ↦
            let own = crosses_own tenant_id job.letter.tenant_id there clear in
            let id_same = (eq_iff job.id id).0 (find_id id (jobs.dead q) job found) in
            (
              ap (dead_of_others tenant_id) (dead ∙ ap (λ n. without n (jobs.dead q)) id_same)
                  ∙ dead_of_others-without id tenant_id (jobs.dead q) job found own single,
              ap (live_of_others tenant_id) live ∙ own_job tenant_id job.letter (jobs.live q) own,
            )
      ]

  -- A user with a tenant and another role than that of an administrator can retry no dead job of
  -- another tenant, nor put a job for another tenant into the queue, where a name belongs to one dead
  -- job at most.
  pub retry_dlq_job-others :
      (user : UserContext) (id at : String) (db : p.Db) (q : b.Queues)
      → (user.role =ₛ "admin") ≡ false
      → (user.tenant_id =ₛ "") ≡ false
      → count_of (λ j. j.id =ₛ id) (jobs.dead q) ≤ 1
      → let after = (retry_dlq_job b p (some user) id at (db, q)).2 in
        (dead_of_others user.tenant_id (jobs.dead after)
          ≡ dead_of_others user.tenant_id (jobs.dead q))
        × (live_of_others user.tenant_id (jobs.live after)
            ≡ live_of_others user.tenant_id (jobs.live q))
  unfolding retry_dlq_job tenant_filter
  retry_dlq_job-others user id at db q ordinary there single =
      rw ordinary (others_untouched id _ user.tenant_id at db q there single)
