-- ===== src/Queue/Reopened.antt =====
-- The execution of a dead job that is replayed can be run again.
use forge_gate.Base.{
  any, find, update_row, String, Bool, true, Option, some, or_default, List, [], ◌∷◌, map, ◌≡◌,
  refl, sym, ap, ◌∙◌, ◌=ₛ◌, arith, Bool-cases, inl, inr,
}
use forge_gate.Engine.{claimable}
use forge_gate.Engine.Database.{Loaded, Prisma, Tables}
use forge_gate.Engine.Recovery.{reopen, log_replay_event}
use forge_gate.Queue.{DeadJob, Bull, Jobs}
use forge_gate.Queue.Replay.{replay_job, replay_dlq_job}
use forge_gate.Queue.Replayed.{is_replayed, replay_dlq_job_outcome}

any_updated :
    {A : Type 0} (test q : A → Bool) (f : A → A) (xs : List A)
    → ((x : A) → q x ≡ true → test (f x) ≡ true)
    → any q xs ≡ true
    → any test (map (update_row q f) xs) ≡ true
any_updated test q f [] ok h = absurd (cc)
any_updated test q f (x ∷ xs) ok h = elim (Bool-cases (q x)) [
  | inl here ↦ let good = ok x here in rw here (rw good refl)
  | inr other ↦ let there = any_updated test q f xs ok (ground arith) in rw other (ground arith)
]

module _ (p : Prisma) (t : Tables p) where
  log_replay_event-claimable :
      (id tenant_id operator_id : String) (job_id : Option String) (at : String) (db : p.Db)
      (loaded : Loaded)
      → p.find_execution id tenant_id db ≡ some loaded
      → any (λ e. e.id =ₛ id) (t.executions db) ≡ true
      → any (claimable id) (t.executions (log_replay_event p id tenant_id operator_id job_id at db))
        ≡ true
  unfolding log_replay_event reopen
  log_replay_event-claimable id tenant_id operator_id job_id at db loaded found there =
      rw (found, log_replay_event)
        (ap (any (claimable id)) ((t.create_log_lem _ _).0 ∙ (t.update_executions_lem _ _ _).1)
          ∙ any_updated (claimable id) (λ e. e.id =ₛ id) _ (t.executions db)
              (λ e mine. rw mine refl) there)

module _ (b : Bull) (jobs : Jobs b) (p : Prisma) (t : Tables p) where
  -- If a replay is not refused, and the execution of the job is there, then it can be claimed
  -- afterwards.
  pub replay_dlq_job-claimable :
      (id operator_id : String) (tenant : Option String) (at : String) (db : p.Db) (q : b.Queues)
      (job : DeadJob) (loaded : Loaded)
      → find (λ j. j.id =ₛ id) (jobs.dead q) ≡ some job
      → p.find_execution job.letter.execution_id job.letter.tenant_id db ≡ some loaded
      → any (λ e. e.id =ₛ job.letter.execution_id) (t.executions db) ≡ true
      → is_replayed (replay_dlq_job b p id operator_id tenant at (db, q)).0 ≡ true
      → any
          (claimable job.letter.execution_id)
          (t.executions (replay_dlq_job b p id operator_id tenant at (db, q)).1)
        ≡ true
  unfolding replay_job
  replay_dlq_job-claimable id operator_id tenant at db q job loaded found known there done =
      elim (replay_dlq_job_outcome b jobs p id operator_id tenant at db q) [
        | inl (r, is, refused) ↦
            let not_done = ap (λ o. is_replayed o.0) is ∙ refused in absurd (cc)
        | inr (job', found', _, is) ↦
            let d = job.letter in
            ap (λ o. any (claimable d.execution_id) (t.executions o.1)) is
            ∙ ap
                (λ j.
                  any (claimable d.execution_id)
                    (t.executions (replay_job b p j operator_id at (db, q)).1))
                (ap (λ o. or_default o job) (sym found' ∙ found))
            ∙ ap (any (claimable d.execution_id)) (t.create_audit_lem _ _).0
            ∙ log_replay_event-claimable p t d.execution_id d.tenant_id operator_id (some job.id) at
                db loaded known there
      ]
