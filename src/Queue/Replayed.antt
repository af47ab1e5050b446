-- ===== src/Queue/Replayed.antt =====
-- A dead job is replayed at most once, by those who may, and what is refused changes nothing.
use forge_gate.Base.{
  any, find, update_row, String, Bool, true, false, not, Option, none, some, List, [], ◌∷◌, map,
  filter, ◌≡◌, refl, sym, ap, ◌∙◌, ◌⊎◌, ◌=ₛ◌, if◌then◌else◌, arith, Bool-cases, Option-cases, inl,
  inr, eq_iff,
}
use forge_gate.Engine.Database.{Prisma}
use forge_gate.Queue.{
  first_data, DeadJob, DeadLetter, Bull, Jobs, enqueue_workflow_execution, is_job_of, unfinished,
}
use forge_gate.Queue.Replay.{
  ReplayResult, replayed, not_found, cross_tenant, still_active, already_replayed, crosses,
  mark_replayed, replay_refusal, replay_job, replay_dlq_job,
}

-- The jobs that do not have a name.
abbrev pub without : String → List DeadJob → List DeadJob
without id js = filter (λ j. not (j.id =ₛ id)) js

find-without : (id : String) (js : List DeadJob) → find (λ j. j.id =ₛ id) (without id js) ≡ none
find-without id [] = refl
find-without id (j ∷ js) = elim (Bool-cases (j.id =ₛ id)) [
  | inl here ↦ rw here (find-without id js)
  | inr other ↦ rw other (rw other (find-without id js))
]

without-map :
    (id : String) (d : DeadLetter) (js : List DeadJob)
    → without id (map (update_row (λ j. j.id =ₛ id) (λ j. record j { letter = d })) js)
      ≡ without id js
without-map id d [] = refl
without-map id d (j ∷ js) = elim (Bool-cases (j.id =ₛ id)) [
  | inl here ↦ rw here (rw here (without-map id d js))
  | inr other ↦ rw other (rw other (rw (without-map id d js) refl))
]

pub find_id :
    (id : String) (js : List DeadJob) (j : DeadJob)
    → find (λ x. x.id =ₛ id) js ≡ some j
    → (j.id =ₛ id) ≡ true
find_id id [] j h = absurd (cc)
find_id id (x ∷ js) j h = elim (Bool-cases (x.id =ₛ id)) [
  | inl here ↦ first_id here
  | inr other ↦ find_id id js j (ground arith)
]
  where
    first_id : (x.id =ₛ id) ≡ true → (j.id =ₛ id) ≡ true
    first_id here = ground arith

abbrev pub is_replayed : ReplayResult → Bool
is_replayed (replayed job_id execution_id) = true
is_replayed _ = false

-- The three guards after each other.
guarded :
    (crossed there done : Bool)
    → let refusal : Option ReplayResult =
        if crossed
        then some cross_tenant
        else if there
        then some still_active
        else if done
        then some already_replayed
        else none in
      ((r : ReplayResult) × (refusal ≡ some r) × (is_replayed r ≡ false))
      ⊎ ((refusal ≡ none) × (crossed ≡ false) × (there ≡ false) × (done ≡ false))
guarded true there done = inl (_, refl, refl)
guarded false true done = inl (_, refl, refl)
guarded false false true = inl (_, refl, refl)
guarded false false false = inr (refl, refl, refl, refl)

module _ (b : Bull) (jobs : Jobs b) (p : Prisma) where
  -- The queues without the dead job, and with a new job of its execution and tenant that was not
  -- tried yet.
  abbrev pub IsReplayed : DeadJob → b.Queues → b.Queues → Type 0
  IsReplayed job q q' =
      let d = job.letter in
      (jobs.dead q' ≡ without job.id (jobs.dead q))
      × (jobs.live q' ≡ first_data d.execution_id d.tenant_id d.correlation_id ∷ jobs.live q)

  replay_job-IsReplayed :
      (job : DeadJob) (operator_id at : String) (db : p.Db) (q : b.Queues)
      → let out = replay_job b p job operator_id at (db, q) in
        (is_replayed out.0 ≡ true) × IsReplayed job q out.2
  unfolding replay_job enqueue_workflow_execution
  replay_job-IsReplayed job operator_id at db q =
      let letter = mark_replayed operator_id at job.letter in
      let marked = b.update_dead_data job.id letter q in
      let (live1, dead1) = jobs.update_dead_data_lem q job.id letter in
      let (live2, dead2) = jobs.remove_dead_lem marked job.id in
      let (live3, dead3) = jobs.add_lem (b.remove_dead job.id marked) _ 0 in
      (
        refl,
        (
          dead3 ∙ dead2 ∙ ap (without job.id) dead1 ∙ without-map job.id _ (jobs.dead q),
          live3
              ∙ ap
                  (λ ds.
                    first_data job.letter.execution_id job.letter.tenant_id
                      job.letter.correlation_id
                    ∷ ds)
                  (live2 ∙ live1),
        ),
      )

  -- When nothing is refused: the tenant may, the execution has no unfinished job, and the dead job
  -- was not replayed.
  abbrev pub IsReplayable : DeadJob → Option String → b.Queues → Type 0
  IsReplayable job tenant q =
      (crosses tenant job.letter.tenant_id ≡ false)
      × (any (λ d. d.execution_id =ₛ job.letter.execution_id) (jobs.live q) ≡ false)
      × (job.letter.replayed ≡ false)

  replay_refusal_cases :
      (job : DeadJob) (tenant : Option String) (q : b.Queues)
      → ((r : ReplayResult) × (replay_refusal b p job tenant q ≡ some r) × (is_replayed r ≡ false))
        ⊎ ((replay_refusal b p job tenant q ≡ none) × IsReplayable job tenant q)
  unfolding replay_refusal
  replay_refusal_cases job tenant q =
      elim (guarded (crosses tenant job.letter.tenant_id)
        (any (is_job_of job.letter.execution_id) (b.get_jobs unfinished q)) job.letter.replayed) [
          | inl refused ↦ inl refused
          | inr (clear, same, absent, fresh) ↦
              inr (clear, (same, sym (jobs.get_jobs_lem q job.letter.execution_id) ∙ absent, fresh))
        ]

  missing :
      (id operator_id : String) (tenant : Option String) (at : String) (db : p.Db) (q : b.Queues)
      → b.get_dead_job id q ≡ none
      → replay_dlq_job b p id operator_id tenant at (db, q) ≡ (not_found, db, q)
  unfolding replay_dlq_job
  missing id operator_id tenant at db q h = rw (h, replay_dlq_job) refl

  pub replay_dlq_job_outcome :
      (id operator_id : String) (tenant : Option String) (at : String) (db : p.Db) (q : b.Queues)
      → let out = replay_dlq_job b p id operator_id tenant at (db, q) in
        ((r : ReplayResult) × (out ≡ (r, db, q)) × (is_replayed r ≡ false))
        ⊎ ((job : DeadJob) × (find (λ j. j.id =ₛ id) (jobs.dead q) ≡ some job)
            × IsReplayable job tenant q
            × (out ≡ replay_job b p job operator_id at (db, q)))
  unfolding replay_dlq_job
  replay_dlq_job_outcome id operator_id tenant at db q = elim (Option-cases (b.get_dead_job id q)) [
    | inl absent ↦ inl (not_found, missing id operator_id tenant at db q absent, refl)
    | inr (job, found) ↦ elim (replay_refusal_cases job tenant q) [
      | inl (r, refused, is) ↦ inl (r, rw (found, replay_dlq_job) (rw refused refl), is)
      | inr (clear, may) ↦ inr (
        job,
        sym (jobs.get_dead_job_lem q id) ∙ found,
        may,
        rw (found, replay_dlq_job) (rw clear refl),
      )
    ]
  ]

  -- A replay is refused and changes nothing, or the job is the one of that name and may be replayed:
  -- then it is taken out of the dead-letter queue, and its execution is put into the other.
  pub replay_dlq_job_cases :
      (id operator_id : String) (tenant : Option String) (at : String) (db : p.Db) (q : b.Queues)
      → let out = replay_dlq_job b p id operator_id tenant at (db, q) in
        ((is_replayed out.0 ≡ false) × (out.1 ≡ db) × (out.2 ≡ q))
        ⊎ ((job : DeadJob) × (find (λ j. j.id =ₛ id) (jobs.dead q) ≡ some job)
            × IsReplayable job tenant q
            × (is_replayed out.0 ≡ true)
            × IsReplayed job q out.2)
  replay_dlq_job_cases id operator_id tenant at db q =
      elim (replay_dlq_job_outcome id operator_id tenant at db q) [
        | inl (r, is, refused) ↦
            inl (ap (λ o. is_replayed o.0) is ∙ refused, ap (λ o. o.1) is, ap (λ o. o.2) is)
        | inr (job, found, may, is) ↦
            let (done, put) = replay_job-IsReplayed job operator_id at db q in
            inr (
              job,
              found,
              may,
              ap (λ o. is_replayed o.0) is ∙ done,
              (ap (λ o. jobs.dead o.2) is ∙ put.0, ap (λ o. jobs.live o.2) is ∙ put.1),
            )
      ]

  -- A dead job that was replayed is not found again: whatever its database is by then, a second
  -- replay, by anyone, is refused and changes nothing.
  replay_dlq_job_twice :
      (id operator_id operator' : String) (tenant tenant' : Option String) (at at' : String)
      (db db' : p.Db) (q : b.Queues)
      → let out = replay_dlq_job b p id operator_id tenant at (db, q) in
        let again = replay_dlq_job b p id operator' tenant' at' (db', out.2) in
        is_replayed out.0 ≡ true → (again.0 ≡ not_found) × (again.1 ≡ db') × (again.2 ≡ out.2)
  replay_dlq_job_twice id operator_id operator' tenant tenant' at at' db db' q done =
      let q' = (replay_dlq_job b p id operator_id tenant at (db, q)).2 in
      elim (replay_dlq_job_cases id operator_id tenant at db q) [
        | inl (refused, _, _) ↦ absurd (cc)
        | inr (job, found, _, _, (dead, _)) ↦
            let same = (eq_iff job.id id).0 (find_id id (jobs.dead q) job found) in
            let refused = missing id operator' tenant' at' db' q' (
              jobs.get_dead_job_lem q' id
              ∙ ap (find (λ j. j.id =ₛ id)) (dead ∙ ap (λ n. without n (jobs.dead q)) same)
              ∙ find-without id (jobs.dead q)) in
            (ap (λ o. o.0) refused, ap (λ o. o.1) refused, ap (λ o. o.2) refused)
      ]
