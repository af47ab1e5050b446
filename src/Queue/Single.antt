-- ===== src/Queue/Single.antt =====
-- Recovery keeps at most one unfinished job of an execution, and leaves none of the executions that
-- it found without a job.
use forge_gate.Base.{
  any, count_of, ℕ, suc, ◌≤◌, String, Bool, true, false, Option, none, List, [], ◌∷◌, ◌≡◌, refl,
  sym, ap, ◌∙◌, ◌=ₛ◌, if◌then◌else◌, All, arith, Bool-cases, inl, inr, eq_refl, eq_iff,
}
use forge_gate.Engine.Database.{Prisma}
use forge_gate.Engine.Recovery.{Recovered, find_and_mark_stale}
use forge_gate.Queue.{
  JobData, Bull, Jobs, unfinished, is_job_of, enqueue_workflow_execution, reenqueue,
  recover_stale_executions,
}

-- How many of the jobs are jobs of an execution.
abbrev pub jobs_of : String → List JobData → ℕ
jobs_of id ds = count_of (λ d. d.execution_id =ₛ id) ds

-- No execution has two unfinished jobs.
abbrev pub IsSingle : List JobData → Type 0
IsSingle ds = (id : String) → jobs_of id ds ≤ 1

module _ {ℓ} {A : Type ℓ} where
  count_of_none : (test : A → Bool) (xs : List A) → any test xs ≡ false → count_of test xs ≡ 0
  count_of_none test [] h = refl
  count_of_none test (x ∷ xs) h = elim (Bool-cases (test x)) [
    | inl here ↦ absurd (ground arith)
    | inr absent ↦ rw absent (count_of_none test xs (ground arith))
  ]

  count_of-any : (test : A → Bool) (xs : List A) → any test xs ≡ true → 1 ≤ count_of test xs
  count_of-any test [] h = absurd (cc)
  count_of-any test (x ∷ xs) h = elim (Bool-cases (test x)) [
    | inl here ↦ rw here (omega arith)
    | inr absent ↦ rw absent (count_of-any test xs (ground arith))
  ]

module _ (b : Bull) (jobs : Jobs b) where
  enqueued :
      (id tenant_id : String) (c : Option String) (q : b.Queues) (other : String)
      → let after = (enqueue_workflow_execution b id tenant_id c q).1 in
        jobs_of other (jobs.live after)
        ≡ (if id =ₛ other then suc (jobs_of other (jobs.live q)) else jobs_of other (jobs.live q))
  unfolding enqueue_workflow_execution
  enqueued id tenant_id c q other = ap (jobs_of other) (jobs.add_lem q _ 0).0

  -- After `items` were recovered: no execution has two jobs, none lost one, and each of the items has
  -- one.
  abbrev pub IsRecovered : List Recovered → List JobData → List JobData → Type 0
  IsRecovered items before after =
      IsSingle after
      × ((id : String) → jobs_of id before ≤ jobs_of id after)
      × All (λ i. jobs_of i.execution_id after ≡ 1) items

  IsRecovered-of_eq :
      (items : List Recovered) (before after after' : List JobData)
      → after' ≡ after
      → IsRecovered items before after
      → IsRecovered items before after'
  IsRecovered-of_eq items before after after' e h = rw e h

  IsRecovered-cons :
      (i : Recovered) (items : List Recovered) (before ds after : List JobData)
      → 1 ≤ jobs_of i.execution_id ds
      → ((id : String) → jobs_of id before ≤ jobs_of id ds)
      → IsRecovered items ds after
      → IsRecovered (i ∷ items) before after
  IsRecovered-cons i items before ds after there grown (single, kept, each) = (
    single,
    λ id. omega (arith, grown id, kept id),
    (omega (arith, single i.execution_id, kept i.execution_id), each),
  )

  enqueued-IsSingle :
      (id tenant_id : String) (c : Option String) (q : b.Queues)
      → jobs_of id (jobs.live q) ≡ 0
      → IsSingle (jobs.live q)
      → IsSingle (jobs.live (enqueue_workflow_execution b id tenant_id c q).1)
  enqueued-IsSingle id tenant_id c q absent single other = ground (
    arith,
    enqueued id tenant_id c q other,
    single other,
    absent,
    eq_iff id other,
    ap (λ x. jobs_of x (jobs.live q)) {x = id} {y = other},
  )

  enqueued_grows :
      (id tenant_id : String) (c : Option String) (q : b.Queues) (other : String)
      → jobs_of other (jobs.live q)
        ≤ jobs_of other (jobs.live (enqueue_workflow_execution b id tenant_id c q).1)
  enqueued_grows id tenant_id c q other = ground (arith, enqueued id tenant_id c q other)

  reenqueue_there :
      (i : Recovered) (items : List Recovered) (q : b.Queues)
      → any (is_job_of i.execution_id) (b.get_jobs unfinished q) ≡ true
      → (reenqueue b (i ∷ items) q).1 ≡ (reenqueue b items q).1
  unfolding reenqueue
  reenqueue_there i items q there = rw (there, reenqueue) refl

  reenqueue_absent :
      (i : Recovered) (items : List Recovered) (q : b.Queues)
      → any (is_job_of i.execution_id) (b.get_jobs unfinished q) ≡ false
      → (reenqueue b (i ∷ items) q).1
        ≡ (reenqueue b items (enqueue_workflow_execution b i.execution_id i.tenant_id none q).1).1
  unfolding reenqueue
  reenqueue_absent i items q absent = rw (absent, reenqueue) refl

  reenqueue-nil : (q : b.Queues) → (reenqueue b [] q).1 ≡ q
  unfolding reenqueue
  reenqueue-nil q = refl

  reenqueue-IsRecovered :
      (items : List Recovered) (q : b.Queues)
      → IsSingle (jobs.live q)
      → IsRecovered items (jobs.live q) (jobs.live (reenqueue b items q).1)
  reenqueue-IsRecovered [] q single =
      IsRecovered-of_eq [] (jobs.live q) (jobs.live q) _ (ap jobs.live (reenqueue-nil q))
        (single, λ id. omega arith, tt)
  reenqueue-IsRecovered (i ∷ items) q single =
      let id = i.execution_id in
      let ds = jobs.live q in
      let q' = (enqueue_workflow_execution b id i.tenant_id none q).1 in
      elim (Bool-cases (any (is_job_of id) (b.get_jobs unfinished q))) [
        | inl there ↦
            IsRecovered-of_eq (i ∷ items) ds _ _ (ap jobs.live (reenqueue_there i items q there)) (
              IsRecovered-cons i items ds ds _
                (count_of-any _ ds (sym (jobs.get_jobs_lem q id) ∙ there)) (λ x. omega arith)
                (reenqueue-IsRecovered items q single))
        | inr absent ↦
            let empty = count_of_none _ ds (sym (jobs.get_jobs_lem q id) ∙ absent) in
            IsRecovered-of_eq (i ∷ items) ds _ _ (ap jobs.live (reenqueue_absent i items q absent))
              (IsRecovered-cons i items ds (jobs.live q') _
                (ground (arith, enqueued id i.tenant_id none q id, eq_refl id))
                (enqueued_grows id i.tenant_id none q)
                (reenqueue-IsRecovered items q'
                  (enqueued-IsSingle id i.tenant_id none q empty single)))
      ]

  -- Where no execution has two unfinished jobs, there is none that has two after a recovery; no
  -- execution lost its job, and each execution that was found to be stale has exactly one.
  pub recover_stale_executions-IsRecovered :
      (p : Prisma) (lease_ms now : ℕ) (db : p.Db) (q : b.Queues)
      → IsSingle (jobs.live q)
      → IsRecovered
          (find_and_mark_stale p lease_ms now db).0
          (jobs.live q)
          (jobs.live (recover_stale_executions b p lease_ms now (db, q)).2)
  unfolding recover_stale_executions
  recover_stale_executions-IsRecovered p lease_ms now db q single =
      reenqueue-IsRecovered (find_and_mark_stale p lease_ms now db).0 q single
