-- ===== src/Queue/Memory.antt =====
-- Queues in memory, which show that the laws of the queues can hold.
use forge_gate.Base.{
  any, find, update_row, String, ◌||◌, none, List, [], ◌∷◌, ◌++◌, map, filter, not, ◌≡◌, refl, ap,
  ◌=ₛ◌, length,
}
use forge_gate.Js.Decimal.{show}
use forge_gate.Queue.{JobData, Job, is_job_of, DeadLetter, DeadJob, Bull, Jobs}

pub record MemoryQueues : Type 0 where
  pub live : List JobData
  pub dead : List DeadJob

abbrev pub waiting_job : JobData → Job
waiting_job d = record { id = "j"; job_data = d; attempts_made = 0; failed_reason = none }

abbrev pub dead_job : String → DeadLetter → DeadJob
dead_job id d = record { id = id; letter = d; failed_reason = none; timestamp = "" }

abbrev pub bull : Bull
bull = record {
  Queues = MemoryQueues;
  add = λ d delay q. ("j", record q { live = d ∷ q.live });
  get_jobs = λ states q. map waiting_job q.live;
  add_dead = λ d q. record q { dead = q.dead ++ (dead_job (show (length q.dead)) d ∷ []) };
  get_dead_jobs = λ states q. q.dead;
  get_dead_job = λ id q. find (λ j. j.id =ₛ id) q.dead;
  update_dead_data = λ id d q. record q {
    dead = map (update_row (λ j. j.id =ₛ id) (λ j. record j { letter = d })) q.dead;
  };
  remove_dead = λ id q. record q { dead = filter (λ j. not (j.id =ₛ id)) q.dead };
}

pub any-waiting :
    (id : String) (ds : List JobData)
    → any (is_job_of id) (map waiting_job ds) ≡ any (λ d. d.execution_id =ₛ id) ds
any-waiting id [] = refl
any-waiting id (d ∷ ds) = ap (λ x. (d.execution_id =ₛ id) || x) (any-waiting id ds)

abbrev pub bull_jobs : Jobs bull
bull_jobs = record {
  live = λ q. q.live;
  dead = λ q. q.dead;
  get_jobs_lem = λ q id. any-waiting id q.live;
  get_dead_job_lem = λ q id. refl;
  add_lem = λ q d delay. (refl, refl);
  add_dead_lem = λ q d. (refl, (_, refl, refl));
  update_dead_data_lem = λ q id d. (refl, refl);
  remove_dead_lem = λ q id. (refl, refl);
}
