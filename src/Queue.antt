-- ===== src/Queue.antt =====
-- ingest-service/internal/worker/queue.go: the jobs of the ingest service and the workers' pool.
-- A job is shared by the map and its task through a pointer; here the task names it by its key, and
-- what the source writes through the pointer is written in the map.
pub mod Steps
pub mod Progress
pub mod Drained
mod Tests
use telemetry_search_engine.Common.{
  ℕ, ◌+◌, ◌<◌, ◌≡◌, List, [], ◌∷◌, ◌++◌, length, map, Text, Map, codes, Option, none, some, get,
  put, text_eq,
}

pub data Status : Type 0 where
  pending processing done failed : Status

pub record Job : Type 0 where
  pub id : Text
  pub filename : Text
  pub status : Status
  pub docs_indexed : ℕ
  pub docs_total : ℕ
  pub error : Text
  pub started_at : ℕ
  pub finished_at : Option ℕ
  pub submitted_by : Text

pub record Task : Type 0 where
  pub job_id : Text
  pub file_path : Text

-- `sending` holds the tasks whose Submit waits at the channel, `running` those that a worker has.
pub record Queue : Type 0 where
  pub jobs : Map Text Job
  pub sending : List Task
  pub channel : List Task
  pub running : List Task
  pub counter : ℕ
  pub worker_n : ℕ

-- What readParquetFile returns: the number of documents, or an error.
pub data Reading : Type 0 where
  read : ℕ → Reading
  unreadable : Text → Reading

abbrev pub capacity : ℕ
capacity = 100

unfoldable pub new_queue : ℕ → Queue
new_queue n = record {
  jobs = [];
  sending = [];
  channel = [];
  running = [];
  counter = 0;
  worker_n = n;
}

abbrev pub new_job : Text → Text → Text → ℕ → Job
new_job id filename submitted_by now = record {
  id = id;
  filename = filename;
  status = pending;
  docs_indexed = 0;
  docs_total = 0;
  error = [];
  started_at = now;
  finished_at = none;
  submitted_by = submitted_by;
}

-- A write to the job of a key, if there is one.
abbrev pub update_found : Text → (Job → Job) → Map Text Job → Option Job → Map Text Job
update_found id f jobs none = jobs
update_found id f jobs (some j) = put id (f j) jobs

unfoldable pub update : Text → (Job → Job) → Queue → Queue
update id f q = record q { jobs = update_found id f q.jobs (get id q.jobs) }

unfoldable pub set_status : Text → Status → Queue → Queue
unfolding update
set_status id status q = update id (λ j. record j { status = status }) q

abbrev pub ended : Reading → ℕ → Job → Job
ended (read n) now j = record j {
  status = done;
  docs_indexed = n;
  docs_total = n;
  finished_at = some now;
}
ended (unreadable e) now j = record j { status = failed; error = e; finished_at = some now }

-- process: its start, and its end once the file is read.
unfoldable pub start_process : Task → Queue → Queue
start_process t q = set_status t.job_id processing q

unfoldable pub end_process : Task → Reading → ℕ → Queue → Queue
end_process t r now q = update t.job_id (ended r now) q

unfoldable pub get_job : Text → Queue → Option Job
get_job id q = get id q.jobs

-- The jobs in the order of the map.
unfoldable pub list_jobs : Queue → List Job
list_jobs q = map (λ (kv : Text × Job). kv.1) q.jobs

-- `decimal` is fmt.Sprintf with %d.
module _ (decimal : ℕ → Text) where
  unfoldable pub job_name : ℕ → Text
  job_name n = codes "job-" ++ decimal n

  -- Submit up to its wait at the channel, and the identifier that it returns.
  unfoldable pub submit : Text → Text → Text → ℕ → Queue → Text × Queue
  submit filename path submitted_by now q =
      let id = job_name (q.counter + 1) in
      (
        id,
        record q {
          counter = q.counter + 1;
          jobs = put id (new_job id filename submitted_by now) q.jobs;
          sending = q.sending ++ record { job_id = id; file_path = path } ∷ [];
        },
      )

  -- One step of the goroutines, in any order.
  pub data Step : Queue → Queue → Type 0 where
    submitted :
        {q : Queue} (filename path by : Text) (now : ℕ) → Step q (submit filename path by now q).1
    sent :
        {q : Queue} (before after : List Task) (t : Task)
        → q.sending ≡ before ++ t ∷ after
        → length q.channel < capacity
        → Step q (record q { sending = before ++ after; channel = q.channel ++ t ∷ [] })
    started :
        {q : Queue} (t : Task) (rest : List Task)
        → q.channel ≡ t ∷ rest
        → length q.running < q.worker_n
        → Step q (start_process t (record q { channel = rest; running = t ∷ q.running }))
    finished :
        {q : Queue} (before after : List Task) (t : Task) (r : Reading) (now : ℕ)
        → q.running ≡ before ++ t ∷ after
        → Step q (end_process t r now (record q { running = before ++ after }))

  pub data Reachable (workers : ℕ) : Queue → Type 0 where
    start : Reachable workers (new_queue workers)
    step : {q r : Queue} → Reachable workers q → Step q r → Reachable workers r
