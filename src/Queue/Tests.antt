-- ===== src/Queue/Tests.antt =====
-- A run of the queue.
use telemetry_search_engine.Common.{
  ℕ, ◌≡◌, refl, ◌++◌, [], ◌∷◌, Text, codes, put, get, text_beq, text_eq, some, arith,
}
use telemetry_search_engine.Queue
use telemetry_search_engine.Queue.{
  Status, Job, Task, Queue, Reading, read, new_queue, new_job, start_process, submit, Step,
  submitted, sent, started, finished, Reachable, start, step, processing, done, failed,
}
use telemetry_search_engine.Queue.Steps.{IsConsistent, Separates, reachable-IsConsistent}
use telemetry_search_engine.Queue.Progress.{Next, Step-Next}

abbrev decimal : ℕ → Text
decimal n = n ∷ []

decimal-Separates : Separates decimal
unfolding Queue.job_name
decimal-Separates m n h = cc

abbrev first : Text
first = codes "job-" ++ 1 ∷ []

abbrev task : Task
task = record { job_id = first; file_path = codes "/data/a.parquet" }

abbrev job : Job
job = new_job first (codes "a.parquet") (codes "writer") 7

abbrev with_job : Status → Queue
with_job s = record (new_queue 2) { counter = 1; jobs = (first, record job { status = s }) ∷ [] }

-- A queue whose one job a worker has started.
abbrev busy : Queue
busy = record (with_job processing) { running = task ∷ [] }

busy-Reachable : Reachable decimal 2 busy
unfolding new_queue submit Queue.job_name start_process Queue.set_status put get text_beq
busy-Reachable =
    step
      (step
        (step start (submitted (codes "a.parquet") (codes "/data/a.parquet") (codes "writer") 7))
        (sent [] [] task refl (omega arith)))
      (started task [] refl (omega arith))

reachable-IsConsistent_example : IsConsistent decimal busy
reachable-IsConsistent_example =
    reachable-IsConsistent decimal decimal-Separates 2 busy busy-Reachable

abbrev idle : Queue
idle = Queue.end_process task (read 12) 9 (record busy { running = [] })

busy-ended : Step decimal busy idle
busy-ended = finished [] [] task (read 12) 9 refl

busy-job : get first busy.jobs ≡ some (record job { status = processing })
unfolding get new_queue text_beq
busy-job = refl

Step-Next_example :
    (j' : Job) × (get first idle.jobs ≡ some j') × Next (record job { status = processing }) j'
Step-Next_example =
    Step-Next decimal decimal-Separates 2 busy idle first (record job { status = processing })
      busy-Reachable busy-ended busy-job
