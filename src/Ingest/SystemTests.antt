-- ===== src/Ingest/SystemTests.antt =====
-- The theorems on the ingest service and the search service together, on one upload.
use telemetry_search_engine.Common.{
  ◌≡◌, ◌⊎◌, refl, [], ◌++◌, Text, Map, codes, to_lower, text_beq, text_eq, some, get, put, true,
}
use telemetry_search_engine.Common.Int.{ℤ}
use telemetry_search_engine.Fixed.{fixed}
use telemetry_search_engine.Auth
use telemetry_search_engine.Auth.Toy.{toy}
use telemetry_search_engine.Access.{bearer}
use telemetry_search_engine.Queue
use telemetry_search_engine.Queue.{
  Job, Queue, Reading, read, done, failed, new_job, new_queue, submit, job_name,
}
use telemetry_search_engine.Queue.Steps.{Separates}
use telemetry_search_engine.Service.Start.{start}
use telemetry_search_engine.Service.Toy.{lower, host, no_context, token, writer-passed}
use telemetry_search_engine.Ingest.{
  upload, has_magic, ensure_parquet_ext, handle_upload, serve, checks,
}
use telemetry_search_engine.Ingest.Tests.{os, ordinal, some_file}
use telemetry_search_engine.Ingest.System.{
  System, Comes, first, then_to, requested, Works, worker_count, start_ingest, upload_dir_of,
}
use telemetry_search_engine.Ingest.Done.{times}
use telemetry_search_engine.Ingest.Rerun.{HasRun}
use telemetry_search_engine.Ingest.Settled.{IsNotifiedOnce, Comes-settled}
use telemetry_search_engine.Ingest.Settles.{job_settles}

ordinal-Separates : Separates ordinal
unfolding job_name
ordinal-Separates m n h = cc

abbrev begun : System (Map Text Text) ℤ
begun = record {
  ingest = record { queue = new_queue worker_count; disk = [] };
  notifying = [];
  notified = [];
  index = start fixed lower host;
}

-- A writer has uploaded a file.
abbrev uploaded : System (Map Text Text) ℤ
uploaded = record begun {
  ingest =
      (serve os lower (upload_dir_of host.getenv) ordinal toy host.getenv (upload (some some_file))
        9 (bearer ++ token) no_context begun.ingest).1;
}

begun-Comes : Comes fixed lower toy ordinal os host.getenv (λ s. s) (λ url. true) host begun
unfolding start_ingest
begun-Comes = first true [] begun.ingest refl

uploaded-Comes : Comes fixed lower toy ordinal os host.getenv (λ s. s) (λ url. true) host uploaded
uploaded-Comes =
    then_to begun-Comes (requested (upload (some some_file)) 9 (bearer ++ token) no_context)

abbrev id : Text
id = job_name ordinal 1

uploaded-job :
    get id uploaded.ingest.queue.jobs ≡ some (new_job id (codes "f.parquet") (codes "ann") 9)
unfolding serve checks handle_upload has_magic text_beq ensure_parquet_ext to_lower put submit get
    new_queue upload_dir_of Auth.env_or job_name
uploaded-job = rw writer-passed refl

Comes-settled_example :
    Queue.Reachable ordinal worker_count uploaded.ingest.queue
    × IsNotifiedOnce fixed lower toy ordinal os host.getenv (λ s. s) (λ url. true) uploaded
    × HasRun fixed lower uploaded.index
Comes-settled_example =
    Comes-settled fixed lower toy ordinal os host.getenv (λ s. s) (λ url. true) ordinal-Separates
      host uploaded uploaded-Comes

job_settles_example :
    (last : System (Map Text Text) ℤ) × (end : Job) × Works fixed lower toy ordinal os host.getenv
      (λ s. s)
      (λ url. true)
      (λ path. read 1)
      uploaded
      last
    × (get id last.ingest.queue.jobs ≡ some end)
    × ((end.status ≡ failed) ⊎ ((end.status ≡ done) × (times id last.notified ≡ 1)))
job_settles_example =
    job_settles fixed lower toy ordinal os host.getenv (λ s. s) (λ url. true) (λ path. read 1) host
      ordinal-Separates uploaded id (new_job id (codes "f.parquet") (codes "ann") 9) uploaded-Comes
      uploaded-job
