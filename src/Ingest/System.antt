-- ===== src/Ingest/System.antt =====
-- The ingest service with its workers, and the search service that they notify, step by step:
-- ingest-service/cmd/server/main.go, the requests to both services, and the goroutines of
-- ingest-service/internal/worker/queue.go with the OnDone that the upload handler gives to a job.
use telemetry_search_engine.Common.{
  ℕ, ◌+◌, ◌<◌, ◌≡◌, List, [], ◌∷◌, ◌++◌, Text, codes, Option, none, some, get, text_eq, length,
  Bool, if◌then◌else◌,
}
use telemetry_search_engine.Float.{Float}
use telemetry_search_engine.Auth.{env_or}
use telemetry_search_engine.Auth.Token.{Jwt}
use telemetry_search_engine.Access.{Context}
use telemetry_search_engine.Queue.{
  Job, Task, Queue, Reading, read, unreadable, capacity, new_queue, start_process, end_process,
}
use telemetry_search_engine.Index.{Index}
use telemetry_search_engine.Service
use telemetry_search_engine.Service.{Host, Call}
use telemetry_search_engine.Service.Start.{start}
use telemetry_search_engine.Ingest.{Os, Ingest, Request, serve}
use telemetry_search_engine.Ingest.Notify.{Delivery}
use telemetry_search_engine.Ingest.Jobs.{on_done}

-- What main reads of the environment.
unfoldable pub upload_dir_of : (Text → Text) → Text
upload_dir_of env = env_or env (codes "UPLOAD_DIR") (codes "/app/uploads")

unfoldable pub service_url_of : (Text → Text) → Text
service_url_of env = env_or env (codes "SEARCH_SERVICE_URL") (codes "http://search-service:8082")

abbrev pub worker_count : ℕ
worker_count = 4

-- main up to the router: `made` tells whether the upload directory could be made, and `none` is the
-- exit.
unfoldable pub start_ingest : {D : Type 0} → Bool → D → Option (Ingest D)
start_ingest made disk =
    if made then some (record { queue = new_queue worker_count; disk = disk }) else none

abbrev pub name_of : Option Job → Text
name_of none = []
name_of (some j) = j.filename

-- `notifying` holds the jobs whose worker runs their OnDone, with the name of their file; `notified`
-- names the jobs whose OnDone has returned, the last first.
pub record System (D F : Type 0) : Type 0 where
  pub ingest : Ingest D
  pub notifying : List (Text × Text)
  pub notified : List Text
  pub index : Index F

module _ (fl : Float) (unicode : Text → Text) (jwt : Jwt) (decimal : ℕ → Text) {D : Type 0}
    (os : Os D) (env : Text → Text) (trim_slashes : Text → Text) (builds : Text → Bool) where
  open fl use {F}

  -- The queue of a system, replaced.
  abbrev pub with_queue : Queue → System D F → System D F
  with_queue q sys = record sys { ingest = record sys.ingest { queue = q } }

  -- OnDone runs where the file could be read.
  abbrev pub after_read : Reading → Task → System D F → List (Text × Text)
  after_read (unreadable error) t sys = sys.notifying
  after_read (read n) t sys =
      (t.job_id, name_of (get t.job_id sys.ingest.queue.jobs)) ∷ sys.notifying

  -- A worker goes from a job to the next once OnDone has returned. Requests to the search service
  -- come from anyone, and those of OnDone with any header.
  pub data Advance : System D F → System D F → Type 0 where
    requested :
        {sys : System D F} (req : Request) (now : ℕ) (header : Text) (ctx : Context)
        → Advance sys (record sys {
          ingest =
              (serve os unicode
                (upload_dir_of env)
                decimal
                jwt
                env
                req
                now
                header
                ctx
                sys.ingest).1;
        })
    sent :
        {sys : System D F} (before after : List Task) (t : Task)
        → sys.ingest.queue.sending ≡ before ++ t ∷ after
        → length sys.ingest.queue.channel < capacity
        → Advance sys (
            with_queue
              (record sys.ingest.queue {
                sending = before ++ after;
                channel = sys.ingest.queue.channel ++ t ∷ [];
              })
              sys)
    started :
        {sys : System D F} (t : Task) (rest : List Task)
        → sys.ingest.queue.channel ≡ t ∷ rest
        → length sys.ingest.queue.running + length sys.notifying < sys.ingest.queue.worker_n
        → Advance sys (
            with_queue
              (start_process t (record sys.ingest.queue {
                channel = rest;
                running = t ∷ sys.ingest.queue.running;
              }))
              sys)
    finished :
        {sys : System D F} (before after : List Task) (t : Task) (r : Reading) (now : ℕ)
        → sys.ingest.queue.running ≡ before ++ t ∷ after
        → Advance sys
            (record (with_queue
              (end_process t r now (record sys.ingest.queue { running = before ++ after }))
              sys) { notifying = after_read r t sys })
    returned :
        {sys : System D F} (before after : List (Text × Text)) (id filename : Text) (h : Host)
        (header : Text) (deliver : ℕ → Delivery)
        → sys.notifying ≡ before ++ (id, filename) ∷ after
        → Advance sys (record sys {
          notifying = before ++ after;
          notified = id ∷ sys.notified;
          index =
              on_done fl unicode jwt h header deliver trim_slashes builds
                (service_url_of env)
                filename
                sys.index;
        })
    asked :
        {sys : System D F} (call : Call) (ctx : Context)
        → Advance sys (record sys { index = (Service.serve jwt fl unicode call ctx sys.index).1 })

  pub data Comes (h : Host) : System D F → Type 0 where
    first :
        (made : Bool) (disk : D) (ingest : Ingest D)
        → start_ingest made disk ≡ some ingest
        → Comes h
            (record { ingest = ingest; notifying = []; notified = []; index = start fl unicode h })
    then_to : {sys sys' : System D F} → Comes h sys → Advance sys sys' → Comes h sys'

  -- A step of the workers, with what reading a file gives.
  abbrev pub IsWork : (Text → Reading) → {sys sys' : System D F} → Advance sys sys' → Type 0
  IsWork outcome (requested req now header ctx) = ⊥
  IsWork outcome (sent before after t e free) = Unit
  IsWork outcome (started t rest e free) = Unit
  IsWork outcome (finished before after t r now e) = r ≡ outcome t.file_path
  IsWork outcome (returned before after id filename h header deliver e) = Unit
  IsWork outcome (asked call ctx) = ⊥

  -- Steps of the workers from one system to another.
  pub data Works (outcome : Text → Reading) : System D F → System D F → Type 0 where
    stay : {sys : System D F} → Works outcome sys sys
    go :
        {sys mid last : System D F} (a : Advance sys mid)
        → IsWork outcome a
        → Works outcome mid last
        → Works outcome sys last
