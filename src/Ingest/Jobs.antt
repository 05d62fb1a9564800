-- ===== src/Ingest/Jobs.antt =====
-- process of ingest-service/internal/worker/queue.go with the OnDone of the upload handler: from an
-- upload to the index of the search service.
use telemetry_search_engine.Common.{ℕ, List, Text, text_eq, Bool}
use telemetry_search_engine.Float.{Float}
use telemetry_search_engine.Queue.{
  Task, Queue, Reading, read, unreadable, start_process, end_process,
}
use telemetry_search_engine.Index.{Index}
use telemetry_search_engine.Auth.Token.{Jwt}
use telemetry_search_engine.Service.{Host}
use telemetry_search_engine.Ingest.{Ingest}
use telemetry_search_engine.Ingest.Notify.{Delivery, post_notify, notify_search_service}

-- process, on what reading the file gives: OnDone runs where the job is done.
unfoldable pub process : {S : Type 0} → (S → S) → Task → Reading → ℕ → Queue × S → Queue × S
process on_done t (unreadable e) now (q, s) =
    (end_process t (unreadable e) now (start_process t q), s)
process on_done t (read n) now (q, s) = (end_process t (read n) now (start_process t q), on_done s)

module _ (fl : Float) (unicode : Text → Text) (jwt : Jwt) (h : Host) (header : Text)
    (deliver : ℕ → Delivery) (trim_slashes : Text → Text) (builds : Text → Bool)
    (service_url : Text) where
  open fl use {F}

  -- The OnDone of upload: the search service is notified of the file.
  abbrev pub on_done : Text → Index F → Index F
  on_done filename idx =
      let post = λ (url : Text) (attempt : ℕ) (at : Index F).
        post_notify fl unicode jwt h header filename deliver attempt at in
      (notify_search_service trim_slashes builds post service_url idx).1
