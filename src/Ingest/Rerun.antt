-- ===== src/Ingest/Rerun.antt =====
-- A notification leaves an index that comes from documents by its operations.
use telemetry_search_engine.Common.{
  ℕ, zero, suc, ◌+◌, inl, inr, List, [], ◌∷◌, ◌++◌, Text, codes, text_eq, Bool, ◌||◌, not,
  Bool-cases,
}
use telemetry_search_engine.Float.{Float}
use telemetry_search_engine.Index.{Document, Index}
use telemetry_search_engine.Index.Search.{is_none}
use telemetry_search_engine.Index.Runs.{Run}
use telemetry_search_engine.Auth.Token.{Jwt}
use telemetry_search_engine.Access.{Context}
use telemetry_search_engine.Service.{Host, serve}
use telemetry_search_engine.Service.Served.{served_docs, serve_all-Run}
use telemetry_search_engine.Ingest.Notify.{
  Delivery, lost, unanswered, answered, is_ok, attempts, delivered, notify_call, post_notify,
  notify_search_service,
}
use telemetry_search_engine.Ingest.Jobs.{on_done}

module _ (fl : Float) (unicode : Text → Text) where
  open fl use {F}

  -- The index comes from some documents by its operations.
  abbrev pub HasRun : Index F → Type 0
  HasRun idx = (ds : List Document) × Run fl unicode ds idx

  module _ (jwt : Jwt) (h : Host) (header filename : Text) where
    served-HasRun :
        (now : ℕ) (ctx : Context) (idx : Index F)
        → HasRun idx
        → HasRun (serve jwt fl unicode (notify_call h header filename now) ctx idx).1
    served-HasRun now ctx idx (ds, r) =
        let call = notify_call h header filename now in
        (served_docs jwt unicode ctx call ds, serve_all-Run jwt unicode ctx fl (call ∷ []) ds idx r)

    attempts-HasRun :
        (deliver : ℕ → Delivery) (left attempt : ℕ) (idx : Index F)
        → HasRun idx
        → HasRun
            (attempts (post_notify fl unicode jwt h header filename deliver) attempt left idx).1
    unfolding attempts
    attempts-HasRun deliver zero attempt idx r = r
    attempts-HasRun deliver (suc left) attempt idx r =
        let (reply, after) = post_notify fl unicode jwt h header filename deliver attempt idx in
        let posted : HasRun after = sent_by (deliver attempt) in
        elim (Bool-cases (is_ok reply)) [
          | inl e ↦ rw e posted
          | inr e ↦ rw e (attempts-HasRun deliver left (attempt + 1) after posted)
        ]
      where
        sent_by : (d : Delivery) → HasRun (delivered fl unicode jwt h header filename d idx).1
        sent_by lost = r
        sent_by (unanswered now ctx) = served-HasRun now ctx idx r
        sent_by (answered now ctx) = served-HasRun now ctx idx r

    pub on_done-HasRun :
        (deliver : ℕ → Delivery) (trim_slashes : Text → Text) (builds : Text → Bool)
        (service_url : Text) (idx : Index F)
        → HasRun idx
        → HasRun
            (on_done fl unicode jwt h header deliver trim_slashes builds service_url filename idx)
    unfolding notify_search_service
    on_done-HasRun deliver trim_slashes builds service_url idx r =
        elim (Bool-cases (
          is_none service_url
          || not (builds (trim_slashes service_url ++ codes "/api/v1/ingest-notify")))) [
            | inl e ↦ rw (e, on_done) r
            | inr e ↦ rw (e, on_done) (attempts-HasRun deliver 3 1 idx r)
          ]
