-- ===== src/Ingest/Notify.antt =====
-- notifySearchService of ingest-service/internal/api/handler.go, and its effect on the search
-- service that it notifies.
use telemetry_search_engine.Common.{
  ℕ, zero, suc, ◌+◌, ◌≡◌, refl, List, [], ◌++◌, Text, codes, Option, none, some, Bool, true, false,
  ◌||◌, not, eqb, if◌then◌else◌,
}
use mathlib.Core.List.{append-nil, append_assoc}
use telemetry_search_engine.Float.{Float}
use telemetry_search_engine.Index.{Document, Index}
use telemetry_search_engine.Index.Search.{is_none}
use telemetry_search_engine.Index.Runs.{Run, run-Holds}
use telemetry_search_engine.Index.Loaded.{Holds}
use telemetry_search_engine.Auth.Token.{Jwt}
use telemetry_search_engine.Access.{Context, Checked, passed, aborted, guard}
use telemetry_search_engine.Access.Guard.{IsRefusal, guard-IsRefusal}
use telemetry_search_engine.Service.{
  Host, ingest_notify, Call, index_file, read_file, handle_ingest_notify, checks, serve_checked,
  serve,
}
use telemetry_search_engine.Service.Served.{index_file-Run}
use telemetry_search_engine.Service.Answers.{notified_path}

abbrev pub is_ok : Option ℕ → Bool
is_ok none = false
is_ok (some status) = eqb status 200

-- The loop over the attempts; `post` sends the request of an attempt to a world `S`, and `none` is
-- an error of the client. The sleeps are left out.
unfoldable pub attempts : {S : Type 0} → (ℕ → S → Option ℕ × S) → ℕ → ℕ → S → Bool × S
attempts post attempt zero s = (false, s)
attempts post attempt (suc left) s =
    let (reply, after) = post attempt s in
    let rest = attempts post (attempt + 1) left after in if is_ok reply then (true, after) else rest

-- notifySearchService: whether the service answered 200, and the world after it. The address is the
-- one of the service without the slashes at its end, and a request can be built or not.
unfoldable pub notify_search_service :
    {S : Type 0}
    → (Text → Text)
    → (Text → Bool)
    → (Text → ℕ → S → Option ℕ × S)
    → Text
    → S
    → Bool × S
notify_search_service trim_slashes builds post service_url s =
    let url = trim_slashes service_url ++ codes "/api/v1/ingest-notify" in
    let tried = attempts (post url) 1 3 s in
    if is_none service_url || not (builds url) then (false, s) else tried

-- What becomes of a request: it does not arrive, or it arrives at a time, in the context that
-- the search service makes for it, and its answer comes back or does not.
pub data Delivery : Type 0 where
  lost : Delivery
  unanswered answered : ℕ → Context → Delivery

abbrev pub copies : ℕ → List Document → List Document
copies zero docs = []
copies (suc n) docs = docs ++ copies n docs

-- What a request for a file is to the search service; `header` is its Authorization header.
abbrev pub notify_call : Host → Text → Text → ℕ → Call
notify_call h header filename now = record {
  request = ingest_notify (some filename);
  header = header;
  now = now;
  host = h;
  victim = 0;
  at = record { looked = now; started = now; finished = now; stored = now };
}

-- By whether the checks are passed.
abbrev counted : Checked → ℕ → ℕ → ℕ
counted (passed ctx) n m = n
counted (aborted status error) n m = m

module _ (jwt : Jwt) (h : Host) (header : Text) where
  abbrev checked : ℕ → Context → Checked
  checked now ctx = guard jwt h.getenv (codes "writer") now header ctx

  abbrev pub arrived : Delivery → ℕ → ℕ
  arrived lost n = n
  arrived (unanswered now ctx) n = counted (checked now ctx) (suc n) n
  arrived (answered now ctx) n = counted (checked now ctx) 1 n

  -- How many requests arrive and are let in, in some attempts, which end with the first of these
  -- that is answered.
  abbrev pub arrivals : (ℕ → Delivery) → ℕ → ℕ → ℕ
  arrivals deliver attempt zero = 0
  arrivals deliver attempt (suc left) =
      arrived (deliver attempt) (arrivals deliver (attempt + 1) left)

module _ (fl : Float) (unicode : Text → Text) (jwt : Jwt) (h : Host) (header filename : Text) where
  open fl use {F}

  -- What the client sees of an attempt, and the index after it.
  abbrev pub delivered : Delivery → Index F → Option ℕ × Index F
  delivered lost idx = (none, idx)
  delivered (unanswered now ctx) idx =
      (none, (serve jwt fl unicode (notify_call h header filename now) ctx idx).1)
  delivered (answered now ctx) idx =
      let (answer, after) = serve jwt fl unicode (notify_call h header filename now) ctx idx in
      (some answer.status, after)

  -- A request for the file, served by the search service, behind its checks, if it arrives.
  abbrev pub post_notify : (ℕ → Delivery) → ℕ → Index F → Option ℕ × Index F
  post_notify deliver attempt idx = delivered (deliver attempt) idx

  module _ (deliver : ℕ → Delivery) (docs : List Document)
      (readable : read_file unicode h (notified_path h filename) ≡ some docs) where
    handled :
        (idx : Index F)
        → handle_ingest_notify fl unicode h (some filename) idx
          ≡ index_file fl unicode h filename (some docs) idx
    unfolding handle_ingest_notify
    handled idx = rw readable refl

    served :
        (now : ℕ) (ctx : Context) (idx : Index F)
        → serve jwt fl unicode (notify_call h header filename now) ctx idx
          ≡ serve_checked jwt fl unicode
              (notify_call h header filename now)
              (checked jwt h header now ctx)
              idx
    unfolding serve checks
    served now ctx idx = refl

    unanswered-Run :
        (now n : ℕ) (rest : Index F → Bool × Index F) (ds : List Document) (idx : Index F)
        (k : Checked)
        → Run fl unicode ds idx
        → ((ds : List Document) (idx : Index F)
            → Run fl unicode ds idx
            → Run fl unicode (ds ++ copies n docs) (rest idx).1)
        → Run fl unicode
            (ds ++ copies (counted k (suc n) n) docs)
            (rest (serve_checked jwt fl unicode (notify_call h header filename now) k idx).1).1
    unanswered-Run now n rest ds idx (aborted status error) r go = go ds idx r
    unanswered-Run now n rest ds idx (passed ctx) r go =
        let more =
          go (ds ++ docs) (index_file fl unicode h filename (some docs) idx).1
            (index_file-Run fl unicode h ds filename (some docs) idx r) in
        rw (handled idx, ← append_assoc ds docs (copies n docs)) more

    answered-Run :
        (now n : ℕ) (rest : Index F → Bool × Index F) (ds : List Document) (idx : Index F)
        (k : Checked)
        → IsRefusal k
        → Run fl unicode ds idx
        → ((ds : List Document) (idx : Index F)
            → Run fl unicode ds idx
            → Run fl unicode (ds ++ copies n docs) (rest idx).1)
        → let p = serve_checked jwt fl unicode (notify_call h header filename now) k idx in
          Run fl unicode
            (ds ++ copies (counted k 1 n) docs)
            (if eqb (p.0).status 200 then (true, p.1) else rest p.1).1
    answered-Run now n rest ds idx (aborted status error) refusal r go = rw refusal (go ds idx r)
    answered-Run now n rest ds idx (passed ctx) refusal r go =
        rw (append-nil docs, handled idx)
          (index_file-Run fl unicode h ds filename (some docs) idx r)

    delivered-Run :
        (d : Delivery) (n : ℕ) (rest : Index F → Bool × Index F) (ds : List Document)
        (idx : Index F)
        → Run fl unicode ds idx
        → ((ds : List Document) (idx : Index F)
            → Run fl unicode ds idx
            → Run fl unicode (ds ++ copies n docs) (rest idx).1)
        → let p = delivered d idx in
          Run fl unicode
            (ds ++ copies (arrived jwt h header d n) docs)
            (if is_ok p.0 then (true, p.1) else rest p.1).1
    delivered-Run lost n rest ds idx r go = go ds idx r
    delivered-Run (unanswered now ctx) n rest ds idx r go =
        rw (served now ctx idx)
          (unanswered-Run now n rest ds idx (checked jwt h header now ctx) r go)
    delivered-Run (answered now ctx) n rest ds idx r go = rw (served now ctx idx) (
        answered-Run now n rest ds idx (checked jwt h header now ctx)
          (guard-IsRefusal jwt h.getenv (codes "writer") now header ctx) r go)

    attempts-Run :
        (left attempt : ℕ) (ds : List Document) (idx : Index F)
        → Run fl unicode ds idx
        → Run fl unicode
            (ds ++ copies (arrivals jwt h header deliver attempt left) docs)
            (attempts (post_notify deliver) attempt left idx).1
    unfolding attempts
    attempts-Run zero attempt ds idx r = rw append-nil r
    attempts-Run (suc left) attempt ds idx r =
        delivered-Run (deliver attempt) (arrivals jwt h header deliver (attempt + 1) left)
          (attempts (post_notify deliver) (attempt + 1) left) ds idx r
          (attempts-Run left (attempt + 1))

    -- If the address is set and a request to it can be built, a notification of a readable file to
    -- a service whose index comes from documents by its operations, sent up to three times until an
    -- answer of 200 comes back, adds its rows once for each request that arrived and passed the
    -- checks of its route: once if the first of these is answered, but again after every one whose
    -- answer was lost.
    pub notify_copies :
        (trim_slashes : Text → Text) (builds : Text → Bool) (service_url : Text)
        (ds : List Document) (idx : Index F)
        → is_none service_url ≡ false
        → builds (trim_slashes service_url ++ codes "/api/v1/ingest-notify") ≡ true
        → Run fl unicode ds idx
        → let post = λ (url : Text) (attempt : ℕ) (at : Index F). post_notify deliver attempt at in
          Holds fl unicode
            (ds ++ copies (arrivals jwt h header deliver 1 3) docs)
            (notify_search_service trim_slashes builds post service_url idx).1
    unfolding notify_search_service
    notify_copies trim_slashes builds service_url ds idx given built r =
        rw (given, built) (run-Holds fl unicode _ _ (attempts-Run 3 1 ds idx r)).0
