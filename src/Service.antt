-- ===== src/Service.antt =====
-- search-service/internal/api/handler.go: the handlers of the search service and their routes. The
-- environment, the file system and the decoding of requests are inputs.
pub mod Start
pub mod Served
pub mod Answers
pub mod Toy
mod Tests
use telemetry_search_engine.Common.{
  ℕ, ◌+◌, List, [], ◌∷◌, Text, codes, Option, none, some, Bool, true, ltb, length, min, max,
  if◌then◌else◌,
}
use telemetry_search_engine.Common.Int.{ℤ, pos, negsuc}
use telemetry_search_engine.Float.{Float}
use telemetry_search_engine.Auth.Token.{Jwt}
use telemetry_search_engine.Access.{Context, Checked, passed, aborted, require_auth, guard}
use telemetry_search_engine.Parquet.{Reader, read_parquet}
use telemetry_search_engine.Index.{Document, SearchQuery, SearchResult, IndexStats, Index}
use telemetry_search_engine.Index.Add.{add_documents}
use telemetry_search_engine.Index.Finalize.{finalize}
use telemetry_search_engine.Index.Search.{
  Outcome, found, panicked, stuck, Times, search_documents, add_file, set_ready, is_ready, reset,
  stats, invalidate_cache, is_none,
}

-- What the handlers call outside the repository: os.Getenv, filepath.Glob, Join and Base, the file
-- and column readers of parquet-go, and strconv.Atoi and Sscanf with %d, by the number that they
-- leave, an error or not. `none` is an error.
pub record Host : Type 0 where
  pub getenv : Text → Text
  pub glob : Text → Option (List Text)
  pub join_path : Text → Text → Text
  pub base : Text → Text
  pub open_file : Text → Option Reader
  pub atoi : Text → ℤ
  pub parse_int64 : Text → ℤ

-- The bodies of the answers; `fuel_out` is the model's fuel running out.
pub data Body (F : Type 0) : Type 0 where
  service_status : Text → Body F
  search_result : SearchResult F → Body F
  index_stats : IndexStats → Body F
  message_stats : Text → IndexStats → Body F
  file_indexed : Text → ℕ → IndexStats → Body F
  error_text : Text → Body F
  read_error no_body fuel_out : Body F

pub record Response (F : Type 0) : Type 0 where
  pub status : ℕ
  pub body : Body F

-- The requests of the routes: a query parameter is `none` where it is absent, and a body is what
-- ShouldBindJSON makes of it.
pub data Request : Type 0 where
  health ready_check get_stats reindex : Request
  search : (Text → Option Text) → Request
  ingest_notify : Option Text → Request

unfoldable pub data_dir : Host → Text
data_dir h =
    let d = h.getenv (codes "DATA_DIR") in if is_none d then h.getenv (codes "UPLOAD_DIR") else d

-- c.DefaultQuery
abbrev pub default_query : Text → Option Text → Text
default_query fallback none = fallback
default_query fallback (some v) = v

abbrev pub at_least_one : ℤ → ℕ
at_least_one (pos n) = if ltb n 1 then 1 else n
at_least_one (negsuc n) = 1

abbrev pub clamp_size : ℤ → ℕ
clamp_size (pos n) = max 1 (min n 100)
clamp_size (negsuc n) = 1

unfoldable pub parse_pagination : Host → (Text → Option Text) → ℕ × ℕ
parse_pagination h params =
    let page = h.atoi (default_query (codes "1") (params (codes "page"))) in
    let page_size = h.atoi (default_query (codes "20") (params (codes "page_size"))) in
    (at_least_one page, clamp_size page_size)

-- The query of a search request.
unfoldable pub search_query : Host → (Text → Option Text) → SearchQuery
search_query h params =
    let param = λ (name : Text). default_query [] (params name) in
    let (page, page_size) = parse_pagination h params in
    record {
      query = param (codes "q");
      sender = param (codes "sender");
      hostname = param (codes "hostname");
      app_name = param (codes "app_name");
      proc_id = param (codes "proc_id");
      msg_id = param (codes "msg_id");
      groupings = param (codes "groupings");
      facility = param (codes "facility");
      raw_message = param (codes "raw_message");
      structured_data = param (codes "structured_data");
      severity = param (codes "severity");
      page = page;
      page_size = page_size;
    }

abbrev pub respond : {F : Type 0} → ℕ → Body F → Response F
respond status body = record { status = status; body = body }

-- c.JSON with the result; gin's Recovery answers a panic with 500.
abbrev pub outcome_response : {F : Type 0} → Outcome F → Response F
outcome_response (found r) = respond 200 (search_result r)
outcome_response panicked = respond 500 no_body
outcome_response stuck = respond 500 fuel_out

-- pq.ReadParquet on a path.
abbrev pub read_file : (Text → Text) → Host → Text → Option (List Document)
read_file unicode h path = read_parquet unicode h.parse_int64 (h.open_file path)

module _ (fl : Float) (unicode : Text → Text) where
  open fl use {F}

  module _ (h : Host) where
    abbrev pub add_read : Text → Option (List Document) → Index F × ℕ → Index F × ℕ
    add_read path none (idx, total) = (idx, total)
    add_read path (some docs) (idx, total) =
        (add_file fl (h.base path) (add_documents fl unicode docs idx), total + length docs)

    -- The loop of loadDir over the files.
    unfoldable pub load_files : List Text → Index F × ℕ → Index F × ℕ
    load_files [] loaded = loaded
    load_files (path ∷ paths) loaded =
        load_files paths (add_read path (read_file unicode h path) loaded)

    abbrev pub load_globbed : Option (List Text) → Index F → Index F × ℕ
    load_globbed none idx = (idx, 0)
    load_globbed (some paths) idx = load_files paths (idx, 0)

    unfoldable pub load_dir : Text → Index F → Index F × ℕ
    load_dir dir idx =
        let loaded = load_globbed (h.glob (h.join_path dir (codes "*.parquet"))) idx in
        if is_none dir then (idx, 0) else loaded

    unfoldable pub handle_health : Response F
    handle_health = respond 200 (service_status (codes "ok"))

    unfoldable pub handle_ready : Index F → Response F
    handle_ready idx =
        if is_ready fl idx
        then respond 200 (service_status (codes "ready"))
        else respond 503 (service_status (codes "loading"))

    unfoldable pub handle_search : (Text → Option Text) → ℕ → Times → Index F → Response F × Index F
    handle_search params victim at idx =
        let (outcome, after) = search_documents fl unicode (search_query h params) victim at idx in
        (outcome_response outcome, after)

    unfoldable pub handle_stats : Index F → Response F
    handle_stats idx = respond 200 (index_stats (stats fl idx))

    unfoldable pub handle_reindex : Index F → Response F × Index F
    handle_reindex idx =
        let loaded = (load_dir (data_dir h) (reset fl idx)).0 in
        let after = set_ready fl true (finalize fl loaded) in
        (respond 202 (message_stats (codes "reindex complete") (stats fl after)), after)

    -- The handler once the file has been read.
    abbrev pub index_file : Text → Option (List Document) → Index F → Response F × Index F
    index_file filename none idx = (respond 422 read_error, idx)
    index_file filename (some docs) idx =
        let added = add_file fl (h.base filename) (add_documents fl unicode docs idx) in
        let after = invalidate_cache fl (finalize fl added) in
        (respond 200 (file_indexed (h.base filename) (length docs) (stats fl after)), after)

    unfoldable pub handle_ingest_notify : Option Text → Index F → Response F × Index F
    handle_ingest_notify none idx = (respond 400 (error_text (codes "filename required")), idx)
    handle_ingest_notify (some filename) idx =
        index_file filename (read_file unicode h (h.join_path (data_dir h) (h.base filename))) idx

    abbrev pub handle : Request → ℕ → Times → Index F → Response F × Index F
    handle health victim at idx = (handle_health, idx)
    handle ready_check victim at idx = (handle_ready idx, idx)
    handle get_stats victim at idx = (handle_stats idx, idx)
    handle reindex victim at idx = handle_reindex idx
    handle (search params) victim at idx = handle_search params victim at idx
    handle (ingest_notify bound) victim at idx = handle_ingest_notify bound idx

-- A request as it arrives: with its Authorization header, the second of its arrival, what the host
-- then answers, and the inputs of Search.
pub record Call : Type 0 where
  pub request : Request
  pub header : Text
  pub now : ℕ
  pub host : Host
  pub victim : ℕ
  pub at : Times

module _ (jwt : Jwt) where
  -- The checks in front of a route.
  unfoldable pub checks : Call → Request → Context → Checked
  checks call health ctx = passed ctx
  checks call ready_check ctx = passed ctx
  checks call get_stats ctx = require_auth jwt call.host.getenv call.now call.header ctx
  checks call (search params) ctx = require_auth jwt call.host.getenv call.now call.header ctx
  checks call reindex ctx = guard jwt call.host.getenv (codes "writer") call.now call.header ctx
  checks call (ingest_notify bound) ctx =
      guard jwt call.host.getenv (codes "writer") call.now call.header ctx

  module _ (fl : Float) (unicode : Text → Text) where
    open fl use {F}

    abbrev pub serve_checked : Call → Checked → Index F → Response F × Index F
    serve_checked call (passed ctx) idx =
        handle fl unicode call.host call.request call.victim call.at idx
    serve_checked call (aborted status error) idx = (respond status (error_text error), idx)

    -- One request, from the router to its answer.
    unfoldable pub serve : Call → Context → Index F → Response F × Index F
    serve call ctx idx = serve_checked call (checks call call.request ctx) idx
