-- ===== src/Service/Served.antt =====
-- What the requests of the search service make the index hold.
use telemetry_search_engine.Common.{
  ℕ, ◌≡◌, refl, List, [], ◌∷◌, ◌++◌, Text, codes, Option, none, some, ◌⊎◌, true, if◌then◌else◌, inl,
  inr,
}
use mathlib.Core.List.{append-nil, append_assoc}
use telemetry_search_engine.Float.{Float}
use telemetry_search_engine.Auth.Token.{Jwt}
use telemetry_search_engine.Access.{Context, Checked, passed, aborted, guard}
use telemetry_search_engine.Access.Guard.{IsWriter, guard-IsWriter}
use telemetry_search_engine.Index.{Document, Index}
use telemetry_search_engine.Index.Add.{add_documents}
use telemetry_search_engine.Index.Search.{Times, reset, is_none}
use telemetry_search_engine.Index.Loaded.{Holds}
use telemetry_search_engine.Index.Runs.{
  Run, run-Holds, added, finalized, searched, filed, readied, invalidated, cleared,
}
use telemetry_search_engine.Service.{
  Host, Request, health, ready_check, get_stats, reindex, search, ingest_notify, Call, data_dir,
  read_file, add_read, load_files, load_globbed, load_dir, search_query, handle_search,
  handle_reindex, index_file, handle_ingest_notify, handle, checks, serve_checked, serve,
}

abbrev pub docs_or_none : Option (List Document) → List Document
docs_or_none none = []
docs_or_none (some docs) = docs

module _ (unicode : Text → Text) (h : Host) where
  -- The rows of the files that can be read, in the order of the files.
  unfoldable pub docs_of : List Text → List Document
  docs_of [] = []
  docs_of (path ∷ paths) = docs_or_none (read_file unicode h path) ++ docs_of paths

  abbrev pub globbed_docs : Option (List Text) → List Document
  globbed_docs none = []
  globbed_docs (some paths) = docs_of paths

  -- The rows of the Parquet files of a directory.
  abbrev pub docs_in : Text → List Document
  docs_in dir =
      let docs = globbed_docs (h.glob (h.join_path dir (codes "*.parquet"))) in
      if is_none dir then [] else docs

  -- The documents that a request leaves, from those that it finds.
  abbrev pub docs_after : Request → List Document → List Document
  docs_after reindex ds = docs_in (data_dir h)
  docs_after (ingest_notify (some filename)) ds =
      ds ++ docs_or_none (read_file unicode h (h.join_path (data_dir h) (h.base filename)))
  docs_after other ds = ds

module _ (fl : Float) (unicode : Text → Text) where
  open fl use {F}

  pub add_documents-Run :
      (ds docs : List Document) (idx : Index F)
      → Run fl unicode ds idx
      → Run fl unicode (ds ++ docs) (add_documents fl unicode docs idx)
  unfolding add_documents
  add_documents-Run ds [] idx r = rw append-nil r
  add_documents-Run ds (doc ∷ docs) idx r =
      rw (append_assoc ds (doc ∷ []) docs) at
        (add_documents-Run (ds ++ doc ∷ []) docs _ (added doc r))

  module _ (h : Host) where
    add_read-Run :
        (ds : List Document) (path : Text) (docs : Option (List Document)) (loaded : Index F × ℕ)
        → Run fl unicode ds loaded.0
        → Run fl unicode (ds ++ docs_or_none docs) (add_read fl unicode h path docs loaded).0
    add_read-Run ds path none loaded r = rw append-nil r
    add_read-Run ds path (some docs) (idx, total) r =
        filed (h.base path) (add_documents-Run ds docs idx r)

    load_files-Run :
        (ds : List Document) (paths : List Text) (loaded : Index F × ℕ)
        → Run fl unicode ds loaded.0
        → Run fl unicode (ds ++ docs_of unicode h paths) (load_files fl unicode h paths loaded).0
    unfolding load_files docs_of
    load_files-Run ds [] loaded r = rw append-nil r
    load_files-Run ds (path ∷ paths) loaded r =
        let docs = read_file unicode h path in
        rw (append_assoc ds (docs_or_none docs) (docs_of unicode h paths)) at (
          load_files-Run (ds ++ docs_or_none docs) paths (add_read fl unicode h path docs loaded)
            (add_read-Run ds path docs loaded r))

    load_globbed-Run :
        (ds : List Document) (files : Option (List Text)) (idx : Index F)
        → Run fl unicode ds idx
        → Run fl unicode
            (ds ++ globbed_docs unicode h files)
            (load_globbed fl unicode h files idx).0
    load_globbed-Run ds none idx r = rw append-nil r
    load_globbed-Run ds (some paths) idx r = load_files-Run ds paths (idx, 0) r

    pub load_dir-Run :
        (ds : List Document) (dir : Text) (idx : Index F)
        → Run fl unicode ds idx
        → Run fl unicode (ds ++ docs_in unicode h dir) (load_dir fl unicode h dir idx).0
    unfolding load_dir
    load_dir-Run ds [] idx r = rw append-nil r
    load_dir-Run ds (c ∷ dir) idx r =
        load_globbed-Run ds (h.glob (h.join_path (c ∷ dir) (codes "*.parquet"))) idx r

    reindexed-Run :
        (ds : List Document) (idx : Index F)
        → Run fl unicode ds idx
        → Run fl unicode (docs_in unicode h (data_dir h)) (handle_reindex fl unicode h idx).1
    unfolding handle_reindex
    reindexed-Run ds idx r =
        readied true (finalized (load_dir-Run [] (data_dir h) (reset fl idx) (cleared r)))

    pub index_file-Run :
        (ds : List Document) (filename : Text) (docs : Option (List Document)) (idx : Index F)
        → Run fl unicode ds idx
        → Run fl unicode (ds ++ docs_or_none docs) (index_file fl unicode h filename docs idx).1
    index_file-Run ds filename none idx r = rw append-nil r
    index_file-Run ds filename (some docs) idx r =
        invalidated (finalized (filed (h.base filename) (add_documents-Run ds docs idx r)))

    handle-Run :
        (req : Request) (victim : ℕ) (at : Times) (ds : List Document) (idx : Index F)
        → Run fl unicode ds idx
        → Run fl unicode (docs_after unicode h req ds) (handle fl unicode h req victim at idx).1
    unfolding handle_search handle_ingest_notify
    handle-Run health victim at ds idx r = r
    handle-Run ready_check victim at ds idx r = r
    handle-Run get_stats victim at ds idx r = r
    handle-Run reindex victim at ds idx r = reindexed-Run ds idx r
    handle-Run (search params) victim at ds idx r = searched (search_query h params) victim at r
    handle-Run (ingest_notify none) victim at ds idx r = r
    handle-Run (ingest_notify (some filename)) victim at ds idx r =
        index_file-Run ds filename
          (read_file unicode h (h.join_path (data_dir h) (h.base filename))) idx r

-- The documents after a call: those of its request if its checks pass it, and else those before it.
abbrev pub if_passed : (Text → Text) → Call → Checked → List Document → List Document
if_passed unicode call (passed ctx) ds = docs_after unicode call.host call.request ds
if_passed unicode call (aborted status error) ds = ds

module _ (jwt : Jwt) (unicode : Text → Text) (ctx : Context) where
  abbrev pub served_docs : Call → List Document → List Document
  served_docs call ds = if_passed unicode call (checks jwt call call.request ctx) ds

  passed_docs :
      (call : Call) (checked : Checked) (ds : List Document)
      → docs_after unicode call.host call.request ds ≡ ds
      → if_passed unicode call checked ds ≡ ds
  passed_docs call (passed after) ds same = same
  passed_docs call (aborted status error) ds same = refl

  guarded_docs :
      (call : Call) (checked : Checked) (ds : List Document)
      → guard jwt call.host.getenv (codes "writer") call.now call.header ctx ≡ checked
      → (if_passed unicode call checked ds ≡ ds)
        ⊎ IsWriter jwt call.host.getenv call.now call.header
  guarded_docs call (passed after) ds e =
      inr (guard-IsWriter jwt call.host.getenv call.now call.header ctx after e)
  guarded_docs call (aborted status error) ds e = inl refl

  checked_docs :
      (req : Request) (call : Call) (ds : List Document)
      → call.request ≡ req
      → (if_passed unicode call (checks jwt call req ctx) ds ≡ ds)
        ⊎ IsWriter jwt call.host.getenv call.now call.header
  unfolding checks
  checked_docs health call ds e = inl (rw e refl)
  checked_docs ready_check call ds e = inl (rw e refl)
  checked_docs get_stats call ds e = inl (passed_docs call _ ds (rw e refl))
  checked_docs (search params) call ds e = inl (passed_docs call _ ds (rw e refl))
  checked_docs reindex call ds e = guarded_docs call _ ds refl
  checked_docs (ingest_notify bound) call ds e = guarded_docs call _ ds refl

  served_docs_writers :
      (call : Call) (ds : List Document)
      → (served_docs call ds ≡ ds) ⊎ IsWriter jwt call.host.getenv call.now call.header
  served_docs_writers call ds = checked_docs call.request call ds refl

  -- The documents after a sequence of calls.
  abbrev pub all_docs : List Call → List Document → List Document
  all_docs [] ds = ds
  all_docs (call ∷ calls) ds = all_docs calls (served_docs call ds)

  module _ (fl : Float) where
    open fl use {F}

    -- The index after a sequence of calls.
    abbrev pub serve_all : List Call → Index F → Index F
    serve_all [] idx = idx
    serve_all (call ∷ calls) idx = serve_all calls (serve jwt fl unicode call ctx idx).1

    serve_checked-Run :
        (call : Call) (checked : Checked) (ds : List Document) (idx : Index F)
        → Run fl unicode ds idx
        → Run fl unicode
            (if_passed unicode call checked ds)
            (serve_checked jwt fl unicode call checked idx).1
    serve_checked-Run call (passed ctx) ds idx r =
        handle-Run fl unicode call.host call.request call.victim call.at ds idx r
    serve_checked-Run call (aborted status error) ds idx r = r

    -- Whatever requests are served, in whatever order, and whatever the file system then gives, an
    -- index that came from documents by its operations comes from the documents that the requests
    -- leave: a reindex that passes its checks leaves the rows of the readable files of its
    -- directory alone, a notification adds the rows of its file, and no other request changes them.
    pub serve_all-Run :
        (calls : List Call) (ds : List Document) (idx : Index F)
        → Run fl unicode ds idx
        → Run fl unicode (all_docs calls ds) (serve_all calls idx)
    unfolding serve
    serve_all-Run [] ds idx r = r
    serve_all-Run (call ∷ calls) ds idx r =
        serve_all-Run calls (served_docs call ds) (serve jwt fl unicode call ctx idx).1
          (serve_checked-Run call (checks jwt call call.request ctx) ds idx r)

    -- On an index that comes from documents by its operations, a request leaves the index holding
    -- exactly these documents, unless its caller has a bearer token of a writer, or of a role above.
    pub serve_docs_writers :
        (call : Call) (ds : List Document) (idx : Index F)
        → Run fl unicode ds idx
        → Holds fl unicode ds (serve jwt fl unicode call ctx idx).1
          ⊎ IsWriter jwt call.host.getenv call.now call.header
    serve_docs_writers call ds idx r = elim (served_docs_writers call ds) [
      | inl same ↦
          let run = serve_all-Run (call ∷ []) ds idx r in
          inl (rw same at ((run-Holds fl unicode (served_docs call ds) _ run).0))
      | inr writer ↦ inr writer
    ]
