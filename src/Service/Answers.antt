-- ===== src/Service/Answers.antt =====
-- What the search service answers.
use telemetry_search_engine.Common.{
  ℕ, ◌-◌, ◌*◌, ◌^◌, ◌≤◌, ◌<◌, ◌≡◌, refl, List, [], ◌++◌, Text, codes, Option, none, some, ◌⊎◌, true,
  length, arith, inl, inr,
}
use native.Mathlib.Nat.{mul-le-mul}
use telemetry_search_engine.Common.Int.{ℤ, pos, negsuc}
use telemetry_search_engine.Float.{Float}
use telemetry_search_engine.Auth.Token.{Jwt}
use telemetry_search_engine.Access.{Context}
use telemetry_search_engine.Index.{IndexStats, Document, SearchResult, Index, new_index}
use telemetry_search_engine.Index.Inversion.{posting}
use telemetry_search_engine.Index.Loaded.{Holds}
use telemetry_search_engine.Index.Clean.{IsClean}
use telemetry_search_engine.Index.Final.{IsFinal, finalize-IsFinal}
use telemetry_search_engine.Index.Answer.{IsPage}
use telemetry_search_engine.Index.Runs.{
  Run, created, finalized, readied, run-Holds, run-search_returns,
}
use telemetry_search_engine.Index.Search.{Times, reset, set_ready, stats, invalidate_cache}
use telemetry_search_engine.Service.{
  message_stats, Host, Call, default_query, parse_pagination, at_least_one, clamp_size,
  search_query, search_result, respond, load_dir, data_dir, handle_search, handle_reindex,
  handle_ingest_notify, index_file, read_file,
}
use telemetry_search_engine.Service.Served.{
  docs_in, load_dir-Run, index_file-Run, all_docs, serve_all, serve_all-Run,
}
use telemetry_search_engine.Service.Start.{start, start-Run, first_docs}

clamp_size_bounds : (n : ℤ) → (1 ≤ clamp_size n) × (clamp_size n ≤ 100)
clamp_size_bounds (pos n) = (omega arith, omega arith)
clamp_size_bounds (negsuc n) = (omega arith, omega arith)

at_least_one_lem : (n : ℤ) → 1 ≤ at_least_one n
at_least_one_lem (pos n) = ground arith
at_least_one_lem (negsuc n) = omega arith

-- The page that a request asks for is at most 2^56.
abbrev pub IsNear : Host → (Text → Option Text) → Type 0
IsNear h params = (parse_pagination h params).0 ≤ 2 ^ 56

search_query-IsPage :
    (h : Host) (params : Text → Option Text) → IsNear h params → IsPage (search_query h params)
unfolding search_query parse_pagination
search_query-IsPage h params near =
    let page = h.atoi (default_query (codes "1") (params (codes "page"))) in
    let size = h.atoi (default_query (codes "20") (params (codes "page_size"))) in
    let (low, high) = clamp_size_bounds size in
    record {
      first = at_least_one_lem page;
      page_fits = omega arith;
      size_fits = omega arith;
      offset_fits =
          let bound : (at_least_one page - 1) * clamp_size size ≤ 2 ^ 56 * 100 =
            mul-le-mul {n₂ = 2 ^ 56} (omega arith) high in
          omega arith;
    }

-- The path of the file that a notification names.
abbrev pub notified_path : Host → Text → Text
notified_path h filename = h.join_path (data_dir h) (h.base filename)

module _ (fl : Float) (unicode : Text → Text) where
  open fl use {F}

  handle_search-Run :
      (h : Host) (params : Text → Option Text) (victim : ℕ) (at : Times) (ds : List Document)
      (idx : Index F)
      → IsNear h params
      → Run fl unicode ds idx
      → length ds < 2 ^ 62
      → (r : SearchResult F) × ((handle_search fl unicode h params victim at idx).0
          ≡ respond 200 (search_result r))
  unfolding handle_search
  handle_search-Run h params victim at ds idx near run small =
      let (r, ran) =
        run-search_returns fl unicode ds idx (search_query h params) victim at run
          (search_query-IsPage h params near) small in
      (r, rw ran refl)

  -- Resetting leaves no trace of the index before.
  reset_lem : (idx : Index F) → reset fl idx ≡ new_index F
  unfolding reset new_index
  reset_lem idx = refl

  reset-Run : (idx : Index F) → Run fl unicode [] (reset fl idx)
  reset-Run idx = rw (reset_lem idx) created

  -- Whatever the index held, and in whatever state it was, a reindex answers 202 with the number of
  -- the rows of the readable files of its directory, and leaves an index that holds exactly these
  -- rows, in order, has every posting list in blocks, and is ready.
  pub handle_reindex_exact :
      (h : Host) (idx : Index F)
      → let (answer, after) = handle_reindex fl unicode h idx in
        let ds = docs_in unicode h (data_dir h) in
        (answer.status ≡ 202)
        × ((st : IndexStats) × (answer.body ≡ message_stats (codes "reindex complete") st)
            × (st.total_documents ≡ length ds)
            × (st.index_ready ≡ true))
        × Holds fl unicode ds after
        × ((u : Text) → IsFinal fl (posting fl after u))
        × (after.ready ≡ true)
  unfolding handle_reindex stats set_ready
  handle_reindex_exact h idx =
      let loaded = (load_dir fl unicode h (data_dir h) (reset fl idx)).0 in
      let run = load_dir-Run fl unicode h [] (data_dir h) (reset fl idx) (reset-Run idx) in
      let (held, clean) = run-Holds fl unicode (docs_in unicode h (data_dir h)) loaded run in
      let after =
        run-Holds fl unicode (docs_in unicode h (data_dir h)) _ (readied true (finalized run)) in
      (
        refl,
        (_, refl, after.0.doc_count, refl),
        after.0,
        (finalize-IsFinal fl loaded clean).0,
        refl,
      )

  -- On an index that comes from documents by its operations, a notification of a file that cannot
  -- be read is answered with 422 and changes nothing. One of a file that can be read is answered
  -- with 200, adds the rows of the file at the end of what the index holds, though they be there
  -- already, and empties the cache.
  pub handle_ingest_notify_exact :
      (h : Host) (filename : Text) (ds : List Document) (idx : Index F)
      → Run fl unicode ds idx
      → let (answer, after) = handle_ingest_notify fl unicode h (some filename) idx in
        ((answer.status ≡ 422)
          × (after ≡ idx)
          × (read_file unicode h (notified_path h filename) ≡ none))
        ⊎ ((docs : List Document) × (read_file unicode h (notified_path h filename) ≡ some docs)
            × (answer.status ≡ 200)
            × Holds fl unicode (ds ++ docs) after
            × (after.cache ≡ []))
  unfolding handle_ingest_notify
  handle_ingest_notify_exact h filename ds idx run =
      by_rows (read_file unicode h (notified_path h filename))
    where
      by_rows :
          (rows : Option (List Document))
          → let (answer, after) = index_file fl unicode h filename rows idx in
            ((answer.status ≡ 422) × (after ≡ idx) × (rows ≡ none))
            ⊎ ((docs : List Document) × (rows ≡ some docs)
                × (answer.status ≡ 200)
                × Holds fl unicode (ds ++ docs) after
                × (after.cache ≡ []))
      by_rows none = inl (refl, refl, refl)
      by_rows (some docs) = inr (
        docs,
        refl,
        refl,
        (run-Holds fl unicode (ds ++ docs) _
            (index_file-Run fl unicode h ds filename (some docs) idx run)).0,
        unfold invalidate_cache in refl,
      )

  module _ (jwt : Jwt) (ctx : Context) (h0 : Host) (calls : List Call) where
    abbrev pub served : Index F
    served = serve_all jwt unicode ctx fl calls (start fl unicode h0)

    served-Run : Run fl unicode (all_docs jwt unicode ctx calls (first_docs unicode h0)) served
    served-Run =
        serve_all-Run jwt unicode ctx fl calls (first_docs unicode h0) (start fl unicode h0)
          (start-Run fl unicode h0)

    -- After the start and any sequence of requests the index holds exactly the documents that the
    -- requests leave: the rows that the start or the last reindex read, and those of every file
    -- that was notified since.
    pub served-Holds :
        Holds fl unicode (all_docs jwt unicode ctx calls (first_docs unicode h0)) served
        × IsClean fl served
    served-Holds =
        run-Holds fl unicode (all_docs jwt unicode ctx calls (first_docs unicode h0)) served
          served-Run

    -- After the start and any sequence of requests that leave less than 2^62 documents, a search
    -- request that has passed its checks and asks for a page up to 2^56 is answered with 200 and a
    -- result.
    pub search_answers :
        (h : Host) (params : Text → Option Text) (victim : ℕ) (at : Times)
        → IsNear h params
        → length (all_docs jwt unicode ctx calls (first_docs unicode h0)) < 2 ^ 62
        → (r : SearchResult F) × ((handle_search fl unicode h params victim at served).0
            ≡ respond 200 (search_result r))
    search_answers h params victim at near small =
        handle_search-Run h params victim at
          (all_docs jwt unicode ctx calls (first_docs unicode h0)) served near served-Run small
