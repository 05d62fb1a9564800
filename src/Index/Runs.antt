-- ===== src/Index/Runs.antt =====
-- Every sequence of the index's operations, against the list of the documents added since the last
-- reset.
use telemetry_search_engine.Common.{
  ℕ, ◌<◌, ◌^◌, ◌≡◌, List, [], ◌∷◌, ◌++◌, Text, nat_eq, text_eq, Bool, length,
}
use telemetry_search_engine.Float.{Float}
use telemetry_search_engine.Index.{Document, SearchQuery, SearchResult, Index, new_index}
use telemetry_search_engine.Index.Add.{add_document}
use telemetry_search_engine.Index.Loaded.{Holds, new_index-Holds, add_document-Holds}
use telemetry_search_engine.Index.Finalize.{finalize}
use telemetry_search_engine.Index.Finalized.{finalize-Holds}
use telemetry_search_engine.Index.Clean.{IsClean, new_index-IsClean, add_document-IsClean}
use telemetry_search_engine.Index.Search.{
  found, Times, search_documents, add_file, set_ready, reset, invalidate_cache,
}
use telemetry_search_engine.Index.Content.{
  SameContent, managed-SameContent, same_content, SameContent-Holds, SameContent-IsClean,
  finalize-IsClean, search-Holds,
}
use telemetry_search_engine.Index.Answer.{IsPage, search_returns}

module _ (fl : Float) (unicode : Text → Text) where
  open fl use {F}

  -- The index after some operations, and the documents added since the last reset.
  pub data Run : List Document → Index F → Type 0 where
    created : Run [] (new_index F)
    added :
        {ds : List Document} {idx : Index F} (doc : Document)
        → Run ds idx
        → Run (ds ++ doc ∷ []) (add_document fl unicode doc idx)
    finalized : {ds : List Document} {idx : Index F} → Run ds idx → Run ds (finalize fl idx)
    searched :
        {ds : List Document} {idx : Index F} (q : SearchQuery) (victim : ℕ) (at : Times)
        → Run ds idx
        → Run ds (search_documents fl unicode q victim at idx).1
    filed :
        {ds : List Document} {idx : Index F} (name : Text)
        → Run ds idx
        → Run ds (add_file fl name idx)
    readied :
        {ds : List Document} {idx : Index F} (v : Bool) → Run ds idx → Run ds (set_ready fl v idx)
    invalidated :
        {ds : List Document} {idx : Index F} → Run ds idx → Run ds (invalidate_cache fl idx)
    cleared : {ds : List Document} {idx : Index F} → Run ds idx → Run [] (reset fl idx)

  -- The content of an index that holds `ds`, with its marks.
  abbrev Keeps : List Document → Index F → Type 0
  Keeps ds idx = Holds fl unicode ds idx × IsClean fl idx

  same-Keeps : (ds : List Document) (a b : Index F) → SameContent fl a b → Keeps ds b → Keeps ds a
  same-Keeps ds a b s (h, c) =
      (SameContent-Holds fl unicode ds a b s h, SameContent-IsClean fl a b s c)

  pub reset-SameContent : (idx : Index F) → SameContent fl (reset fl idx) (new_index F)
  unfolding reset new_index
  reset-SameContent idx = same_content fl (reset fl idx)

  -- Whatever operations were run, in whatever order, the index holds exactly the documents added
  -- since the last reset, in order, and every token whose postings are not in blocks is marked.
  pub run-Holds :
      (ds : List Document) (idx : Index F) → Run ds idx → Holds fl unicode ds idx × IsClean fl idx
  run-Holds _ _ created = (new_index-Holds fl unicode, new_index-IsClean fl)
  run-Holds _ _ (added {ds} {idx} doc r) =
      let (h, c) = run-Holds ds idx r in
      (add_document-Holds fl unicode ds doc idx h, add_document-IsClean fl unicode doc idx c)
  run-Holds _ _ (finalized {ds} {idx} r) =
      let (h, c) = run-Holds ds idx r in
      (finalize-Holds fl unicode ds idx h, finalize-IsClean fl unicode idx c)
  run-Holds _ _ (searched {ds} {idx} q victim at r) =
      let (h, c) = run-Holds ds idx r in search-Holds fl unicode q victim at ds idx h c
  run-Holds _ _ (filed {ds} {idx} name r) =
      same-Keeps ds (add_file fl name idx) idx
        (unfold add_file in managed-SameContent fl (idx.files ++ name ∷ []) idx.ready idx.cache idx)
        (run-Holds ds idx r)
  run-Holds _ _ (readied {ds} {idx} v r) =
      same-Keeps ds (set_ready fl v idx) idx
        (unfold set_ready in managed-SameContent fl idx.files v idx.cache idx) (run-Holds ds idx r)
  run-Holds _ _ (invalidated {ds} {idx} r) =
      same-Keeps ds (invalidate_cache fl idx) idx
        (unfold invalidate_cache in managed-SameContent fl idx.files idx.ready [] idx)
        (run-Holds ds idx r)
  run-Holds _ _ (cleared {ds} {idx} r) =
      same-Keeps [] (reset fl idx) (new_index F) (reset-SameContent idx)
        (new_index-Holds fl unicode, new_index-IsClean fl)

  -- After any sequence of operations Search returns a result for every query whose page is at least
  -- 1 and whose offset fits an int, if less than 2^62 documents were added.
  pub run-search_returns :
      (ds : List Document) (idx : Index F) (q : SearchQuery) (victim : ℕ) (at : Times)
      → Run ds idx
      → IsPage q
      → length ds < 2 ^ 62
      → (r : SearchResult F) × ((search_documents fl unicode q victim at idx).0 ≡ found r)
  run-search_returns ds idx q victim at r page small =
      let (h, c) = run-Holds ds idx r in search_returns fl unicode q victim at ds idx page h c small
