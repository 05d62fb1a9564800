-- ===== src/Index/Serial.antt =====
-- Operations of the index that do not overlap are some of those that may: Search in one step is
-- Search from one lock to the next with nothing in between.
use telemetry_search_engine.Common.{
  ℕ, ◌≡◌, refl, sym, List, [], Text, Option, none, some, get, text_eq, Bool, true, false, not, ◌&&◌,
  length, ◌⊎◌, inl, inr, Bool-cases,
}
use mathlib.Core.Path.{subst}
use telemetry_search_engine.Float.{Float}
use telemetry_search_engine.Tokenizer.{tokenize}
use telemetry_search_engine.Index.{Document, ScoredDoc, SearchQuery, SearchResult, Index}
use telemetry_search_engine.Index.Finalize.{finalize}
use telemetry_search_engine.Index.Filters.{has_field_filters}
use telemetry_search_engine.Index.CacheKey.{build_cache_key}
use telemetry_search_engine.Index.Search.{
  Outcome, found, Times, truncate, is_none, page_bounds, store_page, paginate, ranking,
  search_index, fresh, answer, search_documents,
}
use telemetry_search_engine.Index.Runs
use telemetry_search_engine.Index.Runs.{Run}
use telemetry_search_engine.Index.Overlap.{
  page_of, page_ranked, rank_page, store_result, hold, Overlap, begun, missed, finalized_by,
  ranked_by, stored_by, added, finalized, filed, readied, cleared, invalidated,
}

module _ (fl : Float) (unicode : Text → Text) where
  open fl use {F}

  -- What a search answers and leaves once it has ranked, if nothing comes in between.
  abbrev pub finish :
      SearchQuery → ℕ → Times → (Outcome F ⊎ SearchResult F) × Index F → Outcome F × Index F
  finish q victim at (inl outcome, idx) = (outcome, idx)
  finish q victim at (inr result, idx) = (
    found result,
    store_result fl unicode (record { query = q; victim = victim; at = at; result = result }) idx,
  )

  module _ (q : SearchQuery) (victim : ℕ) (at : Times) where
    store_page-finish :
        (ranked : List (ScoredDoc F)) (idx : Index F) (b : Option (ℕ × ℕ))
        → store_page fl unicode q (build_cache_key q) victim at ranked idx b
          ≡ finish q victim at (page_of fl unicode q at ranked idx b, idx)
    unfolding store_page store_result
    store_page-finish ranked idx none = refl
    store_page-finish ranked idx (some (lo, n)) = refl

    paginate-finish :
        (p : Option (List (ScoredDoc F)) × Index F)
        → paginate fl unicode q (build_cache_key q) victim at p
          ≡ finish q victim at (page_ranked fl unicode q at p)
    unfolding paginate
    paginate-finish (none, idx) = refl
    paginate-finish (some ranked, idx) =
        store_page-finish ranked idx (page_bounds q.page q.page_size (length ranked))

    -- A search that missed the cache, in one step, answers and leaves what its steps do, Finalize,
    -- then the ranking, then the write to the cache, if nothing comes in between.
    pub search_index-finish :
        (idx : Index F)
        → search_index fl unicode q (build_cache_key q) victim at idx
          ≡ finish q victim at (rank_page fl unicode q at (finalize fl idx))
    unfolding search_index rank_page
    search_index-finish idx =
        let toks = tokenize unicode q.query in
        elim (Bool-cases (is_none toks && not (has_field_filters q))) [
          | inl e ↦ rw e refl
          | inr e ↦ rw e (paginate-finish (ranking fl unicode q toks (finalize fl idx)))
        ]

    finished :
        (ds : List Document) (c : Bool) (p : (Outcome F ⊎ SearchResult F) × Index F)
        → Overlap fl unicode ds c
            (hold fl unicode q victim at p.0 (record { index = p.1; waiting = []; holders = [] }))
        → Overlap fl unicode ds c
            (record { index = (finish q victim at p).1; waiting = []; holders = [] })
    finished ds c (inl outcome, idx) r = r
    finished ds c (inr result, idx) r =
        stored_by [] [] (record { query = q; victim = victim; at = at; result = result }) refl r

  abbrev Alone : List Document → Bool → Index F → Type 0
  Alone ds c idx = Overlap fl unicode ds c (record { index = idx; waiting = []; holders = [] })

  answer-Alone :
      (ds : List Document) (c : Bool) (given : SearchQuery) (victim : ℕ) (at : Times)
      (idx : Index F) (o : Option (SearchResult F))
      → fresh fl unicode (get (build_cache_key (truncate given)) idx.cache) at.looked ≡ o
      → Alone ds c idx
      → Alone ds c
          (answer fl unicode (truncate given) (build_cache_key (truncate given)) victim at idx o).1
  answer-Alone ds c given victim at idx (some r) hit s = s
  answer-Alone ds c given victim at idx none miss s =
      let q = truncate given in
      let ranked =
        ranked_by [] [] q victim at refl
          (finalized_by [] [] q victim at refl refl (missed given victim at miss s)) in
      subst (λ (x : Outcome F × Index F). Alone ds c x.1)
        (sym (search_index-finish q victim at idx))
        (finished q victim at ds c (rank_page fl unicode q at (finalize fl idx)) ranked)

  search-Alone :
      (ds : List Document) (c : Bool) (given : SearchQuery) (victim : ℕ) (at : Times)
      (idx : Index F)
      → Alone ds c idx
      → Alone ds c (search_documents fl unicode given victim at idx).1
  unfolding search_documents
  search-Alone ds c given victim at idx s =
      answer-Alone ds c given victim at idx
        (fresh fl unicode (get (build_cache_key (truncate given)) idx.cache) at.looked) refl s

  -- Every state that operations reach of which each, Search included, is run to its end before the
  -- next, overlapping operations reach too, with no search under way.
  pub run_overlaps :
      (ds : List Document) (idx : Index F)
      → Run fl unicode ds idx
      → (c : Bool) × Overlap fl unicode ds c (record { index = idx; waiting = []; holders = [] })
  run_overlaps _ _ Runs.created = (false, begun)
  run_overlaps _ _ (Runs.added {ds} {idx} doc r) =
      let (c, s) = run_overlaps ds idx r in (true, added doc refl s)
  run_overlaps _ _ (Runs.finalized {ds} {idx} r) =
      let (c, s) = run_overlaps ds idx r in (c, finalized refl s)
  run_overlaps _ _ (Runs.searched {ds} {idx} q victim at r) =
      let (c, s) = run_overlaps ds idx r in (c, search-Alone ds c q victim at idx s)
  run_overlaps _ _ (Runs.filed {ds} {idx} name r) =
      let (c, s) = run_overlaps ds idx r in (c, filed name refl s)
  run_overlaps _ _ (Runs.readied {ds} {idx} v r) =
      let (c, s) = run_overlaps ds idx r in (c, readied v refl s)
  run_overlaps _ _ (Runs.invalidated {ds} {idx} r) =
      let (c, s) = run_overlaps ds idx r in (false, invalidated s)
  run_overlaps _ _ (Runs.cleared {ds} {idx} r) =
      let (c, s) = run_overlaps ds idx r in (false, cleared refl s)
