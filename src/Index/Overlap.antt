-- ===== src/Index/Overlap.antt =====
-- Search of search-service/internal/indexer/index.go from one lock to the next, so that searches and
-- the index's other operations overlap.
use telemetry_search_engine.Common.{
  ℕ, ◌+◌, ◌-◌, ◌/◌, ◌≡◌, List, [], ◌∷◌, ◌++◌, Text, Option, none, some, get, put, text_eq, Bool,
  true, false, not, ◌&&◌, length, take, drop, if◌then◌else◌, ◌⊎◌, inl, inr,
}
use telemetry_search_engine.Float.{Float}
use telemetry_search_engine.Tokenizer.{tokenize}
use telemetry_search_engine.Index.{Document, ScoredDoc, SearchQuery, SearchResult, Index, new_index}
use telemetry_search_engine.Index.Add.{add_document}
use telemetry_search_engine.Index.Finalize.{finalize}
use telemetry_search_engine.Index.Filters.{has_field_filters}
use telemetry_search_engine.Index.CacheKey.{build_cache_key}
use telemetry_search_engine.Index.Search.{
  Outcome, found, panicked, stuck, Times, cache_ttl, page_bounds, truncate, evict, is_none, fresh,
  hydrate, empty_result, ranking, add_file, set_ready, reset, invalidate_cache,
}

-- Where a search that missed the cache waits for the index's lock.
pub data Phase : Type 0 where
  to_finalize to_rank : SearchQuery → ℕ → Times → Phase

-- A search that has its result, and the read lock until it has stored it.
pub record Holder (F : Type 0) : Type 0 where
  pub query : SearchQuery
  pub victim : ℕ
  pub at : Times
  pub result : SearchResult F

pub record Shared (F : Type 0) : Type 0 where
  pub index : Index F
  pub waiting : List Phase
  pub holders : List (Holder F)

module _ (fl : Float) (unicode : Text → Text) where
  open fl use {F, of_nat, div}

  -- The page of a ranking, or the panic of the slice.
  abbrev pub page_of :
      SearchQuery
      → Times
      → List (ScoredDoc F)
      → Index F
      → Option (ℕ × ℕ)
      → Outcome F ⊎ SearchResult F
  page_of q at ranked idx none = inl panicked
  page_of q at ranked idx (some (lo, n)) = inr (record {
    documents = hydrate fl unicode idx (take n (drop lo ranked));
    total_count = length ranked;
    page = q.page;
    page_size = q.page_size;
    took_ms = div (of_nat ((at.finished - at.started) / 1000)) (of_nat 1000);
    cache_hit = false;
  })

  abbrev pub page_ranked :
      SearchQuery
      → Times
      → Option (List (ScoredDoc F)) × Index F
      → (Outcome F ⊎ SearchResult F) × Index F
  page_ranked q at (none, idx) = (inl stuck, idx)
  page_ranked q at (some ranked, idx) =
      (page_of q at ranked idx (page_bounds q.page q.page_size (length ranked)), idx)

  -- Search under the read lock, up to its write to the cache: an answer, or a result to store.
  unfoldable pub rank_page : SearchQuery → Times → Index F → (Outcome F ⊎ SearchResult F) × Index F
  rank_page q at idx =
      let tokens = tokenize unicode q.query in
      if is_none tokens && not (has_field_filters q)
      then (inl (found (empty_result fl unicode q)), idx)
      else page_ranked q at (ranking fl unicode q tokens idx)

  -- The write to the cache.
  unfoldable pub store_result : Holder F → Index F → Index F
  store_result h idx = record idx {
    cache =
        put (build_cache_key h.query)
          (record { result = h.result; expires_at = h.at.stored + cache_ttl })
          (evict h.victim idx.cache);
  }

  abbrev pub hold : SearchQuery → ℕ → Times → Outcome F ⊎ SearchResult F → Shared F → Shared F
  hold q victim at (inl outcome) s = s
  hold q victim at (inr result) s = record s {
    holders = record { query = q; victim = victim; at = at; result = result } ∷ s.holders;
  }

  -- What overlapping operations come to: the documents added since the last reset, whether one was
  -- added since the cache was last emptied, and the state. A search that hits the cache changes
  -- nothing; an operation under the write lock waits for the holders of the read lock.
  pub data Overlap : List Document → Bool → Shared F → Type 0 where
    begun : Overlap [] false (record { index = new_index F; waiting = []; holders = [] })
    missed :
        {ds : List Document} {c : Bool} {s : Shared F} (given : SearchQuery) (victim : ℕ)
        (at : Times)
        → fresh fl unicode (get (build_cache_key (truncate given)) s.index.cache) at.looked ≡ none
        → Overlap ds c s
        → Overlap ds c
            (record s { waiting = s.waiting ++ to_finalize (truncate given) victim at ∷ [] })
    finalized_by :
        {ds : List Document} {c : Bool} {s : Shared F} (before after : List Phase) (q : SearchQuery)
        (victim : ℕ) (at : Times)
        → s.waiting ≡ before ++ to_finalize q victim at ∷ after
        → s.holders ≡ []
        → Overlap ds c s
        → Overlap ds c (record s {
          index = finalize fl s.index;
          waiting = before ++ after ++ to_rank q victim at ∷ [];
        })
    ranked_by :
        {ds : List Document} {c : Bool} {s : Shared F} (before after : List Phase) (q : SearchQuery)
        (victim : ℕ) (at : Times)
        → s.waiting ≡ before ++ to_rank q victim at ∷ after
        → Overlap ds c s
        → Overlap ds c (
            hold q victim at
              (rank_page q at s.index).0
              (record s { index = (rank_page q at s.index).1; waiting = before ++ after }))
    stored_by :
        {ds : List Document} {c : Bool} {s : Shared F} (before after : List (Holder F))
        (h : Holder F)
        → s.holders ≡ before ++ h ∷ after
        → Overlap ds c s
        → Overlap ds c (record s { index = store_result h s.index; holders = before ++ after })
    added :
        {ds : List Document} {c : Bool} {s : Shared F} (doc : Document)
        → s.holders ≡ []
        → Overlap ds c s
        → Overlap (ds ++ doc ∷ []) true (record s { index = add_document fl unicode doc s.index })
    finalized :
        {ds : List Document} {c : Bool} {s : Shared F}
        → s.holders ≡ []
        → Overlap ds c s
        → Overlap ds c (record s { index = finalize fl s.index })
    filed :
        {ds : List Document} {c : Bool} {s : Shared F} (name : Text)
        → s.holders ≡ []
        → Overlap ds c s
        → Overlap ds c (record s { index = add_file fl name s.index })
    readied :
        {ds : List Document} {c : Bool} {s : Shared F} (v : Bool)
        → s.holders ≡ []
        → Overlap ds c s
        → Overlap ds c (record s { index = set_ready fl v s.index })
    cleared :
        {ds : List Document} {c : Bool} {s : Shared F}
        → s.holders ≡ []
        → Overlap ds c s
        → Overlap [] false (record s { index = reset fl s.index })
    invalidated :
        {ds : List Document} {c : Bool} {s : Shared F}
        → Overlap ds c s
        → Overlap ds false (record s { index = invalidate_cache fl s.index })
