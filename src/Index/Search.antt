-- ===== src/Index/Search.antt =====
-- Search, filterScan and the management of the index of search-service/internal/indexer/index.go.
use telemetry_search_engine.Common.{
  ℕ, ◌+◌, ◌-◌, ◌/◌, ◌%◌, List, [], ◌∷◌, ◌++◌, map, Text, Map, Option, none, some, get, put, delete,
  nat_eq, text_eq, Bool, true, false, not, ◌&&◌, ◌||◌, length, get_elem?, take, drop, ltb, leb,
  if◌then◌else◌, sort_by,
}
use telemetry_search_engine.Common.Words.{add64, sub64, mul64, min64, less64, is_negative}
use telemetry_search_engine.Float.{Float, float_less}
use telemetry_search_engine.Tokenizer.{tokenize}
use telemetry_search_engine.Index.{
  Document, zero_document, ScoredDoc, SearchQuery, SearchResult, IndexStats, CacheEntry, Index,
}
use telemetry_search_engine.Index.Finalize.{finalize, corpus_size, mean_length}
use telemetry_search_engine.Index.Filters.{field_filters_match, has_field_filters}
use telemetry_search_engine.Index.Wand.{wand_bm25}
use telemetry_search_engine.Index.CacheKey.{build_cache_key}

abbrev pub max_query_len : ℕ
max_query_len = 500

abbrev pub cache_max_size : ℕ
cache_max_size = 1000

-- 30 seconds.
abbrev pub cache_ttl : ℕ
cache_ttl = 30_000_000_000

-- How a call of Search ends; `stuck` is the model's fuel running out.
pub data Outcome (F : Type 0) : Type 0 where
  found : SearchResult F → Outcome F
  panicked stuck : Outcome F

-- What the clock shows when the cache is read, when the search starts, when its duration is taken,
-- and when its result is stored.
pub record Times : Type 0 where
  pub looked : ℕ
  pub started : ℕ
  pub finished : ℕ
  pub stored : ℕ

-- The bounds of the page, `lo` and the number of documents, or `none` where the slice panics.
unfoldable pub page_bounds : ℕ → ℕ → ℕ → Option (ℕ × ℕ)
page_bounds page page_size total =
    let lo = min64 (mul64 (sub64 page 1) page_size) total in
    let hi = min64 (add64 lo page_size) total in
    if is_negative lo || less64 hi lo then none else some (lo, hi - lo)

abbrev pub truncate : SearchQuery → SearchQuery
truncate q =
    if ltb max_query_len (length q.query)
    then record q { query = take max_query_len q.query }
    else q

-- The entry that a loop over the map meets first is any entry; `victim` chooses it.
abbrev pub key_at :
    {F : Type 0} → Option (Text × CacheEntry F) → Map Text (CacheEntry F) → Map Text (CacheEntry F)
key_at none cache = cache
key_at (some (k, _)) cache = delete k cache

unfoldable pub evict : {F : Type 0} → ℕ → Map Text (CacheEntry F) → Map Text (CacheEntry F)
evict victim cache =
    if leb cache_max_size (length cache)
    then key_at (get_elem? cache (victim % length cache)) cache
    else cache

abbrev pub is_none {ℓ} : {A : Type ℓ} → List A → Bool
is_none [] = true
is_none (x ∷ xs) = false

abbrev document_of : Option Document → Document
document_of none = zero_document
document_of (some doc) = doc

module _ (fl : Float) where
  open fl use {F, of_nat, div, neg}

  module _ (unicode : Text → Text) where
    -- The loop of filterScan; the order of the map is that of its entries.
    unfoldable pub matching : SearchQuery → Map ℕ Document → List (ScoredDoc F)
    matching q [] = []
    matching q ((id, doc) ∷ docs) =
        let rest = matching q docs in
        if field_filters_match unicode doc q
        then record { id = id; score = neg (of_nat id) } ∷ rest
        else rest

    abbrev pub lower_score : ScoredDoc F → ScoredDoc F → Bool
    lower_score a b = float_less fl a.score b.score

    unfoldable pub filter_scan : SearchQuery → Index F → List (ScoredDoc F)
    filter_scan q idx = sort_by lower_score (matching q idx.docs)

    abbrev pub fresh : Option (CacheEntry F) → ℕ → Option (SearchResult F)
    fresh none now = none
    fresh (some e) now = if ltb now e.expires_at then some e.result else none

    abbrev pub hydrate : Index F → List (ScoredDoc F) → List Document
    hydrate idx ranked = map (λ (sd : ScoredDoc F). document_of (get sd.id idx.docs)) ranked

    -- Search once the bounds of the page are known; `none` is the panic of the slice.
    unfoldable pub store_page :
        SearchQuery
        → Text
        → ℕ
        → Times
        → List (ScoredDoc F)
        → Index F
        → Option (ℕ × ℕ)
        → Outcome F × Index F
    store_page q key victim at ranked idx none = (panicked, idx)
    store_page q key victim at ranked idx (some (lo, n)) =
        let result : SearchResult F = record {
          documents = hydrate idx (take n (drop lo ranked));
          total_count = length ranked;
          page = q.page;
          page_size = q.page_size;
          took_ms = div (of_nat ((at.finished - at.started) / 1000)) (of_nat 1000);
          cache_hit = false;
        } in
        let entry : CacheEntry F = record { result = result; expires_at = at.stored + cache_ttl } in
        (found result, record idx { cache = put key entry (evict victim idx.cache) })

    -- Search from the ranking on.
    unfoldable pub paginate :
        SearchQuery → Text → ℕ → Times → Option (List (ScoredDoc F)) × Index F → Outcome F × Index F
    paginate q key victim at (none, idx) = (stuck, idx)
    paginate q key victim at (some ranked, idx) =
        store_page q key victim at ranked idx (page_bounds q.page q.page_size (length ranked))

    abbrev pub empty_result : SearchQuery → SearchResult F
    empty_result q = record {
      documents = [];
      total_count = 0;
      page = q.page;
      page_size = q.page_size;
      took_ms = of_nat 0;
      cache_hit = false;
    }

    unfoldable pub ranking :
        SearchQuery → List Text → Index F → Option (List (ScoredDoc F)) × Index F
    ranking q tokens idx =
        if is_none tokens
        then (some (filter_scan q idx), idx)
        else wand_bm25 fl unicode tokens q (corpus_size fl idx) (mean_length fl idx) idx

    -- Search on a query of legal length, after a miss in the cache.
    unfoldable pub search_index : SearchQuery → Text → ℕ → Times → Index F → Outcome F × Index F
    search_index q key victim at idx =
        let final = finalize fl idx in
        let tokens = tokenize unicode q.query in
        if is_none tokens && not (has_field_filters q)
        then (found (empty_result q), final)
        else paginate q key victim at (ranking q tokens final)

    abbrev pub answer :
        SearchQuery → Text → ℕ → Times → Index F → Option (SearchResult F) → Outcome F × Index F
    answer q key victim at idx none = search_index q key victim at idx
    answer q key victim at idx (some r) = (found (record r { cache_hit = true }), idx)

    -- Search.
    unfoldable pub search_documents : SearchQuery → ℕ → Times → Index F → Outcome F × Index F
    search_documents given victim at idx =
        let q = truncate given in
        let key = build_cache_key q in
        answer q key victim at idx (fresh (get key idx.cache) at.looked)

  unfoldable pub add_file : Text → Index F → Index F
  add_file name idx = record idx { files = idx.files ++ name ∷ [] }

  unfoldable pub set_ready : Bool → Index F → Index F
  set_ready v idx = record idx { ready = v }

  unfoldable pub is_ready : Index F → Bool
  is_ready idx = idx.ready

  unfoldable pub reset : Index F → Index F
  reset idx = record idx {
    docs = [];
    doc_lengths = [];
    inverted = [];
    dirty = [];
    total_length = 0;
    next_id = 0;
    files = [];
    ready = false;
    cache = [];
  }

  unfoldable pub stats : Index F → IndexStats
  stats idx = record {
    total_documents = length idx.docs;
    total_terms = length idx.inverted;
    files = idx.files;
    index_ready = idx.ready;
  }

  unfoldable pub invalidate_cache : Index F → Index F
  invalidate_cache idx = record idx { cache = [] }
