-- ===== src/Index/Cache.antt =====
-- The result cache of Search: its keys, its size and what a hit returns.
use telemetry_search_engine.Common.{
  ℕ, zero, suc, ◌+◌, ◌%◌, ◌≤◌, ◌<◌, ◌≡◌, refl, ◌∙◌, List, [], ◌∷◌, ◌++◌, Text, Map, Option, none,
  some, get, get-put, delete, length, length-put, get_elem?, text_eq, text_beq_iff, true, false,
  not, ◌&&◌, ltb, leb, eqb, arith, Bool-cases, inl, inr, codes,
}
use mathlib.Core.Path.{subst}
use mathlib.Core.List.{append_assoc}
use telemetry_search_engine.Float.{Float}
use telemetry_search_engine.Tokenizer.{tokenize}
use telemetry_search_engine.Index.{ScoredDoc, SearchQuery, SearchResult, CacheEntry, Index}
use telemetry_search_engine.Index.Filters.{has_field_filters}
use telemetry_search_engine.Index.CacheKey.{build_cache_key}
use telemetry_search_engine.Index.Final.{finalize-cache}
use telemetry_search_engine.Index.Finalize.{finalize, corpus_size}
use telemetry_search_engine.Index.Wand.{open_list, open_cursors, wand_bm25}
use telemetry_search_engine.Index.{PostingList, num_entries}
use telemetry_search_engine.Index.Search.{
  Outcome, found, Times, cache_max_size, cache_ttl, truncate, evict, answer, page_bounds,
  store_page, paginate, ranking, search_index, search_documents, fresh, is_none,
}

-- Two different queries with one key: a "|" in the query text can stand for the separator, so a
-- result that is cached for the one is served for the other.
pub build_cache_key_collision :
    (a b : Text) (q : SearchQuery)
    → build_cache_key (record q { query = a ++ codes "|" ++ b; sender = [] })
      ≡ build_cache_key (record q { query = a; sender = b ++ codes "|" })
unfolding build_cache_key
build_cache_key_collision a b q = simp append_assoc

get_elem?-found :
    {A : Type 0} (i : ℕ) (m : List A) → i < length m → (x : A) × (get_elem? m i ≡ some x)
get_elem?-found i [] h = absurd (omega arith)
get_elem?-found zero (x ∷ m) h = (x, refl)
get_elem?-found (suc i) (x ∷ m) h = get_elem?-found i m (omega arith)

module _ {F : Type 0} where
  length-delete : (k : Text) (m : Map Text (CacheEntry F)) → length (delete k m) ≤ length m
  unfolding delete
  length-delete k [] = omega arith
  length-delete k ((j, v) ∷ m) = ground (arith, length-delete k m)

  length-delete_found :
      (i : ℕ) (k : Text) (v : CacheEntry F) (m : Map Text (CacheEntry F))
      → get_elem? m i ≡ some (k, v)
      → length (delete k m) < length m
  unfolding delete
  length-delete_found i k v [] h = cc
  length-delete_found zero k v ((j, w) ∷ m) h = ground (arith, length-delete k m, text_beq_iff j k)
  length-delete_found (suc i) k v ((j, w) ∷ m) h = ground (arith, length-delete_found i k v m h)

  -- After an eviction there is room for one more entry.
  evict-lt :
      (victim : ℕ) (m : Map Text (CacheEntry F))
      → length m ≤ cache_max_size
      → length (evict victim m) < cache_max_size
  unfolding evict
  evict-lt victim m h = elim (Bool-cases (leb cache_max_size (length m))) [
    | inl e ↦
        let ((k, v), at) = get_elem?-found (victim % length m) m (ground arith) in
        rw (e, at) (omega (arith, length-delete_found (victim % length m) k v m at))
    | inr e ↦ rw e (ground arith)
  ]

module _ (fl : Float) where
  open fl use {F}

  open_list-cache :
      (n : F) (tok : Text) (idx : Index F) (o : Option (PostingList F))
      → ((open_list fl n tok idx o).1).cache ≡ idx.cache
  open_list-cache n tok idx none = refl
  open_list-cache n tok idx (some pl) = elim (Bool-cases (eqb (num_entries pl.blocks) 0)) [
    | inl e ↦ rw e
    | inr e ↦ rw e
  ]

  open_cursors-cache :
      (n : F) (toks : List Text) (idx : Index F)
      → ((open_cursors fl n toks idx).1).cache ≡ idx.cache
  unfolding open_cursors
  open_cursors-cache n [] idx = refl
  open_cursors-cache n (tok ∷ toks) idx =
      open_cursors-cache n toks (open_list fl n tok idx (get tok idx.inverted)).1
      ∙ open_list-cache n tok idx (get tok idx.inverted)

  module _ (unicode : Text → Text) where
    pub ranking-cache :
        (q : SearchQuery) (toks : List Text) (idx : Index F)
        → ((ranking fl unicode q toks idx).1).cache ≡ idx.cache
    unfolding ranking wand_bm25
    ranking-cache q toks idx = elim (Bool-cases (is_none toks)) [
      | inl e ↦ rw e
      | inr e ↦ rw e (open_cursors-cache (corpus_size fl idx) toks idx)
    ]

    module _ (q : SearchQuery) (key : Text) (victim : ℕ) (at : Times) where
      store_page-le :
          (ranked : List (ScoredDoc F)) (idx : Index F) (b : Option (ℕ × ℕ))
          → length idx.cache ≤ cache_max_size
          → length ((store_page fl unicode q key victim at ranked idx b).1).cache ≤ cache_max_size
      unfolding store_page
      store_page-le ranked idx none h = h
      store_page-le ranked idx (some (lo, n)) h =
          omega (arith, length-put key _ (evict victim idx.cache), evict-lt victim idx.cache h)

      paginate-le :
          (r : Option (List (ScoredDoc F)) × Index F)
          → length (r.1).cache ≤ cache_max_size
          → length ((paginate fl unicode q key victim at r).1).cache ≤ cache_max_size
      unfolding paginate
      paginate-le (none, idx) h = h
      paginate-le (some ranked, idx) h =
          store_page-le ranked idx (page_bounds q.page q.page_size (length ranked)) h

      search_index-le :
          (idx : Index F)
          → length idx.cache ≤ cache_max_size
          → length ((search_index fl unicode q key victim at idx).1).cache ≤ cache_max_size
      unfolding search_index
      search_index-le idx h =
          let final = finalize fl idx in
          let small : length final.cache ≤ cache_max_size = rw (finalize-cache fl idx) h in
          elim (Bool-cases (is_none (tokenize unicode q.query) && not (has_field_filters q))) [
            | inl e ↦ rw e small
            | inr e ↦ rw e (
                paginate-le (ranking fl unicode q (tokenize unicode q.query) final)
                  (rw (ranking-cache q (tokenize unicode q.query) final) small))
          ]

      -- The result that a search returned is in the cache it leaves.
      abbrev Stored : Outcome F × Index F → Type 0
      Stored (o, idx) =
          (r : SearchResult F)
          → o ≡ found r
          → get key idx.cache ≡ some (record { result = r; expires_at = at.stored + cache_ttl })

      store_page-Stored :
          (ranked : List (ScoredDoc F)) (idx : Index F) (b : Option (ℕ × ℕ))
          → Stored (store_page fl unicode q key victim at ranked idx b)
      unfolding store_page
      store_page-Stored ranked idx none r e = cc
      store_page-Stored ranked idx (some (lo, n)) r e =
          rw (get-put key key _ (evict victim idx.cache), (text_beq_iff key key).1 refl) (cc)

      paginate-Stored :
          (p : Option (List (ScoredDoc F)) × Index F)
          → Stored (paginate fl unicode q key victim at p)
      unfolding paginate
      paginate-Stored (none, idx) = λ r e. cc
      paginate-Stored (some ranked, idx) =
          store_page-Stored ranked idx (page_bounds q.page q.page_size (length ranked))

      search_index-Stored :
          (idx : Index F)
          → (is_none (tokenize unicode q.query) && not (has_field_filters q)) ≡ false
          → Stored (search_index fl unicode q key victim at idx)
      unfolding search_index
      search_index-Stored idx e =
          rw e (paginate-Stored (ranking fl unicode q (tokenize unicode q.query) (finalize fl idx)))

      answer-le :
          (idx : Index F) (hit : Option (SearchResult F))
          → length idx.cache ≤ cache_max_size
          → length ((answer fl unicode q key victim at idx hit).1).cache ≤ cache_max_size
      answer-le idx none h = search_index-le idx h
      answer-le idx (some r) h = h

    -- The cache never grows past 1000 entries, whatever is searched.
    pub search-cache_le :
        (q : SearchQuery) (victim : ℕ) (at : Times) (idx : Index F)
        → length idx.cache ≤ cache_max_size
        → length ((search_documents fl unicode q victim at idx).1).cache ≤ cache_max_size
    unfolding search_documents
    search-cache_le q victim at idx h =
        let key = build_cache_key (truncate q) in
        answer-le (truncate q) key victim at idx (fresh fl unicode (get key idx.cache) at.looked) h

    -- A search that misses the cache, and has a token or a filter, is answered from the cache when
    -- it is made again within 30 seconds: with the same result, marked as a hit, and no change of
    -- state.
    pub search-search :
        (q : SearchQuery) (v v' : ℕ) (at later : Times) (idx idx' : Index F) (r : SearchResult F)
        → fresh fl unicode (get (build_cache_key (truncate q)) idx.cache) at.looked ≡ none
        → (is_none (tokenize unicode (truncate q).query) && not (has_field_filters (truncate q)))
          ≡ false
        → search_documents fl unicode q v at idx ≡ (found r, idx')
        → later.looked < at.stored + cache_ttl
        → search_documents fl unicode q v' later idx'
          ≡ (found (record r { cache_hit = true }), idx')
    unfolding search_documents
    search-search q v v' at later idx idx' r miss asked e soon =
        let key = build_cache_key (truncate q) in
        let ran : search_index fl unicode (truncate q) key v at idx ≡ (found r, idx') =
          rw miss at e in
        let kept : Stored (truncate q) key v at (found r, idx') =
          subst (Stored (truncate q) key v at) ran
            (search_index-Stored (truncate q) key v at idx asked) in
        let stored = kept r refl in
        let live : ltb later.looked (at.stored + cache_ttl) ≡ true = ground arith in
        rw (stored, live)
