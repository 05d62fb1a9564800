-- ===== src/Index/Answer.antt =====
-- Search on an index that holds documents: it returns a result.
use telemetry_search_engine.Common.{
  ℕ, ◌-◌, ◌*◌, ◌^◌, ◌≤◌, ◌<◌, ◌≡◌, refl, List, [], ◌∷◌, Text, Map, get, text_eq, Option, none, some,
  true, not, ◌&&◌, length, length-sort_by, ltb, arith, Bool-cases, inl, inr,
}
use telemetry_search_engine.Float.{Float}
use telemetry_search_engine.Tokenizer.{tokenize}
use telemetry_search_engine.Index.{Document, ScoredDoc, SearchQuery, SearchResult, Index}
use telemetry_search_engine.Index.Filters.{field_filters_match, has_field_filters}
use telemetry_search_engine.Index.CacheKey.{build_cache_key}
use telemetry_search_engine.Index.Loaded.{Holds}
use telemetry_search_engine.Index.Finalize.{finalize, corpus_size, mean_length}
use telemetry_search_engine.Index.Final.{finalize-IsFinal}
use telemetry_search_engine.Index.Finalized.{finalize-Holds}
use telemetry_search_engine.Index.Clean.{IsClean}
use telemetry_search_engine.Index.Total.{IsSearchable, Holds-IsSearchable, wand_bm25_ends}
use telemetry_search_engine.Index.Paging.{page_bounds_exact}
use telemetry_search_engine.Index.Search.{
  Outcome, found, Times, max_query_len, truncate, is_none, matching, lower_score, filter_scan,
  store_page, paginate, ranking, search_index, fresh, answer, search_documents,
}

-- A page whose offset fits an int, as the handlers ask for it.
pub record IsPage (q : SearchQuery) : Type 0 where
  pub first : 1 ≤ q.page
  pub page_fits : q.page < 2 ^ 63
  pub size_fits : q.page_size < 2 ^ 62
  pub offset_fits : (q.page - 1) * q.page_size < 2 ^ 63

truncate-IsPage : (q : SearchQuery) → IsPage q → IsPage (truncate q)
truncate-IsPage q h = elim (Bool-cases (ltb max_query_len (length q.query))) [
  | inl e ↦ rw e (record {
    first = h.first;
    page_fits = h.page_fits;
    size_fits = h.size_fits;
    offset_fits = h.offset_fits;
  })
  | inr e ↦ rw e h
]

module _ (fl : Float) (unicode : Text → Text) where
  open fl use {F}

  length-matching :
      (q : SearchQuery) (docs : Map ℕ Document) → length (matching fl unicode q docs) ≤ length docs
  unfolding matching
  length-matching q [] = omega arith
  length-matching q ((id, doc) ∷ docs) = elim (Bool-cases (field_filters_match unicode doc q)) [
    | inl e ↦ rw e (omega (arith, length-matching q docs))
    | inr e ↦ rw e (omega (arith, length-matching q docs))
  ]

  -- Search ranks a list of documents that an int can count.
  ranking_ends :
      (q : SearchQuery) (toks : List Text) (idx : Index F)
      → IsSearchable fl idx
      → length idx.docs < 2 ^ 62
      → (ranked : List (ScoredDoc F)) × ((ranking fl unicode q toks idx).0 ≡ some ranked)
        × (length ranked < 2 ^ 62)
  unfolding ranking
  ranking_ends q toks idx s small = elim (Bool-cases (is_none toks)) [
    | inl e ↦ rw e (
      filter_scan fl unicode q idx,
      refl,
      (unfold filter_scan in
          omega (
            arith,
            length-sort_by (lower_score fl unicode) (matching fl unicode q idx.docs),
            length-matching q idx.docs,
          )),
    )
    | inr e ↦
        let (ranked, ran, few, _) =
          wand_bm25_ends fl unicode q toks (corpus_size fl idx) (mean_length fl idx) idx s in
        rw e (ranked, ran, omega arith)
  ]

  module _ (q : SearchQuery) (key : Text) (victim : ℕ) (at : Times) where
    -- An outcome that is a result.
    abbrev Returns : Outcome F × Index F → Type 0
    Returns (o, idx) = (r : SearchResult F) × (o ≡ found r)

    paginate-Returns :
        (p : Option (List (ScoredDoc F)) × Index F) (ranked : List (ScoredDoc F))
        → IsPage q
        → p.0 ≡ some ranked
        → length ranked < 2 ^ 62
        → Returns (paginate fl unicode q key victim at p)
    unfolding paginate
    paginate-Returns (none, idx) ranked page h small = absurd (cc)
    paginate-Returns (some other, idx) ranked page h small =
        let same : other ≡ ranked = cc in
        let bounds =
          page_bounds_exact q.page q.page_size (length other) page.first page.page_fits
            page.size_fits (rw same small) page.offset_fits in
        rw bounds (unfold store_page in (_, refl))

    search_index-Returns :
        (ds : List Document) (idx : Index F)
        → IsPage q
        → Holds fl unicode ds idx
        → IsClean fl idx
        → length ds < 2 ^ 62
        → Returns (search_index fl unicode q key victim at idx)
    unfolding search_index
    search_index-Returns ds idx page h clean small =
        let final = finalize fl idx in
        let toks = tokenize unicode q.query in
        let held = finalize-Holds fl unicode ds idx h in
        let (ranked, ran, few) =
          ranking_ends q toks final
            (Holds-IsSearchable fl unicode ds final held (finalize-IsFinal fl idx clean).0)
            (omega (arith, held.doc_count)) in
        elim (Bool-cases (is_none toks && not (has_field_filters q))) [
          | inl e ↦ rw e (_, refl)
          | inr e ↦ rw e (paginate-Returns (ranking fl unicode q toks final) ranked page ran few)
        ]

    answer-Returns :
        (ds : List Document) (idx : Index F) (hit : Option (SearchResult F))
        → IsPage q
        → Holds fl unicode ds idx
        → IsClean fl idx
        → length ds < 2 ^ 62
        → Returns (answer fl unicode q key victim at idx hit)
    answer-Returns ds idx none page h clean small = search_index-Returns ds idx page h clean small
    answer-Returns ds idx (some r) page h clean small = (record r { cache_hit = true }, refl)

  -- On an index that holds documents and has marked what it must sort, Search returns a result for
  -- every query whose page is at least 1 and whose offset fits an int: the loop of wandBM25 ends,
  -- and the slice is within its bounds.
  pub search_returns :
      (q : SearchQuery) (victim : ℕ) (at : Times) (ds : List Document) (idx : Index F)
      → IsPage q
      → Holds fl unicode ds idx
      → IsClean fl idx
      → length ds < 2 ^ 62
      → (r : SearchResult F) × ((search_documents fl unicode q victim at idx).0 ≡ found r)
  unfolding search_documents
  search_returns q victim at ds idx page h clean small =
      let key = build_cache_key (truncate q) in
      answer-Returns (truncate q) key victim at ds idx
        (fresh fl unicode (get key idx.cache) at.looked) (truncate-IsPage q page) h clean small
