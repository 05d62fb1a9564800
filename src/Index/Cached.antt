-- ===== src/Index/Cached.antt =====
-- What a cache of answers keeps when a search ranks, evicts and stores.
use telemetry_search_engine.Common.{
  Bool, ℕ, ◌%◌, ◌≡◌, refl, ap, ◌∙◌, sym, List, [], Text, Map, Option, none, some, get, put, delete,
  get-put, get-delete, get_elem?, text_eq, text_beq, text_beq_iff, not, ◌&&◌, length, leb, inl, inr,
  Bool-cases,
}
use telemetry_search_engine.Float.{Float}
use telemetry_search_engine.Tokenizer.{tokenize}
use telemetry_search_engine.Index.{
  Document, ScoredDoc, SearchQuery, SearchResult, CacheEntry, Index, new_index,
}
use telemetry_search_engine.Index.Loaded.{Holds}
use telemetry_search_engine.Index.Content.{SameContent-Holds, ranking-SameContent}
use telemetry_search_engine.Index.Cache.{ranking-cache}
use telemetry_search_engine.Index.Filters.{has_field_filters}
use telemetry_search_engine.Index.CacheKey.{build_cache_key}
use telemetry_search_engine.Index.Search.{Times, cache_max_size, evict, is_none, key_at, ranking}
use telemetry_search_engine.Index.Overlap.{Holder, Shared, Overlap, page_ranked, rank_page}

module _ (fl : Float) (unicode : Text → Text) where
  open fl use {F}

  -- What a search for `q` stores if it ranks in a state that overlapping operations lead to, with
  -- exactly the documents `ds`.
  abbrev pub IsRanked : List Document → SearchQuery → Times → SearchResult F → Type 0
  IsRanked ds q at r =
      (c : Bool) × (s : Shared F) × Overlap fl unicode ds c s
      × ((rank_page fl unicode q at s.index).0 ≡ inr r)

  -- Such a result for some query of the key `k`.
  abbrev pub IsAnswer : List Document → Text → SearchResult F → Type 0
  IsAnswer ds k r = (q : SearchQuery) × (at : Times) × (build_cache_key q ≡ k) × IsRanked ds q at r

  abbrev pub IsCached : List Document → Map Text (CacheEntry F) → Type 0
  IsCached ds m = (k : Text) (e : CacheEntry F) → get k m ≡ some e → IsAnswer ds k e.result

  abbrev pub Held : List Document → Holder F → Type 0
  Held ds h = IsRanked ds h.query h.at h.result

  page_ranked-index :
      (q : SearchQuery) (at : Times) (p : Option (List (ScoredDoc F)) × Index F)
      → (page_ranked fl unicode q at p).1 ≡ p.1
  page_ranked-index q at (none, idx) = refl
  page_ranked-index q at (some ranked, idx) = refl

  -- Ranking changes no document and no cached result.
  pub rank_page-Holds :
      (ds : List Document) (q : SearchQuery) (at : Times) (idx : Index F)
      → Holds fl unicode ds idx
      → Holds fl unicode ds (rank_page fl unicode q at idx).1
        × (((rank_page fl unicode q at idx).1).cache ≡ idx.cache)
  unfolding rank_page
  rank_page-Holds ds q at idx h =
      let toks = tokenize unicode q.query in
      let p = ranking fl unicode q toks idx in
      elim (Bool-cases (is_none toks && not (has_field_filters q))) [
        | inl e ↦ rw e (h, refl)
        | inr e ↦
            rw (e, page_ranked-index q at p)
              (
                SameContent-Holds fl unicode ds p.1 idx (ranking-SameContent fl unicode q toks idx)
                    h,
                ranking-cache fl unicode q toks idx,
              )
      ]

  pub empty-IsCached : (ds : List Document) → IsCached ds []
  unfolding get
  empty-IsCached ds k e g = cc

  pub new_index-IsCached : IsCached [] (new_index F).cache
  unfolding new_index
  new_index-IsCached = empty-IsCached []

  deleted-IsCached :
      (ds : List Document) (j : Text) (m : Map Text (CacheEntry F))
      → IsCached ds m
      → IsCached ds (delete j m)
  deleted-IsCached ds j m h k e g = elim (Bool-cases (text_beq j k)) [
    | inl t ↦ let gone : get k (delete j m) ≡ none = rw (get-delete j k m, t) refl in cc
    | inr t ↦
        let kept : get k (delete j m) ≡ get k m = rw (get-delete j k m, t) refl in
        h k e (sym kept ∙ g)
  ]

  key_at-IsCached :
      (ds : List Document) (o : Option (Text × CacheEntry F)) (m : Map Text (CacheEntry F))
      → IsCached ds m
      → IsCached ds (key_at o m)
  key_at-IsCached ds none m h = h
  key_at-IsCached ds (some (j, w)) m h = deleted-IsCached ds j m h

  pub evict-IsCached :
      (ds : List Document) (victim : ℕ) (m : Map Text (CacheEntry F))
      → IsCached ds m
      → IsCached ds (evict victim m)
  unfolding evict
  evict-IsCached ds victim m h = elim (Bool-cases (leb cache_max_size (length m))) [
    | inl e ↦ rw e (key_at-IsCached ds (get_elem? m (victim % length m)) m h)
    | inr e ↦ rw e h
  ]

  -- Storing a result that is an answer keeps every cached result one.
  pub put-IsCached :
      (ds : List Document) (j : Text) (w : CacheEntry F) (m : Map Text (CacheEntry F))
      → IsAnswer ds j w.result
      → IsCached ds m
      → IsCached ds (put j w m)
  put-IsCached ds j w m a h k e g = elim (Bool-cases (text_beq j k)) [
    | inl t ↦
        let hit : get k (put j w m) ≡ some w = rw (get-put j k w m, t) refl in
        let same : w ≡ e = cc in
        let (q, at, key, (c, s, reached, ranked)) = a in
        (
          q,
          at,
          key ∙ (text_beq_iff j k).0 t,
          (c, s, reached, ranked ∙ ap (λ (v : CacheEntry F). inr v.result) same),
        )
    | inr t ↦
        let kept : get k (put j w m) ≡ get k m = rw (get-put j k w m, t) refl in
        h k e (sym kept ∙ g)
  ]

  pub same-IsCached :
      (ds : List Document) {m m' : Map Text (CacheEntry F)}
      → m' ≡ m
      → IsCached ds m
      → IsCached ds m'
  same-IsCached ds e h k entry g = h k entry (ap (get k) (sym e) ∙ g)
