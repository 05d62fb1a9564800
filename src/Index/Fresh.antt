-- ===== src/Index/Fresh.antt =====
-- The results that overlapping searches hold and cache: each is the page of a ranking over the
-- documents the index has.
use telemetry_search_engine.Index.Cached.{
  IsRanked, IsCached, Held, rank_page-Holds, new_index-IsCached, empty-IsCached, evict-IsCached,
  put-IsCached, same-IsCached,
}
use telemetry_search_engine.Common.{
  ℕ, ◌≡◌, refl, List, [], ◌∷◌, ◌++◌, Text, text_eq, Bool, false, ◌⊎◌, inl, inr, All, All-middle,
}
use telemetry_search_engine.Float.{Float}
use telemetry_search_engine.Index.{Document, SearchQuery, SearchResult, new_index}
use telemetry_search_engine.Index.Final.{finalize-cache}
use telemetry_search_engine.Index.Finalized.{finalize-Holds}
use telemetry_search_engine.Index.Loaded.{Holds, new_index-Holds, add_document-Holds}
use telemetry_search_engine.Index.Content.{managed-SameContent, SameContent-Holds}
use telemetry_search_engine.Index.Runs.{reset-SameContent}
use telemetry_search_engine.Index.CacheKey.{build_cache_key}
use telemetry_search_engine.Index.Search.{
  Outcome, Times, add_file, set_ready, reset, invalidate_cache,
}
use telemetry_search_engine.Index.Overlap.{
  Holder, Shared, rank_page, store_result, hold, Overlap, begun, missed, finalized_by, ranked_by,
  stored_by, added, finalized, filed, readied, cleared, invalidated,
}

module _ (fl : Float) (unicode : Text → Text) where
  open fl use {F}

  -- What a state of overlapping operations keeps.
  pub record IsFresh (ds : List Document) (changed : Bool) (s : Shared F) : Type 0 where
    pub holds : Holds fl unicode ds s.index
    pub held : All (Held fl unicode ds) s.holders
    pub cached : changed ≡ false → IsCached fl unicode ds s.index.cache

  hold-IsFresh :
      (ds : List Document) (c : Bool) (s : Shared F) (q : SearchQuery) (victim : ℕ) (at : Times)
      (o : Outcome F ⊎ SearchResult F)
      → ((r : SearchResult F) → o ≡ inr r → IsRanked fl unicode ds q at r)
      → IsFresh ds c s
      → IsFresh ds c (hold fl unicode q victim at o s)
  hold-IsFresh ds c s q victim at (inl outcome) h fresh = fresh
  hold-IsFresh ds c s q victim at (inr result) h fresh = record {
    holds = fresh.holds;
    held = (h result refl, fresh.held);
    cached = fresh.cached;
  }

  stored-IsFresh :
      (ds : List Document) (c : Bool) (s : Shared F) (h : Holder F) (others : List (Holder F))
      → IsFresh ds c s
      → Held fl unicode ds h
      → All (Held fl unicode ds) others
      → IsFresh ds c (record s { index = store_result fl unicode h s.index; holders = others })
  unfolding store_result
  stored-IsFresh ds c s h others f answer rest = record {
    holds =
        SameContent-Holds fl unicode ds _ s.index
          (managed-SameContent fl s.index.files s.index.ready _ s.index) f.holds;
    held = rest;
    cached = λ e.
        put-IsCached fl unicode ds (build_cache_key h.query) _ _ (h.query, h.at, refl, answer)
          (evict-IsCached fl unicode ds h.victim s.index.cache (f.cached e));
  }

  filed-IsFresh :
      (ds : List Document) (c : Bool) (s : Shared F) (name : Text)
      → IsFresh ds c s
      → IsFresh ds c (record s { index = add_file fl name s.index })
  unfolding add_file
  filed-IsFresh ds c s name f = record {
    holds =
        SameContent-Holds fl unicode ds _ s.index
          (managed-SameContent fl (s.index.files ++ name ∷ []) s.index.ready s.index.cache s.index)
          f.holds;
    held = f.held;
    cached = f.cached;
  }

  readied-IsFresh :
      (ds : List Document) (c : Bool) (s : Shared F) (v : Bool)
      → IsFresh ds c s
      → IsFresh ds c (record s { index = set_ready fl v s.index })
  unfolding set_ready
  readied-IsFresh ds c s v f = record {
    holds =
        SameContent-Holds fl unicode ds _ s.index
          (managed-SameContent fl s.index.files v s.index.cache s.index) f.holds;
    held = f.held;
    cached = f.cached;
  }

  cleared-IsFresh :
      (s : Shared F) → s.holders ≡ [] → IsFresh [] false (record s { index = reset fl s.index })
  unfolding reset
  cleared-IsFresh s free = record {
    holds =
        SameContent-Holds fl unicode [] _ (new_index F) (reset-SameContent fl unicode s.index)
          (new_index-Holds fl unicode);
    held = rw free tt;
    cached = λ _. empty-IsCached fl unicode [];
  }

  invalidated-IsFresh :
      (ds : List Document) (c : Bool) (s : Shared F)
      → IsFresh ds c s
      → IsFresh ds false (record s { index = invalidate_cache fl s.index })
  unfolding invalidate_cache
  invalidated-IsFresh ds c s f = record {
    holds =
        SameContent-Holds fl unicode ds _ s.index
          (managed-SameContent fl s.index.files s.index.ready [] s.index) f.holds;
    held = f.held;
    cached = λ _. empty-IsCached fl unicode ds;
  }

  -- However searches and the index's other operations overlap, the index holds exactly the documents
  -- added since the last reset. Every result that a search has still to store is the page that its
  -- query gave when it was ranked in a state that such operations lead to with exactly these
  -- documents, their lists finalized or not; and if no document was added since the cache was last
  -- emptied, every cached result is such a page, of some query with its key.
  pub overlap-IsFresh :
      (ds : List Document) (c : Bool) (s : Shared F) → Overlap fl unicode ds c s → IsFresh ds c s
  overlap-IsFresh _ _ _ begun = record {
    holds = new_index-Holds fl unicode;
    held = tt;
    cached = λ _. new_index-IsCached fl unicode;
  }
  overlap-IsFresh _ _ _ (missed {ds} {c} {s} given victim at miss r) =
      let f = overlap-IsFresh ds c s r in
      record { holds = f.holds; held = f.held; cached = f.cached }
  overlap-IsFresh _ _ _ (finalized_by {ds} {c} {s} before after q victim at w free r) =
      let f = overlap-IsFresh ds c s r in
      record {
        holds = finalize-Holds fl unicode ds s.index f.holds;
        held = f.held;
        cached = λ e. same-IsCached fl unicode ds (finalize-cache fl s.index) (f.cached e);
      }
  overlap-IsFresh _ _ _ (ranked_by {ds} {c} {s} before after q victim at w r) =
      let f = overlap-IsFresh ds c s r in
      let (holds, same) = rank_page-Holds fl unicode ds q at s.index f.holds in
      hold-IsFresh ds c _ q victim at (rank_page fl unicode q at s.index).0
        (λ result e. (c, s, r, e))
        (record {
          holds = holds;
          held = f.held;
          cached = λ e. same-IsCached fl unicode ds same (f.cached e);
        })
  overlap-IsFresh _ _ _ (stored_by {ds} {c} {s} before after h w r) =
      let f = overlap-IsFresh ds c s r in
      let (answer, others) = All-middle (Held fl unicode ds) before h after (rw w at f.held) in
      stored-IsFresh ds c s h (before ++ after) f answer others
  overlap-IsFresh _ _ _ (added {ds} {c} {s} doc free r) =
      let f = overlap-IsFresh ds c s r in
      record {
        holds = add_document-Holds fl unicode ds doc s.index f.holds;
        held = rw free tt;
        cached = λ e. cc;
      }
  overlap-IsFresh _ _ _ (finalized {ds} {c} {s} free r) =
      let f = overlap-IsFresh ds c s r in
      record {
        holds = finalize-Holds fl unicode ds s.index f.holds;
        held = f.held;
        cached = λ e. same-IsCached fl unicode ds (finalize-cache fl s.index) (f.cached e);
      }
  overlap-IsFresh _ _ _ (filed {ds} {c} {s} name free r) =
      filed-IsFresh ds c s name (overlap-IsFresh ds c s r)
  overlap-IsFresh _ _ _ (readied {ds} {c} {s} v free r) =
      readied-IsFresh ds c s v (overlap-IsFresh ds c s r)
  overlap-IsFresh _ _ _ (cleared {ds} {c} {s} free r) = cleared-IsFresh s free
  overlap-IsFresh _ _ _ (invalidated {ds} {c} {s} r) =
      invalidated-IsFresh ds c s (overlap-IsFresh ds c s r)
