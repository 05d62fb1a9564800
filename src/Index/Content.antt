-- ===== src/Index/Content.antt =====
-- Search and the management operations leave what the index holds as it is.
use telemetry_search_engine.Common.{
  ℕ, ◌≡◌, refl, ap, ◌∙◌, sym, List, [], ◌∷◌, Text, Map, get, get-put, nat_eq, text_eq, text_beq,
  text_beq_iff, Option, none, some, Bool, not, ◌&&◌, length, eqb, Bool-cases, inl, inr,
}
use telemetry_search_engine.Float.{Float}
use telemetry_search_engine.Tokenizer.{tokenize}
use telemetry_search_engine.Index.{
  Document, PostingList, ScoredDoc, SearchQuery, SearchResult, CacheEntry, Index, flat_entries,
  num_entries,
}
use telemetry_search_engine.Index.Filters.{has_field_filters}
use telemetry_search_engine.Index.CacheKey.{build_cache_key}
use telemetry_search_engine.Index.Inversion.{posting}
use telemetry_search_engine.Index.Loaded.{Holds}
use telemetry_search_engine.Index.Finalize.{finalize, corpus_size, idf_func, global_max}
use telemetry_search_engine.Index.Final.{finalize-IsFinal}
use telemetry_search_engine.Index.Finalized.{finalize-Holds}
use telemetry_search_engine.Index.Clean.{IsClean}
use telemetry_search_engine.Index.Wand.{open_list, open_cursors, wand_bm25}
use telemetry_search_engine.Index.Search.{
  Times, truncate, is_none, page_bounds, store_page, paginate, ranking, search_index, fresh, answer,
  search_documents,
}

module _ (fl : Float) where
  open fl use {F, of_nat, mul}

  -- Two indexes that differ at most in maxScores, files, readiness and cache.
  pub record SameContent (a b : Index F) : Type 0 where
    pub docs : a.docs ≡ b.docs
    pub doc_lengths : a.doc_lengths ≡ b.doc_lengths
    pub total_length : a.total_length ≡ b.total_length
    pub next_id : a.next_id ≡ b.next_id
    pub dirty : a.dirty ≡ b.dirty
    pub blocks : (u : Text) → (posting fl a u).blocks ≡ (posting fl b u).blocks
    pub doc_freq : (u : Text) → (posting fl a u).doc_freq ≡ (posting fl b u).doc_freq

  pub same_content : (a : Index F) → SameContent a a
  same_content a = record {
    docs = refl;
    doc_lengths = refl;
    total_length = refl;
    next_id = refl;
    dirty = refl;
    blocks = λ u. refl;
    doc_freq = λ u. refl;
  }

  -- Files, readiness and cache are no content.
  pub managed-SameContent :
      (files : List Text) (ready : Bool) (cache : Map Text (CacheEntry F)) (idx : Index F)
      → SameContent (record idx { files = files; ready = ready; cache = cache }) idx
  managed-SameContent files ready cache idx = record {
    docs = refl;
    doc_lengths = refl;
    total_length = refl;
    next_id = refl;
    dirty = refl;
    blocks = λ u. refl;
    doc_freq = λ u. refl;
  }

  SameContent-trans : (a b c : Index F) → SameContent a b → SameContent b c → SameContent a c
  SameContent-trans a b c p q = record {
    docs = p.docs ∙ q.docs;
    doc_lengths = p.doc_lengths ∙ q.doc_lengths;
    total_length = p.total_length ∙ q.total_length;
    next_id = p.next_id ∙ q.next_id;
    dirty = p.dirty ∙ q.dirty;
    blocks = λ u. p.blocks u ∙ q.blocks u;
    doc_freq = λ u. p.doc_freq u ∙ q.doc_freq u;
  }

  pub SameContent-Holds :
      (unicode : Text → Text) (ds : List Document) (a b : Index F)
      → SameContent a b
      → Holds fl unicode ds b
      → Holds fl unicode ds a
  SameContent-Holds unicode ds a b s h = record {
    docs = λ k. ap (get k) s.docs ∙ h.docs k;
    doc_lengths = λ k. ap (get k) s.doc_lengths ∙ h.doc_lengths k;
    doc_count = ap length s.docs ∙ h.doc_count;
    next_id = s.next_id ∙ h.next_id;
    total_length = s.total_length ∙ h.total_length;
    postings = λ u. ap flat_entries (s.blocks u) ∙ h.postings u;
    counted =
        λ u. s.doc_freq u ∙ h.counted u ∙ ap (λ bs. length (flat_entries bs)) (sym (s.blocks u));
  }

  pub SameContent-IsClean : (a b : Index F) → SameContent a b → IsClean fl b → IsClean fl a
  SameContent-IsClean a b s c u h = rw (s.blocks u) (c u (rw s.dirty at h))

  open_list-SameContent :
      (n : F) (tok : Text) (idx : Index F) (o : Option (PostingList F))
      → get tok idx.inverted ≡ o
      → SameContent (open_list fl n tok idx o).1 idx
  open_list-SameContent n tok idx none e = same_content idx
  open_list-SameContent n tok idx (some pl) e = elim (Bool-cases (eqb (num_entries pl.blocks) 0)) [
    | inl z ↦ rw z (same_content idx)
    | inr z ↦
        let idf = idf_func fl (of_nat pl.doc_freq) n in
        let fresh : PostingList F = record pl {
          max_score = mul idf (global_max fl (of_nat 0) pl.blocks);
        } in
        rw z (record {
          docs = refl;
          doc_lengths = refl;
          total_length = refl;
          next_id = refl;
          dirty = refl;
          blocks = λ u. rw (get-put tok u fresh idx.inverted) (elim (Bool-cases (text_beq tok u)) [
            | inl t ↦ let same : tok ≡ u = (text_beq_iff tok u).0 t in rw (t, ← same, e)
            | inr t ↦ rw t
          ]);
          doc_freq = λ u.
              rw (get-put tok u fresh idx.inverted) (elim (Bool-cases (text_beq tok u)) [
                | inl t ↦ let same : tok ≡ u = (text_beq_iff tok u).0 t in rw (t, ← same, e)
                | inr t ↦ rw t
              ]);
        })
  ]

  open_cursors-SameContent :
      (n : F) (toks : List Text) (idx : Index F) → SameContent (open_cursors fl n toks idx).1 idx
  unfolding open_cursors
  open_cursors-SameContent n [] idx = same_content idx
  open_cursors-SameContent n (tok ∷ toks) idx =
      let mid = (open_list fl n tok idx (get tok idx.inverted)).1 in
      SameContent-trans (open_cursors fl n toks mid).1 mid idx (open_cursors-SameContent n toks mid)
        (open_list-SameContent n tok idx (get tok idx.inverted) refl)

  module _ (unicode : Text → Text) where
    pub ranking-SameContent :
        (q : SearchQuery) (toks : List Text) (idx : Index F)
        → SameContent (ranking fl unicode q toks idx).1 idx
    unfolding ranking wand_bm25
    ranking-SameContent q toks idx = elim (Bool-cases (is_none toks)) [
      | inl e ↦ rw e (same_content idx)
      | inr e ↦ rw e (open_cursors-SameContent (corpus_size fl idx) toks idx)
    ]

    -- Only the cache differs from where a result is stored.
    paginate-SameContent :
        (q : SearchQuery) (key : Text) (victim : ℕ) (at : Times)
        (r : Option (List (ScoredDoc F)) × Index F)
        → SameContent (paginate fl unicode q key victim at r).1 r.1
    unfolding paginate
    paginate-SameContent q key victim at (none, idx) = same_content idx
    paginate-SameContent q key victim at (some ranked, idx) =
        stored (page_bounds q.page q.page_size (length ranked))
      where
        stored :
            (b : Option (ℕ × ℕ))
            → SameContent (store_page fl unicode q key victim at ranked idx b).1 idx
        stored none = unfold store_page in same_content idx
        stored (some (lo, n)) = unfold store_page in managed-SameContent idx.files idx.ready _ idx

    search_index-SameContent :
        (q : SearchQuery) (key : Text) (victim : ℕ) (at : Times) (idx : Index F)
        → SameContent (search_index fl unicode q key victim at idx).1 (finalize fl idx)
    unfolding search_index
    search_index-SameContent q key victim at idx =
        let final = finalize fl idx in
        let toks = tokenize unicode q.query in
        let r = ranking fl unicode q toks final in
        elim (Bool-cases (is_none toks && not (has_field_filters q))) [
          | inl e ↦ rw e (same_content final)
          | inr e ↦ rw e (
              SameContent-trans (paginate fl unicode q key victim at r).1 r.1 final
                (paginate-SameContent q key victim at r) (ranking-SameContent q toks final))
        ]

    pub finalize-IsClean : (idx : Index F) → IsClean fl idx → IsClean fl (finalize fl idx)
    finalize-IsClean idx c u h = (finalize-IsFinal fl idx c).0 u

    -- Search keeps what the index holds, and the marks.
    pub search-Holds :
        (q : SearchQuery) (victim : ℕ) (at : Times) (ds : List Document) (idx : Index F)
        → Holds fl unicode ds idx
        → IsClean fl idx
        → let after = (search_documents fl unicode q victim at idx).1 in
          Holds fl unicode ds after × IsClean fl after
    unfolding search_documents
    search-Holds given victim at ds idx h c =
        answered (fresh fl unicode (get (build_cache_key (truncate given)) idx.cache) at.looked)
      where
        answered :
            (hit : Option (SearchResult F))
            → let after =
                (answer fl unicode
                  (truncate given)
                  (build_cache_key (truncate given))
                  victim
                  at
                  idx
                  hit).1 in
              Holds fl unicode ds after × IsClean fl after
        answered (some r) = (h, c)
        answered none =
            let after =
              (search_index fl unicode (truncate given) (build_cache_key (truncate given)) victim at
                idx).1 in
            let same =
              search_index-SameContent (truncate given) (build_cache_key (truncate given)) victim at
                idx in
            (
              SameContent-Holds unicode ds after (finalize fl idx) same
                  (finalize-Holds fl unicode ds idx h),
              SameContent-IsClean after (finalize fl idx) same (finalize-IsClean idx c),
            )
