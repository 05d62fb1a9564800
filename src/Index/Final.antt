-- ===== src/Index/Final.antt =====
-- Finalize keeps what the index holds, and leaves every posting list sorted and blocked.
use telemetry_search_engine.Common.{
  ℕ, ◌≡◌, ◌⊎◌, refl, ap, sym, ◌∙◌, List, [], ◌∷◌, ◌++◌, Text, Map, none, get, get-put, length,
  nat_eq, text_eq, text_beq, text_beq_iff, arith, Bool-cases, Option-cases, inl, inr, sort_by,
}
use telemetry_search_engine.Float.{Float}
use telemetry_search_engine.Index.{PostingEntry, Block, PostingList, Index, flat_entries}
use telemetry_search_engine.Index.Inversion.{posting, IsCounted}
use telemetry_search_engine.Index.Loaded.{SameStore}
use telemetry_search_engine.Index.Blocks.{flat, flat-chunks, IsBlocked, chunks-IsBlocked}
use telemetry_search_engine.Index.Finalize.{
  entry_less, make_blocks, rebuild, sort_and_block, sort_all, corpus_size, mean_length,
  finalize_tokens, finalize,
}

abbrev pub block_entries : {F : Type 0} → List (Block F) → List (List PostingEntry)
block_entries [] = []
block_entries (blk ∷ blks) = blk.entries ∷ block_entries blks

module _ (fl : Float) where
  open fl use {F}

  block_entries-make_blocks :
      (lengths : Map ℕ F) (avg_len : F) (cs : List (List PostingEntry))
      → block_entries (make_blocks fl lengths avg_len cs) ≡ cs
  unfolding make_blocks
  block_entries-make_blocks lengths avg_len [] = refl
  block_entries-make_blocks lengths avg_len (c ∷ cs) =
      ap (◌∷◌ c) (block_entries-make_blocks lengths avg_len cs)

  flat-block_entries : (blks : List (Block F)) → flat_entries blks ≡ flat (block_entries blks)
  unfolding flat
  flat-block_entries [] = refl
  flat-block_entries (blk ∷ blks) = ap (◌++◌ blk.entries) (flat-block_entries blks)

  -- What one posting list must satisfy once it is final.
  abbrev pub IsFinal : PostingList F → Type 0
  IsFinal pl = IsBlocked (block_entries pl.blocks)

  module _ (lengths : Map ℕ F) (n avg_len : F) (pl : PostingList F) where
    rebuild-doc_freq : (rebuild fl lengths n avg_len pl).doc_freq ≡ pl.doc_freq
    unfolding rebuild
    rebuild-doc_freq = refl

    rebuild-IsFinal : IsFinal (rebuild fl lengths n avg_len pl)
    unfolding rebuild
    rebuild-IsFinal = rw (block_entries-make_blocks lengths avg_len) (
        chunks-IsBlocked (length (sort_by entry_less (flat_entries pl.blocks)))
          (sort_by entry_less (flat_entries pl.blocks)))

    -- The rebuilt blocks hold the entries of the old ones, sorted by document.
    pub flat_entries-rebuild :
        flat_entries (rebuild fl lengths n avg_len pl).blocks
        ≡ sort_by entry_less (flat_entries pl.blocks)
    unfolding rebuild
    flat_entries-rebuild =
        flat-block_entries (rebuild fl lengths n avg_len pl).blocks
        ∙ rw (block_entries-make_blocks lengths avg_len) (
            flat-chunks (length (sort_by entry_less (flat_entries pl.blocks)))
              (sort_by entry_less (flat_entries pl.blocks)) (omega arith))

  module _ (es : List PostingEntry) (sorted : sort_by entry_less es ≡ es) where
    -- A counted posting list with the entries `es`.
    abbrev pub Lists : PostingList F → Type 0
    Lists pl = (flat_entries pl.blocks ≡ es) × IsCounted fl pl

    pub rebuild-Lists :
        (lengths : Map ℕ F) (n avg_len : F) (pl : PostingList F)
        → Lists pl
        → Lists (rebuild fl lengths n avg_len pl)
    rebuild-Lists lengths n avg_len pl (e, c) =
        let same : flat_entries (rebuild fl lengths n avg_len pl).blocks ≡ es =
          flat_entries-rebuild lengths n avg_len pl ∙ rw e sorted in
        (same, rebuild-doc_freq lengths n avg_len pl ∙ c ∙ ap length (e ∙ sym same))

  posting-sort_and_block :
      (tok u : Text) (n avg_len : F) (idx : Index F)
      → (posting fl (sort_and_block fl tok n avg_len idx) u ≡ posting fl idx u)
        ⊎ (posting fl (sort_and_block fl tok n avg_len idx) u
            ≡ rebuild fl idx.doc_lengths n avg_len (posting fl idx u))
  unfolding sort_and_block
  posting-sort_and_block tok u n avg_len idx = elim (Option-cases (get tok idx.inverted)) [
    | inl e ↦ rw e (inl refl)
    | inr (pl, e) ↦
        rw (e, get-put tok u (rebuild fl idx.doc_lengths n avg_len pl) idx.inverted)
          (elim (Bool-cases (text_beq tok u)) [
            | inl t ↦ let same : tok ≡ u = (text_beq_iff tok u).0 t in inr (rw (t, ← same, e))
            | inr t ↦ inl (rw t)
          ])
  ]

  sort_and_block-IsFinal :
      (tok : Text) (n avg_len : F) (idx : Index F)
      → IsFinal (posting fl (sort_and_block fl tok n avg_len idx) tok)
  unfolding sort_and_block
  sort_and_block-IsFinal tok n avg_len idx = elim (Option-cases (get tok idx.inverted)) [
    | inl e ↦ rw (e, e) tt
    | inr (pl, e) ↦
        rw
          (
            e,
            get-put tok tok (rebuild fl idx.doc_lengths n avg_len pl) idx.inverted,
            (text_beq_iff tok tok).1 refl,
          )
          (rebuild-IsFinal idx.doc_lengths n avg_len pl)
  ]

  sort_and_block-SameStore :
      (tok : Text) (n avg_len : F) (idx : Index F)
      → SameStore fl (sort_and_block fl tok n avg_len idx) idx
  unfolding sort_and_block
  sort_and_block-SameStore tok n avg_len idx = elim (Option-cases (get tok idx.inverted)) [
    | inl e ↦ rw e (record {
      docs = refl;
      doc_lengths = refl;
      total_length = refl;
      next_id = refl;
      cache = refl;
    })
    | inr (pl, e) ↦ rw e (record {
      docs = refl;
      doc_lengths = refl;
      total_length = refl;
      next_id = refl;
      cache = refl;
    })
  ]

  pub sort_all-SameStore :
      (toks : Map Text (Unit {0})) (n avg_len : F) (idx : Index F)
      → SameStore fl (sort_all fl toks n avg_len idx) idx
  unfolding sort_all
  sort_all-SameStore [] n avg_len idx = record {
    docs = refl;
    doc_lengths = refl;
    total_length = refl;
    next_id = refl;
    cache = refl;
  }
  sort_all-SameStore ((tok, _) ∷ toks) n avg_len idx =
      let a = sort_and_block-SameStore tok n avg_len idx in
      let b = sort_all-SameStore toks n avg_len (sort_and_block fl tok n avg_len idx) in
      record {
        docs = b.docs ∙ a.docs;
        doc_lengths = b.doc_lengths ∙ a.doc_lengths;
        total_length = b.total_length ∙ a.total_length;
        next_id = b.next_id ∙ a.next_id;
        cache = b.cache ∙ a.cache;
      }

  -- What rebuilding keeps, the loop keeps.
  pub sort_all-keep :
      (P : PostingList F → Type 0)
      → ((lengths : Map ℕ F) (n avg_len : F) (pl : PostingList F)
          → P pl
          → P (rebuild fl lengths n avg_len pl))
      → (toks : Map Text (Unit {0})) (n avg_len : F) (idx : Index F) (u : Text)
      → P (posting fl idx u)
      → P (posting fl (sort_all fl toks n avg_len idx) u)
  unfolding sort_all
  sort_all-keep P keep [] n avg_len idx u p = p
  sort_all-keep P keep ((tok, _) ∷ toks) n avg_len idx u p =
      sort_all-keep P keep toks n avg_len (sort_and_block fl tok n avg_len idx) u
        (elim (posting-sort_and_block tok u n avg_len idx) [
          | inl e ↦ rw e p
          | inr e ↦ rw e (keep idx.doc_lengths n avg_len (posting fl idx u) p)
        ])

  sort_all-IsFinal :
      (toks : Map Text (Unit {0})) (n avg_len : F) (idx : Index F) (u : Text)
      → (get u toks ≡ none → IsFinal (posting fl idx u))
      → IsFinal (posting fl (sort_all fl toks n avg_len idx) u)
  unfolding sort_all get
  sort_all-IsFinal [] n avg_len idx u h = h refl
  sort_all-IsFinal ((tok, _) ∷ toks) n avg_len idx u h = elim (Bool-cases (text_beq tok u)) [
    | inl e ↦
        let same : tok ≡ u = (text_beq_iff tok u).0 e in
        rw (← same) (
          sort_all-keep IsFinal (λ lengths m a pl _. rebuild-IsFinal lengths m a pl) toks n avg_len
            (sort_and_block fl tok n avg_len idx) tok (sort_and_block-IsFinal tok n avg_len idx))
    | inr e ↦ sort_all-IsFinal toks n avg_len (sort_and_block fl tok n avg_len idx) u (λ q.
        let p = h (rw e q) in
        elim (posting-sort_and_block tok u n avg_len idx) [
          | inl same ↦ rw same p
          | inr new ↦ rw new (rebuild-IsFinal idx.doc_lengths n avg_len (posting fl idx u))
        ])
  ]

  finalize_tokens-IsFinal :
      (toks : Map Text (Unit {0})) (idx : Index F) (u : Text)
      → (get u toks ≡ none → IsFinal (posting fl idx u))
      → IsFinal (posting fl (finalize_tokens fl toks idx) u)
  unfolding get
  finalize_tokens-IsFinal [] idx u h = h refl
  finalize_tokens-IsFinal (tok ∷ toks) idx u h =
      sort_all-IsFinal (tok ∷ toks) (corpus_size fl idx) (mean_length fl idx) idx u h

  finalize_tokens-dirty :
      (toks : Map Text (Unit {0})) (idx : Index F)
      → idx.dirty ≡ toks
      → (finalize_tokens fl toks idx).dirty ≡ []
  finalize_tokens-dirty [] idx h = h
  finalize_tokens-dirty (tok ∷ toks) idx h = refl

  -- If every token whose postings are not in blocks is marked dirty, Finalize leaves every posting
  -- list in blocks of 64 entries, the last of 1 to 64, and no token dirty.
  pub finalize-IsFinal :
      (idx : Index F)
      → ((u : Text) → get u idx.dirty ≡ none → IsFinal (posting fl idx u))
      → ((u : Text) → IsFinal (posting fl (finalize fl idx) u)) × ((finalize fl idx).dirty ≡ [])
  unfolding finalize
  finalize-IsFinal idx h =
      (λ u. finalize_tokens-IsFinal idx.dirty idx u (h u), finalize_tokens-dirty idx.dirty idx refl)

  finalize_tokens-cache :
      (toks : Map Text (Unit {0})) (idx : Index F) → (finalize_tokens fl toks idx).cache ≡ idx.cache
  finalize_tokens-cache [] idx = refl
  finalize_tokens-cache (tok ∷ toks) idx =
      (sort_all-SameStore (tok ∷ toks) (corpus_size fl idx) (mean_length fl idx) idx).cache

  pub finalize-cache : (idx : Index F) → (finalize fl idx).cache ≡ idx.cache
  unfolding finalize
  finalize-cache idx = finalize_tokens-cache idx.dirty idx
