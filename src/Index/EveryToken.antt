-- ===== src/Index/EveryToken.antt =====
-- wandBM25 and the documents that have every token of the query.
use telemetry_search_engine.Common.{
  ℕ, ◌+◌, ◌≤◌, ◌≡◌, refl, ap, sym, ◌∙◌, List, [], ◌∷◌, Text, get, get-put, nat_eq, text_eq,
  text_beq, Option, none, some, true, length, get_elem?, eqb, All, All-map, All-append, contains,
  arith, Bool-cases, inl, inr, ◌⊎◌,
}
use telemetry_search_engine.Index.Seek.{IsAscending}
use telemetry_search_engine.Index.Remaining.{ahead}
use telemetry_search_engine.Index.Distinct.{IsOrdered}
use telemetry_search_engine.Index.Once.{scan_once, first-IsOnceOnly}
use telemetry_search_engine.Index.Finalize.{global_max, idf_func}
use telemetry_search_engine.Float.{Float, FloatSum}
use telemetry_search_engine.Index.{
  Document, PostingList, ScoredDoc, SearchQuery, Index, flat_entries, num_entries,
}
use telemetry_search_engine.Index.Inversion.{posting}
use telemetry_search_engine.Index.Loaded.{Holds, inversion, tokens_of, stamp}
use telemetry_search_engine.Index.Final.{IsFinal}
use telemetry_search_engine.Index.Filters.{field_filters_match}
use telemetry_search_engine.Index.Sound.{open_cursors-docs}
use telemetry_search_engine.Index.Tally.{sum_of-ranked_of, length-ranked_of}
use telemetry_search_engine.Index.Active.{IsActive, sort_active-IsActive}
use telemetry_search_engine.Index.Ends.{scan_ends}
use telemetry_search_engine.Index.Total.{
  IsSearchable, Holds-IsSearchable, inversion-IsAscending, open_cursors-IsGood, wand_bm25_ends,
}
use telemetry_search_engine.Index.Turns.{sort_active-AllWait}
use telemetry_search_engine.Index.Kept.{awaited, is_doc, times_ranked, scan-Kept}
use telemetry_search_engine.Index.Complete.{IsScoring, Holds-Offers, open_cursors-Waits}
use telemetry_search_engine.Index.Wand.{
  top_k, sort_active, Scan, scan, matches, open_list, open_cursors, entry_total, ranked_of,
  wand_bm25,
}

module _ (fl : Float) where
  open fl use {F, of_nat}

  -- The postings of every token are in the order of their documents.
  abbrev IsInOrder : Index F → Type 0
  IsInOrder idx =
      (u : Text) (pl : PostingList F)
      → get u idx.inverted ≡ some pl
      → IsAscending (flat_entries pl.blocks)

  open_list-IsOrdered :
      (n : F) (tok : Text) (idx : Index F) (o : Option (PostingList F))
      → get tok idx.inverted ≡ o
      → IsInOrder idx
      → let (opened, idx') = open_list fl n tok idx o in All IsOrdered opened × IsInOrder idx'
  open_list-IsOrdered n tok idx none e s = (tt, s)
  open_list-IsOrdered n tok idx (some pl) e s = elim (Bool-cases (eqb (num_entries pl.blocks) 0)) [
    | inl z ↦ rw z (tt, s)
    | inr z ↦
        let fresh : PostingList F = record pl {
          max_score =
              fl.mul (idf_func fl (of_nat pl.doc_freq) n) (global_max fl (of_nat 0) pl.blocks);
        } in
        let asc = s tok pl e in
        rw z (
          (unfold ahead in (asc, tt)),
          (λ u p h. elim (Bool-cases (text_beq tok u)) [
            | inl q ↦
                let found : some fresh ≡ some p = rw (get-put tok u fresh idx.inverted, q) at h in
                let same : fresh ≡ p = cc in rw (← same) asc
            | inr q ↦ s u p (rw (get-put tok u fresh idx.inverted, q) at h)
          ]),
        )
  ]

  open_cursors-IsOrdered :
      (n : F) (toks : List Text) (idx : Index F)
      → IsInOrder idx
      → All IsOrdered (open_cursors fl n toks idx).0
  unfolding open_cursors
  open_cursors-IsOrdered n [] idx s = tt
  open_cursors-IsOrdered n (tok ∷ toks) idx s =
      let o = get tok idx.inverted in
      let (first, s') = open_list-IsOrdered n tok idx o refl s in
      let (opened, idx') = open_list fl n tok idx o in
      All-append IsOrdered opened (open_cursors fl n toks idx').0 first
        (open_cursors-IsOrdered n toks idx' s')

  -- A token that the document has, on a posting list that scores.
  abbrev pub IsHit : (Text → Text) → F → Index F → Document → Text → Type 0
  IsHit unicode n idx doc u =
      (contains (tokens_of unicode doc) u ≡ true) × IsScoring fl n (posting fl idx u)

  module _ (unicode : Text → Text) (q : SearchQuery) where
    Holds-IsInOrder : (ds : List Document) (idx : Index F) → Holds fl unicode ds idx → IsInOrder idx
    Holds-IsInOrder ds idx h u pl e =
        let entries : flat_entries pl.blocks ≡ inversion unicode 0 u ds = rw e at (h.postings u) in
        rw entries (inversion-IsAscending unicode 0 u ds)

    -- The loop of wandBM25 from its first state, with what it leaves.
    record LastScan (toks : List Text) (n avg_len : F) (idx : Index F) : Type 0 where
      last : Scan fl
      ends :
          scan fl unicode q avg_len
            (open_cursors fl n toks idx).1
            (entry_total fl (open_cursors fl n toks idx).0 + 1)
            (record {
              cursors = sort_active (open_cursors fl n toks idx).0;
              heap = [];
              threshold = of_nat 0;
            })
          ≡ some last
      active : IsActive (sort_active (open_cursors fl n toks idx).0)
      ranks : (wand_bm25 fl unicode toks q n avg_len idx).0 ≡ some (ranked_of fl last)

    last_scan :
        (toks : List Text) (n avg_len : F) (idx : Index F)
        → IsSearchable fl idx
        → LastScan toks n avg_len idx
    last_scan toks n avg_len idx s =
        let (cursors, idx') = open_cursors fl n toks idx in
        let (good, size) = open_cursors-IsGood fl n toks idx s in
        let (active, less) = sort_active-IsActive cursors good in
        let first : Scan fl = record {
          cursors = sort_active cursors;
          heap = [];
          threshold = of_nat 0;
        } in
        let (last, end) =
          scan_ends fl unicode q avg_len idx' (entry_total fl cursors + 1) first active
            (omega arith) in
        record { last = last; ends = end; active = active; ranks = unfold wand_bm25 in rw end refl }

    -- On the index that Finalize leaves, wandBM25 ends, and no document is ranked twice.
    pub wand_bm25_once :
        (ds : List Document) (idx : Index F)
        → Holds fl unicode ds idx
        → ((u : Text) → IsFinal fl (posting fl idx u))
        → (toks : List Text) (n avg_len : F)
        → (ranked : List (ScoredDoc F)) × ((wand_bm25 fl unicode toks q n avg_len idx).0
            ≡ some ranked)
          × ((d : ℕ) → times_ranked fl d ranked ≤ 1)
    wand_bm25_once ds idx h final toks n avg_len =
        let s = last_scan toks n avg_len idx (Holds-IsSearchable fl unicode ds idx h final) in
        let (cursors, idx') = open_cursors fl n toks idx in
        let once =
          scan_once fl unicode q avg_len idx' (entry_total fl cursors + 1) _ s.last s.active
            (first-IsOnceOnly fl cursors (of_nat 0)
              (open_cursors-IsOrdered n toks idx (Holds-IsInOrder ds idx h)))
            s.ends in
        (
          ranked_of fl s.last,
          s.ranks,
          λ d. omega (arith, once d, sum_of-ranked_of fl (is_doc fl d) s.last),
        )

    module _ (laws : FloatSum fl) where
      -- On the index that Finalize leaves, wandBM25 ends, and a document that has every token of
      -- the query (at least one) and passes the filters is ranked, exactly once, or the ranking is
      -- full with 1000 documents; the tokens' bounds on the score must be above zero, as idf and
      -- norms are unless a product underflows.
      pub wand_bm25_every_token :
          (ds : List Document) (idx : Index F)
          → Holds fl unicode ds idx
          → ((u : Text) → IsFinal fl (posting fl idx u))
          → (tok : Text) (toks : List Text) (n avg_len : F) (d : ℕ) (doc : Document)
          → get_elem? ds d ≡ some doc
          → All (IsHit unicode n idx doc) (tok ∷ toks)
          → field_filters_match unicode (stamp d doc) q ≡ true
          → (ranked : List (ScoredDoc F)) × ((wand_bm25 fl unicode (tok ∷ toks) q n avg_len idx).0
              ≡ some ranked)
            × ((length ranked ≡ top_k) ⊎ (times_ranked fl d ranked ≡ 1))
      wand_bm25_every_token ds idx h final tok toks n avg_len d doc at hits passes =
          let searchable = Holds-IsSearchable fl unicode ds idx h final in
          let s = last_scan (tok ∷ toks) n avg_len idx searchable in
          let (ranked, ran, once) = wand_bm25_once ds idx h final (tok ∷ toks) n avg_len in
          let (_, ran', few, _) =
            wand_bm25_ends fl unicode q (tok ∷ toks) n avg_len idx searchable in
          let same : ranked ≡ ranked_of fl s.last = some_inj (sym ran ∙ s.ranks) in
          let same' = some_inj (sym ran' ∙ s.ranks) in
          let (cursors, idx') = open_cursors fl n (tok ∷ toks) idx in
          let (opened, waiting) = open_cursors-Waits fl n d (tok ∷ toks) idx (
            All-map
              (λ (u : Text) (k : IsHit unicode n idx doc u).
                Holds-Offers fl unicode ds idx n d doc u h final at k.0 k.1)
              (tok ∷ toks) hits) in
          let stored : get d idx'.docs ≡ some (stamp d doc) =
            rw (open_cursors-docs fl n (tok ∷ toks) idx, h.docs d, at) refl in
          let found : matches unicode q (get d idx'.docs) ≡ true = rw stored passes in
          let waits = sort_active-AllWait fl d cursors (omega arith, waiting) in
          (
            ranked_of fl s.last,
            s.ranks,
            elim (scan-Kept fl laws unicode q avg_len idx' d (entry_total fl cursors + 1) _ s.last
                found s.active (awaited refl waits) s.ends) [
                  | inl full ↦ inl (omega (arith, few, ap length same', length-ranked_of fl s.last))
                  | inr kept ↦ inr (
                      omega (
                        arith,
                        once d,
                        ap (times_ranked fl d) same,
                        sum_of-ranked_of fl (is_doc fl d) s.last,
                      ))
                ],
          )
        where
          some_inj : {a b : List (ScoredDoc F)} → some a ≡ some b → a ≡ b
          some_inj e = cc
