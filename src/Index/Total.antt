-- ===== src/Index/Total.antt =====
-- wandBM25 on a finalized index: it ends, with documents of the index that pass the filters.
use telemetry_search_engine.Common.{
  ℕ, ◌+◌, ◌≤◌, ◌<◌, ◌≡◌, refl, List, [], ◌∷◌, ◌++◌, Text, get, get-put, text_eq, text_beq, Option,
  none, some, length, length-append, eqb, All, All-map, All-append, contains, arith, Bool-cases,
  inl, inr, sum_of, sum_of-append,
}
use telemetry_search_engine.Float.{Float}
use telemetry_search_engine.Index.{
  Document, PostingEntry, Block, PostingList, ScoredDoc, SearchQuery, Index, flat_entries,
  num_entries,
}
use telemetry_search_engine.Index.Inversion.{posting}
use telemetry_search_engine.Index.Loaded.{Holds, inversion, tokens_of}
use telemetry_search_engine.Index.Blocks.{IsBlocked, inversion-bound}
use telemetry_search_engine.Index.Final.{block_entries, IsFinal}
use telemetry_search_engine.Index.Finalize.{global_max, idf_func}
use telemetry_search_engine.Index.Seek.{IsAscending}
use telemetry_search_engine.Index.Cursor.{Cursor}
use telemetry_search_engine.Index.Remaining.{ahead, IsGood, IsPlaced-zero}
use telemetry_search_engine.Index.Landing.{IsGoodBlock}
use telemetry_search_engine.Index.Active.{weight, sort_active-IsActive}
use telemetry_search_engine.Index.Ends.{scan_ends}
use telemetry_search_engine.Index.Sound.{IsMatching, wand_bm25_sound}
use telemetry_search_engine.Index.Wand.{
  top_k, sort_active, Scan, open_list, open_cursors, entry_total, ranked_of, wand_bm25,
}

-- The postings of a token have ascending numbers, none twice.
pub inversion-IsAscending :
    (unicode : Text → Text) (id : ℕ) (u : Text) (ds : List Document)
    → IsAscending (inversion unicode id u ds)
unfolding inversion
inversion-IsAscending unicode id u [] = tt
inversion-IsAscending unicode id u (d ∷ ds) =
    let rest = inversion-IsAscending unicode (id + 1) u ds in
    elim (Bool-cases (contains (tokens_of unicode d) u)) [
      | inl e ↦ rw e (
        All-map (λ (x : PostingEntry). above id x) (inversion unicode (id + 1) u ds)
            (inversion-bound unicode (id + 1) u ds),
        rest,
      )
      | inr e ↦ rw e rest
    ]
  where
    above : (id : ℕ) (x : PostingEntry) → id + 1 ≤ x.doc_id → id < x.doc_id
    above id x h = omega arith

All-front : (P : PostingEntry → Type 0) (xs ys : List PostingEntry) → All P (xs ++ ys) → All P xs
All-front P [] ys h = tt
All-front P (x ∷ xs) ys (p, h) = (p, All-front P xs ys h)

IsAscending-parts :
    (xs ys : List PostingEntry) → IsAscending (xs ++ ys) → IsAscending xs × IsAscending ys
IsAscending-parts [] ys h = (tt, h)
IsAscending-parts (x ∷ xs) ys (p, h) =
    let (a, b) = IsAscending-parts xs ys h in
    ((All-front (λ (d : PostingEntry). x.doc_id < d.doc_id) xs ys p, a), b)

module _ {F : Type 0} where
  IsBlocked-parts :
      (blk : Block F) (blks : List (Block F))
      → IsBlocked (block_entries (blk ∷ blks))
      → (0 < length blk.entries) × IsBlocked (block_entries blks)
  IsBlocked-parts blk [] h = (omega arith, tt)
  IsBlocked-parts blk (b ∷ blks) (h, k) = (omega arith, k)

  good_blocks :
      (blks : List (Block F))
      → IsBlocked (block_entries blks)
      → IsAscending (flat_entries blks)
      → All IsGoodBlock blks
  good_blocks [] h a = tt
  good_blocks (blk ∷ blks) h a =
      let (full, blocked) = IsBlocked-parts blk blks h in
      let (asc, rest) = IsAscending-parts blk.entries (flat_entries blks) a in
      ((full, asc), good_blocks blks blocked rest)

  pub num_entries-eq-length :
      (blks : List (Block F)) → num_entries blks ≡ length (flat_entries blks)
  unfolding num_entries
  num_entries-eq-length [] = refl
  num_entries-eq-length (blk ∷ blks) =
      omega (arith, num_entries-eq-length blks, length-append blk.entries (flat_entries blks))

module _ (fl : Float) where
  open fl use {F, of_nat}

  -- Every posting list of the index is in blocks that are not empty, with ascending documents.
  abbrev pub IsSearchable : Index F → Type 0
  IsSearchable idx =
      (u : Text) (pl : PostingList F) → get u idx.inverted ≡ some pl → All IsGoodBlock pl.blocks

  -- An index that Finalize leaves is searchable.
  pub Holds-IsSearchable :
      (unicode : Text → Text) (ds : List Document) (idx : Index F)
      → Holds fl unicode ds idx
      → ((u : Text) → IsFinal fl (posting fl idx u))
      → IsSearchable idx
  Holds-IsSearchable unicode ds idx h final u pl e =
      let listed : flat_entries pl.blocks ≡ inversion unicode 0 u ds = rw e at (h.postings u) in
      good_blocks pl.blocks (rw e at (final u)) (rw listed (inversion-IsAscending unicode 0 u ds))

  open_list-IsGood :
      (n : F) (tok : Text) (idx : Index F) (o : Option (PostingList F))
      → get tok idx.inverted ≡ o
      → IsSearchable idx
      → let (opened, idx') = open_list fl n tok idx o in
        All IsGood opened × (sum_of weight opened ≡ entry_total fl opened) × IsSearchable idx'
  unfolding sum_of entry_total
  open_list-IsGood n tok idx none e s = (tt, refl, s)
  open_list-IsGood n tok idx (some pl) e s = elim (Bool-cases (eqb (num_entries pl.blocks) 0)) [
    | inl z ↦ rw z (tt, refl, s)
    | inr z ↦
        let idf = idf_func fl (of_nat pl.doc_freq) n in
        let fresh : PostingList F = record pl {
          max_score = fl.mul idf (global_max fl (of_nat 0) pl.blocks);
        } in
        let good = s tok pl e in
        rw z (
          (record { blocks = good; placed = IsPlaced-zero pl.blocks good }, tt),
          (unfold ahead in omega (arith, num_entries-eq-length pl.blocks)),
          (λ u p h. elim (Bool-cases (text_beq tok u)) [
            | inl q ↦
                let found : some fresh ≡ some p = rw (get-put tok u fresh idx.inverted, q) at h in
                let same : fresh ≡ p = cc in rw (← same) good
            | inr q ↦ s u p (rw (get-put tok u fresh idx.inverted, q) at h)
          ]),
        )
  ]

  entry_total-append :
      (cs ds : List (Cursor F)) → entry_total fl (cs ++ ds) ≡ entry_total fl cs + entry_total fl ds
  unfolding entry_total
  entry_total-append [] ds = omega arith
  entry_total-append (c ∷ cs) ds = omega (arith, entry_total-append cs ds)

  pub open_cursors-IsGood :
      (n : F) (toks : List Text) (idx : Index F)
      → IsSearchable idx
      → let opened = (open_cursors fl n toks idx).0 in
        All IsGood opened × (sum_of weight opened ≡ entry_total fl opened)
  unfolding open_cursors
  open_cursors-IsGood n [] idx s = (tt, (unfold sum_of entry_total in refl))
  open_cursors-IsGood n (tok ∷ toks) idx s =
      let o = get tok idx.inverted in
      let (good, size, s') = open_list-IsGood n tok idx o refl s in
      let opened = (open_list fl n tok idx o).0 in
      let (rest_good, rest_size) = open_cursors-IsGood n toks (open_list fl n tok idx o).1 s' in
      let rest = (open_cursors fl n toks (open_list fl n tok idx o).1).0 in
      (
        All-append IsGood opened rest good rest_good,
        omega (
          arith,
          size,
          rest_size,
          sum_of-append weight opened rest,
          entry_total-append opened rest,
        ),
      )

  module _ (unicode : Text → Text) (q : SearchQuery) where
    -- On a searchable index wandBM25 ends: with at most 1000 documents, all of the index, that pass
    -- the query's filters.
    pub wand_bm25_ends :
        (toks : List Text) (n avg_len : F) (idx : Index F)
        → IsSearchable idx
        → (ranked : List (ScoredDoc F)) × ((wand_bm25 fl unicode toks q n avg_len idx).0
            ≡ some ranked)
          × (length ranked ≤ top_k)
          × All (IsMatching fl unicode q idx) ranked
    wand_bm25_ends toks n avg_len idx s =
        let (cursors, idx') = open_cursors fl n toks idx in
        let (good, size) = open_cursors-IsGood n toks idx s in
        let (active, less) = sort_active-IsActive cursors good in
        let first : Scan fl = record {
          cursors = sort_active cursors;
          heap = [];
          threshold = of_nat 0;
        } in
        let (last, end) =
          scan_ends fl unicode q avg_len idx' (entry_total fl cursors + 1) first active
            (omega arith) in
        let ran : (wand_bm25 fl unicode toks q n avg_len idx).0 ≡ some (ranked_of fl last) =
          unfold wand_bm25 in rw end refl in
        let (few, matching) =
          wand_bm25_sound fl unicode q toks n avg_len idx (ranked_of fl last) ran in
        (ranked_of fl last, ran, few, matching)
