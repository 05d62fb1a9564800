-- ===== src/Index/Complete.antt =====
-- wandBM25 on a finalized index, for documents that have every token of the query.
use telemetry_search_engine.Common.{
  ℕ, zero, suc, ◌+◌, ◌<◌, ◌≡◌, refl, List, [], ◌∷◌, Text, get, get-put, text_eq, nat_eq, text_beq,
  some, true, false, length, length-append, get_elem?, eqb, All, All-map, All-append, contains,
  arith, Bool-cases, Option-cases, inl, inr,
}
use telemetry_search_engine.Float.{Float}
use telemetry_search_engine.Index.{
  Document, PostingEntry, Block, PostingList, Index, flat_entries, num_entries,
}
use telemetry_search_engine.Index.Inversion.{posting}
use telemetry_search_engine.Index.Loaded.{Holds, inversion, tokens_of}
use telemetry_search_engine.Index.Final.{IsFinal}
use telemetry_search_engine.Index.Finalize.{global_max, idf_func}
use telemetry_search_engine.Index.Seek.{IsAscending}
use telemetry_search_engine.Index.Remaining.{ahead, IsPlaced-zero}
use telemetry_search_engine.Index.Landing.{IsGoodBlock}
use telemetry_search_engine.Index.Total.{
  Holds-IsSearchable, num_entries-eq-length, inversion-IsAscending,
}
use telemetry_search_engine.Index.Conjunctive.{lists_doc}
use telemetry_search_engine.Index.Turns.{Waits, IsPos}
use telemetry_search_engine.Index.Wand.{open_list, open_cursors}

-- A document that has a token is among the token's postings.
inversion-lists_doc :
    (unicode : Text → Text) (id : ℕ) (u : Text) (ds : List Document) (k : ℕ) (doc : Document)
    → get_elem? ds k ≡ some doc
    → contains (tokens_of unicode doc) u ≡ true
    → lists_doc (id + k) (inversion unicode id u ds) ≡ true
unfolding inversion lists_doc
inversion-lists_doc unicode id u [] k doc at h = cc
inversion-lists_doc unicode id u (x ∷ ds) zero doc at h =
    let same : x ≡ doc = cc in rw (same, h) (ground arith)
inversion-lists_doc unicode id u (x ∷ ds) (suc k) doc at h =
    let rest = inversion-lists_doc unicode (id + 1) u ds k doc at h in
    let e : id + 1 + k ≡ id + suc k = omega arith in
    elim (Bool-cases (contains (tokens_of unicode x) u)) [
      | inl t ↦ rw t (ground arith)
      | inr f ↦ rw f (rw e at rest)
    ]

module _ (fl : Float) where
  open fl use {F, of_nat, mul}

  -- The token's idf times the norms of its blocks is above zero.
  abbrev pub IsScoring : F → PostingList F → Type 0
  IsScoring n pl =
      IsPos fl (mul (idf_func fl (of_nat pl.doc_freq) n) (global_max fl (of_nat 0) pl.blocks))
      × All (λ (blk : Block F). IsPos fl (mul (idf_func fl (of_nat pl.doc_freq) n) blk.max_norm))
          pl.blocks

  -- A posting list in order that lists the document.
  pub record IsOffered (n : F) (d : ℕ) (pl : PostingList F) : Type 0 where
    good : All IsGoodBlock pl.blocks
    ordered : IsAscending (flat_entries pl.blocks)
    listed : lists_doc d (flat_entries pl.blocks) ≡ true
    scoring : IsScoring n pl

  abbrev pub Offers : F → ℕ → Index F → Text → Type 0
  Offers n d idx u = (pl : PostingList F) × (get u idx.inverted ≡ some pl) × IsOffered n d pl

  not_empty :
      (n : F) (d : ℕ) (pl : PostingList F)
      → IsOffered n d pl
      → eqb (num_entries pl.blocks) 0 ≡ false
  not_empty n d pl o =
      ground (arith, some_entry (flat_entries pl.blocks) o.listed, num_entries-eq-length pl.blocks)
    where
      some_entry : (es : List PostingEntry) → lists_doc d es ≡ true → 0 < length es
      some_entry [] l = absurd (let f : false ≡ true = unfold lists_doc in l in cc)
      some_entry (e ∷ es) l = omega arith

  -- The cursor that is opened for such a list waits for the document; the other lists stay.
  open_list-Waits :
      (n : F) (d : ℕ) (tok : Text) (idx : Index F) (pl : PostingList F)
      → IsOffered n d pl
      → let (opened, idx') = open_list fl n tok idx (some pl) in
        (length opened ≡ 1)
        × All (Waits fl d) opened
        × ((u : Text) → Offers n d idx u → Offers n d idx' u)
  open_list-Waits n d tok idx pl o =
      let idf = idf_func fl (of_nat pl.doc_freq) n in
      let fresh : PostingList F = record pl {
        max_score = mul idf (global_max fl (of_nat 0) pl.blocks);
      } in
      let ready : IsOffered n d fresh = record {
        good = o.good;
        ordered = o.ordered;
        listed = o.listed;
        scoring = o.scoring;
      } in
      rw (not_empty n d pl o) (
        refl,
        (
          (
            record {
              good = record { blocks = o.good; placed = IsPlaced-zero pl.blocks o.good };
              ordered = unfold ahead in o.ordered;
              listed = unfold ahead in o.listed;
            },
            o.scoring,
          ),
          tt,
        ),
        λ u (p, e, k). elim (Bool-cases (text_beq tok u)) [
          | inl q ↦ (fresh, rw (get-put tok u fresh idx.inverted, q) refl, ready)
          | inr q ↦ (p, rw (get-put tok u fresh idx.inverted, q) e, k)
        ],
      )

  pub open_cursors-Waits :
      (n : F) (d : ℕ) (toks : List Text) (idx : Index F)
      → All (Offers n d idx) toks
      → let opened = (open_cursors fl n toks idx).0 in
        (length opened ≡ length toks) × All (Waits fl d) opened
  unfolding open_cursors
  open_cursors-Waits n d [] idx h = (refl, tt)
  open_cursors-Waits n d (tok ∷ toks) idx ((pl, e, o), h) =
      let (one, waiting, others) = open_list-Waits n d tok idx pl o in
      let (opened, idx') = open_list fl n tok idx (some pl) in
      let (size, rest) = open_cursors-Waits n d toks idx' (All-map others toks h) in
      let more = (open_cursors fl n toks idx').0 in
      rw e
        (omega (arith, length-append opened more), All-append (Waits fl d) opened more waiting rest)

  module _ (unicode : Text → Text) (ds : List Document) (idx : Index F) where
    pub Holds-Offers :
        (n : F) (d : ℕ) (doc : Document) (u : Text)
        → Holds fl unicode ds idx
        → ((u : Text) → IsFinal fl (posting fl idx u))
        → get_elem? ds d ≡ some doc
        → contains (tokens_of unicode doc) u ≡ true
        → IsScoring n (posting fl idx u)
        → Offers n d idx u
    Holds-Offers n d doc u h final at has scoring =
        let listed = inversion-lists_doc unicode 0 u ds d doc at has in
        let same : 0 + d ≡ d = omega arith in
        elim (Option-cases (get u idx.inverted)) [
          | inl e ↦
              let nothing : [] ≡ inversion unicode 0 u ds = rw e at (h.postings u) in
              absurd (let f : false ≡ true = (unfold lists_doc in rw (← nothing) at listed) in cc)
          | inr (pl, e) ↦
              let entries : flat_entries pl.blocks ≡ inversion unicode 0 u ds =
                rw e at (h.postings u) in
              (
                pl,
                e,
                record {
                  good = Holds-IsSearchable fl unicode ds idx h final u pl e;
                  ordered = rw entries (inversion-IsAscending unicode 0 u ds);
                  listed = rw entries (rw same at listed);
                  scoring = rw e at scoring;
                },
              )
        ]
