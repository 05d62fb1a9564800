-- ===== src/Index/Sound.antt =====
-- What wandBM25 ranks: documents of the index that pass the filters, and 1000 at most; and which
-- documents its pivot passes over.
use telemetry_search_engine.Common.{
  ℕ, zero, suc, ◌+◌, ◌≤◌, ◌≡◌, refl, ◌∙◌, List, [], ◌∷◌, Text, Map, get, nat_eq, text_eq, Option,
  none, some, true, ◌||◌, length, get_elem?, take, ltb, eqb, All, arith, Bool-cases, Option-cases,
  inl, inr, sort_by-All, length-sort_by,
}
use mathlib.Core.List.{reverse}
use mathlib.Core.Option
use mathlib.Core.Path.{subst}
use telemetry_search_engine.Float.{Float}
use telemetry_search_engine.Index.{
  Document, PostingList, ScoredDoc, SearchQuery, Index, num_entries,
}
use telemetry_search_engine.Index.Heap.{heap_push, drain}
use telemetry_search_engine.Index.Heaped.{heap_push-IsHeaped, heap_pop-IsHeaped, drain-IsHeaped}
use telemetry_search_engine.Index.Wand.{
  top_k, sort_active, all_at, doc_of, Scan, find_pivot, block_sum, offer, matches, visit, round,
  scan, open_list, open_cursors, entry_total, higher_score, ranked_of, wand_bm25,
}

module _ (fl : Float) where
  open fl use {F, of_nat, add, lt, le}

  -- The heap holds documents that satisfy `P`, and no more than topK.
  abbrev IsSound : (ScoredDoc F → Type 0) → Scan fl → Type 0
  IsSound P s = (length s.heap ≤ top_k) × All P s.heap

  offer-IsSound :
      (P : ScoredDoc F → Type 0) (x : ScoredDoc F) (s : Scan fl)
      → P x
      → IsSound P s
      → IsSound P (offer fl x s)
  unfolding offer
  offer-IsSound P x s p (l, a) =
      let grown = heap_push fl x s.heap in
      let (size, all) = heap_push-IsHeaped fl P (length s.heap) x s.heap p (refl, a) in
      elim (Bool-cases (ltb (length s.heap) top_k || lt s.threshold x.score)) [
        | inr e ↦ rw e (l, a)
        | inl e ↦ rw e (elim (Bool-cases (ltb top_k (length grown))) [
          | inl d ↦
              let (_, (size', all')) = heap_pop-IsHeaped fl P (length s.heap) grown (size, all) in
              rw d (omega arith, all')
          | inr d ↦ rw d (ground arith, all)
        ])
      ]

  module _ (unicode : Text → Text) (q : SearchQuery) where
    -- The document is in the index and passes the filters.
    abbrev pub IsMatching : Index F → ScoredDoc F → Type 0
    IsMatching idx x = matches unicode q (get x.id idx.docs) ≡ true

    module _ (avg_len : F) (idx : Index F) where
      visit-IsSound :
          (doc : ℕ) (s : Scan fl)
          → IsSound (IsMatching idx) s
          → IsSound (IsMatching idx) (visit fl unicode q avg_len idx doc s)
      unfolding visit
      visit-IsSound doc s h =
          elim (Bool-cases (le (block_sum fl doc (of_nat 0) s.cursors) s.threshold)) [
            | inl e ↦ rw e h
            | inr e ↦ rw e (elim (Bool-cases (matches unicode q (get doc idx.docs))) [
              | inr d ↦ rw d h
              | inl d ↦ rw d (offer-IsSound (IsMatching idx) _ s d h)
            ])
          ]

      round-IsSound :
          (pivot : ℕ) (s : Scan fl)
          → IsSound (IsMatching idx) s
          → IsSound (IsMatching idx) (round fl unicode q avg_len idx pivot s)
      unfolding round
      round-IsSound pivot s h =
          elim (Bool-cases (all_at (doc_of (get_elem? s.cursors pivot)) (take pivot s.cursors))) [
            | inl e ↦ rw e (visit-IsSound (doc_of (get_elem? s.cursors pivot)) s h)
            | inr e ↦ rw e h
          ]

      abbrev IsSoundEnd : Option (Scan fl) → Type 0
      IsSoundEnd none = Unit
      IsSoundEnd (some s) = IsSound (IsMatching idx) s

      scan-IsSound :
          (fuel : ℕ) (s : Scan fl)
          → IsSound (IsMatching idx) s
          → IsSoundEnd (scan fl unicode q avg_len idx fuel s)
      unfolding scan
      scan-IsSound zero s h = tt
      scan-IsSound (suc fuel) s h =
          elim (Option-cases (find_pivot fl s.threshold (of_nat 0) (reverse s.cursors))) [
            | inl e ↦ rw e h
            | inr (pivot, e) ↦ rw e (
                scan-IsSound fuel (round fl unicode q avg_len idx pivot s)
                  (round-IsSound pivot s h))
          ]

  open_list-docs :
      (n : F) (tok : Text) (idx : Index F) (o : Option (PostingList F))
      → ((open_list fl n tok idx o).1).docs ≡ idx.docs
  open_list-docs n tok idx none = refl
  open_list-docs n tok idx (some pl) = elim (Bool-cases (eqb (num_entries pl.blocks) 0)) [
    | inl e ↦ rw e
    | inr e ↦ rw e
  ]

  pub open_cursors-docs :
      (n : F) (toks : List Text) (idx : Index F) → ((open_cursors fl n toks idx).1).docs ≡ idx.docs
  unfolding open_cursors
  open_cursors-docs n [] idx = refl
  open_cursors-docs n (tok ∷ toks) idx =
      open_cursors-docs n toks (open_list fl n tok idx (get tok idx.inverted)).1
      ∙ open_list-docs n tok idx (get tok idx.inverted)

  ranked_of-IsSound :
      (P : ScoredDoc F → Type 0) (s : Scan fl)
      → IsSound P s
      → (length (ranked_of fl s) ≤ top_k) × All P (ranked_of fl s)
  unfolding ranked_of
  ranked_of-IsSound P s (l, a) =
      let (size, all) = drain-IsHeaped fl P (length s.heap) 0 s.heap [] (refl, a) (refl, tt) in
      let drained = drain fl (length s.heap) s.heap [] in
      (
        omega (arith, length-sort_by (higher_score fl) drained),
        sort_by-All (higher_score fl) P drained all,
      )

  module _ (unicode : Text → Text) (q : SearchQuery) where
    -- What a scan that has ended ranks.
    abbrev IsSoundRanking : Index F → Option (List (ScoredDoc F)) → Type 0
    IsSoundRanking idx none = Unit
    IsSoundRanking idx (some ranked) =
        (length ranked ≤ top_k) × All (IsMatching unicode q idx) ranked

    ended :
        (avg_len : F) (idx : Index F) (o : Option (Scan fl))
        → IsSoundEnd unicode q avg_len idx o
        → IsSoundRanking idx (Option.map (ranked_of fl) o)
    ended avg_len idx none h = tt
    ended avg_len idx (some s) h = ranked_of-IsSound (IsMatching unicode q idx) s h

    -- Every document that wandBM25 ranks is in the index and passes the query's filters, and it
    -- ranks no more than 1000, if its scan ends.
    pub wand_bm25_sound :
        (toks : List Text) (n avg_len : F) (idx : Index F) (ranked : List (ScoredDoc F))
        → (wand_bm25 fl unicode toks q n avg_len idx).0 ≡ some ranked
        → (length ranked ≤ top_k) × All (IsMatching unicode q idx) ranked
    unfolding wand_bm25
    wand_bm25_sound toks n avg_len idx ranked e =
        let (cursors, idx') = open_cursors fl n toks idx in
        let start : Scan fl = record {
          cursors = sort_active cursors;
          heap = [];
          threshold = of_nat 0;
        } in
        let fuel = entry_total fl cursors + 1 in
        let sound : IsSoundRanking idx' (some ranked) = subst (IsSoundRanking idx') e (
          ended avg_len idx' (scan fl unicode q avg_len idx' fuel start)
            (scan-IsSound unicode q avg_len idx' fuel start (omega arith, tt))) in
        let same : idx'.docs ≡ idx.docs = open_cursors-docs n toks idx in
        subst
          (λ (docs : Map ℕ Document).
            (length ranked ≤ top_k)
            × All (λ (x : ScoredDoc F). matches unicode q (get x.id docs) ≡ true) ranked)
          same sound
