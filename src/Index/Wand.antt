-- ===== src/Index/Wand.antt =====
-- wandBM25 of search-service/internal/indexer/index.go, as it is written.
use telemetry_search_engine.Common.{
  ℕ, zero, suc, ◌+◌, List, [], ◌∷◌, ◌++◌, map, Text, Option, none, some, get, put, nat_eq, text_eq,
  Bool, true, false, not, ◌&&◌, ◌||◌, length, get_elem?, take, drop, ltb, eqb, if◌then◌else◌,
  sort_by,
}
use mathlib.Core.List.{reverse}
use mathlib.Core.Option
use telemetry_search_engine.Float.{Float, float_less}
use telemetry_search_engine.Index.{
  Document, PostingList, ScoredDoc, SearchQuery, Index, num_entries,
}
use telemetry_search_engine.Index.Finalize.{idf_func, norm_func, global_max, length_of}
use telemetry_search_engine.Index.Cursor.{
  Cursor, valid, cursor_doc, cursor_freq, advance, next, block_max_score,
}
use telemetry_search_engine.Index.Heap.{Heap, heap_push, heap_pop, heap_min, drain}
use telemetry_search_engine.Index.Filters.{field_filters_match}

abbrev pub top_k : ℕ
top_k = 1000

module _ {F : Type 0} where
  unfoldable pub keep_valid : List (Cursor F) → List (Cursor F)
  keep_valid [] = []
  keep_valid (c ∷ cs) = let rest = keep_valid cs in if valid c then c ∷ rest else rest

  abbrev pub cursor_less : Cursor F → Cursor F → Bool
  cursor_less a b = ltb (cursor_doc a) (cursor_doc b)

  -- The closure sortActive.
  unfoldable pub sort_active : List (Cursor F) → List (Cursor F)
  unfolding keep_valid
  sort_active cs = sort_by cursor_less (keep_valid cs)

  unfoldable pub all_at : ℕ → List (Cursor F) → Bool
  all_at doc [] = true
  all_at doc (c ∷ cs) = eqb (cursor_doc c) doc && all_at doc cs

  abbrev pub is_at : ℕ → Cursor F → Bool
  is_at doc c = valid c && eqb (cursor_doc c) doc

  -- `move` applied to the cursors that are at `doc`.
  unfoldable pub move_at : ℕ → (Cursor F → Cursor F) → List (Cursor F) → List (Cursor F)
  move_at doc move [] = []
  move_at doc move (c ∷ cs) = (if is_at doc c then move c else c) ∷ move_at doc move cs

  abbrev pub doc_of : Option (Cursor F) → ℕ
  doc_of none = 0
  doc_of (some c) = cursor_doc c

-- Whether a document is there and passes the filters.
abbrev pub matches : (Text → Text) → SearchQuery → Option Document → Bool
matches unicode q none = false
matches unicode q (some doc) = field_filters_match unicode doc q

module _ (fl : Float) where
  open fl use {F, of_nat, add, mul, lt, le}

  pub record Scan : Type 0 where
    pub cursors : List (Cursor F)
    pub heap : Heap fl
    pub threshold : F

  -- The scan for the pivot, over the reversed cursors; the result is an index.
  unfoldable pub find_pivot : F → F → List (Cursor F) → Option ℕ
  find_pivot threshold sum [] = none
  find_pivot threshold sum (c ∷ before) =
      let sum' = add sum c.pl.max_score in
      let rest = find_pivot threshold sum' before in
      if lt threshold sum' then some (length before) else rest

  -- The loop goes on if there is a pivot.
  abbrev pub if_pivot : (ℕ → Option Scan) → Scan → Option ℕ → Option Scan
  if_pivot go s none = some s
  if_pivot go s (some pivot) = go pivot

  unfoldable pub block_sum : ℕ → F → List (Cursor F) → F
  block_sum doc sum [] = sum
  block_sum doc sum (c ∷ cs) =
      block_sum doc (if is_at doc c then add sum (block_max_score fl c) else sum) cs

  unfoldable pub score_sum : ℕ → F → F → F → List (Cursor F) → F
  score_sum doc dl avg_len score [] = score
  score_sum doc dl avg_len score (c ∷ cs) =
      score_sum doc dl avg_len
        (if is_at doc c
          then add score (mul c.idf (norm_func fl (of_nat (cursor_freq c)) dl avg_len))
          else score)
        cs

  -- The update of the heap and the threshold with a scored document.
  unfoldable pub offer : ScoredDoc F → Scan → Scan
  offer x s =
      if ltb (length s.heap) top_k || lt s.threshold x.score
      then (let grown = heap_push fl x s.heap in
          let heap = if ltb top_k (length grown) then (heap_pop fl grown).1 else grown in
          record s {
            heap = heap;
            threshold = if eqb (length heap) top_k then heap_min fl heap else s.threshold;
          })
      else s

  module _ (unicode : Text → Text) (q : SearchQuery) (avg_len : F) (idx : Index F) where
    -- A round whose pivot is at `doc` with the cursors before it.
    unfoldable pub visit : ℕ → Scan → Scan
    visit doc s =
        if le (block_sum doc (of_nat 0) s.cursors) s.threshold
        then record s { cursors = sort_active (move_at doc (advance (doc + 1)) s.cursors) }
        else if not (matches unicode q (get doc idx.docs))
        then record s { cursors = sort_active (move_at doc next s.cursors) }
        else (let dl = length_of fl (get doc idx.doc_lengths) in
            let score = score_sum doc dl avg_len (of_nat 0) s.cursors in
            let offered = offer (record { id = doc; score = score }) s in
            record offered { cursors = sort_active (move_at doc next s.cursors) })

    unfoldable pub round : ℕ → Scan → Scan
    round pivot s =
        let doc = doc_of (get_elem? s.cursors pivot) in
        if all_at doc (take pivot s.cursors) then visit doc s else record s {
          cursors = sort_active (map (advance doc) (take pivot s.cursors) ++ drop pivot s.cursors);
        }

    -- The loop; `none` means that the fuel ran out.
    unfoldable pub scan : ℕ → Scan → Option Scan
    scan zero s = none
    scan (suc fuel) s =
        if_pivot (λ pivot. scan fuel (round pivot s)) s
          (find_pivot s.threshold (of_nat 0) (reverse s.cursors))

  -- The body of the loop over the query's tokens, once the token is looked up.
  abbrev pub open_list : F → Text → Index F → Option (PostingList F) → List (Cursor F) × Index F
  open_list n tok idx none = ([], idx)
  open_list n tok idx (some pl) =
      let idf = idf_func fl (of_nat pl.doc_freq) n in
      let fresh = record pl { max_score = mul idf (global_max fl (of_nat 0) pl.blocks) } in
      if eqb (num_entries pl.blocks) 0 then ([], idx) else (
        record { pl = fresh; block_idx = 0; entry_idx = 0; idf = idf } ∷ [],
        record idx { inverted = put tok fresh idx.inverted },
      )

  -- The cursors of the query's tokens, and the index with their maxScores refreshed.
  unfoldable pub open_cursors : F → List Text → Index F → List (Cursor F) × Index F
  open_cursors n [] idx = ([], idx)
  open_cursors n (tok ∷ toks) idx =
      let (opened, idx') = open_list n tok idx (get tok idx.inverted) in
      let (rest, idx'') = open_cursors n toks idx' in (opened ++ rest, idx'')

  -- The entries that a scan can pass, which bounds its rounds.
  unfoldable pub entry_total : List (Cursor F) → ℕ
  entry_total [] = 0
  entry_total (c ∷ cs) = num_entries c.pl.blocks + entry_total cs

  abbrev pub higher_score : ScoredDoc F → ScoredDoc F → Bool
  higher_score a b = float_less fl b.score a.score

  unfoldable pub ranked_of : Scan → List (ScoredDoc F)
  ranked_of s = sort_by higher_score (drain fl (length s.heap) s.heap [])

  -- The result is `none` only if the fuel runs out. No cursor leaves nothing to rank.
  unfoldable pub wand_bm25 :
      (Text → Text)
      → List Text
      → SearchQuery
      → F
      → F
      → Index F
      → Option (List (ScoredDoc F)) × Index F
  wand_bm25 unicode tokens q n avg_len idx =
      let (cursors, idx') = open_cursors n tokens idx in
      let start : Scan = record {
        cursors = sort_active cursors;
        heap = [];
        threshold = of_nat 0;
      } in
      (Option.map ranked_of (scan unicode q avg_len idx' (entry_total cursors + 1) start), idx')
