-- ===== src/Index/Finalize.antt =====
-- Finalize of search-service/internal/indexer/index.go: posting lists sorted, cut into blocks and
-- given their bounds.
use telemetry_search_engine.Common.{
  ℕ, zero, suc, List, [], ◌∷◌, Text, Map, Option, none, some, get, put, length, take, drop, nat_eq,
  text_eq, Bool, ltb, if◌then◌else◌, sort_by,
}
use telemetry_search_engine.Float.{Float}
use telemetry_search_engine.Index.{PostingEntry, Block, PostingList, Index, flat_entries}

abbrev pub block_size : ℕ
block_size = 64

abbrev pub entry_less : PostingEntry → PostingEntry → Bool
entry_less a b = ltb a.doc_id b.doc_id

-- The slices of the loop over `start`; the fuel is the number of entries.
unfoldable pub chunks : ℕ → List PostingEntry → List (List PostingEntry)
chunks fuel [] = []
chunks zero (e ∷ all) = []
chunks (suc fuel) (e ∷ all) = take block_size (e ∷ all) ∷ chunks fuel (drop block_size (e ∷ all))

module _ (fl : Float) where
  open fl use {F, of_nat, decimal, add, sub, mul, div, log, round32, lt}

  unfoldable pub idf_func : F → F → F
  idf_func df n = log (add (div (add (sub n df) (decimal 5 1)) (add df (decimal 5 1))) (of_nat 1))

  -- The constant bm25K1 + 1 is 2.2, and 1 - bm25B is 0.25.
  unfoldable pub norm_func : F → F → F → F
  norm_func tf dl avg_len =
      div (mul tf (decimal 22 1))
        (add tf (mul (decimal 12 1) (add (decimal 25 2) (div (mul (decimal 75 2) dl) avg_len))))

  abbrev pub length_of : Option F → F
  length_of none = of_nat 0
  length_of (some dl) = dl

  unfoldable pub float_max : F → F → F
  float_max best n = if lt best n then n else best

  unfoldable pub entry_norm : Map ℕ F → F → PostingEntry → F
  entry_norm doc_lengths avg_len e =
      round32 (norm_func (of_nat e.freq) (length_of (get e.doc_id doc_lengths)) avg_len)

  -- The loop over one chunk.
  unfoldable pub block_max : Map ℕ F → F → F → List PostingEntry → F
  block_max doc_lengths avg_len best [] = best
  block_max doc_lengths avg_len best (e ∷ chunk) =
      block_max doc_lengths avg_len (float_max best (entry_norm doc_lengths avg_len e)) chunk

  unfoldable pub make_blocks : Map ℕ F → F → List (List PostingEntry) → List (Block F)
  make_blocks doc_lengths avg_len [] = []
  make_blocks doc_lengths avg_len (chunk ∷ rest) =
      record { entries = chunk; max_norm = block_max doc_lengths avg_len (of_nat 0) chunk }
      ∷ make_blocks doc_lengths avg_len rest

  -- The loops over the blocks for the greatest maxNorm.
  unfoldable pub global_max : F → List (Block F) → F
  global_max best [] = best
  global_max best (blk ∷ blks) = global_max (float_max best blk.max_norm) blks

  unfoldable pub rebuild : Map ℕ F → F → F → PostingList F → PostingList F
  rebuild doc_lengths n avg_len pl =
      let all = sort_by entry_less (flat_entries pl.blocks) in
      let blks = make_blocks doc_lengths avg_len (chunks (length all) all) in
      record pl {
        blocks = blks;
        max_score = mul (idf_func (of_nat pl.doc_freq) n) (global_max (of_nat 0) blks);
      }

  -- sortAndBlock once the token is looked up; `none` is its early return.
  abbrev pub sort_list : Text → F → F → Index F → Option (PostingList F) → Index F
  sort_list tok n avg_len idx none = idx
  sort_list tok n avg_len idx (some pl) = record idx {
    inverted = put tok (rebuild idx.doc_lengths n avg_len pl) idx.inverted;
  }

  unfoldable pub sort_and_block : Text → F → F → Index F → Index F
  sort_and_block tok n avg_len idx = sort_list tok n avg_len idx (get tok idx.inverted)

  unfoldable pub sort_all : Map Text (Unit {0}) → F → F → Index F → Index F
  sort_all [] n avg_len idx = idx
  sort_all ((tok, _) ∷ toks) n avg_len idx =
      sort_all toks n avg_len (sort_and_block tok n avg_len idx)

  -- N, and the mean length or 1.
  abbrev pub corpus_size : Index F → F
  corpus_size idx = of_nat (length idx.docs)

  unfoldable pub mean_length : Index F → F
  mean_length idx =
      if lt (of_nat 0) (corpus_size idx)
      then div (of_nat idx.total_length) (corpus_size idx)
      else of_nat 1

  -- finalizeLocked, by its list of dirty tokens; with none it returns early.
  abbrev pub finalize_tokens : Map Text (Unit {0}) → Index F → Index F
  finalize_tokens [] idx = idx
  finalize_tokens (tok ∷ toks) idx =
      record (sort_all (tok ∷ toks) (corpus_size idx) (mean_length idx) idx) { dirty = [] }

  -- Finalize.
  unfoldable pub finalize : Index F → Index F
  finalize idx = finalize_tokens idx.dirty idx
