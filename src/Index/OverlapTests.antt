-- ===== src/Index/OverlapTests.antt =====
-- Overlapping operations: a document is added while a search waits to rank.
use telemetry_search_engine.Common.{
  ℕ, ◌+◌, ◌*◌, ◌-◌, ◌^◌, ◌≡◌, refl, List, [], ◌∷◌, ◌++◌, Text, Map, codes, Option, none, some, get,
  put, text_eq, nat_eq, contains, text_beq, is_ascii, is_upper, lower_byte, to_lower, has_prefix,
  contains_text, sort_by, join, map, min, length, ltb, Bool, true, false, not, ◌&&◌, ◌⊎◌, inl, inr,
}
use mathlib.Core.Path.{subst}
use telemetry_search_engine.Common
use telemetry_search_engine.Common.Words
use telemetry_search_engine.Common.Int.{ℤ}
use telemetry_search_engine.Float
use telemetry_search_engine.Fixed.{fixed}
use telemetry_search_engine.Tokenizer
use telemetry_search_engine.Tokenizer.{tokenize}
use telemetry_search_engine.Index.{SearchResult, Index, new_index, searchable_text, num_entries}
use telemetry_search_engine.Index.Add
use telemetry_search_engine.Index.Add.{add_document}
use telemetry_search_engine.Index.Finalize
use telemetry_search_engine.Index.Finalize.{finalize, chunks, global_max, entry_norm}
use telemetry_search_engine.Index.Cursor
use telemetry_search_engine.Index.Heap
use telemetry_search_engine.Index.Filters
use telemetry_search_engine.Index.Filters.{has_field_filters}
use telemetry_search_engine.Index.Wand
use telemetry_search_engine.Index.Wand.{wand_bm25}
use telemetry_search_engine.Index.Search
use telemetry_search_engine.Index.Search.{Outcome, Times, ranking, page_bounds, invalidate_cache}
use telemetry_search_engine.Index.CacheKey
use telemetry_search_engine.Index.RunTests.{message, lower, alpha, at, ran, held, idx}
use telemetry_search_engine.Index.Overlap.{
  Holder, Shared, rank_page, store_result, hold, Overlap, begun, missed, finalized_by, ranked_by,
  stored_by, added, invalidated,
}
use telemetry_search_engine.Index.Fresh.{IsFresh, overlap-IsFresh}
use telemetry_search_engine.Index.Serial.{finish, search_index-finish, run_overlaps}

abbrev loaded : Index ℤ
loaded = add_document fixed lower (message (codes "alpha")) (finalize fixed (new_index ℤ))

abbrev nothing_found : SearchResult ℤ
nothing_found = record {
  documents = [];
  total_count = 0;
  page = 1;
  page_size = 20;
  took_ms = fixed.of_nat 0;
  cache_hit = false;
}

-- A document added between Finalize and the ranking of a search is not found by it: the list of its
-- token is not in blocks, and has the bound 0.
late_missed : (rank_page fixed lower alpha at loaded).0 ≡ inr nothing_found
unfolding Add.add_document Add.enter_document Add.add_postings Add.add_posting Add.append_entry
    Add.count_tokens new_index searchable_text tokenize get put finalize Finalize.sort_all
    Finalize.sort_and_block Finalize.rebuild Finalize.make_blocks Finalize.mean_length
    Finalize.norm_func contains Common.insert_sorted contains_text has_prefix is_ascii is_upper join
    lower_byte text_beq to_lower Float.float_less Cursor.advance Cursor.advance_from
    Cursor.block_max_score Cursor.current Cursor.cursor_freq Cursor.next Cursor.search_between
    Cursor.sort_search Filters.check Filters.field_filters_match Heap.down Heap.drain Heap.heap_min
    Heap.heap_pop Heap.heap_push Heap.less_at Heap.swap Heap.up Wand.all_at Wand.block_sum
    Wand.keep_valid Wand.move_at Wand.offer Wand.ranked_of Wand.round Wand.score_sum Wand.visit
    Tokenizer.add Tokenizer.add_all Tokenizer.add_matches Tokenizer.extend Tokenizer.find_all
    Tokenizer.has_separator Tokenizer.is_separator Tokenizer.is_word Tokenizer.split_run
    Tokenizer.terms_of Tokenizer.word_end wand_bm25 Wand.scan Wand.entry_total Wand.open_cursors
    num_entries chunks sort_by Wand.find_pivot Wand.sort_active Cursor.valid Cursor.cursor_doc
    Finalize.idf_func global_max Finalize.float_max Finalize.block_max entry_norm rank_page ranking
    has_field_filters page_bounds Words.is_negative Words.min64 Words.less64 Words.mul64 Words.sub64
    Words.add64
late_missed = refl

abbrev ranked : Index ℤ
ranked = (rank_page fixed lower alpha at loaded).1

abbrev late : Holder ℤ
late = record { query = alpha; victim = 0; at = at; result = nothing_found }

-- The search stores what it found after the cache was emptied.
abbrev final : Shared ℤ
final = record {
  index = store_result fixed lower late (invalidate_cache fixed ranked);
  waiting = [];
  holders = [];
}

overlapped : Overlap fixed lower (message (codes "alpha") ∷ []) false final
unfolding new_index get
overlapped =
    let held = ranked_by [] [] alpha 0 at refl (
      added (message (codes "alpha")) refl
        (finalized_by [] [] alpha 0 at refl refl (missed alpha 0 at refl begun))) in
    let holding =
      subst
        (λ (o : Outcome ℤ ⊎ SearchResult ℤ).
          Overlap fixed lower (message (codes "alpha") ∷ []) true
            (hold fixed lower alpha 0 at o (record { index = ranked; waiting = []; holders = [] })))
        late_missed held in
    stored_by [] [] late refl (invalidated holding)

overlap-IsFresh_example : IsFresh fixed lower (message (codes "alpha") ∷ []) false final
overlap-IsFresh_example =
    overlap-IsFresh fixed lower (message (codes "alpha") ∷ []) false final overlapped

search_index-finish_example :
    Search.search_index fixed lower alpha (CacheKey.build_cache_key alpha) 0 at idx
    ≡ finish fixed lower alpha 0 at (rank_page fixed lower alpha at (finalize fixed idx))
search_index-finish_example = search_index-finish fixed lower alpha 0 at idx

run_overlaps_example :
    (c : Bool) × Overlap fixed lower held c (record { index = idx; waiting = []; holders = [] })
run_overlaps_example = run_overlaps fixed lower held idx ran
