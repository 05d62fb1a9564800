-- ===== src/Index/Tests.antt =====
-- Runs of the index.
use telemetry_search_engine.Common.{
  Bool, true, false, not, ◌&&◌, ◌+◌, ◌*◌, ◌-◌, ◌^◌, ◌≤◌, ◌<◌, ◌++◌, min, length, arith, All, nat_eq,
  text_eq, join, ltb, is_upper, ap, ℕ, ◌≡◌, refl, List, [], ◌∷◌, Text, codes, some, none, get, put,
  contains, text_beq, is_ascii, lower_byte, to_lower, has_prefix, contains_text, sort_by, Option,
  map, Map,
}
use mathlib.Core.Option
use telemetry_search_engine.Common
use telemetry_search_engine.Common.Words
use telemetry_search_engine.Float
use telemetry_search_engine.Tokenizer
use telemetry_search_engine.Index.Cursor
use telemetry_search_engine.Common.Int.{ℤ}
use telemetry_search_engine.Fixed.{fixed}
use telemetry_search_engine.Tokenizer.{tokenize}
use telemetry_search_engine.Index.{
  PostingEntry, Block, Document, zero_document, SearchQuery, Index, ScoredDoc, new_index,
  searchable_text, num_entries,
}
use telemetry_search_engine.Index.Add
use telemetry_search_engine.Index.Add.{add_documents}
use telemetry_search_engine.Index.Finalize
use telemetry_search_engine.Index.Finalize.{finalize}
use telemetry_search_engine.Index.Cursor
use telemetry_search_engine.Index.Heap
use telemetry_search_engine.Index.Filters
use telemetry_search_engine.Index.Wand
use telemetry_search_engine.Index.Bounds.{Bounds, make_blocks-Bounds}
use telemetry_search_engine.Fixed.{fixed-FloatOrder}
use telemetry_search_engine.Index.CacheKey
use telemetry_search_engine.Index.CacheKey.{build_cache_key}
use telemetry_search_engine.Index.Search
use telemetry_search_engine.Index.Search.{
  Outcome, found, panicked, stuck, Times, cache_max_size, cache_ttl, page_bounds, search_documents,
  truncate, fresh, is_none,
}
use telemetry_search_engine.Index.Filters.{has_field_filters}
use telemetry_search_engine.Index.{SearchResult}
use telemetry_search_engine.Index.Finalize.{make_blocks, global_max, chunks, entry_norm}
use telemetry_search_engine.Index.Inversion.{posting}
use telemetry_search_engine.Index.Loaded.{Holds, new_index-Holds, add_documents-Holds}
use telemetry_search_engine.Index.Cache.{build_cache_key_collision, search-cache_le, search-search}
use telemetry_search_engine.Index.Add.{add_document}
use telemetry_search_engine.Index.Cursor.{Cursor, cursor_doc, advance}
use telemetry_search_engine.Index.Wand.{top_k, Scan, scan, all_at, sort_active, wand_bm25}

abbrev message : Text → Document
message m = record zero_document { message = m }

abbrev empty_query : SearchQuery
empty_query = record {
  query = [];
  sender = [];
  hostname = [];
  app_name = [];
  proc_id = [];
  msg_id = [];
  groupings = [];
  facility = [];
  raw_message = [];
  structured_data = [];
  severity = [];
  page = 1;
  page_size = 20;
}

abbrev docs : List Document
docs = message (codes "alpha") ∷ message (codes "beta") ∷ message (codes "alpha beta") ∷ []

abbrev ids : Option (List (ScoredDoc (fixed.F))) → Option (List ℕ)
ids r = Option.map (map (λ (x : ScoredDoc (fixed.F)). x.id)) r

abbrev lower : Text → Text
lower s = map lower_byte s

abbrev loaded : Index ℤ
loaded = add_documents fixed lower docs (new_index ℤ)

abbrev ready : Index ℤ
ready = finalize fixed loaded

-- A query of two tokens is answered with the one document that has both.
wand_two_tokens :
    ids
      (wand_bm25 fixed lower
        (codes "alpha" ∷ codes "beta" ∷ [])
        empty_query
        (fixed.of_nat 3)
        (fixed.of_nat 1)
        ready).0
    ≡ some (2 ∷ [])
unfolding add_documents Add.add_document Add.enter_document Add.add_postings Add.add_posting
    Add.append_entry Add.count_tokens new_index searchable_text tokenize get put finalize
    Finalize.sort_all Finalize.sort_and_block Finalize.rebuild Finalize.make_blocks
    Finalize.mean_length Finalize.norm_func contains Common.insert_sorted contains_text has_prefix
    is_ascii is_upper join lower_byte text_beq to_lower Float.float_less Cursor.advance
    Cursor.advance_from Cursor.block_max_score Cursor.current Cursor.cursor_freq Cursor.next
    Cursor.search_between Cursor.sort_search Filters.check Filters.field_filters_match Heap.down
    Heap.drain Heap.heap_min Heap.heap_pop Heap.heap_push Heap.less_at Heap.swap Heap.up Wand.all_at
    Wand.block_sum Wand.keep_valid Wand.move_at Wand.offer Wand.ranked_of Wand.round Wand.score_sum
    Wand.visit Tokenizer.add Tokenizer.add_all Tokenizer.add_matches Tokenizer.extend
    Tokenizer.find_all Tokenizer.has_separator Tokenizer.is_separator Tokenizer.is_word
    Tokenizer.split_run Tokenizer.terms_of Tokenizer.word_end wand_bm25 Wand.scan Wand.entry_total
    Wand.open_cursors num_entries chunks sort_by Wand.find_pivot Wand.sort_active Cursor.valid
    Cursor.cursor_doc Finalize.idf_func global_max Finalize.float_max Finalize.block_max entry_norm
wand_two_tokens = refl

loaded-Holds : Holds fixed lower docs loaded
loaded-Holds = add_documents-Holds fixed lower [] docs (new_index ℤ) (new_index-Holds fixed lower)

abbrev postings : List PostingEntry
postings = record { doc_id = 0; freq = 1 } ∷ record { doc_id = 2; freq = 3 } ∷ []

abbrev norms : Map ℕ ℤ
norms = (0, fixed.of_nat 4) ∷ (2, fixed.of_nat 9) ∷ []

abbrev blocks : List (Block ℤ)
blocks = make_blocks fixed norms (fixed.of_nat 5) (chunks 2 postings)

make_blocks-Bounds_example :
    All
      (λ (blk : Block ℤ).
        All
          (λ e.
            Bounds fixed fixed-FloatOrder blk.max_norm (entry_norm fixed norms (fixed.of_nat 5) e))
          blk.entries)
      blocks
make_blocks-Bounds_example =
    make_blocks-Bounds fixed fixed-FloatOrder norms (fixed.of_nat 5) (chunks 2 postings) refl

build_cache_key_collision_example :
    build_cache_key (record empty_query { query = codes "a|b"; sender = [] })
    ≡ build_cache_key (record empty_query { query = codes "a"; sender = codes "b|" })
build_cache_key_collision_example = build_cache_key_collision (codes "a") (codes "b") empty_query

abbrev at : ℕ → Times
at now = record { looked = now; started = now; finished = now; stored = now }

abbrev asked : SearchQuery
asked = record empty_query { query = codes "alpha" }

ready-cache : ready.cache ≡ []
unfolding add_documents Add.add_document Add.enter_document Add.add_postings Add.add_posting
    Add.append_entry Add.count_tokens new_index searchable_text tokenize get put finalize
    Finalize.sort_all Finalize.sort_and_block Finalize.rebuild Finalize.make_blocks
    Finalize.mean_length
ready-cache = refl

ready-cache_le : length ready.cache ≤ cache_max_size
ready-cache_le = rw ready-cache (omega arith)

search-cache_le_example :
    length ((search_documents fixed lower asked 0 (at 5) ready).1).cache ≤ cache_max_size
search-cache_le_example = search-cache_le fixed lower asked 0 (at 5) ready ready-cache_le

-- What the search for "alpha" finds: the first and the third document.
abbrev answered : SearchResult ℤ
answered = record {
  documents =
      record (message (codes "alpha")) { id = 0 }
      ∷ record (message (codes "alpha beta")) { id = 2 }
      ∷ [];
  total_count = 2;
  page = 1;
  page_size = 20;
  took_ms = fixed.of_nat 0;
  cache_hit = false;
}

abbrev searched : Outcome ℤ × Index ℤ
searched = search_documents fixed lower asked 0 (at 5) ready

search-answered : searched.0 ≡ found answered
unfolding add_documents Add.add_document Add.enter_document Add.add_postings Add.add_posting
    Add.append_entry Add.count_tokens new_index searchable_text tokenize get put finalize
    Finalize.sort_all Finalize.sort_and_block Finalize.rebuild Finalize.make_blocks
    Finalize.mean_length search_documents Search.search_index Search.paginate Search.store_page
    Search.ranking build_cache_key page_bounds Finalize.norm_func contains Common.insert_sorted
    contains_text has_prefix is_ascii is_upper join lower_byte text_beq to_lower Float.float_less
    Cursor.advance Cursor.advance_from Cursor.block_max_score Cursor.current Cursor.cursor_freq
    Cursor.next Cursor.search_between Cursor.sort_search Filters.check Filters.field_filters_match
    Heap.down Heap.drain Heap.heap_min Heap.heap_pop Heap.heap_push Heap.less_at Heap.swap Heap.up
    Wand.all_at Wand.block_sum Wand.keep_valid Wand.move_at Wand.offer Wand.ranked_of Wand.round
    Wand.score_sum Wand.visit Tokenizer.add Tokenizer.add_all Tokenizer.add_matches Tokenizer.extend
    Tokenizer.find_all Tokenizer.has_separator Tokenizer.is_separator Tokenizer.is_word
    Tokenizer.split_run Tokenizer.terms_of Tokenizer.word_end wand_bm25 Wand.scan Wand.entry_total
    Wand.open_cursors num_entries chunks sort_by Wand.find_pivot Wand.sort_active Cursor.valid
    Cursor.cursor_doc Finalize.idf_func global_max Finalize.float_max Finalize.block_max entry_norm
    Common.delete Words.add64 Words.is_negative Words.less64 Words.min64 Words.mul64 Words.sub64
    CacheKey.itoa CacheKey.itoa_loop has_field_filters Search.evict Search.filter_scan
    Search.matching
search-answered = refl

asked-miss :
    fresh fixed lower (get (build_cache_key (truncate asked)) ready.cache) (at 5).looked ≡ none
unfolding get
asked-miss = rw ready-cache refl

asked-token :
    (is_none (tokenize lower (truncate asked).query) && not (has_field_filters (truncate asked)))
    ≡ false
unfolding tokenize has_field_filters
asked-token = refl

search-search_example :
    search_documents fixed lower asked 0 (at 6) searched.1
    ≡ (found (record answered { cache_hit = true }), searched.1)
search-search_example =
    search-search fixed lower asked 0 0 (at 5) (at 6) ready searched.1 answered asked-miss
      asked-token (ap (λ (o : Outcome ℤ). (o, searched.1)) search-answered) (omega arith)

abbrev both : List Text
both = codes "alpha" ∷ codes "beta" ∷ []

abbrev listed : Option (List (ScoredDoc ℤ)) → List (ScoredDoc ℤ)
listed none = []
listed (some ranked) = ranked

abbrev ranking : Option (List (ScoredDoc ℤ))
ranking = (wand_bm25 fixed lower both empty_query (fixed.of_nat 3) (fixed.of_nat 1) ready).0

ranking-listed : ranking ≡ some (listed ranking)
unfolding add_documents Add.add_document Add.enter_document Add.add_postings Add.add_posting
    Add.append_entry Add.count_tokens new_index searchable_text tokenize get put finalize
    Finalize.sort_all Finalize.sort_and_block Finalize.rebuild Finalize.make_blocks
    Finalize.mean_length Finalize.norm_func contains Common.insert_sorted contains_text has_prefix
    is_ascii is_upper join lower_byte text_beq to_lower Float.float_less Cursor.advance
    Cursor.advance_from Cursor.block_max_score Cursor.current Cursor.cursor_freq Cursor.next
    Cursor.search_between Cursor.sort_search Filters.check Filters.field_filters_match Heap.down
    Heap.drain Heap.heap_min Heap.heap_pop Heap.heap_push Heap.less_at Heap.swap Heap.up Wand.all_at
    Wand.block_sum Wand.keep_valid Wand.move_at Wand.offer Wand.ranked_of Wand.round Wand.score_sum
    Wand.visit Tokenizer.add Tokenizer.add_all Tokenizer.add_matches Tokenizer.extend
    Tokenizer.find_all Tokenizer.has_separator Tokenizer.is_separator Tokenizer.is_word
    Tokenizer.split_run Tokenizer.terms_of Tokenizer.word_end wand_bm25 Wand.scan Wand.entry_total
    Wand.open_cursors num_entries chunks sort_by Wand.find_pivot Wand.sort_active Cursor.valid
    Cursor.cursor_doc Finalize.idf_func global_max Finalize.float_max Finalize.block_max entry_norm
ranking-listed = refl

-- The cursor at the start of the posting list of `t`.
abbrev start : Text → Cursor ℤ
start t = record { pl = posting fixed ready t; block_idx = 0; entry_idx = 0; idf = fixed.of_nat 1 }

abbrev first_turn : Scan fixed
first_turn = record {
  cursors = start (codes "alpha") ∷ start (codes "beta") ∷ [];
  heap = [];
  threshold = fixed.of_nat 0;
}

beta-above :
    fixed.lt (fixed.of_nat 0) (fixed.add (fixed.of_nat 0) (start (codes "beta")).pl.max_score)
    ≡ true
unfolding add_documents Add.add_document Add.enter_document Add.add_postings Add.add_posting
    Add.append_entry Add.count_tokens new_index searchable_text tokenize get put finalize
    Finalize.sort_all Finalize.sort_and_block Finalize.rebuild Finalize.make_blocks
    Finalize.mean_length Finalize.norm_func contains Common.insert_sorted contains_text has_prefix
    is_ascii is_upper join lower_byte text_beq to_lower Float.float_less Cursor.advance
    Cursor.advance_from Cursor.block_max_score Cursor.current Cursor.cursor_freq Cursor.next
    Cursor.search_between Cursor.sort_search Filters.check Filters.field_filters_match Heap.down
    Heap.drain Heap.heap_min Heap.heap_pop Heap.heap_push Heap.less_at Heap.swap Heap.up Wand.all_at
    Wand.block_sum Wand.keep_valid Wand.move_at Wand.offer Wand.ranked_of Wand.round Wand.score_sum
    Wand.visit Tokenizer.add Tokenizer.add_all Tokenizer.add_matches Tokenizer.extend
    Tokenizer.find_all Tokenizer.has_separator Tokenizer.is_separator Tokenizer.is_word
    Tokenizer.split_run Tokenizer.terms_of Tokenizer.word_end wand_bm25 Wand.scan Wand.entry_total
    Wand.open_cursors num_entries chunks sort_by Wand.find_pivot Wand.sort_active Cursor.valid
    Cursor.cursor_doc Finalize.idf_func global_max Finalize.float_max Finalize.block_max entry_norm
beta-above = refl

alpha-apart : all_at (cursor_doc (start (codes "beta"))) (start (codes "alpha") ∷ []) ≡ false
unfolding add_documents Add.add_document Add.enter_document Add.add_postings Add.add_posting
    Add.append_entry Add.count_tokens new_index searchable_text tokenize get put finalize
    Finalize.sort_all Finalize.sort_and_block Finalize.rebuild Finalize.make_blocks
    Finalize.mean_length Finalize.norm_func contains Common.insert_sorted contains_text has_prefix
    is_ascii is_upper join lower_byte text_beq to_lower Float.float_less Cursor.advance
    Cursor.advance_from Cursor.block_max_score Cursor.current Cursor.cursor_freq Cursor.next
    Cursor.search_between Cursor.sort_search Filters.check Filters.field_filters_match Heap.down
    Heap.drain Heap.heap_min Heap.heap_pop Heap.heap_push Heap.less_at Heap.swap Heap.up Wand.all_at
    Wand.block_sum Wand.keep_valid Wand.move_at Wand.offer Wand.ranked_of Wand.round Wand.score_sum
    Wand.visit Tokenizer.add Tokenizer.add_all Tokenizer.add_matches Tokenizer.extend
    Tokenizer.find_all Tokenizer.has_separator Tokenizer.is_separator Tokenizer.is_word
    Tokenizer.split_run Tokenizer.terms_of Tokenizer.word_end wand_bm25 Wand.scan Wand.entry_total
    Wand.open_cursors num_entries chunks sort_by Wand.find_pivot Wand.sort_active Cursor.valid
    Cursor.cursor_doc Finalize.idf_func global_max Finalize.float_max Finalize.block_max entry_norm
alpha-apart = refl
