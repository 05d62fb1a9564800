-- ===== src/Index/RankTests.antt =====
-- The theorems on what wandBM25 ranks, on the index of two documents.
use telemetry_search_engine.Common.{
  ℕ, ◌≤◌, ◌≡◌, refl, List, [], ◌∷◌, Text, codes, some, true, length, All, contains, ◌⊎◌, get, put,
  contains_text, has_prefix, is_ascii, is_upper, join, lower_byte, text_beq, to_lower, sort_by,
}
use telemetry_search_engine.Common.Int.{ℤ}
use telemetry_search_engine.Fixed.{fixed, fixed-FloatSum}
use telemetry_search_engine.Common
use telemetry_search_engine.Tokenizer
use telemetry_search_engine.Tokenizer.{tokenize}
use telemetry_search_engine.Index.Add
use telemetry_search_engine.Index.Filters
use telemetry_search_engine.Index.Filters.{field_filters_match}
use telemetry_search_engine.Index.Finalize
use telemetry_search_engine.Index.Finalize.{global_max, chunks, entry_norm}
use telemetry_search_engine.Index.{
  Document, zero_document, ScoredDoc, SearchQuery, Index, new_index, searchable_text,
}
use telemetry_search_engine.Index.Add.{add_document}
use telemetry_search_engine.Index.Finalize.{finalize, corpus_size, mean_length}
use telemetry_search_engine.Index.Inversion.{posting}
use telemetry_search_engine.Index.Loaded.{Holds, stamp}
use telemetry_search_engine.Index.Final.{IsFinal, finalize-IsFinal}
use telemetry_search_engine.Index.Wand.{wand_bm25, top_k}
use telemetry_search_engine.Index.Runs.{Run, created, added, finalized, run-Holds}
use telemetry_search_engine.Index.Kept.{times_ranked}
use telemetry_search_engine.Index.EveryToken.{IsHit, wand_bm25_once, wand_bm25_every_token}

abbrev message : Text → Document
message m = record zero_document { message = m }

abbrev lower : Text → Text
lower s = s

abbrev all : SearchQuery
all = record {
  query = codes "alpha beta";
  sender = [];
  hostname = [];
  app_name = [];
  proc_id = [];
  msg_id = [];
  groupings = [];
  facility = [];
  raw_message = [];
  structured_data = [];
  severity = [];
  page = 1;
  page_size = 20;
}

abbrev both : Document
both = message (codes "alpha beta")

abbrev held : List Document
held = message (codes "alpha") ∷ message (codes "gamma") ∷ message (codes "gamma") ∷ both ∷ []

abbrev loaded : Index ℤ
loaded = add_document fixed lower both (
    add_document fixed lower (message (codes "gamma")) (
      add_document fixed lower (message (codes "gamma"))
        (add_document fixed lower (message (codes "alpha")) (new_index ℤ))))

ran : Run fixed lower held loaded
ran = added both (
    added (message (codes "gamma"))
      (added (message (codes "gamma")) (added (message (codes "alpha")) created)))

abbrev idx : Index ℤ
idx = finalize fixed loaded

idx-Holds : Holds fixed lower held idx
idx-Holds = (run-Holds fixed lower held idx (finalized ran)).0

idx-IsFinal : (u : Text) → IsFinal fixed (posting fixed idx u)
idx-IsFinal = (finalize-IsFinal fixed loaded (run-Holds fixed lower held loaded ran).1).0

abbrev n : ℤ
n = corpus_size fixed idx

both-IsHit : All (IsHit fixed lower n idx both) (codes "alpha" ∷ codes "beta" ∷ [])
unfolding Add.add_document Add.enter_document Add.add_postings Add.add_posting Add.append_entry
    Add.count_tokens new_index searchable_text tokenize get put finalize Finalize.sort_all
    Finalize.sort_and_block Finalize.rebuild Finalize.make_blocks Finalize.mean_length
    Finalize.norm_func contains Common.insert_sorted contains_text has_prefix is_ascii is_upper join
    lower_byte text_beq to_lower Tokenizer.add Tokenizer.add_all Tokenizer.add_matches
    Tokenizer.extend Tokenizer.find_all Tokenizer.has_separator Tokenizer.is_separator
    Tokenizer.is_word Tokenizer.split_run Tokenizer.terms_of Tokenizer.word_end chunks sort_by
    Finalize.idf_func global_max Finalize.float_max Finalize.block_max entry_norm
both-IsHit = ((refl, (refl, (refl, tt))), ((refl, (refl, (refl, tt))), tt))

both-passes : field_filters_match lower (stamp 3 both) all ≡ true
unfolding Filters.check Filters.field_filters_match
both-passes = refl

wand_bm25_once_example :
    (ranked : List (ScoredDoc ℤ)) × ((wand_bm25 fixed lower
        (codes "alpha" ∷ codes "beta" ∷ [])
        all
        n
        (mean_length fixed idx)
        idx).0
      ≡ some ranked)
    × ((d : ℕ) → times_ranked fixed d ranked ≤ 1)
wand_bm25_once_example =
    wand_bm25_once fixed lower all held idx idx-Holds idx-IsFinal
      (codes "alpha" ∷ codes "beta" ∷ []) n (mean_length fixed idx)

wand_bm25_every_token_example :
    (ranked : List (ScoredDoc ℤ)) × ((wand_bm25 fixed lower
        (codes "alpha" ∷ codes "beta" ∷ [])
        all
        n
        (mean_length fixed idx)
        idx).0
      ≡ some ranked)
    × ((length ranked ≡ top_k) ⊎ (times_ranked fixed 3 ranked ≡ 1))
wand_bm25_every_token_example =
    wand_bm25_every_token fixed lower all fixed-FloatSum held idx idx-Holds idx-IsFinal
      (codes "alpha") (codes "beta" ∷ []) n (mean_length fixed idx) 3 both refl both-IsHit
      both-passes
