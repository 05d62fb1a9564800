-- ===== src/Index/RunTests.antt =====
-- The theorems on sequences of operations, on a short one.
use telemetry_search_engine.Common.{
  ℕ, ◌≤◌, ◌≡◌, List, [], ◌∷◌, Text, codes, some, text_eq, length, All, arith,
}
use telemetry_search_engine.Common.Int.{ℤ}
use telemetry_search_engine.Fixed.{fixed}
use telemetry_search_engine.Index.{
  Document, zero_document, PostingEntry, ScoredDoc, SearchQuery, Index, new_index,
}
use telemetry_search_engine.Index.Add.{add_document}
use telemetry_search_engine.Index.Finalize.{finalize, corpus_size, mean_length}
use telemetry_search_engine.Index.Loaded.{Holds}
use telemetry_search_engine.Index.Final.{finalize-IsFinal}
use telemetry_search_engine.Index.Clean.{IsClean}
use telemetry_search_engine.Index.Cursor
use telemetry_search_engine.Index.Cursor.{Cursor, cursor_doc, advance}
use telemetry_search_engine.Index.Remaining
use telemetry_search_engine.Index.Below
use telemetry_search_engine.Index.Remaining.{ahead, IsGood, ahead-advance}
use telemetry_search_engine.Index.Below.{drop_below}
use telemetry_search_engine.Index.Wand.{wand_bm25, top_k}
use telemetry_search_engine.Index.Sound.{IsMatching}
use telemetry_search_engine.Index.Total.{IsSearchable, Holds-IsSearchable, wand_bm25_ends}
use telemetry_search_engine.Index.Search.{Times, search_documents}
use telemetry_search_engine.Index.Runs.{Run, created, added, finalized, searched, run-Holds}

abbrev pub message : Text → Document
message m = record zero_document { message = m }

abbrev pub lower : Text → Text
lower s = s

abbrev pub alpha : SearchQuery
alpha = record {
  query = codes "alpha";
  sender = [];
  hostname = [];
  app_name = [];
  proc_id = [];
  msg_id = [];
  groupings = [];
  facility = [];
  raw_message = [];
  structured_data = [];
  severity = [];
  page = 1;
  page_size = 20;
}

abbrev pub at : Times
at = record { looked = 5; started = 5; finished = 5; stored = 5 }

abbrev pub held : List Document
held = message (codes "alpha") ∷ message (codes "beta") ∷ []

-- One document is added, a search runs, another document is added, and Finalize runs.
abbrev pub idx : Index ℤ
idx = finalize fixed (
    add_document fixed lower (message (codes "beta"))
      (search_documents fixed lower alpha 0 at
        (add_document fixed lower (message (codes "alpha")) (new_index ℤ))).1)

pub ran : Run fixed lower held idx
ran =
    finalized (
      added (message (codes "beta"))
        (searched alpha 0 at (added (message (codes "alpha")) created)))

run-Holds_example : Holds fixed lower held idx × IsClean fixed idx
run-Holds_example = run-Holds fixed lower held idx ran

-- The index of the run before its last Finalize, once more finalized, is searchable.
abbrev again : Index ℤ
again = finalize fixed idx

again-IsSearchable : IsSearchable fixed again
again-IsSearchable =
    Holds-IsSearchable fixed lower held again (run-Holds fixed lower held again (finalized ran)).0
      (finalize-IsFinal fixed idx run-Holds_example.1).0

abbrev tokens : List Text
tokens = codes "alpha" ∷ codes "beta" ∷ []

wand_bm25_ends_example :
    (ranked : List (ScoredDoc ℤ)) × ((wand_bm25 fixed lower tokens alpha
        (corpus_size fixed again)
        (mean_length fixed again)
        again).0
      ≡ some ranked)
    × (length ranked ≤ top_k)
    × All (IsMatching fixed lower alpha again) ranked
wand_bm25_ends_example =
    wand_bm25_ends fixed lower alpha tokens (corpus_size fixed again) (mean_length fixed again)
      again again-IsSearchable

abbrev posted : ℕ → PostingEntry
posted id = record { doc_id = id; freq = 1 }

-- A cursor on the first of four entries in two blocks.
abbrev cursor : Cursor ℤ
cursor = record {
  pl = record {
    blocks =
        record { entries = posted 0 ∷ posted 2 ∷ []; max_norm = fixed.of_nat 1 }
        ∷ record { entries = posted 5 ∷ posted 7 ∷ []; max_norm = fixed.of_nat 1 }
        ∷ [];
    doc_freq = 4;
    max_score = fixed.of_nat 1;
  };
  block_idx = 0;
  entry_idx = 0;
  idf = fixed.of_nat 1;
}

cursor-IsGood : IsGood cursor
cursor-IsGood = record {
  blocks = (
    (omega arith, ((omega arith, tt), (tt, tt))),
    ((omega arith, ((omega arith, tt), (tt, tt))), tt),
  );
  placed = omega arith;
}

cursor-low : cursor_doc cursor ≤ 6
unfolding Cursor.cursor_doc Cursor.current
cursor-low = omega arith

-- Advanced to 6, the cursor has the entry of 7 ahead.
cursor-advanced : ahead (advance 6 cursor) ≡ posted 7 ∷ []
unfolding Below.drop_below Remaining.ahead
cursor-advanced = (ahead-advance 6 cursor cursor-IsGood cursor-low).1

ahead-advance_example :
    IsGood (advance 6 cursor) × (ahead (advance 6 cursor) ≡ drop_below 6 (ahead cursor))
ahead-advance_example = ahead-advance 6 cursor cursor-IsGood cursor-low
