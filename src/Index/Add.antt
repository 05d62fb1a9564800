-- ===== src/Index/Add.antt =====
-- AddDocument of search-service/internal/indexer/index.go.
use telemetry_search_engine.Common.{
  ℕ, ◌+◌, List, [], ◌∷◌, ◌++◌, Text, Map, Option, none, some, get, put, length, nat_eq, text_eq,
}
use telemetry_search_engine.Float.{Float}
use telemetry_search_engine.Tokenizer.{tokenize}
use telemetry_search_engine.Index.{
  Document, PostingEntry, Block, PostingList, Index, searchable_text,
}

-- A map read that gives 0 for a missing key.
abbrev pub count_of : Option ℕ → ℕ
count_of none = 0
count_of (some n) = n

-- The loop `freq[t]++`.
unfoldable pub count_tokens : List Text → Map Text ℕ → Map Text ℕ
count_tokens [] freq = freq
count_tokens (t ∷ ts) freq = count_tokens ts (put t (count_of (get t freq) + 1) freq)

module _ (fl : Float) where
  open fl use {F, of_nat, round32}

  abbrev pub no_postings : PostingList F
  no_postings = record { blocks = []; doc_freq = 0; max_score = of_nat 0 }

  -- The append to the last block, after a first block is made if there is none.
  unfoldable pub append_entry : PostingEntry → List (Block F) → List (Block F)
  append_entry e [] = record { entries = e ∷ []; max_norm = of_nat 0 } ∷ []
  append_entry e (blk ∷ []) = record blk { entries = blk.entries ++ e ∷ [] } ∷ []
  append_entry e (blk ∷ next ∷ blks) = blk ∷ append_entry e (next ∷ blks)

  abbrev pub list_of : Option (PostingList F) → PostingList F
  list_of none = no_postings
  list_of (some pl) = pl

  -- The body of the loop over `freq`.
  unfoldable pub add_posting : ℕ → Text → ℕ → Index F → Index F
  add_posting id tok f idx =
      let pl = list_of (get tok idx.inverted) in
      let e : PostingEntry = record { doc_id = id; freq = f } in
      record idx {
        inverted =
            put tok (record pl { blocks = append_entry e pl.blocks; doc_freq = pl.doc_freq + 1 })
              idx.inverted;
        dirty = put tok tt idx.dirty;
      }

  unfoldable pub add_postings : ℕ → Map Text ℕ → Index F → Index F
  add_postings id [] idx = idx
  add_postings id ((tok, f) ∷ freq) idx = add_postings id freq (add_posting id tok f idx)

  -- AddDocument once the document has its number and its tokens.
  unfoldable pub enter_document : ℕ → Document → List Text → Index F → Index F
  enter_document id doc tokens idx = add_postings id (count_tokens tokens []) (record idx {
    next_id = idx.next_id + 1;
    docs = put id doc idx.docs;
    doc_lengths = put id (round32 (of_nat (length tokens))) idx.doc_lengths;
    total_length = idx.total_length + length tokens;
  })

  module _ (unicode : Text → Text) where
    unfoldable pub add_document : Document → Index F → Index F
    add_document given idx =
        let doc = record given { id = idx.next_id } in
        enter_document idx.next_id doc (tokenize unicode (searchable_text doc)) idx

    unfoldable pub add_documents : List Document → Index F → Index F
    add_documents [] idx = idx
    add_documents (doc ∷ docs) idx = add_documents docs (add_document doc idx)
