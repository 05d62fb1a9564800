-- ===== src/Index/Clean.antt =====
-- From an empty index to one that is ready for Search.
use telemetry_search_engine.Common.{
  ℕ, ◌+◌, ◌≡◌, List, [], ◌∷◌, Text, Map, none, some, get, put, get-put, text_eq, text_beq, length,
  nat_eq, true, Bool-cases, inl, inr,
}
use telemetry_search_engine.Float.{Float}
use telemetry_search_engine.Index.{Document, Index, new_index, searchable_text}
use telemetry_search_engine.Tokenizer.{tokenize}
use telemetry_search_engine.Index.Inversion.{posting, posting-add_posting}
use telemetry_search_engine.Index.Add.{
  count_tokens, add_posting, add_postings, enter_document, add_document, add_documents,
}
use telemetry_search_engine.Index.Loaded.{Holds, new_index-Holds, add_documents-Holds}
use telemetry_search_engine.Index.Finalize.{finalize}
use telemetry_search_engine.Index.Final.{IsFinal, finalize-IsFinal}
use telemetry_search_engine.Index.Finalized.{finalize-Holds}

module _ (fl : Float) where
  open fl use {F}

  -- The tokens that are not marked dirty have their postings in blocks.
  abbrev pub IsClean : Index F → Type 0
  IsClean idx = (u : Text) → get u idx.dirty ≡ none → IsFinal fl (posting fl idx u)

  pub new_index-IsClean : IsClean (new_index F)
  unfolding new_index get
  new_index-IsClean u h = tt

  add_posting-IsClean :
      (id : ℕ) (tok : Text) (f : ℕ) (idx : Index F)
      → IsClean idx
      → IsClean (add_posting fl id tok f idx)
  unfolding add_posting
  add_posting-IsClean id tok f idx c u h = elim (Bool-cases (text_beq tok u)) [
    | inl e ↦ absurd (marked e)
    | inr e ↦
        rw (posting-add_posting fl id tok u f idx, e)
          (c u (rw (get-put tok u tt idx.dirty, e) at h))
  ]
    where
      marked : text_beq tok u ≡ true → ⊥
      marked e = let h' : some tt ≡ none = rw (get-put tok u tt idx.dirty, e) at h in cc

  add_postings-IsClean :
      (id : ℕ) (freq : Map Text ℕ) (idx : Index F)
      → IsClean idx
      → IsClean (add_postings fl id freq idx)
  unfolding add_postings
  add_postings-IsClean id [] idx c = c
  add_postings-IsClean id ((tok, f) ∷ freq) idx c =
      add_postings-IsClean id freq (add_posting fl id tok f idx)
        (add_posting-IsClean id tok f idx c)

  module _ (unicode : Text → Text) where
    -- AddDocument marks every token whose postings it changes.
    pub add_document-IsClean :
        (doc : Document) (idx : Index F) → IsClean idx → IsClean (add_document fl unicode doc idx)
    unfolding add_document enter_document
    add_document-IsClean doc idx c =
        let stamped = record doc { id = idx.next_id } in
        let tokens = tokenize unicode (searchable_text stamped) in
        add_postings-IsClean idx.next_id (count_tokens tokens [])
          (record idx {
            next_id = idx.next_id + 1;
            docs = put idx.next_id stamped idx.docs;
            doc_lengths = put idx.next_id (fl.round32 (fl.of_nat (length tokens))) idx.doc_lengths;
            total_length = idx.total_length + length tokens;
          })
          c

    pub add_documents-IsClean :
        (docs : List Document) (idx : Index F)
        → IsClean idx
        → IsClean (add_documents fl unicode docs idx)
    unfolding add_documents
    add_documents-IsClean [] idx c = c
    add_documents-IsClean (doc ∷ docs) idx c =
        add_documents-IsClean docs (add_document fl unicode doc idx)
          (add_document-IsClean doc idx c)

    -- A bulk load into a new index, finalized: the index holds exactly the documents that were
    -- added, in order, every posting list is in blocks, and no token is dirty.
    pub load_correct :
        (docs : List Document)
        → let idx = finalize fl (add_documents fl unicode docs (new_index F)) in
          Holds fl unicode docs idx
          × ((u : Text) → IsFinal fl (posting fl idx u))
          × (idx.dirty ≡ [])
    load_correct docs =
        let loaded = add_documents fl unicode docs (new_index F) in
        let (final, dirty) =
          finalize-IsFinal fl loaded (add_documents-IsClean docs (new_index F) new_index-IsClean) in
        (
          finalize-Holds fl unicode docs loaded
              (add_documents-Holds fl unicode [] docs (new_index F) (new_index-Holds fl unicode)),
          final,
          dirty,
        )
