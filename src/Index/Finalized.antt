-- ===== src/Index/Finalized.antt =====
-- Finalize keeps the documents and the entries that the index holds.
use telemetry_search_engine.Common.{
  ap, ◌∙◌, List, [], ◌∷◌, Text, Map, get, length, nat_eq, text_eq, sort_by_self,
}
use telemetry_search_engine.Float.{Float}
use telemetry_search_engine.Index.{Document, Index}
use telemetry_search_engine.Index.Loaded.{Holds, inversion}
use telemetry_search_engine.Index.Blocks.{inversion-IsSortedBy}
use telemetry_search_engine.Index.Finalize.{
  entry_less, sort_all, corpus_size, mean_length, finalize_tokens, finalize,
}
use telemetry_search_engine.Index.Final.{rebuild-Lists, sort_all-SameStore, sort_all-keep, Lists}

module _ (fl : Float) where
  open fl use {F}

  module _ (unicode : Text → Text) where
    sort_all-Holds :
        (ds : List Document) (toks : Map Text (Unit {0})) (n avg_len : F) (idx : Index F)
        → Holds fl unicode ds idx
        → Holds fl unicode ds (record (sort_all fl toks n avg_len idx) { dirty = [] })
    sort_all-Holds ds toks n avg_len idx h =
        let same = sort_all-SameStore fl toks n avg_len idx in
        let listed = λ (u : Text).
          let es = inversion unicode 0 u ds in
          let sorted = sort_by_self entry_less es (inversion-IsSortedBy unicode 0 u ds) in
          sort_all-keep fl (Lists fl es sorted) (rebuild-Lists fl es sorted) toks n avg_len idx u
            (h.postings u, h.counted u) in
        record {
          docs = λ k. ap (get k) same.docs ∙ h.docs k;
          doc_lengths = λ k. ap (get k) same.doc_lengths ∙ h.doc_lengths k;
          doc_count = ap length same.docs ∙ h.doc_count;
          next_id = same.next_id ∙ h.next_id;
          total_length = same.total_length ∙ h.total_length;
          postings = λ u. (listed u).0;
          counted = λ u. (listed u).1;
        }

    finalize_tokens-Holds :
        (ds : List Document) (toks : Map Text (Unit {0})) (idx : Index F)
        → Holds fl unicode ds idx
        → Holds fl unicode ds (finalize_tokens fl toks idx)
    finalize_tokens-Holds ds [] idx h = h
    finalize_tokens-Holds ds (tok ∷ toks) idx h =
        sort_all-Holds ds (tok ∷ toks) (corpus_size fl idx) (mean_length fl idx) idx h

    -- Finalize keeps the documents and every entry of every posting list, in order.
    pub finalize-Holds :
        (ds : List Document) (idx : Index F)
        → Holds fl unicode ds idx
        → Holds fl unicode ds (finalize fl idx)
    unfolding finalize
    finalize-Holds ds idx h = finalize_tokens-Holds ds idx.dirty idx h
