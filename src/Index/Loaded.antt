-- ===== src/Index/Loaded.antt =====
-- The abstract view of the index: the list of the documents added since the last reset.
use telemetry_search_engine.Common.{
  ℕ, ◌+◌, ◌≡◌, refl, ap, sym, ◌∙◌, List, [], ◌∷◌, ◌++◌, Text, Map, get, put, get-put,
  length-put_fresh, length, length-append, nat_eq, text_eq, contains, arith, eqb, eqb_iff,
  if◌then◌else◌, Bool-cases, inl, inr, get_elem?, get_elem?-concat, get_elem?-end,
}
use mathlib.Core.List.{append-nil, append_assoc}
use mathlib.Core.Path.{subst}
use mathlib.Core.Option
use native.Mathlib.Nat.{zero-add}
use telemetry_search_engine.Float.{Float}
use telemetry_search_engine.Tokenizer.{tokenize}
use telemetry_search_engine.Tokenizer.Terms.{tokenize-IsNodup}
use telemetry_search_engine.Index.{Document, PostingEntry, Index, searchable_text, new_index}
use telemetry_search_engine.Index.Add.{
  count_tokens, add_posting, add_postings, enter_document, add_document, add_documents,
}
use telemetry_search_engine.Index.Inversion.{
  count_tokens-ones, posting, entries_of, bump, bump-IsCounted, flat_entries-bump,
  posting-add_postings, IsCounted,
}

abbrev pub stamp : ℕ → Document → Document
stamp id doc = record doc { id = id }

module _ (unicode : Text → Text) where
  abbrev pub tokens_of : Document → List Text
  tokens_of doc = tokenize unicode (searchable_text doc)

  -- The postings of a token over documents numbered from `id`.
  unfoldable pub inversion : ℕ → Text → List Document → List PostingEntry
  inversion id u [] = []
  inversion id u (doc ∷ docs) =
      let rest = inversion (id + 1) u docs in
      if contains (tokens_of doc) u then record { doc_id = id; freq = 1 } ∷ rest else rest

  pub token_total : List Document → ℕ
  token_total [] = 0
  token_total (doc ∷ docs) = length (tokens_of doc) + token_total docs

  inversion-concat :
      (id : ℕ) (u : Text) (docs : List Document) (doc : Document)
      → inversion id u (docs ++ doc ∷ []) ≡ (
          if contains (tokens_of doc) u
          then inversion id u docs ++ record { doc_id = id + length docs; freq = 1 } ∷ []
          else inversion id u docs)
  unfolding inversion
  inversion-concat id u [] doc = ground arith
  inversion-concat id u (d ∷ docs) doc = ground (arith, inversion-concat (id + 1) u docs doc)

  token_total-concat :
      (docs : List Document) (doc : Document)
      → token_total (docs ++ doc ∷ []) ≡ token_total docs + length (tokens_of doc)
  unfolding token_total
  token_total-concat [] doc = omega arith
  token_total-concat (d ∷ docs) doc = omega (arith, token_total-concat docs doc)

searchable_text-stamp :
    (id : ℕ) (doc : Document) → searchable_text (stamp id doc) ≡ searchable_text doc
unfolding searchable_text
searchable_text-stamp id doc = refl

module _ (fl : Float) where
  open fl use {F, of_nat, round32}

  -- What the loop over the posting lists leaves alone.
  pub record SameStore (a b : Index F) : Type 0 where
    pub docs : a.docs ≡ b.docs
    pub doc_lengths : a.doc_lengths ≡ b.doc_lengths
    pub total_length : a.total_length ≡ b.total_length
    pub next_id : a.next_id ≡ b.next_id
    pub cache : a.cache ≡ b.cache

  add_postings-SameStore :
      (id : ℕ) (freq : Map Text ℕ) (idx : Index F) → SameStore (add_postings fl id freq idx) idx
  unfolding add_postings add_posting
  add_postings-SameStore id [] idx = record {
    docs = refl;
    doc_lengths = refl;
    total_length = refl;
    next_id = refl;
    cache = refl;
  }
  add_postings-SameStore id ((tok, f) ∷ freq) idx =
      let same = add_postings-SameStore id freq (add_posting fl id tok f idx) in
      record {
        docs = same.docs;
        doc_lengths = same.doc_lengths;
        total_length = same.total_length;
        next_id = same.next_id;
        cache = same.cache;
      }

  module _ (unicode : Text → Text) where
    -- The index holds exactly the documents `ds`, numbered in the order of their arrival: each is
    -- stored under its number with its token count, and the posting list of every token lists, in
    -- ascending order and with frequency 1, the documents whose text has that token.
    pub record Holds (ds : List Document) (idx : Index F) : Type 0 where
      pub docs : (k : ℕ) → get k idx.docs ≡ Option.map (stamp k) (get_elem? ds k)
      pub doc_lengths :
          (k : ℕ)
          → get k idx.doc_lengths
            ≡ Option.map (λ d. round32 (of_nat (length (tokens_of unicode d)))) (get_elem? ds k)
      pub doc_count : length idx.docs ≡ length ds
      pub next_id : idx.next_id ≡ length ds
      pub total_length : idx.total_length ≡ token_total unicode ds
      pub postings : (u : Text) → entries_of fl idx u ≡ inversion unicode 0 u ds
      pub counted : (u : Text) → IsCounted fl (posting fl idx u)

    -- A new index holds nothing.
    pub new_index-Holds : Holds [] (new_index F)
    unfolding new_index inversion token_total get
    new_index-Holds = record {
      docs = λ k. refl;
      doc_lengths = λ k. refl;
      doc_count = refl;
      next_id = refl;
      total_length = refl;
      postings = λ u. refl;
      counted = λ u. refl;
    }

    -- `put` at the next number appends.
    get-put_next :
        {V : Type 0} (f : ℕ → Document → V) (m : Map ℕ V) (ds : List Document) (doc : Document)
        (k : ℕ)
        → get k m ≡ Option.map (f k) (get_elem? ds k)
        → get k (put (length ds) (f (length ds) doc) m)
          ≡ Option.map (f k) (get_elem? (ds ++ doc ∷ []) k)
    get-put_next f m ds doc k h =
        rw (get-put (length ds) k (f (length ds) doc) m, get_elem?-concat ds doc k)
          (elim (Bool-cases (eqb (length ds) k)) [
            | inl e ↦ rw e (rw ((eqb_iff (length ds) k).0 e) refl)
            | inr e ↦ rw e h
          ])

    put_next-count :
        {V : Type 0} (f : ℕ → Document → V) (m : Map ℕ V) (ds : List Document) (v : V)
        → ((k : ℕ) → get k m ≡ Option.map (f k) (get_elem? ds k))
        → length m ≡ length ds
        → length (put (length ds) v m) ≡ length ds + 1
    put_next-count f m ds v h n = omega (
      arith,
      length-put_fresh (length ds) v m (
          h (length ds)
          ∙ ap (Option.map (f (length ds))) (get_elem?-end ds (length ds) (omega arith))),
    )

    module _ (ds : List Document) (doc : Document) (idx : Index F) (h : Holds ds idx) where
      abbrev toks : List Text
      toks = tokens_of unicode doc

      abbrev entered : Index F
      entered = enter_document fl (length ds) (stamp (length ds) doc) toks idx

      entered-SameStore : SameStore entered (record idx {
        next_id = idx.next_id + 1;
        docs = put (length ds) (stamp (length ds) doc) idx.docs;
        doc_lengths = put (length ds) (round32 (of_nat (length toks))) idx.doc_lengths;
        total_length = idx.total_length + length toks;
      })
      unfolding enter_document
      entered-SameStore = add_postings-SameStore (length ds) (count_tokens toks []) _

      entered-posting :
          (u : Text)
          → posting fl entered u ≡ (
              if contains toks u
              then bump fl (length ds) 1 (posting fl idx u)
              else posting fl idx u)
      unfolding enter_document
      entered-posting u =
          let n = tokenize-IsNodup unicode (searchable_text doc) in
          rw (count_tokens-ones toks n) (posting-add_postings fl (length ds) toks _ u n)

      entered-postings :
          (u : Text) → entries_of fl entered u ≡ inversion unicode 0 u (ds ++ doc ∷ [])
      entered-postings u =
          rw (entered-posting u, inversion-concat unicode 0 u ds doc)
            (elim (Bool-cases (contains toks u)) [
              | inl e ↦ rw e (
                  flat_entries-bump fl (length ds) 1 (posting fl idx u)
                  ∙ rw (h.postings u, zero-add))
              | inr e ↦ rw e (h.postings u)
            ])

      entered-IsCounted : (u : Text) → IsCounted fl (posting fl entered u)
      entered-IsCounted u = rw (entered-posting u) (elim (Bool-cases (contains toks u)) [
        | inl e ↦ rw e (bump-IsCounted fl (length ds) 1 (posting fl idx u) (h.counted u))
        | inr e ↦ rw e (h.counted u)
      ])

      entered-Holds : Holds (ds ++ doc ∷ []) entered
      entered-Holds =
          let same = entered-SameStore in
          record {
            docs = λ k. ap (get k) same.docs ∙ get-put_next stamp idx.docs ds doc k (h.docs k);
            doc_lengths = λ k.
                ap (get k) same.doc_lengths
                ∙ get-put_next (λ _ d. round32 (of_nat (length (tokens_of unicode d))))
                    idx.doc_lengths ds doc k (h.doc_lengths k);
            doc_count =
                ap length same.docs
                ∙ rw (length-append ds (doc ∷ []))
                    (put_next-count stamp idx.docs ds (stamp (length ds) doc) h.docs h.doc_count);
            next_id = omega (arith, same.next_id, h.next_id, length-append ds (doc ∷ []));
            total_length =
                omega (arith, same.total_length, h.total_length, token_total-concat unicode ds doc);
            postings = entered-postings;
            counted = entered-IsCounted;
          }

    -- AddDocument adds the document at the end, whatever it holds.
    pub add_document-Holds :
        (ds : List Document) (doc : Document) (idx : Index F)
        → Holds ds idx
        → Holds (ds ++ doc ∷ []) (add_document fl unicode doc idx)
    unfolding add_document
    add_document-Holds ds doc idx h =
        subst
          (λ n. Holds (ds ++ doc ∷ []) (
            enter_document fl n (stamp n doc) (tokenize unicode (searchable_text (stamp n doc)))
              idx))
          (sym h.next_id) (rw (searchable_text-stamp (length ds) doc) (entered-Holds ds doc idx h))

    -- Adding documents one after the other adds them in order.
    pub add_documents-Holds :
        (ds more : List Document) (idx : Index F)
        → Holds ds idx
        → Holds (ds ++ more) (add_documents fl unicode more idx)
    unfolding add_documents
    add_documents-Holds ds [] idx h = rw append-nil h
    add_documents-Holds ds (doc ∷ more) idx h = rw (append_assoc ds (doc ∷ []) more) at (
        add_documents-Holds (ds ++ doc ∷ []) more (add_document fl unicode doc idx)
          (add_document-Holds ds doc idx h))
