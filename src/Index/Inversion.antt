-- ===== src/Index/Inversion.antt =====
-- What the index holds, as a function of the list of documents that were added.
use telemetry_search_engine.Common.{
  ℕ, ◌+◌, ◌≡◌, refl, ap, sym, ◌∙◌, List, [], ◌∷◌, ◌++◌, Text, Map, none, get, put, get-put,
  put-fresh, length, length-append, nat_eq, text_eq, text_beq, text_beq_iff, All, IsNodup, contains,
  false, arith, if◌then◌else◌, Bool-cases, inl, inr,
}
use mathlib.Core.List.{append-nil, append_assoc}
use telemetry_search_engine.Float.{Float}
use telemetry_search_engine.Index.{PostingEntry, Block, PostingList, Index, flat_entries}
use telemetry_search_engine.Index.Add.{
  count_tokens, append_entry, list_of, add_posting, add_postings,
}

abbrev pub ones : List Text → Map Text ℕ
ones [] = []
ones (t ∷ ts) = (t, 1) ∷ ones ts

fresh-put :
    (t : Text) (v : ℕ) (ts : List Text) (freq : Map Text ℕ)
    → contains ts t ≡ false
    → All (λ u. get u freq ≡ none) ts
    → All (λ u. get u (put t v freq) ≡ none) ts
unfolding contains
fresh-put t v [] freq h a = tt
fresh-put t v (u ∷ ts) freq h (p, a) = (
  ground (arith, get-put t u v freq, text_beq_iff t u, text_beq_iff u t),
  fresh-put t v ts freq (ground arith) a,
)

count_tokens-fresh :
    (ts : List Text) (freq : Map Text ℕ)
    → IsNodup ts
    → All (λ u. get u freq ≡ none) ts
    → count_tokens ts freq ≡ freq ++ ones ts
unfolding count_tokens
count_tokens-fresh [] freq n a = sym (append-nil freq)
count_tokens-fresh (t ∷ ts) freq (new, n) (p, a) =
    rw
      (
        p,
        put-fresh t 1 freq p,
        count_tokens-fresh ts (freq ++ (t, 1) ∷ []) n
            (rw (put-fresh t 1 freq p) at (fresh-put t 1 ts freq new a)),
      )
      (append_assoc freq ((t, 1) ∷ []) (ones ts))

empty-fresh : (ts : List Text) → All (λ u. get {V = ℕ} u [] ≡ none) ts
unfolding get
empty-fresh [] = tt
empty-fresh (t ∷ ts) = (refl, empty-fresh ts)

-- Every token of a text is counted exactly once: the tokenizer repeats none.
pub count_tokens-ones : (ts : List Text) → IsNodup ts → count_tokens ts [] ≡ ones ts
count_tokens-ones ts n = count_tokens-fresh ts [] n (empty-fresh ts)

module _ (fl : Float) where
  open fl use {F}

  -- The posting list of a token, empty if the token is not indexed.
  abbrev pub posting : Index F → Text → PostingList F
  posting idx u = list_of fl (get u idx.inverted)

  abbrev pub entries_of : Index F → Text → List PostingEntry
  entries_of idx u = flat_entries (posting idx u).blocks

  abbrev pub entry : ℕ → ℕ → PostingEntry
  entry id f = record { doc_id = id; freq = f }

  flat_entries-append_entry :
      (e : PostingEntry) (blks : List (Block F))
      → flat_entries (append_entry fl e blks) ≡ flat_entries blks ++ e ∷ []
  unfolding append_entry
  flat_entries-append_entry e [] = refl
  flat_entries-append_entry e (blk ∷ []) = simp (append_assoc, append-nil)
  flat_entries-append_entry e (blk ∷ next ∷ blks) =
      rw (flat_entries-append_entry e (next ∷ blks))
        (sym (append_assoc blk.entries (flat_entries (next ∷ blks)) (e ∷ [])))

  pub bump : ℕ → ℕ → PostingList F → PostingList F
  bump id f pl = record pl {
    blocks = append_entry fl (entry id f) pl.blocks;
    doc_freq = pl.doc_freq + 1;
  }

  pub posting-add_posting :
      (id : ℕ) (tok u : Text) (f : ℕ) (idx : Index F)
      → posting (add_posting fl id tok f idx) u
        ≡ (if text_beq tok u then bump id f (posting idx tok) else posting idx u)
  unfolding add_posting bump
  posting-add_posting id tok u f idx =
      rw (get-put tok u (bump id f (posting idx tok)) idx.inverted)
        (elim (Bool-cases (text_beq tok u)) [ inl e ↦ rw e | inr e ↦ rw e ])

  -- A posting list whose document frequency is the number of its entries.
  abbrev pub IsCounted : PostingList F → Type 0
  IsCounted pl = pl.doc_freq ≡ length (flat_entries pl.blocks)

  pub bump-IsCounted : (id f : ℕ) (pl : PostingList F) → IsCounted pl → IsCounted (bump id f pl)
  unfolding bump
  bump-IsCounted id f pl h = omega (
    arith,
    length-append (flat_entries pl.blocks) (entry id f ∷ []),
    ap length (flat_entries-append_entry (entry id f) pl.blocks),
  )

  pub flat_entries-bump :
      (id f : ℕ) (pl : PostingList F)
      → flat_entries (bump id f pl).blocks ≡ flat_entries pl.blocks ++ entry id f ∷ []
  unfolding bump
  flat_entries-bump id f pl = flat_entries-append_entry (entry id f) pl.blocks

  pub posting-add_postings :
      (id : ℕ) (ts : List Text) (idx : Index F) (u : Text)
      → IsNodup ts
      → posting (add_postings fl id (ones ts) idx) u
        ≡ (if contains ts u then bump id 1 (posting idx u) else posting idx u)
  unfolding add_postings contains
  posting-add_postings id [] idx u n = refl
  posting-add_postings id (t ∷ ts) idx u (new, n) =
      posting-add_postings id ts (add_posting fl id t 1 idx) u n
      ∙ rw (posting-add_posting id t u 1 idx) (elim (Bool-cases (text_beq t u)) [
        | inl e ↦ let same : t ≡ u = (text_beq_iff t u).0 e in rw (e, ← same, new)
        | inr e ↦ rw e
      ])
