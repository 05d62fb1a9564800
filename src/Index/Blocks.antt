-- ===== src/Index/Blocks.antt =====
-- Finalize: what the sorted and blocked posting lists hold, their blocks and their bounds.
use telemetry_search_engine.Common.{
  ℕ, zero, suc, ◌+◌, ◌≤◌, ◌<◌, ◌≡◌, ◌⊎◌, refl, ap, ◌∙◌, List, [], ◌∷◌, ◌++◌, Text, length, nat_eq,
  text_eq, All, All-map, contains, take, drop, take-append-drop, length-drop, length-take, false,
  arith, ltb, Bool-cases, inl, inr, IsSortedBy,
}
use native.Mathlib.Decide.{dec_le}
use telemetry_search_engine.Index.{Document, PostingEntry}
use telemetry_search_engine.Index.Loaded.{inversion, tokens_of}
use telemetry_search_engine.Index.Finalize.{block_size, entry_less, chunks}

le_of_suc : (id : ℕ) (e : PostingEntry) → id + 1 ≤ e.doc_id → id ≤ e.doc_id
le_of_suc id e h = omega arith

not_less : (id : ℕ) (e : PostingEntry) → id + 1 ≤ e.doc_id → ltb e.doc_id id ≡ false
not_less id e h = ground arith

pub inversion-bound :
    (unicode : Text → Text) (id : ℕ) (u : Text) (ds : List Document)
    → All (λ (e : PostingEntry). id ≤ e.doc_id) (inversion unicode id u ds)
unfolding inversion
inversion-bound unicode id u [] = tt
inversion-bound unicode id u (d ∷ ds) =
    let rest =
      All-map (λ (e : PostingEntry). le_of_suc id e) (inversion unicode (id + 1) u ds)
        (inversion-bound unicode (id + 1) u ds) in
    elim (Bool-cases (contains (tokens_of unicode d) u)) [
      | inl e ↦ rw e (omega arith, rest)
      | inr e ↦ rw e rest
    ]

-- The postings of a token ascend by document.
pub inversion-IsSortedBy :
    (unicode : Text → Text) (id : ℕ) (u : Text) (ds : List Document)
    → IsSortedBy entry_less (inversion unicode id u ds)
unfolding inversion
inversion-IsSortedBy unicode id u [] = tt
inversion-IsSortedBy unicode id u (d ∷ ds) =
    let rest = inversion-IsSortedBy unicode (id + 1) u ds in
    elim (Bool-cases (contains (tokens_of unicode d) u)) [
      | inl e ↦ rw e (
        All-map (λ (e : PostingEntry). not_less id e) (inversion unicode (id + 1) u ds)
            (inversion-bound unicode (id + 1) u ds),
        rest,
      )
      | inr e ↦ rw e rest
    ]

unfoldable pub flat : List (List PostingEntry) → List PostingEntry
flat [] = []
flat (c ∷ cs) = c ++ flat cs

pub flat-chunks : (n : ℕ) (all : List PostingEntry) → length all ≤ n → flat (chunks n all) ≡ all
unfolding flat chunks
flat-chunks n [] h = refl
flat-chunks zero (e ∷ all) h = absurd (omega arith)
flat-chunks (suc n) (e ∷ all) h =
    ap (◌++◌ (take block_size (e ∷ all)))
      (flat-chunks n (drop block_size (e ∷ all)) (omega (arith, length-drop block_size (e ∷ all))))
    ∙ take-append-drop block_size (e ∷ all)

-- Every block but the last has exactly 64 entries, and the last has 1 to 64.
abbrev pub IsBlocked : List (List PostingEntry) → Type 0
IsBlocked [] = Unit
IsBlocked (c ∷ []) = (0 < length c) × (length c ≤ block_size)
IsBlocked (c ∷ d ∷ cs) = (length c ≡ block_size) × IsBlocked (d ∷ cs)

IsBlocked-cons :
    (c : List PostingEntry) (cs : List (List PostingEntry))
    → 0 < length c
    → length c ≤ block_size
    → (length c ≡ block_size) ⊎ (cs ≡ [])
    → IsBlocked cs
    → IsBlocked (c ∷ cs)
IsBlocked-cons c [] p q h k = (p, q)
IsBlocked-cons c (d ∷ cs) p q h k = (ground arith, k)

chunks-nil : (n : ℕ) (all : List PostingEntry) → length all ≡ 0 → chunks n all ≡ []
unfolding chunks
chunks-nil n [] h = refl
chunks-nil n (e ∷ all) h = absurd (omega arith)

pub chunks-IsBlocked : (n : ℕ) (all : List PostingEntry) → IsBlocked (chunks n all)
unfolding chunks
chunks-IsBlocked n [] = tt
chunks-IsBlocked zero (e ∷ all) = tt
chunks-IsBlocked (suc n) (e ∷ all) =
    let size = length-take block_size (e ∷ all) in
    IsBlocked-cons (take block_size (e ∷ all)) (chunks n (drop block_size (e ∷ all)))
      (omega (arith, size)) (omega (arith, size)) (full (dec_le block_size (length (e ∷ all))))
      (chunks-IsBlocked n (drop block_size (e ∷ all)))
  where
    full :
        Dec (block_size ≤ length (e ∷ all))
        → (length (take block_size (e ∷ all)) ≡ block_size)
          ⊎ (chunks n (drop block_size (e ∷ all)) ≡ [])
    full (yes h) = inl (omega (arith, length-take block_size (e ∷ all)))
    full (no h) =
        inr (
          chunks-nil n (drop block_size (e ∷ all))
            (omega (arith, length-drop block_size (e ∷ all))))
