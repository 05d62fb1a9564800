-- ===== src/Index/Landing.antt =====
-- Where the search of advance lands in the blocks of a posting list.
use telemetry_search_engine.Common.{
  ℕ, zero, suc, ◌+◌, ◌≤◌, ◌<◌, ◌≡◌, refl, ap, ◌∙◌, sym, List, [], ◌∷◌, some, length, get_elem?,
  drop, ltb, All, arith, Bool-cases, inl, inr,
}
use telemetry_search_engine.Index.{PostingEntry, Block, flat_entries}
use telemetry_search_engine.Index.Cursor.{doc_id_of, last_of, seek_in, advance_from, blocks_from}
use telemetry_search_engine.Index.Seek.{IsAscending, seek_in_lem}
use telemetry_search_engine.Index.Below.{
  drop_below, drop_below-append, drop_below-eq-drop, below_last,
}

module _ {F : Type 0} where
  -- A block that Finalize makes: not empty, and ascending.
  abbrev pub IsGoodBlock : Block F → Type 0
  IsGoodBlock blk = (0 < length blk.entries) × IsAscending blk.entries

  abbrev pub IsPlaced : ℕ → List (Block F) → Type 0
  IsPlaced i [] = i ≡ 0
  IsPlaced i (blk ∷ blks) = i < length blk.entries

  -- The place `p`, counted from the block `b`, has exactly `rest` ahead.
  abbrev pub Lands : List (Block F) → ℕ → ℕ × ℕ → List PostingEntry → Type 0
  Lands blks b p rest =
      (k : ℕ) × (p.0 ≡ b + k)
      × IsPlaced p.1 (blocks_from k blks)
      × (drop p.1 (flat_entries (blocks_from k blks)) ≡ rest)

  later_block :
      (blk : Block F) (blks : List (Block F)) (b : ℕ) (p : ℕ × ℕ) (rest : List PostingEntry)
      → Lands blks (b + 1) p rest
      → Lands (blk ∷ blks) b p rest
  later_block blk blks b p rest (k, e, placed, same) = (suc k, omega arith, placed, same)

  pub advance_from-Lands :
      (target : ℕ) (blks : List (Block F)) (b i : ℕ)
      → All IsGoodBlock blks
      → (blks ≡ [] → i ≡ 0)
      → Lands blks b (advance_from target blks b i) (drop_below target (flat_entries blks))
  unfolding advance_from
  advance_from-Lands target [] b i good z =
      (0, omega arith, z refl, (unfold drop_below in rw (z refl) refl))
  advance_from-Lands target (blk ∷ blks) b i ((full, asc), good) z =
      let rest =
        later_block blk blks b (advance_from target blks (b + 1) 0)
          (drop_below target (flat_entries blks))
          (advance_from-Lands target blks (b + 1) 0 good (λ _. refl)) in
      let (le, below, above) = seek_in_lem blk.entries target asc in
      let r = seek_in blk.entries target in
      elim (Bool-cases (ltb (doc_id_of (last_of blk.entries)) target)) [
        | inl e ↦
            rw
              (
                e,
                drop_below-append target blk.entries (flat_entries blks)
                    (λ j h. below_last blk.entries target j asc (ground arith) h),
              )
              rest
        | inr e ↦ rw e (elim (Bool-cases (ltb r (length blk.entries))) [
          | inl d ↦
              let l : r < length blk.entries = ground arith in
              rw d (
                0,
                omega arith,
                l,
                sym (
                    drop_below-eq-drop target r blk.entries (flat_entries blks) below l
                      (above r (omega arith) l)),
              )
          | inr d ↦
              rw
                (
                  d,
                  drop_below-append target blk.entries (flat_entries blks)
                      (λ j h. below j (ground arith)),
                )
                rest
        ])
      ]

  blocks_from-nil : (k : ℕ) → blocks_from {F = F} k [] ≡ []
  blocks_from-nil zero = refl
  blocks_from-nil (suc k) = refl

  pub blocks_from-append :
      (m k : ℕ) (blks : List (Block F))
      → blocks_from (m + k) blks ≡ blocks_from k (blocks_from m blks)
  blocks_from-append zero k blks = ap (λ n. blocks_from n blks) (omega arith)
  blocks_from-append (suc m) k [] = blocks_from-nil (suc m + k) ∙ sym (blocks_from-nil k)
  blocks_from-append (suc m) k (blk ∷ blks) =
      ap (λ n. blocks_from n (blk ∷ blks)) (suc_add m k) ∙ blocks_from-append m k blks
    where
      suc_add : (m k : ℕ) → suc m + k ≡ suc (m + k)
      suc_add m k = omega arith

  pub blocks_from-All :
      (P : Block F → Type 0) (k : ℕ) (blks : List (Block F))
      → All P blks
      → All P (blocks_from k blks)
  blocks_from-All P zero blks h = h
  blocks_from-All P (suc k) [] h = tt
  blocks_from-All P (suc k) (blk ∷ blks) (p, h) = blocks_from-All P k blks h

  -- The block that a cursor stands in, if any.
  pub at_block :
      (k : ℕ) (blks : List (Block F)) (bs : List (Block F)) (blk : Block F)
      → blocks_from k blks ≡ blk ∷ bs
      → (get_elem? blks k ≡ some blk) × (k < length blks) × (blocks_from (k + 1) blks ≡ bs)
  at_block zero [] bs blk e = absurd (cc)
  at_block zero (b ∷ blks) bs blk e = (cc, omega arith, cc)
  at_block (suc k) [] bs blk e = absurd (cc)
  at_block (suc k) (b ∷ blks) bs blk e =
      let (g, l, t) = at_block k blks bs blk e in
      (g, omega arith, (ap (λ n. blocks_from n (b ∷ blks)) (same k) ∙ t))
    where
      same : (k : ℕ) → suc k + 1 ≡ suc (k + 1)
      same k = omega arith

  pub past_blocks : (k : ℕ) (blks : List (Block F)) → blocks_from k blks ≡ [] → length blks ≤ k
  past_blocks zero [] e = omega arith
  past_blocks zero (b ∷ blks) e = absurd (cc)
  past_blocks (suc k) [] e = omega arith
  past_blocks (suc k) (b ∷ blks) e = omega (arith, past_blocks k blks e)
