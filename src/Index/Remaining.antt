-- ===== src/Index/Remaining.antt =====
-- A cursor as the list of the entries that it has not passed: advance drops those below its target,
-- and next drops one.
use telemetry_search_engine.Common.{
  ℕ, ◌+◌, ◌≤◌, ◌≡◌, refl, ap, ◌∙◌, sym, List, [], ◌∷◌, ◌++◌, true, false, length, get_elem?, drop,
  ltb, leb, All, arith, Bool-cases, inl, inr,
}
use telemetry_search_engine.Index.{PostingEntry, Block, flat_entries}
use telemetry_search_engine.Index.Cursor.{
  Cursor, valid, current, cursor_doc, doc_id_of, size_of, advance_from, advance, next, blocks_from,
}
use telemetry_search_engine.Index.Seek.{ascending-lt}
use telemetry_search_engine.Index.Below.{drop_below, drop_below-drop, drop-append, drop_all}
use telemetry_search_engine.Index.Landing.{
  IsGoodBlock, IsPlaced, Lands, advance_from-Lands, blocks_from-append, blocks_from-All, at_block,
  past_blocks,
}

module _ {F : Type 0} where
  -- The entries that a cursor has not passed, its own first.
  unfoldable pub ahead : Cursor F → List PostingEntry
  ahead c = drop c.entry_idx (flat_entries (blocks_from c.block_idx c.pl.blocks))

  -- A cursor on a posting list that Finalize has left, at one of its entries or past them all.
  pub record IsGood (c : Cursor F) : Type 0 where
    pub blocks : All IsGoodBlock c.pl.blocks
    pub placed : IsPlaced c.entry_idx (blocks_from c.block_idx c.pl.blocks)

  -- A good cursor is valid just when it has an entry ahead, which is its document's.
  pub data Stands (c : Cursor F) : Type 0 where
    at_entry :
        (e : PostingEntry) (es : List PostingEntry)
        → ahead c ≡ e ∷ es
        → cursor_doc c ≡ e.doc_id
        → valid c ≡ true
        → Stands c
    at_end : ahead c ≡ [] → valid c ≡ false → Stands c

  Stands-in :
      (c : Cursor F) (bs : List (Block F))
      → blocks_from c.block_idx c.pl.blocks ≡ bs
      → IsPlaced c.entry_idx bs
      → Stands c
  Stands-in c [] e p =
      at_end (unfold ahead in rw (e, p) refl)
        (unfold valid in ground (arith, past_blocks c.block_idx c.pl.blocks e))
  Stands-in c (blk ∷ bs) e p =
      let (at, lt, _) = at_block c.block_idx c.pl.blocks bs blk e in
      let (d, here, split) = drop-append c.entry_idx blk.entries (flat_entries bs) p in
      at_entry d (drop (c.entry_idx + 1) (blk.entries ++ flat_entries bs))
        (unfold ahead in rw e split) (unfold cursor_doc current in rw (at, here) refl)
        (unfold valid in ground arith)

  pub stands : (c : Cursor F) → IsGood c → Stands c
  stands c g = Stands-in c (blocks_from c.block_idx c.pl.blocks) refl g.placed

  pub IsPlaced-zero : (bs : List (Block F)) → All IsGoodBlock bs → IsPlaced 0 bs
  IsPlaced-zero [] h = refl
  IsPlaced-zero (blk ∷ bs) ((full, _), _) = full

  empty_place : (i : ℕ) (bs : List (Block F)) → IsPlaced i bs → bs ≡ [] → i ≡ 0
  empty_place i [] p e = p
  empty_place i (blk ∷ bs) p e = absurd (cc)

  -- What a cursor has passed in its block is below a target that it is not past.
  passed_below :
      (target : ℕ) (c : Cursor F) (bs : List (Block F))
      → blocks_from c.block_idx c.pl.blocks ≡ bs
      → IsPlaced c.entry_idx bs
      → All IsGoodBlock bs
      → cursor_doc c ≤ target
      → drop_below target (drop c.entry_idx (flat_entries bs)) ≡ drop_below target (flat_entries bs)
  unfolding cursor_doc current
  passed_below target c [] e p good h = rw p refl
  passed_below target c (blk ∷ bs) e p ((_, asc), good) h =
      let (at, lt, _) = at_block c.block_idx c.pl.blocks bs blk e in
      let h' : doc_id_of (get_elem? blk.entries c.entry_idx) ≤ target = rw at at h in
      drop_below-drop target c.entry_idx blk.entries (flat_entries bs)
        (λ j l. omega (arith, ascending-lt blk.entries j c.entry_idx asc l p)) (omega arith)

  module _ (target : ℕ) (c : Cursor F) (bs : List (Block F)) where
    advance-Lands :
        blocks_from c.block_idx c.pl.blocks ≡ bs
        → (rest : List PostingEntry)
        → Lands bs c.block_idx (advance_from target bs c.block_idx c.entry_idx) rest
        → IsPlaced
            (advance target c).entry_idx
            (blocks_from (advance target c).block_idx c.pl.blocks)
          × (ahead (advance target c) ≡ rest)
    unfolding advance ahead
    advance-Lands e rest (k, to, placed, same) =
        let there : blocks_from (advance_from target bs c.block_idx c.entry_idx).0 c.pl.blocks
            ≡ blocks_from k bs =
          ap (λ n. blocks_from n c.pl.blocks) to
          ∙ blocks_from-append c.block_idx k c.pl.blocks
          ∙ ap (blocks_from k) e in
        rw (e, there) (placed, same)

  -- advance, on a cursor that stands at or before its target, drops the entries below it.
  pub ahead-advance :
      (target : ℕ) (c : Cursor F)
      → IsGood c
      → cursor_doc c ≤ target
      → IsGood (advance target c) × (ahead (advance target c) ≡ drop_below target (ahead c))
  ahead-advance target c g below =
      let bs = blocks_from c.block_idx c.pl.blocks in
      let good = blocks_from-All IsGoodBlock c.block_idx c.pl.blocks g.blocks in
      let (placed, same) = advance-Lands target c bs refl (drop_below target (flat_entries bs)) (
        advance_from-Lands target bs c.block_idx c.entry_idx good
          (empty_place c.entry_idx bs g.placed)) in
      (
        record { blocks = unfold advance in g.blocks; placed = unfold advance in placed },
        same ∙ sym (unfold ahead in passed_below target c bs refl g.placed good below),
      )

  next_in :
      (c : Cursor F) (e : PostingEntry) (es : List PostingEntry) (bs : List (Block F))
      → blocks_from c.block_idx c.pl.blocks ≡ bs
      → IsPlaced c.entry_idx bs
      → All IsGoodBlock bs
      → drop c.entry_idx (flat_entries bs) ≡ e ∷ es
      → IsPlaced (next c).entry_idx (blocks_from (next c).block_idx c.pl.blocks)
        × (ahead (next c) ≡ es)
  unfolding next valid ahead
  next_in c e es [] b p good h = absurd (let none_left : [] ≡ e ∷ es = rw p at h in cc)
  next_in c e es (blk ∷ bs) b p (_, good) h =
      let (at, lt, following) = at_block c.block_idx c.pl.blocks bs blk b in
      let (d, here, split) = drop-append c.entry_idx blk.entries (flat_entries bs) p in
      let inside : ltb c.block_idx (length c.pl.blocks) ≡ true = ground arith in
      let tail : drop (c.entry_idx + 1) (blk.entries ++ flat_entries bs) ≡ es = cc in
      rw (inside, at)
        (elim (Bool-cases (leb (length blk.entries) (c.entry_idx + 1))) [
          | inl q ↦
              let last : c.entry_idx + 1 ≡ length blk.entries = ground arith in
              rw (q, following)
                (
                  IsPlaced-zero bs good,
                  sym (drop_all blk.entries (flat_entries bs)) ∙ (rw last at tail),
                )
          | inr q ↦ rw (q, b) (ground arith, tail)
        ])

  pub pl-next : (c : Cursor F) → (next c).pl ≡ c.pl
  unfolding next
  pl-next c = elim (Bool-cases (valid c)) [
    | inl v ↦
        rw v
          (elim (Bool-cases (leb (size_of (get_elem? c.pl.blocks c.block_idx)) (c.entry_idx + 1))) [
            | inl q ↦ rw q
            | inr q ↦ rw q
          ])
    | inr v ↦ rw v
  ]

  -- next drops the entry of a valid cursor.
  pub ahead-next :
      (c : Cursor F) (e : PostingEntry) (es : List PostingEntry)
      → IsGood c
      → ahead c ≡ e ∷ es
      → IsGood (next c) × (ahead (next c) ≡ es)
  ahead-next c e es g h =
      let bs = blocks_from c.block_idx c.pl.blocks in
      let (placed, same) =
        next_in c e es bs refl g.placed
          (blocks_from-All IsGoodBlock c.block_idx c.pl.blocks g.blocks) (unfold ahead in h) in
      (record { blocks = rw (pl-next c) g.blocks; placed = rw (pl-next c) placed }, same)
