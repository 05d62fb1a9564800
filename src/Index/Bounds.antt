-- ===== src/Index/Bounds.antt =====
-- The bounds that Finalize stores: a block's maxNorm, and the greatest of them.
use telemetry_search_engine.Common.{
  ℕ, ◌≡◌, List, [], ◌∷◌, Map, All, true, false, arith, Bool-cases, inl, inr,
}
use telemetry_search_engine.Float.{Float, FloatOrder}
use telemetry_search_engine.Index.{PostingEntry, Block}
use telemetry_search_engine.Index.Finalize.{
  block_max, entry_norm, float_max, global_max, make_blocks,
}

module _ (fl : Float) (o : FloatOrder fl) where
  open fl use {F, lt, is_nan, of_nat}

  -- `b` is a number, and no less than `a`.
  abbrev pub Bounds : F → F → Type 0
  Bounds b a = (lt b a ≡ false) × (is_nan b ≡ false)

  Bounds-trans : (a b c : F) → Bounds c b → Bounds b a → Bounds c a
  Bounds-trans a b c (p, q) (r, s) = (o.negative_trans a b c s r p, q)

  lt-number : (a b : F) → lt a b ≡ true → is_nan b ≡ false
  lt-number a b h = ground (arith, o.nan_right a b)

  lt_self : (a : F) → lt a a ≡ false
  lt_self a = ground (arith, o.asym a a)

  float_max-Bounds :
      (best n : F)
      → is_nan best ≡ false
      → Bounds (float_max fl best n) best × Bounds (float_max fl best n) n
  unfolding float_max
  float_max-Bounds best n h = elim (Bool-cases (lt best n)) [
    | inl e ↦ rw e ((o.asym best n e, lt-number best n e), (lt_self n, lt-number best n e))
    | inr e ↦ rw e ((lt_self best, h), (e, h))
  ]

  module _ (lengths : Map ℕ F) (avg_len : F) where
    block_max-Bounds :
        (best : F) (chunk : List PostingEntry)
        → is_nan best ≡ false
        → Bounds (block_max fl lengths avg_len best chunk) best
          × All
              (λ e.
                Bounds (block_max fl lengths avg_len best chunk) (entry_norm fl lengths avg_len e))
              chunk
    unfolding block_max
    block_max-Bounds best [] h = ((lt_self best, h), tt)
    block_max-Bounds best (e ∷ chunk) h =
        let n = entry_norm fl lengths avg_len e in
        let next = float_max fl best n in
        let (old, new) = float_max-Bounds best n h in
        let (p, q) = block_max-Bounds next chunk old.1 in
        (Bounds-trans best next _ p old, (Bounds-trans n next _ p new, q))

    -- If floats compare as IEEE 754 says and zero is a number, every entry of a block has a norm that
    -- is not above the block's maxNorm.
    pub make_blocks-Bounds :
        (cs : List (List PostingEntry))
        → is_nan (of_nat 0) ≡ false
        → All
            (λ (blk : Block F).
              All (λ e. Bounds blk.max_norm (entry_norm fl lengths avg_len e)) blk.entries)
            (make_blocks fl lengths avg_len cs)
    unfolding make_blocks
    make_blocks-Bounds [] h = tt
    make_blocks-Bounds (c ∷ cs) h = ((block_max-Bounds (of_nat 0) c h).1, make_blocks-Bounds cs h)

  -- The loops over the blocks find a value that no block's maxNorm is above.
  pub global_max-Bounds :
      (best : F) (blks : List (Block F))
      → is_nan best ≡ false
      → Bounds (global_max fl best blks) best
        × All (λ (blk : Block F). Bounds (global_max fl best blks) blk.max_norm) blks
  unfolding global_max
  global_max-Bounds best [] h = ((lt_self best, h), tt)
  global_max-Bounds best (blk ∷ blks) h =
      let next = float_max fl best blk.max_norm in
      let (old, new) = float_max-Bounds best blk.max_norm h in
      let (p, q) = global_max-Bounds next blks old.1 in
      (Bounds-trans best next _ p old, (Bounds-trans blk.max_norm next _ p new, q))
