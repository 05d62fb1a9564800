-- ===== src/Index/Cursor.antt =====
-- The cursor of search-service/internal/indexer/index.go. Reads outside a slice, which panic, give
-- 0 here; a valid cursor on blocks that are not empty makes none.
use telemetry_search_engine.Common.{
  ℕ, zero, suc, ◌+◌, ◌/◌, List, [], ◌∷◌, Option, none, some, Bool, length, get_elem?, ltb, leb,
  if◌then◌else◌,
}
use telemetry_search_engine.Float.{Float}
use telemetry_search_engine.Index.{PostingEntry, Block, PostingList}

pub record Cursor (F : Type 0) : Type 0 where
  pub pl : PostingList F
  pub block_idx : ℕ
  pub entry_idx : ℕ
  pub idf : F

-- sort.Search(n, f) between `i` and `j`; the fuel is their distance.
unfoldable pub search_between : ℕ → ℕ → ℕ → (ℕ → Bool) → ℕ
search_between zero i j f = i
search_between (suc fuel) i j f =
    let h = (i + j) / 2 in
    let right = search_between fuel (h + 1) j f in
    let left = search_between fuel i h f in if ltb i j then (if f h then left else right) else i

unfoldable pub sort_search : ℕ → (ℕ → Bool) → ℕ
unfolding search_between
sort_search n f = search_between n 0 n f

abbrev pub doc_id_of : Option PostingEntry → ℕ
doc_id_of none = 0
doc_id_of (some e) = e.doc_id

abbrev pub freq_of : Option PostingEntry → ℕ
freq_of none = 0
freq_of (some e) = e.freq

abbrev pub last_of : List PostingEntry → Option PostingEntry
last_of [] = none
last_of (e ∷ []) = some e
last_of (e ∷ d ∷ es) = last_of (d ∷ es)

abbrev pub seek_in : List PostingEntry → ℕ → ℕ
seek_in entries target =
    sort_search (length entries) (λ i. leb target (doc_id_of (get_elem? entries i)))

module _ {F : Type 0} where
  unfoldable pub valid : Cursor F → Bool
  valid c = ltb c.block_idx (length c.pl.blocks)

  abbrev pub entry_at : Option (Block F) → ℕ → Option PostingEntry
  entry_at none i = none
  entry_at (some blk) i = get_elem? blk.entries i

  unfoldable pub current : Cursor F → Option PostingEntry
  current c = entry_at (get_elem? c.pl.blocks c.block_idx) c.entry_idx

  unfoldable pub cursor_doc : Cursor F → ℕ
  unfolding current
  cursor_doc c = doc_id_of (current c)

  unfoldable pub cursor_freq : Cursor F → ℕ
  unfolding current
  cursor_freq c = freq_of (current c)

  -- The loop of advance, over the blocks from the current one; `b` is the index of the first.
  unfoldable pub advance_from : ℕ → List (Block F) → ℕ → ℕ → ℕ × ℕ
  advance_from target [] b i = (b, i)
  advance_from target (blk ∷ blks) b i =
      let rest = advance_from target blks (b + 1) 0 in
      let at = seek_in blk.entries target in
      if ltb (doc_id_of (last_of blk.entries)) target
      then rest
      else if ltb at (length blk.entries)
      then (b, at)
      else rest

  abbrev pub blocks_from : ℕ → List (Block F) → List (Block F)
  blocks_from zero blks = blks
  blocks_from (suc n) [] = []
  blocks_from (suc n) (blk ∷ blks) = blocks_from n blks

  unfoldable pub advance : ℕ → Cursor F → Cursor F
  unfolding advance_from sort_search
  advance target c =
      let place =
        advance_from target (blocks_from c.block_idx c.pl.blocks) c.block_idx c.entry_idx in
      record c { block_idx = place.0; entry_idx = place.1 }

  abbrev pub size_of : Option (Block F) → ℕ
  size_of none = 0
  size_of (some blk) = length blk.entries

  unfoldable pub next : Cursor F → Cursor F
  unfolding valid
  next c =
      if valid c
      then (if leb (size_of (get_elem? c.pl.blocks c.block_idx)) (c.entry_idx + 1)
          then record c { block_idx = c.block_idx + 1; entry_idx = 0 }
          else record c { entry_idx = c.entry_idx + 1 })
      else c

module _ (fl : Float) where
  open fl use {F, of_nat, mul}

  abbrev norm_of : Option (Block F) → F
  norm_of none = of_nat 0
  norm_of (some blk) = blk.max_norm

  unfoldable pub block_max_score : Cursor F → F
  unfolding valid
  block_max_score c =
      if valid c then mul c.idf (norm_of (get_elem? c.pl.blocks c.block_idx)) else of_nat 0
