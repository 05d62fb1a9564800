-- ===== src/Index/Heap.antt =====
-- The min-heap of search-service/internal/indexer/index.go, with Push and Pop of container/heap.
-- The indices that these pass to Less and Swap are in range.
use telemetry_search_engine.Common.{
  ℕ, zero, suc, ◌+◌, ◌-◌, ◌*◌, ◌/◌, List, [], ◌∷◌, ◌++◌, Option, none, some, Bool, false, not, ◌&&◌,
  ◌||◌, length, get_elem?, set, take, ltb, leb, eqb, if◌then◌else◌,
}
use telemetry_search_engine.Float.{Float}
use telemetry_search_engine.Index.{ScoredDoc}

module _ (fl : Float) where
  open fl use {F, of_nat, lt}

  abbrev pub Heap : Type 0
  Heap = List (ScoredDoc F)

  abbrev less_found : Option (ScoredDoc F) → Option (ScoredDoc F) → Bool
  less_found (some a) (some b) = lt a.score b.score
  less_found _ _ = false

  unfoldable pub less_at : Heap → ℕ → ℕ → Bool
  less_at h i j = less_found (get_elem? h i) (get_elem? h j)

  abbrev pub swap_found : Heap → ℕ → ℕ → Option (ScoredDoc F) → Option (ScoredDoc F) → Heap
  swap_found h i j (some a) (some b) = set (set h i b) j a
  swap_found h i j _ _ = h

  unfoldable pub swap : Heap → ℕ → ℕ → Heap
  swap h i j = swap_found h i j (get_elem? h i) (get_elem? h j)

  -- heap.up, which ends at the root at the latest.
  unfoldable pub up : ℕ → Heap → ℕ → Heap
  up zero h j = h
  up (suc fuel) h j =
      let i = (j - 1) / 2 in
      let rise = up fuel (swap h i j) i in if eqb i j || not (less_at h j i) then h else rise

  abbrev pub smaller_child : Heap → ℕ → ℕ → ℕ
  smaller_child h n left = if ltb (left + 1) n && less_at h (left + 1) left then left + 1 else left

  -- heap.down on the first `n` entries.
  unfoldable pub down : ℕ → Heap → ℕ → ℕ → Heap
  down zero h i n = h
  down (suc fuel) h i n =
      let left = 2 * i + 1 in
      let j = smaller_child h n left in
      let sink = down fuel (swap h i j) j n in
      if leb n left then h else if not (less_at h j i) then h else sink

  unfoldable pub heap_push : ScoredDoc F → Heap → Heap
  heap_push x h = up (length h + 1) (h ++ x ∷ []) (length h)

  abbrev pub zero_scored : ScoredDoc F
  zero_scored = record { id = 0; score = of_nat 0 }

  abbrev pub scored_or_zero : Option (ScoredDoc F) → ScoredDoc F
  scored_or_zero none = zero_scored
  scored_or_zero (some x) = x

  -- The popped element, and the heap that is left.
  unfoldable pub heap_pop : Heap → ScoredDoc F × Heap
  heap_pop h =
      let n = length h - 1 in
      let sunk = down (length h) (swap h 0 n) 0 n in
      (scored_or_zero (get_elem? sunk n), take n sunk)

  unfoldable pub heap_min : Heap → F
  heap_min [] = of_nat 0
  heap_min (x ∷ h) = x.score

  -- Pops `n` times; each element goes before those popped earlier.
  unfoldable pub drain : ℕ → Heap → List (ScoredDoc F) → List (ScoredDoc F)
  drain zero h results = results
  drain (suc n) h results = let (x, rest) = heap_pop h in drain n rest (x ∷ results)
