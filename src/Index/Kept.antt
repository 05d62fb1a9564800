-- ===== src/Index/Kept.antt =====
-- A document that all cursors wait for is in the heap when wandBM25's loop ends, or the heap is full.
use telemetry_search_engine.Common.{
  length-reverse, ℕ, zero, suc, ◌+◌, ◌≤◌, ◌<◌, ◌≡◌, refl, sym, ◌∙◌, List, Text, get, nat_eq, none,
  some, true, false, ◌||◌, length, get_elem?, get_elem?-All, get_elem?-lt, take, ltb, eqb, arith,
  Bool-cases, Option-cases, inl, inr, ◌⊎◌, sum_of, if◌then◌else◌,
}
use mathlib.Core.List.{reverse}
use telemetry_search_engine.Float.{Float, FloatSum}
use telemetry_search_engine.Index.{ScoredDoc, SearchQuery, Index}
use telemetry_search_engine.Index.Cursor.{Cursor, cursor_doc}
use telemetry_search_engine.Index.Heap.{Heap, heap_push, heap_pop}
use telemetry_search_engine.Index.Heaped.{heap_push-IsHeaped, heap_pop-IsHeaped}
use telemetry_search_engine.Index.Tally.{All-Unit, sum_of-heap_push}
use telemetry_search_engine.Index.Active.{IsActive}
use telemetry_search_engine.Index.Ends.{find_pivot-lt, round-Advances}
use telemetry_search_engine.Index.Conjunctive.{Awaits-valid}
use telemetry_search_engine.Index.Turns.{
  AllWait, Waits, block_sum_at, pivot_exists, moved-AllWait, caught_up-AllWait,
}
use telemetry_search_engine.Index.Wand.{
  top_k, all_at, is_at, Scan, find_pivot, block_sum, offer, matches, visit, round, scan,
}

module _ (fl : Float) where
  open fl use {F, of_nat, lt, le}

  -- How often a document is among ranked ones.
  abbrev pub is_doc : ℕ → ScoredDoc F → ℕ
  is_doc d x = if eqb x.id d then 1 else 0

  abbrev pub times_ranked : ℕ → List (ScoredDoc F) → ℕ
  times_ranked d ranked = sum_of (is_doc d) ranked

  pub length-heap_push : (x : ScoredDoc F) (h : Heap fl) → length (heap_push fl x h) ≡ length h + 1
  length-heap_push x h =
      (heap_push-IsHeaped fl (λ _. Unit {0}) (length h) x h tt (refl, All-Unit h)).0

  length-heap_pop : (n : ℕ) (h : Heap fl) → length h ≡ n + 1 → length (heap_pop fl h).1 ≡ n
  length-heap_pop n h l = (heap_pop-IsHeaped fl (λ _. Unit {0}) n h (l, All-Unit h)).1.0

  -- An offered document goes into a heap that is still short of 1000, which leaves the threshold,
  -- or the heap is full.
  abbrev HasRoom : ScoredDoc F → Scan fl → Scan fl → Type 0
  HasRoom x s s' = (s'.heap ≡ heap_push fl x s.heap) × (s'.threshold ≡ s.threshold)

  offer_cases :
      (x : ScoredDoc F) (s : Scan fl)
      → (top_k ≤ length (offer fl x s).heap) ⊎ HasRoom x s (offer fl x s)
  unfolding offer
  offer_cases x s =
      let grown = heap_push fl x s.heap in
      let size = length-heap_push x s.heap in
      elim (Bool-cases (ltb (length s.heap) top_k || lt s.threshold x.score)) [
        | inr e ↦ rw e (inl (ground arith))
        | inl e ↦ rw e (elim (Bool-cases (ltb top_k (length grown))) [
          | inl p ↦ rw p (inl (ground (arith, length-heap_pop (length s.heap) grown size)))
          | inr p ↦ rw p (elim (Bool-cases (eqb (length grown) top_k)) [
            | inl f ↦ inl (ground arith)
            | inr f ↦ rw f (inr (refl, refl))
          ])
        ])
      ]

  offer_full :
      (x : ScoredDoc F) (s : Scan fl) → top_k ≤ length s.heap → top_k ≤ length (offer fl x s).heap
  unfolding offer
  offer_full x s full =
      let grown = heap_push fl x s.heap in
      let size = length-heap_push x s.heap in
      elim (Bool-cases (ltb (length s.heap) top_k || lt s.threshold x.score)) [
        | inr e ↦ rw e full
        | inl e ↦
            let p : ltb top_k (length grown) ≡ true = ground arith in
            rw (e, p) (ground (arith, length-heap_pop (length s.heap) grown size))
      ]

  pushed :
      (d : ℕ) (x : ScoredDoc F) (h : Heap fl) → x.id ≡ d → 0 < times_ranked d (heap_push fl x h)
  pushed d x h e = ground (arith, sum_of-heap_push fl (is_doc d) x h)

  -- Nothing is lost of the document: the heap is full, it is in the heap, or all cursors wait for
  -- it at the threshold zero.
  pub data Kept (d : ℕ) (s : Scan fl) : Type 0 where
    full : top_k ≤ length s.heap → Kept d s
    kept : 0 < times_ranked d s.heap → Kept d s
    awaited : s.threshold ≡ of_nat 0 → AllWait fl d s.cursors → Kept d s

  module _ (laws : FloatSum fl) (unicode : Text → Text) (q : SearchQuery) where
    module _ (avg_len : F) (idx : Index F) (d : ℕ) where
      offer-Kept :
          (x : ScoredDoc F) (s : Scan fl) (cs : List (Cursor F))
          → 0 < times_ranked d s.heap
          → Kept d (record (offer fl x s) { cursors = cs })
      offer-Kept x s cs h = elim (offer_cases x s) [
        | inl f ↦ full f
        | inr (e, _) ↦ kept (rw e (omega (arith, sum_of-heap_push fl (is_doc d) x s.heap)))
      ]

      visit-full :
          (doc : ℕ) (s : Scan fl)
          → top_k ≤ length s.heap
          → top_k ≤ length (visit fl unicode q avg_len idx doc s).heap
      unfolding visit
      visit-full doc s h =
          elim (Bool-cases (le (block_sum fl doc (of_nat 0) s.cursors) s.threshold)) [
            | inl e ↦ rw e h
            | inr e ↦ rw e (elim (Bool-cases (matches unicode q (get doc idx.docs))) [
              | inr m ↦ rw m h
              | inl m ↦ rw m (offer_full _ s h)
            ])
          ]

      visit-Kept :
          (doc : ℕ) (s : Scan fl)
          → 0 < times_ranked d s.heap
          → Kept d (visit fl unicode q avg_len idx doc s)
      unfolding visit
      visit-Kept doc s h =
          elim (Bool-cases (le (block_sum fl doc (of_nat 0) s.cursors) s.threshold)) [
            | inl e ↦ rw e (kept h)
            | inr e ↦ rw e (elim (Bool-cases (matches unicode q (get doc idx.docs))) [
              | inr m ↦ rw m (kept h)
              | inl m ↦ rw m (offer-Kept _ s _ h)
            ])
          ]

      -- A turn at a document before `d`.
      visit_before :
          (doc : ℕ) (s : Scan fl)
          → doc < d
          → s.threshold ≡ of_nat 0
          → AllWait fl d s.cursors
          → Kept d (visit fl unicode q avg_len idx doc s)
      unfolding visit
      visit_before doc s l t w =
          let (skipped, passed) = moved-AllWait fl d doc s.cursors l w in
          elim (Bool-cases (le (block_sum fl doc (of_nat 0) s.cursors) s.threshold)) [
            | inl e ↦ rw e (awaited t skipped)
            | inr e ↦ rw e (elim (Bool-cases (matches unicode q (get doc idx.docs))) [
              | inr m ↦ rw m (awaited t passed)
              | inl m ↦ rw m (elim (offer_cases _ s) [
                | inl f ↦ full f
                | inr (_, same) ↦ awaited (same ∙ t) passed
              ])
            ])
          ]

      -- The turn at `d`, which scores it.
      visit_at :
          (s : Scan fl) (k : ℕ) (c : Cursor F)
          → matches unicode q (get d idx.docs) ≡ true
          → get_elem? s.cursors k ≡ some c
          → is_at d c ≡ true
          → s.threshold ≡ of_nat 0
          → AllWait fl d s.cursors
          → Kept d (visit fl unicode q avg_len idx d s)
      unfolding visit
      visit_at s k c m at here t (_, w) =
          let e : le (block_sum fl d (of_nat 0) s.cursors) s.threshold ≡ false =
            rw t (laws.lt_not_le _ _ (block_sum_at fl laws d s.cursors k c w at here)) in
          rw (e, m)
            (elim (offer_cases _ s) [
              | inl f ↦ full f
              | inr (same, _) ↦ kept (rw same (pushed d _ s.heap refl))
            ])

      -- A turn at the pivot `c`.
      round-Kept :
          (s : Scan fl) (k : ℕ)
          → matches unicode q (get d idx.docs) ≡ true
          → IsActive s.cursors
          → k < length s.cursors
          → Kept d s
          → Kept d (round fl unicode q avg_len idx k s)
      unfolding round
      round-Kept s k m act l h =
          let (c, at) = get_elem?-lt s.cursors k l in
          elim (Bool-cases (all_at (cursor_doc c) (take k s.cursors))) [
            | inl e ↦
                rw (at, e)
                  (elim h [
                    | full f ↦ full (visit-full (cursor_doc c) s f)
                    | kept p ↦ visit-Kept (cursor_doc c) s p
                    | awaited t w ↦ visit_waiting s k c m at t w
                  ])
            | inr e ↦
                rw (at, e)
                  (elim h [
                    | full f ↦ full f
                    | kept p ↦ kept p
                    | awaited t w ↦ awaited t (caught_up-AllWait fl d s.cursors k c act at w)
                  ])
          ]
        where
          visit_waiting :
              (s : Scan fl) (k : ℕ) (c : Cursor F)
              → matches unicode q (get d idx.docs) ≡ true
              → get_elem? s.cursors k ≡ some c
              → s.threshold ≡ of_nat 0
              → AllWait fl d s.cursors
              → Kept d (visit fl unicode q avg_len idx (cursor_doc c) s)
          visit_waiting s k c m at t w =
              let (v, le) = Awaits-valid d c (get_elem?-All (Waits fl d) s.cursors k c w.1 at).0 in
              elim (Bool-cases (eqb (cursor_doc c) d)) [
                | inl e ↦
                    let same : cursor_doc c ≡ d = ground arith in
                    rw same (visit_at s k c m at (ground arith) t w)
                | inr e ↦ visit_before (cursor_doc c) s (ground arith) t w
              ]

      -- When the loop has ended the heap is full or holds the document.
      pub scan-Kept :
          (fuel : ℕ) (s s' : Scan fl)
          → matches unicode q (get d idx.docs) ≡ true
          → IsActive s.cursors
          → Kept d s
          → scan fl unicode q avg_len idx fuel s ≡ some s'
          → (top_k ≤ length s'.heap) ⊎ (0 < times_ranked d s'.heap)
      unfolding scan
      scan-Kept zero s s' m act h e = cc
      scan-Kept (suc fuel) s s' m act h e =
          elim (Option-cases (find_pivot fl s.threshold (of_nat 0) (reverse s.cursors))) [
            | inr (k, p) ↦
                let inside : k < length s.cursors = omega (
                  arith,
                  find_pivot-lt fl s.threshold (of_nat 0) (reverse s.cursors) k p,
                  length-reverse s.cursors,
                ) in
                scan-Kept fuel (round fl unicode q avg_len idx k s) s' m
                  (round-Advances fl unicode q avg_len idx s k act inside).0
                  (round-Kept s k m act inside h) (rw p at e)
            | inl p ↦
                let last : some s ≡ some s' = rw p at e in
                let same : s ≡ s' = cc in rw (← same) (settled p h)
          ]
        where
          settled :
              find_pivot fl s.threshold (of_nat 0) (reverse s.cursors) ≡ none
              → Kept d s
              → (top_k ≤ length s.heap) ⊎ (0 < times_ranked d s.heap)
          settled p (full f) = inl f
          settled p (kept k) = inr k
          settled p (awaited t w) =
              let (k, e) = pivot_exists fl laws d s.cursors w in
              absurd (let f : none ≡ some k = sym (rw t at p) ∙ e in cc)
