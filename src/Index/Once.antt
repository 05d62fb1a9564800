-- ===== src/Index/Once.antt =====
-- wandBM25 ranks each document once at most.
use telemetry_search_engine.Common.{
  length-reverse, ℕ, zero, suc, ◌+◌, ◌≤◌, ◌<◌, ◌≡◌, refl, sym, ◌∙◌, List, [], ◌∷◌, Text, get,
  nat_eq, some, true, false, ◌||◌, length, get_elem?, get_elem?-All, get_elem?-lt, take, ltb, eqb,
  All, arith, Bool-cases, Option-cases, inl, inr, sum_of,
}
use mathlib.Core.List.{reverse}
use telemetry_search_engine.Float.{Float}
use telemetry_search_engine.Index.{PostingEntry, ScoredDoc, SearchQuery, Index}
use telemetry_search_engine.Index.Cursor.{Cursor, valid, cursor_doc, advance, next}
use telemetry_search_engine.Index.Heap.{Heap, heap_push}
use telemetry_search_engine.Index.Remaining.{IsGood, at_entry, at_end, stands}
use telemetry_search_engine.Index.Active.{IsActive}
use telemetry_search_engine.Index.Ends.{find_pivot-lt, round-Advances}
use telemetry_search_engine.Index.Tally.{sum_of-heap_push, sum_of-heap_pop}
use telemetry_search_engine.Index.Kept.{is_doc, times_ranked, length-heap_push}
use telemetry_search_engine.Index.Distinct.{
  IsOrdered, IsPast, Preserves, advance-Keeps, next-Keeps, none_before, sort_active-Preserves,
  move_at-Preserves, move_at-IsPast, caught_up, caught_up-Preserves,
}
use telemetry_search_engine.Index.Wand.{
  sort_active, all_at, move_at, top_k, Scan, find_pivot, block_sum, matches, offer, visit, round,
  scan,
}

module _ (fl : Float) where
  open fl use {F, of_nat, lt, le}

  -- A document is in the heap once at most, and then every cursor is past it.
  abbrev IsOnce : ℕ → Heap fl → List (Cursor F) → Type 0
  IsOnce d h cs = (times_ranked fl d h ≤ 1) × (0 < times_ranked fl d h → All (IsPast d) cs)

  pub record IsOnceOnly (s : Scan fl) : Type 0 where
    pub ordered : All IsOrdered s.cursors
    pub once : (d : ℕ) → IsOnce d s.heap s.cursors

  offer_times :
      (d : ℕ) (x : ScoredDoc F) (s : Scan fl)
      → times_ranked fl d (offer fl x s).heap ≤ is_doc fl d x + times_ranked fl d s.heap
  unfolding offer
  offer_times d x s =
      let grown = heap_push fl x s.heap in
      let size = length-heap_push fl x s.heap in
      let total = sum_of-heap_push fl (is_doc fl d) x s.heap in
      elim (Bool-cases (ltb (length s.heap) top_k || lt s.threshold x.score)) [
        | inr e ↦ rw e (omega arith)
        | inl e ↦ rw e (elim (Bool-cases (ltb top_k (length grown))) [
          | inl p ↦ rw p (
              omega (
                arith,
                total,
                sum_of-heap_pop fl (is_doc fl d) (length s.heap) grown (omega arith),
              ))
          | inr p ↦ rw p (omega (arith, total))
        ])
      ]

  -- What is past all cursors is not at one.
  not_here :
      (d : ℕ) (cs : List (Cursor F)) (k : ℕ) (c : Cursor F)
      → IsActive cs
      → get_elem? cs k ≡ some c
      → All (IsPast d) cs
      → d < cursor_doc c
  not_here d cs k c act at p =
      let past = get_elem?-All (IsPast d) cs k c p at in
      elim (stands c (get_elem?-All (λ x. IsGood x) cs k c act.good at)) [
        | at_entry e es a same v ↦
            let past' : All (λ (x : PostingEntry). d < x.doc_id) (e ∷ es) = rw a at past in
            omega (arith, past'.0, same)
        | at_end a v ↦
            let w = get_elem?-All (λ x. valid x ≡ true) cs k c act.valids at in
            absurd (let f : true ≡ false = sym w ∙ v in cc)
      ]

  -- Cursors that are moved under the same heap.
  moved_once :
      (s : Scan fl) (cs : List (Cursor F))
      → IsOnceOnly s
      → Preserves s.cursors cs
      → IsOnceOnly (record s { cursors = sort_active cs })
  moved_once s cs h (o, past) =
      let (sorted, past') = sort_active-Preserves cs o in
      record {
        ordered = sorted;
        once = λ d. ((h.once d).0, λ l. past' d (past d ((h.once d).1 l)));
      }

  -- After a turn that scores the pivot's document.
  offered-IsOnce :
      (s : Scan fl) (k : ℕ) (c : Cursor F)
      → IsActive s.cursors
      → get_elem? s.cursors k ≡ some c
      → all_at (cursor_doc c) (take k s.cursors) ≡ true
      → IsOnceOnly s
      → (d : ℕ) (x : ScoredDoc F) → x.id ≡ cursor_doc c
      → IsOnce d (offer fl x s).heap (sort_active (move_at (cursor_doc c) next s.cursors))
  offered-IsOnce s k c act at together h d x same =
      let doc = cursor_doc c in
      let (o, past) =
        move_at-Preserves doc next s.cursors (λ y g e. next-Keeps y g (ground arith)) act.good
          h.ordered in
      let (_, past') = sort_active-Preserves (move_at doc next s.cursors) o in
      let bound = offer_times d x s in
      let (before, gone) = h.once d in
      elim (Bool-cases (eqb x.id d)) [
        | inl e ↦
            let here : doc ≡ d = ground arith in
            let fresh : times_ranked fl d s.heap ≡ 0 =
              elim (Bool-cases (ltb 0 (times_ranked fl d s.heap))) [
                | inl l ↦
                    absurd (omega (arith, not_here d s.cursors k c act at (gone (ground arith))))
                | inr l ↦ ground arith
              ] in
            let beyond =
              move_at-IsPast doc s.cursors act.good h.ordered act.valids
                (none_before s.cursors k c act.sorted at together) in
            (ground arith, λ l. past' d (rw here (rw here at beyond)))
        | inr e ↦
            let less : times_ranked fl d (offer fl x s).heap ≤ times_ranked fl d s.heap =
              ground arith in
            (omega arith, λ l. past' d (past d (gone (omega arith))))
      ]

  module _ (unicode : Text → Text) (q : SearchQuery) (avg_len : F) (idx : Index F) where
    visit_once :
        (s : Scan fl) (k : ℕ) (c : Cursor F)
        → IsActive s.cursors
        → get_elem? s.cursors k ≡ some c
        → all_at (cursor_doc c) (take k s.cursors) ≡ true
        → IsOnceOnly s
        → IsOnceOnly (visit fl unicode q avg_len idx (cursor_doc c) s)
    unfolding visit
    visit_once s k c act at together h =
        let doc = cursor_doc c in
        let skipped =
          move_at-Preserves doc (advance (doc + 1)) s.cursors
            (λ x g e. advance-Keeps (doc + 1) x g (ground arith)) act.good h.ordered in
        let passed =
          move_at-Preserves doc next s.cursors (λ x g e. next-Keeps x g (ground arith)) act.good
            h.ordered in
        let cs' = move_at doc next s.cursors in
        let (sorted, past') = sort_active-Preserves cs' passed.0 in
        elim (Bool-cases (le (block_sum fl doc (of_nat 0) s.cursors) s.threshold)) [
          | inl e ↦ rw e (moved_once s (move_at doc (advance (doc + 1)) s.cursors) h skipped)
          | inr e ↦ rw e (elim (Bool-cases (matches unicode q (get doc idx.docs))) [
            | inr m ↦ rw m (moved_once s cs' h passed)
            | inl m ↦ rw m (record {
              ordered = sorted;
              once = λ d. offered-IsOnce s k c act at together h d _ refl;
            })
          ])
        ]

    round_once :
        (s : Scan fl) (k : ℕ)
        → IsActive s.cursors
        → k < length s.cursors
        → IsOnceOnly s
        → IsOnceOnly (round fl unicode q avg_len idx k s)
    unfolding round
    round_once s k act l h =
        let (c, at) = get_elem?-lt s.cursors k l in
        elim (Bool-cases (all_at (cursor_doc c) (take k s.cursors))) [
          | inl e ↦ rw (at, e) (visit_once s k c act at e h)
          | inr e ↦
              rw (at, e)
                (moved_once s (caught_up s.cursors k (cursor_doc c)) h
                  (caught_up-Preserves s.cursors k c act at h.ordered))
        ]

    -- The documents in the heap when the loop has ended are all different.
    pub scan_once :
        (fuel : ℕ) (s s' : Scan fl)
        → IsActive s.cursors
        → IsOnceOnly s
        → scan fl unicode q avg_len idx fuel s ≡ some s'
        → (d : ℕ) → times_ranked fl d s'.heap ≤ 1
    unfolding scan
    scan_once zero s s' act h e d = cc
    scan_once (suc fuel) s s' act h e d =
        elim (Option-cases (find_pivot fl s.threshold (of_nat 0) (reverse s.cursors))) [
          | inl p ↦
              let last : some s ≡ some s' = rw p at e in
              let same : s ≡ s' = cc in rw (← same) (h.once d).0
          | inr (k, p) ↦
              let inside : k < length s.cursors = omega (
                arith,
                find_pivot-lt fl s.threshold (of_nat 0) (reverse s.cursors) k p,
                length-reverse s.cursors,
              ) in
              scan_once fuel (round fl unicode q avg_len idx k s) s'
                (round-Advances fl unicode q avg_len idx s k act inside).0
                (round_once s k act inside h) (rw p at e) d
        ]

  -- The loop's first state, with an empty heap.
  pub first-IsOnceOnly :
      (cs : List (Cursor F)) (threshold : F)
      → All IsOrdered cs
      → IsOnceOnly (record { cursors = sort_active cs; heap = []; threshold = threshold })
  unfolding sum_of
  first-IsOnceOnly cs threshold o = record {
    ordered = (sort_active-Preserves cs o).0;
    once = λ d. (omega arith, λ l. absurd (omega arith));
  }
