-- ===== src/Index/Ends.antt =====
-- wandBM25 ends: each turn of its loop passes an entry of a posting list.
use telemetry_search_engine.Common.{
  length-reverse, ℕ, zero, suc, ◌+◌, ◌≤◌, ◌<◌, ◌≡◌, refl, ap, ◌∙◌, sym, List, [], ◌∷◌, ◌++◌, map,
  Text, get, nat_eq, text_eq, some, true, false, length, get_elem?, get_elem?-lt, get_elem?-All,
  take, drop, take-append-drop, ltb, eqb, All, All-append, All-take, All-drop, All-map, arith,
  Bool-cases, Option-cases, inl, inr, take-IsSortedBy, sum_of, sum_of-append,
}
use mathlib.Core.List.{reverse}
use telemetry_search_engine.Float.{Float}
use telemetry_search_engine.Index.{SearchQuery, Index}
use telemetry_search_engine.Index.Cursor.{Cursor, valid, cursor_doc, advance, next}
use telemetry_search_engine.Index.Remaining.{ahead, IsGood, at_entry, at_end, stands, ahead-advance}
use telemetry_search_engine.Index.Below.{drop_below, length-drop_below}
use telemetry_search_engine.Index.Wand.{
  cursor_less, sort_active, all_at, move_at, Scan, find_pivot, block_sum, matches, visit, round,
  scan,
}
use telemetry_search_engine.Index.Active.{
  weight, IsActive, sort_active-IsActive, Passes, advance-Passes, next-Passes, move_at-All,
  sum_of-move_at-lt,
}

module _ {F : Type 0} where
  -- Cursors that are not past `doc` pass no more than what is below it, and one that is before it
  -- passes an entry.
  advance_one :
      (doc : ℕ) (c : Cursor F)
      → IsGood c
      → valid c ≡ true
      → cursor_doc c ≤ doc
      → IsGood (advance doc c)
        × (weight (advance doc c) ≤ weight c)
        × (eqb (cursor_doc c) doc ≡ false → weight (advance doc c) < weight c)
  advance_one doc c g v le =
      let (good, same) = ahead-advance doc c g le in
      (
        good,
        rw same (length-drop_below doc (ahead c)),
        λ apart. elim (stands c g) [
          | at_entry e es a d _ ↦
              let before : e.doc_id < doc = ground arith in
              let skips : drop_below doc (e ∷ es) ≡ drop_below doc es =
                unfold drop_below in ground arith in
              rw (same, a, skips) (omega (arith, length-drop_below doc es))
          | at_end a w ↦ absurd (let f : true ≡ false = sym v ∙ w in cc)
        ],
      )

  advance_all :
      (doc : ℕ) (cs : List (Cursor F))
      → All IsGood cs
      → All (λ c. valid c ≡ true) cs
      → All (λ c. cursor_doc c ≤ doc) cs
      → All IsGood (map (advance doc) cs)
        × (sum_of weight (map (advance doc) cs) ≤ sum_of weight cs)
        × (all_at doc cs ≡ false → sum_of weight (map (advance doc) cs) < sum_of weight cs)
  unfolding sum_of all_at
  advance_all doc [] g v le = (tt, omega arith, λ h. cc)
  advance_all doc (c ∷ cs) (g, gs) (v, vs) (l, ls) =
      let (good, le, lt) = advance_one doc c g v l in
      let (goods, les, lts) = advance_all doc cs gs vs ls in
      (
        (good, goods),
        omega arith,
        λ h. elim (Bool-cases (eqb (cursor_doc c) doc)) [
          | inl e ↦ omega (arith, lts (rw e at h))
          | inr e ↦ omega (arith, lt e)
        ],
      )

  -- A turn of the loop that moves the cursors at the pivot's document.
  moved-IsActive :
      (doc : ℕ) (move : Cursor F → Cursor F) (cs : List (Cursor F)) (k : ℕ) (c : Cursor F)
      → Passes doc move
      → IsActive cs
      → get_elem? cs k ≡ some c
      → cursor_doc c ≡ doc
      → IsActive (sort_active (move_at doc move cs))
        × (sum_of weight (sort_active (move_at doc move cs)) < sum_of weight cs)
  moved-IsActive doc move cs k c p act at here =
      let v = get_elem?-All (λ d. valid d ≡ true) cs k c act.valids at in
      let (active, le) =
        sort_active-IsActive (move_at doc move cs) (move_at-All doc move cs p act.good) in
      (active, omega (arith, le, sum_of-move_at-lt doc move cs k c p act.good at (ground arith)))

  -- A turn that moves the cursors before the pivot up to its document.
  caught_up-IsActive :
      (cs : List (Cursor F)) (k : ℕ) (c : Cursor F)
      → IsActive cs
      → get_elem? cs k ≡ some c
      → all_at (cursor_doc c) (take k cs) ≡ false
      → let after = sort_active (map (advance (cursor_doc c)) (take k cs) ++ drop k cs) in
        IsActive after × (sum_of weight after < sum_of weight cs)
  caught_up-IsActive cs k c act at apart =
      let doc = cursor_doc c in
      let not_past =
        All-map
          (λ (d : Cursor F) (h : ltb doc (cursor_doc d) ≡ false). not_below doc (cursor_doc d) h)
          (take k cs) (take-IsSortedBy cursor_less cs k c act.sorted at) in
      let (good, _, lt) =
        advance_all doc (take k cs) (All-take IsGood k cs act.good)
          (All-take (λ d. valid d ≡ true) k cs act.valids) not_past in
      let front = map (advance doc) (take k cs) in
      let (active, le) =
        sort_active-IsActive (front ++ drop k cs)
          (All-append IsGood front (drop k cs) good (All-drop IsGood k cs act.good)) in
      (
        active,
        omega (
          arith,
          le,
          lt apart,
          sum_of-append weight front (drop k cs),
          sum_of-append weight (take k cs) (drop k cs),
          ap (sum_of weight) (take-append-drop k cs),
        ),
      )
    where
      not_below : (a b : ℕ) → ltb a b ≡ false → b ≤ a
      not_below a b h = ground arith

module _ (fl : Float) where
  open fl use {F, of_nat, le}

  -- The pivot is one of the cursors.
  pub find_pivot-lt :
      (threshold sum : F) (cs : List (Cursor F)) (k : ℕ)
      → find_pivot fl threshold sum cs ≡ some k
      → k < length cs
  unfolding find_pivot
  find_pivot-lt threshold sum [] k h = cc
  find_pivot-lt threshold sum (c ∷ cs) k h =
      elim (Bool-cases (fl.lt threshold (fl.add sum c.pl.max_score))) [
        | inl e ↦
            let found : some (length cs) ≡ some k = rw e at h in
            let same : length cs ≡ k = cc in omega arith
        | inr e ↦
            omega (arith, find_pivot-lt threshold (fl.add sum c.pl.max_score) cs k (rw e at h))
      ]

  module _ (unicode : Text → Text) (q : SearchQuery) (avg_len : F) (idx : Index F) where
    -- What a turn keeps, and that it passes an entry.
    abbrev pub Advances : Scan fl → Scan fl → Type 0
    Advances s s' = IsActive s'.cursors × (sum_of weight s'.cursors < sum_of weight s.cursors)

    visit-Advances :
        (s : Scan fl) (k : ℕ) (c : Cursor F)
        → IsActive s.cursors
        → get_elem? s.cursors k ≡ some c
        → Advances s (visit fl unicode q avg_len idx (cursor_doc c) s)
    unfolding visit
    visit-Advances s k c act at =
        let doc = cursor_doc c in
        let by_next = moved-IsActive doc next s.cursors k c (next-Passes doc) act at refl in
        elim (Bool-cases (le (block_sum fl doc (of_nat 0) s.cursors) s.threshold)) [
          | inl e ↦ rw e (
              moved-IsActive doc (advance (doc + 1)) s.cursors k c (advance-Passes doc) act at refl)
          | inr e ↦ rw e (elim (Bool-cases (matches unicode q (get doc idx.docs))) [
            | inl d ↦ rw d by_next
            | inr d ↦ rw d by_next
          ])
        ]

    pub round-Advances :
        (s : Scan fl) (k : ℕ)
        → IsActive s.cursors
        → k < length s.cursors
        → Advances s (round fl unicode q avg_len idx k s)
    unfolding round
    round-Advances s k act lt =
        let (c, at) = get_elem?-lt s.cursors k lt in
        elim (Bool-cases (all_at (cursor_doc c) (take k s.cursors))) [
          | inl e ↦ rw (at, e) (visit-Advances s k c act at)
          | inr e ↦ rw (at, e) (caught_up-IsActive s.cursors k c act at e)
        ]

    -- The loop ends if its fuel exceeds the number of the entries ahead.
    pub scan_ends :
        (fuel : ℕ) (s : Scan fl)
        → IsActive s.cursors
        → sum_of weight s.cursors < fuel
        → (s' : Scan fl) × (scan fl unicode q avg_len idx fuel s ≡ some s')
    unfolding scan
    scan_ends zero s act h = absurd (omega arith)
    scan_ends (suc fuel) s act h =
        elim (Option-cases (find_pivot fl s.threshold (of_nat 0) (reverse s.cursors))) [
          | inl e ↦ (s, rw e refl)
          | inr (k, e) ↦
              let inside = find_pivot-lt s.threshold (of_nat 0) (reverse s.cursors) k e in
              let (act', less) =
                round-Advances s k act (omega (arith, inside, length-reverse s.cursors)) in
              let (s', end) =
                scan_ends fuel (round fl unicode q avg_len idx k s) act' (omega arith) in
              (s', rw e end)
        ]
