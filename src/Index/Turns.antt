-- ===== src/Index/Turns.antt =====
-- What a turn of wandBM25's loop does to a document that all cursors have ahead.
use telemetry_search_engine.Common.{
  length-reverse, ℕ, zero, suc, ◌+◌, ◌≤◌, ◌<◌, ◌≡◌, refl, ap, List, [], ◌∷◌, ◌++◌, map, nat_eq,
  text_eq, some, true, false, length, get_elem?, get_elem?-lt, get_elem?-All, take, drop, All,
  All-append, All-take, All-drop, All-map, arith, Bool-cases, inl, inr, sort_by-All,
  take-IsSortedBy, length-sort_by, length-append, length-map, take-append-drop,
}
use mathlib.Core.List.{reverse, reverse-append}
use telemetry_search_engine.Float.{Float, FloatSum}
use telemetry_search_engine.Index.{Block}
use telemetry_search_engine.Index.Cursor.{Cursor, valid, cursor_doc, advance, next, block_max_score}
use telemetry_search_engine.Index.Remaining.{pl-next}
use telemetry_search_engine.Index.Active.{IsActive}
use telemetry_search_engine.Index.Conjunctive.{Awaits, Awaits-valid, advance-Awaits, next-Awaits}
use telemetry_search_engine.Index.Wand.{
  keep_valid, cursor_less, sort_active, is_at, move_at, block_sum, find_pivot,
}

keep_valid-eq :
    {F : Type 0} (cs : List (Cursor F)) → All (λ c. valid c ≡ true) cs → keep_valid cs ≡ cs
unfolding keep_valid
keep_valid-eq [] h = refl
keep_valid-eq (c ∷ cs) (v, h) = rw (v, keep_valid-eq cs h) refl

All-reverse : {A : Type 0} (P : A → Type 0) (xs : List A) → All P xs → All P (reverse xs)
All-reverse P [] h = tt
All-reverse P (x ∷ xs) (p, h) =
    rw (reverse-append (x ∷ []) xs)
      (All-append P (reverse xs) (x ∷ []) (All-reverse P xs h) (p, tt))

module _ (fl : Float) where
  open fl use {F, of_nat, add, mul, lt, le}

  abbrev pub IsPos : F → Type 0
  IsPos x = lt (of_nat 0) x ≡ true

  -- Scores above zero for the posting list as a whole and in each block.
  abbrev pub Scores : Cursor F → Type 0
  Scores c =
      IsPos c.pl.max_score × All (λ (blk : Block F). IsPos (mul c.idf blk.max_norm)) c.pl.blocks

  -- The cursor has the document ahead, on a posting list with scores above zero.
  abbrev pub Waits : ℕ → Cursor F → Type 0
  Waits d c = Awaits d c × Scores c

  idf-next : (c : Cursor F) → (next c).idf ≡ c.idf
  unfolding next
  idf-next c = ground arith

  next-Waits : (d : ℕ) (c : Cursor F) → cursor_doc c < d → Waits d c → Waits d (next c)
  next-Waits d c lt (a, s) = (next-Awaits d c lt a, rw (pl-next c, idf-next c) s)

  advance-Waits :
      (d target : ℕ) (c : Cursor F)
      → target ≤ d
      → cursor_doc c ≤ target
      → Waits d c
      → Waits d (advance target c)
  advance-Waits d target c le at (a, s) = (advance-Awaits d target c le at a, (unfold advance in s))

  -- Cursors that all wait for the document, and at least one of them.
  abbrev pub AllWait : ℕ → List (Cursor F) → Type 0
  AllWait d cs = (0 < length cs) × All (Waits d) cs

  pub sort_active-AllWait :
      (d : ℕ) (cs : List (Cursor F)) → AllWait d cs → AllWait d (sort_active cs)
  unfolding sort_active
  sort_active-AllWait d cs (l, h) =
      let same =
        keep_valid-eq cs
          (All-map (λ (c : Cursor F) (w : Waits d c). (Awaits-valid d c w.0).0) cs h) in
      rw same (omega (arith, length-sort_by cursor_less cs), sort_by-All cursor_less (Waits d) cs h)

  move_at-AllWait :
      (d doc : ℕ) (move : Cursor F → Cursor F) (cs : List (Cursor F))
      → ((c : Cursor F) → cursor_doc c ≡ doc → Waits d c → Waits d (move c))
      → All (Waits d) cs
      → All (Waits d) (move_at doc move cs) × (length (move_at doc move cs) ≡ length cs)
  unfolding move_at
  move_at-AllWait d doc move [] k h = (tt, refl)
  move_at-AllWait d doc move (c ∷ cs) k (w, h) =
      let (rest, size) = move_at-AllWait d doc move cs k h in
      elim (Bool-cases (is_at doc c)) [
        | inl e ↦ rw e ((k c (ground arith) w, rest), ap suc size)
        | inr e ↦ rw e ((w, rest), ap suc size)
      ]

  -- A turn at a document before `d`.
  pub moved-AllWait :
      (d doc : ℕ) (cs : List (Cursor F))
      → doc < d
      → AllWait d cs
      → AllWait d (sort_active (move_at doc (advance (doc + 1)) cs))
        × AllWait d (sort_active (move_at doc next cs))
  moved-AllWait d doc cs before (l, h) =
      let (ahead, size) =
        move_at-AllWait d doc (advance (doc + 1)) cs
          (λ c at w. advance-Waits d (doc + 1) c (omega arith) (omega arith) w) h in
      let (after, size') =
        move_at-AllWait d doc next cs (λ c at w. next-Waits d c (omega arith) w) h in
      (
        sort_active-AllWait d (move_at doc (advance (doc + 1)) cs) (omega arith, ahead),
        sort_active-AllWait d (move_at doc next cs) (omega arith, after),
      )

  -- A turn that moves the cursors before the pivot up to its document.
  pub caught_up-AllWait :
      (d : ℕ) (cs : List (Cursor F)) (k : ℕ) (c : Cursor F)
      → IsActive cs
      → get_elem? cs k ≡ some c
      → AllWait d cs
      → AllWait d (sort_active (map (advance (cursor_doc c)) (take k cs) ++ drop k cs))
  caught_up-AllWait d cs k c act at (l, h) =
      let doc = cursor_doc c in
      let not_past = (Awaits-valid d c (get_elem?-All (Waits d) cs k c h at).0).1 in
      let front = map (advance doc) (take k cs) in
      let waiting =
        up_to (take k cs) doc refl not_past (take-IsSortedBy cursor_less cs k c act.sorted at)
          (All-take (Waits d) k cs h) in
      sort_active-AllWait d (front ++ drop k cs) (
        omega (
          arith,
          length-append front (drop k cs),
          length-map (advance doc) (take k cs),
          length-append (take k cs) (drop k cs),
          ap length (take-append-drop k cs),
        ),
        All-append (Waits d) front (drop k cs) waiting (All-drop (Waits d) k cs h),
      )
    where
      not_less :
          (doc : ℕ) (x : Cursor F)
          → cursor_doc c ≡ doc
          → cursor_less c x ≡ false
          → cursor_doc x ≤ doc
      not_less doc x at p = ground arith

      up_to :
          (cs : List (Cursor F)) (doc : ℕ)
          → cursor_doc c ≡ doc
          → doc ≤ d
          → All (λ x. cursor_less c x ≡ false) cs
          → All (Waits d) cs
          → All (Waits d) (map (advance doc) cs)
      up_to [] doc at below s h = tt
      up_to (x ∷ xs) doc at below (p, s) (w, h) =
          (advance-Waits d doc x below (not_less doc x at p) w, up_to xs doc at below s h)

  module _ (laws : FloatSum fl) where
    open laws use {first_pos, add_pos, lt_not_le}

    below_blocks : (c : Cursor F) → valid c ≡ true → c.block_idx < length c.pl.blocks
    unfolding valid
    below_blocks c v = ground arith

    block_max_score-IsPos : (d : ℕ) (c : Cursor F) → Waits d c → IsPos (block_max_score fl c)
    unfolding block_max_score
    block_max_score-IsPos d c (a, s) =
        let (v, _) = Awaits-valid d c a in
        let (blk, at) = get_elem?-lt c.pl.blocks c.block_idx (below_blocks c v) in
        rw (v, at)
          (get_elem?-All (λ (b : Block F). IsPos (mul c.idf b.max_norm)) c.pl.blocks c.block_idx blk
            s.1 at)

    block_sum-IsPos :
        (d : ℕ) (sum : F) (cs : List (Cursor F))
        → All (Waits d) cs
        → IsPos sum
        → IsPos (block_sum fl d sum cs)
    unfolding block_sum
    block_sum-IsPos d sum [] h p = p
    block_sum-IsPos d sum (c ∷ cs) (w, h) p = elim (Bool-cases (is_at d c)) [
      | inl e ↦ rw e (
          block_sum-IsPos d (add sum (block_max_score fl c)) cs h
            (add_pos sum (block_max_score fl c) p (block_max_score-IsPos d c w)))
      | inr e ↦ rw e (block_sum-IsPos d sum cs h p)
    ]

    -- The bound of the document is above zero if a cursor stands at it.
    pub block_sum_at :
        (d : ℕ) (cs : List (Cursor F)) (k : ℕ) (c : Cursor F)
        → All (Waits d) cs
        → get_elem? cs k ≡ some c
        → is_at d c ≡ true
        → IsPos (block_sum fl d (of_nat 0) cs)
    unfolding block_sum
    block_sum_at d [] k c h at here = absurd (cc)
    block_sum_at d (x ∷ cs) zero c (w, h) at here =
        let same : x ≡ c = cc in
        let e : is_at d x ≡ true = rw same here in
        rw e (
          block_sum-IsPos d (add (of_nat 0) (block_max_score fl x)) cs h
            (first_pos (block_max_score fl x) (block_max_score-IsPos d x w)))
    block_sum_at d (x ∷ cs) (suc k) c (w, h) at here = elim (Bool-cases (is_at d x)) [
      | inl e ↦ rw e (
          block_sum-IsPos d (add (of_nat 0) (block_max_score fl x)) cs h
            (first_pos (block_max_score fl x) (block_max_score-IsPos d x w)))
      | inr e ↦ rw e (block_sum_at d cs k c h at here)
    ]

    -- While cursors wait there is a pivot at the threshold zero.
    pub pivot_exists :
        (d : ℕ) (cs : List (Cursor F))
        → AllWait d cs
        → (k : ℕ) × (find_pivot fl (of_nat 0) (of_nat 0) (reverse cs) ≡ some k)
    pivot_exists d cs (l, h) =
        first (reverse cs) (omega (arith, length-reverse cs)) (All-reverse (Waits d) cs h)
      where
        first :
            (cs : List (Cursor F))
            → 0 < length cs
            → All (Waits d) cs
            → (k : ℕ) × (find_pivot fl (of_nat 0) (of_nat 0) cs ≡ some k)
        first [] l h = absurd (omega arith)
        first (c ∷ cs) l ((_, (p, _)), h) =
            (length cs, unfold find_pivot in rw (first_pos c.pl.max_score p) refl)
