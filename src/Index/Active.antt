-- ===== src/Index/Active.antt =====
-- The cursors of wandBM25's loop, and the moves that pass an entry of their lists.
use telemetry_search_engine.Common.{
  ℕ, zero, suc, ◌+◌, ◌≤◌, ◌<◌, ◌≡◌, List, [], ◌∷◌, nat_eq, text_eq, some, true, false, length,
  get_elem?, All, arith, Bool-cases, inl, inr, sort_by-All, sort_by-IsSortedBy, IsSortedBy,
  IsWeakOrder, sum_of, sum_of-sort_by,
}
use telemetry_search_engine.Index.Cursor.{Cursor, valid, cursor_doc, advance, next}
use telemetry_search_engine.Index.Remaining.{
  ahead, IsGood, at_entry, at_end, stands, ahead-advance, ahead-next,
}
use telemetry_search_engine.Index.Below.{drop_below, length-drop_below}
use telemetry_search_engine.Index.Wand.{keep_valid, cursor_less, sort_active, is_at, move_at}

module _ {F : Type 0} where
  -- The number of entries that a cursor has not passed.
  abbrev pub weight : Cursor F → ℕ
  weight c = length (ahead c)

  -- The cursors of the loop: good, valid, and in the order of their documents.
  pub record IsActive (cs : List (Cursor F)) : Type 0 where
    pub good : All IsGood cs
    pub valids : All (λ c. valid c ≡ true) cs
    pub sorted : IsSortedBy cursor_less cs

  pub keep_valid-All :
      (P : Cursor F → Type 0) (cs : List (Cursor F)) → All P cs → All P (keep_valid cs)
  unfolding keep_valid
  keep_valid-All P [] h = tt
  keep_valid-All P (c ∷ cs) (p, h) = elim (Bool-cases (valid c)) [
    | inl e ↦ rw e (p, keep_valid-All P cs h)
    | inr e ↦ rw e (keep_valid-All P cs h)
  ]

  keep_valid-AllValid : (cs : List (Cursor F)) → All (λ c. valid c ≡ true) (keep_valid cs)
  unfolding keep_valid
  keep_valid-AllValid [] = tt
  keep_valid-AllValid (c ∷ cs) = elim (Bool-cases (valid c)) [
    | inl e ↦ rw e (e, keep_valid-AllValid cs)
    | inr e ↦ rw e (keep_valid-AllValid cs)
  ]

  sum_of-keep_valid :
      (w : Cursor F → ℕ) (cs : List (Cursor F)) → sum_of w (keep_valid cs) ≤ sum_of w cs
  unfolding keep_valid sum_of
  sum_of-keep_valid w [] = omega arith
  sum_of-keep_valid w (c ∷ cs) = elim (Bool-cases (valid c)) [
    | inl e ↦ rw e (omega (arith, sum_of-keep_valid w cs))
    | inr e ↦ rw e (omega (arith, sum_of-keep_valid w cs))
  ]

  cursor_less-IsWeakOrder : IsWeakOrder (cursor_less {F = F})
  cursor_less-IsWeakOrder = record {
    asym = λ x y h. ground arith;
    negative_trans = λ x y z p q. ground arith;
  }

  pub sort_active-IsActive :
      (cs : List (Cursor F))
      → All IsGood cs
      → IsActive (sort_active cs) × (sum_of weight (sort_active cs) ≤ sum_of weight cs)
  unfolding sort_active
  sort_active-IsActive cs h = (
    record {
      good = sort_by-All cursor_less IsGood (keep_valid cs) (keep_valid-All IsGood cs h);
      valids =
          sort_by-All cursor_less (λ c. valid c ≡ true) (keep_valid cs) (keep_valid-AllValid cs);
      sorted = sort_by-IsSortedBy cursor_less cursor_less-IsWeakOrder (keep_valid cs);
    },
    omega (arith, sum_of-sort_by cursor_less weight (keep_valid cs), sum_of-keep_valid weight cs),
  )

  -- A move of the cursors at `doc` that passes an entry.
  abbrev pub Passes : ℕ → (Cursor F → Cursor F) → Type 0
  Passes doc move =
      (c : Cursor F)
      → IsGood c
      → is_at doc c ≡ true
      → IsGood (move c) × (suc (weight (move c)) ≤ weight c)

  pub advance-Passes : (doc : ℕ) → Passes doc (advance (doc + 1))
  advance-Passes doc c g h = elim (stands c g) [
    | at_entry e es a d v ↦
        let here : cursor_doc c ≡ doc = ground arith in
        let (good, same) = ahead-advance (doc + 1) c g (omega arith) in
        let skips : drop_below (doc + 1) (e ∷ es) ≡ drop_below (doc + 1) es =
          unfold drop_below in ground arith in
        (good, rw (same, a, skips) (omega (arith, length-drop_below (doc + 1) es)))
    | at_end a v ↦ absurd (let f : false ≡ true = rw v at h in cc)
  ]

  pub next-Passes : (doc : ℕ) → Passes doc next
  next-Passes doc c g h = elim (stands c g) [
    | at_entry e es a d v ↦
        let (good, same) = ahead-next c e es g a in (good, rw (same, a) (omega arith))
    | at_end a v ↦ absurd (let f : false ≡ true = rw v at h in cc)
  ]

  pub move_at-All :
      (doc : ℕ) (move : Cursor F → Cursor F) (cs : List (Cursor F))
      → Passes doc move
      → All IsGood cs
      → All IsGood (move_at doc move cs)
  unfolding move_at
  move_at-All doc move [] p h = tt
  move_at-All doc move (c ∷ cs) p (g, h) = elim (Bool-cases (is_at doc c)) [
    | inl e ↦ rw e ((p c g e).0, move_at-All doc move cs p h)
    | inr e ↦ rw e (g, move_at-All doc move cs p h)
  ]

  sum_of-move_at-le :
      (doc : ℕ) (move : Cursor F → Cursor F) (cs : List (Cursor F))
      → Passes doc move
      → All IsGood cs
      → sum_of weight (move_at doc move cs) ≤ sum_of weight cs
  unfolding move_at sum_of
  sum_of-move_at-le doc move [] p h = omega arith
  sum_of-move_at-le doc move (c ∷ cs) p (g, h) = elim (Bool-cases (is_at doc c)) [
    | inl e ↦ rw e (omega (arith, (p c g e).1, sum_of-move_at-le doc move cs p h))
    | inr e ↦ rw e (omega (arith, sum_of-move_at-le doc move cs p h))
  ]

  pub sum_of-move_at-lt :
      (doc : ℕ) (move : Cursor F → Cursor F) (cs : List (Cursor F)) (k : ℕ) (c : Cursor F)
      → Passes doc move
      → All IsGood cs
      → get_elem? cs k ≡ some c
      → is_at doc c ≡ true
      → sum_of weight (move_at doc move cs) < sum_of weight cs
  unfolding move_at sum_of
  sum_of-move_at-lt doc move [] k c p h at here = absurd (cc)
  sum_of-move_at-lt doc move (d ∷ cs) zero c p (g, h) at here =
      let same : d ≡ c = cc in
      let e : is_at doc d ≡ true = rw same here in
      rw e (omega (arith, (p d g e).1, sum_of-move_at-le doc move cs p h))
  sum_of-move_at-lt doc move (d ∷ cs) (suc k) c p (g, h) at here =
      let rest = sum_of-move_at-lt doc move cs k c p h at here in
      elim (Bool-cases (is_at doc d)) [
        | inl e ↦ rw e (omega (arith, (p d g e).1, rest))
        | inr e ↦ rw e (omega (arith, rest))
      ]
