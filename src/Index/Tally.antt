-- ===== src/Index/Tally.antt =====
-- The heap's operations neither lose nor double a document: a weight summed over it is kept.
use telemetry_search_engine.Common.{
  ℕ, zero, suc, ◌+◌, ◌-◌, ◌*◌, ◌/◌, ◌≡◌, refl, sym, ◌∙◌, List, [], ◌∷◌, ◌++◌, Option, none, some,
  not, ◌||◌, length, get_elem?, set, take, leb, eqb, All, arith, Bool-cases, inl, inr, sum_of,
  sum_of-append, sum_of-sort_by,
}
use telemetry_search_engine.Float.{Float}
use telemetry_search_engine.Index.{ScoredDoc}
use telemetry_search_engine.Index.Heap.{
  Heap, less_at, swap, swap_found, up, smaller_child, down, heap_push, heap_pop, drain,
}
use telemetry_search_engine.Index.Heaped.{swap-IsHeaped, down-IsHeaped, heap_pop-IsHeaped}
use telemetry_search_engine.Index.Wand.{Scan, higher_score, ranked_of}

module _ {A : Type 0} (w : A → ℕ) where
  sum_of-set :
      (h : List A) (i : ℕ) (old v : A)
      → get_elem? h i ≡ some old
      → sum_of w (set h i v) + w old ≡ sum_of w h + w v
  unfolding sum_of
  sum_of-set [] i old v e = absurd (cc)
  sum_of-set (x ∷ h) zero old v e = let same : x ≡ old = cc in rw same (omega arith)
  sum_of-set (x ∷ h) (suc i) old v e = omega (arith, sum_of-set h i old v e)

  -- The last entry of a list, apart from the others.
  sum_of-take :
      (n : ℕ) (h : List A)
      → length h ≡ suc n
      → (x : A) × (get_elem? h n ≡ some x) × (sum_of w h ≡ w x + sum_of w (take n h))
  unfolding sum_of
  sum_of-take n [] l = absurd (omega arith)
  sum_of-take zero (x ∷ []) l = (x, refl, refl)
  sum_of-take zero (x ∷ y ∷ h) l = absurd (omega arith)
  sum_of-take (suc n) (x ∷ h) l =
      let (y, at, same) = sum_of-take n h (omega arith) in (y, at, omega arith)

get_elem?-set_other :
    {A : Type 0} (h : List A) (i j : ℕ) (b : A)
    → get_elem? h j ≡ some b
    → get_elem? (set h i b) j ≡ some b
get_elem?-set_other [] i j b e = e
get_elem?-set_other (x ∷ h) zero zero b e = refl
get_elem?-set_other (x ∷ h) zero (suc j) b e = e
get_elem?-set_other (x ∷ h) (suc i) zero b e = e
get_elem?-set_other (x ∷ h) (suc i) (suc j) b e = get_elem?-set_other h i j b e

pub All-Unit : {A : Type 0} (xs : List A) → All (λ _. Unit {0}) xs
All-Unit [] = tt
All-Unit (x ∷ xs) = (tt, All-Unit xs)

module _ (fl : Float) (w : ScoredDoc (fl.F) → ℕ) where
  sum_of-swap_found :
      (h : Heap fl) (i j : ℕ) (a b : Option (ScoredDoc (fl.F)))
      → get_elem? h i ≡ a
      → get_elem? h j ≡ b
      → sum_of w (swap_found fl h i j a b) ≡ sum_of w h
  sum_of-swap_found h i j (some a) (some b) p q = omega (
    arith,
    sum_of-set w h i a b p,
    sum_of-set w (set h i b) j b a (get_elem?-set_other h i j b q),
  )
  sum_of-swap_found h i j none b p q = refl
  sum_of-swap_found h i j (some a) none p q = refl

  sum_of-swap : (h : Heap fl) (i j : ℕ) → sum_of w (swap fl h i j) ≡ sum_of w h
  unfolding swap
  sum_of-swap h i j = sum_of-swap_found h i j (get_elem? h i) (get_elem? h j) refl refl

  sum_of-up : (fuel : ℕ) (h : Heap fl) (j : ℕ) → sum_of w (up fl fuel h j) ≡ sum_of w h
  unfolding up
  sum_of-up zero h j = refl
  sum_of-up (suc fuel) h j =
      let i = (j - 1) / 2 in
      elim (Bool-cases (eqb i j || not (less_at fl h j i))) [
        | inl e ↦ rw e refl
        | inr e ↦ rw e (sum_of-up fuel (swap fl h i j) i ∙ sum_of-swap h i j)
      ]

  sum_of-down : (fuel : ℕ) (h : Heap fl) (i m : ℕ) → sum_of w (down fl fuel h i m) ≡ sum_of w h
  unfolding down
  sum_of-down zero h i m = refl
  sum_of-down (suc fuel) h i m =
      let j = smaller_child fl h m (2 * i + 1) in
      elim (Bool-cases (leb m (2 * i + 1))) [
        | inl e ↦ rw e refl
        | inr e ↦ rw e (elim (Bool-cases (not (less_at fl h j i))) [
          | inl d ↦ rw d refl
          | inr d ↦ rw d (sum_of-down fuel (swap fl h i j) j m ∙ sum_of-swap h i j)
        ])
      ]

  pub sum_of-heap_push :
      (x : ScoredDoc (fl.F)) (h : Heap fl) → sum_of w (heap_push fl x h) ≡ w x + sum_of w h
  unfolding heap_push sum_of
  sum_of-heap_push x h =
      omega (arith, sum_of-up (length h + 1) (h ++ x ∷ []) (length h), sum_of-append w h (x ∷ []))

  pub sum_of-heap_pop :
      (n : ℕ) (h : Heap fl)
      → length h ≡ suc n
      → w (heap_pop fl h).0 + sum_of w (heap_pop fl h).1 ≡ sum_of w h
  unfolding heap_pop
  sum_of-heap_pop n h l =
      let e : length h - 1 ≡ n = omega arith in
      let sunk = down fl (length h) (swap fl h 0 n) 0 n in
      let (size, _) =
        down-IsHeaped fl (λ _. Unit {0}) (suc n) (length h) (swap fl h 0 n) 0 n
          (swap-IsHeaped fl (λ _. Unit {0}) (suc n) h 0 n (l, All-Unit h)) in
      let (x, at, same) = sum_of-take w n sunk size in
      rw (e, at)
        (omega (arith, same, sum_of-down (length h) (swap fl h 0 n) 0 n, sum_of-swap h 0 n))

  length-heap_pop : (n : ℕ) (h : Heap fl) → length h ≡ suc n → length (heap_pop fl h).1 ≡ n
  length-heap_pop n h l = (heap_pop-IsHeaped fl (λ _. Unit {0}) n h (omega arith, All-Unit h)).1.0

  sum_of-drain :
      (n : ℕ) (h : Heap fl) (results : List (ScoredDoc (fl.F)))
      → length h ≡ n
      → sum_of w (drain fl n h results) ≡ sum_of w h + sum_of w results
  unfolding drain sum_of
  sum_of-drain zero [] results l = omega arith
  sum_of-drain zero (x ∷ h) results l = absurd (omega arith)
  sum_of-drain (suc n) h results l =
      let (x, rest) = heap_pop fl h in
      omega
        (arith, sum_of-drain n rest (x ∷ results) (length-heap_pop n h l), sum_of-heap_pop n h l)

  -- The ranking holds what the heap holds.
  pub sum_of-ranked_of : (s : Scan fl) → sum_of w (ranked_of fl s) ≡ sum_of w s.heap
  unfolding ranked_of sum_of
  sum_of-ranked_of s = omega (
    arith,
    sum_of-sort_by (higher_score fl) w (drain fl (length s.heap) s.heap []),
    sum_of-drain (length s.heap) s.heap [] refl,
  )

length-sum_of : {A : Type 0} (xs : List A) → sum_of (λ _. 1) xs ≡ length xs
unfolding sum_of
length-sum_of [] = refl
length-sum_of (x ∷ xs) = omega (arith, length-sum_of xs)

module _ (fl : Float) where
  pub length-ranked_of : (s : Scan fl) → length (ranked_of fl s) ≡ length s.heap
  length-ranked_of s =
      sym (length-sum_of (ranked_of fl s)) ∙ sum_of-ranked_of fl (λ _. 1) s ∙ length-sum_of s.heap
