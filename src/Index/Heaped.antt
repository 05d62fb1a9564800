-- ===== src/Index/Heaped.antt =====
-- The heap's operations move the documents that are in it, and neither lose nor make any.
use telemetry_search_engine.Common.{
  ℕ, zero, suc, ◌+◌, ◌-◌, ◌*◌, ◌/◌, ◌<◌, ◌≡◌, refl, ◌∙◌, List, [], ◌∷◌, ◌++◌, Option, none, some,
  not, ◌||◌, length, length-append, length-take, get_elem?, get_elem?-All, length-set, set, leb,
  eqb, All, All-append, All-take, arith, Bool-cases, inl, inr,
}
use telemetry_search_engine.Float.{Float}
use telemetry_search_engine.Index.{ScoredDoc}
use telemetry_search_engine.Index.Heap.{
  Heap, less_at, swap, swap_found, up, smaller_child, down, heap_push, scored_or_zero, heap_pop,
  drain,
}

module _ {A : Type 0} where
  module _ (P : A → Type 0) where
    set-All : (h : List A) (i : ℕ) (v : A) → All P h → P v → All P (set h i v)
    set-All [] i v a p = tt
    set-All (x ∷ h) zero v (_, a) p = (p, a)
    set-All (x ∷ h) (suc i) v (q, a) p = (q, set-All h i v a p)

module _ (fl : Float) (P : ScoredDoc (fl.F) → Type 0) where
  -- A heap of `n` documents that all satisfy `P`.
  abbrev pub IsHeaped : ℕ → Heap fl → Type 0
  IsHeaped n h = (length h ≡ n) × All P h

  swap_found-IsHeaped :
      (n : ℕ) (h : Heap fl) (i j : ℕ) (a b : Option (ScoredDoc (fl.F)))
      → get_elem? h i ≡ a
      → get_elem? h j ≡ b
      → IsHeaped n h
      → IsHeaped n (swap_found fl h i j a b)
  swap_found-IsHeaped n h i j (some a) (some b) p q (l, all) = (
    length-set (set h i b) j a ∙ length-set h i b ∙ l,
    set-All P (set h i b) j a (set-All P h i b all (get_elem?-All P h j b all q))
        (get_elem?-All P h i a all p),
  )
  swap_found-IsHeaped n h i j none b p q k = k
  swap_found-IsHeaped n h i j (some a) none p q k = k

  pub swap-IsHeaped : (n : ℕ) (h : Heap fl) (i j : ℕ) → IsHeaped n h → IsHeaped n (swap fl h i j)
  unfolding swap
  swap-IsHeaped n h i j = swap_found-IsHeaped n h i j (get_elem? h i) (get_elem? h j) refl refl

  up-IsHeaped : (n fuel : ℕ) (h : Heap fl) (j : ℕ) → IsHeaped n h → IsHeaped n (up fl fuel h j)
  unfolding up
  up-IsHeaped n zero h j k = k
  up-IsHeaped n (suc fuel) h j k =
      let i = (j - 1) / 2 in
      elim (Bool-cases (eqb i j || not (less_at fl h j i))) [
        | inl e ↦ rw e k
        | inr e ↦ rw e (up-IsHeaped n fuel (swap fl h i j) i (swap-IsHeaped n h i j k))
      ]

  pub down-IsHeaped :
      (n fuel : ℕ) (h : Heap fl) (i m : ℕ) → IsHeaped n h → IsHeaped n (down fl fuel h i m)
  unfolding down
  down-IsHeaped n zero h i m k = k
  down-IsHeaped n (suc fuel) h i m k =
      let j = smaller_child fl h m (2 * i + 1) in
      elim (Bool-cases (leb m (2 * i + 1))) [
        | inl e ↦ rw e k
        | inr e ↦ rw e (elim (Bool-cases (not (less_at fl h j i))) [
          | inl d ↦ rw d k
          | inr d ↦ rw d (down-IsHeaped n fuel (swap fl h i j) j m (swap-IsHeaped n h i j k))
        ])
      ]

  pub heap_push-IsHeaped :
      (n : ℕ) (x : ScoredDoc (fl.F)) (h : Heap fl)
      → P x
      → IsHeaped n h
      → IsHeaped (n + 1) (heap_push fl x h)
  unfolding heap_push
  heap_push-IsHeaped n x h p (l, a) =
      up-IsHeaped (n + 1) (length h + 1) (h ++ x ∷ []) (length h)
        (omega (arith, length-append h (x ∷ [])), All-append P h (x ∷ []) a (p, tt))

  found_at : (h : Heap fl) (i : ℕ) → i < length h → All P h → P (scored_or_zero fl (get_elem? h i))
  found_at [] i l a = absurd (omega arith)
  found_at (x ∷ h) zero l (p, a) = p
  found_at (x ∷ h) (suc i) l (p, a) = found_at h i (omega arith) a

  pub heap_pop-IsHeaped :
      (n : ℕ) (h : Heap fl)
      → IsHeaped (n + 1) h
      → P (heap_pop fl h).0 × IsHeaped n (heap_pop fl h).1
  unfolding heap_pop
  heap_pop-IsHeaped n h (l, a) =
      let last = length h - 1 in
      let (size, all) =
        down-IsHeaped (n + 1) (length h) (swap fl h 0 last) 0 last
          (swap-IsHeaped (n + 1) h 0 last (l, a)) in
      let sunk = down fl (length h) (swap fl h 0 last) 0 last in
      (
        found_at sunk last (omega arith) all,
        (omega (arith, length-take last sunk), All-take P last sunk all),
      )

  -- Draining a heap gives its documents, as many as there are.
  pub drain-IsHeaped :
      (n m : ℕ) (h : Heap fl) (results : List (ScoredDoc (fl.F)))
      → IsHeaped n h
      → IsHeaped m results
      → IsHeaped (n + m) (drain fl n h results)
  unfolding drain
  drain-IsHeaped zero m h results k (l, a) = (omega arith, a)
  drain-IsHeaped (suc n) m h results k (l, a) =
      let (p, rest) = heap_pop-IsHeaped n h (omega (arith, k.0), k.1) in
      let (size, all) =
        drain-IsHeaped n (m + 1) (heap_pop fl h).1 ((heap_pop fl h).0 ∷ results) rest
          (omega arith, (p, a)) in
      (omega arith, all)
