-- ===== src/Common/Lists.antt =====
-- Lists measured and indexed by native numbers, under the library's names, and predicates on them.
use Prim.Native.Nat.{ℕ, zero, suc, ◌+◌, ◌-◌, ◌≤◌, ◌<◌, min}
use mathlib.Core.Path.{◌≡◌, refl, ap, ◌∙◌}
use mathlib.Core.List.{List, [], ◌∷◌, ◌++◌, map, reverse, reverse-append}
use mathlib.Core.Option.{Option, none, some}
use native.Mathlib.Omega.{arith}
use telemetry_search_engine.Common.Tests.{eqb, if◌then◌else◌}

module _ {ℓ} {A : Type ℓ} where
  abbrev pub length : List A → ℕ
  length [] = 0
  length (x ∷ xs) = suc (length xs)

  abbrev pub get_elem? : List A → ℕ → Option A
  get_elem? [] i = none
  get_elem? (x ∷ xs) zero = some x
  get_elem? (x ∷ xs) (suc i) = get_elem? xs i

  abbrev pub take : ℕ → List A → List A
  take zero xs = []
  take (suc n) [] = []
  take (suc n) (x ∷ xs) = x ∷ take n xs

  abbrev pub drop : ℕ → List A → List A
  drop zero xs = xs
  drop (suc n) [] = []
  drop (suc n) (x ∷ xs) = drop n xs

  -- A write out of bounds changes nothing.
  abbrev pub set : List A → ℕ → A → List A
  set [] i v = []
  set (x ∷ xs) zero v = v ∷ xs
  set (x ∷ xs) (suc i) v = x ∷ set xs i v

  pub length-append : (xs ys : List A) → length (xs ++ ys) ≡ length xs + length ys
  length-append [] ys = omega arith
  length-append (x ∷ xs) ys = omega (arith, length-append xs ys)

  pub take-append-drop : (n : ℕ) (xs : List A) → take n xs ++ drop n xs ≡ xs
  take-append-drop zero xs = refl
  take-append-drop (suc n) [] = refl
  take-append-drop (suc n) (x ∷ xs) = ap (◌∷◌ x) (take-append-drop n xs)

  pub length-take : (n : ℕ) (xs : List A) → length (take n xs) ≡ min n (length xs)
  length-take zero xs = omega arith
  length-take (suc n) [] = omega arith
  length-take (suc n) (x ∷ xs) = omega (arith, length-take n xs)

  pub length-drop : (n : ℕ) (xs : List A) → length (drop n xs) ≡ length xs - n
  length-drop zero xs = omega arith
  length-drop (suc n) [] = omega arith
  length-drop (suc n) (x ∷ xs) = omega (arith, length-drop n xs)

module _ {ℓ κ} {A : Type ℓ} (P : A → Type κ) where
  abbrev pub All : List A → Type κ
  All [] = Unit
  All (x ∷ xs) = P x × All xs

  pub All-append : (xs ys : List A) → All xs → All ys → All (xs ++ ys)
  All-append [] ys h k = k
  All-append (x ∷ xs) ys (p, h) k = (p, All-append xs ys h k)

  pub All-take : (n : ℕ) (xs : List A) → All xs → All (take n xs)
  All-take zero xs h = tt
  All-take (suc n) [] h = tt
  All-take (suc n) (x ∷ xs) (p, h) = (p, All-take n xs h)

  pub All-middle : (xs : List A) (y : A) (zs : List A) → All (xs ++ y ∷ zs) → P y × All (xs ++ zs)
  All-middle [] y zs h = h
  All-middle (x ∷ xs) y zs (p, h) = let (q, rest) = All-middle xs y zs h in (q, (p, rest))

  pub All-drop : (n : ℕ) (xs : List A) → All xs → All (drop n xs)
  All-drop zero xs h = h
  All-drop (suc n) [] h = tt
  All-drop (suc n) (x ∷ xs) (p, h) = All-drop n xs h

module _ {ℓ κ κ'} {A : Type ℓ} {P : A → Type κ} {Q : A → Type κ'} where
  pub All-map : ((a : A) → P a → Q a) → (xs : List A) → All P xs → All Q xs
  All-map f [] h = tt
  All-map f (x ∷ xs) (p, h) = (f x p, All-map f xs h)

module _ {ℓ} {A : Type ℓ} where
  pub length-reverse : (xs : List A) → length (reverse xs) ≡ length xs
  length-reverse [] = refl
  length-reverse (x ∷ xs) =
      ap length (reverse-append (x ∷ []) xs)
      ∙ omega (arith, length-append (reverse xs) (x ∷ []), length-reverse xs)

  pub take-length : (xs : List A) → take (length xs) xs ≡ xs
  take-length [] = refl
  take-length (x ∷ xs) = ap (◌∷◌ x) (take-length xs)

  pub drop-length : (xs : List A) → drop (length xs) xs ≡ []
  drop-length [] = refl
  drop-length (x ∷ xs) = drop-length xs

  pub get_elem?-concat :
      (xs : List A) (x : A) (k : ℕ)
      → get_elem? (xs ++ x ∷ []) k ≡ (if eqb (length xs) k then some x else get_elem? xs k)
  get_elem?-concat [] x zero = refl
  get_elem?-concat [] x (suc k) = ground arith
  get_elem?-concat (y ∷ xs) x zero = ground arith
  get_elem?-concat (y ∷ xs) x (suc k) = ground (arith, get_elem?-concat xs x k)

  pub get_elem?-end : (xs : List A) (k : ℕ) → length xs ≤ k → get_elem? xs k ≡ none
  get_elem?-end [] k h = refl
  get_elem?-end (x ∷ xs) zero h = absurd (omega arith)
  get_elem?-end (x ∷ xs) (suc k) h = get_elem?-end xs k (omega arith)

  pub get_elem?-lt : (xs : List A) (k : ℕ) → k < length xs → (x : A) × (get_elem? xs k ≡ some x)
  get_elem?-lt [] k h = absurd (omega arith)
  get_elem?-lt (x ∷ xs) zero h = (x, refl)
  get_elem?-lt (x ∷ xs) (suc k) h = get_elem?-lt xs k (omega arith)

  unfoldable pub sum_of : (A → ℕ) → List A → ℕ
  sum_of w [] = 0
  sum_of w (x ∷ xs) = w x + sum_of w xs

  pub sum_of-append : (w : A → ℕ) (xs ys : List A) → sum_of w (xs ++ ys) ≡ sum_of w xs + sum_of w ys
  unfolding sum_of
  sum_of-append w [] ys = omega arith
  sum_of-append w (x ∷ xs) ys = omega (arith, sum_of-append w xs ys)

module _ {ℓ κ} {A : Type ℓ} (P : A → Type κ) where
  pub get_elem?-All : (xs : List A) (k : ℕ) (x : A) → All P xs → get_elem? xs k ≡ some x → P x
  get_elem?-All [] k x h e = cc
  get_elem?-All (y ∷ xs) zero x (p, h) e = let same : y ≡ x = cc in rw same at p
  get_elem?-All (y ∷ xs) (suc k) x (p, h) e = get_elem?-All xs k x h e

module _ {ℓ} {A : Type ℓ} where
  pub length-set : (xs : List A) (i : ℕ) (v : A) → length (set xs i v) ≡ length xs
  length-set [] i v = refl
  length-set (x ∷ xs) zero v = refl
  length-set (x ∷ xs) (suc i) v = ap suc (length-set xs i v)

  pub get_elem?-set :
      (xs : List A) (i k : ℕ) (v : A)
      → i < length xs
      → get_elem? (set xs i v) k ≡ (if eqb i k then some v else get_elem? xs k)
  get_elem?-set [] i k v h = absurd (omega arith)
  get_elem?-set (x ∷ xs) zero zero v h = refl
  get_elem?-set (x ∷ xs) zero (suc k) v h = ground arith
  get_elem?-set (x ∷ xs) (suc i) zero v h = ground arith
  get_elem?-set (x ∷ xs) (suc i) (suc k) v h = ground (arith, get_elem?-set xs i k v (omega arith))

module _ {ℓ κ} {A : Type ℓ} {B : Type κ} where
  pub length-map : (f : A → B) (xs : List A) → length (map f xs) ≡ length xs
  length-map f [] = refl
  length-map f (x ∷ xs) = ap suc (length-map f xs)
