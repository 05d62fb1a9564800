-- ===== src/Common/Sorting.antt =====
-- slices.SortFunc as a stable insertion sort, which is what the library runs on up to twelve
-- elements; on longer slices it may order equal elements otherwise.
use mathlib.Core.Path.{◌≡◌, refl, ap, ◌∙◌}
use mathlib.Core.Bool.{Bool, true, false}
use mathlib.Core.List.{List, [], ◌∷◌, Perm}
use mathlib.Core.List.Perm
use telemetry_search_engine.Common.Tests.{if◌then◌else◌, Bool-cases}
use telemetry_search_engine.Common.Lists.{
  All, All-map, length, sum_of, take, get_elem?, get_elem?-All,
}
use mathlib.Core.Option.{some}
use native.Mathlib.Omega.{arith}
use Prim.Native.Nat.{ℕ, zero, suc, ◌+◌}
use mathlib.Core.Logic.{inl, inr}

module _ {ℓ} {A : Type ℓ} (less : A → A → Bool) where
  unfoldable pub insert_sorted : A → List A → List A
  insert_sorted x [] = x ∷ []
  insert_sorted x (y ∷ ys) = if less y x then y ∷ insert_sorted x ys else x ∷ y ∷ ys

  unfoldable pub sort_by : List A → List A
  unfolding insert_sorted
  sort_by [] = []
  sort_by (x ∷ xs) = insert_sorted x (sort_by xs)

  -- Nothing is less than an element before it.
  abbrev pub IsSortedBy : List A → Type ℓ
  IsSortedBy [] = Unit
  IsSortedBy (x ∷ xs) = All (λ y. less y x ≡ false) xs × IsSortedBy xs

  insert_sorted-perm : (x : A) (ys : List A) → Perm (insert_sorted x ys) (x ∷ ys)
  unfolding insert_sorted
  insert_sorted-perm x [] = Perm.refl (x ∷ [])
  insert_sorted-perm x (y ∷ ys) = elim (Bool-cases (less y x)) [
    | inl e ↦ rw e (Perm.trans (Perm.cons y (insert_sorted-perm x ys)) (Perm.swap x y ys))
    | inr e ↦ rw e (Perm.refl (x ∷ y ∷ ys))
  ]

  pub sort_by-perm : (xs : List A) → Perm (sort_by xs) xs
  unfolding sort_by
  sort_by-perm [] = Perm.refl []
  sort_by-perm (x ∷ xs) =
      Perm.trans (insert_sorted-perm x (sort_by xs)) (Perm.cons x (sort_by-perm xs))

  length-insert_sorted : (x : A) (ys : List A) → length (insert_sorted x ys) ≡ suc (length ys)
  unfolding insert_sorted
  length-insert_sorted x [] = refl
  length-insert_sorted x (y ∷ ys) = elim (Bool-cases (less y x)) [
    | inl e ↦ rw e (ap suc (length-insert_sorted x ys))
    | inr e ↦ rw e
  ]

  pub length-sort_by : (xs : List A) → length (sort_by xs) ≡ length xs
  unfolding sort_by
  length-sort_by [] = refl
  length-sort_by (x ∷ xs) = length-insert_sorted x (sort_by xs) ∙ ap suc (length-sort_by xs)

  insert_sorted-All {κ} :
      (P : A → Type κ) (x : A) (ys : List A) → P x → All P ys → All P (insert_sorted x ys)
  unfolding insert_sorted
  insert_sorted-All P x [] p h = (p, tt)
  insert_sorted-All P x (y ∷ ys) p (q, h) = elim (Bool-cases (less y x)) [
    | inl e ↦ rw e (q, insert_sorted-All P x ys p h)
    | inr e ↦ rw e (p, (q, h))
  ]

  pub sort_by-All {κ} : (P : A → Type κ) (xs : List A) → All P xs → All P (sort_by xs)
  unfolding sort_by
  sort_by-All P [] h = tt
  sort_by-All P (x ∷ xs) (p, h) = insert_sorted-All P x (sort_by xs) p (sort_by-All P xs h)

  sum_of-insert_sorted :
      (w : A → ℕ) (x : A) (ys : List A) → sum_of w (insert_sorted x ys) ≡ w x + sum_of w ys
  unfolding insert_sorted sum_of
  sum_of-insert_sorted w x [] = refl
  sum_of-insert_sorted w x (y ∷ ys) = elim (Bool-cases (less y x)) [
    | inl e ↦ rw e (omega (arith, sum_of-insert_sorted w x ys))
    | inr e ↦ rw e
  ]

  pub sum_of-sort_by : (w : A → ℕ) (xs : List A) → sum_of w (sort_by xs) ≡ sum_of w xs
  unfolding sort_by sum_of
  sum_of-sort_by w [] = refl
  sum_of-sort_by w (x ∷ xs) =
      omega (arith, sum_of-insert_sorted w x (sort_by xs), sum_of-sort_by w xs)

  -- What stands before an element of a sorted list is not above it.
  pub take-IsSortedBy :
      (xs : List A) (k : ℕ) (x : A)
      → IsSortedBy xs
      → get_elem? xs k ≡ some x
      → All (λ y. less x y ≡ false) (take k xs)
  take-IsSortedBy xs zero x s e = tt
  take-IsSortedBy [] (suc k) x s e = tt
  take-IsSortedBy (y ∷ xs) (suc k) x (h, s) e =
      (get_elem?-All (λ z. less z y ≡ false) xs k x h e, take-IsSortedBy xs k x s e)

  -- An order that is asymmetric, and whose complement is transitive.
  pub record IsWeakOrder : Type ℓ where
    pub asym : (x y : A) → less x y ≡ true → less y x ≡ false
    pub negative_trans : (x y z : A) → less y x ≡ false → less z y ≡ false → less z x ≡ false

  module _ (o : IsWeakOrder) where
    insert_sorted-IsSortedBy :
        (x : A) (ys : List A) → IsSortedBy ys → IsSortedBy (insert_sorted x ys)
    unfolding insert_sorted
    insert_sorted-IsSortedBy x [] s = (tt, tt)
    insert_sorted-IsSortedBy x (y ∷ ys) (h, s) = elim (Bool-cases (less y x)) [
      | inl e ↦ rw e (
        insert_sorted-All (λ z. less z y ≡ false) x ys (o.asym y x e) h,
        insert_sorted-IsSortedBy x ys s,
      )
      | inr e ↦ rw e ((e, All-map (λ z k. o.negative_trans x y z e k) ys h), (h, s))
    ]

    pub sort_by-IsSortedBy : (xs : List A) → IsSortedBy (sort_by xs)
    unfolding sort_by
    sort_by-IsSortedBy [] = tt
    sort_by-IsSortedBy (x ∷ xs) = insert_sorted-IsSortedBy x (sort_by xs) (sort_by-IsSortedBy xs)

  -- Sorting a sorted list changes nothing.
  pub sort_by_self : (xs : List A) → IsSortedBy xs → sort_by xs ≡ xs
  unfolding sort_by insert_sorted
  sort_by_self [] s = refl
  sort_by_self (x ∷ []) s = refl
  sort_by_self (x ∷ y ∷ ys) (h, s) = rw (sort_by_self (y ∷ ys) s, h.0)
