-- ===== src/Common/Equality.antt =====
-- Boolean equality as an interface, and membership by it.
use Prim.Native.Nat.{ℕ}
use mathlib.Core.Path.{◌≡◌, refl}
use mathlib.Core.Logic.{◌↔◌, inl, inr}
use mathlib.Core.Bool.{Bool, true, false, ◌||◌}
use mathlib.Core.List.{List, [], ◌∷◌, ◌++◌}
use native.Mathlib.Omega.{arith}
use telemetry_search_engine.Common.Tests.{eqb, eqb_iff, Bool-cases}
use telemetry_search_engine.Common.Lists.{All}

-- A type whose equality the Boolean function `equals` decides.
pub record Eq {κ} (K : Type κ) : Type κ where
  pub equals : K → K → Bool
  pub decides : (x y : K) → (equals x y ≡ true) ↔ (x ≡ y)

instance abbrev pub nat_eq : Eq ℕ
nat_eq = record { equals = eqb; decides = eqb_iff }

module _ {κ} {K : Type κ} ⦃e : Eq K⦄ where
  infix 50 ◌==◌
  abbrev pub ◌==◌ : K → K → Bool
  ◌==◌ = e.equals

  pub ==_refl : (a : K) → (a == a) ≡ true
  ==_refl a = (e.decides a a).1 refl

  pub ==_sound : (a b : K) → (a == b) ≡ true → a ≡ b
  ==_sound a b h = (e.decides a b).0 h

  unfoldable pub contains : List K → K → Bool
  contains [] a = false
  contains (x ∷ xs) a = x == a || contains xs a

  pub contains-append :
      (xs ys : List K) (a : K) → contains (xs ++ ys) a ≡ (contains xs a || contains ys a)
  unfolding contains
  contains-append [] ys a = refl
  contains-append (x ∷ xs) ys a = ground (arith, contains-append xs ys a)

  pub contains-singleton : (x a : K) → contains (x ∷ []) a ≡ (x == a)
  unfolding contains
  contains-singleton x a = ground arith

  -- No entry is repeated.
  abbrev pub IsNodup : List K → Type 0
  IsNodup [] = Unit
  IsNodup (x ∷ xs) = (contains xs x ≡ false) × IsNodup xs

  pub IsNodup-concat :
      (xs : List K) (a : K) → IsNodup xs → contains xs a ≡ false → IsNodup (xs ++ a ∷ [])
  unfolding contains
  IsNodup-concat [] a n h = (refl, tt)
  IsNodup-concat (x ∷ xs) a (fresh, n) h = (
    ground (
      arith,
      contains-append xs (a ∷ []) x,
      contains-singleton a x,
      e.decides x a,
      e.decides a x,
    ),
    IsNodup-concat xs a n (ground arith),
  )

  pub All-contains {ℓ} :
      (P : K → Type ℓ) (xs : List K) (a : K) → All P xs → contains xs a ≡ true → P a
  unfolding contains
  All-contains P [] a h m = cc
  All-contains P (x ∷ xs) a (p, h) m = elim (Bool-cases (x == a)) [
    | inl same ↦ rw (==_sound x a same) at p
    | inr other ↦ All-contains P xs a h (ground arith)
  ]
