-- ===== src/Common/Perms.antt =====
-- What does not depend on the order of a list.
use Prim.Native.Nat.{ℕ, suc}
use mathlib.Core.Path.{◌≡◌, refl, ap, ◌∙◌}
use mathlib.Core.Logic.{∥∥₁_elim}
use mathlib.Core.List.{List, [], ◌∷◌, ◌++◌, Perm, Perm-prop, Permᴰ, append_assoc}
use mathlib.Core.List.Perm
use mathlib.Core.List.Permᴰ
use native.Mathlib.Nat.{ℕ_set}
use native.Mathlib.Omega.{arith}
use telemetry_search_engine.Common.Lists.{sum_of, length}

module _ {ℓ κ} {A : Type ℓ} {B : Type κ} (f : A → List B) where
  -- The lists that the elements stand for, one after the other.
  abbrev pub gather : List A → List B
  gather [] = []
  gather (x ∷ xs) = f x ++ gather xs

  two_first : (xs ys zs : List B) → Perm (xs ++ (ys ++ zs)) (ys ++ (xs ++ zs))
  two_first xs ys zs =
      rw (← append_assoc xs ys zs, ← append_assoc ys xs zs)
        (Perm.append_right zs ∣ Permᴰ.append_comm xs ys ∣₁)

  gather-permᴰ : {xs ys : List A} → Permᴰ xs ys → Perm (gather xs) (gather ys)
  gather-permᴰ Permᴰ.nil = Perm.nil
  gather-permᴰ (Permᴰ.cons {a = a} {b = b} {l₁ = l₁} {l₂ = l₂} e d) =
      rw e (Perm.append_left (f b) (gather-permᴰ d))
  gather-permᴰ (Permᴰ.swap {a = a} {b = b} {a' = a'} {b' = b'} {l = l} e₁ e₂) =
      rw (e₁, e₂) (two_first (f b') (f a') (gather l))
  gather-permᴰ (Permᴰ.trans d₁ d₂) = Perm.trans (gather-permᴰ d₁) (gather-permᴰ d₂)

  -- Elements in another order stand for the same members.
  pub gather-perm : {xs ys : List A} → Perm xs ys → Perm (gather xs) (gather ys)
  gather-perm p = ∥∥₁_elim p Perm-prop gather-permᴰ

module _ {ℓ} {A : Type ℓ} where
  length-permᴰ : {xs ys : List A} → Permᴰ xs ys → length xs ≡ length ys
  length-permᴰ Permᴰ.nil = refl
  length-permᴰ (Permᴰ.cons e d) = ap suc (length-permᴰ d)
  length-permᴰ (Permᴰ.swap e₁ e₂) = refl
  length-permᴰ (Permᴰ.trans d₁ d₂) = length-permᴰ d₁ ∙ length-permᴰ d₂

  pub length-perm : {xs ys : List A} → Perm xs ys → length xs ≡ length ys
  length-perm {xs} {ys} p = ∥∥₁_elim p (ℕ_set (length xs) (length ys)) length-permᴰ

module _ {ℓ} {A : Type ℓ} (w : A → ℕ) where
  sum_of-permᴰ : {xs ys : List A} → Permᴰ xs ys → sum_of w xs ≡ sum_of w ys
  unfolding sum_of
  sum_of-permᴰ Permᴰ.nil = refl
  sum_of-permᴰ (Permᴰ.cons {a = a} {b = b} e d) = rw e (omega (arith, sum_of-permᴰ d))
  sum_of-permᴰ (Permᴰ.swap {a = a} {b = b} {a' = a'} {b' = b'} e₁ e₂) = rw (e₁, e₂) (omega arith)
  sum_of-permᴰ (Permᴰ.trans d₁ d₂) = sum_of-permᴰ d₁ ∙ sum_of-permᴰ d₂

  -- A sum does not depend on the order.
  pub sum_of-perm : {xs ys : List A} → Perm xs ys → sum_of w xs ≡ sum_of w ys
  sum_of-perm {xs} {ys} p = ∥∥₁_elim p (ℕ_set (sum_of w xs) (sum_of w ys)) sum_of-permᴰ
