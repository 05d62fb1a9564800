-- ===== src/Common/Maps.antt =====
-- A Go map as an association list with distinct keys in use: the first entry of a key counts.
use Prim.Native.Nat.{◌+◌, ◌≤◌}
use mathlib.Core.Path.{◌≡◌, refl}
use mathlib.Core.Option.{Option, none, some}
use mathlib.Core.List.{List, [], ◌∷◌, ◌++◌}
use native.Mathlib.Omega.{arith}
use telemetry_search_engine.Common.Tests.{if◌then◌else◌}
use telemetry_search_engine.Common.Equality.{Eq, ◌==◌}
use telemetry_search_engine.Common.Lists.{length, length-append}

abbrev pub Map : Type 0 → Type 0 → Type 0
Map K V = List (K × V)

module _ {K V : Type 0} ⦃e : Eq K⦄ where
  -- m[k]
  unfoldable pub get : K → Map K V → Option V
  get k [] = none
  get k ((j, v) ∷ m) = if j == k then some v else get k m

  -- m[k] = v
  unfoldable pub put : K → V → Map K V → Map K V
  put k v [] = (k, v) ∷ []
  put k v ((j, w) ∷ m) = if j == k then (j, v) ∷ m else (j, w) ∷ put k v m

  -- delete(m, k)
  unfoldable pub delete : K → Map K V → Map K V
  delete k [] = []
  delete k ((j, w) ∷ m) = let rest = delete k m in if j == k then rest else (j, w) ∷ rest

  pub get-put :
      (k j : K) (v : V) (m : Map K V) → get j (put k v m) ≡ (if k == j then some v else get j m)
  unfolding get put
  get-put k j v [] = refl
  get-put k j v ((i, w) ∷ m) =
      ground (arith, e.decides k j, e.decides i k, e.decides i j, get-put k j v m)

  pub get-delete : (k j : K) (m : Map K V) → get j (delete k m) ≡ (if k == j then none else get j m)
  unfolding get delete
  get-delete k j [] = ground arith
  get-delete k j ((i, w) ∷ m) =
      ground (arith, e.decides k j, e.decides i k, e.decides i j, get-delete k j m)

  pub length-put : (k : K) (v : V) (m : Map K V) → length (put k v m) ≤ length m + 1
  unfolding put
  length-put k v [] = omega arith
  length-put k v ((i, w) ∷ m) = ground (arith, length-put k v m)

  pub put-fresh : (k : K) (v : V) (m : Map K V) → get k m ≡ none → put k v m ≡ m ++ (k, v) ∷ []
  unfolding put get
  put-fresh k v [] h = refl
  put-fresh k v ((i, w) ∷ m) h = ground (arith, put-fresh k v m)

  pub length-put_fresh :
      (k : K) (v : V) (m : Map K V) → get k m ≡ none → length (put k v m) ≡ length m + 1
  length-put_fresh k v m h = rw (put-fresh k v m h) (omega (arith, length-append m ((k, v) ∷ [])))
