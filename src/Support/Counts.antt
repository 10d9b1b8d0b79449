-- ===== src/Support/Counts.antt =====
-- How often a list has an element, and the keys of an association list.
use Prim.Native.Nat.{ℕ, ◌+◌, ◌≤◌}
use mathlib.Core.Path.{◌≡◌, refl}
use mathlib.Core.Bool.{true}
use mathlib.Core.List.{List, [], ◌∷◌, ◌++◌}
use native.Mathlib.Omega.{arith}
use iroh_nix.Support.Tests.{Eq, ◌==◌, if◌then◌else◌, contains, ltb}
use iroh_nix.Support.Maps.{Map, insert}

module _ {ℓ} {A : Type ℓ} ⦃e : Eq A⦄ where
  unfoldable pub occurs : A → List A → ℕ
  occurs a [] = 0
  occurs a (x ∷ xs) = (if x == a then 1 else 0) + occurs a xs

  pub occurs-append : (a : A) (xs ys : List A) → occurs a (xs ++ ys) ≡ occurs a xs + occurs a ys
  unfolding occurs
  occurs-append a [] ys = omega arith
  occurs-append a (x ∷ xs) ys = omega (arith, occurs-append a xs ys)

  pub occurs-singleton : (a x : A) → occurs a (x ∷ []) ≡ (if x == a then 1 else 0)
  unfolding occurs
  occurs-singleton a x = omega arith

  pub contains-occurs : (a : A) (xs : List A) → contains xs a ≡ ltb 0 (occurs a xs)
  unfolding occurs
  contains-occurs a [] = refl
  contains-occurs a (x ∷ xs) = ground (arith, contains-occurs a xs)

  pub contains-append :
      (a x : A) (xs : List A)
      → contains (xs ++ x ∷ []) a ≡ (if contains xs a then true else (x == a))
  contains-append a x [] = ground arith
  contains-append a x (y ∷ xs) = ground (arith, contains-append a x xs)

module _ {ℓ κ} {K : Type ℓ} {V : Type κ} ⦃e : Eq K⦄ where
  unfoldable pub keys : Map K V → List K
  keys [] = []
  keys ((k, v) ∷ m) = k ∷ keys m

  pub occurs-keys-insert :
      (k j : K) (v : V) (m : Map K V)
      → occurs j (keys (insert k v m))
        ≡ occurs j (keys m) + (if k == j then (if contains (keys m) k then 0 else 1) else 0)
  unfolding occurs keys insert
  occurs-keys-insert k j v [] = ground (arith, e.beq_iff k j)
  occurs-keys-insert k j v ((i, w) ∷ m) =
      ground (arith, e.beq_iff i k, e.beq_iff k j, e.beq_iff i j, occurs-keys-insert k j v m)

  abbrev pub IsUnique : Map K V → Type ℓ
  IsUnique m = (k : K) → occurs k (keys m) ≤ 1

  pub IsUnique-insert : (k : K) (v : V) (m : Map K V) → IsUnique m → IsUnique (insert k v m)
  IsUnique-insert k v m h j =
      ground
        (arith, occurs-keys-insert k j v m, contains-occurs k (keys m), e.beq_iff k j, h j, h k)
