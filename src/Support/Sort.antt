-- ===== src/Support/Sort.antt =====
-- Rust's stable `sort_by_key` on pairs of a byte-string key and a value, and the order of byte
-- strings.
use mathlib.Core.Path.{◌≡◌, refl}
use mathlib.Core.Bool.{Bool, true, false}
use mathlib.Core.List.{List, [], ◌∷◌, map}
use native.Mathlib.Omega.{arith}
use iroh_nix.Support.Tests.{Bytes, ltb, if◌then◌else◌, nat_eq}

-- `a < b` in the lexicographic order of bytes
unfoldable pub bytes_lt : Bytes → Bytes → Bool
bytes_lt a [] = false
bytes_lt [] (y ∷ ys) = true
bytes_lt (x ∷ xs) (y ∷ ys) =
    let rest = bytes_lt xs ys in if ltb x y then true else if nat_eq x y then rest else false

module _ {ℓ} {A : Type ℓ} where
  -- Before the first entry with a greater key.
  unfoldable pub insert_sorted : Bytes → A → List (Bytes × A) → List (Bytes × A)
  insert_sorted k a [] = (k, a) ∷ []
  insert_sorted k a ((j, b) ∷ l) =
      let rest = insert_sorted k a l in if bytes_lt j k then (j, b) ∷ rest else (k, a) ∷ (j, b) ∷ l

  -- The last entry goes in first, and an entry goes before those of its own key.
  unfoldable pub sort_by_key : List (Bytes × A) → List (Bytes × A)
  unfolding insert_sorted
  sort_by_key [] = []
  sort_by_key ((k, a) ∷ l) = insert_sorted k a (sort_by_key l)

module _ {ℓ κ} {A : Type ℓ} {B : Type κ} (f : A → B) where
  abbrev pub on_value : Bytes × A → Bytes × B
  on_value (k, a) = (k, f a)

  insert_sorted-map :
      (k : Bytes) (a : A) (l : List (Bytes × A))
      → insert_sorted k (f a) (map on_value l) ≡ map on_value (insert_sorted k a l)
  unfolding insert_sorted
  insert_sorted-map k a [] = refl
  insert_sorted-map k a ((j, b) ∷ l) = ground (arith, insert_sorted-map k a l)

  -- Sorting does not look at the values.
  pub sort_by_key-map :
      (l : List (Bytes × A)) → sort_by_key (map on_value l) ≡ map on_value (sort_by_key l)
  unfolding sort_by_key
  sort_by_key-map [] = refl
  sort_by_key-map ((k, a) ∷ l) = rw (sort_by_key-map l) (insert_sorted-map k a (sort_by_key l))
