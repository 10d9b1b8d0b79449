-- ===== src/Nar/Order.antt =====
-- The archive of a directory in iroh-nix/src/nar.rs, and the order in which its entries are read.
use iroh_nix.Support.{
  ℕ, ◌+◌, ◌≤◌, ◌≡◌, refl, ap, ◌∙◌, ◌≢◌, true, false, List, [], ◌∷◌, arith, if◌then◌else◌, Bytes,
  ◌==◌, eq_nat, eq_bytes, ==-refl,
}
use iroh_nix.Support.Sort.{bytes_lt, insert_sorted, sort_by_key}
use iroh_nix.Error.{Result}
use iroh_nix.Nar.{write_directory}

bytes_lt_asym : (a b : Bytes) → bytes_lt a b ≡ true → bytes_lt b a ≡ false
unfolding bytes_lt
bytes_lt_asym [] [] h = ground arith
bytes_lt_asym [] (y ∷ b) h = ground arith
bytes_lt_asym (x ∷ a) [] h = ground arith
bytes_lt_asym (x ∷ a) (y ∷ b) h = ground (arith, bytes_lt_asym a b)

bytes_lt_trans : (a b c : Bytes) → bytes_lt a b ≡ true → bytes_lt b c ≡ true → bytes_lt a c ≡ true
unfolding bytes_lt
bytes_lt_trans a b [] h h' = ground arith
bytes_lt_trans a [] (z ∷ c) h h' = ground arith
bytes_lt_trans [] (y ∷ b) (z ∷ c) h h' = ground arith
bytes_lt_trans (x ∷ a) (y ∷ b) (z ∷ c) h h' = ground (arith, bytes_lt_trans a b c)

bytes_lt_total : (a b : Bytes) → bytes_lt a b ≡ false → bytes_lt b a ≡ false → a ≡ b
unfolding bytes_lt
bytes_lt_total [] [] h h' = ground arith
bytes_lt_total [] (y ∷ b) h h' = ground arith
bytes_lt_total (x ∷ a) [] h h' = ground arith
bytes_lt_total (x ∷ a) (y ∷ b) h h' = ground (arith, bytes_lt_total a b)

-- The second list has the entries of the first in another order.
pub data Reorders {ℓ} {A : Type ℓ} : List A → List A → Type ℓ where
  same : {l : List A} → Reorders l l
  kept : (a : A) {l m : List A} → Reorders l m → Reorders (a ∷ l) (a ∷ m)
  swapped : (a b : A) {l : List A} → Reorders (a ∷ b ∷ l) (b ∷ a ∷ l)
  in_turn : {l m n : List A} → Reorders l m → Reorders m n → Reorders l n

module _ {ℓ} {A : Type ℓ} where
  -- The times that a name is listed.
  unfoldable pub listings : Bytes → List (Bytes × A) → ℕ
  listings name [] = 0
  listings name (e ∷ l) = (if e.0 == name then 1 else 0) + listings name l

  listings-Reorders :
      (name : Bytes) {l m : List (Bytes × A)} → Reorders l m → listings name l ≡ listings name m
  unfolding listings
  listings-Reorders name same = refl
  listings-Reorders name (kept e r) = omega (arith, listings-Reorders name r)
  listings-Reorders name (swapped e f) = omega arith
  listings-Reorders name (in_turn r r') = listings-Reorders name r ∙ listings-Reorders name r'

  insert-swap :
      (j k : Bytes) (a b : A) (l : List (Bytes × A))
      → j ≢ k
      → insert_sorted j a (insert_sorted k b l) ≡ insert_sorted k b (insert_sorted j a l)
  unfolding insert_sorted
  insert-swap j k a b [] other =
      ground (arith, other, bytes_lt_asym j k, bytes_lt_asym k j, bytes_lt_total j k)
  insert-swap j k a b ((i, c) ∷ l) other = ground (
    arith,
    other,
    insert-swap j k a b l other,
    bytes_lt_asym j k,
    bytes_lt_asym k j,
    bytes_lt_total j k,
    bytes_lt_trans i j k,
    bytes_lt_trans i k j,
    bytes_lt_total i j,
    bytes_lt_total i k,
    bytes_lt_trans k j i,
    bytes_lt_trans j k i,
  )

  apart : (e f : Bytes × A) (l : List (Bytes × A)) → listings e.0 (e ∷ f ∷ l) ≤ 1 → e.0 ≢ f.0
  unfolding listings
  apart e f l h p = ground (arith, h, p, eq_bytes.beq_iff f.0 e.0, ==-refl e.0)

  sort_by_key-Reorders :
      {l m : List (Bytes × A)}
      → Reorders l m
      → ((name : Bytes) → listings name l ≤ 1)
      → sort_by_key l ≡ sort_by_key m
  unfolding sort_by_key
  sort_by_key-Reorders same h = refl
  sort_by_key-Reorders (kept e {l} r) h =
      ap (insert_sorted e.0 e.1)
        (sort_by_key-Reorders r (λ name. unfold listings in omega (arith, h name)))
  sort_by_key-Reorders (swapped e f {l}) h =
      insert-swap e.0 f.0 e.1 f.1 (sort_by_key l) (apart e f l (h e.0))
  sort_by_key-Reorders (in_turn r r') h =
      sort_by_key-Reorders r h
      ∙ sort_by_key-Reorders r' (λ name. omega (arith, h name, listings-Reorders name r))

-- A directory whose names are all different is archived to the same bytes, or fails in the same way,
-- in whatever order its entries are read.
pub write_directory-Reorders :
    {l m : List (Bytes × Result Bytes)}
    → Reorders l m
    → ((name : Bytes) → listings name l ≤ 1)
    → write_directory l ≡ write_directory m
unfolding write_directory
write_directory-Reorders {l} {m} r h = rw (sort_by_key-Reorders r h)
