-- ===== src/Gc/Tests.antt =====
-- A run of iroh-nix/src/gc.rs's cleanup.
use iroh_nix.Support.{
  ℕ, ◌≡◌, refl, ap, ◌≢◌, Bool, true, false, not, none, [], ◌∷◌, arith, ltb, Bytes, eq_nat, eq_bytes,
  length, replicate, keep_if,
}
use iroh_nix.HashIndex.Entries.{Row, pos}
use iroh_nix.HashIndex.Keys.{Differ}
use iroh_nix.Gc.{run_stale_cleanup}
use iroh_nix.Gc.Cleanup.{run_stale_cleanup_lem, stays}

abbrev row : ℕ → Row
row n = record {
  blake3 = replicate 32 n;
  sha256 = replicate 32 n;
  store_path = n ∷ [];
  nar_size = pos 1;
  store_hash = none;
  references = [];
  deriver = none;
}

abbrev first_two : Bytes → Bool
first_two [] = false
first_two (n ∷ path) = ltb n 3

abbrev always : Bytes → Bool
always s = true

-- The number of a row is the first byte of its hashes and of its path.
abbrev number : Bytes → ℕ
number [] = 0
number (n ∷ bs) = n

apart : (n m : ℕ) → n ≢ m → Differ (row n) (row m)
apart n m h = (λ e. h (ap number e), λ e. h (ap number e), λ e. h (ap number e))

run_stale_cleanup_example : run_stale_cleanup first_two always true (row 1 ∷ row 4 ∷ row 2 ∷ []) ≡ (
  keep_if (stays first_two always) (row 1 ∷ row 4 ∷ row 2 ∷ []),
  length (keep_if (λ r. not (stays first_two always r)) (row 1 ∷ row 4 ∷ row 2 ∷ [])),
)
run_stale_cleanup_example =
    run_stale_cleanup_lem first_two always (row 1 ∷ row 4 ∷ row 2 ∷ [])
      (
        (apart 1 4 (omega arith), (apart 1 2 (omega arith), tt)),
        ((apart 4 2 (omega arith), tt), (tt, tt)),
      )
      ((refl, refl), ((refl, refl), ((refl, refl), tt)))
