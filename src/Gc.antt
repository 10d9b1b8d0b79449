-- ===== src/Gc.antt =====
-- iroh-nix/src/gc.rs: the cleanup of the index. The file system is foreign: `exists` tells which
-- paths are on disk. `lists` and `deletes` tell which statements SQLite carries out.
pub mod Cleanup
mod Tests
use iroh_nix.Support.{
  ℕ, zero, suc, ◌+◌, ◌-◌, ◌*◌, ◌/◌, ◌%◌, ◌^◌, ◌≤◌, ◌<◌, min, ◌≡◌, refl, sym, ap, ◌∙◌, ◌≢◌, ◌↔◌, ◌⊎◌,
  inl, inr, Bool, true, false, not, ◌&&◌, ◌||◌, Option, none, some, List, [], ◌∷◌, ◌++◌, map,
  reverse, append-nil, append_assoc, arith, ltb, leb, nat_eq, if◌then◌else◌, ltb→lt, lt→ltb, leb→le,
  nat_eq_iff, Bool-cases, Option-cases, Bytes, codes, bytes_eq, bytes_eq_iff, Eq, ◌==◌, eq_nat,
  eq_bytes, ==-refl, contains, length, take, drop, replicate, All, all, length-append,
  take-append-drop, length-take, length-drop, length-replicate, All-append, All-parts, take-append,
  drop-append, keep_if,
}
use iroh_nix.Error.{Result, ok, err, panic}
use iroh_nix.HashIndex.{Table, list_all, delete_by_blake3}
use iroh_nix.HashIndex.Entries.{HashEntry}

module _ (exists : Bytes → Bool) (deletes : Bytes → Bool) where
  -- What a call of `delete_by_blake3` makes of the table and of the count.
  unfoldable pub removed_after : Table × ℕ → Result (Table × Bool) → Table × ℕ
  removed_after (table, removed) (ok (left, found)) = (left, suc removed)
  removed_after (table, removed) (err e) = (table, removed)
  removed_after (table, removed) panic = (table, removed)

  unfoldable pub cleanup_entry : HashEntry → Table × ℕ → Table × ℕ
  cleanup_entry entry (table, removed) =
      if not (exists entry.store_path)
      then removed_after (table, removed)
          (delete_by_blake3 (deletes entry.blake3) entry.blake3 table)
      else (table, removed)

  unfoldable pub cleanup_entries : List HashEntry → Table × ℕ → Table × ℕ
  cleanup_entries [] state = state
  cleanup_entries (entry ∷ entries) state = cleanup_entries entries (cleanup_entry entry state)

  -- The table that is left and the number that is returned.
  unfoldable pub cleanup_listed : Table → Result (List HashEntry) → Table × ℕ
  cleanup_listed table (ok entries) = cleanup_entries entries (table, 0)
  cleanup_listed table (err e) = (table, 0)
  cleanup_listed table panic = (table, 0)

  unfoldable pub run_stale_cleanup : Bool → Table → Table × ℕ
  run_stale_cleanup lists table = cleanup_listed table (list_all lists table)
