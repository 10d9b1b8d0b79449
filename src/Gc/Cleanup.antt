-- ===== src/Gc/Cleanup.antt =====
-- iroh-nix/src/gc.rs: which entries the cleanup leaves.
use iroh_nix.Support.{
  ℕ, suc, ◌+◌, ◌≡◌, refl, sym, inl, inr, Bool, true, not, ◌||◌, List, [], ◌∷◌, ◌++◌, append_assoc,
  arith, if◌then◌else◌, Bool-cases, Bytes, ◌==◌, eq_nat, eq_bytes, ==-refl, length, All, All-append,
  All-parts, keep_if,
}
use mathlib.Core.Path.{subst}
use iroh_nix.Error.{ok, Result-cases}
use iroh_nix.HashIndex.{Table, list_all, delete_by_blake3, entries_of, execute}
use iroh_nix.HashIndex.Entries.{
  HashEntry, Row, tuple_to_entry, row_to_entry_tuple, blake3_from_slice, sha256_from_slice,
  from_slice,
}
use iroh_nix.HashIndex.Keys.{IsKeyed, Differ, tuple_to_entry_keys}
use iroh_nix.Gc.{removed_after, cleanup_entry, cleanup_entries, cleanup_listed, run_stale_cleanup}

-- A row with hashes of 32 bytes.
abbrev pub IsReadable : Row → Type 0
IsReadable row = (length row.blake3 ≡ 32) × (length row.sha256 ≡ 32)

-- The entry of such a row.
read :
    (row : Row)
    → IsReadable row
    → (e : HashEntry) × (tuple_to_entry (row_to_entry_tuple row) ≡ ok e)
      × (e.blake3 ≡ row.blake3)
      × (e.store_path ≡ row.store_path)
unfolding tuple_to_entry row_to_entry_tuple blake3_from_slice sha256_from_slice from_slice
read row h = elim (Result-cases (tuple_to_entry (row_to_entry_tuple row))) [
  | inl (e, is) ↦
      let (first, second, third) = tuple_to_entry_keys (row_to_entry_tuple row) e is in
      (e, is, first, third)
  | inr (inl (x, is)) ↦ ground (arith, is, h.0, h.1)
  | inr (inr is) ↦ ground (arith, is, h.0, h.1)
]

keep_apart :
    (row : Row) (rows : Table)
    → All (Differ row) rows
    → keep_if (λ old. not (old.blake3 == row.blake3)) rows ≡ rows
keep_apart row [] h = refl
keep_apart row (old ∷ rows) (apart, h) =
    ground (arith, apart.0, eq_bytes.beq_iff old.blake3 row.blake3, keep_apart row rows h)

-- In a table without shared keys a deletion takes one row away.
delete_one :
    (pre : Table) (row : Row) (post : Table)
    → IsKeyed (pre ++ row ∷ post)
    → keep_if (λ old. not (old.blake3 == row.blake3)) (pre ++ row ∷ post) ≡ pre ++ post
delete_one [] row post (apart, h) = ground (arith, ==-refl row.blake3, keep_apart row post apart)
delete_one (x ∷ pre) row post (apart, h) =
    let (front, (here, back)) = All-parts (Differ x) pre (row ∷ post) apart in
    ground (
      arith,
      here.0,
      eq_bytes.beq_iff x.blake3 row.blake3,
      eq_bytes.beq_iff row.blake3 x.blake3,
      delete_one pre row post h,
    )

IsKeyed-without :
    (pre : Table) (row : Row) (post : Table) → IsKeyed (pre ++ row ∷ post) → IsKeyed (pre ++ post)
IsKeyed-without [] row post h = h.1
IsKeyed-without (x ∷ pre) row post (apart, h) =
    let (front, (here, back)) = All-parts (Differ x) pre (row ∷ post) apart in
    (All-append (Differ x) pre post front back, IsKeyed-without pre row post h)

module _ (exists : Bytes → Bool) (deletes : Bytes → Bool) where
  -- A row that the cleanup leaves: its path is on disk, or SQLite fails to delete it.
  unfoldable pub stays : Row → Bool
  stays row = exists row.store_path || not (deletes row.blake3)

  -- The round for a row, behind those that were kept.
  cleanup_entry-row :
      (pre : Table) (row : Row) (post : Table) (removed : ℕ) (e : HashEntry)
      → IsKeyed (pre ++ row ∷ post)
      → e.blake3 ≡ row.blake3
      → e.store_path ≡ row.store_path
      → cleanup_entry exists deletes e (pre ++ row ∷ post, removed)
        ≡ (if stays row then (pre ++ row ∷ post, removed) else (pre ++ post, suc removed))
  unfolding cleanup_entry removed_after delete_by_blake3 execute stays
  cleanup_entry-row pre row post removed e keyed first path =
      elim (Bool-cases (exists row.store_path)) [
        | inl on ↦ ground (arith, on, path)
        | inr off ↦ elim (Bool-cases (deletes row.blake3)) [
          | inl can ↦ rw (path, off, first, can, delete_one pre row post keyed) refl
          | inr fails ↦ rw (path, off, first, fails) refl
        ]
      ]

  -- The loop over the rows that are left.
  cleanup_rows :
      (post : Table)
      → All IsReadable post
      → (entries : List HashEntry) × (entries_of post ≡ ok entries)
        × ((pre : Table) (removed : ℕ)
            → IsKeyed (pre ++ post)
            → cleanup_entries exists deletes entries (pre ++ post, removed) ≡ (
              pre ++ keep_if stays post,
              removed + length (keep_if (λ row. not (stays row)) post),
            ))
  unfolding cleanup_entries entries_of
  cleanup_rows [] h = ([], refl, λ pre removed keyed. ground arith)
  cleanup_rows (row ∷ post) (here, h) =
      let (e, is, first, path) = read row here in
      let (entries, listed, same) = cleanup_rows post h in
      (
        e ∷ entries,
        ground (arith, is, listed),
        λ pre removed keyed. elim (Bool-cases (stays row)) [
          | inl on ↦
              rw (cleanup_entry-row pre row post removed e keyed first path, on)
                (let shift : (pre ++ row ∷ []) ++ post ≡ pre ++ row ∷ post =
                    append_assoc pre (row ∷ []) post in
                  let next = same (pre ++ row ∷ []) removed (subst IsKeyed (sym shift) keyed) in
                  ground (arith, on, shift, next, append_assoc pre (row ∷ []) (keep_if stays post)))
          | inr off ↦
              rw (cleanup_entry-row pre row post removed e keyed first path, off)
                (let next = same pre (suc removed) (IsKeyed-without pre row post keyed) in
                  ground (arith, off, next))
        ],
      )

  -- The cleanup of a table without shared keys, whose hashes have 32 bytes, leaves the rows whose
  -- path is on disk and those that SQLite fails to delete, in their order, and returns the number of the
  -- others.
  pub run_stale_cleanup_lem :
      (table : Table)
      → IsKeyed table
      → All IsReadable table
      → run_stale_cleanup exists deletes true table
        ≡ (keep_if stays table, length (keep_if (λ row. not (stays row)) table))
  unfolding run_stale_cleanup cleanup_listed list_all execute
  run_stale_cleanup_lem table keyed h =
      let (entries, listed, same) = cleanup_rows table h in ground (arith, listed, same [] 0 keyed)
