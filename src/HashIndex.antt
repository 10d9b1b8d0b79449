-- ===== src/HashIndex.antt =====
-- iroh-nix/src/hash_index.rs: the index between the BLAKE3 and SHA-256 hashes of store paths.
-- The database is SQLite, which is foreign; its table is the list of its rows in the order of their
-- row ids, and each function is what its SQL text says of those rows. An argument of each tells
-- whether SQLite carries its statement out.
pub mod Entries
pub mod RoundTrip
pub mod Keys
pub mod Schema
mod Tests
use iroh_nix.Support.{
  ℕ, zero, suc, ◌+◌, ◌-◌, ◌*◌, ◌/◌, ◌%◌, ◌^◌, ◌≤◌, ◌<◌, min, ◌≡◌, refl, sym, ap, ◌∙◌, ◌≢◌, ◌↔◌, ◌⊎◌,
  inl, inr, Bool, true, false, not, ◌&&◌, ◌||◌, Option, none, some, List, [], ◌∷◌, ◌++◌, map,
  reverse, append-nil, append_assoc, arith, ltb, leb, nat_eq, if◌then◌else◌, ltb→lt, lt→ltb, leb→le,
  nat_eq_iff, Bool-cases, Option-cases, Bytes, codes, bytes_eq, bytes_eq_iff, Eq, ◌==◌, eq_nat,
  eq_bytes, ==-refl, contains, length, take, drop, replicate, All, all, length-append,
  take-append-drop, length-take, length-drop, length-replicate, All-append, All-parts, take-append,
  drop-append, keep_if,
}
use iroh_nix.Error.{Error, database, Result, ok, err, ◌>>=◌}
use iroh_nix.HashIndex.Entries.{
  HashEntry, Row, EntryTuple, to_row, row_to_entry_tuple, tuple_to_entry,
}

unfoldable pub optional_tuple_to_entry : Option EntryTuple → Result (Option HashEntry)
unfolding tuple_to_entry
optional_tuple_to_entry none = ok none
optional_tuple_to_entry (some t) = do entry ← tuple_to_entry t; ok (some entry)

abbrev pub Table : Type 0
Table = List Row

-- A statement that SQLite carries out, or not.
unfoldable pub execute {ℓ} : {A : Type ℓ} → Bool → A → Result A
execute true a = ok a
execute false a = err database

-- `INSERT OR REPLACE`: the rows that share a key with the new one are deleted first.
unfoldable pub shares_key : Row → Row → Bool
shares_key new old =
    (old.blake3 == new.blake3) || ((old.sha256 == new.sha256) || (old.store_path == new.store_path))

unfoldable pub insert_or_replace : Row → Table → Table
insert_or_replace row table = keep_if (λ old. not (shares_key row old)) table ++ row ∷ []

unfoldable pub insert : Bool → HashEntry → Table → Result Table
unfolding to_row insert_or_replace execute
insert answers entry table = execute answers (insert_or_replace (to_row entry) table)

-- `query_row(…, row_to_entry_tuple).optional()`: the first row of a `WHERE`, if there is one
unfoldable pub first_row : (Row → Bool) → Table → Option EntryTuple
unfolding row_to_entry_tuple
first_row test [] = none
first_row test (row ∷ rows) =
    let rest = first_row test rows in
    elim (test row) [ true ↦ some (row_to_entry_tuple row) | false ↦ rest ]

unfoldable pub query_row : Bool → (Row → Bool) → Table → Result (Option EntryTuple)
unfolding execute first_row
query_row answers test table = execute answers (first_row test table)

unfoldable pub get_by_blake3 : Bool → Bytes → Table → Result (Option HashEntry)
unfolding query_row optional_tuple_to_entry
get_by_blake3 answers blake3 table = do
  result ← query_row answers (λ row. row.blake3 == blake3) table
  optional_tuple_to_entry result

unfoldable pub get_by_sha256 : Bool → Bytes → Table → Result (Option HashEntry)
unfolding query_row optional_tuple_to_entry
get_by_sha256 answers sha256 table = do
  result ← query_row answers (λ row. row.sha256 == sha256) table
  optional_tuple_to_entry result

unfoldable pub get_by_store_path : Bool → Bytes → Table → Result (Option HashEntry)
unfolding query_row optional_tuple_to_entry
get_by_store_path answers store_path table = do
  result ← query_row answers (λ row. row.store_path == store_path) table
  optional_tuple_to_entry result

-- In SQL a missing `store_hash` is equal to nothing.
unfoldable pub has_store_hash : Bytes → Option Bytes → Bool
has_store_hash hash none = false
has_store_hash hash (some h) = h == hash

unfoldable pub get_by_store_hash : Bool → Bytes → Table → Result (Option HashEntry)
unfolding query_row optional_tuple_to_entry has_store_hash
get_by_store_hash answers store_hash table = do
  result ← query_row answers (λ row. has_store_hash store_hash row.store_hash) table
  optional_tuple_to_entry result

-- The table that is left, and whether a row was deleted.
unfoldable pub delete_by_blake3 : Bool → Bytes → Table → Result (Table × Bool)
unfolding execute
delete_by_blake3 answers blake3 table =
    let left = keep_if (λ (row : Row). not (row.blake3 == blake3)) table in
    execute answers (left, ltb (length left) (length table))

unfoldable pub entries_of : Table → Result (List HashEntry)
unfolding row_to_entry_tuple tuple_to_entry
entries_of [] = ok []
entries_of (row ∷ rows) = do
  entry ← tuple_to_entry (row_to_entry_tuple row)
  entries ← entries_of rows
  ok (entry ∷ entries)

unfoldable pub list_all : Bool → Table → Result (List HashEntry)
unfolding execute entries_of
list_all answers table = do rows ← execute answers table; entries_of rows

unfoldable pub count : Bool → Table → Result ℕ
unfolding execute
count answers table = execute answers (length table)
