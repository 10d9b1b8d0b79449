-- ===== src/HashIndex/Schema.antt =====
-- iroh-nix/src/hash_index.rs: the columns of the table, and the migration from the older ones. A row of
-- an older table has nothing in the columns that it lacks. SQLite carries out each statement.
use iroh_nix.Support.{
  ◌≡◌, refl, sym, ap, ◌∙◌, inl, inr, Bool, true, false, not, Option, none, some, List, [], ◌∷◌, map,
  arith, if◌then◌else◌, Bool-cases, Option-cases, Bytes, ◌==◌, eq_nat, eq_bytes, All, All-append,
  keep_if,
}
use iroh_nix.Error.{ok}
use iroh_nix.HashIndex.Entries.{
  HashEntry, Row, EntryTuple, to_row, row_to_entry_tuple, extract_store_hash,
}
use iroh_nix.HashIndex.{
  Table, insert, insert_or_replace, shares_key, first_row, get_by_store_hash, has_store_hash,
  execute, delete_by_blake3,
}
use iroh_nix.HashIndex.Keys.{
  Change, inserted, deleted, change, after, run_changes, All-keep_if, get-read, tuple_to_entry_keys,
}

pub record Database : Type 0 where
  pub has_hash_index : Bool
  pub has_store_hash : Bool
  pub has_references : Bool
  pub rows : Table

-- The `UPDATE` of a row, where its path has a hash.
unfoldable pub backfill_hash : Row → Option Bytes → Row
backfill_hash row none = row
backfill_hash row (some h) = record row { store_hash = some h }

-- `WHERE store_hash IS NULL`
unfoldable pub backfill : Row → Row
backfill row = elim row.store_hash [
  | some h ↦ row
  | none ↦ backfill_hash row (extract_store_hash row.store_path)
]

-- `ADD COLUMN`, with the defaults
unfoldable pub add_references : Row → Row
add_references row = record row { references = []; deriver = none }

unfoldable pub migrate_store_hash : Database → Database
migrate_store_hash db =
    if db.has_store_hash
    then db
    else record db { has_store_hash = true; rows = map backfill db.rows }

unfoldable pub migrate_references : Database → Database
migrate_references db =
    if db.has_references
    then db
    else record db { has_references = true; rows = map add_references db.rows }

unfoldable pub migrate : Database → Database
migrate db = migrate_references (migrate_store_hash db)

-- What `CREATE TABLE` makes.
abbrev pub new : Database
new = record { has_hash_index = true; has_store_hash = false; has_references = false; rows = [] }

-- `CREATE TABLE IF NOT EXISTS`, by whether it does
unfoldable pub create_table : Bool → Database → Database
create_table true db = db
create_table false db = new

unfoldable pub init_schema : Database → Database
init_schema db = migrate (create_table db.has_hash_index db)

-- The column `store_hash` of a row is the hash of its path.
abbrev pub IsHashed : Row → Type 0
IsHashed row = row.store_hash ≡ extract_store_hash row.store_path

-- A table without the column has nothing in it, and one that has it is right.
abbrev pub IsDatabase : Database → Type 0
IsDatabase db =
    (db.has_store_hash ≡ true → All IsHashed db.rows)
    × (db.has_store_hash ≡ false → All (λ row. row.store_hash ≡ none) db.rows)

backfill-IsHashed : (row : Row) → row.store_hash ≡ none → IsHashed (backfill row)
unfolding backfill backfill_hash
backfill-IsHashed row h = elim (Option-cases (extract_store_hash row.store_path)) [
  | inl e ↦ ground (arith, e, h)
  | inr (hash, e) ↦ ground (arith, e, h)
]

map-backfill :
    (rows : Table) → All (λ row. row.store_hash ≡ none) rows → All IsHashed (map backfill rows)
map-backfill [] h = tt
map-backfill (row ∷ rows) (here, h) = (backfill-IsHashed row here, map-backfill rows h)

map-add_references : (rows : Table) → All IsHashed rows → All IsHashed (map add_references rows)
unfolding add_references
map-add_references [] h = tt
map-add_references (row ∷ rows) (here, h) = (here, map-add_references rows h)

migrate_store_hash-IsHashed :
    (db : Database) → IsDatabase db → All IsHashed (migrate_store_hash db).rows
unfolding migrate_store_hash
migrate_store_hash-IsHashed db (right, empty) = elim (Bool-cases db.has_store_hash) [
  | inl e ↦ rw e (right e)
  | inr e ↦ rw e (map-backfill db.rows (empty e))
]

migrate_references-IsHashed :
    (db : Database) → All IsHashed db.rows → All IsHashed (migrate_references db).rows
unfolding migrate_references
migrate_references-IsHashed db h = elim (Bool-cases db.has_references) [
  | inl e ↦ rw e h
  | inr e ↦ rw e (map-add_references db.rows h)
]

create_table-IsDatabase :
    (exists : Bool) (db : Database) → IsDatabase db → IsDatabase (create_table exists db)
unfolding create_table
create_table-IsDatabase true db h = h
create_table-IsDatabase false db h = (λ no. cc, λ yes. tt)

init_schema-IsHashed : (db : Database) → IsDatabase db → All IsHashed (init_schema db).rows
unfolding init_schema migrate
init_schema-IsHashed db h =
    let made = create_table db.has_hash_index db in
    migrate_references-IsHashed (migrate_store_hash made)
      (migrate_store_hash-IsHashed made (create_table-IsDatabase db.has_hash_index db h))

change-IsHashed : (c : Change) (table : Table) → All IsHashed table → All IsHashed (change c table)
unfolding change after insert insert_or_replace delete_by_blake3 execute to_row
change-IsHashed (inserted true e) table h =
    let apart = λ (old : Row). not (shares_key (to_row e) old) in
    All-append IsHashed (keep_if apart table) (to_row e ∷ []) (All-keep_if IsHashed apart table h)
      (refl, tt)
change-IsHashed (inserted false e) table h = h
change-IsHashed (deleted true blake3) table h =
    All-keep_if IsHashed (λ row. not (row.blake3 == blake3)) table h
change-IsHashed (deleted false blake3) table h = h

run_changes-IsHashed :
    (cs : List Change) (table : Table) → All IsHashed table → All IsHashed (run_changes cs table)
unfolding run_changes
run_changes-IsHashed [] table h = h
run_changes-IsHashed (c ∷ cs) table h =
    run_changes-IsHashed cs (change c table) (change-IsHashed c table h)

has_store_hash-only :
    (hash : Bytes) (o : Option Bytes) → has_store_hash hash o ≡ true → o ≡ some hash
unfolding has_store_hash
has_store_hash-only hash none h = cc
has_store_hash-only hash (some s) h = ap some ((eq_bytes.beq_iff s hash).0 h)

-- The row that a lookup by the column finds has the hash that was asked for.
first_row-hash :
    (hash : Bytes) (table : Table) (u : EntryTuple)
    → All IsHashed table
    → first_row (λ row. has_store_hash hash row.store_hash) table ≡ some u
    → extract_store_hash u.store_path ≡ some hash
unfolding first_row row_to_entry_tuple
first_row-hash hash [] u h found = cc
first_row-hash hash (row ∷ rows) u (here, h) found =
    elim (Bool-cases (has_store_hash hash row.store_hash)) [
      | inl e ↦
          let same : row_to_entry_tuple row ≡ u = ground (arith, e, found) in
          ap (λ (v : EntryTuple). extract_store_hash v.store_path) (sym same)
          ∙ sym here
          ∙ has_store_hash-only hash row.store_hash e
      | inr e ↦ first_row-hash hash rows u h (ground (arith, e, found))
    ]

-- An index that is opened on a table of any older schema, and then changed in any way: an entry that is
-- found by a store hash has a store path with that hash.
get_by_store_hash-agrees :
    (db : Database) (cs : List Change) (hash : Bytes) (e : HashEntry)
    → IsDatabase db
    → get_by_store_hash true hash (run_changes cs (init_schema db).rows) ≡ ok (some e)
    → extract_store_hash e.store_path ≡ some hash
unfolding get_by_store_hash
get_by_store_hash-agrees db cs hash e h found =
    let table = run_changes cs (init_schema db).rows in
    let (u, at, is) = get-read (λ row. has_store_hash hash row.store_hash) table e found in
    let (first, second, third) = tuple_to_entry_keys u e is in
    rw third (
      first_row-hash hash table u
        (run_changes-IsHashed cs (init_schema db).rows (init_schema-IsHashed db h)) at)
