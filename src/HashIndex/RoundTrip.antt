-- ===== src/HashIndex/RoundTrip.antt =====
-- iroh-nix/src/hash_index.rs: what the index returns of an entry that was inserted.
use iroh_nix.Support.{
  ℕ, ◌^◌, ◌<◌, ◌≡◌, refl, sym, ap, ◌∙◌, ◌≢◌, Bool, true, false, not, Option, none, some, List, [],
  ◌∷◌, ◌++◌, map, arith, Bytes, ◌==◌, eq_nat, eq_bytes, ==-refl, length, All, keep_if, is_empty,
}
use iroh_nix.Support.Texts.{
  strip_prefix, join, IsGraphic, strip_prefix-append, split_whitespace-join,
}
use iroh_nix.Error.{ok, ◌>>=◌}
use iroh_nix.HashIndex.Entries.{
  HashEntry, Row, as_i64, as_u64, store_dir, to_row, row_to_entry_tuple, tuple_to_entry,
  blake3_from_slice, sha256_from_slice, from_slice, store_path_basename, full_deriver,
  deriver_basename, references_to_basenames, basenames_to_references,
}
use iroh_nix.HashIndex.{
  Table, insert, insert_or_replace, shares_key, first_row, query_row, get_by_blake3, get_by_sha256,
  get_by_store_path, optional_tuple_to_entry, execute,
}

-- A path below the store, whose name has printable characters only, and at least one.
abbrev pub IsStored : Bytes → Type 0
IsStored path = (name : Bytes) × (path ≡ store_dir ++ name) × (name ≢ []) × IsGraphic name

abbrev pub IsStoredOption : Option Bytes → Type 0
IsStoredOption none = Unit
IsStoredOption (some d) = IsStored d

-- An entry that a row can hold.
pub record IsEntry (e : HashEntry) : Type 0 where
  pub blake3_length : length e.blake3 ≡ 32
  pub sha256_length : length e.sha256 ≡ 32
  pub size_fits : e.nar_size < 2 ^ 64
  pub references_stored : All IsStored e.references
  pub deriver_stored : IsStoredOption e.deriver

as_u64-as_i64 : (n : ℕ) → n < 2 ^ 64 → as_u64 (as_i64 n) ≡ n
unfolding as_u64 as_i64
as_u64-as_i64 n h = ground arith

pub store_path_basename-below : (name : Bytes) → store_path_basename (store_dir ++ name) ≡ some name
unfolding store_path_basename
store_path_basename-below name = strip_prefix-append store_dir name

full_deriver-basename :
    (d : Option Bytes) → IsStoredOption d → full_deriver (deriver_basename d) ≡ d
unfolding full_deriver deriver_basename
full_deriver-basename none h = refl
full_deriver-basename (some d) (name, at, full, graphic) =
    rw (at, store_path_basename-below name) refl

references_to_basenames-stored :
    (r name : Bytes) (rs : List Bytes)
    → store_path_basename r ≡ some name
    → references_to_basenames (r ∷ rs) ≡ name ∷ references_to_basenames rs
unfolding references_to_basenames store_path_basename strip_prefix
references_to_basenames-stored r name rs h = rw h refl

-- The names below the store.
pub basenames :
    (rs : List Bytes)
    → All IsStored rs
    → (ws : List Bytes) × (references_to_basenames rs ≡ ws)
      × All (λ w. (w ≢ []) × IsGraphic w) ws
      × (map (λ w. store_dir ++ w) ws ≡ rs)
unfolding references_to_basenames
basenames [] h = ([], refl, tt, refl)
basenames (r ∷ rs) ((name, at, full, graphic), more) =
    let (ws, split, good, back) = basenames rs more in
    (
      name ∷ ws,
      references_to_basenames-stored r name rs (rw at (store_path_basename-below name))
          ∙ ap (◌∷◌ name) split,
      ((full, graphic), good),
      rw (at, back) refl,
    )

keep_full :
    (ws : List Bytes)
    → All (λ w. (w ≢ []) × IsGraphic w) ws
    → keep_if (λ w. not (is_empty w)) ws ≡ ws
unfolding is_empty
keep_full [] h = refl
keep_full ([] ∷ ws) h = elim (h.0.0 refl) [ ]
keep_full ((b ∷ w) ∷ ws) h = ap (◌∷◌ (b ∷ w)) (keep_full ws h.1)

pub basenames_to_references-to_basenames :
    (rs : List Bytes)
    → All IsStored rs
    → basenames_to_references (join (references_to_basenames rs)) ≡ rs
unfolding basenames_to_references
basenames_to_references-to_basenames rs h =
    let (ws, split, good, back) = basenames rs h in
    rw (split, split_whitespace-join ws good, keep_full ws good) back

pub tuple_to_entry-to_row :
    (e : HashEntry) → IsEntry e → tuple_to_entry (row_to_entry_tuple (to_row e)) ≡ ok e
unfolding tuple_to_entry row_to_entry_tuple to_row blake3_from_slice sha256_from_slice from_slice
tuple_to_entry-to_row e h =
    rw
      (
        h.blake3_length,
        h.sha256_length,
        as_u64-as_i64 e.nar_size h.size_fits,
        basenames_to_references-to_basenames e.references h.references_stored,
        full_deriver-basename e.deriver h.deriver_stored,
      )
      refl

-- A test that no kept row passes finds the row behind them.
first_row-kept :
    (test keeps : Row → Bool) (row : Row) (table : Table)
    → ((old : Row) → test old ≡ true → keeps old ≡ false)
    → test row ≡ true
    → first_row test (keep_if keeps table ++ row ∷ []) ≡ some (row_to_entry_tuple row)
unfolding first_row
first_row-kept test keeps row [] h hit = rw hit refl
first_row-kept test keeps row (old ∷ rows) h hit =
    ground (arith, h old, first_row-kept test keeps row rows h hit)

get-insert :
    (test : Row → Bool) (e : HashEntry)
    → IsEntry e
    → (table next : Table) → insert true e table ≡ ok next
    → ((old : Row) → test old ≡ true → not (shares_key (to_row e) old) ≡ false)
    → test (to_row e) ≡ true
    → (query_row true test next >>= optional_tuple_to_entry) ≡ ok (some e)
unfolding insert insert_or_replace execute query_row optional_tuple_to_entry
get-insert test e h table next done found hit =
    let at =
      first_row-kept test (λ old. not (shares_key (to_row e) old)) (to_row e) table found hit in
    let same : insert_or_replace (to_row e) table ≡ next = cc in
    rw (sym same, insert_or_replace, at, optional_tuple_to_entry, tuple_to_entry-to_row e h) refl

-- An entry with hashes of 32 bytes, a size below 2^64, and references and deriver below /nix/store with
-- printable names: where it has been inserted, it is found again, the same, under each of its three keys.
pub insert-get :
    (e : HashEntry)
    → IsEntry e
    → (table next : Table) → insert true e table ≡ ok next
    → (get_by_blake3 true e.blake3 next ≡ ok (some e))
      × (get_by_sha256 true e.sha256 next ≡ ok (some e))
      × (get_by_store_path true e.store_path next ≡ ok (some e))
unfolding get_by_blake3 get_by_sha256 get_by_store_path shares_key to_row
insert-get e h table next done = (
  get-insert (λ row. row.blake3 == e.blake3) e h table next done
      (λ old hit. ground (arith, hit, eq_bytes.beq_iff old.blake3 e.blake3)) (==-refl e.blake3),
  get-insert (λ row. row.sha256 == e.sha256) e h table next done (λ old hit. ground (arith, hit))
      (==-refl e.sha256),
  get-insert (λ row. row.store_path == e.store_path) e h table next done
      (λ old hit. ground (arith, hit)) (==-refl e.store_path),
)
