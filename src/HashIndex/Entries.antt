-- ===== src/HashIndex/Entries.antt =====
-- iroh-nix/src/hash_index.rs: an entry of the index, the row that it is stored as, and back.
-- A hash is its bytes, a text its UTF-8 bytes.
use iroh_nix.Support.{
  ℕ, ◌-◌, ◌^◌, not, Option, none, some, List, [], ◌∷◌, ◌++◌, map, ltb, nat_eq, if◌then◌else◌, Bytes,
  codes, eq_nat, eq_bytes, length, keep_if, is_empty,
}
use iroh_nix.Support.Texts.{strip_prefix, before_char, split_whitespace, join}
use iroh_nix.Error.{protocol, Result, ok, err, ◌>>=◌}

-- `Blake3Hash::from_slice` and `Sha256Hash::from_slice`, with the message of each
unfoldable pub from_slice : Bytes → Bytes → Result Bytes
from_slice message slice = if nat_eq (length slice) 32 then ok slice else err (protocol message)

unfoldable pub blake3_from_slice : Bytes → Result Bytes
unfolding from_slice
blake3_from_slice = from_slice (codes "invalid blake3 hash length")

unfoldable pub sha256_from_slice : Bytes → Result Bytes
unfolding from_slice
sha256_from_slice = from_slice (codes "invalid sha256 hash length")

pub record HashEntry : Type 0 where
  pub blake3 : Bytes
  pub sha256 : Bytes
  pub store_path : Bytes
  pub nar_size : ℕ
  pub references : List Bytes
  pub deriver : Option Bytes

-- An `i64`: n, or - (n + 1).
pub data ℤ : Type 0 where
  pos : ℕ → ℤ
  negsuc : ℕ → ℤ

-- `n as i64` of a `u64`, and back
unfoldable pub as_i64 : ℕ → ℤ
as_i64 n = if ltb n (2 ^ 63) then pos n else negsuc (2 ^ 64 - 1 - n)

unfoldable pub as_u64 : ℤ → ℕ
as_u64 (pos n) = n
as_u64 (negsuc n) = 2 ^ 64 - 1 - n

-- A row of the table `hash_index`.
pub record Row : Type 0 where
  pub blake3 : Bytes
  pub sha256 : Bytes
  pub store_path : Bytes
  pub nar_size : ℤ
  pub store_hash : Option Bytes
  pub references : Bytes
  pub deriver : Option Bytes

-- A row that `query_row` has read.
pub record EntryTuple : Type 0 where
  pub blake3_bytes : Bytes
  pub sha256_bytes : Bytes
  pub store_path : Bytes
  pub nar_size : ℤ
  pub references_str : Bytes
  pub deriver : Option Bytes

abbrev pub store_dir : Bytes
store_dir = codes "/nix/store/"

unfoldable pub store_path_basename : Bytes → Option Bytes
store_path_basename path = strip_prefix store_dir path

unfoldable pub references_to_basenames : List Bytes → List Bytes
references_to_basenames [] = []
references_to_basenames (r ∷ rs) =
    let more = references_to_basenames rs in
    elim (store_path_basename r) [ none ↦ more | some s ↦ s ∷ more ]

-- `split_whitespace` gives no empty word, so that the `filter` keeps every one.
unfoldable pub basenames_to_references : Bytes → List Bytes
unfolding is_empty
basenames_to_references s =
    map (λ w. store_dir ++ w) (keep_if (λ w. not (is_empty w)) (split_whitespace s))

unfoldable pub extract_store_hash : Bytes → Option Bytes
extract_store_hash store_path = elim (strip_prefix store_dir store_path) [
  | none ↦ none
  | some s ↦ some (before_char 45 s)
]

-- `and_then(store_path_basename)`
unfoldable pub deriver_basename : Option Bytes → Option Bytes
deriver_basename none = none
deriver_basename (some d) = store_path_basename d

unfoldable pub to_row : HashEntry → Row
unfolding extract_store_hash references_to_basenames deriver_basename as_i64
to_row e = record {
  blake3 = e.blake3;
  sha256 = e.sha256;
  store_path = e.store_path;
  nar_size = as_i64 e.nar_size;
  store_hash = extract_store_hash e.store_path;
  references = join (references_to_basenames e.references);
  deriver = deriver_basename e.deriver;
}

unfoldable pub row_to_entry_tuple : Row → EntryTuple
row_to_entry_tuple row = record {
  blake3_bytes = row.blake3;
  sha256_bytes = row.sha256;
  store_path = row.store_path;
  nar_size = row.nar_size;
  references_str = row.references;
  deriver = row.deriver;
}

unfoldable pub full_deriver : Option Bytes → Option Bytes
full_deriver none = none
full_deriver (some d) = some (store_dir ++ d)

unfoldable pub tuple_to_entry : EntryTuple → Result HashEntry
unfolding blake3_from_slice sha256_from_slice basenames_to_references full_deriver as_u64
tuple_to_entry t = do
  blake3 ← blake3_from_slice t.blake3_bytes
  sha256 ← sha256_from_slice t.sha256_bytes
  ok (record {
    blake3 = blake3;
    sha256 = sha256;
    store_path = t.store_path;
    nar_size = as_u64 t.nar_size;
    references = basenames_to_references t.references_str;
    deriver = full_deriver t.deriver;
  })
