-- ===== src/Node.antt =====
-- iroh-nix/src/node.rs: what a node does to its index. The endpoint, Nix and the announcements by gossip are
-- foreign: parameters. Each function returns the index that it leaves and its result.
pub mod Builds
pub mod Fetches
mod Tests
use iroh_nix.Support.{
  ℕ, zero, suc, ◌+◌, ◌-◌, ◌*◌, ◌/◌, ◌%◌, ◌^◌, ◌≤◌, ◌<◌, min, ◌≡◌, refl, sym, ap, ◌∙◌, ◌≢◌, ◌↔◌, ◌⊎◌,
  inl, inr, Bool, true, false, not, ◌&&◌, ◌||◌, Option, none, some, List, [], ◌∷◌, ◌++◌, map,
  reverse, append-nil, append_assoc, arith, ltb, leb, nat_eq, if◌then◌else◌, ltb→lt, lt→ltb, leb→le,
  nat_eq_iff, Bool-cases, Option-cases, Bytes, codes, bytes_eq, bytes_eq_iff, Eq, ◌==◌, eq_nat,
  eq_bytes, ==-refl, contains, length, take, drop, replicate, All, all, length-append,
  take-append-drop, length-take, length-drop, length-replicate, All-append, All-parts, take-append,
  drop-append, keep_if, is_empty,
}
use iroh_nix.Error.{Error, Result, ok, err, panic, ◌>>=◌}
use iroh_nix.HashIndex.Entries.{HashEntry}
use iroh_nix.HashIndex.{Table, insert, get_by_blake3, list_all}
use iroh_nix.Nar.Hashing.{NarInfo}
use iroh_nix.NixInfo.{NixPathInfo, sha256_bytes}
use iroh_nix.Retry.{Floats, RetryConfig}
use iroh_nix.Transfer.{NarResponseHeader, Postcard}
use iroh_nix.Transfer.Client.{Peer, fetch_nar_with_config}

pub record ImportResult : Type 0 where
  pub store_path : Bytes
  pub blake3 : Bytes
  pub sha256 : Bytes
  pub nar_size : ℕ

pub record NodeStats : Type 0 where
  pub endpoint_id : Bytes
  pub entry_count : ℕ
  pub total_blob_size : ℕ

-- What a node uses: `nix path-info`, base64, `serialize_path_to_writer` of a path on disk, and whether
-- SQLite carries out an insertion.
pub record System : Type 0 where
  pub query : Bytes → Result NixPathInfo
  pub base64_decode : Bytes → Option Bytes
  pub serialize_path : Bytes → Result NarInfo
  pub stores : Bool

-- The index after an insertion, with the result that follows it.
unfoldable pub inserted {ℓ} : {A : Type ℓ} → Table → Result Table → A → Table × Result A
inserted table (ok next) a = (next, ok a)
inserted table (err e) a = (table, err e)
inserted table panic a = (table, panic)

unfoldable pub has_indexed : Bool → Bytes → Table → Result Bool
has_indexed answers blake3 table = do
  entry ← get_by_blake3 answers blake3 table
  ok (elim entry [ none ↦ false | some x ↦ true ])

-- `entries.iter().map(|e| e.nar_size).sum()`, which in a release build wraps around
unfoldable pub total_size : List HashEntry → ℕ
total_size [] = 0
total_size (entry ∷ entries) = (entry.nar_size + total_size entries) % 2 ^ 64

unfoldable pub stats : Bytes → Bool → Table → Result NodeStats
stats id answers table = do
  entries ← list_all answers table
  ok (record {
    endpoint_id = id;
    entry_count = length entries;
    total_blob_size = total_size entries;
  })

-- The references and the deriver, if the path is known to Nix.
unfoldable pub known_references : Result NixPathInfo → List Bytes × Option Bytes
known_references (ok nix_info) = (nix_info.references, nix_info.deriver)
known_references (err e) = ([], none)
known_references panic = ([], none)

unfoldable pub import_result : HashEntry → ImportResult
import_result entry = record {
  store_path = entry.store_path;
  blake3 = entry.blake3;
  sha256 = entry.sha256;
  nar_size = entry.nar_size;
}

module _ (system : System) where
  -- The metadata that Nix has, with the BLAKE3 hash of the archive.
  unfoldable pub entry_of_info : Bytes → Bytes → NixPathInfo → Result HashEntry
  entry_of_info store_path fs_path nix_info = do
    sha256 ← sha256_bytes system.base64_decode nix_info
    info ← system.serialize_path fs_path
    ok (record {
      blake3 = info.blake3;
      sha256 = sha256;
      store_path = store_path;
      nar_size = nix_info.nar_size;
      references = nix_info.references;
      deriver = nix_info.deriver;
    })

  unfoldable pub computed_entry : Bytes → Bytes → Result HashEntry
  computed_entry store_path fs_path = do
    info ← system.serialize_path fs_path
    ok (record {
      blake3 = info.blake3;
      sha256 = info.sha256;
      store_path = store_path;
      nar_size = info.nar_size;
      references = [];
      deriver = none;
    })

  unfoldable pub new_entry : Bytes → Bytes → Result HashEntry
  new_entry store_path fs_path = elim (system.query store_path) [
    | ok nix_info ↦ entry_of_info store_path fs_path nix_info
    | err e ↦ computed_entry store_path fs_path
    | panic ↦ panic
  ]

  -- A failed announcement is passed over.
  unfoldable pub index_store_path : Bytes → Bytes → Table → Table × Result HashEntry
  index_store_path store_path fs_path table = elim (new_entry store_path fs_path) [
    | ok entry ↦ inserted table (insert system.stores entry table) entry
    | err e ↦ (table, err e)
    | panic ↦ (table, panic)
  ]

  unfoldable pub fetched_entry : Bytes → NarResponseHeader → HashEntry
  fetched_entry blake3 header =
      let (references, deriver) = known_references (system.query header.store_path) in
      record {
        blake3 = blake3;
        sha256 = header.sha256;
        store_path = header.store_path;
        nar_size = header.size;
        references = references;
        deriver = deriver;
      }

  unfoldable pub record_fetch :
      Bytes → Table → Result (NarResponseHeader × Bytes) → Table × Result (ImportResult × Bytes)
  record_fetch blake3 table (ok (header, nar_data)) =
      let entry = fetched_entry blake3 header in
      inserted table (insert system.stores entry table) (import_result entry, nar_data)
  record_fetch blake3 table (err e) = (table, err e)
  record_fetch blake3 table panic = (table, panic)

  module _ {Float : Type 0} (floats : Floats Float) (postcard : Postcard)
      (blake3_hash : Bytes → Bytes) (peers : ℕ → Peer) where
    unfoldable pub fetch_from_with_config :
        RetryConfig Float → Bytes → Table → Table × Result (ImportResult × Bytes)
    fetch_from_with_config retry_config blake3 table =
        record_fetch blake3 table
          (fetch_nar_with_config floats postcard blake3_hash peers retry_config blake3)
