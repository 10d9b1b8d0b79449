-- ===== src/Transfer/Server.antt =====
-- iroh-nix/src/transfer.rs: how a node answers a request for a NAR.
use iroh_nix.Support.{
  ℕ, zero, suc, Bool, false, not, Option, none, some, [], ◌∷◌, ◌++◌, if◌then◌else◌, Bytes, codes,
  ◌==◌, eq_nat, eq_bytes, length, take, drop,
}
use iroh_nix.Error.{Error, protocol, Result, ok, err, panic, ◌>>=◌}
use iroh_nix.HashIndex.{Table, get_by_blake3, get_by_store_path, insert}
use iroh_nix.HttpCache.{FetchResult}
use iroh_nix.NixInfo.{NixPathInfo, sha256_bytes, is_valid_store_path}
use iroh_nix.Transfer.{
  by_blake3, by_store_path, NarResponseHeader, Postcard, framed, read_nar_request,
  send_error_response,
}

-- What a node has: which paths are on disk, `nar::serialize_path` of a path, `nix path-info`, base64,
-- `fetch_by_store_path` of the binary caches if there are any, and whether SQLite carries out the
-- queries and the insertions.
pub record Node : Type 0 where
  pub exists : Bytes → Bool
  pub serialize_path : Bytes → Result Bytes
  pub query : Bytes → Result NixPathInfo
  pub base64_decode : Bytes → Option Bytes
  pub http_cache : Option (Bytes → Result FetchResult)
  pub answers : Bool
  pub stores : Bool

-- What a handler has written, the index that it leaves, and its result.
pub record Served : Type 0 where
  pub sent : Bytes
  pub index : Table
  pub result : Result (Unit {0})

abbrev pub failed : Error → Table → Served
failed e index = record { sent = []; index = index; result = err e }

abbrev pub answered : Bytes → Table → Served
answered bytes index = record { sent = bytes; index = index; result = ok tt }

-- The loop over `data.chunks(TRANSFER_BUFFER_SIZE)`, with the rounds that are left.
unfoldable pub write_chunks : ℕ → Bytes → Bytes
write_chunks zero rest = []
write_chunks (suc fuel) [] = []
write_chunks (suc fuel) (b ∷ rest) =
    take 65536 (b ∷ rest) ++ write_chunks fuel (drop 65536 (b ∷ rest))

unfoldable pub success_header : Postcard → NarResponseHeader → Bytes
success_header postcard header = 1 ∷ framed (postcard.encode_header header)

module _ (postcard : Postcard) (node : Node) where
  -- A task that panics ends in the error of the join.
  unfoldable pub stream_nar_from_path : Bytes → ℕ → Bytes → Table → Served
  stream_nar_from_path store_path nar_size sha256 index =
      let head =
        success_header postcard
          (record { size = nar_size; sha256 = sha256; store_path = store_path }) in
      elim (node.serialize_path store_path) [
        | ok nar_data ↦ answered (head ++ write_chunks (length nar_data) nar_data) index
        | err e ↦ record { sent = head; index = index; result = err e }
        | panic ↦ record {
          sent = head;
          index = index;
          result = err (protocol (codes "NAR serialization task failed: "));
        }
      ]

  unfoldable pub mismatches : Option Bytes → Bytes → Bool
  mismatches none blake3 = false
  mismatches (some expected) blake3 = not (blake3 == expected)

  unfoldable pub proxied : FetchResult → Table → Served
  proxied r index =
      answered
        (success_header postcard
            (record { size = r.nar_size; sha256 = r.sha256; store_path = r.store_path })
          ++ write_chunks (length r.nar_data) r.nar_data)
        index

  unfoldable pub indexed : FetchResult → Table → Served
  indexed r index =
      elim (insert node.stores
        (record {
          blake3 = r.blake3;
          sha256 = r.sha256;
          store_path = r.store_path;
          nar_size = r.nar_size;
          references = r.references;
          deriver = r.deriver;
        })
        index) [
          | ok next ↦ proxied r next
          | err e ↦ failed e index
          | panic ↦ record { sent = []; index = index; result = panic }
        ]

  unfoldable pub fetch_and_stream_from_http :
      (Bytes → Result FetchResult) → Bytes → Option Bytes → Table → Served
  fetch_and_stream_from_http fetch store_path expected_blake3 index = elim (fetch store_path) [
    | ok result ↦
        if mismatches expected_blake3 result.blake3
        then failed (protocol (codes "BLAKE3 mismatch from HTTP cache: expected ")) index
        else indexed result index
    | err e ↦ failed e index
    | panic ↦ record { sent = []; index = index; result = panic }
  ]

  unfoldable pub handle_nar_by_blake3 : Bytes → Table → Served
  handle_nar_by_blake3 blake3 index = elim (get_by_blake3 node.answers blake3 index) [
    | err e ↦ failed e index
    | panic ↦ record { sent = []; index = index; result = panic }
    | ok none ↦ answered (send_error_response (codes "hash not found in index")) index
    | ok (some entry) ↦
        if node.exists entry.store_path
        then stream_nar_from_path entry.store_path entry.nar_size entry.sha256 index
        else elim node.http_cache [
          | some fetch ↦ fetch_and_stream_from_http fetch entry.store_path (some blake3) index
          | none ↦ answered (send_error_response (codes "store path not found on disk")) index
        ]
  ]

  -- The size and the hash that Nix has of a path.
  unfoldable pub queried : Bytes → Result (ℕ × Bytes)
  queried store_path = do
    info ← node.query store_path
    sha256 ← sha256_bytes node.base64_decode info
    ok (info.nar_size, sha256)

  unfoldable pub stream_on_demand : Bytes → Table → Served
  stream_on_demand store_path index = elim (queried store_path) [
    | ok (nar_size, sha256) ↦ stream_nar_from_path store_path nar_size sha256 index
    | err e ↦ failed e index
    | panic ↦ record { sent = []; index = index; result = panic }
  ]

  unfoldable pub handle_nar_by_store_path : Bytes → Table → Served
  handle_nar_by_store_path store_path index =
      if not (is_valid_store_path store_path)
      then answered (send_error_response (codes "invalid store path format")) index
      else if node.exists store_path
      then elim (get_by_store_path node.answers store_path index) [
        | err e ↦ failed e index
        | panic ↦ record { sent = []; index = index; result = panic }
        | ok (some entry) ↦ stream_nar_from_path store_path entry.nar_size entry.sha256 index
        | ok none ↦ stream_on_demand store_path index
      ]
      else elim node.http_cache [
        | some fetch ↦ fetch_and_stream_from_http fetch store_path none index
        | none ↦ answered (send_error_response (codes "store path not found")) index
      ]

  -- The stream has been accepted; `input` is what it holds.
  unfoldable pub handle_nar_accepted : Bytes → Table → Served
  handle_nar_accepted input index = elim (read_nar_request postcard input) [
    | err e ↦ failed e index
    | panic ↦ record { sent = []; index = index; result = panic }
    | ok (by_blake3 hash) ↦ handle_nar_by_blake3 hash index
    | ok (by_store_path store_path) ↦ handle_nar_by_store_path store_path index
  ]
