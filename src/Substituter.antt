-- ===== src/Substituter.antt =====
-- iroh-nix/src/substituter.rs: the HTTP binary cache. A connection is the bytes that it holds, then the
-- end of the stream; a handler returns what it writes, with its result. Hexadecimal is foreign.
pub mod Http
pub mod Heads
pub mod GossipHits
pub mod Fields
pub mod Parsed
mod Tests
mod ParsedTests
use iroh_nix.Support.{
  ℕ, zero, suc, ◌+◌, ◌-◌, ◌*◌, ◌/◌, ◌%◌, ◌^◌, ◌≤◌, ◌<◌, min, ◌≡◌, refl, sym, ap, ◌∙◌, ◌≢◌, ◌↔◌, ◌⊎◌,
  inl, inr, Bool, true, false, not, ◌&&◌, ◌||◌, Option, none, some, List, [], ◌∷◌, ◌++◌, map,
  reverse, append-nil, append_assoc, arith, ltb, leb, nat_eq, if◌then◌else◌, ltb→lt, lt→ltb, leb→le,
  nat_eq_iff, Bool-cases, Option-cases, Bytes, codes, bytes_eq, bytes_eq_iff, Eq, ◌==◌, eq_nat,
  eq_bytes, ==-refl, contains, length, take, drop, replicate, All, all, length-append,
  take-append-drop, length-take, length-drop, length-replicate, All-append, All-parts, take-append,
  drop-append, keep_if,
}
use iroh_nix.Support.Texts.{strip_prefix, before_char, split_whitespace, join}
use iroh_nix.Support.Lines.{decimal}
use iroh_nix.Error.{Error, internal, Result, ok, err, panic, ◌>>=◌}
use iroh_nix.HashIndex.Entries.{HashEntry, store_path_basename, references_to_basenames}
use iroh_nix.HashIndex.{Table, get_by_store_hash, get_by_blake3}
use iroh_nix.Substituter.Http.{
  trim_start_matches, trim_end_matches, is_some, ends_with, crlf, Reply, replied, response_head,
  send_response, nar_head, read_line, skip_headers,
}
use iroh_nix.Nix32.{to_nix_base32}
use iroh_nix.Gossip.{ProviderInfo, ProviderCache, get_providers, or_default}
use iroh_nix.Transfer.{NarResponseHeader}
use iroh_nix.Transfer.Server.{write_chunks}

abbrev pub bad_request : Bytes → Bool → Reply
bad_request = send_response 400 (codes "Bad Request") (codes "text/plain")

abbrev pub not_found : Bytes → Bool → Reply
not_found = send_response 404 (codes "Not Found") (codes "text/plain")

unfoldable pub cache_info : ℕ → Bytes
cache_info priority =
    codes "StoreDir: /nix/store"
    ++ (10 ∷ codes "WantMassQuery: 1" ++ (10 ∷ codes "Priority: " ++ (decimal priority ++ 10 ∷ [])))

unfoldable pub handle_cache_info : ℕ → Bool → Reply
handle_cache_info priority is_head =
    send_response 200 (codes "OK") (codes "text/x-nix-cache-info") (cache_info priority) is_head

-- `.ok().flatten()`
unfoldable pub found_entry : Result (Option HashEntry) → Option HashEntry
found_entry (ok entry) = entry
found_entry (err e) = none
found_entry panic = none

unfoldable pub deriver_line : Option Bytes → Bytes
deriver_line none = []
deriver_line (some deriver) = elim (store_path_basename deriver) [
  | none ↦ []
  | some basename ↦ codes "Deriver: " ++ (basename ++ 10 ∷ [])
]

unfoldable pub narinfo_body : (Bytes → Bytes) → HashEntry → Bytes
narinfo_body hex_encode entry =
    codes "StorePath: "
    ++ (entry.store_path
        ++ (10 ∷ codes "URL: nar/"
            ++ (hex_encode entry.blake3
                ++ (codes ".nar"
                    ++ (10 ∷ codes "Compression: none"
                        ++ (10 ∷ codes "NarHash: sha256:"
                            ++ (to_nix_base32 entry.sha256
                                ++ (10 ∷ codes "NarSize: "
                                    ++ (decimal entry.nar_size
                                        ++ (10 ∷ codes "References: "
                                            ++ (join (references_to_basenames entry.references)
                                                ++ 10 ∷ deriver_line entry.deriver)))))))))))

unfoldable pub narinfo_reply : (Bytes → Bytes) → Option HashEntry → Bool → Reply
narinfo_reply hex_encode none is_head = not_found (codes "Not Found") is_head
narinfo_reply hex_encode (some entry) is_head =
    send_response 200 (codes "OK") (codes "text/x-nix-narinfo") (narinfo_body hex_encode entry)
      is_head

abbrev pub unknown_hash : Bytes
unknown_hash = replicate 32 0

unfoldable pub is_hash : Bytes → Option Bytes → Bool
is_hash store_hash none = false
is_hash store_hash (some h) = h == store_hash

module _ {EndpointId : Type 0} where
  unfoldable pub provider_hash : ProviderInfo EndpointId → Option Bytes
  provider_hash provider = elim (store_path_basename provider.store_path) [
    | none ↦ none
    | some basename ↦ some (before_char 45 basename)
  ]

  abbrev pub partial_entry : ProviderInfo EndpointId → HashEntry
  partial_entry provider = record {
    blake3 = unknown_hash;
    sha256 = unknown_hash;
    store_path = provider.store_path;
    nar_size = provider.nar_size;
    references = [];
    deriver = none;
  }

  unfoldable pub find_provider : Bytes → List (ProviderInfo EndpointId) → Option HashEntry
  find_provider store_hash [] = none
  find_provider store_hash (p ∷ ps) =
      let rest = find_provider store_hash ps in
      if is_hash store_hash (provider_hash p) then some (partial_entry p) else rest

  -- The values of the map in the order of iteration.
  unfoldable pub find_in_cache : Bytes → ProviderCache EndpointId → Option HashEntry
  find_in_cache store_hash [] = none
  find_in_cache store_hash ((k, providers) ∷ cache) =
      let rest = find_in_cache store_hash cache in
      elim (find_provider store_hash providers) [ none ↦ rest | some e ↦ some e ]

  unfoldable pub try_find_via_gossip : Bytes → Option (ProviderCache EndpointId) → Option HashEntry
  try_find_via_gossip store_hash none = none
  try_find_via_gossip store_hash (some cache) = find_in_cache store_hash cache

  unfoldable pub or_gossip :
      Option HashEntry → Bytes → Option (ProviderCache EndpointId) → Option HashEntry
  or_gossip (some e) hash_part p2p = some e
  or_gossip none hash_part p2p = try_find_via_gossip hash_part p2p

-- What the server uses of the system: which paths are on disk, `nar::serialize_path`, hexadecimal, whether
-- SQLite answers, and the transfer of a NAR from a peer.
pub record Services (EndpointId : Type 0) : Type 0 where
  pub exists : Bytes → Bool
  pub serialize_path : Bytes → Result Bytes
  pub hex_encode : Bytes → Bytes
  pub hex_decode : Bytes → Option Bytes
  pub answers : Bool
  pub fetch_nar : EndpointId → Bytes → Result (NarResponseHeader × Bytes)

module _ {EndpointId : Type 0} ⦃e : Eq EndpointId⦄ (s : Services EndpointId) (index : Table)
    (p2p : Option (ProviderCache EndpointId)) where
  unfoldable pub requested_entry : Bytes → Option HashEntry
  requested_entry path =
      let hash_part = trim_end_matches (codes ".narinfo") (trim_start_matches (codes "/") path) in
      or_gossip (found_entry (get_by_store_hash s.answers hash_part index)) hash_part p2p

  unfoldable pub handle_narinfo : Bytes → Bool → Reply
  handle_narinfo path is_head = narinfo_reply s.hex_encode (requested_entry path) is_head

  unfoldable pub try_providers : Bytes → List (ProviderInfo EndpointId) → Option Bytes
  try_providers blake3 [] = none
  try_providers blake3 (p ∷ ps) =
      let rest = try_providers blake3 ps in
      elim (s.fetch_nar p.endpoint_id blake3) [
        | ok (header, nar_data) ↦ some nar_data
        | err x ↦ rest
        | panic ↦ rest
      ]

  unfoldable pub try_fetch_nar_from_peer : Bytes → Option Bytes
  try_fetch_nar_from_peer blake3 = elim p2p [
    | none ↦ none
    | some cache ↦ try_providers blake3 (or_default (get_providers blake3 cache))
  ]

  -- A task that panics ends in the error of the join.
  unfoldable pub serve_local : HashEntry → Bool → Reply
  serve_local entry is_head =
      let head = nar_head entry.nar_size in
      if is_head then replied head else elim (s.serialize_path entry.store_path) [
        | ok nar_data ↦ replied (head ++ write_chunks (length nar_data) nar_data)
        | err x ↦ record { sent = head; result = err x }
        | panic ↦ record { sent = head; result = err (internal (codes "spawn_blocking failed: ")) }
      ]

  unfoldable pub serve_fetched : Option Bytes → Bool → Reply
  serve_fetched none is_head = not_found (codes "Store path not found") is_head
  serve_fetched (some nar_data) is_head =
      let head = nar_head (length nar_data) in
      replied (if not is_head then head ++ write_chunks (length nar_data) nar_data else head)

  unfoldable pub serve_entry : Bytes → Option HashEntry → Bool → Reply
  serve_entry blake3 none is_head = not_found (codes "Not Found") is_head
  serve_entry blake3 (some entry) is_head =
      if s.exists entry.store_path
      then serve_local entry is_head
      else serve_fetched (try_fetch_nar_from_peer blake3) is_head

  unfoldable pub serve_hash : Option Bytes → Bool → Reply
  serve_hash none is_head = bad_request (codes "Invalid hash") is_head
  serve_hash (some blake3) is_head =
      if nat_eq (length blake3) 32
      then serve_entry blake3 (found_entry (get_by_blake3 s.answers blake3 index)) is_head
      else bad_request (codes "Invalid hash") is_head

  unfoldable pub requested_hash : Bytes → Option Bytes
  requested_hash path =
      s.hex_decode (trim_end_matches (codes ".nar") (trim_start_matches (codes "/nar/") path))

  unfoldable pub handle_nar : Bytes → Bool → Reply
  handle_nar path is_head = serve_hash (requested_hash path) is_head

  unfoldable pub route : ℕ → Bytes → Bool → Reply
  route priority path is_head =
      if path == codes "/nix-cache-info"
      then handle_cache_info priority is_head
      else if ends_with (codes ".narinfo") path
      then handle_narinfo path is_head
      else if is_some (strip_prefix (codes "/nar/") path) && ends_with (codes ".nar") path
      then handle_nar path is_head
      else not_found (codes "Not Found") is_head

  unfoldable pub answer_method : ℕ → Bytes → Bytes → Reply
  answer_method priority method path =
      if not (method == codes "GET") && not (method == codes "HEAD")
      then send_response 405 (codes "Method Not Allowed") (codes "text/plain")
          (codes "Method Not Allowed") false
      else route priority path (method == codes "HEAD")

  unfoldable pub answer_parts : ℕ → List Bytes → Bytes → Reply
  answer_parts priority [] rest = bad_request (codes "Bad Request") false
  answer_parts priority (method ∷ []) rest = bad_request (codes "Bad Request") false
  answer_parts priority (method ∷ path ∷ more) rest = elim (skip_headers (suc (length rest)) rest) [
    | ok after ↦ answer_method priority method path
    | err x ↦ record { sent = []; result = err x }
    | panic ↦ record { sent = []; result = panic }
  ]

  unfoldable pub handle_connection : ℕ → Bytes → Reply
  handle_connection priority input = elim (read_line input) [
    | ok (request_line, rest) ↦ answer_parts priority (split_whitespace request_line) rest
    | err x ↦ record { sent = []; result = err x }
    | panic ↦ record { sent = []; result = panic }
  ]
