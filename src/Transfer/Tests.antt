-- ===== src/Transfer/Tests.antt =====
-- A node that has a NAR and a node that has not, asked by a client; a peer that answers nothing.
use iroh_nix.Support.{
  zero, suc, ◌≡◌, refl, true, false, Option, none, some, [], ◌∷◌, ◌++◌, arith, Bytes, codes,
  bytes_eq, eq_nat, eq_bytes, length, take, drop, replicate, take-append, drop-append,
}
use iroh_nix.Error.{protocol, ok, err}
use iroh_nix.Support.Texts.{split_whitespace, words_from, flush, join}
use iroh_nix.HashIndex.Entries.{
  HashEntry, to_row, row_to_entry_tuple, tuple_to_entry, blake3_from_slice, sha256_from_slice,
  from_slice, as_i64, as_u64, references_to_basenames, basenames_to_references, deriver_basename,
  full_deriver,
}
use iroh_nix.HashIndex.{
  Table, get_by_blake3, query_row, execute, first_row, optional_tuple_to_entry,
}
use iroh_nix.Retry.{Floats, RetryConfig, with_retry, with_retry_stats, retry_loop}
use iroh_nix.Transfer.{
  NarRequest, NarResponseHeader, Postcard, IsPostcard, by_blake3, by_store_path,
}
use iroh_nix.Transfer.Server.{Node, handle_nar_accepted}
use iroh_nix.Transfer.Client.{Peer, fetch_nar_once, fetch_nar_with_config}
use iroh_nix.Transfer.Verified.{IsVerified, fetch_nar_with_config-IsVerified}
use iroh_nix.Transfer.Exchange.{fetch_nar_once-served}

-- An encoding in place of postcard's.
abbrev encode_request : NarRequest → Bytes
encode_request (by_blake3 hash) = 0 ∷ hash
encode_request (by_store_path path) = 1 ∷ path

abbrev decode_request : Bytes → Option NarRequest
decode_request [] = none
decode_request (zero ∷ hash) = some (by_blake3 hash)
decode_request (suc n ∷ path) = some (by_store_path path)

abbrev decode_header : Bytes → Option NarResponseHeader
decode_header (size ∷ n ∷ rest) =
    some (record { size = size; sha256 = take n rest; store_path = drop n rest })
decode_header (size ∷ []) = none
decode_header [] = none

abbrev codec : Postcard
codec = record {
  encode_request = encode_request;
  decode_request = decode_request;
  encode_header = λ h. h.size ∷ length h.sha256 ∷ h.sha256 ++ h.store_path;
  decode_header = decode_header;
}

request_back : (r : NarRequest) → decode_request (encode_request r) ≡ some r
request_back (by_blake3 hash) = refl
request_back (by_store_path path) = refl

header_back : (h : NarResponseHeader) → decode_header (codec.encode_header h) ≡ some h
header_back h = rw (take-append h.sha256 h.store_path, drop-append h.sha256 h.store_path) refl

codec-IsPostcard : IsPostcard codec
codec-IsPostcard = record { request_back = request_back; header_back = header_back }

-- A hash in place of BLAKE3.
abbrev hash : Bytes → Bytes
hash s = replicate 32 (length s)

abbrev hello : HashEntry
hello = record {
  blake3 = replicate 32 3;
  sha256 = replicate 32 4;
  store_path = codes "/nix/store/abc-hello";
  nar_size = 3;
  references = [];
  deriver = none;
}

abbrev stored : Table
stored = to_row hello ∷ []

abbrev node : Node
node = record {
  exists = λ path. true;
  serialize_path = λ path. ok (5 ∷ 6 ∷ 7 ∷ []);
  query = λ path. err (protocol []);
  base64_decode = λ s. none;
  http_cache = none;
  answers = true;
  stores = true;
}

abbrev peer_of : Table → Peer
peer_of index = record {
  connects = true;
  opens = true;
  answer = λ request. (handle_nar_accepted codec node request index).sent;
  chunk = λ input n. n;
  from_utf8_lossy = λ s. s;
}

stored_is_found : get_by_blake3 true hello.blake3 stored ≡ ok (some hello)
unfolding get_by_blake3 query_row execute first_row row_to_entry_tuple to_row
    optional_tuple_to_entry tuple_to_entry blake3_from_slice sha256_from_slice from_slice as_i64
    as_u64 references_to_basenames basenames_to_references split_whitespace words_from flush join
    deriver_basename full_deriver bytes_eq
stored_is_found = refl

fetch_nar_once-served_example :
    fetch_nar_once codec hash (peer_of stored) hello.blake3
    ≡ ok (
      record { size = 3; sha256 = replicate 32 4; store_path = codes "/nix/store/abc-hello" },
      5 ∷ 6 ∷ 7 ∷ [],
    )
fetch_nar_once-served_example =
    fetch_nar_once-served codec codec-IsPostcard hash (peer_of stored) node stored hello.blake3
      hello (5 ∷ 6 ∷ 7 ∷ []) (λ b input n h. h) refl refl (λ request. refl) (omega arith)
      (omega arith) stored_is_found refl refl refl refl (omega arith)

-- Numbers without a value, where no delay depends on one.
abbrev still : Floats (Unit {0})
still = record {
  zero_point = tt;
  one_half = tt;
  two = tt;
  as_secs_f64 = λ n. tt;
  from_secs_f64 = λ x. 0;
  times = λ x y. tt;
  plus = λ x y. tt;
  minus = λ x y. tt;
  smaller = λ x y. tt;
  larger = λ x y. tt;
  powi = λ x n. tt;
  exceeds = λ x y. false;
  random = λ attempt. tt;
}

abbrev config : RetryConfig (Unit {0})
config = record {
  max_retries = 3;
  initial_delay = 1;
  max_delay = 9;
  backoff_multiplier = tt;
  jitter = tt;
}

fetch_nar_with_config-IsVerified_example : IsVerified codec hash hello.blake3 (
  record { size = 3; sha256 = replicate 32 4; store_path = codes "/nix/store/abc-hello" },
  5 ∷ 6 ∷ 7 ∷ [],
)
unfolding fetch_nar_with_config with_retry with_retry_stats retry_loop
fetch_nar_with_config-IsVerified_example =
    fetch_nar_with_config-IsVerified still codec hash (λ k. peer_of stored) config hello.blake3
      (
        record { size = 3; sha256 = replicate 32 4; store_path = codes "/nix/store/abc-hello" },
        5 ∷ 6 ∷ 7 ∷ [],
      )
      (omega arith) (rw fetch_nar_once-served_example refl)
