-- ===== src/Node/Tests.antt =====
-- A node that fetches a NAR from a peer whose header names another store path.
use iroh_nix.Support.{
  ◌≡◌, refl, true, false, none, some, [], ◌∷◌, arith, Bytes, codes, bytes_eq, eq_nat, eq_bytes,
  length, replicate,
}
use iroh_nix.Error.{protocol, ok, err}
use iroh_nix.HashIndex.{Table, get_by_blake3, get_by_store_path}
use iroh_nix.HashIndex.RoundTrip.{IsEntry}
use iroh_nix.Retry.{Floats, RetryConfig, with_retry, with_retry_stats, retry_loop}
use iroh_nix.Transfer.{NarResponseHeader, Postcard, framed, read_or, decoded}
use iroh_nix.Support.Words.{from_le_bytes}
use iroh_nix.Transfer.Client.{
  Peer, fetch_nar_with_config, fetch_nar_once, read_nar_response, read_answer, read_header,
  read_header_body, decode_header, accepted, verified, check_hash, read_nar_data, read_some,
}
use iroh_nix.Transfer.Verified.{IsVerified}
use iroh_nix.Node.{System, fetch_from_with_config}
use iroh_nix.Node.Fetches.{described, shown_import, fetch_from_with_config-Indexed}

abbrev header : NarResponseHeader
header = record { size = 3; sha256 = replicate 32 4; store_path = codes "/nix/store/abc-hello" }

-- An encoding of this one header.
abbrev codec : Postcard
codec = record {
  encode_request = λ r. [];
  decode_request = λ s. none;
  encode_header = λ h. 1 ∷ [];
  decode_header = λ s. some header;
}

abbrev hash : Bytes → Bytes
hash s = replicate 32 (length s)

abbrev peer : Peer
peer = record {
  connects = true;
  opens = true;
  answer = λ request. 1 ∷ 1 ∷ 0 ∷ 0 ∷ 0 ∷ 1 ∷ 5 ∷ 6 ∷ 7 ∷ [];
  chunk = λ input n. n;
  from_utf8_lossy = λ s. s;
}

-- Numbers without a value, where no delay depends on one.
abbrev still : Floats (Unit {0})
still = record {
  zero_point = tt;
  one_half = tt;
  two = tt;
  as_secs_f64 = λ n. tt;
  from_secs_f64 = λ x. 0;
  times = λ x y. tt;
  plus = λ x y. tt;
  minus = λ x y. tt;
  smaller = λ x y. tt;
  larger = λ x y. tt;
  powi = λ x n. tt;
  exceeds = λ x y. false;
  random = λ attempt. tt;
}

abbrev config : RetryConfig (Unit {0})
config = record {
  max_retries = 3;
  initial_delay = 1;
  max_delay = 9;
  backoff_multiplier = tt;
  jitter = tt;
}

abbrev system : System
system = record {
  query = λ path. err (protocol []);
  base64_decode = λ s. none;
  serialize_path = λ path. err (protocol []);
  stores = true;
}

fetched :
    fetch_nar_with_config still codec hash (λ k. peer) config (replicate 32 3)
    ≡ ok (header, 5 ∷ 6 ∷ 7 ∷ [])
unfolding fetch_nar_with_config with_retry with_retry_stats retry_loop fetch_nar_once
    read_nar_response read_answer read_header read_header_body decode_header accepted verified
    check_hash read_nar_data read_some framed read_or decoded from_le_bytes bytes_eq
fetched = refl

described-IsEntry : IsEntry (described system (replicate 32 3) header)
described-IsEntry = record {
  blake3_length = refl;
  sha256_length = refl;
  size_fits = omega arith;
  references_stored = tt;
  deriver_stored = tt;
}

fetch_from_with_config-Indexed_example :
    (next : Table) × (fetch_from_with_config system still codec hash
        (λ k. peer)
        config
        (replicate 32 3)
        []
      ≡ (next, ok (shown_import (replicate 32 3) header, 5 ∷ 6 ∷ 7 ∷ [])))
    × IsVerified codec hash (replicate 32 3) (header, 5 ∷ 6 ∷ 7 ∷ [])
    × (get_by_blake3 true (replicate 32 3) next
        ≡ ok (some (described system (replicate 32 3) header)))
    × (get_by_store_path true header.store_path next
        ≡ ok (some (described system (replicate 32 3) header)))
fetch_from_with_config-Indexed_example =
    fetch_from_with_config-Indexed system still codec hash (λ k. peer) config (replicate 32 3)
      (5 ∷ 6 ∷ 7 ∷ []) header [] (omega arith) refl fetched described-IsEntry
