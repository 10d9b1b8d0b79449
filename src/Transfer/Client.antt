-- ===== src/Transfer/Client.antt =====
-- iroh-nix/src/transfer.rs: how a node fetches a NAR from another.
use iroh_nix.Support.{
  ℕ, zero, suc, ◌-◌, ◌*◌, min, Bool, not, Option, none, some, [], ◌∷◌, ◌++◌, ltb, if◌then◌else◌,
  Bytes, codes, ◌==◌, eq_nat, eq_bytes, length, take, drop,
}
use iroh_nix.Support.Words.{from_le_bytes}
use iroh_nix.Error.{Error, protocol, connection, remote, Result, ok, err, ◌>>=◌}
use iroh_nix.Retry.{Floats, RetryConfig, with_retry}
use iroh_nix.Transfer.{by_blake3, NarResponseHeader, Postcard, framed, read_or, decoded}

abbrev pub max_nar_size : ℕ
max_nar_size = 10 * 1024 * 1024 * 1024

-- The node that is asked: whether it is reached and opens a stream, and what it answers to the bytes
-- of a request; how many bytes `recv.read` gives of the rest, and `String::from_utf8_lossy`.
pub record Peer : Type 0 where
  pub connects : Bool
  pub opens : Bool
  pub answer : Bytes → Bytes
  pub chunk : Bytes → ℕ → ℕ
  pub from_utf8_lossy : Bytes → Bytes

-- `recv.read(&mut buf[..to_read])`: `None` at the end of the stream
unfoldable pub read_some : Peer → ℕ → Bytes → Option (Bytes × Bytes)
read_some peer to_read [] = none
read_some peer to_read (b ∷ input) =
    let n = min (peer.chunk (b ∷ input) to_read) to_read in
    some (take n (b ∷ input), drop n (b ∷ input))

abbrev pub unexpected_end : Error
unexpected_end = protocol (codes "unexpected end of stream")

-- The loop that reads the NAR, with the rounds that are left.
unfoldable pub read_nar_data : Peer → ℕ → ℕ → Bytes → Bytes → Result Bytes
read_nar_data peer fuel zero nar_data input = ok nar_data
read_nar_data peer zero (suc remaining) nar_data input = err unexpected_end
read_nar_data peer (suc fuel) (suc remaining) nar_data input =
    elim (read_some peer (min (suc remaining) 65536) input) [
      | none ↦ err unexpected_end
      | some ([], rest) ↦ err unexpected_end
      | some (b ∷ buf, rest) ↦
          read_nar_data peer fuel (suc remaining - length (b ∷ buf)) (nar_data ++ b ∷ buf) rest
    ]

module _ (postcard : Postcard) (blake3_hash : Bytes → Bytes) (peer : Peer) where
  unfoldable pub read_remote_error : Bytes → Result (NarResponseHeader × Bytes)
  read_remote_error input = do
    (len_buf, body) ← read_or (codes "failed to read error length: ") 4 input
    (msg_buf, rest) ←
        read_or (codes "failed to read error: ") (min (from_le_bytes len_buf) 1024) body
    err (remote (peer.from_utf8_lossy msg_buf))

  unfoldable pub accepted : Bytes → NarResponseHeader → Result (NarResponseHeader × Bytes)
  accepted rest header =
      if ltb max_nar_size header.size
      then err (protocol (codes "NAR too large: "))
      else ok (header, rest)

  unfoldable pub decode_header : Bytes × Bytes → Result (NarResponseHeader × Bytes)
  decode_header (header_buf, rest) =
      decoded (codes "invalid header: ") (postcard.decode_header header_buf) >>= accepted rest

  unfoldable pub read_header_body : Bytes × Bytes → Result (NarResponseHeader × Bytes)
  read_header_body (len_buf, body) =
      let header_len = from_le_bytes len_buf in
      if ltb (64 * 1024) header_len
      then err (protocol (codes "header too large"))
      else read_or (codes "failed to read header: ") header_len body >>= decode_header

  unfoldable pub read_header : Bytes → Result (NarResponseHeader × Bytes)
  read_header input = read_or (codes "failed to read header length: ") 4 input >>= read_header_body

  -- The NAR behind its header, and the check of its hash.
  unfoldable pub check_hash : Bytes → NarResponseHeader → Bytes → Result (NarResponseHeader × Bytes)
  check_hash blake3 header nar_data =
      if not (blake3_hash nar_data == blake3)
      then err (protocol (codes "BLAKE3 hash mismatch: expected "))
      else ok (header, nar_data)

  unfoldable pub verified : Bytes → NarResponseHeader × Bytes → Result (NarResponseHeader × Bytes)
  verified blake3 (header, rest) =
      read_nar_data peer header.size header.size [] rest >>= check_hash blake3 header

  -- What follows the status byte.
  unfoldable pub read_answer : Bytes → Bytes × Bytes → Result (NarResponseHeader × Bytes)
  read_answer blake3 (status, body) =
      if status == 0 ∷ [] then read_remote_error body else read_header body >>= verified blake3

  unfoldable pub read_nar_response : Bytes → Bytes → Result (NarResponseHeader × Bytes)
  read_nar_response blake3 input =
      read_or (codes "failed to read status: ") 1 input >>= read_answer blake3

  unfoldable pub fetch_nar_once : Bytes → Result (NarResponseHeader × Bytes)
  fetch_nar_once blake3 =
      if not peer.connects
      then err (connection [])
      else if not peer.opens
      then err (protocol (codes "failed to open stream: "))
      else read_nar_response blake3
          (peer.answer (framed (postcard.encode_request (by_blake3 blake3))))

-- `fetch_nar_with_config`, where `peers` is what an attempt finds.
module _ {Float : Type 0} (floats : Floats Float) (postcard : Postcard)
    (blake3_hash : Bytes → Bytes) (peers : ℕ → Peer) where
  unfoldable pub fetch_nar_with_config :
      RetryConfig Float → Bytes → Result (NarResponseHeader × Bytes)
  fetch_nar_with_config config blake3 =
      with_retry floats config
        (λ attempt. fetch_nar_once postcard blake3_hash (peers attempt) blake3)
