-- ===== src/Transfer.antt =====
-- iroh-nix/src/transfer.rs and the NAR messages of iroh-nix/src/protocol.rs: the transfer of a NAR
-- between two nodes. The QUIC connection, postcard, BLAKE3 and the file system are foreign. A stream
-- that is read is the bytes that it has yet to give; a function that writes returns what it writes.
pub mod Server
pub mod Client
pub mod Verified
pub mod Exchange
mod Tests
use iroh_nix.Support.{
  ℕ, zero, suc, ◌+◌, ◌-◌, ◌*◌, ◌/◌, ◌%◌, ◌^◌, ◌≤◌, ◌<◌, min, ◌≡◌, refl, sym, ap, ◌∙◌, ◌≢◌, ◌↔◌, ◌⊎◌,
  inl, inr, Bool, true, false, not, ◌&&◌, ◌||◌, Option, none, some, List, [], ◌∷◌, ◌++◌, map,
  reverse, append-nil, append_assoc, arith, ltb, leb, nat_eq, if◌then◌else◌, ltb→lt, lt→ltb, leb→le,
  nat_eq_iff, Bool-cases, Option-cases, Bytes, codes, bytes_eq, bytes_eq_iff, Eq, ◌==◌, eq_nat,
  eq_bytes, ==-refl, contains, length, take, drop, replicate, All, all, length-append,
  take-append-drop, length-take, length-drop, length-replicate, All-append, All-parts, take-append,
  drop-append, keep_if,
}
use iroh_nix.Support.Words.{to_le_bytes, from_le_bytes}
use iroh_nix.Error.{Error, ErrorKind, unexpected_eof, protocol, io, Result, ok, err, panic, ◌>>=◌}
use iroh_nix.NixProtocol.{read_exact}

pub data NarRequest : Type 0 where
  by_blake3 : Bytes → NarRequest
  by_store_path : Bytes → NarRequest

pub record NarResponseHeader : Type 0 where
  pub size : ℕ
  pub sha256 : Bytes
  pub store_path : Bytes

-- `postcard::to_allocvec` and `from_bytes` of the two messages
pub record Postcard : Type 0 where
  pub encode_request : NarRequest → Bytes
  pub decode_request : Bytes → Option NarRequest
  pub encode_header : NarResponseHeader → Bytes
  pub decode_header : Bytes → Option NarResponseHeader

-- What postcard documents: a message is decoded from its encoding.
pub record IsPostcard (p : Postcard) : Type 0 where
  pub request_back : (r : NarRequest) → p.decode_request (p.encode_request r) ≡ some r
  pub header_back : (h : NarResponseHeader) → p.decode_header (p.encode_header h) ≡ some h

-- `Option` of a decoder with the `map_err` of the call
unfoldable pub decoded {ℓ} : {A : Type ℓ} → Bytes → Option A → Result A
decoded message none = err (protocol message)
decoded message (some a) = ok a

-- `recv.read_exact(&mut buf)` with the `map_err` of the call
unfoldable pub read_or : Bytes → ℕ → Bytes → Result (Bytes × Bytes)
read_or message n input =
    if leb n (length input) then ok (take n input, drop n input) else err (protocol message)

-- `(bytes.len() as u32).to_le_bytes()`, and the bytes
unfoldable pub framed : Bytes → Bytes
framed bytes = to_le_bytes 4 (length bytes % 2 ^ 32) ++ bytes

module _ (postcard : Postcard) where
  unfoldable pub read_nar_request : Bytes → Result NarRequest
  read_nar_request input = do
    (len_buf, body) ← read_or (codes "failed to read request length: ") 4 input
    let len = from_le_bytes len_buf
    if ltb 1024 len then err (protocol (codes "request too large")) else do
      (buf, rest) ← read_or (codes "failed to read request: ") len body
      decoded (codes "invalid request: ") (postcard.decode_request buf)

-- The status byte, the length and the message.
unfoldable pub send_error_response : Bytes → Bytes
send_error_response message = 0 ∷ framed message
