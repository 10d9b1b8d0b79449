-- ===== src/NixProtocol.antt =====
-- iroh-nix/src/nix_protocol.rs: the binary format between nix-daemon and the build hook.
-- A reader is the bytes that it has yet to give, and then the end of the stream; a function that
-- reads returns the rest of them. A function that writes returns the bytes that it writes: the
-- writer takes all of them. `usize` has 64 bits.
pub mod RoundTrip
pub mod Progress
use iroh_nix.Support.{
  ℕ, zero, suc, ◌+◌, ◌*◌, ◌^◌, List, [], ◌∷◌, ◌++◌, ltb, leb, if◌then◌else◌, Bytes, codes, length,
  take, drop, replicate,
}
use iroh_nix.Support.Words.{to_le_bytes, from_le_bytes, padding}
use iroh_nix.Support.Utf8.{is_utf8}
use iroh_nix.Error.{
  ErrorKind, unexpected_eof, Error, io, protocol, Result, ok, err, panic, ◌>>=◌, ◌>>◌,
}

-- `reader.read_exact(&mut buf)` with a buffer of n bytes
unfoldable pub read_exact : ℕ → Bytes → Result (Bytes × Bytes)
read_exact n input =
    if leb n (length input) then ok (take n input, drop n input) else err (io unexpected_eof)

-- The `map_err` of `read_u32` and `read_u64`.
unfoldable pub eof_as : Bytes → Result (Bytes × Bytes) → Result (Bytes × Bytes)
eof_as message (err (io unexpected_eof)) = err (protocol message)
eof_as message r = r

unfoldable pub read_u32 : Bytes → Result (ℕ × Bytes)
unfolding eof_as
read_u32 input = do
  (buf, rest) ← eof_as (codes "unexpected EOF reading u32") (read_exact 4 input)
  ok (from_le_bytes buf, rest)

unfoldable pub read_u64 : Bytes → Result (ℕ × Bytes)
unfolding eof_as
read_u64 input = do
  (buf, rest) ← eof_as (codes "unexpected EOF reading u64") (read_exact 8 input)
  ok (from_le_bytes buf, rest)

-- `vec![0u8; n]` and `Vec::with_capacity(n)` of items of the given size panic past `isize::MAX`
-- bytes. That the memory is there is taken for granted.
unfoldable pub allocate : ℕ → ℕ → Result (Unit {0})
allocate n size = if ltb (n * size) (2 ^ 63) then ok tt else panic

unfoldable pub from_utf8 : Bytes → Result Bytes
from_utf8 buf = if is_utf8 buf then ok buf else err (protocol (codes "invalid UTF-8 in string: "))

unfoldable pub read_string : Bytes → Result (Bytes × Bytes)
unfolding allocate from_utf8
read_string input = do
  (len, body) ← read_u64 input
  allocate len 1
  (buf, after) ← read_exact len body
  (pad, rest) ← read_exact (padding len) after
  s ← from_utf8 buf
  ok (s, rest)

-- The loop of `read_string_set`, with the rounds that are left.
unfoldable pub read_strings : ℕ → Bytes → Result (List Bytes × Bytes)
read_strings zero input = ok ([], input)
read_strings (suc count) input = do
  (s, rest) ← read_string input
  (ss, end) ← read_strings count rest
  ok (s ∷ ss, end)

-- A `String` takes 24 bytes.
unfoldable pub read_string_set : Bytes → Result (List Bytes × Bytes)
unfolding allocate
read_string_set input = do
  (count, body) ← read_u64 input
  allocate count 24
  read_strings count body

unfoldable pub write_u32 : ℕ → Bytes
write_u32 = to_le_bytes 4

unfoldable pub write_u64 : ℕ → Bytes
write_u64 = to_le_bytes 8

unfoldable pub write_string : Bytes → Bytes
write_string s = write_u64 (length s) ++ (s ++ replicate (padding (length s)) 0)

unfoldable pub write_strings : List Bytes → Bytes
write_strings [] = []
write_strings (s ∷ ss) = write_string s ++ write_strings ss

unfoldable pub write_string_set : List Bytes → Bytes
write_string_set strings = write_u64 (length strings) ++ write_strings strings
