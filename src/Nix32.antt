-- ===== src/Nix32.antt =====
-- The base 32 of Nix: `Sha256Hash::to_nix_base32` of iroh-nix/src/hash_index.rs, and its two decoders,
-- `decode_nix32` of iroh-nix/src/nix_info.rs and `decode_nix_base32` of iroh-nix/src/http_cache.rs.
-- A byte is a number below 256; a text is its UTF-8 bytes.
mod Tests
pub mod Digits
pub mod RoundTrip
pub mod Descending
use iroh_nix.Support.{
  ℕ, zero, suc, ◌+◌, ◌-◌, ◌*◌, ◌/◌, ◌%◌, ◌^◌, ◌≤◌, ◌<◌, min, ◌≡◌, refl, sym, ap, ◌∙◌, ◌≢◌, ◌↔◌, ◌⊎◌,
  inl, inr, Bool, true, false, not, ◌&&◌, ◌||◌, Option, none, some, List, [], ◌∷◌, ◌++◌, map,
  reverse, append-nil, append_assoc, arith, ltb, leb, nat_eq, if◌then◌else◌, ltb→lt, lt→ltb, leb→le,
  nat_eq_iff, Bool-cases, Option-cases, Bytes, codes, bytes_eq, bytes_eq_iff, Eq, ◌==◌, eq_nat,
  eq_bytes, ==-refl, contains, length, take, drop, replicate, All, all, length-append,
  take-append-drop, length-take, length-drop, length-replicate, All-append, All-parts, take-append,
  drop-append, keep_if,
}
use iroh_nix.Support.Bits.{bit_or}
use iroh_nix.Error.{Error, protocol, http_cache, Result, ok, err, panic, ◌>>=◌}

abbrev pub nix32_alphabet : Bytes
nix32_alphabet = codes "0123456789abcdfghijklmnpqrsvwxyz"

-- `v[i]`, for an index in range
unfoldable pub byte_at : ℕ → Bytes → ℕ
byte_at i [] = 0
byte_at zero (b ∷ bs) = b
byte_at (suc i) (b ∷ bs) = byte_at i bs

-- `v[i] |= b`
unfoldable pub or_at : ℕ → ℕ → Bytes → Bytes
or_at i v [] = []
or_at zero v (b ∷ bs) = bit_or 8 b v ∷ bs
or_at (suc i) v (b ∷ bs) = b ∷ or_at i v bs

-- The digit of the bytes that starts at bit `b`.
unfoldable pub digit_at : Bytes → ℕ → ℕ
digit_at bytes b =
    let byte_idx = b / 8 in
    let bit_idx = b % 8 in
    let c = byte_at byte_idx bytes / 2 ^ bit_idx % 32 in
    if ltb 3 bit_idx && ltb (byte_idx + 1) (length bytes)
    then bit_or 8 c (byte_at (byte_idx + 1) bytes * 2 ^ (8 - bit_idx) % 256 % 32)
    else c

-- The loop over `(0..n).rev()`.
unfoldable pub base32_digits : Bytes → ℕ → Bytes
base32_digits bytes zero = []
base32_digits bytes (suc n) =
    byte_at (digit_at bytes (n * 5)) nix32_alphabet ∷ base32_digits bytes n

unfoldable pub to_nix_base32 : Bytes → Bytes
to_nix_base32 bytes = base32_digits bytes ((length bytes * 8 + 4) / 5)

-- `alphabet.iter().position(|&x| x == c)`
unfoldable pub position_of : ℕ → Bytes → Option ℕ
position_of c [] = none
position_of c (b ∷ bs) =
    let rest = position_of c bs in
    if b == c then some 0 else elim rest [ none ↦ none | some i ↦ some (suc i) ]

-- `s.chars()`: the code points, with the bytes that the one being read still takes.
unfoldable pub chars_from : ℕ → ℕ → Bytes → List ℕ
chars_from need point [] = []
chars_from (suc zero) point (b ∷ bs) = (point * 64 + b % 64) ∷ chars_from zero 0 bs
chars_from (suc (suc need)) point (b ∷ bs) = chars_from (suc need) (point * 64 + b % 64) bs
chars_from zero point (b ∷ bs) =
    if ltb b 0x80
    then b ∷ chars_from 0 0 bs
    else if ltb b 0xE0
    then chars_from 1 (b % 32) bs
    else if ltb b 0xF0
    then chars_from 2 (b % 16) bs
    else chars_from 3 (b % 8) bs

unfoldable pub chars : Bytes → List ℕ
chars s = chars_from 0 0 s

-- The digit that starts at bit `b`. It is a `u64` in one decoder and a `u8` in the other; its shifts are
-- cut to a byte.
unfoldable pub place : ℕ → ℕ → Bytes → Bytes
place b digit out =
    let byte_idx = b / 8 in
    let bit_idx = b % 8 in
    let low =
      if ltb byte_idx (length out) then or_at byte_idx (digit * 2 ^ bit_idx % 256) out else out in
    if ltb 3 bit_idx && ltb (byte_idx + 1) (length out)
    then or_at (byte_idx + 1) (digit / 2 ^ (8 - bit_idx)) low
    else low

-- `c as u8`
unfoldable pub decode_nix32_loop : ℕ → List ℕ → Bytes → Result Bytes
decode_nix32_loop i [] result = ok result
decode_nix32_loop i (c ∷ cs) result = elim (position_of (c % 256) nix32_alphabet) [
  | none ↦ err (protocol (codes "invalid nix32 character: "))
  | some digit ↦ decode_nix32_loop (i + 1) cs (place (i * 5) digit result)
]

unfoldable pub decode_nix32 : Bytes → Result Bytes
decode_nix32 s =
    if nat_eq (length s) 52
    then decode_nix32_loop 0 (reverse (chars s)) (replicate 32 0)
    else err (protocol (codes "nix32 hash should be 52 chars, got "))

-- The loop over `(0..len).rev()`, which takes the characters from the first. The characters of the
-- alphabet are distinct, so that the table `lookup` holds the position of each, and 255 elsewhere.
unfoldable pub decode_nix_base32_loop : List ℕ → Bytes → Result Bytes
decode_nix_base32_loop [] out = ok out
decode_nix_base32_loop (c ∷ cs) out =
    if leb 128 c
    then err (http_cache (codes "invalid base32 char: "))
    else elim (position_of c nix32_alphabet) [
      | none ↦ err (http_cache (codes "invalid base32 char: "))
      | some digit ↦ decode_nix_base32_loop cs (place (length cs * 5) digit out)
    ]

unfoldable pub decode_nix_base32 : Bytes → Result Bytes
decode_nix_base32 s =
    let cs = chars s in decode_nix_base32_loop cs (replicate (length cs * 5 / 8) 0)
