-- ===== src/NixProtocol/RoundTrip.antt =====
-- What iroh-nix/src/nix_protocol.rs reads of what it writes.
use iroh_nix.Support.{
  ℕ, ◌*◌, ◌^◌, ◌≤◌, ◌<◌, ◌≡◌, refl, true, List, [], ◌∷◌, ◌++◌, append_assoc, arith, leb, lt→ltb,
  Bytes, eq_nat, eq_bytes, length, replicate, All, length-append, length-replicate, take-append,
  drop-append,
}
use iroh_nix.Support.Words.{to_le_bytes, padding, length-to_le_bytes, from_le_bytes-to_le_bytes}
use iroh_nix.Support.Utf8.{is_utf8}
use iroh_nix.Error.{ok, panic}
use iroh_nix.NixProtocol.{
  read_exact, read_u32, read_u64, read_string, read_strings, read_string_set, write_u32, write_u64,
  write_string, write_strings, write_string_set,
}

read_exact-append : (xs ys : Bytes) → read_exact (length xs) (xs ++ ys) ≡ ok (xs, ys)
unfolding read_exact
read_exact-append xs ys =
    let fits : leb (length xs) (length (xs ++ ys)) ≡ true = ground (arith, length-append xs ys) in
    rw (fits, take-append xs ys, drop-append xs ys)

-- The same with the length computed otherwise.
pub read_exact_prefix :
    (n : ℕ) (xs ys : Bytes) → length xs ≡ n → read_exact n (xs ++ ys) ≡ ok (xs, ys)
read_exact_prefix n xs ys h = rw (← h) (read_exact-append xs ys)

word_prefix :
    (w n : ℕ) (rest : Bytes) → read_exact w (to_le_bytes w n ++ rest) ≡ ok (to_le_bytes w n, rest)
word_prefix w n rest = read_exact_prefix w (to_le_bytes w n) rest (length-to_le_bytes w n)

-- A u32 that is written is read back, and the bytes behind it are left.
pub read_u32-write_u32 :
    (n : ℕ) (rest : Bytes) → n < 2 ^ 32 → read_u32 (write_u32 n ++ rest) ≡ ok (n, rest)
unfolding read_u32 write_u32
read_u32-write_u32 n rest h = rw (word_prefix 4 n rest) (rw (from_le_bytes-to_le_bytes 4 n h))

-- A u64 that is written is read back, and the bytes behind it are left.
pub read_u64-write_u64 :
    (n : ℕ) (rest : Bytes) → n < 2 ^ 64 → read_u64 (write_u64 n ++ rest) ≡ ok (n, rest)
unfolding read_u64 write_u64
read_u64-write_u64 n rest h = rw (word_prefix 8 n rest) (rw (from_le_bytes-to_le_bytes 8 n h))

write_string_parts :
    (s rest : Bytes)
    → write_string s ++ rest
      ≡ write_u64 (length s) ++ (s ++ (replicate (padding (length s)) 0 ++ rest))
unfolding write_string
write_string_parts s rest = simp append_assoc

-- A string that is written is read back, and the bytes behind it and its padding are left.
pub read_string-write_string :
    (s rest : Bytes)
    → length s < 2 ^ 63
    → is_utf8 s ≡ true
    → read_string (write_string s ++ rest) ≡ ok (s, rest)
unfolding read_string
read_string-write_string s rest h u = rw (write_string_parts s rest) (
    rw (read_u64-write_u64 (length s) _ (omega arith)) (
      rw (lt→ltb (length s * 1) (2 ^ 63) (omega arith)) (
        rw (read_exact-append s _) (
          rw
            (read_exact_prefix (padding (length s)) (replicate (padding (length s)) 0) rest
              (length-replicate (padding (length s)) 0))
            (rw u)))))

abbrev pub IsText : Bytes → Type 0
IsText s = (length s < 2 ^ 63) × (is_utf8 s ≡ true)

read_strings-write_strings :
    (ss : List Bytes) (rest : Bytes)
    → All IsText ss
    → read_strings (length ss) (write_strings ss ++ rest) ≡ ok (ss, rest)
unfolding read_strings write_strings
read_strings-write_strings [] rest h = refl
read_strings-write_strings (s ∷ ss) rest ((short, valid), h) =
    rw (append_assoc (write_string s) (write_strings ss) rest) (
      rw (read_string-write_string s (write_strings ss ++ rest) short valid)
        (rw (read_strings-write_strings ss rest h)))

-- A set of strings that is written is read back in order, and the bytes behind it are left.
pub read_string_set-write_string_set :
    (ss : List Bytes) (rest : Bytes)
    → length ss * 24 < 2 ^ 63
    → All IsText ss
    → read_string_set (write_string_set ss ++ rest) ≡ ok (ss, rest)
unfolding read_string_set write_string_set
read_string_set-write_string_set ss rest few h =
    rw (append_assoc (write_u64 (length ss)) (write_strings ss) rest) (
      rw (read_u64-write_u64 (length ss) (write_strings ss ++ rest) (omega arith))
        (rw (lt→ltb (length ss * 24) (2 ^ 63) few) (read_strings-write_strings ss rest h)))

-- `read_string` panics, for want of a size that can be allocated, exactly where the length that
-- it has read is 2^63 or more, whatever bytes follow.
read_string-panic :
    (input body : Bytes) (n : ℕ)
    → read_u64 input ≡ ok (n, body)
    → ((read_string input ≡ panic) → 2 ^ 63 ≤ n) × (2 ^ 63 ≤ n → (read_string input ≡ panic))
unfolding read_string read_exact
read_string-panic input body n h = (λ e. ground (arith, h, e), λ big. ground (arith, h, big))
