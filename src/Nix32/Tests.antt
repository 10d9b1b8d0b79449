-- ===== src/Nix32/Tests.antt =====
-- Runs of the base 32 of Nix.
use iroh_nix.Support.{
  ℕ, zero, suc, ◌*◌, ◌%◌, ◌≡◌, refl, [], ◌∷◌, Bytes, eq_nat, eq_bytes, replicate,
}
use iroh_nix.Support.Bits.{bit_or}
use iroh_nix.Error.{ok}
use iroh_nix.Nix32.{
  to_nix_base32, base32_digits, digit_at, byte_at, decode_nix32, decode_nix32_loop,
  decode_nix_base32, decode_nix_base32_loop, place, or_at, position_of, chars, chars_from,
}

abbrev up_to : ℕ → Bytes
up_to zero = []
up_to (suc n) = (n * 37 % 256) ∷ up_to n

decodes_encoded : decode_nix32 (to_nix_base32 (up_to 32)) ≡ ok (up_to 32)
unfolding to_nix_base32 base32_digits digit_at byte_at decode_nix32 decode_nix32_loop place or_at
    position_of chars chars_from bit_or
decodes_encoded = refl

decodes_encoded_again : decode_nix_base32 (to_nix_base32 (up_to 32)) ≡ ok (up_to 32)
unfolding to_nix_base32 base32_digits digit_at byte_at decode_nix_base32 decode_nix_base32_loop
    place or_at position_of chars chars_from bit_or
decodes_encoded_again = refl

-- The character U+0130, which is cut to the byte of `0`, is taken for that digit: the text of 52 bytes
-- that starts with it is decoded.
accepts_wide_character : decode_nix32 (0xC4 ∷ 0xB0 ∷ replicate 50 48) ≡ ok (replicate 32 0)
unfolding decode_nix32 decode_nix32_loop place or_at position_of chars chars_from bit_or
accepts_wide_character = refl
