-- ===== src/Nix32/Descending.antt =====
-- The base 32 of Nix: decoding from the digit of the last bits down, as iroh-nix/src/http_cache.rs does.
use iroh_nix.Support.{
  ℕ, zero, suc, ◌+◌, ◌-◌, ◌*◌, ◌/◌, ◌%◌, ◌^◌, ◌≤◌, ◌<◌, ◌≡◌, refl, ap, ◌∙◌, inl, inr, Bool, some,
  [], ◌∷◌, arith, ltb, ltb→lt, Bool-cases, Bytes, eq_nat, eq_bytes, length, replicate,
}
use iroh_nix.Support.Words.{IsBytes}
use iroh_nix.Support.Bits.{bit_or, bit_or-shifted, bit_or-zero}
use iroh_nix.Support.Texts.{IsGraphic}
use iroh_nix.Support.Trimmed.{is_graphic}
use mathlib.Core.Path.{subst}
use iroh_nix.Error.{ok}
use iroh_nix.Nix32.{
  nix32_alphabet, digit_at, byte_at, place, or_at, position_of, base32_digits, to_nix_base32, chars,
  decode_nix_base32, decode_nix_base32_loop,
}
use iroh_nix.Nix32.Digits.{
  five, above_three, below_eight, digit_at-next, place-next, zeroth, its_bit, digit_at-first,
  digit_at-last, whole, digit_at-Small,
}
use iroh_nix.Nix32.RoundTrip.{
  below, below-holds, character, length-base32_digits, base32_digits-IsAscii, chars-ascii,
}

-- The bits of the bytes from bit m on.
unfoldable pub above : ℕ → Bytes → Bytes
above m [] = []
above m (b ∷ bs) = (b - b % 2 ^ m) ∷ above (m - 8) bs

bit_or_comm : (w a b : ℕ) → bit_or w a b ≡ bit_or w b a
unfolding bit_or
bit_or_comm zero a b = refl
bit_or_comm (suc w) a b = ground (arith, bit_or_comm w (a / 2) (b / 2))

-- An integer with its lowest k bits clear takes them from one that has no others.
bit_or-low :
    (k q r : ℕ) → r < 2 ^ k → r < 256 → q * 2 ^ k < 256 → bit_or 8 (q * 2 ^ k) r ≡ r + q * 2 ^ k
bit_or-low k q r h small fits = bit_or_comm 8 (q * 2 ^ k) r ∙ bit_or-shifted 8 k r q h small fits

first_high :
    (m b c : ℕ)
    → m < 8
    → b < 256
    → bit_or 8 (b - b % 2 ^ (m + 5)) (five m b c * 2 ^ m % 256) ≡ b - b % 2 ^ m
unfolding five
first_high m b c h hb = elim (below_eight m h) [
  | inl e ↦ rw e (ground (arith, bit_or-low 5 (b / 32) (b % 32)))
  | inr (inl e) ↦ rw e (ground (arith, bit_or-low 6 (b / 64) (b / 2 % 32 * 2)))
  | inr (inr (inl e)) ↦ rw e (ground (arith, bit_or-low 7 (b / 128) (b / 4 % 32 * 4)))
  | inr (inr (inr (inl e))) ↦ rw e (ground (arith, bit_or-zero 8 (b / 8 % 32 * 8)))
  | inr (inr (inr (inr (inl e)))) ↦ rw e (ground (arith, bit_or-zero 8 (b / 16 * 16)))
  | inr (inr (inr (inr (inr (inl e))))) ↦ rw e (ground (arith, bit_or-zero 8 (b / 32 * 32)))
  | inr (inr (inr (inr (inr (inr (inl e)))))) ↦ rw e (ground (arith, bit_or-zero 8 (b / 64 * 64)))
  | inr (inr (inr (inr (inr (inr (inr e)))))) ↦ rw e (ground (arith, bit_or-zero 8 (b / 128 * 128)))
]

second_high :
    (m b c : ℕ)
    → 3 < m
    → m < 8
    → b < 256
    → c < 256
    → bit_or 8 (c - c % 2 ^ (m + 5 - 8)) (five m b c / 2 ^ (8 - m)) ≡ c
unfolding five
second_high m b c low high hb hc = elim (above_three m low high) [
  | inl e ↦ rw e (ground (arith, bit_or-low 1 (c / 2) (c % 2)))
  | inr (inl e) ↦ rw e (ground (arith, bit_or-low 2 (c / 4) (c % 4)))
  | inr (inr (inl e)) ↦ rw e (ground (arith, bit_or-low 3 (c / 8) (c % 8)))
  | inr (inr (inr e)) ↦ rw e (ground (arith, bit_or-low 4 (c / 16) (c % 16)))
]

bits_of_none : (m c : ℕ) → m ≤ 3 → c - c % 2 ^ (m + 5 - 8) ≡ c
bits_of_none m c h = let none_left : m + 5 - 8 ≡ 0 = omega arith in rw none_left (omega arith)

place-last :
    (m b : ℕ)
    → m < 8
    → b < 256
    → place m (five m b 0) ((b - b % 2 ^ (m + 5)) ∷ []) ≡ (b - b % 2 ^ m) ∷ []
unfolding place or_at
place-last m b h hb = rw (zeroth m h, its_bit m h, first_high m b 0 h hb) (ground arith)

place-first :
    (m b c : ℕ) (cs : Bytes)
    → m < 8
    → b < 256
    → c < 256
    → place m (five m b c) ((b - b % 2 ^ (m + 5)) ∷ (c - c % 2 ^ (m + 5 - 8)) ∷ cs)
      ≡ (b - b % 2 ^ m) ∷ c ∷ cs
unfolding place or_at
place-first m b c cs h hb hc =
    rw (zeroth m h, its_bit m h, first_high m b c h hb)
      (elim (Bool-cases (ltb 3 m)) [
        | inl low ↦ ground (arith, low, second_high m b c)
        | inr high ↦ ground (arith, high, bits_of_none m c)
      ])

place-low :
    (m b : ℕ) (bs : Bytes)
    → m < 8
    → b < 256
    → IsBytes bs
    → place m (digit_at (b ∷ bs) m) (above (m + 5) (b ∷ bs)) ≡ above m (b ∷ bs)
unfolding above
place-low m b [] low hb h = rw (digit_at-last m b low hb) (place-last m b low hb)
place-low m b (c ∷ cs) low hb (hc, h) =
    let none_yet : m - 8 ≡ 0 = omega arith in
    let none_then : m + 5 - 8 - 8 ≡ 0 = omega arith in
    let all_bits : c - c % 1 ≡ c = omega arith in
    rw (digit_at-first m b c cs low hb hc, none_yet, none_then, all_bits)
      (place-first m b c (above 0 cs) low hb hc)

place-high :
    (n b : ℕ) (bs : Bytes)
    → b < 256
    → place n (digit_at bs n) (above (n + 5) bs) ≡ above n bs
    → place (8 + n) (digit_at (b ∷ bs) (8 + n)) (above (8 + n + 5) (b ∷ bs))
      ≡ above (8 + n) (b ∷ bs)
unfolding above
place-high n b bs hb next =
    let back : 8 + n - 8 ≡ n = omega arith in
    let more : 8 + n + 5 ≡ 8 + (n + 5) = omega arith in
    let back_more : 8 + (n + 5) - 8 ≡ n + 5 = omega arith in
    rw
      (
        digit_at-next b n bs,
        more,
        whole n b hb,
        whole (n + 5) b hb,
        back,
        back_more,
        place-next (b - b) n (digit_at bs n) (above (n + 5) bs),
      )
      (ap (◌∷◌ (b - b)) next)

-- Placing the digit that starts at a bit adds its five bits to the bits behind it.
place-above :
    (bytes : Bytes) (m : ℕ)
    → IsBytes bytes
    → place m (digit_at bytes m) (above (m + 5) bytes) ≡ above m bytes
unfolding above
place-above [] m h = unfold place or_at in ground arith
place-above (b ∷ bs) m (hb, h) = elim (Bool-cases (ltb m 8)) [
  | inl low ↦ place-low m b bs (ltb→lt m 8 low) hb h
  | inr high ↦
      let split : 8 + (m - 8) ≡ m = ground (arith, high) in
      subst (λ k. place k (digit_at (b ∷ bs) k) (above (k + 5) (b ∷ bs)) ≡ above k (b ∷ bs)) split
        (place-high (m - 8) b bs hb (place-above bs (m - 8) h))
]

above-zero : (bytes : Bytes) → above 0 bytes ≡ bytes
unfolding above
above-zero [] = refl
above-zero (b ∷ bs) =
    let all_bits : b - b % 1 ≡ b = omega arith in rw (above-zero bs, all_bits) refl

above-length :
    (bytes : Bytes) (m : ℕ)
    → IsBytes bytes
    → length bytes * 8 ≤ m
    → above m bytes ≡ replicate (length bytes) 0
unfolding above
above-length [] m h enough = refl
above-length (b ∷ bs) m (hb, h) enough =
    let split : 8 + (m - 8) ≡ m = omega arith in
    let full : b % 2 ^ m ≡ b = subst (λ k. b % 2 ^ k ≡ b) split (whole (m - 8) b hb) in
    let nothing : b - b ≡ 0 = omega arith in
    rw (above-length bs (m - 8) h (omega arith), full, nothing) refl

loop-digit :
    (c digit : ℕ) (cs out : Bytes)
    → c < 128
    → position_of c nix32_alphabet ≡ some digit
    → decode_nix_base32_loop (c ∷ cs) out
      ≡ decode_nix_base32_loop cs (place (length cs * 5) digit out)
unfolding decode_nix_base32_loop
loop-digit c digit cs out low e = ground (arith, e)

decode_digits :
    (bytes : Bytes) (n : ℕ)
    → IsBytes bytes
    → decode_nix_base32_loop (base32_digits bytes n) (above (n * 5) bytes) ≡ ok bytes
unfolding base32_digits
decode_digits bytes zero h = unfold decode_nix_base32_loop in ap ok (above-zero bytes)
decode_digits bytes (suc n) h =
    let c = byte_at (digit_at bytes (n * 5)) nix32_alphabet in
    let (low, found) = character (digit_at bytes (n * 5)) (digit_at-Small bytes (n * 5) h) in
    let itself : c % 256 ≡ c = omega (arith, low) in
    let next : suc n * 5 ≡ n * 5 + 5 = omega arith in
    loop-digit c (digit_at bytes (n * 5)) (base32_digits bytes n) (above (suc n * 5) bytes) low
      (subst (λ k. position_of k nix32_alphabet ≡ some (digit_at bytes (n * 5))) itself found)
    ∙ rw (length-base32_digits bytes n, next, place-above bytes (n * 5) h) (decode_digits bytes n h)

-- A hash of 32 bytes that is printed in Nix's base 32 has 52 characters, of which the client of a cache decodes
-- the same bytes.
pub decode_nix_base32-to_nix_base32 :
    (bytes : Bytes)
    → IsBytes bytes
    → length bytes ≡ 32
    → (length (to_nix_base32 bytes) ≡ 52) × (decode_nix_base32 (to_nix_base32 bytes) ≡ ok bytes)
unfolding decode_nix_base32 to_nix_base32 chars
decode_nix_base32-to_nix_base32 bytes h size =
    let all_digits = decode_digits bytes 52 h in
    let none_yet = above-length bytes 260 h (omega (arith, size)) in
    (
      rw size (length-base32_digits bytes 52),
      rw
          (
            size,
            chars-ascii (base32_digits bytes 52) (base32_digits-IsAscii bytes 52 h),
            length-base32_digits bytes 52,
          )
          (subst (λ k. decode_nix_base32_loop (base32_digits bytes 52) (replicate k 0) ≡ ok bytes)
            size
            (subst (λ out. decode_nix_base32_loop (base32_digits bytes 52) out ≡ ok bytes) none_yet
              all_digits)),
    )

printed : ℕ → Bool
printed i = is_graphic (byte_at i nix32_alphabet)

base32_digits-IsGraphic :
    (bytes : Bytes) (n : ℕ) → IsBytes bytes → IsGraphic (base32_digits bytes n)
unfolding base32_digits printed
base32_digits-IsGraphic bytes zero h = tt
base32_digits-IsGraphic bytes (suc n) h =
    let holds =
      below-holds printed 32 (digit_at bytes (n * 5)) (unfold below byte_at in refl)
        (digit_at-Small bytes (n * 5) h) in
    ((ground (arith, holds), ground (arith, holds)), base32_digits-IsGraphic bytes n h)

pub to_nix_base32-IsGraphic : (bytes : Bytes) → IsBytes bytes → IsGraphic (to_nix_base32 bytes)
unfolding to_nix_base32
to_nix_base32-IsGraphic bytes h = base32_digits-IsGraphic bytes ((length bytes * 8 + 4) / 5) h
