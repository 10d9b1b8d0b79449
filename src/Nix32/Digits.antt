-- ===== src/Nix32/Digits.antt =====
-- The base 32 of Nix: what a digit is of the bytes, and what placing it makes of the bytes decoded.
use iroh_nix.Support.{
  ℕ, suc, ◌+◌, ◌-◌, ◌*◌, ◌/◌, ◌%◌, ◌^◌, ◌≤◌, ◌<◌, ◌≡◌, refl, ap, ◌⊎◌, inl, inr, [], ◌∷◌, arith, ltb,
  ltb→lt, Bool-cases, Bytes, eq_nat, eq_bytes, length, replicate, all,
}
use iroh_nix.Support.Words.{IsBytes}
use iroh_nix.Support.Bits.{bit_or, bit_or-shifted, bit_or-zero}
use mathlib.Core.Path.{subst}
use native.Mathlib.Nat.{pow-le-pow_right, mod-eq_of_lt}
use iroh_nix.Nix32.{digit_at, byte_at, place, or_at}

-- The first m bits of the bytes.
unfoldable pub cut : ℕ → Bytes → Bytes
cut m [] = []
cut m (b ∷ bs) = (b % 2 ^ m) ∷ cut (m - 8) bs

-- The five bits from bit m on of two bytes.
unfoldable pub five : ℕ → ℕ → ℕ → ℕ
five m b c = (b + 256 * c) / 2 ^ m % 32

pub above_three : (m : ℕ) → 3 < m → m < 8 → (m ≡ 4) ⊎ ((m ≡ 5) ⊎ ((m ≡ 6) ⊎ (m ≡ 7)))
above_three m low high = ground arith

-- A digit that lies in two bytes.
two_bytes :
    (m b c : ℕ)
    → 3 < m
    → m < 8
    → b < 256
    → c < 256
    → bit_or 8 (b / 2 ^ m % 32) (c * 2 ^ (8 - m) % 256 % 32) ≡ five m b c
unfolding five
two_bytes m b c low high hb hc = elim (above_three m low high) [
  | inl e ↦ rw e (ground (arith, bit_or-shifted 8 4 (b / 16 % 32) (c % 2)))
  | inr (inl e) ↦ rw e (ground (arith, bit_or-shifted 8 3 (b / 32 % 32) (c % 4)))
  | inr (inr (inl e)) ↦ rw e (ground (arith, bit_or-shifted 8 2 (b / 64 % 32) (c % 8)))
  | inr (inr (inr (e))) ↦ rw e (ground (arith, bit_or-shifted 8 1 (b / 128 % 32) (c % 16)))
]

pub below_eight :
    (m : ℕ)
    → m < 8
    → (m ≡ 0) ⊎ ((m ≡ 1) ⊎ ((m ≡ 2) ⊎ ((m ≡ 3) ⊎ ((m ≡ 4) ⊎ ((m ≡ 5) ⊎ ((m ≡ 6) ⊎ ((m ≡ 7))))))))
below_eight m h = ground arith

-- The bits of a digit that lie in its first byte.
first_byte :
    (m b c : ℕ)
    → m < 8
    → b < 256
    → bit_or 8 (b % 2 ^ m) (five m b c * 2 ^ m % 256) ≡ b % 2 ^ (m + 5)
unfolding five
first_byte m b c h hb = elim (below_eight m h) [
  | inl e ↦ rw e (ground (arith, bit_or-shifted 8 0 (b % 1) ((b + 256 * c) / 1 % 32 % 256)))
  | inr (inl e) ↦ rw e (ground (arith, bit_or-shifted 8 1 (b % 2) ((b + 256 * c) / 2 % 32 % 128)))
  | inr (inr (inl e)) ↦
      rw e (ground (arith, bit_or-shifted 8 2 (b % 4) ((b + 256 * c) / 4 % 32 % 64)))
  | inr (inr (inr (inl e))) ↦
      rw e (ground (arith, bit_or-shifted 8 3 (b % 8) ((b + 256 * c) / 8 % 32 % 32)))
  | inr (inr (inr (inr (inl e)))) ↦
      rw e (ground (arith, bit_or-shifted 8 4 (b % 16) ((b + 256 * c) / 16 % 32 % 16)))
  | inr (inr (inr (inr (inr (inl e))))) ↦
      rw e (ground (arith, bit_or-shifted 8 5 (b % 32) ((b + 256 * c) / 32 % 32 % 8)))
  | inr (inr (inr (inr (inr (inr (inl e)))))) ↦
      rw e (ground (arith, bit_or-shifted 8 6 (b % 64) ((b + 256 * c) / 64 % 32 % 4)))
  | inr (inr (inr (inr (inr (inr (inr (e))))))) ↦
      rw e (ground (arith, bit_or-shifted 8 7 (b % 128) ((b + 256 * c) / 128 % 32 % 2)))
]

-- The bits of a digit that lie in its second byte.
second_byte :
    (m b c : ℕ)
    → 3 < m
    → m < 8
    → b < 256
    → c < 256
    → bit_or 8 0 (five m b c / 2 ^ (8 - m)) ≡ c % 2 ^ (m + 5 - 8)
unfolding five
second_byte m b c low high hb hc = elim (above_three m low high) [
  | inl e ↦ rw e (ground (arith, bit_or-zero 8 ((b + 256 * c) / 16 % 32 / 16)))
  | inr (inl e) ↦ rw e (ground (arith, bit_or-zero 8 ((b + 256 * c) / 32 % 32 / 8)))
  | inr (inr (inl e)) ↦ rw e (ground (arith, bit_or-zero 8 ((b + 256 * c) / 64 % 32 / 4)))
  | inr (inr (inr (e))) ↦ rw e (ground (arith, bit_or-zero 8 ((b + 256 * c) / 128 % 32 / 2)))
]

eighth : (n : ℕ) → (8 + n) / 8 ≡ suc (n / 8)
eighth n = omega arith

eighth_more : (n : ℕ) → (8 + n) / 8 + 1 ≡ suc (n / 8 + 1)
eighth_more n = omega arith

same_bit : (n : ℕ) → (8 + n) % 8 ≡ n % 8
same_bit n = omega arith

ltb-suc : (a b : ℕ) → ltb (suc a) (suc b) ≡ ltb a b
ltb-suc a b = ground arith

-- Past the first byte, a digit is one of the other bytes.
pub digit_at-next : (b n : ℕ) (bs : Bytes) → digit_at (b ∷ bs) (8 + n) ≡ digit_at bs n
unfolding digit_at byte_at
digit_at-next b n bs =
    rw (eighth_more n, eighth n, same_bit n, ltb-suc (n / 8 + 1) (length bs)) refl

pub place-next : (x n d : ℕ) (xs : Bytes) → place (8 + n) d (x ∷ xs) ≡ x ∷ place n d xs
unfolding place or_at
place-next x n d xs =
    rw
      (
        eighth_more n,
        eighth n,
        same_bit n,
        ltb-suc (n / 8 + 1) (length xs),
        ltb-suc (n / 8) (length xs),
      )
      (ground arith)

pub zeroth : (m : ℕ) → m < 8 → m / 8 ≡ 0
zeroth m h = omega arith

pub its_bit : (m : ℕ) → m < 8 → m % 8 ≡ m
its_bit m h = omega arith

up_to_three : (m : ℕ) → m ≤ 3 → (m ≡ 0) ⊎ ((m ≡ 1) ⊎ ((m ≡ 2) ⊎ (m ≡ 3)))
up_to_three m h = ground arith

-- A digit that lies in one byte.
one_byte : (m b c : ℕ) → m ≤ 3 → b < 256 → b / 2 ^ m % 32 ≡ five m b c
unfolding five
one_byte m b c h hb = elim (up_to_three m h) [
  | inl e ↦ rw e (omega arith)
  | inr (inl e) ↦ rw e (omega arith)
  | inr (inr (inl e)) ↦ rw e (omega arith)
  | inr (inr (inr e)) ↦ rw e (omega arith)
]

bits_of_none : (m c : ℕ) → m ≤ 3 → c % 2 ^ (m + 5 - 8) ≡ 0
bits_of_none m c h = let none_left : m + 5 - 8 ≡ 0 = omega arith in rw none_left (omega arith)

pub digit_at-first :
    (m b c : ℕ) (cs : Bytes) → m < 8 → b < 256 → c < 256 → digit_at (b ∷ c ∷ cs) m ≡ five m b c
unfolding digit_at byte_at
digit_at-first m b c cs h hb hc =
    rw (zeroth m h, its_bit m h)
      (elim (Bool-cases (ltb 3 m)) [
        | inl low ↦ ground (arith, low, two_bytes m b c)
        | inr high ↦ ground (arith, high, one_byte m b c)
      ])

pub digit_at-last : (m b : ℕ) → m < 8 → b < 256 → digit_at (b ∷ []) m ≡ five m b 0
unfolding digit_at byte_at five
digit_at-last m b h hb = rw (zeroth m h, its_bit m h) (ground arith)

place-last :
    (m b : ℕ) → m < 8 → b < 256 → place m (five m b 0) ((b % 2 ^ m) ∷ []) ≡ (b % 2 ^ (m + 5)) ∷ []
unfolding place or_at
place-last m b h hb = rw (zeroth m h, its_bit m h, first_byte m b 0 h hb) (ground arith)

place-first :
    (m b c : ℕ) (cs : Bytes)
    → m < 8
    → b < 256
    → c < 256
    → place m (five m b c) ((b % 2 ^ m) ∷ 0 ∷ cs) ≡ (b % 2 ^ (m + 5)) ∷ (c % 2 ^ (m + 5 - 8)) ∷ cs
unfolding place or_at
place-first m b c cs h hb hc =
    rw (zeroth m h, its_bit m h, first_byte m b c h hb)
      (elim (Bool-cases (ltb 3 m)) [
        | inl low ↦ ground (arith, low, second_byte m b c)
        | inr high ↦ ground (arith, high, bits_of_none m c)
      ])

place-low :
    (m b : ℕ) (bs : Bytes)
    → m < 8
    → b < 256
    → IsBytes bs
    → place m (digit_at (b ∷ bs) m) (cut m (b ∷ bs)) ≡ cut (m + 5) (b ∷ bs)
unfolding cut
place-low m b [] low hb h = rw (digit_at-last m b low hb) (place-last m b low hb)
place-low m b (c ∷ cs) low hb (hc, h) =
    let none_yet : m - 8 ≡ 0 = omega arith in
    let none_then : m + 5 - 8 - 8 ≡ 0 = omega arith in
    let no_bits : c % 1 ≡ 0 = omega arith in
    rw (digit_at-first m b c cs low hb hc, none_yet, none_then, no_bits)
      (place-first m b c (cut 0 cs) low hb hc)

pub whole : (n b : ℕ) → b < 256 → b % 2 ^ (8 + n) ≡ b
whole n b h =
    let big : 2 ^ 8 ≤ 2 ^ (8 + n) =
      pow-le-pow_right (omega arith) {i = 8} {j = 8 + n} (omega arith) in
    mod-eq_of_lt (omega arith)

place-high :
    (n b : ℕ) (bs : Bytes)
    → b < 256
    → place n (digit_at bs n) (cut n bs) ≡ cut (n + 5) bs
    → place (8 + n) (digit_at (b ∷ bs) (8 + n)) (cut (8 + n) (b ∷ bs)) ≡ cut (8 + n + 5) (b ∷ bs)
unfolding cut
place-high n b bs hb next =
    let back : 8 + n - 8 ≡ n = omega arith in
    let more : 8 + n + 5 ≡ 8 + (n + 5) = omega arith in
    let back_more : 8 + (n + 5) - 8 ≡ n + 5 = omega arith in
    rw
      (
        digit_at-next b n bs,
        more,
        whole n b hb,
        whole (n + 5) b hb,
        back,
        back_more,
        place-next b n (digit_at bs n) (cut n bs),
      )
      (ap (◌∷◌ b) next)

-- Placing the digit that starts at a bit adds its five bits to the bits before it.
pub place-digit_at :
    (bytes : Bytes) (m : ℕ)
    → IsBytes bytes
    → place m (digit_at bytes m) (cut m bytes) ≡ cut (m + 5) bytes
unfolding cut
place-digit_at [] m h = unfold place or_at in ground arith
place-digit_at (b ∷ bs) m (hb, h) = elim (Bool-cases (ltb m 8)) [
  | inl low ↦ place-low m b bs (ltb→lt m 8 low) hb h
  | inr high ↦
      let split : 8 + (m - 8) ≡ m = ground (arith, high) in
      subst (λ k. place k (digit_at (b ∷ bs) k) (cut k (b ∷ bs)) ≡ cut (k + 5) (b ∷ bs)) split
        (place-high (m - 8) b bs hb (place-digit_at bs (m - 8) h))
]

-- No bit, and all of them.
pub cut-zero : (bytes : Bytes) → cut 0 bytes ≡ replicate (length bytes) 0
unfolding cut
cut-zero [] = refl
cut-zero (b ∷ bs) = rw (cut-zero bs) (ground arith)

pub cut-length :
    (bytes : Bytes) (m : ℕ) → IsBytes bytes → length bytes * 8 ≤ m → cut m bytes ≡ bytes
unfolding cut
cut-length [] m h all = refl
cut-length (b ∷ bs) m (hb, h) all =
    let split : 8 + (m - 8) ≡ m = omega arith in
    rw (cut-length bs (m - 8) h (omega arith))
      (ap (λ c. c ∷ bs) (subst (λ k. b % 2 ^ k ≡ b) split (whole (m - 8) b hb)))

five-Small : (m b c : ℕ) → five m b c < 32
unfolding five
five-Small m b c = omega arith

small_low : (m b : ℕ) (bs : Bytes) → m < 8 → b < 256 → IsBytes bs → digit_at (b ∷ bs) m < 32
small_low m b [] low hb h = rw (digit_at-last m b low hb) (five-Small m b 0)
small_low m b (c ∷ cs) low hb (hc, h) = rw (digit_at-first m b c cs low hb hc) (five-Small m b c)

pub digit_at-Small : (bytes : Bytes) (m : ℕ) → IsBytes bytes → digit_at bytes m < 32
digit_at-Small [] m h = unfold digit_at byte_at in ground arith
digit_at-Small (b ∷ bs) m (hb, h) = elim (Bool-cases (ltb m 8)) [
  | inl low ↦ small_low m b bs (ltb→lt m 8 low) hb h
  | inr high ↦
      let split : 8 + (m - 8) ≡ m = ground (arith, high) in
      subst (λ k. digit_at (b ∷ bs) k < 32) split
        (rw (digit_at-next b (m - 8) bs) (digit_at-Small bs (m - 8) h))
]
