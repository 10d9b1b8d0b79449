-- ===== src/Nix32/RoundTrip.antt =====
-- The base 32 of Nix: decoding what was encoded.
use iroh_nix.Support.{
  ℕ, zero, suc, ◌+◌, ◌*◌, ◌%◌, ◌<◌, ◌≡◌, refl, sym, ap, ◌∙◌, inl, inr, Bool, true, false, ◌&&◌,
  none, some, List, [], ◌∷◌, ◌++◌, reverse, arith, ltb, nat_eq, nat_eq_iff, Bool-cases,
  Option-cases, Bytes, codes, eq_nat, eq_bytes, length, replicate, All, length-append,
}
use iroh_nix.Support.Words.{IsBytes}
use mathlib.Core.Path.{subst}
use mathlib.Core.List.{reverse-cons}
use iroh_nix.Error.{protocol, ok, err, ◌>>=◌}
use iroh_nix.Nix32.{
  nix32_alphabet, digit_at, byte_at, place, position_of, base32_digits, to_nix_base32, chars,
  chars_from, decode_nix32, decode_nix32_loop,
}
use iroh_nix.Nix32.Digits.{cut, place-digit_at, cut-zero, cut-length, digit_at-Small}

-- A test that holds of the numbers below n.
unfoldable pub below : (ℕ → Bool) → ℕ → Bool
below p zero = true
below p (suc n) = p n && below p n

pub below-holds : (p : ℕ → Bool) (n i : ℕ) → below p n ≡ true → i < n → p i ≡ true
unfolding below
below-holds p zero i h lt = ground (arith, lt)
below-holds p (suc n) i h lt = elim (Bool-cases (nat_eq i n)) [
  | inl e ↦ ground (arith, ap p ((nat_eq_iff i n).0 e), h)
  | inr e ↦ ground (arith, e, h, below-holds p n i)
]

finds : ℕ → Bool
finds d =
    ltb (byte_at d nix32_alphabet) 128
    && elim (position_of (byte_at d nix32_alphabet % 256) nix32_alphabet) [
      | none ↦ false
      | some i ↦ nat_eq i d
    ]

-- A digit is found again by its character, which is ASCII.
pub character :
    (d : ℕ)
    → d < 32
    → (byte_at d nix32_alphabet < 128)
      × (position_of (byte_at d nix32_alphabet % 256) nix32_alphabet ≡ some d)
unfolding finds
character d h =
    let holds = below-holds finds 32 d (unfold below position_of byte_at in refl) h in
    (
      ground (arith, holds),
      elim (Option-cases (position_of (byte_at d nix32_alphabet % 256) nix32_alphabet)) [
        | inl e ↦ ground (arith, holds, e)
        | inr (i, e) ↦ ground (arith, holds, e)
      ],
    )

length-reverse : (s : Bytes) → length (reverse s) ≡ length s
length-reverse [] = refl
length-reverse (b ∷ s) =
    rw (reverse-cons b s, length-append (reverse s) (b ∷ [])) (omega (arith, length-reverse s))

pub length-base32_digits : (bytes : Bytes) (n : ℕ) → length (base32_digits bytes n) ≡ n
unfolding base32_digits
length-base32_digits bytes zero = refl
length-base32_digits bytes (suc n) = ap suc (length-base32_digits bytes n)

pub base32_digits-IsAscii :
    (bytes : Bytes) (n : ℕ) → IsBytes bytes → All (λ b. b < 128) (base32_digits bytes n)
unfolding base32_digits
base32_digits-IsAscii bytes zero h = tt
base32_digits-IsAscii bytes (suc n) h = (
  (character (digit_at bytes (n * 5)) (digit_at-Small bytes (n * 5) h)).0,
  base32_digits-IsAscii bytes n h,
)

pub chars-ascii : (s : Bytes) → All (λ b. b < 128) s → chars_from 0 0 s ≡ s
unfolding chars_from
chars-ascii [] h = refl
chars-ascii (b ∷ s) (hb, h) = ground (arith, chars-ascii s h)

-- One round of the loop.
loop-digit :
    (i c digit : ℕ) (cs : List ℕ) (out : Bytes)
    → position_of (c % 256) nix32_alphabet ≡ some digit
    → decode_nix32_loop i (c ∷ cs) out ≡ decode_nix32_loop (i + 1) cs (place (i * 5) digit out)
unfolding decode_nix32_loop
loop-digit i c digit cs out e = ground (arith, e)

loop-invalid :
    (i c : ℕ) (cs : List ℕ) (out : Bytes)
    → position_of (c % 256) nix32_alphabet ≡ none
    → decode_nix32_loop i (c ∷ cs) out ≡ err (protocol (codes "invalid nix32 character: "))
unfolding decode_nix32_loop
loop-invalid i c cs out e = ground (arith, e)

loop-snoc :
    (i c : ℕ) (cs : List ℕ) (out : Bytes)
    → decode_nix32_loop i (cs ++ c ∷ []) out
      ≡ (decode_nix32_loop i cs out >>= decode_nix32_loop (i + length cs) (c ∷ []))
loop-snoc i c [] out =
    let same : i + 0 ≡ i = omega arith in unfold decode_nix32_loop in rw same refl
loop-snoc i c (d ∷ cs) out =
    let same : i + suc (length cs) ≡ i + 1 + length cs = omega arith in
    elim (Option-cases (position_of (d % 256) nix32_alphabet)) [
      | inl e ↦ rw (loop-invalid i d (cs ++ c ∷ []) out e, loop-invalid i d cs out e) refl
      | inr (digit, e) ↦
          rw (loop-digit i d digit (cs ++ c ∷ []) out e, loop-digit i d digit cs out e, same)
            (loop-snoc (i + 1) c cs (place (i * 5) digit out))
    ]

-- The digits, from the least, fill the bytes from the first bit.
decode_digits :
    (bytes : Bytes) (n : ℕ)
    → IsBytes bytes
    → decode_nix32_loop 0 (reverse (base32_digits bytes n)) (replicate (length bytes) 0)
      ≡ ok (cut (n * 5) bytes)
unfolding base32_digits
decode_digits bytes zero h = unfold decode_nix32_loop in ap ok (sym (cut-zero bytes))
decode_digits bytes (suc n) h =
    let c = byte_at (digit_at bytes (n * 5)) nix32_alphabet in
    rw
      (
        reverse-cons c (base32_digits bytes n),
        loop-snoc 0 c (reverse (base32_digits bytes n)) (replicate (length bytes) 0),
        decode_digits bytes n h,
        length-reverse (base32_digits bytes n),
        length-base32_digits bytes n,
      )
      (let first : 0 + n ≡ n = omega arith in
        let next : suc n * 5 ≡ n * 5 + 5 = omega arith in
        let found = (character (digit_at bytes (n * 5)) (digit_at-Small bytes (n * 5) h)).1 in
        rw (first, next, loop-digit n c (digit_at bytes (n * 5)) [] (cut (n * 5) bytes) found)
          (unfold decode_nix32_loop in ap ok (place-digit_at bytes (n * 5) h)))

-- A hash of 32 bytes that is printed in Nix's base 32 is decoded to the same bytes.
decode_nix32-to_nix_base32 :
    (bytes : Bytes)
    → IsBytes bytes
    → length bytes ≡ 32
    → decode_nix32 (to_nix_base32 bytes) ≡ ok bytes
unfolding decode_nix32 to_nix_base32 chars
decode_nix32-to_nix_base32 bytes h size =
    let all_digits = decode_digits bytes 52 h in
    let whole = cut-length bytes 260 h (omega (arith, size)) in
    rw
      (
        size,
        length-base32_digits bytes 52,
        chars-ascii (base32_digits bytes 52) (base32_digits-IsAscii bytes 52 h),
      )
      (subst
        (λ k. decode_nix32_loop 0 (reverse (base32_digits bytes 52)) (replicate k 0) ≡ ok bytes)
        size (all_digits ∙ ap ok whole))
