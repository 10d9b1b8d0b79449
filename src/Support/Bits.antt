-- ===== src/Support/Bits.antt =====
-- Rust's `|` of unsigned integers, bit by bit.
use Prim.Native.Nat.{ℕ, zero, suc, ◌+◌, ◌*◌, ◌/◌, ◌%◌, ◌^◌, ◌<◌}
use mathlib.Core.Path.{◌≡◌, ap}
use mathlib.Core.Bool.{◌||◌}
use native.Mathlib.Omega.{arith}
use native.Mathlib.Nat.{pow-suc}
use iroh_nix.Support.Tests.{if◌then◌else◌, nat_eq}

-- `a | b` of two integers of `w` bits
unfoldable pub bit_or : ℕ → ℕ → ℕ → ℕ
bit_or zero a b = 0
bit_or (suc w) a b =
    (if nat_eq (a % 2) 1 || nat_eq (b % 2) 1 then 1 else 0) + 2 * bit_or w (a / 2) (b / 2)

pub bit_or-zero : (w b : ℕ) → b < 2 ^ w → bit_or w 0 b ≡ b
unfolding bit_or
bit_or-zero zero b h = omega arith
bit_or-zero (suc w) b h = ground (arith, bit_or-zero w (b / 2) (omega (arith, h, pow-suc 2 w)))

twice : (k b : ℕ) → b * 2 ^ suc k ≡ 2 * (b * 2 ^ k)
twice k b = rw (pow-suc 2 k) (omega arith)

-- Integers that have no bit in common are added.
pub bit_or-shifted :
    (w k a b : ℕ)
    → a < 2 ^ k
    → a < 2 ^ w
    → b * 2 ^ k < 2 ^ w
    → bit_or w a (b * 2 ^ k) ≡ a + b * 2 ^ k
unfolding bit_or
bit_or-shifted zero k a b h small fits = omega arith
bit_or-shifted (suc w) zero a b h small fits =
    let half_zero : a / 2 ≡ 0 = omega arith in
    ground (
      arith,
      bit_or-zero w (b / 2) (omega (arith, pow-suc 2 w)),
      ap (λ n. bit_or w n (b / 2)) (half_zero),
    )
bit_or-shifted (suc w) (suc k) a b h small fits = rw (twice k b) (
    let next =
      bit_or-shifted w k (a / 2) b (omega (arith, pow-suc 2 k)) (omega (arith, pow-suc 2 w))
        (omega (arith, twice k b, pow-suc 2 w)) in
    let half : 2 * (b * 2 ^ k) / 2 ≡ b * 2 ^ k = omega arith in ground (arith, next, half))
