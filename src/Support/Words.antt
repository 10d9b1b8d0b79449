-- ===== src/Support/Words.antt =====
-- `to_le_bytes` and `from_le_bytes` of Rust's unsigned integers of `w` bytes, and the padding of
-- the Nix formats to a multiple of 8.
use Prim.Native.Nat.{ℕ, zero, suc, ◌+◌, ◌-◌, ◌*◌, ◌/◌, ◌%◌, ◌^◌, ◌<◌}
use mathlib.Core.Path.{◌≡◌, refl}
use mathlib.Core.List.{[], ◌∷◌}
use native.Mathlib.Omega.{arith}
use native.Mathlib.Nat.{pow-suc}
use iroh_nix.Support.Tests.{Bytes}
use iroh_nix.Support.Lists.{length, All}

unfoldable pub to_le_bytes : ℕ → ℕ → Bytes
to_le_bytes zero n = []
to_le_bytes (suc w) n = (n % 256) ∷ to_le_bytes w (n / 256)

unfoldable pub from_le_bytes : Bytes → ℕ
from_le_bytes [] = 0
from_le_bytes (b ∷ bs) = b + 256 * from_le_bytes bs

abbrev pub IsBytes : Bytes → Type 0
IsBytes = All (λ b. b < 256)

pub length-to_le_bytes : (w n : ℕ) → length (to_le_bytes w n) ≡ w
unfolding to_le_bytes
length-to_le_bytes zero n = refl
length-to_le_bytes (suc w) n = omega (arith, length-to_le_bytes w (n / 256))

pub from_le_bytes-to_le_bytes : (w n : ℕ) → n < 256 ^ w → from_le_bytes (to_le_bytes w n) ≡ n
unfolding to_le_bytes from_le_bytes
from_le_bytes-to_le_bytes zero n h = omega arith
from_le_bytes-to_le_bytes (suc w) n h =
    let fits : n / 256 < 256 ^ w = omega (arith, pow-suc 256 w) in
    omega (arith, from_le_bytes-to_le_bytes w (n / 256) fits)

pub IsBytes-to_le_bytes : (w n : ℕ) → IsBytes (to_le_bytes w n)
unfolding to_le_bytes
IsBytes-to_le_bytes zero n = tt
IsBytes-to_le_bytes (suc w) n = (omega arith, IsBytes-to_le_bytes w (n / 256))

-- `(8 - (len % 8)) % 8`
unfoldable pub padding : ℕ → ℕ
padding len = (8 - len % 8) % 8

pub padding_lem : (len : ℕ) → ((len + padding len) % 8 ≡ 0) × (padding len < 8)
unfolding padding
padding_lem len = omega arith
