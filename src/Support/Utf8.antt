-- ===== src/Support/Utf8.antt =====
-- Which byte strings Rust's `String::from_utf8` accepts: the well-formed UTF-8 of the Unicode
-- standard (table 3-7), by the ranges of the bytes that a lead byte calls for.
use Prim.Native.Nat.{ℕ, ◌<◌}
use mathlib.Core.Path.{◌≡◌, refl}
use mathlib.Core.Bool.{Bool, true, false, ◌&&◌}
use mathlib.Core.Option.{Option, none, some}
use mathlib.Core.List.{List, [], ◌∷◌}
use native.Mathlib.Omega.{arith}
use iroh_nix.Support.Tests.{Bytes, leb, ltb, nat_eq, if◌then◌else◌}
use iroh_nix.Support.Lists.{All}

abbrev tail : ℕ × ℕ
tail = (0x80, 0xBF)

-- The ranges of the bytes that follow a lead byte.
unfoldable pub continuation : ℕ → Option (List (ℕ × ℕ))
continuation b =
    if ltb b 0x80
    then some []
    else if ltb b 0xC2
    then none
    else if ltb b 0xE0
    then some (tail ∷ [])
    else if nat_eq b 0xE0
    then some ((0xA0, 0xBF) ∷ tail ∷ [])
    else if nat_eq b 0xED
    then some ((0x80, 0x9F) ∷ tail ∷ [])
    else if ltb b 0xF0
    then some (tail ∷ tail ∷ [])
    else if nat_eq b 0xF0
    then some ((0x90, 0xBF) ∷ tail ∷ tail ∷ [])
    else if ltb b 0xF4
    then some (tail ∷ tail ∷ tail ∷ [])
    else if nat_eq b 0xF4
    then some ((0x80, 0x8F) ∷ tail ∷ tail ∷ [])
    else none

unfoldable pub follows : List (ℕ × ℕ) → Bytes → Bool
follows [] [] = true
follows (r ∷ rs) [] = false
follows [] (b ∷ bs) = elim (continuation b) [ none ↦ false | some rs ↦ follows rs bs ]
follows ((lo, hi) ∷ rs) (b ∷ bs) = leb lo b && leb b hi && follows rs bs

unfoldable pub is_utf8 : Bytes → Bool
unfolding follows continuation
is_utf8 = follows []

follows_ascii : (bs : Bytes) → All (λ b. b < 0x80) bs → follows [] bs ≡ true
unfolding follows continuation
follows_ascii [] h = refl
follows_ascii (b ∷ bs) (small, rest) = ground (arith, follows_ascii bs rest)

pub is_utf8-ascii : (bs : Bytes) → All (λ b. b < 0x80) bs → is_utf8 bs ≡ true
unfolding is_utf8
is_utf8-ascii = follows_ascii

accepts_accents : is_utf8 (0xC3 ∷ 0xA9 ∷ 0xE2 ∷ 0x82 ∷ 0xAC ∷ []) ≡ true
unfolding is_utf8
accepts_accents = refl

refuses_surrogate : is_utf8 (0xED ∷ 0xA0 ∷ 0x80 ∷ []) ≡ false
unfolding is_utf8
refuses_surrogate = refl
