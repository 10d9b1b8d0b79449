-- ===== src/Support/Decimals.antt =====
-- A number that is printed in decimal and read again.
use Prim.Native.Nat.{ℕ, zero, suc, ◌+◌, ◌-◌, ◌*◌, ◌/◌, ◌%◌, ◌^◌, ◌≤◌, ◌<◌}
use mathlib.Core.Path.{◌≡◌, refl, ap, ◌∙◌}
use mathlib.Core.Logic.{◌≢◌, inl, inr}
use mathlib.Core.Option.{some}
use mathlib.Core.List.{[], ◌∷◌, ◌++◌}
use native.Mathlib.Omega.{arith}
use iroh_nix.Support.Tests.{Bytes, ltb, Bool-cases}
use iroh_nix.Support.Lists.{All, All-append}
use iroh_nix.Support.Texts.{IsGraphic}
use iroh_nix.Support.Lines.{parse_digits, in_u64, parse_unsigned, parse_u64, decimal, decimal_from}

-- One digit or more.
abbrev IsDigits : Bytes → Type 0
IsDigits s = (s ≢ []) × All (λ b. (47 < b) × (b < 58)) s

snoc_full : (s : Bytes) (b : ℕ) → s ++ b ∷ [] ≢ []
snoc_full [] b = λ e. cc
snoc_full (c ∷ s) b = λ e. cc

decimal_from-IsDigits : (fuel n : ℕ) → IsDigits (decimal_from fuel n)
unfolding decimal_from
decimal_from-IsDigits zero n = ((λ e. cc), ((omega arith, omega arith), tt))
decimal_from-IsDigits (suc fuel) n = elim (Bool-cases (ltb n 10)) [
  | inl e ↦ rw e ((λ e. cc), ((omega arith, ground (arith, e)), tt))
  | inr e ↦ rw e (
    snoc_full (decimal_from fuel (n / 10)) (48 + n % 10),
    All-append (λ b. (47 < b) × (b < 58)) (decimal_from fuel (n / 10)) ((48 + n % 10) ∷ [])
        (decimal_from-IsDigits fuel (n / 10)).1 ((omega arith, omega arith), tt),
  )
]

parse_digits-snoc :
    (m n d : ℕ) (s : Bytes)
    → d < 10
    → parse_digits m s ≡ some n
    → parse_digits m (s ++ (48 + d) ∷ []) ≡ some (n * 10 + d)
unfolding parse_digits
parse_digits-snoc m n d [] small h = ground (arith, h)
parse_digits-snoc m n d (b ∷ s) small h =
    ground (arith, h, parse_digits-snoc (m * 10 + (b - 48)) n d s small)

parse_digits-decimal_from : (fuel n : ℕ) → n ≤ fuel → parse_digits 0 (decimal_from fuel n) ≡ some n
unfolding decimal_from
parse_digits-decimal_from zero n h = unfold parse_digits in ground (arith, h)
parse_digits-decimal_from (suc fuel) n h = elim (Bool-cases (ltb n 10)) [
  | inl e ↦ rw e (unfold parse_digits in ground (arith, e))
  | inr e ↦ rw e (
      parse_digits-snoc 0 (n / 10) (n % 10) (decimal_from fuel (n / 10)) (omega arith)
        (parse_digits-decimal_from fuel (n / 10) (ground (arith, e)))
      ∙ ap some (omega arith))
]

parse_u64-IsDigits : (s : Bytes) → IsDigits s → parse_u64 s ≡ in_u64 (parse_digits 0 s)
unfolding parse_u64 parse_unsigned
parse_u64-IsDigits [] (full, h) = elim (full refl) [ ]
parse_u64-IsDigits (b ∷ s) (full, ((low, high), h)) = ground (arith, low)

-- A `u64` comes back.
pub parse_u64-decimal : (n : ℕ) → n < 2 ^ 64 → parse_u64 (decimal n) ≡ some n
unfolding decimal in_u64
parse_u64-decimal n h =
    parse_u64-IsDigits (decimal_from n n) (decimal_from-IsDigits n n)
    ∙ rw (parse_digits-decimal_from n n (omega arith)) (ground (arith, h))

IsDigits-IsGraphic : (s : Bytes) → All (λ b. (47 < b) × (b < 58)) s → IsGraphic s
IsDigits-IsGraphic [] h = tt
IsDigits-IsGraphic (b ∷ s) ((low, high), h) = ((omega arith, omega arith), IsDigits-IsGraphic s h)

pub decimal-IsGraphic : (n : ℕ) → (decimal n ≢ []) × IsGraphic (decimal n)
unfolding decimal
decimal-IsGraphic n =
    let (full, digits) = decimal_from-IsDigits n n in
    (full, IsDigits-IsGraphic (decimal_from n n) digits)
