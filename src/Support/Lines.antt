-- ===== src/Support/Lines.antt =====
-- What Rust's `str` offers on lines and numbers in a text, which is its UTF-8 bytes.
use Prim.Native.Nat.{ℕ, zero, suc, ◌+◌, ◌-◌, ◌*◌, ◌/◌, ◌%◌, ◌^◌}
use mathlib.Core.Bool.{◌&&◌}
use mathlib.Core.Option.{Option, none, some}
use mathlib.Core.List.{List, [], ◌∷◌, ◌++◌}
use iroh_nix.Support.Tests.{Bytes, ltb, leb, nat_eq, if◌then◌else◌}
use iroh_nix.Support.Texts.{white_at}

-- A line without the `\r` at its end.
unfoldable pub without_return : Bytes → Bytes
without_return [] = []
without_return (b ∷ []) = if nat_eq b 13 then [] else b ∷ []
without_return (b ∷ c ∷ s) = b ∷ without_return (c ∷ s)

-- `s.lines()`, with the line that has been read
unfoldable pub lines_from : Bytes → Bytes → List Bytes
lines_from [] [] = []
lines_from (c ∷ line) [] = (c ∷ line) ∷ []
lines_from line (b ∷ s) =
    if nat_eq b 10 then without_return line ∷ lines_from [] s else lines_from (line ++ b ∷ []) s

unfoldable pub lines : Bytes → List Bytes
lines s = lines_from [] s

-- `s.trim_start()`, with the bytes of a white space that are yet to be skipped
unfoldable pub trim_start_from : ℕ → Bytes → Bytes
trim_start_from skip [] = []
trim_start_from (suc skip) (b ∷ s) = trim_start_from skip s
trim_start_from zero (b ∷ s) =
    let next : ℕ → Bytes = λ k. trim_start_from k s in
    elim (white_at b s) [ zero ↦ b ∷ s | suc k ↦ next k ]

-- `s.trim_end()`, with the bytes that are yet to be skipped and the white space that was skipped
unfoldable pub trim_end_from : ℕ → Bytes → Bytes → Bytes
trim_end_from skip white [] = []
trim_end_from (suc skip) white (b ∷ s) = trim_end_from skip (white ++ b ∷ []) s
trim_end_from zero white (b ∷ s) =
    let next : ℕ → Bytes = λ k. trim_end_from k (white ++ b ∷ []) s in
    let more = trim_end_from zero [] s in
    elim (white_at b s) [ zero ↦ white ++ b ∷ more | suc k ↦ next k ]

unfoldable pub trim : Bytes → Bytes
trim s = trim_end_from 0 [] (trim_start_from 0 s)

-- `s.split_once(c)` for an ASCII character
unfoldable pub split_once : ℕ → Bytes → Option (Bytes × Bytes)
split_once c [] = none
split_once c (b ∷ s) =
    let rest = split_once c s in
    if nat_eq b c
    then some ([], s)
    else elim rest [ none ↦ none | some (before, behind) ↦ some (b ∷ before, behind) ]

-- The digits of a number, of which there is one at least, to the number that has been read.
unfoldable pub parse_digits : ℕ → Bytes → Option ℕ
parse_digits n [] = some n
parse_digits n (b ∷ s) =
    let rest = parse_digits (n * 10 + (b - 48)) s in if leb 48 b && leb b 57 then rest else none

unfoldable pub in_u64 : Option ℕ → Option ℕ
in_u64 none = none
in_u64 (some n) = if ltb n (2 ^ 64) then some n else none

-- `s.parse::<u64>().ok()`, which takes a sign `+`
unfoldable pub parse_unsigned : Bytes → Option ℕ
parse_unsigned [] = none
parse_unsigned (b ∷ s) = in_u64 (parse_digits 0 (b ∷ s))

unfoldable pub parse_u64 : Bytes → Option ℕ
parse_u64 [] = none
parse_u64 (b ∷ s) = if nat_eq b 43 then parse_unsigned s else parse_unsigned (b ∷ s)

-- `n.to_string()`, on fuel, of which the number itself is enough
unfoldable pub decimal_from : ℕ → ℕ → Bytes
decimal_from zero n = (48 + n % 10) ∷ []
decimal_from (suc fuel) n =
    let rest = decimal_from fuel (n / 10) in
    if ltb n 10 then (48 + n) ∷ [] else rest ++ (48 + n % 10) ∷ []

unfoldable pub decimal : ℕ → Bytes
decimal n = decimal_from n n

-- `s.to_lowercase()`, of ASCII letters
unfoldable pub to_lowercase : Bytes → Bytes
to_lowercase [] = []
to_lowercase (b ∷ s) = (if leb 65 b && leb b 90 then b + 32 else b) ∷ to_lowercase s
