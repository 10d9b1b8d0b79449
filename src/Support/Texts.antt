-- ===== src/Support/Texts.antt =====
-- What Rust's `str` offers on a text, which is its UTF-8 bytes.
use Prim.Native.Nat.{ℕ, zero, suc, ◌<◌}
use mathlib.Core.Path.{◌≡◌, refl, sym, ap, ◌∙◌}
use mathlib.Core.Logic.{◌≢◌}
use mathlib.Core.Bool.{Bool, true, false, ◌&&◌, ◌||◌}
use mathlib.Core.Option.{Option, none, some}
use mathlib.Core.List.{List, [], ◌∷◌, ◌++◌, append-nil, append_assoc}
use native.Mathlib.Omega.{arith}
use iroh_nix.Support.Tests.{Bytes, leb, nat_eq, if◌then◌else◌, ◌==◌, eq_nat, ==-refl}
use iroh_nix.Support.Lists.{All}

-- `s.strip_prefix(pre)`, for a `pre` that is the first argument
unfoldable pub strip_prefix : Bytes → Bytes → Option Bytes
strip_prefix [] s = some s
strip_prefix (c ∷ pre) [] = none
strip_prefix (c ∷ pre) (b ∷ s) =
    let rest = strip_prefix pre s in elim (b == c) [ true ↦ rest | false ↦ none ]

pub strip_prefix-append : (pre s : Bytes) → strip_prefix pre (pre ++ s) ≡ some s
unfolding strip_prefix
strip_prefix-append [] s = refl
strip_prefix-append (c ∷ pre) s = rw (strip_prefix, ==-refl c) (strip_prefix-append pre s)

pub strip_prefix-only : (pre s t : Bytes) → strip_prefix pre s ≡ some t → s ≡ pre ++ t
unfolding strip_prefix
strip_prefix-only [] s t h = cc
strip_prefix-only (c ∷ pre) [] t h = cc
strip_prefix-only (c ∷ pre) (b ∷ s) t h =
    ground (arith, strip_prefix-only pre s t, eq_nat.beq_iff b c)

-- `s.split(c).next()` for an ASCII character, which is never `None`
unfoldable pub before_char : ℕ → Bytes → Bytes
before_char c [] = []
before_char c (b ∷ s) = let rest = before_char c s in elim (b == c) [ true ↦ [] | false ↦ b ∷ rest ]

-- The number of bytes of the white space that a text starts with, by Unicode's White_Space.
unfoldable pub white_two : ℕ → ℕ
white_two b = if nat_eq b 0x85 || nat_eq b 0xA0 then 2 else 0

unfoldable pub is_wide_white : ℕ → ℕ → ℕ → Bool
is_wide_white a b c =
    (nat_eq a 0xE1 && nat_eq b 0x9A && nat_eq c 0x80)
    || ((nat_eq a 0xE2
          && nat_eq b 0x80
          && (leb 0x80 c && leb c 0x8A || nat_eq c 0xA8 || nat_eq c 0xA9 || nat_eq c 0xAF))
        || ((nat_eq a 0xE2 && nat_eq b 0x81 && nat_eq c 0x9F)
            || (nat_eq a 0xE3 && nat_eq b 0x80 && nat_eq c 0x80)))

unfoldable pub white_wide : ℕ → Bytes → ℕ
unfolding is_wide_white
white_wide a (b ∷ c ∷ s) = if is_wide_white a b c then 3 else 0
white_wide a (b ∷ []) = 0
white_wide a [] = 0

unfoldable pub white_at : ℕ → Bytes → ℕ
unfolding white_two white_wide
white_at a s =
    if nat_eq a 32 || (leb 9 a && leb a 13)
    then 1
    else if nat_eq a 0xC2
    then elim s [ [] ↦ 0 | b ∷ more ↦ white_two b ]
    else if leb 0xE1 a
    then white_wide a s
    else 0

unfoldable pub flush : Bytes → List Bytes → List Bytes
flush [] rest = rest
flush (b ∷ word) rest = (b ∷ word) ∷ rest

-- The loop of `split_whitespace`, with the bytes of a white space that are yet to be skipped and
-- the word that has been read.
unfoldable pub words_from : ℕ → Bytes → Bytes → List Bytes
unfolding flush white_at
words_from skip word [] = flush word []
words_from (suc skip) word (b ∷ s) = words_from skip word s
words_from zero word (b ∷ s) =
    let more = words_from zero (word ++ b ∷ []) s in
    let next : ℕ → List Bytes = λ k. words_from k [] s in
    elim (white_at b s) [ zero ↦ more | suc k ↦ flush word (next k) ]

unfoldable pub split_whitespace : Bytes → List Bytes
unfolding words_from
split_whitespace s = words_from zero [] s

-- `v.join(" ")`
unfoldable pub join : List Bytes → Bytes
join [] = []
join (s ∷ []) = s
join (s ∷ t ∷ ss) = s ++ 32 ∷ join (t ∷ ss)

-- Printable ASCII without the space.
abbrev pub IsGraphic : Bytes → Type 0
IsGraphic = All (λ b. (32 < b) × (b < 128))

pub white_at-graphic : (b : ℕ) (s : Bytes) → 32 < b → b < 128 → white_at b s ≡ 0
unfolding white_at
white_at-graphic b s h k = ground arith

words_from-graphic :
    (s word t : Bytes) → IsGraphic s → words_from 0 word (s ++ t) ≡ words_from 0 (word ++ s) t
unfolding words_from
words_from-graphic [] word t h = rw (append-nil word) refl
words_from-graphic (b ∷ s) word t ((low, high), h) =
    rw (words_from, white_at-graphic b (s ++ t) low high)
      (words_from-graphic s (word ++ b ∷ []) t h ∙ rw (append_assoc word (b ∷ []) s) refl)

flush-word : (s : Bytes) (rest : List Bytes) → s ≢ [] → flush s rest ≡ s ∷ rest
unfolding flush
flush-word [] rest h = elim (h refl) [ ]
flush-word (b ∷ s) rest h = refl

-- A word of printable characters that does not stand last.
words_from-word :
    (s t : Bytes) → s ≢ [] → IsGraphic s → words_from 0 [] (s ++ 32 ∷ t) ≡ s ∷ words_from 0 [] t
words_from-word s t full h =
    words_from-graphic s [] (32 ∷ t) h
    ∙ unfold words_from white_at in flush-word s (words_from 0 [] t) full

-- Words of printable characters come back from the text that they are joined to.
pub split_whitespace-join :
    (ss : List Bytes) → All (λ s. (s ≢ []) × IsGraphic s) ss → split_whitespace (join ss) ≡ ss
unfolding split_whitespace join words_from
split_whitespace-join [] h = unfold words_from flush in refl
split_whitespace-join (s ∷ []) ((full, h), more) =
    ap (words_from 0 []) (sym (append-nil s)) ∙ words_from-graphic s [] [] h ∙ flush-word s [] full
split_whitespace-join (s ∷ t ∷ ss) ((full, h), more) =
    words_from-word s (join (t ∷ ss)) full h ∙ ap (◌∷◌ s) (split_whitespace-join (t ∷ ss) more)
