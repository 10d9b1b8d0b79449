-- ===== src/Support/Trimmed.antt =====
-- The lines of a text of printable characters, and what trimming keeps of its words.
use Prim.Native.Nat.{ℕ, ◌<◌}
use mathlib.Core.Path.{◌≡◌, refl, sym, ap, ◌∙◌}
use mathlib.Core.Logic.{◌≢◌}
use mathlib.Core.Bool.{Bool, true, ◌&&◌}
use mathlib.Core.List.{List, [], ◌∷◌, ◌++◌, append-nil, append_assoc}
use native.Mathlib.Omega.{arith}
use iroh_nix.Support.Tests.{Bytes, ltb}
use iroh_nix.Support.Lists.{All, All-append, all}
use iroh_nix.Support.Texts.{IsGraphic, white_at, white_at-graphic, join}
use iroh_nix.Support.Lines.{without_return, lines_from, lines, trim, trim_start_from, trim_end_from}

-- Printable ASCII with the space.
abbrev pub IsText : Bytes → Type 0
IsText = All (λ b. (31 < b) × (b < 128))

abbrev pub IsWords : List Bytes → Type 0
IsWords = All (λ s. (s ≢ []) × IsGraphic s)

pub IsGraphic-IsText : (s : Bytes) → IsGraphic s → IsText s
IsGraphic-IsText [] h = tt
IsGraphic-IsText (b ∷ s) ((low, high), h) = ((omega arith, high), IsGraphic-IsText s h)

pub join-IsText : (ss : List Bytes) → IsWords ss → IsText (join ss)
unfolding join
join-IsText [] h = tt
join-IsText (s ∷ []) ((full, h), more) = IsGraphic-IsText s h
join-IsText (s ∷ t ∷ ss) ((full, h), more) =
    All-append (λ b. (31 < b) × (b < 128)) s (32 ∷ join (t ∷ ss)) (IsGraphic-IsText s h)
      ((omega arith, omega arith), join-IsText (t ∷ ss) more)

lines_from-next :
    (b : ℕ) (line s : Bytes) → 31 < b → lines_from line (b ∷ s) ≡ lines_from (line ++ b ∷ []) s
unfolding lines_from
lines_from-next b [] s h = ground (arith, h)
lines_from-next b (c ∷ line) s h = ground (arith, h)

lines_from-end : (line s : Bytes) → lines_from line (10 ∷ s) ≡ without_return line ∷ lines_from [] s
unfolding lines_from
lines_from-end [] s = refl
lines_from-end (c ∷ line) s = refl

lines_from-part :
    (s line t : Bytes) → IsText s → lines_from line (s ++ t) ≡ lines_from (line ++ s) t
lines_from-part [] line t h = rw (append-nil line) refl
lines_from-part (b ∷ s) line t ((low, high), h) =
    lines_from-next b line (s ++ t) low
    ∙ lines_from-part s (line ++ b ∷ []) t h
    ∙ rw (append_assoc line (b ∷ []) s) refl

without_return-text : (s : Bytes) → IsText s → without_return s ≡ s
unfolding without_return
without_return-text [] h = refl
without_return-text (b ∷ []) ((low, high), h) = ground (arith, low)
without_return-text (b ∷ c ∷ s) (hb, h) = ap (◌∷◌ b) (without_return-text (c ∷ s) h)

pub lines-line : (s t : Bytes) → IsText s → lines (s ++ 10 ∷ t) ≡ s ∷ lines t
unfolding lines
lines-line s t h =
    lines_from-part s [] (10 ∷ t) h ∙ lines_from-end s t ∙ rw (without_return-text s h) refl

trim_start_from-graphic : (b : ℕ) (s : Bytes) → 32 < b → b < 128 → trim_start_from 0 (b ∷ s) ≡ b ∷ s
unfolding trim_start_from
trim_start_from-graphic b s low high = simp (white_at-graphic b s low high, trim_start_from)

trim_end_from-next :
    (b : ℕ) (white s : Bytes)
    → 32 < b
    → b < 128
    → trim_end_from 0 white (b ∷ s) ≡ white ++ b ∷ trim_end_from 0 [] s
unfolding trim_end_from
trim_end_from-next b white s low high = simp (white_at-graphic b s low high, trim_end_from)

trim_end_from-graphic :
    (s t : Bytes) → IsGraphic s → trim_end_from 0 [] (s ++ t) ≡ s ++ trim_end_from 0 [] t
trim_end_from-graphic [] t h = refl
trim_end_from-graphic (b ∷ s) t ((low, high), h) =
    trim_end_from-next b [] (s ++ t) low high ∙ ap (◌∷◌ b) (trim_end_from-graphic s t h)

trim_end_from-word :
    (s white t : Bytes)
    → s ≢ []
    → IsGraphic s
    → trim_end_from 0 white (s ++ t) ≡ white ++ (s ++ trim_end_from 0 [] t)
trim_end_from-word [] white t full h = elim (full refl) [ ]
trim_end_from-word (b ∷ s) white t full ((low, high), h) =
    trim_end_from-next b white (s ++ t) low high
    ∙ ap (λ rest. white ++ b ∷ rest) (trim_end_from-graphic s t h)

trim_end_from-space : (s : Bytes) → trim_end_from 0 [] (32 ∷ s) ≡ trim_end_from 0 (32 ∷ []) s
unfolding trim_end_from white_at
trim_end_from-space s = refl

trim_end_from-join :
    (s white : Bytes) (ss : List Bytes)
    → IsWords (s ∷ ss)
    → trim_end_from 0 white (join (s ∷ ss)) ≡ white ++ join (s ∷ ss)
unfolding join
trim_end_from-join s white [] ((full, h), more) =
    ap (trim_end_from 0 white) (sym (append-nil s))
    ∙ trim_end_from-word s white [] full h
    ∙ unfold trim_end_from in rw (append-nil s) refl
trim_end_from-join s white (t ∷ ss) ((full, h), more) =
    trim_end_from-word s white (32 ∷ join (t ∷ ss)) full h
    ∙ ap (λ rest. white ++ (s ++ rest))
        (trim_end_from-space (join (t ∷ ss)) ∙ trim_end_from-join t (32 ∷ []) ss more)

trim_start_from-join :
    (s : Bytes) (ss : List Bytes)
    → IsWords (s ∷ ss)
    → trim_start_from 0 (join (s ∷ ss)) ≡ join (s ∷ ss)
unfolding join
trim_start_from-join [] ss ((full, h), more) = elim (full refl) [ ]
trim_start_from-join (b ∷ s) [] ((full, ((low, high), h)), more) =
    trim_start_from-graphic b s low high
trim_start_from-join (b ∷ s) (t ∷ ss) ((full, ((low, high), h)), more) =
    trim_start_from-graphic b (s ++ 32 ∷ join (t ∷ ss)) low high

-- Words with one space between them.
pub trim-join : (ss : List Bytes) → IsWords ss → trim (join ss) ≡ join ss
unfolding trim
trim-join [] h = unfold join trim_start_from trim_end_from in refl
trim-join (s ∷ ss) h = rw (trim_start_from-join s ss h) (trim_end_from-join s [] ss h)

-- Words behind a space.
pub trim-space-join : (ss : List Bytes) → IsWords ss → trim (32 ∷ join ss) ≡ join ss
unfolding trim trim_start_from white_at
trim-space-join ss h = trim-join ss h

-- A word with a space behind it.
pub trim-join-space : (s : Bytes) → s ≢ [] → IsGraphic s → trim (s ++ 32 ∷ []) ≡ s
unfolding trim
trim-join-space [] full h = elim (full refl) [ ]
trim-join-space (b ∷ s) full ((low, high), h) =
    rw (trim_start_from-graphic b (s ++ 32 ∷ []) low high) (
      trim_end_from-graphic (b ∷ s) (32 ∷ []) ((low, high), h)
      ∙ unfold trim_end_from white_at in rw (append-nil s) refl)

abbrev pub is_graphic : ℕ → Bool
is_graphic b = ltb 32 b && ltb b 128

-- A text whose characters are seen to be printable.
pub graphic : (s : Bytes) → all is_graphic s ≡ true → IsGraphic s
graphic [] h = tt
graphic (b ∷ s) h = ((ground (arith, h), ground (arith, h)), graphic s (ground (arith, h)))
