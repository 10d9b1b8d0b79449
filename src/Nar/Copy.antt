-- ===== src/Nar/Copy.antt =====
-- What the loop of `write_file` in iroh-nix/src/nar.rs copies of a file.
use iroh_nix.Support.{
  ℕ, zero, suc, ◌-◌, ◌≤◌, min, ◌≡◌, refl, ap, ◌∙◌, Bool, List, [], ◌∷◌, ◌++◌, arith, leb,
  if◌then◌else◌, Bytes, eq_nat, eq_bytes, length, take, drop, length-take, length-drop,
}
use iroh_nix.Error.{Error, ok, err, ◌>>=◌}
use iroh_nix.Nar.{no_more, copy_loop}

module _ {ℓ} {A : Type ℓ} where
  take-nil : (n : ℕ) → take {A = A} n [] ≡ []
  take-nil zero = refl
  take-nil (suc n) = refl

-- What is taken in two steps is what is taken in one.
take-drop-append {ℓ} :
    {A : Type ℓ} (n k : ℕ) (xs : List A)
    → k ≤ n
    → take k xs ++ take (n - length (take k xs)) (drop (length (take k xs)) xs) ≡ take n xs
take-drop-append n zero xs h = ap (λ m. take m xs) (omega arith)
take-drop-append zero (suc k) xs h = elim h [ ]
take-drop-append (suc n) (suc k) [] h = take-nil (suc n - 0)
take-drop-append (suc n) (suc k) (x ∷ xs) h = ap (◌∷◌ x) (
    ap (λ m. take k xs ++ take m (drop (length (take k xs)) xs)) (omega arith)
    ∙ take-drop-append n k xs (omega (arith, h)))

leb-minus : (a b n : ℕ) → n ≤ a → n ≤ b → leb (a - n) (b - n) ≡ leb a b
leb-minus a b n ha hb = ground arith

-- One turn of the loop, where the rest is copied as `copy_loop_lem` says.
turn :
    (size k : ℕ) (file : Bytes) (e : Error)
    → k ≤ size
    → (if leb (size - length (take k file)) (length (drop (length (take k file)) file))
          then ok (take (size - length (take k file)) (drop (length (take k file)) file))
          else err e)
        >>= (λ rest. ok (take k file ++ rest))
      ≡ (if leb size (length file) then ok (take size file) else err e)
turn size k file e h = ground (
  arith,
  leb-minus size (length file) (length (take k file)),
  length-take k file,
  length-drop (length (take k file)) file,
  take-drop-append size k file h,
)

-- Given as many turns as the size, the loop gives the stated size of the file's contents, and an
-- error where the file is shorter.
pub copy_loop_lem :
    (fuel size : ℕ) (file : Bytes) (broken : Bool)
    → size ≤ fuel
    → copy_loop fuel size file broken
      ≡ (if leb size (length file) then ok (take size file) else err (no_more broken))
unfolding copy_loop
copy_loop_lem zero zero file broken h = ground arith
copy_loop_lem zero (suc size) file broken h = elim h [ ]
copy_loop_lem (suc fuel) size file broken h = ground (
  arith,
  copy_loop_lem fuel (size - length (take (min size 65536) file))
      (drop (length (take (min size 65536) file)) file) broken,
  turn size (min size 65536) file (no_more broken),
  length-take (min size 65536) file,
)
