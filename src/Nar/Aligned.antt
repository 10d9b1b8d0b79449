-- ===== src/Nar/Aligned.antt =====
-- The alignment of what the writer of iroh-nix/src/nar.rs writes.
use iroh_nix.Support.{
  ℕ, ◌%◌, ◌≤◌, ◌≡◌, refl, inl, inr, Bool, true, false, List, [], ◌∷◌, ◌++◌, arith, leb,
  if◌then◌else◌, leb→le, Bool-cases, Bytes, eq_nat, eq_bytes, length, take, replicate, All,
  length-append, length-take,
}
use iroh_nix.Support.Sort.{bytes_lt, insert_sorted, sort_by_key}
use iroh_nix.Support.Words.{to_le_bytes, length-to_le_bytes, padding, padding_lem}
use mathlib.Core.Path.{subst}
use iroh_nix.Error.{Result, ok, err, panic, ◌>>=◌}
use iroh_nix.Nar.{
  Node, Entries, regular, symlink, directory, special, failing, no_entry, entry, write_u64,
  write_string, to_str, write_file, write_symlink, write_members, write_directory, bracket,
  write_entry, written, write_path,
}
use iroh_nix.Nar.Copy.{copy_loop_lem}

abbrev pub IsWhole : Bytes → Type 0
IsWhole b = length b % 8 ≡ 0

-- The bytes, if the result has some, are whole words.
abbrev pub IsAligned : Result Bytes → Type 0
IsAligned (ok b) = IsWhole b
IsAligned (err e) = Unit
IsAligned panic = Unit

IsWhole-append : (a b : Bytes) → IsWhole a → IsWhole b → IsWhole (a ++ b)
IsWhole-append a b ha hb = omega (arith, length-append a b, ha, hb)

padded : (s : Bytes) → IsWhole (s ++ take (padding (length s)) (replicate 8 0))
padded s = omega (
  arith,
  length-append s (take (padding (length s)) (replicate 8 0)),
  length-take {A = ℕ} (padding (length s)) (replicate 8 0),
  padding_lem (length s),
)

IsWhole-write_string : (s : Bytes) → IsWhole (write_string s)
unfolding write_string write_u64
IsWhole-write_string s =
    IsWhole-append (to_le_bytes 8 (length s)) _ (omega (arith, length-to_le_bytes 8 (length s)))
      (padded s)

-- A string in front.
after_string : (s b : Bytes) → IsWhole b → IsWhole (write_string s ++ b)
after_string s b = IsWhole-append (write_string s) b (IsWhole-write_string s)

IsAligned->>= :
    (m : Result Bytes) (k : Bytes → Result Bytes)
    → IsAligned m
    → ((b : Bytes) → IsWhole b → IsAligned (k b))
    → IsAligned (m >>= k)
IsAligned->>= (ok b) k hm hk = hk b hm
IsAligned->>= (err e) k hm hk = tt
IsAligned->>= panic k hm hk = tt

IsAligned-any :
    (m : Result Bytes) (k : Bytes → Result Bytes)
    → ((b : Bytes) → IsAligned (k b))
    → IsAligned (m >>= k)
IsAligned-any (ok b) k hk = hk b
IsAligned-any (err e) k hk = tt
IsAligned-any panic k hk = tt

IsAligned-bracket : (m : Result Bytes) → IsAligned m → IsAligned (bracket m)
unfolding bracket
IsAligned-bracket m h =
    IsAligned->>= m _ h (λ b w. after_string _ _ (IsWhole-append b _ w (IsWhole-write_string _)))

IsAligned-write_symlink : (target : Bytes) → IsAligned (write_symlink target)
unfolding write_symlink to_str
IsAligned-write_symlink target =
    IsAligned-any (to_str _ target) _
      (λ t. after_string _ _ (after_string _ _ (after_string _ _ (IsWhole-write_string t))))

IsWhole-flag : (b : Bool) (s : Bytes) → IsWhole s → IsWhole (if b then [] else s)
IsWhole-flag true s h = refl
IsWhole-flag false s h = h

-- The contents of a file, with their size in front and the padding behind.
IsWhole-contents :
    (size : ℕ) (file : Bytes)
    → size ≤ length file
    → IsWhole (write_u64 size ++ (take size file ++ take (padding size) (replicate 8 0)))
unfolding write_u64
IsWhole-contents size file h =
    IsWhole-append (to_le_bytes 8 size) _ (omega (arith, length-to_le_bytes 8 size)) (
      omega (
        arith,
        length-append (take size file) (take (padding size) (replicate 8 0)),
        length-take size file,
        length-take {A = ℕ} (padding size) (replicate 8 0),
        padding_lem size,
      ))

IsAligned-write_file :
    (mode size : ℕ) (file : Bytes) (broken : Bool) → IsAligned (write_file mode size file broken)
unfolding write_file
IsAligned-write_file mode size file broken = elim (Bool-cases (leb size (length file))) [
  | inl whole ↦
      rw (copy_loop_lem size size file broken (omega arith), whole)
        (after_string _ _ (
          after_string _ _ (
            IsWhole-append _ _ (IsWhole-flag _ _ (after_string _ _ (IsWhole-write_string [])))
              (after_string _ _ (IsWhole-contents size file (leb→le size (length file) whole))))))
  | inr short ↦ rw (copy_loop_lem size size file broken (omega arith), short) tt
]

abbrev AllAligned : List (Bytes × Result Bytes) → Type 0
AllAligned l = All (λ (name, body). IsAligned body) l

IsAligned-write_members :
    (l : List (Bytes × Result Bytes)) → AllAligned l → IsAligned (write_members l)
unfolding write_members to_str
IsAligned-write_members [] h = refl
IsAligned-write_members ((name, body) ∷ l) h = IsAligned-any (to_str _ name) _ (λ n.
    IsAligned->>= body _ h.0 (λ b w.
      IsAligned->>= (write_members l) _ (IsAligned-write_members l h.1) (λ rest w'.
        after_string _ _ (
          after_string _ _ (
            after_string _ _ (
              after_string _ _
                (after_string _ _ (IsWhole-append b _ w (after_string _ rest w')))))))))

AllAligned-insert_sorted :
    (k : Bytes) (m : Result Bytes) (l : List (Bytes × Result Bytes))
    → IsAligned m
    → AllAligned l
    → AllAligned (insert_sorted k m l)
unfolding insert_sorted
AllAligned-insert_sorted k m [] hm h = (hm, tt)
AllAligned-insert_sorted k m ((j, b) ∷ l) hm h = elim (Bool-cases (bytes_lt j k)) [
  | inl before ↦ rw before (h.0, AllAligned-insert_sorted k m l hm h.1)
  | inr after ↦ rw after (hm, h)
]

AllAligned-sort_by_key :
    (l : List (Bytes × Result Bytes)) → AllAligned l → AllAligned (sort_by_key l)
unfolding sort_by_key
AllAligned-sort_by_key [] h = tt
AllAligned-sort_by_key ((k, m) ∷ l) (hm, h) =
    AllAligned-insert_sorted k m (sort_by_key l) hm (AllAligned-sort_by_key l h)

IsAligned-write_directory :
    (l : List (Bytes × Result Bytes)) → AllAligned l → IsAligned (write_directory l)
unfolding write_directory
IsAligned-write_directory l h =
    IsAligned->>= (write_members (sort_by_key l)) _
      (IsAligned-write_members (sort_by_key l) (AllAligned-sort_by_key l h))
      (λ b w. after_string _ _ (after_string _ _ w))

mutual
  unfolding write_entry written

  IsAligned-write_entry : (node : Node) → IsAligned (write_entry node)
  IsAligned-write_entry (regular mode size file broken) =
      IsAligned-bracket (write_file mode size file broken)
        (IsAligned-write_file mode size file broken)
  IsAligned-write_entry (symlink target) =
      IsAligned-bracket (write_symlink target) (IsAligned-write_symlink target)
  IsAligned-write_entry (directory entries) =
      IsAligned-bracket (write_directory (written entries))
        (IsAligned-write_directory (written entries) (AllAligned-written entries))
  IsAligned-write_entry special = tt
  IsAligned-write_entry (failing message) = tt

  AllAligned-written : (entries : Entries) → AllAligned (written entries)
  AllAligned-written no_entry = tt
  AllAligned-written (entry name node more) = (IsAligned-write_entry node, AllAligned-written more)

write_path-IsAligned : (node : Node) → IsAligned (write_path node)
unfolding write_path
write_path-IsAligned node =
    IsAligned->>= (write_entry node) _ (IsAligned-write_entry node) (λ b w. after_string _ b w)

-- An archive that is written without error is a whole number of 8-byte words.
pub write_path-IsWhole :
    (node : Node) (archive : Bytes) → write_path node ≡ ok archive → IsWhole archive
write_path-IsWhole node archive e = subst IsAligned e (write_path-IsAligned node)
