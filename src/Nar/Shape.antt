-- ===== src/Nar/Shape.antt =====
-- Which trees the writer of iroh-nix/src/nar.rs archives.
use iroh_nix.Support.{
  ℕ, ◌≡◌, refl, ◌∙◌, inl, inr, Bool, true, false, ◌&&◌, List, [], ◌∷◌, arith, leb, Bytes, eq_nat,
  eq_bytes, length, all,
}
use iroh_nix.Support.Sort.{insert_sorted, sort_by_key}
use iroh_nix.Support.Utf8.{is_utf8}
use iroh_nix.Error.{Result, ok, err, panic, ◌>>=◌, Result-cases}
use iroh_nix.Nar.{
  Node, Entries, regular, symlink, directory, special, failing, no_entry, entry, to_str, write_file,
  write_symlink, write_members, write_directory, bracket, write_entry, written, write_path,
}
use iroh_nix.Nar.Copy.{copy_loop_lem}

unfoldable pub is_ok {ℓ} : {T : Type ℓ} → Result T → Bool
is_ok (ok t) = true
is_ok _ = false

-- Each name and each link's target is text, each regular file gives the bytes that its size says,
-- and nothing else and nothing that fails is in the tree.
unfoldable mutual
  pub archivable : Node → Bool
  archivable (regular mode size file broken) = leb size (length file)
  archivable (symlink target) = is_utf8 target
  archivable (directory entries) = entries_archivable entries
  archivable special = false
  archivable (failing message) = false

  pub entries_archivable : Entries → Bool
  entries_archivable no_entry = true
  entries_archivable (entry name node more) =
      is_utf8 name && (archivable node && entries_archivable more)

abbrev good_member : Bytes × Result Bytes → Bool
good_member (name, node) = is_utf8 name && is_ok node

all-insert_sorted {ℓ} :
    {A : Type ℓ} (p : Bytes × A → Bool) (k : Bytes) (a : A) (l : List (Bytes × A))
    → all p (insert_sorted k a l) ≡ (p (k, a) && all p l)
unfolding insert_sorted
all-insert_sorted p k a [] = refl
all-insert_sorted p k a ((j, b) ∷ l) = ground (arith, all-insert_sorted p k a l)

all-sort_by_key {ℓ} :
    {A : Type ℓ} (p : Bytes × A → Bool) (l : List (Bytes × A)) → all p (sort_by_key l) ≡ all p l
unfolding sort_by_key
all-sort_by_key p [] = refl
all-sort_by_key p ((k, a) ∷ l) =
    ground (arith, all-insert_sorted p k a (sort_by_key l), all-sort_by_key p l)

is_ok-ok {ℓ} : {T : Type ℓ} (t : T) → is_ok (ok t) ≡ true
unfolding is_ok
is_ok-ok t = refl

is_ok->>= {ℓ κ} :
    {A : Type ℓ} {B : Type κ} (m : Result A) (k : A → Result B)
    → ((a : A) → is_ok (k a) ≡ true)
    → is_ok (m >>= k) ≡ is_ok m
unfolding is_ok
is_ok->>= (ok a) k h = h a
is_ok->>= (err e) k h = refl
is_ok->>= panic k h = refl

is_ok-write_members :
    (l : List (Bytes × Result Bytes)) → is_ok (write_members l) ≡ all good_member l
unfolding write_members is_ok to_str
is_ok-write_members [] = refl
is_ok-write_members ((name, ok body) ∷ l) = elim (Result-cases (write_members l)) [
  | inl (t, e) ↦ ground (arith, e, is_ok-write_members l)
  | inr (inl (t, e)) ↦ ground (arith, e, is_ok-write_members l)
  | inr (inr e) ↦ ground (arith, e, is_ok-write_members l)
]
is_ok-write_members ((name, err e) ∷ l) = ground arith
is_ok-write_members ((name, panic) ∷ l) = ground arith

is_ok-write_file :
    (mode size : ℕ) (file : Bytes) (broken : Bool)
    → is_ok (write_file mode size file broken) ≡ leb size (length file)
unfolding write_file is_ok
is_ok-write_file mode size file broken = ground (arith, copy_loop_lem size size file broken)

is_ok-bracket : (m : Result Bytes) → is_ok (bracket m) ≡ is_ok m
unfolding bracket
is_ok-bracket m = is_ok->>= m _ (λ a. is_ok-ok _)

is_ok-write_symlink : (target : Bytes) → is_ok (write_symlink target) ≡ is_utf8 target
unfolding write_symlink to_str is_ok
is_ok-write_symlink target = ground arith

is_ok-write_directory :
    (l : List (Bytes × Result Bytes)) → is_ok (write_directory l) ≡ all good_member l
unfolding write_directory
is_ok-write_directory l =
    is_ok->>= (write_members (sort_by_key l)) _ (λ a. is_ok-ok _)
    ∙ (is_ok-write_members (sort_by_key l) ∙ all-sort_by_key good_member l)

mutual
  unfolding write_entry written archivable entries_archivable is_ok

  is_ok-write_entry : (node : Node) → is_ok (write_entry node) ≡ archivable node
  is_ok-write_entry (regular mode size file broken) =
      is_ok-bracket (write_file mode size file broken) ∙ is_ok-write_file mode size file broken
  is_ok-write_entry (symlink target) =
      is_ok-bracket (write_symlink target) ∙ is_ok-write_symlink target
  is_ok-write_entry (directory entries) =
      is_ok-bracket (write_directory (written entries))
      ∙ (is_ok-write_directory (written entries) ∙ all-written entries)
  is_ok-write_entry special = refl
  is_ok-write_entry (failing message) = refl

  all-written : (entries : Entries) → all good_member (written entries) ≡ entries_archivable entries
  all-written no_entry = refl
  all-written (entry name node more) = ground (arith, is_ok-write_entry node, all-written more)

-- Into a writer that takes all that it is given, an archive is written exactly where each path's
-- metadata and each link, directory and file can be read, the tree has no file of another kind, the
-- reads of each regular file give the bytes that its size says before they fail or end, and each
-- name and each link's target is text.
pub is_ok-write_path : (node : Node) → is_ok (write_path node) ≡ archivable node
unfolding write_path
is_ok-write_path node = is_ok->>= (write_entry node) _ (λ a. is_ok-ok _) ∙ is_ok-write_entry node
