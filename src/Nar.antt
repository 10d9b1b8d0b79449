-- ===== src/Nar.antt =====
-- iroh-nix/src/nar.rs: the archive of a path, and its hashes.
-- A path is the tree that the file system shows there: what `symlink_metadata`, `read_link`,
-- `read_dir`, `open` and `read` answer, their failures too. The writer is one that takes all that it
-- is given, as the vector of `serialize_path` does, so a function that writes returns the bytes;
-- a writer that fails is not modelled here. An error leaves out the path and the system's text
-- behind its first words. SHA-256 and BLAKE3 are foreign.
pub mod Copy
pub mod Shape
pub mod Aligned
pub mod Order
pub mod Hashing
mod Tests
mod HashingTests
use Prim.Native.Nat.{bit_and}
use iroh_nix.Support.{
  ℕ, zero, suc, ◌+◌, ◌-◌, ◌*◌, ◌/◌, ◌%◌, ◌^◌, ◌≤◌, ◌<◌, min, ◌≡◌, refl, sym, ap, ◌∙◌, ◌≢◌, ◌↔◌, ◌⊎◌,
  inl, inr, Bool, true, false, not, ◌&&◌, ◌||◌, Option, none, some, List, [], ◌∷◌, ◌++◌, map,
  reverse, append-nil, append_assoc, arith, ltb, leb, nat_eq, if◌then◌else◌, ltb→lt, lt→ltb, leb→le,
  nat_eq_iff, Bool-cases, Option-cases, Bytes, codes, bytes_eq, bytes_eq_iff, Eq, ◌==◌, eq_nat,
  eq_bytes, ==-refl, contains, length, take, drop, replicate, All, all, length-append,
  take-append-drop, length-take, length-drop, length-replicate, All-append, All-parts, take-append,
  drop-append, keep_if, is_empty,
}
use iroh_nix.Support.Sort.{sort_by_key}
use iroh_nix.Support.Words.{to_le_bytes, padding}
use iroh_nix.Support.Utf8.{is_utf8}
use iroh_nix.Error.{Error, nar, Result, ok, err, panic, ◌>>=◌, ◌>>◌}

-- A regular file has its mode, the size that its metadata states, what its reads give, and whether
-- the read behind that fails or finds the end of the file. `special` is any other kind of file.
-- `failing` is a path whose metadata, link, directory, directory entry or contents cannot be
-- opened or read, with the first words of the error.
mutual
  pub data Node : Type 0 where
    regular : ℕ → ℕ → Bytes → Bool → Node
    symlink : Bytes → Node
    directory : Entries → Node
    special : Node
    failing : Bytes → Node

  pub data Entries : Type 0 where
    no_entry : Entries
    entry : Bytes → Node → Entries → Entries

abbrev pub nar_magic : Bytes
nar_magic = codes "nix-archive-1"

-- `write_u64` and `write_string`
unfoldable pub write_u64 : ℕ → Bytes
write_u64 = to_le_bytes 8

unfoldable pub write_string : Bytes → Bytes
write_string s = write_u64 (length s) ++ (s ++ take (padding (length s)) (replicate 8 0))

-- `to_str()`
unfoldable pub to_str : Bytes → Bytes → Result Bytes
to_str message s = if is_utf8 s then ok s else err (nar message)

abbrev buffer_size : ℕ
buffer_size = 65536

-- What a read that gives nothing is an error for.
unfoldable pub no_more : Bool → Error
no_more broken =
    if broken then nar (codes "failed to read file ") else nar (codes "unexpected EOF reading ")

-- The loop of `write_file`: `file` is what the file has yet to give, and a read gives what is asked
-- for, as far as that goes. A turn takes at least one byte off `remaining`, so that many turns
-- are enough, and `fuel` is not run out of before `remaining` is.
unfoldable pub copy_loop : (fuel : ℕ) (remaining : ℕ) → Bytes → Bool → Result Bytes
copy_loop zero remaining file broken = ok []
copy_loop (suc fuel) remaining file broken =
    let chunk = take (min remaining buffer_size) file in
    let copied = copy_loop fuel (remaining - length chunk) (drop (length chunk) file) broken in
    if ltb 0 remaining
    then (if length chunk == 0 then err (no_more broken) else do rest ← copied; ok (chunk ++ rest))
    else ok []

unfoldable pub write_file : ℕ → ℕ → Bytes → Bool → Result Bytes
write_file mode size file broken = do
  body ← copy_loop size size file broken
  ok (
      write_string (codes "type")
      ++ (write_string (codes "regular")
          ++ ((if bit_and mode 0o111 == 0
                then []
                else write_string (codes "executable") ++ write_string (codes ""))
              ++ (write_string (codes "contents")
                  ++ (write_u64 size ++ (body ++ take (padding size) (replicate 8 0)))))))

unfoldable pub write_symlink : Bytes → Result Bytes
unfolding to_str
write_symlink target = do
  t ← to_str (codes "symlink target is not valid UTF-8") target
  ok (
      write_string (codes "type")
      ++ (write_string (codes "symlink") ++ (write_string (codes "target") ++ write_string t)))

-- The loop of `write_directory` over the sorted entries. What an entry's node writes does not
-- depend on the order, so it stands beside the name.
unfoldable pub write_members : List (Bytes × Result Bytes) → Result Bytes
unfolding to_str
write_members [] = ok []
write_members ((name, node) ∷ more) = do
  n ← to_str (codes "filename is not valid UTF-8") name
  body ← node
  rest ← write_members more
  ok (
      write_string (codes "entry")
      ++ (write_string (codes "(")
          ++ (write_string (codes "name")
              ++ (write_string n
                  ++ (write_string (codes "node")
                      ++ (body ++ (write_string (codes ")") ++ rest)))))))

unfoldable pub write_directory : List (Bytes × Result Bytes) → Result Bytes
unfolding write_members
write_directory entries = do
  members ← write_members (sort_by_key entries)
  ok (write_string (codes "type") ++ (write_string (codes "directory") ++ members))

-- The brackets of `write_entry`.
unfoldable pub bracket : Result Bytes → Result Bytes
bracket inner = do body ← inner; ok (write_string (codes "(") ++ (body ++ write_string (codes ")")))

unfoldable mutual
  pub write_entry : Node → Result Bytes
  write_entry (regular mode size file broken) = bracket (write_file mode size file broken)
  write_entry (symlink target) = bracket (write_symlink target)
  write_entry (directory entries) = bracket (write_directory (written entries))
  write_entry special = err (nar (codes "unsupported file type: "))
  write_entry (failing message) = err (nar message)

  pub written : Entries → List (Bytes × Result Bytes)
  written no_entry = []
  written (entry name node more) = (name, write_entry node) ∷ written more

unfoldable pub write_path : Node → Result Bytes
write_path node = do body ← write_entry node; ok (write_string nar_magic ++ body)
