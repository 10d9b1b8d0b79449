-- ===== src/Nar/Tests.antt =====
-- Runs of the archive writer of iroh-nix/src/nar.rs.
use iroh_nix.Support.{
  ◌≤◌, ◌≡◌, refl, false, List, [], ◌∷◌, ◌++◌, arith, Bytes, codes, eq_nat, eq_bytes,
}
use iroh_nix.Support.Utf8.{is_utf8}
use iroh_nix.Error.{Result, ok}
use iroh_nix.Nar.{
  Node, regular, symlink, directory, no_entry, entry, write_string, to_str, write_symlink, bracket,
  write_entry, write_path,
}
use iroh_nix.Nar.Shape.{is_ok, archivable, is_ok-write_path}
use iroh_nix.Nar.Order.{listings, swapped, write_directory-Reorders}
use iroh_nix.Nar.{write_directory}
use iroh_nix.Nar.Aligned.{IsWhole, write_path-IsWhole}

abbrev small_tree : Node
small_tree = directory (
    entry (codes "b") (regular 0o755 3 (codes "abc") false)
      (entry (codes "a") (symlink (codes "b")) no_entry))

is_ok-write_path_example : is_ok (write_path small_tree) ≡ archivable small_tree
is_ok-write_path_example = is_ok-write_path small_tree

abbrev link_archive : Bytes
link_archive =
    write_string (codes "nix-archive-1")
    ++ (write_string (codes "(")
        ++ ((write_string (codes "type")
              ++ (write_string (codes "symlink")
                  ++ (write_string (codes "target") ++ write_string (codes "b"))))
            ++ write_string (codes ")")))

link_archived : write_path (symlink (codes "b")) ≡ ok link_archive
unfolding write_path write_entry bracket write_symlink to_str is_utf8
link_archived = refl

write_path-IsWhole_example : IsWhole link_archive
write_path-IsWhole_example = write_path-IsWhole (symlink (codes "b")) link_archive link_archived

abbrev listing : List (Bytes × Result Bytes)
listing = (codes "b", write_entry (symlink [])) ∷ (codes "a", write_entry (symlink [])) ∷ []

abbrev relisting : List (Bytes × Result Bytes)
relisting = (codes "a", write_entry (symlink [])) ∷ (codes "b", write_entry (symlink [])) ∷ []

distinct_names : (name : Bytes) → listings name listing ≤ 1
unfolding listings
distinct_names name =
    ground (arith, eq_bytes.beq_iff (codes "a") name, eq_bytes.beq_iff (codes "b") name)

write_directory-Reorders_example : write_directory listing ≡ write_directory relisting
write_directory-Reorders_example =
    write_directory-Reorders
      (swapped (codes "b", write_entry (symlink [])) (codes "a", write_entry (symlink [])))
      distinct_names
