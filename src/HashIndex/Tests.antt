-- ===== src/HashIndex/Tests.antt =====
-- Runs of iroh-nix/src/hash_index.rs's index, and the entries that its theorems are applied to.
use iroh_nix.Support.{
  ◌≡◌, refl, true, false, none, some, List, [], ◌∷◌, arith, codes, eq_nat, eq_bytes, replicate,
}
use iroh_nix.Support.Texts.{strip_prefix, before_char}
use iroh_nix.Error.{ok}
use iroh_nix.HashIndex.Entries.{
  HashEntry, to_row, extract_store_hash, references_to_basenames, store_path_basename,
}
use iroh_nix.HashIndex.Schema.{Database}
use iroh_nix.HashIndex.{
  insert, get_by_blake3, get_by_sha256, get_by_store_path, insert_or_replace, execute,
}
use iroh_nix.HashIndex.RoundTrip.{IsEntry, insert-get}
use iroh_nix.HashIndex.Keys.{
  IsKeyed, Change, inserted, deleted, run_changes, run_changes-IsKeyed, get_by_blake3-agrees,
}

abbrev hello : HashEntry
hello = record {
  blake3 = replicate 32 1;
  sha256 = replicate 32 2;
  store_path = codes "/nix/store/abc-hello";
  nar_size = 120;
  references = codes "/nix/store/x-glibc" ∷ codes "/nix/store/abc-hello" ∷ [];
  deriver = some (codes "/nix/store/d.drv");
}

-- The same path with other hashes.
abbrev rebuilt : HashEntry
rebuilt = record {
  blake3 = replicate 32 3;
  sha256 = replicate 32 4;
  store_path = codes "/nix/store/abc-hello";
  nar_size = 121;
  references = [];
  deriver = none;
}

hello-IsEntry : IsEntry hello
hello-IsEntry = record {
  blake3_length = refl;
  sha256_length = refl;
  size_fits = omega arith;
  references_stored = (
    (codes "x-glibc", refl, ground arith, ground arith),
    ((codes "abc-hello", refl, ground arith, ground arith), tt),
  );
  deriver_stored = (codes "d.drv", refl, ground arith, ground arith);
}

insert-get_example :
    (get_by_blake3 true hello.blake3 (insert_or_replace (to_row hello) (to_row rebuilt ∷ []))
      ≡ ok (some hello))
    × (get_by_sha256 true hello.sha256 (insert_or_replace (to_row hello) (to_row rebuilt ∷ []))
        ≡ ok (some hello))
    × (get_by_store_path true hello.store_path
          (insert_or_replace (to_row hello) (to_row rebuilt ∷ []))
        ≡ ok (some hello))
unfolding insert execute
insert-get_example =
    insert-get hello hello-IsEntry (to_row rebuilt ∷ [])
      (insert_or_replace (to_row hello) (to_row rebuilt ∷ [])) refl

abbrev history : List Change
history =
    inserted true hello
    ∷ inserted false rebuilt
    ∷ inserted true rebuilt
    ∷ deleted true hello.blake3
    ∷ []

run_changes-IsKeyed_example : IsKeyed (run_changes history [])
run_changes-IsKeyed_example = run_changes-IsKeyed history [] tt

get_by_blake3-agrees_example :
    (hello.blake3 ≡ hello.blake3)
    × (get_by_sha256 true hello.sha256 (insert_or_replace (to_row hello) []) ≡ ok (some hello))
    × (get_by_store_path true hello.store_path (insert_or_replace (to_row hello) [])
        ≡ ok (some hello))
unfolding insert execute insert_or_replace
get_by_blake3-agrees_example =
    get_by_blake3-agrees hello.blake3 (insert_or_replace (to_row hello) []) hello (tt, tt)
      (insert-get hello hello-IsEntry [] (insert_or_replace (to_row hello) []) refl).0

-- A reference that is not below the store is left out of the row.
drops_reference :
    references_to_basenames (codes "/tmp/x" ∷ codes "/nix/store/y" ∷ []) ≡ codes "y" ∷ []
unfolding references_to_basenames store_path_basename strip_prefix
drops_reference = refl

store_hash_is_cut : extract_store_hash (codes "/nix/store/abc-hello") ≡ some (codes "abc")
unfolding extract_store_hash strip_prefix before_char
store_hash_is_cut = refl

-- A table without the columns that were added later.
abbrev older : Database
older = record {
  has_hash_index = true;
  has_store_hash = false;
  has_references = false;
  rows = record (to_row rebuilt) { store_hash = none } ∷ [];
}
