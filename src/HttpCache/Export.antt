-- ===== src/HttpCache/Export.antt =====
-- iroh-nix/src/http_cache.rs: the export format of `nix-store --import`, and its reading by the readers
-- of iroh-nix/src/nix_protocol.rs.
use iroh_nix.Support.{
  ℕ, ◌*◌, ◌^◌, ◌<◌, ◌≡◌, refl, ap, Option, none, some, List, [], ◌∷◌, ◌++◌, append-nil,
  append_assoc, arith, Bytes, eq_nat, eq_bytes, length, replicate, All,
}
use iroh_nix.Support.Words.{to_le_bytes, padding}
use iroh_nix.Error.{Result, ok, ◌>>=◌}
use iroh_nix.NixProtocol.{
  read_u64, read_string, read_string_set, read_exact, write_u64, write_string, write_strings,
  write_string_set,
}
use iroh_nix.NixProtocol.RoundTrip.{
  read_exact_prefix, IsText, read_u64-write_u64, read_string-write_string,
  read_string_set-write_string_set,
}
use iroh_nix.HttpCache.{FetchResult}

unfoldable pub write_nix_string : Bytes → Bytes
write_nix_string s = to_le_bytes 8 (length s) ++ (s ++ replicate (padding (length s)) 0)

unfoldable pub write_references : List Bytes → Bytes
write_references [] = []
write_references (r ∷ rs) = write_nix_string r ++ write_references rs

abbrev pub export_magic : ℕ
export_magic = 0x4558494e

-- `as_deref().unwrap_or("")`
unfoldable pub deriver_or_empty : Option Bytes → Bytes
deriver_or_empty none = []
deriver_or_empty (some d) = d

unfoldable pub build_export_data : FetchResult → Bytes
build_export_data r =
    to_le_bytes 8 1
    ++ (r.nar_data
        ++ (to_le_bytes 8 export_magic
            ++ (write_nix_string r.store_path
                ++ (to_le_bytes 8 (length r.references)
                    ++ (write_references r.references
                        ++ (write_nix_string (deriver_or_empty r.deriver)
                            ++ (to_le_bytes 8 0 ++ to_le_bytes 8 0)))))))

-- What `nix-store --import` reads of an export of one path, whose archive takes `n` bytes: the marker,
-- the archive, the magic, the path, the references, the deriver, the absence of a signature, the end,
-- and what is left of the input.
pub record Exported : Type 0 where
  pub marker : ℕ
  pub nar_data : Bytes
  pub magic : ℕ
  pub store_path : Bytes
  pub references : List Bytes
  pub deriver : Bytes
  pub signature : ℕ
  pub end : ℕ
  pub rest : Bytes

pub read_export : ℕ → Bytes → Result Exported
read_export n input = do
  (marker, a) ← read_u64 input
  (nar_data, b) ← read_exact n a
  (magic, c) ← read_u64 b
  (store_path, d) ← read_string c
  (references, e) ← read_string_set d
  (deriver, f) ← read_string e
  (signature, g) ← read_u64 f
  (end, rest) ← read_u64 g
  ok (record {
    marker = marker;
    nar_data = nar_data;
    magic = magic;
    store_path = store_path;
    references = references;
    deriver = deriver;
    signature = signature;
    end = end;
    rest = rest;
  })

write_references_lem : (rs : List Bytes) → write_references rs ≡ write_strings rs
unfolding write_references write_strings write_nix_string write_string write_u64
write_references_lem [] = refl
write_references_lem (r ∷ rs) = ap (λ w. write_nix_string r ++ w) (write_references_lem rs)

write_nix_string_lem : (s : Bytes) → write_nix_string s ≡ write_string s
unfolding write_nix_string write_string write_u64
write_nix_string_lem s = refl

-- The export by the writers of the protocol.
build_export_data_lem :
    (r : FetchResult)
    → build_export_data r
      ≡ write_u64 1
        ++ (r.nar_data
            ++ (write_u64 export_magic
                ++ (write_string r.store_path
                    ++ (write_string_set r.references
                        ++ (write_string (deriver_or_empty r.deriver)
                            ++ (write_u64 0 ++ (write_u64 0 ++ [])))))))
unfolding build_export_data write_u64 write_string_set
build_export_data_lem r =
    rw
      (
        write_references_lem r.references,
        write_nix_string_lem r.store_path,
        write_nix_string_lem (deriver_or_empty r.deriver),
        append-nil (to_le_bytes 8 0),
        append_assoc (to_le_bytes 8 (length r.references)) (write_strings r.references)
            (write_string (deriver_or_empty r.deriver) ++ (to_le_bytes 8 0 ++ to_le_bytes 8 0)),
      )
      refl

-- The export of a NAR is read back, field for field, and nothing is left of it. The path, the
-- references and the deriver are texts of UTF-8 that a `String` can hold, and so is the list.
pub read_export-build_export_data :
    (r : FetchResult)
    → IsText r.store_path
    → IsText (deriver_or_empty r.deriver)
    → length r.references * 24 < 2 ^ 63
    → All IsText r.references
    → read_export (length r.nar_data) (build_export_data r)
      ≡ ok (record {
        marker = 1;
        nar_data = r.nar_data;
        magic = export_magic;
        store_path = r.store_path;
        references = r.references;
        deriver = deriver_or_empty r.deriver;
        signature = 0;
        end = 0;
        rest = [];
      })
unfolding read_export
read_export-build_export_data r path deriver few references =
    let end = write_u64 0 ++ [] in
    let deriver_on = write_string (deriver_or_empty r.deriver) ++ (write_u64 0 ++ end) in
    let references_on = write_string_set r.references ++ deriver_on in
    let path_on = write_string r.store_path ++ references_on in
    let nar_on = r.nar_data ++ (write_u64 export_magic ++ path_on) in
    rw
      (
        build_export_data_lem r,
        read_u64-write_u64 1 nar_on (omega arith),
        read_exact_prefix (length r.nar_data) r.nar_data (write_u64 export_magic ++ path_on) refl,
        read_u64-write_u64 export_magic path_on (omega arith),
        read_string-write_string r.store_path references_on path.0 path.1,
        read_string_set-write_string_set r.references deriver_on few references,
        read_string-write_string (deriver_or_empty r.deriver) (write_u64 0 ++ end) deriver.0
            deriver.1,
        read_u64-write_u64 0 end (omega arith),
        read_u64-write_u64 0 [] (omega arith),
      )
      refl
