-- ===== src/Substituter/Parsed.antt =====
-- The narinfo of iroh-nix/src/substituter.rs, read by the parser of iroh-nix/src/http_cache.rs.
use iroh_nix.Support.{
  ℕ, ◌<◌, ◌≡◌, refl, sym, ap, ◌∙◌, ◌≢◌, none, some, List, [], ◌∷◌, ◌++◌, append_assoc, Bytes, codes,
  eq_nat, eq_bytes, All, All-append,
}
use iroh_nix.Support.Words.{IsBytes}
use iroh_nix.Support.Texts.{IsGraphic, join}
use iroh_nix.Support.Lines.{lines, decimal}
use iroh_nix.Support.Decimals.{parse_u64-decimal, decimal-IsGraphic}
use iroh_nix.Support.Trimmed.{IsWords, graphic}
use iroh_nix.Error.{ok, ◌>>=◌}
use iroh_nix.HashIndex.Entries.{HashEntry, store_dir, references_to_basenames}
use iroh_nix.HashIndex.RoundTrip.{
  IsStored, IsEntry, basenames, basenames_to_references-to_basenames,
}
use iroh_nix.Nix32.{to_nix_base32}
use iroh_nix.Nix32.Descending.{to_nix_base32-IsGraphic}
use iroh_nix.HttpCache.NarInfos.{
  uncompressed, Fields, no_fields, Decoders, CacheNarInfo, parse_lines, to_narinfo, required, parse,
}
use iroh_nix.Substituter.{narinfo_body, deriver_line}
use iroh_nix.Substituter.Fields.{
  parse_lines-field, parse_lines-deriver, parse_prefixed_sha256-base32, set_field-hash,
  set_field-size, set_field-references, set_field-path, set_field-url, set_field-none,
}

abbrev pub nar_url : Bytes → Bytes
nar_url hex = codes "nar/" ++ (hex ++ codes ".nar")

url_line :
    (hex rest : Bytes)
    → codes "URL: nar/" ++ (hex ++ (codes ".nar" ++ 10 ∷ rest))
      ≡ codes "URL: " ++ (nar_url hex ++ 10 ∷ rest)
url_line hex rest =
    ap (λ s. codes "URL: nar/" ++ s) (sym (append_assoc hex (codes ".nar") (10 ∷ rest)))

nar_url-IsGraphic : (hex : Bytes) → IsGraphic hex → IsGraphic (nar_url hex)
nar_url-IsGraphic hex h =
    All-append (λ b. (32 < b) × (b < 128)) (codes "nar/") (hex ++ codes ".nar")
      (graphic (codes "nar/") refl)
      (All-append (λ b. (32 < b) × (b < 128)) hex (codes ".nar") h (graphic (codes ".nar") refl))

-- The variables of the parser behind the lines that have been read.
abbrev at_url : Bytes → Fields
at_url path = record no_fields { store_path = some path }

abbrev at_size : Bytes → Bytes → Bytes → Fields
at_size path url hash = record no_fields {
  store_path = some path;
  url = some url;
  compression = uncompressed;
  nar_hash = some hash;
}

abbrev at_deriver : Bytes → Bytes → Bytes → ℕ → List Bytes → Fields
at_deriver path url hash size references = record (at_size path url hash) {
  nar_size = some size;
  references = references;
}

references-IsWords : (rs : List Bytes) → All IsStored rs → IsWords (references_to_basenames rs)
references-IsWords rs h = let (ws, split, good, back) = basenames rs h in rw split good

-- What the client makes of the entry.
abbrev pub narinfo_of : (Bytes → Bytes) → HashEntry → CacheNarInfo
narinfo_of hex_encode entry = record {
  store_path = entry.store_path;
  url = nar_url (hex_encode entry.blake3);
  compression = uncompressed;
  nar_hash = entry.sha256;
  nar_size = entry.nar_size;
  file_size = none;
  references = entry.references;
  deriver = entry.deriver;
}

abbrev final : Bytes → HashEntry → Fields
final url entry = record no_fields {
  store_path = some entry.store_path;
  url = some url;
  compression = uncompressed;
  nar_hash = some entry.sha256;
  nar_size = some entry.nar_size;
  references = entry.references;
  deriver = entry.deriver;
}

module _ (d : Decoders) where
  -- The lines behind the hash.
  parse_lines-rest :
      (url : Bytes) (entry : HashEntry)
      → IsEntry entry
      → entry.deriver ≢ some (store_dir ++ codes "unknown-deriver")
      → parse_lines d
          (lines (
            codes "NarSize: "
            ++ (decimal entry.nar_size
                ++ 10
                  ∷ (codes "References: "
                      ++ (join (references_to_basenames entry.references)
                          ++ 10 ∷ deriver_line entry.deriver)))))
          (at_size entry.store_path url entry.sha256)
        ≡ ok (final url entry)
  unfolding join
  parse_lines-rest url entry fits known =
      let names = references_to_basenames entry.references in
      let derived = deriver_line entry.deriver in
      let referred = codes "References: " ++ (join names ++ 10 ∷ derived) in
      let before = at_size entry.store_path url entry.sha256 in
      let with_size = record before { nar_size = some entry.nar_size } in
      let with_references = record with_size { references = entry.references } in
      parse_lines-field d 78 (codes "arSize") referred (decimal entry.nar_size ∷ []) before
        with_size refl (decimal-IsGraphic entry.nar_size, tt)
        (set_field-size d (decimal entry.nar_size) entry.nar_size before
          (parse_u64-decimal entry.nar_size fits.size_fits))
      ∙ parse_lines-field d 82 (codes "eferences") derived names with_size with_references refl
          (references-IsWords entry.references fits.references_stored)
          (set_field-references d (join names) entry.references with_size
            (basenames_to_references-to_basenames entry.references fits.references_stored))
      ∙ parse_lines-deriver d entry.deriver with_references fits.deriver_stored known refl

  parse_lines-body :
      (hex_encode : Bytes → Bytes) (entry : HashEntry)
      → IsEntry entry
      → IsBytes entry.sha256
      → (entry.store_path ≢ []) × IsGraphic entry.store_path
      → IsGraphic (hex_encode entry.blake3)
      → entry.deriver ≢ some (store_dir ++ codes "unknown-deriver")
      → parse_lines d (lines (narinfo_body hex_encode entry)) no_fields
        ≡ ok (final (nar_url (hex_encode entry.blake3)) entry)
  unfolding narinfo_body join
  parse_lines-body hex_encode entry fits bytes path hex known =
      let url = nar_url (hex_encode entry.blake3) in
      let value = codes "sha256:" ++ to_nix_base32 entry.sha256 in
      let sized =
        codes "NarSize: "
        ++ (decimal entry.nar_size
            ++ 10
              ∷ (codes "References: "
                  ++ (join (references_to_basenames entry.references)
                      ++ 10 ∷ deriver_line entry.deriver))) in
      let hashed = codes "NarHash: " ++ (value ++ 10 ∷ sized) in
      let compressed = codes "Compression: " ++ (codes "none" ++ 10 ∷ hashed) in
      let with_path = at_url entry.store_path in
      let with_url = record with_path { url = some url } in
      let with_compression = record with_url { compression = uncompressed } in
      let with_hash = at_size entry.store_path url entry.sha256 in
      parse_lines-field d 83 (codes "torePath")
        (codes "URL: nar/" ++ (hex_encode entry.blake3 ++ (codes ".nar" ++ 10 ∷ compressed)))
        (entry.store_path ∷ []) no_fields with_path refl (path, tt)
        (set_field-path d entry.store_path no_fields)
      ∙ ap (λ s. parse_lines d (lines s) with_path) (url_line (hex_encode entry.blake3) compressed)
      ∙ parse_lines-field d 85 (codes "RL") compressed (url ∷ []) with_path with_url refl
          (((λ e. cc), nar_url-IsGraphic (hex_encode entry.blake3) hex), tt)
          (set_field-url d url with_path)
      ∙ parse_lines-field d 67 (codes "ompression") hashed (codes "none" ∷ []) with_url
          with_compression refl (((λ e. cc), graphic (codes "none") refl), tt)
          (set_field-none d with_url)
      ∙ parse_lines-field d 78 (codes "arHash") sized (value ∷ []) with_compression with_hash refl
          (
            (
              (λ e. cc),
              All-append (λ b. (32 < b) × (b < 128)) (codes "sha256:") (to_nix_base32 entry.sha256)
                  (graphic (codes "sha256:") refl) (to_nix_base32-IsGraphic entry.sha256 bytes),
            ),
            tt,
          )
          (set_field-hash d value entry.sha256 with_compression
            (parse_prefixed_sha256-base32 d entry.sha256 bytes fits.sha256_length))
      ∙ parse_lines-rest url entry fits known

  -- An entry that the index can hold, whose store path and URL are printable and whose deriver is not called
  -- unknown, is read back from the narinfo that the substituter makes of it.
  pub parse-narinfo_body :
      (hex_encode : Bytes → Bytes) (entry : HashEntry)
      → IsEntry entry
      → IsBytes entry.sha256
      → (entry.store_path ≢ []) × IsGraphic entry.store_path
      → IsGraphic (hex_encode entry.blake3)
      → entry.deriver ≢ some (store_dir ++ codes "unknown-deriver")
      → parse d (narinfo_body hex_encode entry) ≡ ok (narinfo_of hex_encode entry)
  unfolding parse to_narinfo required
  parse-narinfo_body hex_encode entry fits bytes path hex known =
      ap (λ fields. fields >>= to_narinfo d)
        (parse_lines-body hex_encode entry fits bytes path hex known)
