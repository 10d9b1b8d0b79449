-- ===== src/HttpCache/NarInfos.antt =====
-- iroh-nix/src/http_cache.rs: the text of a narinfo and its parser. Hexadecimal and base64 are foreign.
use iroh_nix.Support.{
  ℕ, Bool, true, not, ◌&&◌, ◌||◌, Option, none, some, List, [], ◌∷◌, ◌++◌, leb, nat_eq,
  if◌then◌else◌, Bytes, codes, ◌==◌, eq_nat, eq_bytes, length, all, is_empty,
}
use iroh_nix.Support.Texts.{strip_prefix}
use iroh_nix.Support.Lines.{lines, trim, split_once, parse_u64, to_lowercase}
use iroh_nix.Error.{http_cache, protocol, Result, ok, err, ◌>>=◌}
use iroh_nix.HashIndex.Entries.{store_dir, sha256_from_slice, basenames_to_references}
use iroh_nix.Nix32.{decode_nix_base32}

pub data Compression : Type 0 where
  uncompressed xz zstd bzip2 : Compression

-- `Compression::from_extension`
unfoldable pub from_extension : Bytes → Compression
from_extension ext =
    if ext == codes "xz"
    then xz
    else if (ext == codes "zst") || (ext == codes "zstd")
    then zstd
    else if ext == codes "bz2"
    then bzip2
    else uncompressed

-- `Compression::from_narinfo`. No other character has the small letter of one of these names.
unfoldable pub from_narinfo : Bytes → Compression
from_narinfo value =
    let small = to_lowercase value in
    if small == codes "xz"
    then xz
    else if small == codes "zstd"
    then zstd
    else if small == codes "bzip2"
    then bzip2
    else if small == codes "none"
    then uncompressed
    else bzip2

pub record CacheNarInfo : Type 0 where
  pub store_path : Bytes
  pub url : Bytes
  pub compression : Compression
  pub nar_hash : Bytes
  pub nar_size : ℕ
  pub file_size : Option ℕ
  pub references : List Bytes
  pub deriver : Option Bytes

-- The variables of `parse`.
pub record Fields : Type 0 where
  pub store_path : Option Bytes
  pub url : Option Bytes
  pub compression : Compression
  pub nar_hash : Option Bytes
  pub nar_size : Option ℕ
  pub file_size : Option ℕ
  pub references : List Bytes
  pub deriver : Option Bytes

abbrev pub no_fields : Fields
no_fields = record {
  store_path = none;
  url = none;
  compression = bzip2;
  nar_hash = none;
  nar_size = none;
  file_size = none;
  references = [];
  deriver = none;
}

-- `c.is_ascii_hexdigit()`
unfoldable pub is_hexdigit : ℕ → Bool
is_hexdigit c = (leb 48 c && leb c 57) || ((leb 97 c && leb c 102) || (leb 65 c && leb c 70))

-- `ok_or_else` with an error of the cache
unfoldable pub required {ℓ} : {A : Type ℓ} → Bytes → Option A → Result A
required message none = err (http_cache message)
required message (some a) = ok a

-- `hex::decode` and the standard base64 decoder
pub record Decoders : Type 0 where
  pub hex_decode : Bytes → Option Bytes
  pub base64_decode : Bytes → Option Bytes

-- `Sha256Hash::from_hex`
unfoldable pub from_hex : Decoders → Bytes → Result Bytes
from_hex d s = elim (d.hex_decode s) [
  | none ↦ err (protocol (codes "invalid hex: "))
  | some bytes ↦ sha256_from_slice bytes
]

module _ (d : Decoders) where
  unfoldable pub parse_sha256_hash : Bytes → Result Bytes
  parse_sha256_hash s =
      if nat_eq (length s) 64 && all is_hexdigit s
      then from_hex d s
      else if nat_eq (length s) 52
      then (decode_nix_base32 s >>= sha256_from_slice)
      else err (http_cache (codes "invalid SHA256 hash format: "))

  unfoldable pub parse_sha256_base64 : Bytes → Result Bytes
  parse_sha256_base64 s =
      required (codes "invalid base64 in SRI hash: ") (d.base64_decode s) >>= sha256_from_slice

  unfoldable pub parse_prefixed_sha256 : Bytes → Result Bytes
  parse_prefixed_sha256 s = elim (strip_prefix (codes "sha256:") s) [
    | some hash_str ↦ parse_sha256_hash hash_str
    | none ↦ elim (strip_prefix (codes "sha256-") s) [
      | some b64_str ↦ parse_sha256_base64 b64_str
      | none ↦
          err (http_cache (codes "unsupported hash format (expected sha256:... or sha256-...): "))
    ]
  ]

  -- What a line with a key and a value makes of the variables.
  unfoldable pub set_field : Bytes → Bytes → Fields → Result Fields
  set_field key value f =
      if key == codes "StorePath"
      then ok (record f { store_path = some value })
      else if key == codes "URL"
      then ok (record f { url = some value })
      else if key == codes "Compression"
      then ok (record f { compression = from_narinfo value })
      else if key == codes "NarHash"
      then (do hash ← parse_prefixed_sha256 value; ok (record f { nar_hash = some hash }))
      else if key == codes "NarSize"
      then ok (record f { nar_size = parse_u64 value })
      else if key == codes "FileSize"
      then ok (record f { file_size = parse_u64 value })
      else if key == codes "References"
      then ok (record f { references = basenames_to_references value })
      else if key == codes "Deriver"
      then ok (
          if not (is_empty (trim value)) && not (trim value == codes "unknown-deriver")
          then record f { deriver = some (store_dir ++ trim value) }
          else f)
      else ok f

  -- A line that is empty or starts with `#` is passed over.
  unfoldable pub is_skipped : Bytes → Bool
  is_skipped [] = true
  is_skipped (b ∷ s) = nat_eq b 35

  unfoldable pub parse_line : Bytes → Fields → Result Fields
  parse_line raw f =
      let line = trim raw in
      if is_skipped line
      then ok f
      else elim (split_once 58 line) [ none ↦ ok f | some (k, v) ↦ set_field (trim k) (trim v) f ]

  unfoldable pub parse_lines : List Bytes → Fields → Result Fields
  parse_lines [] f = ok f
  parse_lines (line ∷ rest) f = parse_line line f >>= parse_lines rest

  unfoldable pub to_narinfo : Fields → Result CacheNarInfo
  to_narinfo f = do
    store_path ← required (codes "missing StorePath") f.store_path
    url ← required (codes "missing URL") f.url
    nar_hash ← required (codes "missing or invalid NarHash") f.nar_hash
    nar_size ← required (codes "missing NarSize") f.nar_size
    ok (record {
      store_path = store_path;
      url = url;
      compression = f.compression;
      nar_hash = nar_hash;
      nar_size = nar_size;
      file_size = f.file_size;
      references = f.references;
      deriver = f.deriver;
    })

  unfoldable pub parse : Bytes → Result CacheNarInfo
  parse text = parse_lines (lines text) no_fields >>= to_narinfo
