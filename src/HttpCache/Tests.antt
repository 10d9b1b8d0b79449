-- ===== src/HttpCache/Tests.antt =====
-- A client of two caches, of which the first cannot be reached, and an export.
use iroh_nix.Support.{
  ℕ, ◌≡◌, refl, true, none, some, List, [], ◌∷◌, ◌++◌, arith, ltb, if◌then◌else◌, Bytes, codes,
  bytes_eq, eq_nat, eq_bytes, length, replicate, is_empty,
}
use iroh_nix.Support.Texts.{
  strip_prefix, split_whitespace, words_from, flush, white_at, white_two, white_wide, is_wide_white,
}
use iroh_nix.Support.Lines.{
  lines, lines_from, without_return, trim, trim_start_from, trim_end_from, split_once, parse_u64,
  parse_unsigned, parse_digits, in_u64, to_lowercase,
}
use iroh_nix.Error.{ok}
use iroh_nix.HashIndex.Entries.{sha256_from_slice, from_slice, basenames_to_references}
use iroh_nix.Nix32.{
  decode_nix_base32, decode_nix_base32_loop, chars, chars_from, place, or_at, position_of,
}
use iroh_nix.Support.Utf8.{is_utf8, follows, continuation}
use iroh_nix.Support.Bits.{bit_or}
use iroh_nix.HttpCache.NarInfos.{
  uncompressed, CacheNarInfo, Decoders, parse, parse_lines, parse_line, is_skipped, set_field,
  to_narinfo, required, parse_prefixed_sha256, parse_sha256_hash, is_hexdigit, from_narinfo,
}
use iroh_nix.HttpCache.{
  HttpCacheConfig, Web, FetchResult, new, insert_config, ask_cache, ask_caches, narinfo_text,
  parsed, fetch_narinfo, checked, to_result, decompressed, read_nar, fetch_nar, fetch_of,
  store_hash_of, cache_store_hash, fetch_by_store_path,
}
use iroh_nix.HttpCache.Verified.{IsFrom, IsChecked, fetch_by_store_path-IsChecked}
use iroh_nix.HttpCache.Export.{
  read_export, build_export_data, export_magic, deriver_or_empty, read_export-build_export_data,
}

abbrev line_end : Bytes
line_end = 10 ∷ []

abbrev hello_path : Bytes
hello_path = codes "/nix/store/00000000000000000000000000000000-hello"

abbrev text : Bytes
text =
    codes "StorePath: /nix/store/00000000000000000000000000000000-hello"
    ++ (line_end
        ++ (codes "URL: nar/x.nar"
            ++ (line_end
                ++ (codes "Compression: none"
                    ++ (line_end
                        ++ (codes
                              "NarHash: sha256:0000000000000000000000000000000000000000000000000000"
                            ++ (line_end
                                ++ (codes "NarSize: 3"
                                    ++ (line_end
                                        ++ (codes "References: a-b c-d" ++ line_end))))))))))

abbrev decoders : Decoders
decoders = record { hex_decode = λ s. none; base64_decode = λ s. none }

abbrev narinfo : CacheNarInfo
narinfo = record {
  store_path = hello_path;
  url = codes "nar/x.nar";
  compression = uncompressed;
  nar_hash = replicate 32 0;
  nar_size = 3;
  file_size = none;
  references = codes "/nix/store/a-b" ∷ codes "/nix/store/c-d" ∷ [];
  deriver = none;
}

parses : parse decoders text ≡ ok narinfo
unfolding parse parse_lines parse_line is_skipped set_field to_narinfo required
    parse_prefixed_sha256 parse_sha256_hash is_hexdigit from_narinfo lines lines_from without_return
    trim trim_start_from trim_end_from split_once parse_u64 parse_unsigned parse_digits in_u64
    to_lowercase strip_prefix split_whitespace words_from flush white_at white_two white_wide
    is_wide_white sha256_from_slice from_slice is_empty basenames_to_references bytes_eq
    decode_nix_base32 decode_nix_base32_loop chars chars_from place or_at position_of bit_or
parses = refl

-- Addresses are numbers; those below 100 are not reached.
abbrev web : Web ℕ
web = record {
  join = λ url path. some url;
  get = λ url timeout.
      if ltb url 100
      then none
      else some (record { is_success = true; text = some text; bytes = some (5 ∷ 6 ∷ 7 ∷ []) });
  decompress = λ c s. none;
  sha256_hash = λ s. replicate 32 0;
  blake3_hash = λ s. replicate 32 (length s);
  decoders = decoders;
}

abbrev caches : List (HttpCacheConfig ℕ)
caches =
    record { url = 1000; priority = 40; timeout = 60 }
    ∷ record { url = 1; priority = 10; timeout = 60 }
    ∷ []

abbrev result : FetchResult
result = record {
  nar_data = 5 ∷ 6 ∷ 7 ∷ [];
  blake3 = replicate 32 3;
  sha256 = replicate 32 0;
  nar_size = 3;
  store_path = hello_path;
  references = narinfo.references;
  deriver = none;
}

fetches : fetch_by_store_path web (new caches) hello_path ≡ ok result
unfolding fetch_by_store_path fetch_of fetch_nar read_nar decompressed checked to_result
    fetch_narinfo ask_caches ask_cache narinfo_text parsed new insert_config cache_store_hash
    store_hash_of strip_prefix required bytes_eq
fetches = rw parses refl

fetch_by_store_path-IsChecked_example :
    (store_hash : Bytes) × (n : CacheNarInfo) × (base_url : ℕ) × (cache_store_hash web hello_path
      ≡ ok store_hash)
    × IsFrom web caches store_hash (n, base_url)
    × IsChecked web hello_path n.nar_hash result
fetch_by_store_path-IsChecked_example =
    fetch_by_store_path-IsChecked web caches hello_path result fetches

read_export-build_export_data_example :
    read_export 3 (build_export_data result)
    ≡ ok (record {
      marker = 1;
      nar_data = 5 ∷ 6 ∷ 7 ∷ [];
      magic = export_magic;
      store_path = hello_path;
      references = narinfo.references;
      deriver = [];
      signature = 0;
      end = 0;
      rest = [];
    })
unfolding is_utf8 follows continuation deriver_or_empty
read_export-build_export_data_example =
    read_export-build_export_data result (omega arith, refl) (omega arith, refl) (omega arith)
      ((omega arith, refl), ((omega arith, refl), tt))
