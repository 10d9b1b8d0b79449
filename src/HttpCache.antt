-- ===== src/HttpCache.antt =====
-- iroh-nix/src/http_cache.rs: the client of binary caches over HTTP. The requests, the decompressors and
-- the two hashes are foreign: parameters.
pub mod NarInfos
pub mod Export
pub mod Verified
mod Tests
use iroh_nix.Support.{
  ℕ, zero, suc, ◌+◌, ◌-◌, ◌*◌, ◌/◌, ◌%◌, ◌^◌, ◌≤◌, ◌<◌, min, ◌≡◌, refl, sym, ap, ◌∙◌, ◌≢◌, ◌↔◌, ◌⊎◌,
  inl, inr, Bool, true, false, not, ◌&&◌, ◌||◌, Option, none, some, List, [], ◌∷◌, ◌++◌, map,
  reverse, append-nil, append_assoc, arith, ltb, leb, nat_eq, if◌then◌else◌, ltb→lt, lt→ltb, leb→le,
  nat_eq_iff, Bool-cases, Option-cases, Bytes, codes, bytes_eq, bytes_eq_iff, Eq, ◌==◌, eq_nat,
  eq_bytes, ==-refl, contains, length, take, drop, replicate, All, all, length-append,
  take-append-drop, length-take, length-drop, length-replicate, All-append, All-parts, take-append,
  drop-append, keep_if,
}
use iroh_nix.Support.Texts.{strip_prefix}
use iroh_nix.Error.{Error, http_cache, invalid_store_path, Result, ok, err, panic, ◌>>=◌}
use iroh_nix.HashIndex.Entries.{store_dir}
use iroh_nix.HttpCache.NarInfos.{
  Compression, uncompressed, xz, zstd, bzip2, CacheNarInfo, Decoders, parse, required,
}

pub record FetchResult : Type 0 where
  pub nar_data : Bytes
  pub blake3 : Bytes
  pub sha256 : Bytes
  pub nar_size : ℕ
  pub store_path : Bytes
  pub references : List Bytes
  pub deriver : Option Bytes

pub record HttpCacheConfig (Url : Type 0) : Type 0 where
  pub url : Url
  pub priority : ℕ
  pub timeout : ℕ

-- A response: whether its status is a success, its text, and its bytes.
pub record Response : Type 0 where
  pub is_success : Bool
  pub text : Option Bytes
  pub bytes : Option Bytes

-- `Url::join`, a request with a timeout in seconds, what a decompressor makes of the bytes, SHA-256
-- and BLAKE3, hexadecimal and base64.
pub record Web (Url : Type 0) : Type 0 where
  pub join : Url → Bytes → Option Url
  pub get : Url → ℕ → Option Response
  pub decompress : Compression → Bytes → Option Bytes
  pub sha256_hash : Bytes → Bytes
  pub blake3_hash : Bytes → Bytes
  pub decoders : Decoders

module _ {Url : Type 0} where
  -- `configs.sort_by_key(|c| c.priority)`, which is stable
  unfoldable pub insert_config :
      HttpCacheConfig Url → List (HttpCacheConfig Url) → List (HttpCacheConfig Url)
  insert_config c [] = c ∷ []
  insert_config c (d ∷ ds) =
      let rest = insert_config c ds in if ltb d.priority c.priority then d ∷ rest else c ∷ d ∷ ds

  -- `HttpCacheClient::new`: the client is its caches.
  unfoldable pub new : List (HttpCacheConfig Url) → List (HttpCacheConfig Url)
  new [] = []
  new (c ∷ cs) = insert_config c (new cs)

  module _ (web : Web Url) where
    -- What one cache gives: `None` where the loop goes on to the next.
    unfoldable pub narinfo_text : Response → Option (Result Bytes)
    narinfo_text response =
        if not response.is_success
        then none
        else some (required (codes "failed to read narinfo: ") response.text)

    unfoldable pub parsed : HttpCacheConfig Url → Result Bytes → Result (CacheNarInfo × Url)
    parsed config text = do t ← text; narinfo ← parse web.decoders t; ok (narinfo, config.url)

    unfoldable pub ask_cache : Bytes → HttpCacheConfig Url → Option (Result (CacheNarInfo × Url))
    ask_cache narinfo_path config = elim (web.join config.url narinfo_path) [
      | none ↦ some (err (http_cache (codes "invalid narinfo URL: ")))
      | some url ↦ elim (web.get url config.timeout) [
        | none ↦ none
        | some response ↦ elim (narinfo_text response) [
          | none ↦ none
          | some text ↦ some (parsed config text)
        ]
      ]
    ]

    unfoldable pub ask_caches : Bytes → List (HttpCacheConfig Url) → Result (CacheNarInfo × Url)
    ask_caches narinfo_path [] = err (http_cache (codes "narinfo not found in any cache: "))
    ask_caches narinfo_path (config ∷ configs) =
        let rest = ask_caches narinfo_path configs in
        elim (ask_cache narinfo_path config) [ none ↦ rest | some r ↦ r ]

    unfoldable pub fetch_narinfo : List (HttpCacheConfig Url) → Bytes → Result (CacheNarInfo × Url)
    fetch_narinfo configs store_hash = ask_caches (store_hash ++ codes ".narinfo") configs

    -- The messages of the four readers.
    abbrev pub read_message : Compression → Bytes
    read_message uncompressed = codes "failed to read NAR: "
    read_message xz = codes "failed to decompress xz: "
    read_message zstd = codes "failed to decompress zstd: "
    read_message bzip2 = codes "failed to decompress bzip2: "

    unfoldable pub decompressed : Compression → Option Bytes → Option Bytes
    decompressed c none = none
    decompressed uncompressed (some bytes) = some bytes
    decompressed xz (some bytes) = web.decompress xz bytes
    decompressed zstd (some bytes) = web.decompress zstd bytes
    decompressed bzip2 (some bytes) = web.decompress bzip2 bytes

    unfoldable pub to_result : CacheNarInfo → Bytes → FetchResult
    to_result narinfo nar_data = record {
      nar_data = nar_data;
      blake3 = web.blake3_hash nar_data;
      sha256 = web.sha256_hash nar_data;
      nar_size = length nar_data;
      store_path = narinfo.store_path;
      references = narinfo.references;
      deriver = narinfo.deriver;
    }

    -- The check of the hash.
    unfoldable pub checked : CacheNarInfo → Bytes → Result FetchResult
    checked narinfo nar_data =
        if not (web.sha256_hash nar_data == narinfo.nar_hash)
        then err (http_cache (codes "SHA256 mismatch: expected "))
        else ok (to_result narinfo nar_data)

    unfoldable pub read_nar : CacheNarInfo → Response → Result FetchResult
    read_nar narinfo response =
        if not response.is_success
        then err (http_cache (codes "NAR fetch failed: "))
        else required (read_message narinfo.compression)
            (decompressed narinfo.compression response.bytes)
          >>= checked narinfo

    unfoldable pub fetch_nar : CacheNarInfo × Url → Result FetchResult
    fetch_nar (narinfo, base_url) = do
      nar_url ← required (codes "invalid NAR URL: ") (web.join base_url narinfo.url)
      response ← required (codes "failed to fetch NAR: ") (web.get nar_url 300)
      read_nar narinfo response

    -- The store hash takes the 32 bytes before the first byte that has to be `-`.
    unfoldable pub store_hash_of : Bytes → Bytes → Result Bytes
    store_hash_of store_path path =
        if ltb (length path) 33 || not (take 1 (drop 32 path) == 45 ∷ [])
        then err (invalid_store_path store_path)
        else ok (take 32 path)

    unfoldable pub cache_store_hash : Bytes → Result Bytes
    cache_store_hash store_path = elim (strip_prefix store_dir store_path) [
      | none ↦ err (invalid_store_path store_path)
      | some path ↦ store_hash_of store_path path
    ]

    -- The narinfo has to be of the path.
    unfoldable pub fetch_of : Bytes → CacheNarInfo × Url → Result FetchResult
    fetch_of store_path (narinfo, base_url) =
        if not (narinfo.store_path == store_path)
        then err (http_cache (codes "store path mismatch: expected "))
        else fetch_nar (narinfo, base_url)

    unfoldable pub fetch_by_store_path : List (HttpCacheConfig Url) → Bytes → Result FetchResult
    fetch_by_store_path configs store_path = do
      store_hash ← cache_store_hash store_path
      found ← fetch_narinfo configs store_hash
      fetch_of store_path found
