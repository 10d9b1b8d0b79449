-- ===== src/Substituter/Fields.antt =====
-- The narinfo lines of iroh-nix/src/substituter.rs, each read by the parser of iroh-nix/src/http_cache.rs.
use iroh_nix.Support.{
  ℕ, ◌<◌, ◌≡◌, refl, sym, ap, ◌∙◌, ◌≢◌, inl, inr, Bool, true, false, ◌&&◌, Option, none, some, List,
  [], ◌∷◌, ◌++◌, append_assoc, arith, ltb, Bool-cases, Bytes, codes, bytes_eq, bytes_eq_iff, ◌==◌,
  eq_nat, eq_bytes, length, all, All-append, is_empty,
}
use iroh_nix.Support.Words.{IsBytes}
use iroh_nix.Support.Texts.{IsGraphic, join, strip_prefix, strip_prefix-append}
use iroh_nix.Support.Lines.{lines, trim, split_once, lines_from, parse_u64, to_lowercase}
use iroh_nix.Support.Trimmed.{
  IsText, IsWords, IsGraphic-IsText, join-IsText, lines-line, trim-join, trim-space-join,
  trim-join-space,
}
use iroh_nix.Error.{ok}
use iroh_nix.HashIndex.Entries.{
  store_dir, store_path_basename, basenames_to_references, sha256_from_slice, from_slice,
}
use iroh_nix.HashIndex.RoundTrip.{IsStoredOption, store_path_basename-below}
use iroh_nix.Nix32.{to_nix_base32, decode_nix_base32}
use iroh_nix.Nix32.Descending.{decode_nix_base32-to_nix_base32}
use iroh_nix.HttpCache.NarInfos.{
  uncompressed, from_narinfo, Fields, Decoders, set_field, is_skipped, parse_line, parse_lines,
  parse_prefixed_sha256, parse_sha256_hash,
}
use iroh_nix.Substituter.{deriver_line}

-- Letters only, and at least one.
abbrev is_letter : ℕ → Bool
is_letter b = ltb 64 b && ltb b 128

split_once-key :
    (key rest : Bytes)
    → all is_letter key ≡ true
    → split_once 58 (key ++ 58 ∷ rest) ≡ some (key, rest)
unfolding split_once
split_once-key [] rest h = refl
split_once-key (b ∷ key) rest h = ground (arith, h, split_once-key key rest (ground (arith, h)))

letters-IsGraphic : (key : Bytes) → all is_letter key ≡ true → IsGraphic (key ++ 58 ∷ [])
letters-IsGraphic [] h = ((omega arith, omega arith), tt)
letters-IsGraphic (b ∷ key) h =
    ((ground (arith, h), ground (arith, h)), letters-IsGraphic key (ground (arith, h)))

letters : (key : Bytes) → all is_letter key ≡ true → IsGraphic key
letters [] h = tt
letters (b ∷ key) h = ((ground (arith, h), ground (arith, h)), letters key (ground (arith, h)))

-- The line of a key and words, trimmed: with no word, the space is lost.
after_key : List Bytes → Bytes
after_key [] = []
after_key (w ∷ ws) = 32 ∷ join (w ∷ ws)

colon_full : (key : Bytes) → key ++ 58 ∷ [] ≢ []
colon_full [] = λ e. cc
colon_full (b ∷ key) = λ e. cc

trim-field :
    (key : Bytes) (ws : List Bytes)
    → all is_letter key ≡ true
    → IsWords ws
    → trim (key ++ 58 ∷ 32 ∷ join ws) ≡ key ++ 58 ∷ after_key ws
unfolding after_key join
trim-field key [] h words =
    ap trim (sym (append_assoc key (58 ∷ []) (32 ∷ [])))
    ∙ trim-join-space (key ++ 58 ∷ []) (colon_full key) (letters-IsGraphic key h)
trim-field key (w ∷ ws) h words =
    let line =
      trim-join ((key ++ 58 ∷ []) ∷ w ∷ ws) ((colon_full key, letters-IsGraphic key h), words) in
    let same = append_assoc key (58 ∷ []) (32 ∷ join (w ∷ ws)) in ap trim (sym same) ∙ line ∙ same

trim-after_key : (ws : List Bytes) → IsWords ws → trim (after_key ws) ≡ join ws
unfolding after_key join
trim-after_key [] words = trim-join [] words
trim-after_key (w ∷ ws) words = trim-space-join (w ∷ ws) words

module _ (d : Decoders) where
  parse_line-at :
      (raw line k v : Bytes) (f : Fields)
      → trim raw ≡ line
      → is_skipped d line ≡ false
      → split_once 58 line ≡ some (k, v)
      → parse_line d raw f ≡ set_field d (trim k) (trim v) f
  unfolding parse_line
  parse_line-at raw line k v f trimmed kept at = rw (trimmed, kept, at) refl

  parse_line-field :
      (b : ℕ) (more : Bytes) (ws : List Bytes) (f : Fields)
      → all is_letter (b ∷ more) ≡ true
      → IsWords ws
      → parse_line d ((b ∷ more) ++ 58 ∷ 32 ∷ join ws) f ≡ set_field d (b ∷ more) (join ws) f
  unfolding is_skipped join
  parse_line-field b more ws f h words =
      let key_words : IsWords ((b ∷ more) ∷ []) = (((λ e. cc), letters (b ∷ more) h), tt) in
      parse_line-at ((b ∷ more) ++ 58 ∷ 32 ∷ join ws) ((b ∷ more) ++ 58 ∷ after_key ws) (b ∷ more)
        (after_key ws) f (trim-field (b ∷ more) ws h words) (ground (arith, h))
        (split_once-key (b ∷ more) (after_key ws) h)
      ∙ rw (trim-join ((b ∷ more) ∷ []) key_words, trim-after_key ws words) refl

  pub parse_lines-field :
      (b : ℕ) (more rest : Bytes) (ws : List Bytes) (f next : Fields)
      → all is_letter (b ∷ more) ≡ true
      → IsWords ws
      → set_field d (b ∷ more) (join ws) f ≡ ok next
      → parse_lines d (lines ((b ∷ more) ++ 58 ∷ 32 ∷ (join ws ++ 10 ∷ rest))) f
        ≡ parse_lines d (lines rest) next
  unfolding parse_lines
  parse_lines-field b more rest ws f next h words sets =
      let line = (b ∷ more) ++ 58 ∷ 32 ∷ join ws in
      let text : IsText line =
        All-append (λ c. (31 < c) × (c < 128)) (b ∷ more) (58 ∷ 32 ∷ join ws)
          (IsGraphic-IsText (b ∷ more) (letters (b ∷ more) h))
          ((omega arith, omega arith), ((omega arith, omega arith), join-IsText ws words)) in
      ap (λ s. parse_lines d (lines s) f)
        (sym (append_assoc (b ∷ more) (58 ∷ 32 ∷ join ws) (10 ∷ rest)))
      ∙ rw (lines-line line rest text, parse_line-field b more ws f h words, sets) refl

  parse_prefixed :
      (s t : Bytes)
      → strip_prefix (codes "sha256:") s ≡ some t
      → parse_prefixed_sha256 d s ≡ parse_sha256_hash d t
  unfolding parse_prefixed_sha256
  parse_prefixed s t h = simp (h, parse_prefixed_sha256)

  parse_base32 :
      (s bytes : Bytes)
      → length s ≡ 52
      → decode_nix_base32 s ≡ ok bytes
      → length bytes ≡ 32
      → parse_sha256_hash d s ≡ ok bytes
  unfolding parse_sha256_hash sha256_from_slice from_slice
  parse_base32 s bytes digits back size = rw (digits, back) (rw size refl)

  pub parse_prefixed_sha256-base32 :
      (bytes : Bytes)
      → IsBytes bytes
      → length bytes ≡ 32
      → parse_prefixed_sha256 d (codes "sha256:" ++ to_nix_base32 bytes) ≡ ok bytes
  parse_prefixed_sha256-base32 bytes h size =
      let (digits, back) = decode_nix_base32-to_nix_base32 bytes h size in
      parse_prefixed (codes "sha256:" ++ to_nix_base32 bytes) (to_nix_base32 bytes)
        (strip_prefix-append (codes "sha256:") (to_nix_base32 bytes))
      ∙ parse_base32 (to_nix_base32 bytes) bytes digits back size

  known_deriver :
      (name : Bytes) → name ≢ codes "unknown-deriver" → (name == codes "unknown-deriver") ≡ false
  known_deriver name h = elim (Bool-cases (name == codes "unknown-deriver")) [
    | inl e ↦ elim (h ((bytes_eq_iff name (codes "unknown-deriver")).0 e)) [ ]
    | inr e ↦ e
  ]

  is_empty-full : (name : Bytes) → name ≢ [] → is_empty name ≡ false
  unfolding is_empty
  is_empty-full [] full = elim (full refl) [ ]
  is_empty-full (b ∷ name) full = refl

  set_field-deriver :
      (name : Bytes) (f : Fields)
      → name ≢ []
      → trim name ≡ name
      → (name == codes "unknown-deriver") ≡ false
      → set_field d (codes "Deriver") name f ≡ ok (record f { deriver = some (store_dir ++ name) })
  unfolding set_field is_empty bytes_eq
  set_field-deriver name f full trimmed known = rw (trimmed, is_empty-full name full, known) refl

  no_lines : (f : Fields) → parse_lines d (lines []) f ≡ ok f
  unfolding lines lines_from parse_lines
  no_lines f = refl

  deriver_line-at :
      (path name : Bytes)
      → store_path_basename path ≡ some name
      → deriver_line (some path) ≡ codes "Deriver: " ++ (name ++ 10 ∷ [])
  unfolding deriver_line
  deriver_line-at path name h = simp (h, deriver_line)

  pub parse_lines-deriver :
      (deriver : Option Bytes) (f : Fields)
      → IsStoredOption deriver
      → deriver ≢ some (store_dir ++ codes "unknown-deriver")
      → f.deriver ≡ none
      → parse_lines d (lines (deriver_line deriver)) f ≡ ok (record f { deriver = deriver })
  unfolding join
  parse_lines-deriver none f stored known unset =
      unfold deriver_line in no_lines f ∙ ap (λ x. ok (record f { deriver = x })) unset
  parse_lines-deriver (some path) f (name, at, full, h) known unset =
      let other : name ≢ codes "unknown-deriver" =
        λ e. known (ap some (at ∙ ap (λ n. store_dir ++ n) e)) in
      rw (at, deriver_line-at (store_dir ++ name) name (store_path_basename-below name))
        (parse_lines-field 68 (codes "eriver") [] (name ∷ []) f
            (record f { deriver = some (store_dir ++ name) }) refl ((full, h), tt)
            (set_field-deriver name f full (trim-join (name ∷ []) ((full, h), tt))
              (known_deriver name other))
          ∙ no_lines (record f { deriver = some (store_dir ++ name) }))

  pub set_field-hash :
      (value hash : Bytes) (f : Fields)
      → parse_prefixed_sha256 d value ≡ ok hash
      → set_field d (codes "NarHash") value f ≡ ok (record f { nar_hash = some hash })
  unfolding set_field bytes_eq
  set_field-hash value hash f h = rw h refl

  pub set_field-size :
      (value : Bytes) (size : ℕ) (f : Fields)
      → parse_u64 value ≡ some size
      → set_field d (codes "NarSize") value f ≡ ok (record f { nar_size = some size })
  unfolding set_field bytes_eq
  set_field-size value size f h = rw h refl

  pub set_field-references :
      (value : Bytes) (references : List Bytes) (f : Fields)
      → basenames_to_references value ≡ references
      → set_field d (codes "References") value f ≡ ok (record f { references = references })
  unfolding set_field bytes_eq
  set_field-references value references f h = rw h refl

  pub set_field-path :
      (value : Bytes) (f : Fields)
      → set_field d (codes "StorePath") value f ≡ ok (record f { store_path = some value })
  unfolding set_field bytes_eq
  set_field-path value f = refl

  pub set_field-url :
      (value : Bytes) (f : Fields)
      → set_field d (codes "URL") value f ≡ ok (record f { url = some value })
  unfolding set_field bytes_eq
  set_field-url value f = refl

  pub set_field-none :
      (f : Fields)
      → set_field d (codes "Compression") (codes "none") f
        ≡ ok (record f { compression = uncompressed })
  unfolding set_field bytes_eq from_narinfo to_lowercase
  set_field-none f = refl
