-- ===== src/HttpCache/Verified.antt =====
-- iroh-nix/src/http_cache.rs: what a fetch from the caches returns, and of which cache.
use iroh_nix.Support.{
  ℕ, ◌≤◌, ◌≡◌, refl, ap, ◌⊎◌, inl, inr, true, false, Option, none, some, List, [], ◌∷◌, ◌++◌, arith,
  ltb, Bool-cases, Option-cases, Bytes, codes, ◌==◌, eq_nat, eq_bytes, length, All, All-parts,
}
use mathlib.Core.Path.{subst}
use iroh_nix.Error.{ok, ◌>>=◌, >>=-eq-ok}
use iroh_nix.HttpCache.NarInfos.{CacheNarInfo, required, parse}
use iroh_nix.HttpCache.{
  HttpCacheConfig, Web, FetchResult, Response, insert_config, new, ask_cache, ask_caches,
  narinfo_text, parsed, fetch_narinfo, checked, to_result, decompressed, read_message, read_nar,
  fetch_nar, fetch_of, cache_store_hash, fetch_by_store_path,
}

module _ {Url : Type 0} where
  -- From each cache on, the priorities do not fall.
  abbrev pub IsOrdered : List (HttpCacheConfig Url) → Type 0
  IsOrdered [] = Unit
  IsOrdered (c ∷ cs) = All (λ d. c.priority ≤ d.priority) cs × IsOrdered cs

  All-insert_config :
      (n : ℕ) (c : HttpCacheConfig Url) (cs : List (HttpCacheConfig Url))
      → n ≤ c.priority
      → All (λ d. n ≤ d.priority) cs
      → All (λ d. n ≤ d.priority) (insert_config c cs)
  unfolding insert_config
  All-insert_config n c [] here h = (here, tt)
  All-insert_config n c (d ∷ ds) here (first, h) = elim (Bool-cases (ltb d.priority c.priority)) [
    | inl e ↦ rw e (first, All-insert_config n c ds here h)
    | inr e ↦ rw e (here, (first, h))
  ]

  All-higher :
      (m n : ℕ) (cs : List (HttpCacheConfig Url))
      → m ≤ n
      → All (λ d. n ≤ d.priority) cs
      → All (λ d. m ≤ d.priority) cs
  All-higher m n [] le h = tt
  All-higher m n (c ∷ cs) le (first, h) = (omega arith, All-higher m n cs le h)

  insert_config-IsOrdered :
      (c : HttpCacheConfig Url) (cs : List (HttpCacheConfig Url))
      → IsOrdered cs
      → IsOrdered (insert_config c cs)
  unfolding insert_config
  insert_config-IsOrdered c [] h = (tt, tt)
  insert_config-IsOrdered c (d ∷ ds) (first, h) = elim (Bool-cases (ltb d.priority c.priority)) [
    | inl e ↦ rw e (
      All-insert_config d.priority c ds (ground (arith, e)) first,
      insert_config-IsOrdered c ds h,
    )
    | inr e ↦
        let le : c.priority ≤ d.priority = ground (arith, e) in
        rw e ((le, All-higher c.priority d.priority ds le first), (first, h))
  ]

  new-IsOrdered : (cs : List (HttpCacheConfig Url)) → IsOrdered (new cs)
  unfolding new
  new-IsOrdered [] = tt
  new-IsOrdered (c ∷ cs) = insert_config-IsOrdered c (new cs) (new-IsOrdered cs)

  module _ (web : Web Url) where
    -- The address at this cache is one, and getting it fails or is answered with a failure.
    abbrev pub HasNone : Bytes → HttpCacheConfig Url → Type 0
    HasNone narinfo_path c =
        (url : Url) × (web.join c.url narinfo_path ≡ some url)
        × ((web.get url c.timeout ≡ none)
            ⊎ ((response : Response) × (web.get url c.timeout ≡ some response)
                × (response.is_success ≡ false)))

    -- The cache answers with success and a text, of which the narinfo is read.
    abbrev pub Gives : Bytes → HttpCacheConfig Url → CacheNarInfo × Url → Type 0
    Gives narinfo_path c (narinfo, base_url) =
        (url : Url) × (response : Response) × (text : Bytes) × (web.join c.url narinfo_path
          ≡ some url)
        × (web.get url c.timeout ≡ some response)
        × (response.is_success ≡ true)
        × (response.text ≡ some text)
        × (parse web.decoders text ≡ ok narinfo)
        × (base_url ≡ c.url)

    -- A cache that is tried in vain, before one of the priority `n` or below.
    abbrev pub IsPassed : Bytes → ℕ → HttpCacheConfig Url → Type 0
    IsPassed narinfo_path n c = HasNone narinfo_path c × (c.priority ≤ n)

    ask_cache-HasNone :
        (narinfo_path : Bytes) (c : HttpCacheConfig Url)
        → ask_cache web narinfo_path c ≡ none
        → HasNone narinfo_path c
    unfolding ask_cache narinfo_text
    ask_cache-HasNone narinfo_path c h = elim (Option-cases (web.join c.url narinfo_path)) [
      | inl e ↦ absurd (ground (arith, h, e))
      | inr (url, e) ↦ elim (Option-cases (web.get url c.timeout)) [
        | inl g ↦ (url, e, inl g)
        | inr (response, g) ↦
            (url, e, inr (response, g, ground (arith, h, e, g, Bool-cases response.is_success)))
      ]
    ]

    parsed-only :
        (c : HttpCacheConfig Url) (text : Option Bytes) (found : CacheNarInfo × Url)
        → parsed web c (required (codes "failed to read narinfo: ") text) ≡ ok found
        → (t : Bytes) × (text ≡ some t) × (parse web.decoders t ≡ ok found.0) × (found.1 ≡ c.url)
    unfolding parsed required
    parsed-only c none found h = cc
    parsed-only c (some t) found h =
        let (narinfo, read, same) = >>=-eq-ok (parse web.decoders t) _ h in
        (t, refl, ground (arith, same, read), ground (arith, same))

    ask_cache-Gives :
        (narinfo_path : Bytes) (c : HttpCacheConfig Url) (found : CacheNarInfo × Url)
        → ask_cache web narinfo_path c ≡ some (ok found)
        → Gives narinfo_path c found
    unfolding ask_cache narinfo_text
    ask_cache-Gives narinfo_path c found h = elim (Option-cases (web.join c.url narinfo_path)) [
      | inl e ↦ absurd (ground (arith, h, e))
      | inr (url, e) ↦ elim (Option-cases (web.get url c.timeout)) [
        | inl g ↦ absurd (ground (arith, h, e, g))
        | inr (response, g) ↦ elim (Bool-cases response.is_success) [
          | inr f ↦ absurd (ground (arith, h, e, g, f))
          | inl f ↦
              let (t, text, read, base) =
                parsed-only c response.text found (ground (arith, h, e, g, f)) in
              (url, response, t, e, g, f, text, read, base)
        ]
      ]
    ]

    ask_caches-First :
        (narinfo_path : Bytes) (cs : List (HttpCacheConfig Url)) (r : CacheNarInfo × Url)
        → IsOrdered cs
        → ask_caches web narinfo_path cs ≡ ok r
        → (pre : List (HttpCacheConfig Url)) × (c : HttpCacheConfig Url) × (post : List
            (HttpCacheConfig Url))
          × (cs ≡ pre ++ c ∷ post)
          × All (IsPassed narinfo_path c.priority) pre
          × Gives narinfo_path c r
    unfolding ask_caches
    ask_caches-First narinfo_path [] r sorted h = cc
    ask_caches-First narinfo_path (c ∷ cs) r (first, sorted) h =
        elim (Option-cases (ask_cache web narinfo_path c)) [
          | inl e ↦
              let (pre, d, post, split, passed, found) =
                ask_caches-First narinfo_path cs r sorted (ground (arith, e, h)) in
              let (front, (here, back)) =
                All-parts (λ x. c.priority ≤ x.priority) pre (d ∷ post)
                  (subst (All (λ x. c.priority ≤ x.priority)) split first) in
              (
                c ∷ pre,
                d,
                post,
                ap (◌∷◌ c) split,
                ((ask_cache-HasNone narinfo_path c e, here), passed),
                found,
              )
          | inr (x, e) ↦
              ([], c, cs, refl, tt, ask_cache-Gives narinfo_path c r (ground (arith, e, h)))
        ]

    -- The data of a result are what its hashes and its size say.
    abbrev pub IsChecked : Bytes → Bytes → FetchResult → Type 0
    IsChecked store_path nar_hash r =
        (r.store_path ≡ store_path)
        × (r.sha256 ≡ nar_hash)
        × (web.sha256_hash r.nar_data ≡ nar_hash)
        × (web.blake3_hash r.nar_data ≡ r.blake3)
        × (length r.nar_data ≡ r.nar_size)

    checked-IsChecked :
        (narinfo : CacheNarInfo) (nar_data : Bytes) (r : FetchResult)
        → checked web narinfo nar_data ≡ ok r
        → IsChecked narinfo.store_path narinfo.nar_hash r
    unfolding checked to_result
    checked-IsChecked narinfo nar_data r h =
        elim (Bool-cases (web.sha256_hash nar_data == narinfo.nar_hash)) [
          | inl e ↦
              let same = (eq_bytes.beq_iff (web.sha256_hash nar_data) narinfo.nar_hash).0 e in
              let at : to_result web narinfo nar_data ≡ r = ground (arith, e, h) in
              subst (IsChecked narinfo.store_path narinfo.nar_hash) at
                (refl, same, same, refl, refl)
          | inr e ↦ ground (arith, e, h)
        ]

    read_nar-IsChecked :
        (narinfo : CacheNarInfo) (response : Response) (r : FetchResult)
        → read_nar web narinfo response ≡ ok r
        → IsChecked narinfo.store_path narinfo.nar_hash r
    unfolding read_nar
    read_nar-IsChecked narinfo response r h =
        let bytes =
          required (read_message web narinfo.compression)
            (decompressed web narinfo.compression response.bytes) in
        elim (Bool-cases response.is_success) [
          | inl e ↦
              let got : (bytes >>= checked web narinfo) ≡ ok r = ground (arith, e, h) in
              let (nar_data, read, last) = >>=-eq-ok bytes (checked web narinfo) got in
              checked-IsChecked narinfo nar_data r last
          | inr e ↦ ground (arith, e, h)
        ]

    fetch_nar-IsChecked :
        (narinfo : CacheNarInfo) (base_url : Url) (r : FetchResult)
        → fetch_nar web (narinfo, base_url) ≡ ok r
        → IsChecked narinfo.store_path narinfo.nar_hash r
    unfolding fetch_nar
    fetch_nar-IsChecked narinfo base_url r h =
        let (nar_url, joined, more) =
          >>=-eq-ok (required (codes "invalid NAR URL: ") (web.join base_url narinfo.url)) _ h in
        let (response, got, last) =
          >>=-eq-ok (required (codes "failed to fetch NAR: ") (web.get nar_url 300)) _ more in
        read_nar-IsChecked narinfo response r last

    -- A narinfo that a cache gives, and the caches that are tried before it.
    abbrev pub IsFrom : List (HttpCacheConfig Url) → Bytes → CacheNarInfo × Url → Type 0
    IsFrom configs store_hash found =
        (pre : List (HttpCacheConfig Url)) × (c : HttpCacheConfig Url) × (post : List
          (HttpCacheConfig Url))
        × (new configs ≡ pre ++ c ∷ post)
        × All (IsPassed (store_hash ++ codes ".narinfo") c.priority) pre
        × Gives (store_hash ++ codes ".narinfo") c found

    fetch_narinfo-IsFrom :
        (configs : List (HttpCacheConfig Url)) (store_hash : Bytes) (found : CacheNarInfo × Url)
        → fetch_narinfo web (new configs) store_hash ≡ ok found
        → IsFrom configs store_hash found
    unfolding fetch_narinfo
    fetch_narinfo-IsFrom configs store_hash found h =
        ask_caches-First (store_hash ++ codes ".narinfo") (new configs) found
          (new-IsOrdered configs) h

    -- A client of some caches that fetches a path returns data that have the SHA-256 hash of the narinfo,
    -- with their own BLAKE3 hash and length and the path that was asked for. The narinfo is that of the
    -- first cache in the order of the priorities that has one: those before it, whose priority is no
    -- greater, have an address for it that could not be got or was answered with a failure.
    pub fetch_by_store_path-IsChecked :
        (configs : List (HttpCacheConfig Url)) (store_path : Bytes) (r : FetchResult)
        → fetch_by_store_path web (new configs) store_path ≡ ok r
        → (store_hash : Bytes) × (narinfo : CacheNarInfo) × (base_url : Url) × (cache_store_hash web
              store_path
            ≡ ok store_hash)
          × IsFrom configs store_hash (narinfo, base_url)
          × IsChecked store_path narinfo.nar_hash r
    unfolding fetch_by_store_path fetch_of
    fetch_by_store_path-IsChecked configs store_path r h =
        let (store_hash, cut, more) = >>=-eq-ok (cache_store_hash web store_path) _ h in
        let ((narinfo, base_url), found, last) =
          >>=-eq-ok (fetch_narinfo web (new configs) store_hash) (fetch_of web store_path) more in
        elim (Bool-cases (narinfo.store_path == store_path)) [
          | inl e ↦
              let got : fetch_nar web (narinfo, base_url) ≡ ok r = ground (arith, e, last) in
              let same = (eq_bytes.beq_iff narinfo.store_path store_path).0 e in
              (
                store_hash,
                narinfo,
                base_url,
                cut,
                fetch_narinfo-IsFrom configs store_hash (narinfo, base_url) found,
                subst (λ path. IsChecked path narinfo.nar_hash r) same
                    (fetch_nar-IsChecked narinfo base_url r got),
              )
          | inr e ↦ ground (arith, e, last)
        ]
