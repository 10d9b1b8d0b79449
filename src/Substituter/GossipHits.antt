-- ===== src/Substituter/GossipHits.antt =====
-- iroh-nix/src/substituter.rs: what is made of a provider that gossip knows of.
use iroh_nix.Support.{
  ◌≡◌, refl, ap, ◌∙◌, ◌⊎◌, inl, inr, Bool, true, false, Option, none, some, List, [], ◌∷◌, ◌++◌,
  arith, Bool-cases, Option-cases, Bytes, codes, Eq, ◌==◌, eq_nat, eq_bytes, contains, replicate,
  is_empty,
}
use iroh_nix.Support.Texts.{strip_prefix, strip_prefix-only, before_char}
use mathlib.Core.Path.{subst}
use iroh_nix.HashIndex.Entries.{HashEntry, store_dir, store_path_basename}
use iroh_nix.HashIndex.{Table, get_by_blake3}
use iroh_nix.Gossip.{ProviderInfo, ProviderCache}
use iroh_nix.Error.{ok}
use iroh_nix.Support.Lines.{decimal, decimal_from}
use iroh_nix.Substituter.Http.{send_response, response_head}
use iroh_nix.Substituter.{
  Services, not_found, partial_entry, provider_hash, is_hash, find_provider, find_in_cache,
  try_find_via_gossip, unknown_hash, serve_entry, serve_hash, found_entry,
}

is_hash-only : (hash : Bytes) (o : Option Bytes) → is_hash hash o ≡ true → o ≡ some hash
unfolding is_hash
is_hash-only hash none h = cc
is_hash-only hash (some b) h = ap some ((eq_bytes.beq_iff b hash).0 h)

-- The path is below the store, and its name starts with this hash, before a dash or the end.
abbrev pub Names : Bytes → Bytes → Type 0
Names path hash =
    (rest : Bytes) × (path ≡ codes "/nix/store/" ++ (hash ++ rest))
    × contains hash 45 ≡ false
    × ((rest ≡ []) ⊎ ((more : Bytes) × (rest ≡ 45 ∷ more)))

before_char-split :
    (s : Bytes)
    → (rest : Bytes) × (s ≡ before_char 45 s ++ rest)
      × (contains (before_char 45 s) 45 ≡ false)
      × ((rest ≡ []) ⊎ ((more : Bytes) × (rest ≡ 45 ∷ more)))
unfolding before_char
before_char-split [] = ([], refl, refl, inl refl)
before_char-split (b ∷ s) = elim (Bool-cases (b == 45)) [
  | inl e ↦ (
    b ∷ s,
    rw (e, before_char) refl,
    rw (e, before_char) refl,
    inr (s, ap (λ c. c ∷ s) ((eq_nat.beq_iff b 45).0 e)),
  )
  | inr e ↦
      let (rest, split, free, ends) = before_char-split s in
      (
        rest,
        ground (arith, e, split),
        ground (arith, e, free, eq_nat.beq_iff b 45, eq_nat.beq_iff 45 b),
        ends,
      )
]

not_found-sent :
    (is_head : Bool)
    → (more : Bytes) × ((not_found (codes "Not Found") is_head).sent
        ≡ codes "HTTP/1.1 404 Not Found" ++ more)
unfolding send_response response_head decimal decimal_from is_empty
not_found-sent true = (_, refl)
not_found-sent false = (_, refl)

module _ {EndpointId : Type 0} where
  -- A provider that the cache lists under some hash.
  abbrev pub IsListed : ProviderInfo EndpointId → ProviderCache EndpointId → Type 0
  IsListed p cache =
      (pre : ProviderCache EndpointId) × (blake3 : Bytes) × (front : List (ProviderInfo EndpointId))
      × (back : List (ProviderInfo EndpointId)) × (post : ProviderCache EndpointId) × (cache
          ≡ pre ++ (blake3, front ++ p ∷ back) ∷ post)

  -- The entry that is made of a provider.
  abbrev pub hit_of : ProviderInfo EndpointId → HashEntry
  hit_of p = record {
    blake3 = replicate 32 0;
    sha256 = replicate 32 0;
    store_path = p.store_path;
    nar_size = p.nar_size;
    references = [];
    deriver = none;
  }

  provider_hash-Names :
      (p : ProviderInfo EndpointId) (hash : Bytes)
      → provider_hash p ≡ some hash
      → Names p.store_path hash
  unfolding provider_hash store_path_basename
  provider_hash-Names p hash h = elim (Option-cases (strip_prefix store_dir p.store_path)) [
    | inl e ↦ absurd (ground (arith, h, e))
    | inr (name, e) ↦
        let (rest, split, free, ends) = before_char-split name in
        let same : before_char 45 name ≡ hash = ground (arith, h, e) in
        (
          rest,
          strip_prefix-only store_dir p.store_path name e
              ∙ ap (λ s. store_dir ++ s) (split ∙ ap (λ s. s ++ rest) same),
          subst (λ s. contains s 45 ≡ false) same free,
          ends,
        )
  ]

  find_provider-Hit :
      (hash : Bytes) (ps : List (ProviderInfo EndpointId)) (e : HashEntry)
      → find_provider hash ps ≡ some e
      → (front : List (ProviderInfo EndpointId)) × (p : ProviderInfo EndpointId) × (back : List
          (ProviderInfo EndpointId))
        × (ps ≡ front ++ p ∷ back)
        × (e ≡ partial_entry p)
        × (provider_hash p ≡ some hash)
  unfolding find_provider
  find_provider-Hit hash [] e h = cc
  find_provider-Hit hash (p ∷ ps) e h = elim (Bool-cases (is_hash hash (provider_hash p))) [
    | inl e' ↦ ([], p, ps, refl, ground (arith, e', h), is_hash-only hash (provider_hash p) e')
    | inr f ↦
        let (front, q, back, split, same, hit) =
          find_provider-Hit hash ps e (ground (arith, f, h)) in
        (p ∷ front, q, back, ap (◌∷◌ p) split, same, hit)
  ]

  find_in_cache-Hit :
      (hash : Bytes) (cache : ProviderCache EndpointId) (e : HashEntry)
      → find_in_cache hash cache ≡ some e
      → (p : ProviderInfo EndpointId) × IsListed p cache
        × (e ≡ partial_entry p)
        × (provider_hash p ≡ some hash)
  unfolding find_in_cache
  find_in_cache-Hit hash [] e h = cc
  find_in_cache-Hit hash ((k, ps) ∷ cache) e h = elim (Option-cases (find_provider hash ps)) [
    | inl none_here ↦
        let (p, (pre, b, front, back, post, split), same, hit) =
          find_in_cache-Hit hash cache e (ground (arith, none_here, h)) in
        (p, ((k, ps) ∷ pre, b, front, back, post, ap (◌∷◌ (k, ps)) split), same, hit)
    | inr (x, here) ↦
        let (front, p, back, split, same, hit) =
          find_provider-Hit hash ps e (ground (arith, here, h)) in
        (p, ([], k, front, back, cache, ap (λ l. (k, l) ∷ cache) split), same, hit)
  ]

module _ {EndpointId : Type 0} ⦃d : Eq EndpointId⦄ (s : Services EndpointId) (index : Table)
    (cache : ProviderCache EndpointId) where
  serve_hash-unknown :
      (is_head : Bool)
      → get_by_blake3 s.answers unknown_hash index ≡ ok none
      → serve_hash s index (some cache) (some unknown_hash) is_head
        ≡ not_found (codes "Not Found") is_head
  unfolding serve_hash serve_entry found_entry
  serve_hash-unknown is_head absent = ground (arith, absent)

  -- Where the index answers and has no entry under 32 zeros: what gossip gives for a store hash is made of a
  -- provider in the cache whose store path has that hash, with its path and size; its BLAKE3 and SHA-256
  -- hashes are 32 zeros, whatever the path's are, and the NAR that the entry names is answered with 404.
  pub try_find_via_gossip-Hit :
      (hash : Bytes) (e : HashEntry) (is_head : Bool)
      → get_by_blake3 s.answers unknown_hash index ≡ ok none
      → try_find_via_gossip hash (some cache) ≡ some e
      → (p : ProviderInfo EndpointId) × IsListed p cache
        × (e ≡ hit_of p)
        × Names p.store_path hash
        × (serve_hash s index (some cache) (some e.blake3) is_head
            ≡ not_found (codes "Not Found") is_head)
        × (more : Bytes) × ((not_found (codes "Not Found") is_head).sent
            ≡ codes "HTTP/1.1 404 Not Found" ++ more)
  unfolding try_find_via_gossip
  try_find_via_gossip-Hit hash e is_head absent h =
      let (p, listed, same, hit) = find_in_cache-Hit hash cache e h in
      (
        p,
        listed,
        same,
        provider_hash-Names p hash hit,
        rw same (serve_hash-unknown is_head absent),
        (not_found-sent is_head).0,
        (not_found-sent is_head).1,
      )
