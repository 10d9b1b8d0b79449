-- ===== src/Substituter/Tests.antt =====
-- Requests to a substituter whose index is empty and whose gossip knows of one provider.
use iroh_nix.Support.{
  ℕ, ◌≡◌, refl, true, false, some, [], ◌∷◌, ◌++◌, Bytes, codes, bytes_eq, eq_nat, eq_bytes,
  replicate,
}
use iroh_nix.Support.Texts.{strip_prefix, before_char}
use iroh_nix.Error.{internal, err}
use iroh_nix.HashIndex.Entries.{store_path_basename}
use iroh_nix.HashIndex.{get_by_blake3, query_row, execute, first_row, optional_tuple_to_entry}
use iroh_nix.Gossip.{ProviderInfo, ProviderCache}
use iroh_nix.Substituter.{
  Services, route, serve_hash, not_found, partial_entry, provider_hash, is_hash, find_provider,
  find_in_cache, try_find_via_gossip,
}
use iroh_nix.Substituter.Heads.{IsHead, route-IsHead}
use iroh_nix.Substituter.GossipHits.{hit_of, Names, IsListed, try_find_via_gossip-Hit}

abbrev services : Services ℕ
services = record {
  exists = λ path. false;
  serialize_path = λ path. err (internal []);
  hex_encode = λ s. s;
  hex_decode = λ s. some s;
  answers = true;
  fetch_nar = λ id hash. err (internal []);
}

abbrev provider : ProviderInfo ℕ
provider = record { endpoint_id = 7; store_path = codes "/nix/store/abc-hello"; nar_size = 120 }

abbrev cache : ProviderCache ℕ
cache = (replicate 32 9, provider ∷ []) ∷ []

route-IsHead_example :
    IsHead
      (route services [] (some cache) 40 (codes "/abc.narinfo") true)
      (route services [] (some cache) 40 (codes "/abc.narinfo") false)
route-IsHead_example = route-IsHead services [] (some cache) 40 (codes "/abc.narinfo")

try_find_via_gossip-Hit_example :
    (p : ProviderInfo ℕ) × IsListed p cache
    × (partial_entry provider ≡ hit_of p)
    × Names p.store_path (codes "abc")
    × (serve_hash services [] (some cache) (some (replicate 32 0)) false
        ≡ not_found (codes "Not Found") false)
    × (more : Bytes) × ((not_found (codes "Not Found") false).sent
        ≡ codes "HTTP/1.1 404 Not Found" ++ more)
unfolding try_find_via_gossip find_in_cache find_provider is_hash provider_hash store_path_basename
    strip_prefix before_char bytes_eq get_by_blake3 query_row execute first_row
    optional_tuple_to_entry
try_find_via_gossip-Hit_example =
    try_find_via_gossip-Hit services [] cache (codes "abc") (partial_entry provider) false refl refl
