-- ===== src/Gossip/Tests.antt =====
-- Runs of the receiver of iroh-nix/src/gossip.rs.
use iroh_nix.Support.{
  ℕ, ◌≡◌, refl, true, not, ◌&&◌, ◌||◌, Option, none, some, List, [], ◌∷◌, ◌++◌, arith, Bytes, codes,
  bytes_eq, eq_nat, eq_bytes, contains, length, take, drop, all, take-append, drop-append, is_empty,
}
use mathlib.Core.Path.{subst}
use iroh_nix.Support.Maps.{lookup, insert, erase}
use iroh_nix.Error.{Result, ok, err, gossip}
use iroh_nix.Gossip.{
  GossipMessage, have, Receiver, Event, received, neighbor_down, or_default, receive, run_receiver,
}
use iroh_nix.Gossip.Providers.{provides, announces, departs, receive-provides}
use iroh_nix.Gossip.{
  need_builder, want, i_have, build_complete, get_matching_requesters, handle_message, handle,
  add_provider, remove_provider, without, lists, all_requesters,
}
use iroh_nix.Gossip.Announce.{
  announce_need_builder, broadcast, asks, has_peers, asks-announce_need_builder,
}
use iroh_nix.Gossip.Requesters.{Follows, receive-Follows}
use iroh_nix.Gossip.Unique.{IsUnique, copies, run_receiver-IsUnique}

abbrev id_bytes : ℕ → Bytes
id_bytes n = n ∷ []

abbrev bytes_id : Bytes → Option ℕ
bytes_id [] = none
bytes_id (n ∷ more) = some n

-- A content stands for the announcement of the archive that it is the hash of.
abbrev decoded : Bytes → Result GossipMessage
decoded content = ok (have content (codes "path") 8)

abbrev no_peers : Receiver ℕ
no_peers = record { provider_cache = []; requester_cache = []; called = [] }

abbrev gossip_events : List (Event ℕ)
gossip_events =
    received (5 ∷ []) 1 ∷ received (5 ∷ []) 2 ∷ received (5 ∷ []) 1 ∷ neighbor_down 2 ∷ []

receive-provides_example :
    provides
      (receive id_bytes bytes_id true true decoded (received (5 ∷ []) 1) no_peers).provider_cache
      (5 ∷ [])
      1
    ≡ ((provides no_peers.provider_cache (5 ∷ []) 1
          || announces id_bytes bytes_id true true decoded (received (5 ∷ []) 1) (5 ∷ []) 1)
        && not (departs id_bytes bytes_id true true decoded (received (5 ∷ []) 1) 1))
receive-provides_example =
    receive-provides id_bytes bytes_id true true decoded (received (5 ∷ []) 1) no_peers (5 ∷ []) 1

no_peers-IsUnique : IsUnique no_peers.provider_cache
unfolding lookup or_default copies
no_peers-IsUnique hash id = omega arith

run_receiver-IsUnique_example :
    IsUnique
      (run_receiver id_bytes bytes_id true true decoded gossip_events no_peers).provider_cache
run_receiver-IsUnique_example =
    run_receiver-IsUnique id_bytes bytes_id true true decoded gossip_events no_peers
      no_peers-IsUnique

-- A content is the id of a requester.
abbrev asked : Bytes → Result GossipMessage
asked content = ok (need_builder content (codes "kvm" ∷ []))

receive-Follows_example :
    Follows id_bytes bytes_id true true asked
      (received (5 ∷ []) 1)
      no_peers
      (receive id_bytes bytes_id true true asked (received (5 ∷ []) 1) no_peers)
receive-Follows_example =
    receive-Follows id_bytes bytes_id true true asked (received (5 ∷ []) 1) no_peers

-- An encoding of the announcements of one feature.
abbrev encoded : GossipMessage → Result Bytes
encoded (need_builder requester (feature ∷ [])) = ok (length feature ∷ feature ++ requester)
encoded message = err (gossip [])

abbrev feature_of : Bytes → Result GossipMessage
feature_of [] = err (gossip [])
feature_of (n ∷ s) = ok (need_builder (drop n s) (take n s ∷ []))

feature_back :
    (message : GossipMessage) (b : Bytes) → encoded message ≡ ok b → feature_of b ≡ ok message
feature_back (need_builder requester (feature ∷ [])) b h =
    let same : length feature ∷ feature ++ requester ≡ b = cc h in
    subst (λ s. feature_of s ≡ ok (need_builder requester (feature ∷ []))) same
      (rw (take-append feature requester, drop-append feature requester) refl)
feature_back (need_builder requester []) b h = cc h
feature_back (need_builder requester (f ∷ g ∷ fs)) b h = cc h
feature_back (have blake3 path size) b h = cc h
feature_back (want blake3) b h = cc h
feature_back (i_have blake3 path size) b h = cc h
feature_back (build_complete result) b h = cc h

announced_kvm :
    announce_need_builder id_bytes 4 encoded true (codes "kvm" ∷ [])
    ≡ ok (3 ∷ codes "kvm" ++ 4 ∷ [])
unfolding announce_need_builder broadcast
announced_kvm = refl

kvm_there : all (contains (codes "arm" ∷ codes "kvm" ∷ [])) (codes "kvm" ∷ []) ≡ true
unfolding bytes_eq
kvm_there = refl

asks-announce_need_builder_example :
    asks 4 (
      get_matching_requesters
        (codes "arm" ∷ codes "kvm" ∷ [])
        (receive id_bytes bytes_id true true feature_of
          (received (3 ∷ codes "kvm" ++ 4 ∷ []) 1)
          no_peers).requester_cache)
    ≡ true
asks-announce_need_builder_example =
    asks-announce_need_builder id_bytes bytes_id encoded feature_of true true true 4 1
      (codes "kvm" ∷ []) (codes "arm" ∷ codes "kvm" ∷ []) (3 ∷ codes "kvm" ++ 4 ∷ []) no_peers refl
      feature_back announced_kvm kvm_there

-- The one provider has left, and there is still a peer, of whom nothing is known.
still_peers :
    has_peers (
      run_receiver id_bytes bytes_id true true decoded
        (received (5 ∷ []) 1 ∷ neighbor_down 1 ∷ [])
        no_peers)
    ≡ true
unfolding run_receiver receive handle_message handle add_provider remove_provider without or_default
    lists lookup insert has_peers all_requesters is_empty erase
still_peers = refl
