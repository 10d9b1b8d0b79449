-- ===== src/Gossip/Announce.antt =====
-- iroh-nix/src/gossip.rs: what the service announces, and what it says of its caches. The encoding of a
-- message and the broadcast are foreign: parameters. A function that announces returns what it broadcasts.
use iroh_nix.Support.{
  ℕ, ◌≡◌, Bool, true, false, not, ◌||◌, Option, some, List, [], ◌∷◌, arith, if◌then◌else◌,
  Bool-cases, Bytes, codes, Eq, ◌==◌, eq_nat, eq_bytes, ==-refl, contains, all, is_empty,
}
use mathlib.Core.Path.{subst}
use iroh_nix.Support.Maps.{lookup, lookup-insert}
use iroh_nix.Error.{gossip, Result, ok, err, ◌>>=◌, >>=-eq-ok}
use iroh_nix.Build.Types.{BuildResult}
use iroh_nix.Gossip.{
  GossipMessage, have, want, need_builder, build_complete, ProviderInfo, RequesterInfo,
  ProviderCache, RequesterCache, Receiver, received, or_default, all_requesters,
  get_matching_requesters, add_requester, handle, handle_message, receive,
}

module _ {EndpointId : Type 0} (as_bytes : EndpointId → Bytes) (our_id : EndpointId)
    (to_bytes : GossipMessage → Result Bytes) (sends : Bool) where
  unfoldable pub broadcast : GossipMessage → Result Bytes
  broadcast msg = do
    content ← to_bytes msg
    if sends then ok content else err (gossip (codes "broadcast failed: "))

  unfoldable pub announce_have : Bytes → Bytes → ℕ → Result Bytes
  announce_have blake3 store_path nar_size = broadcast (have blake3 store_path nar_size)

  unfoldable pub query_want : Bytes → Result Bytes
  query_want blake3 = broadcast (want blake3)

  unfoldable pub announce_need_builder : List Bytes → Result Bytes
  announce_need_builder system_features = broadcast (need_builder (as_bytes our_id) system_features)

  unfoldable pub announce_build_complete : BuildResult → Result Bytes
  announce_build_complete result = broadcast (build_complete result)

-- `get_providers` of the service: no provider where the hash is not known.
unfoldable pub known_providers :
    {EndpointId : Type 0} → Bytes → ProviderCache EndpointId → List (ProviderInfo EndpointId)
known_providers blake3 cache = or_default (lookup blake3 cache)

unfoldable pub has_peers : {EndpointId : Type 0} → Receiver EndpointId → Bool
has_peers r = not (is_empty (all_requesters r.requester_cache)) || not (is_empty r.provider_cache)

module _ {EndpointId : Type 0} ⦃e : Eq EndpointId⦄ where
  -- One of these requesters is the endpoint.
  abbrev pub asks : EndpointId → List (RequesterInfo EndpointId) → Bool
  asks id [] = false
  asks id (r ∷ rs) = (r.endpoint_id == id) || asks id rs

  asks-matching :
      (key : Bytes) (info : RequesterInfo EndpointId) (our_features : List Bytes)
      (cache : RequesterCache EndpointId)
      → lookup key cache ≡ some info
      → all (contains our_features) info.system_features ≡ true
      → asks info.endpoint_id (get_matching_requesters our_features cache) ≡ true
  unfolding lookup get_matching_requesters all_requesters
  asks-matching key info our_features [] h fits = cc
  asks-matching key info our_features ((k, r) ∷ cache) h fits = ground (
    arith,
    h,
    fits,
    ==-refl info.endpoint_id,
    asks-matching key info our_features cache,
    Bool-cases (all (contains our_features) r.system_features),
  )

  added :
      (as_bytes : EndpointId → Bytes) (from_bytes : Bytes → Option EndpointId)
      (decode : Bytes → Result GossipMessage) (has_need_builder has_build_complete : Bool)
      (our_id from : EndpointId) (features : List Bytes) (content : Bytes) (r : Receiver EndpointId)
      → from_bytes (as_bytes our_id) ≡ some our_id
      → decode content ≡ ok (need_builder (as_bytes our_id) features)
      → lookup
          (as_bytes our_id)
          (receive as_bytes from_bytes has_need_builder has_build_complete decode
            (received content from)
            r).requester_cache
        ≡ some (record { endpoint_id = our_id; system_features = features })
  unfolding receive handle_message handle add_requester
  added as_bytes from_bytes decode has_need_builder has_build_complete our_id from features content
        r back read =
      ground (
        arith,
        back,
        read,
        ==-refl (as_bytes our_id),
        lookup-insert (as_bytes our_id) (as_bytes our_id)
            (record { endpoint_id = our_id; system_features = features }) r.requester_cache,
      )

  -- An announcement that is broadcast, and reaches a node over whatever peer: the announcer is then among the
  -- requesters that the node matches to features which include all that were announced.
  pub asks-announce_need_builder :
      (as_bytes : EndpointId → Bytes) (from_bytes : Bytes → Option EndpointId)
      (to_bytes : GossipMessage → Result Bytes) (decode : Bytes → Result GossipMessage)
      (sends has_need_builder has_build_complete : Bool) (our_id from : EndpointId)
      (features our_features : List Bytes) (content : Bytes) (r : Receiver EndpointId)
      → from_bytes (as_bytes our_id) ≡ some our_id
      → ((message : GossipMessage) (b : Bytes) → to_bytes message ≡ ok b → decode b ≡ ok message)
      → announce_need_builder as_bytes our_id to_bytes sends features ≡ ok content
      → all (contains our_features) features ≡ true
      → asks our_id (
          get_matching_requesters our_features
            (receive as_bytes from_bytes has_need_builder has_build_complete decode
              (received content from)
              r).requester_cache)
        ≡ true
  unfolding announce_need_builder broadcast
  asks-announce_need_builder as_bytes from_bytes to_bytes decode sends has_need_builder
        has_build_complete our_id from features our_features content r back codec announced fits =
      let message = need_builder (as_bytes our_id) features in
      let (b, encoded, sent) = >>=-eq-ok (to_bytes message) _ announced in
      let same : b ≡ content = ground (arith, sent, Bool-cases sends) in
      let read = subst (λ s. decode s ≡ ok message) same (codec message b encoded) in
      asks-matching (as_bytes our_id) _ our_features _
        (added as_bytes from_bytes decode has_need_builder has_build_complete our_id from features
          content r back read)
        fits
