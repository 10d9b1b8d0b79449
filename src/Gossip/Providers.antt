-- ===== src/Gossip/Providers.antt =====
-- Which peers the caches of iroh-nix/src/gossip.rs give as providers of a hash.
use iroh_nix.Support.{
  ◌≡◌, refl, inl, inr, Bool, false, not, ◌&&◌, ◌||◌, Option, none, some, List, [], ◌∷◌, ◌++◌, arith,
  if◌then◌else◌, Option-cases, Bytes, Eq, ◌==◌, eq_nat, eq_bytes,
}
use iroh_nix.Support.Maps.{lookup, lookup-insert}
use iroh_nix.Error.{Result, ok, Result-cases}
use iroh_nix.Build.Types.{BuildOutput}
use iroh_nix.Gossip.{
  GossipMessage, have, want, i_have, need_builder, build_complete, ProviderInfo, ProviderCache,
  Receiver, Event, received, neighbor_up, neighbor_down, lagged, receiver_error, or_default, lists,
  add_provider, without, remove_provider, add_outputs, handle, handle_message, receive,
}

-- The outputs have one with the hash.
abbrev pub has_output : List BuildOutput → Bytes → Bool
has_output [] hash = false
has_output (o ∷ outputs) hash = (o.blake3 == hash) || has_output outputs hash

module _ {EndpointId : Type 0} ⦃e : Eq EndpointId⦄ where
  -- The cache gives the peer as a provider of the hash.
  unfoldable pub provides : ProviderCache EndpointId → Bytes → EndpointId → Bool
  provides cache blake3 id = lists id (or_default (lookup blake3 cache))

  lists-append :
      (id : EndpointId) (ps : List (ProviderInfo EndpointId)) (p : ProviderInfo EndpointId)
      → lists id (ps ++ p ∷ []) ≡ (lists id ps || (p.endpoint_id == id))
  unfolding lists
  lists-append id [] p = ground arith
  lists-append id (q ∷ ps) p = ground (arith, lists-append id ps p)

  provides-add_provider :
      (blake3 : Bytes) (info : ProviderInfo EndpointId) (cache : ProviderCache EndpointId)
      (hash : Bytes) (id : EndpointId)
      → provides (add_provider blake3 info cache) hash id
        ≡ (provides cache hash id || ((blake3 == hash) && (info.endpoint_id == id)))
  unfolding provides add_provider or_default
  provides-add_provider blake3 info cache hash id =
      let providers = or_default (lookup blake3 cache) in
      ground (
        arith,
        lookup-insert blake3 hash
            (if lists info.endpoint_id providers then providers else providers ++ info ∷ []) cache,
        lists-append id providers info,
        eq_bytes.beq_iff blake3 hash,
        e.beq_iff info.endpoint_id id,
      )

  provides-add_outputs :
      (builder : EndpointId) (outputs : List BuildOutput) (cache : ProviderCache EndpointId)
      (hash : Bytes) (id : EndpointId)
      → provides (add_outputs builder outputs cache) hash id
        ≡ (provides cache hash id || (has_output outputs hash && (builder == id)))
  unfolding add_outputs
  provides-add_outputs builder [] cache hash id = ground arith
  provides-add_outputs builder (o ∷ outputs) cache hash id =
      let info : ProviderInfo EndpointId = record {
        endpoint_id = builder;
        store_path = o.store_path;
        nar_size = o.nar_size;
      } in
      ground (
        arith,
        provides-add_outputs builder outputs (add_provider o.blake3 info cache) hash id,
        provides-add_provider o.blake3 info cache hash id,
      )

  lists-without :
      (peer id : EndpointId) (ps : List (ProviderInfo EndpointId))
      → lists id (without peer ps) ≡ (lists id ps && not (peer == id))
  unfolding lists without
  lists-without peer id [] = refl
  lists-without peer id (p ∷ ps) = ground (
    arith,
    lists-without peer id ps,
    e.beq_iff p.endpoint_id peer,
    e.beq_iff p.endpoint_id id,
    e.beq_iff peer id,
  )

  provides-remove_provider :
      (peer : EndpointId) (cache : ProviderCache EndpointId) (hash : Bytes) (id : EndpointId)
      → provides (remove_provider peer cache) hash id ≡ (provides cache hash id && not (peer == id))
  unfolding provides remove_provider or_default lookup
  provides-remove_provider peer [] hash id = unfold lists in refl
  provides-remove_provider peer ((blake3, ps) ∷ cache) hash id =
      ground (arith, lists-without peer id ps, provides-remove_provider peer cache hash id)

module _ {EndpointId : Type 0} ⦃e : Eq EndpointId⦄ (as_bytes : EndpointId → Bytes)
    (from_bytes : Bytes → Option EndpointId) (has_need_builder has_build_complete : Bool)
    (decode : Bytes → Result GossipMessage) where
  -- Whether a message from a peer says that an endpoint has the archive of a hash: `Have` and
  -- `IHave` say it of the peer that delivered them, `BuildComplete` of its builder, for each output.
  abbrev pub says : GossipMessage → EndpointId → Bytes → EndpointId → Bool
  says (have blake3 store_path nar_size) from hash id = (blake3 == hash) && (from == id)
  says (i_have blake3 store_path nar_size) from hash id = (blake3 == hash) && (from == id)
  says (build_complete result) from hash id = elim (from_bytes result.builder) [
    | none ↦ false
    | some builder ↦ has_output result.outputs hash && (builder == id)
  ]
  says _ from hash id = false

  -- The same of an event.
  abbrev pub announces : Event EndpointId → Bytes → EndpointId → Bool
  announces (received content from) hash id = elim (decode content) [
    | ok message ↦ says message from hash id
    | _ ↦ false
  ]
  announces _ hash id = false

  -- The event is the departure of the endpoint.
  abbrev pub departs : Event EndpointId → EndpointId → Bool
  departs (neighbor_down peer) id = peer == id
  departs _ id = false

  handle-provides :
      (message : GossipMessage) (from : EndpointId) (r : Receiver EndpointId) (hash : Bytes)
      (id : EndpointId)
      → provides
          (handle as_bytes from_bytes has_need_builder has_build_complete message from
            r).0.provider_cache
          hash
          id
        ≡ (provides r.provider_cache hash id || says message from hash id)
  unfolding handle
  handle-provides (have blake3 store_path nar_size) from r hash id =
      provides-add_provider blake3 _ r.provider_cache hash id
  handle-provides (want blake3) from r hash id = ground arith
  handle-provides (i_have blake3 store_path nar_size) from r hash id =
      provides-add_provider blake3 _ r.provider_cache hash id
  handle-provides (need_builder requester features) from r hash id = ground arith
  handle-provides (build_complete result) from r hash id =
      elim (Option-cases (from_bytes result.builder)) [
        | inl invalid ↦ ground (arith, invalid)
        | inr (builder, valid) ↦
            ground
              (arith, valid, provides-add_outputs builder result.outputs r.provider_cache hash id)
      ]

  -- After an event, the cache gives an endpoint as a provider of a hash exactly where it did before
  -- or the event announces it, unless the event is the endpoint's departure.
  pub receive-provides :
      (event : Event EndpointId) (r : Receiver EndpointId) (hash : Bytes) (id : EndpointId)
      → provides
          (receive as_bytes from_bytes has_need_builder has_build_complete decode event
            r).provider_cache
          hash
          id
        ≡ ((provides r.provider_cache hash id || announces event hash id) && not (departs event id))
  unfolding receive handle_message
  receive-provides (received content from) r hash id = elim (Result-cases (decode content)) [
    | inl (message, e₁) ↦ ground (arith, e₁, handle-provides message from r hash id)
    | inr (inl (error, e₁)) ↦ ground (arith, e₁)
    | inr (inr e₁) ↦ ground (arith, e₁)
  ]
  receive-provides (neighbor_up peer) r hash id = ground arith
  receive-provides (neighbor_down peer) r hash id =
      ground (arith, provides-remove_provider peer r.provider_cache hash id)
  receive-provides lagged r hash id = ground arith
  receive-provides receiver_error r hash id = ground arith
