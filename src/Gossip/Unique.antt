-- ===== src/Gossip/Unique.antt =====
-- How often the provider cache of iroh-nix/src/gossip.rs lists a peer for a hash.
use iroh_nix.Support.{
  ℕ, ◌+◌, ◌≤◌, ◌≡◌, refl, inl, inr, Bool, false, Option, List, [], ◌∷◌, ◌++◌, arith, if◌then◌else◌,
  Option-cases, Bytes, Eq, ◌==◌, eq_nat, eq_bytes,
}
use iroh_nix.Support.Maps.{lookup, lookup-insert}
use iroh_nix.Error.{Result, Result-cases}
use iroh_nix.Build.Types.{BuildOutput}
use iroh_nix.Gossip.{
  GossipMessage, have, want, i_have, need_builder, build_complete, ProviderInfo, ProviderCache,
  Receiver, Event, received, neighbor_up, neighbor_down, lagged, receiver_error, or_default, lists,
  add_provider, without, remove_provider, add_outputs, handle, handle_message, receive,
  run_receiver,
}

module _ {EndpointId : Type 0} ⦃e : Eq EndpointId⦄ where
  -- The times that the peer is among the providers.
  unfoldable pub copies : EndpointId → List (ProviderInfo EndpointId) → ℕ
  copies id [] = 0
  copies id (p ∷ ps) = (if p.endpoint_id == id then 1 else 0) + copies id ps

  -- No endpoint is given twice as a provider of a hash.
  abbrev pub IsUnique : ProviderCache EndpointId → Type 0
  IsUnique cache = (hash : Bytes) (id : EndpointId) → copies id (or_default (lookup hash cache)) ≤ 1

  copies-append :
      (id : EndpointId) (ps : List (ProviderInfo EndpointId)) (p : ProviderInfo EndpointId)
      → copies id (ps ++ p ∷ []) ≡ copies id ps + (if p.endpoint_id == id then 1 else 0)
  unfolding copies
  copies-append id [] p = ground arith
  copies-append id (q ∷ ps) p = ground (arith, copies-append id ps p)

  copies_unlisted :
      (id : EndpointId) (ps : List (ProviderInfo EndpointId))
      → lists id ps ≡ false
      → copies id ps ≡ 0
  unfolding copies lists
  copies_unlisted id [] h = refl
  copies_unlisted id (p ∷ ps) h = ground (arith, copies_unlisted id ps)

  copies-without :
      (peer id : EndpointId) (ps : List (ProviderInfo EndpointId))
      → copies id (without peer ps) ≤ copies id ps
  unfolding copies without
  copies-without peer id [] = omega arith
  copies-without peer id (p ∷ ps) = ground (arith, copies-without peer id ps)

  IsUnique-add_provider :
      (blake3 : Bytes) (info : ProviderInfo EndpointId) (cache : ProviderCache EndpointId)
      → IsUnique cache
      → IsUnique (add_provider blake3 info cache)
  unfolding add_provider or_default
  IsUnique-add_provider blake3 info cache u hash id =
      let providers = or_default (lookup blake3 cache) in
      ground (
        arith,
        u blake3 id,
        u hash id,
        lookup-insert blake3 hash
            (if lists info.endpoint_id providers then providers else providers ++ info ∷ []) cache,
        copies-append id providers info,
        copies_unlisted info.endpoint_id providers,
        e.beq_iff info.endpoint_id id,
      )

  IsUnique-add_outputs :
      (builder : EndpointId) (outputs : List BuildOutput) (cache : ProviderCache EndpointId)
      → IsUnique cache
      → IsUnique (add_outputs builder outputs cache)
  unfolding add_outputs
  IsUnique-add_outputs builder [] cache u = u
  IsUnique-add_outputs builder (o ∷ outputs) cache u =
      IsUnique-add_outputs builder outputs _ (IsUnique-add_provider o.blake3 _ cache u)

  copies-remove_provider :
      (peer : EndpointId) (cache : ProviderCache EndpointId) (hash : Bytes) (id : EndpointId)
      → copies id (or_default (lookup hash (remove_provider peer cache)))
        ≤ copies id (or_default (lookup hash cache))
  unfolding remove_provider or_default lookup
  copies-remove_provider peer [] hash id = omega arith
  copies-remove_provider peer ((blake3, ps) ∷ cache) hash id =
      ground (arith, copies-without peer id ps, copies-remove_provider peer cache hash id)

  IsUnique-remove_provider :
      (peer : EndpointId) (cache : ProviderCache EndpointId)
      → IsUnique cache
      → IsUnique (remove_provider peer cache)
  IsUnique-remove_provider peer cache u hash id =
      omega (arith, u hash id, copies-remove_provider peer cache hash id)

module _ {EndpointId : Type 0} ⦃e : Eq EndpointId⦄ (as_bytes : EndpointId → Bytes)
    (from_bytes : Bytes → Option EndpointId) (has_need_builder has_build_complete : Bool)
    (decode : Bytes → Result GossipMessage) where
  IsUnique-handle :
      (message : GossipMessage) (from : EndpointId) (r : Receiver EndpointId)
      → IsUnique r.provider_cache
      → IsUnique
          (handle as_bytes from_bytes has_need_builder has_build_complete message from
            r).0.provider_cache
  unfolding handle
  IsUnique-handle (have blake3 store_path nar_size) from r u =
      IsUnique-add_provider blake3 _ r.provider_cache u
  IsUnique-handle (want blake3) from r u = u
  IsUnique-handle (i_have blake3 store_path nar_size) from r u =
      IsUnique-add_provider blake3 _ r.provider_cache u
  IsUnique-handle (need_builder requester features) from r u = λ hash id. ground (arith, u hash id)
  IsUnique-handle (build_complete result) from r u = λ hash id.
      elim (Option-cases (from_bytes result.builder)) [
        | inl invalid ↦ ground (arith, invalid, u hash id)
        | inr (builder, valid) ↦
            ground
              (arith, valid, IsUnique-add_outputs builder result.outputs r.provider_cache u hash id)
      ]

  IsUnique-receive :
      (event : Event EndpointId) (r : Receiver EndpointId)
      → IsUnique r.provider_cache
      → IsUnique
          (receive as_bytes from_bytes has_need_builder has_build_complete decode event
            r).provider_cache
  unfolding receive handle_message
  IsUnique-receive (received content from) r u = λ hash id. elim (Result-cases (decode content)) [
    | inl (message, e₁) ↦ ground (arith, e₁, IsUnique-handle message from r u hash id)
    | inr (inl (error, e₁)) ↦ ground (arith, e₁, u hash id)
    | inr (inr e₁) ↦ ground (arith, e₁, u hash id)
  ]
  IsUnique-receive (neighbor_up peer) r u = u
  IsUnique-receive (neighbor_down peer) r u = IsUnique-remove_provider peer r.provider_cache u
  IsUnique-receive lagged r u = u
  IsUnique-receive receiver_error r u = u

  -- Whatever events the receiver takes, from a cache that gives no endpoint twice as a provider of
  -- a hash it comes to one that gives none twice.
  pub run_receiver-IsUnique :
      (events : List (Event EndpointId)) (r : Receiver EndpointId)
      → IsUnique r.provider_cache
      → IsUnique
          (run_receiver as_bytes from_bytes has_need_builder has_build_complete decode events
            r).provider_cache
  unfolding run_receiver
  run_receiver-IsUnique [] r u = u
  run_receiver-IsUnique (event ∷ events) r u =
      run_receiver-IsUnique events _ (IsUnique-receive event r u)
