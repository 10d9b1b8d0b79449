-- ===== src/Gossip/Requesters.antt =====
-- Which requesters the cache of iroh-nix/src/gossip.rs holds, and which callbacks are called.
use iroh_nix.Support.{
  ◌≡◌, refl, sym, inl, inr, Bool, Option, none, some, List, [], ◌∷◌, ◌++◌, arith, if◌then◌else◌,
  Option-cases, Bytes, Eq, ◌==◌, eq_nat, eq_bytes,
}
use iroh_nix.Support.Maps.{lookup, lookup-insert, lookup-erase}
use mathlib.Core.Path.{subst}
use iroh_nix.Error.{Result, ok, Result-cases}
use iroh_nix.Gossip.{
  GossipMessage, have, want, i_have, need_builder, build_complete, RequesterInfo, Notice,
  builder_needed, build_completed, Receiver, Event, received, neighbor_up, neighbor_down, lagged,
  receiver_error, add_requester, remove_requester, handle, handle_message, receive,
}

module _ {EndpointId : Type 0} ⦃e : Eq EndpointId⦄ (as_bytes : EndpointId → Bytes)
    (from_bytes : Bytes → Option EndpointId) (has_need_builder has_build_complete : Bool)
    (decode : Bytes → Result GossipMessage) where
  -- The requester that a message announces: a `NeedBuilder` with a valid id does.
  abbrev pub requested : GossipMessage → Option (RequesterInfo EndpointId)
  requested (need_builder requester features) = elim (from_bytes requester) [
    | none ↦ none
    | some id ↦ some (record { endpoint_id = id; system_features = features })
  ]
  requested _ = none

  -- The callbacks that a message calls: each with a valid id, where it is set.
  abbrev pub notices : GossipMessage → List (Notice EndpointId)
  notices (build_complete result) = elim (from_bytes result.builder) [
    | none ↦ []
    | some id ↦ if has_build_complete then build_completed result ∷ [] else []
  ]
  notices message = elim (requested message) [
    | none ↦ []
    | some info ↦ if has_need_builder then builder_needed info ∷ [] else []
  ]

  -- What is found under a key, once a requester has been announced.
  abbrev pub found_after :
      Option (RequesterInfo EndpointId)
      → Bytes
      → Option (RequesterInfo EndpointId)
      → Option (RequesterInfo EndpointId)
  found_after none key before = before
  found_after (some info) key before =
      if as_bytes info.endpoint_id == key then some info else before

  -- A message leaves under each key what was there, but for the requester that it announces, which
  -- is under the bytes of its id, and it calls the callbacks.
  abbrev pub Announced : GossipMessage → Receiver EndpointId → Receiver EndpointId → Type 0
  Announced message r after =
      ((key : Bytes)
        → lookup key after.requester_cache
          ≡ found_after (requested message) key (lookup key r.requester_cache))
      × (after.called ≡ notices message ++ r.called)

  handle-Announced :
      (message : GossipMessage) (from : EndpointId) (r : Receiver EndpointId)
      → Announced message r
          (handle as_bytes from_bytes has_need_builder has_build_complete message from r).0
  unfolding handle add_requester
  handle-Announced (have blake3 store_path nar_size) from r = ((λ key. refl), refl)
  handle-Announced (want blake3) from r = ((λ key. refl), refl)
  handle-Announced (i_have blake3 store_path nar_size) from r = ((λ key. refl), refl)
  handle-Announced (need_builder requester features) from r =
      elim (Option-cases (from_bytes requester)) [
        | inl invalid ↦ ((λ key. ground (arith, invalid)), ground (arith, invalid))
        | inr (id, valid) ↦
            let info : RequesterInfo EndpointId = record {
              endpoint_id = id;
              system_features = features;
            } in
            (
              (λ key.
                  ground (arith, valid, lookup-insert (as_bytes id) key info r.requester_cache)),
              ground (arith, valid),
            )
      ]
  handle-Announced (build_complete result) from r = ((λ key. ground arith), ground arith)

  receive-received :
      (content : Bytes) (message : GossipMessage) (from : EndpointId) (r : Receiver EndpointId)
      → decode content ≡ ok message
      → receive as_bytes from_bytes has_need_builder has_build_complete decode
          (received content from)
          r
        ≡ (handle as_bytes from_bytes has_need_builder has_build_complete message from r).0
  unfolding receive handle_message
  receive-received content message from r e₁ = rw (e₁, receive, handle_message)

  -- What an event does to the requesters and the callbacks.
  abbrev pub Follows : Event EndpointId → Receiver EndpointId → Receiver EndpointId → Type 0
  Follows (received content from) r after = elim (decode content) [
    | ok message ↦ Announced message r after
    | _ ↦ after ≡ r
  ]
  Follows (neighbor_down peer) r after =
      ((key : Bytes)
        → lookup key after.requester_cache
          ≡ (if as_bytes peer == key then none else lookup key r.requester_cache))
      × (after.called ≡ r.called)
  Follows _ r after = after ≡ r

  -- Each event changes the requesters and calls the callbacks as follows: a message that is decoded
  -- puts the requester that it announces under the bytes of its id, leaves the other keys, and calls
  -- the callbacks that are set for it; a departure leaves nothing under the peer's bytes, all else
  -- under the other keys, and calls none; any other event changes nothing.
  pub receive-Follows :
      (event : Event EndpointId) (r : Receiver EndpointId)
      → Follows event r
          (receive as_bytes from_bytes has_need_builder has_build_complete decode event r)
  unfolding receive handle_message remove_requester
  receive-Follows (received content from) r = elim (Result-cases (decode content)) [
    | inl (message, e₁) ↦
        rw (e₁, Follows)
          (subst (Announced message r) (sym (receive-received content message from r e₁))
            (handle-Announced message from r))
    | inr (inl (failure, e₁)) ↦ rw (e₁, Follows) (rw (e₁, receive, handle_message))
    | inr (inr e₁) ↦ rw (e₁, Follows) (rw (e₁, receive, handle_message))
  ]
  receive-Follows (neighbor_up peer) r = refl
  receive-Follows (neighbor_down peer) r =
      ((λ key. lookup-erase (as_bytes peer) key r.requester_cache), refl)
  receive-Follows lagged r = refl
  receive-Follows receiver_error r = refl
