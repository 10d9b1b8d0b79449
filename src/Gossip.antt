-- ===== src/Gossip.antt =====
-- iroh-nix/src/gossip.rs: the caches of providers and requesters, and what the receiver does with
-- an event. The gossip network and the encoding of a message are foreign, and so are the endpoint
-- ids, with their bytes. A lock is taken not to be poisoned.
pub mod Providers
pub mod Unique
pub mod Requesters
pub mod Announce
mod Tests
use iroh_nix.Support.{
  ℕ, zero, suc, ◌+◌, ◌-◌, ◌*◌, ◌/◌, ◌%◌, ◌^◌, ◌≤◌, ◌<◌, min, ◌≡◌, refl, sym, ap, ◌∙◌, ◌≢◌, ◌↔◌, ◌⊎◌,
  inl, inr, Bool, true, false, not, ◌&&◌, ◌||◌, Option, none, some, List, [], ◌∷◌, ◌++◌, map,
  reverse, append-nil, append_assoc, arith, ltb, leb, nat_eq, if◌then◌else◌, ltb→lt, lt→ltb, leb→le,
  nat_eq_iff, Bool-cases, Option-cases, Bytes, codes, bytes_eq, bytes_eq_iff, Eq, ◌==◌, eq_nat,
  eq_bytes, ==-refl, contains, length, take, drop, replicate, All, all, length-append,
  take-append-drop, length-take, length-drop, length-replicate, All-append, All-parts, take-append,
  drop-append, keep_if, is_empty,
}
use iroh_nix.Support.Maps.{Map, lookup, insert, erase}
use iroh_nix.Error.{Error, protocol, Result, ok, err, panic}
use iroh_nix.Build.Types.{BuildOutput, BuildResult}

-- `Have { blake3, store_path, nar_size }`, `Want { blake3 }`, `IHave { … }`,
-- `NeedBuilder { requester, system_features }`, `BuildComplete(result)`
pub data GossipMessage : Type 0 where
  have : Bytes → Bytes → ℕ → GossipMessage
  want : Bytes → GossipMessage
  i_have : Bytes → Bytes → ℕ → GossipMessage
  need_builder : Bytes → List Bytes → GossipMessage
  build_complete : BuildResult → GossipMessage

pub record ProviderInfo (EndpointId : Type 0) : Type 0 where
  pub endpoint_id : EndpointId
  pub store_path : Bytes
  pub nar_size : ℕ

pub record RequesterInfo (EndpointId : Type 0) : Type 0 where
  pub endpoint_id : EndpointId
  pub system_features : List Bytes

abbrev pub ProviderCache : Type 0 → Type 0
ProviderCache EndpointId = Map Bytes (List (ProviderInfo EndpointId))

abbrev pub RequesterCache : Type 0 → Type 0
RequesterCache EndpointId = Map Bytes (RequesterInfo EndpointId)

-- A call of one of the two callbacks.
pub data Notice (EndpointId : Type 0) : Type 0 where
  builder_needed : RequesterInfo EndpointId → Notice EndpointId
  build_completed : BuildResult → Notice EndpointId

-- What the receiver's task holds: the two caches, and the callbacks it has called, the last first.
pub record Receiver (EndpointId : Type 0) : Type 0 where
  pub provider_cache : ProviderCache EndpointId
  pub requester_cache : RequesterCache EndpointId
  pub called : List (Notice EndpointId)

-- `Ok(Event::Received(msg))` with the message's content and `delivered_from`, the other events, and
-- the error.
pub data Event (EndpointId : Type 0) : Type 0 where
  received : Bytes → EndpointId → Event EndpointId
  neighbor_up : EndpointId → Event EndpointId
  neighbor_down : EndpointId → Event EndpointId
  lagged receiver_error : Event EndpointId

unfoldable pub or_default {ℓ} : {A : Type ℓ} → Option (List A) → List A
or_default none = []
or_default (some xs) = xs

module _ {EndpointId : Type 0} ⦃e : Eq EndpointId⦄ where
  -- `providers.iter().any(|p| p.endpoint_id == id)`
  unfoldable pub lists : EndpointId → List (ProviderInfo EndpointId) → Bool
  lists id [] = false
  lists id (p ∷ ps) = (p.endpoint_id == id) || lists id ps

  unfoldable pub add_provider :
      Bytes → ProviderInfo EndpointId → ProviderCache EndpointId → ProviderCache EndpointId
  unfolding or_default lists
  add_provider blake3 info cache =
      let providers = or_default (lookup blake3 cache) in
      insert blake3 (if lists info.endpoint_id providers then providers else providers ++ info ∷ [])
        cache

  unfoldable pub get_providers :
      Bytes → ProviderCache EndpointId → Option (List (ProviderInfo EndpointId))
  get_providers blake3 cache = lookup blake3 cache

  -- `providers.retain(|p| p.endpoint_id != *endpoint_id)`
  unfoldable pub without :
      EndpointId → List (ProviderInfo EndpointId) → List (ProviderInfo EndpointId)
  without id = keep_if (λ p. not (p.endpoint_id == id))

  unfoldable pub remove_provider : EndpointId → ProviderCache EndpointId → ProviderCache EndpointId
  unfolding without
  remove_provider id [] = []
  remove_provider id ((blake3, providers) ∷ cache) =
      (blake3, without id providers) ∷ remove_provider id cache

module _ {EndpointId : Type 0} (as_bytes : EndpointId → Bytes) where
  unfoldable pub add_requester :
      RequesterInfo EndpointId → RequesterCache EndpointId → RequesterCache EndpointId
  add_requester info cache = insert (as_bytes info.endpoint_id) info cache

  unfoldable pub remove_requester :
      EndpointId → RequesterCache EndpointId → RequesterCache EndpointId
  remove_requester id cache = erase (as_bytes id) cache

module _ {EndpointId : Type 0} where
  unfoldable pub all_requesters : RequesterCache EndpointId → List (RequesterInfo EndpointId)
  all_requesters [] = []
  all_requesters ((k, r) ∷ cache) = r ∷ all_requesters cache

  unfoldable pub get_matching_requesters :
      List Bytes → RequesterCache EndpointId → List (RequesterInfo EndpointId)
  unfolding all_requesters
  get_matching_requesters our_features cache =
      keep_if (λ r. all (contains our_features) r.system_features) (all_requesters cache)

module _ {EndpointId : Type 0} ⦃e : Eq EndpointId⦄ where
  -- The loop over `result.outputs`.
  unfoldable pub add_outputs :
      EndpointId → List BuildOutput → ProviderCache EndpointId → ProviderCache EndpointId
  unfolding add_provider
  add_outputs builder_id [] cache = cache
  add_outputs builder_id (output ∷ outputs) cache = add_outputs builder_id outputs (
      add_provider output.blake3
        (record {
          endpoint_id = builder_id;
          store_path = output.store_path;
          nar_size = output.nar_size;
        })
        cache)

module _ {EndpointId : Type 0} ⦃e : Eq EndpointId⦄ (as_bytes : EndpointId → Bytes)
    (from_bytes : Bytes → Option EndpointId) (has_need_builder has_build_complete : Bool) where
  -- `handle_message` behind `GossipMessage::from_bytes`. The two Booleans tell whether the callbacks
  -- are set.
  unfoldable pub handle :
      GossipMessage → EndpointId → Receiver EndpointId → Receiver EndpointId × Result (Unit {0})
  unfolding add_provider add_requester add_outputs
  handle (have blake3 store_path nar_size) from r = (
    record r {
      provider_cache =
          add_provider blake3
            (record { endpoint_id = from; store_path = store_path; nar_size = nar_size })
            r.provider_cache;
    },
    ok tt,
  )
  handle (want blake3) from r = (r, ok tt)
  handle (i_have blake3 store_path nar_size) from r = (
    record r {
      provider_cache =
          add_provider blake3
            (record { endpoint_id = from; store_path = store_path; nar_size = nar_size })
            r.provider_cache;
    },
    ok tt,
  )
  handle (need_builder requester system_features) from r = elim (from_bytes requester) [
    | none ↦ (r, err (protocol (codes "invalid requester ID")))
    | some requester_id ↦
        let info : RequesterInfo EndpointId = record {
          endpoint_id = requester_id;
          system_features = system_features;
        } in
        (
          record r {
            requester_cache = add_requester as_bytes info r.requester_cache;
            called = if has_need_builder then builder_needed info ∷ r.called else r.called;
          },
          ok tt,
        )
  ]
  handle (build_complete result) from r = elim (from_bytes result.builder) [
    | none ↦ (r, err (protocol (codes "invalid builder ID")))
    | some builder_id ↦ (
      record r {
        provider_cache = add_outputs builder_id result.outputs r.provider_cache;
        called = if has_build_complete then build_completed result ∷ r.called else r.called;
      },
      ok tt,
    )
  ]

  -- `decode` is `GossipMessage::from_bytes`.
  unfoldable pub handle_message :
      (Bytes → Result GossipMessage)
      → Bytes
      → EndpointId
      → Receiver EndpointId
      → Receiver EndpointId × Result (Unit {0})
  unfolding handle
  handle_message decode content from r = elim (decode content) [
    | ok message ↦ handle message from r
    | err error ↦ (r, err error)
    | panic ↦ (r, panic)
  ]

  -- A turn of the receiver's loop. An error of `handle_message` is only logged.
  unfoldable pub receive :
      (Bytes → Result GossipMessage) → Event EndpointId → Receiver EndpointId → Receiver EndpointId
  unfolding handle_message remove_provider remove_requester
  receive decode (received content from) r = (handle_message decode content from r).0
  receive decode (neighbor_up peer) r = r
  receive decode (neighbor_down peer) r = record r {
    provider_cache = remove_provider peer r.provider_cache;
    requester_cache = remove_requester as_bytes peer r.requester_cache;
  }
  receive decode lagged r = r
  receive decode receiver_error r = r

  -- The loop, over the events in their order.
  unfoldable pub run_receiver :
      (Bytes → Result GossipMessage)
      → List (Event EndpointId)
      → Receiver EndpointId
      → Receiver EndpointId
  unfolding receive
  run_receiver decode [] r = r
  run_receiver decode (event ∷ events) r = run_receiver decode events (receive decode event r)
