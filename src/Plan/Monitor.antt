-- ===== src/Plan/Monitor.antt =====
-- iroh-nix/src/main.rs: the loop of `build_push` that waits for the builds, over the wakes of its `select!`.
-- What is printed is left out. Other tasks call the queue before a wake and while outputs are fetched;
-- the three looks of the test for the end are one.
use iroh_nix.Support.{
  ℕ, suc, ◌+◌, Bool, not, ◌&&◌, Option, none, some, List, [], ◌∷◌, ◌++◌, ltb, nat_eq, if◌then◌else◌,
  Bytes, codes, Eq, ◌==◌, eq_nat, eq_bytes, keep_if,
}
use iroh_nix.Error.{Result, ok, err, panic, ◌>>=◌}
use iroh_nix.Build.Types.{DrvHash, BuildOutput, BuildResult, BuildQueue}
use iroh_nix.Build.Queue.{take_pending_fetches, has_pending_fetches, stats}
use iroh_nix.Build.Queue.Calls.{Call, run}
use iroh_nix.HashIndex.{Table}
use iroh_nix.Retry.{Floats, RetryConfig}
use iroh_nix.Transfer.{Postcard}
use iroh_nix.Transfer.Client.{Peer}
use iroh_nix.Node.{System, ImportResult, fetch_from_with_config}
use iroh_nix.Plan.{DrvInfo}
use iroh_nix.Plan.Derivations.{set_of}

pub data Wake : Type 0 where
  cancelled announcement_tick slept : Wake

pub data Watch : Type 0 where
  running stopped all_completed : Watch

-- A wake, with the calls on the queue before it and during its fetches.
pub record Round (EndpointId : Type 0) : Type 0 where
  pub before : List (Call EndpointId)
  pub wake : Wake
  pub during : List (Call EndpointId)

-- The queue and the index of the node, with what the loop has asked of builders, imported and announced.
pub record Monitor (EndpointId Sender : Type 0) : Type 0 where
  pub queue : BuildQueue EndpointId Sender
  pub index : Table
  pub fetched_outputs : ℕ
  pub fetches : List (EndpointId × Bytes)
  pub imports : List (Bytes × Bytes)
  pub announcements : List (List Bytes)

-- The systems and the required features of all derivations, but for "builtin".
unfoldable pub plan_features : List DrvInfo → List Bytes
plan_features [] = []
plan_features (d ∷ ds) = (d.system ∷ d.required_features) ++ plan_features ds

unfoldable pub all_features : List DrvInfo → List Bytes
all_features to_build = set_of (keep_if (λ f. not (f == codes "builtin")) (plan_features to_build))

unfoldable pub finished : {EndpointId Sender : Type 0} → BuildQueue EndpointId Sender → Bool
finished q =
    nat_eq (stats q).pending_count 0
    && nat_eq (stats q).leased_count 0
    && not (has_pending_fetches q)

module _ {EndpointId : Type 0} (system : System) {Float : Type 0} (floats : Floats Float)
    (postcard : Postcard) (blake3_hash : Bytes → Bytes) (peers : ℕ → EndpointId → ℕ → Peer)
    (config : RetryConfig Float) where
  -- The peers are what the endpoint connects to by an id in a round, at each attempt.
  unfoldable pub fetch_by_id :
      ℕ → EndpointId → Bytes → Table → Table × Result (ImportResult × Bytes)
  fetch_by_id turn remote_id blake3 table =
      fetch_from_with_config system floats postcard blake3_hash (peers turn remote_id) config blake3
        table

module _ {EndpointId Sender : Type 0} ⦃e : Eq EndpointId⦄ (drv_hash : Bytes → DrvHash)
    (from_bytes : Bytes → Option EndpointId) (system : System) {Float : Type 0}
    (floats : Floats Float) (postcard : Postcard) (blake3_hash : Bytes → Bytes)
    (peers : ℕ → EndpointId → ℕ → Peer) (config : RetryConfig Float) (to_build : List DrvInfo) where
  -- A failed import is a warning.
  unfoldable pub fetch_output :
      ℕ → EndpointId → BuildOutput → Monitor EndpointId Sender → Result (Monitor EndpointId Sender)
  fetch_output turn builder_id output m =
      let (table, fetched) =
        fetch_by_id system floats postcard blake3_hash peers config turn builder_id output.blake3
          m.index in
      let asked : Monitor EndpointId Sender = record m {
        index = table;
        fetches = m.fetches ++ (builder_id, output.blake3) ∷ [];
      } in
      elim fetched [
        | ok (import_result, nar_data) ↦ ok (record asked {
          fetched_outputs = m.fetched_outputs + 1;
          imports = m.imports ++ (nar_data, output.store_path) ∷ [];
        })
        | err failure ↦ ok asked
        | panic ↦ panic
      ]

  unfoldable pub fetch_outputs :
      ℕ
      → EndpointId
      → List BuildOutput
      → Monitor EndpointId Sender
      → Result (Monitor EndpointId Sender)
  fetch_outputs turn builder_id [] m = ok m
  fetch_outputs turn builder_id (o ∷ os) m =
      fetch_output turn builder_id o m >>= fetch_outputs turn builder_id os

  unfoldable pub fetch_result :
      ℕ → BuildResult → Monitor EndpointId Sender → Result (Monitor EndpointId Sender)
  fetch_result turn result m = elim (from_bytes result.builder) [
    | none ↦ panic
    | some builder_id ↦ fetch_outputs turn builder_id result.outputs m
  ]

  unfoldable pub fetch_results :
      ℕ → List BuildResult → Monitor EndpointId Sender → Result (Monitor EndpointId Sender)
  fetch_results turn [] m = ok m
  fetch_results turn (r ∷ rs) m = fetch_result turn r m >>= fetch_results turn rs

  -- The test for the end, after the fetches.
  unfoldable pub watched :
      List (Call EndpointId)
      → Monitor EndpointId Sender
      → Result (Monitor EndpointId Sender × Watch)
  watched during m =
      let q = run drv_hash during m.queue in
      ok (record m { queue = q }, if finished q then all_completed else running)

  unfoldable pub fetch_completed :
      ℕ
      → List (Call EndpointId)
      → Monitor EndpointId Sender
      → Result (Monitor EndpointId Sender × Watch)
  fetch_completed turn during m =
      let (q, results) = take_pending_fetches m.queue in
      fetch_results turn results (record m { queue = q }) >>= watched during

  -- A failed announcement is a warning.
  unfoldable pub announce_again : Monitor EndpointId Sender → Monitor EndpointId Sender
  announce_again m =
      if ltb 0 (stats m.queue).pending_count
      then record m { announcements = m.announcements ++ all_features to_build ∷ [] }
      else m

  unfoldable pub woken :
      ℕ → Round EndpointId → Monitor EndpointId Sender → Result (Monitor EndpointId Sender × Watch)
  woken turn r m = elim r.wake [
    | cancelled ↦ ok (m, stopped)
    | announcement_tick ↦ ok (announce_again m, running)
    | slept ↦ fetch_completed turn r.during m
  ]

  unfoldable pub monitor :
      ℕ
      → List (Round EndpointId)
      → Monitor EndpointId Sender
      → Result (Monitor EndpointId Sender × Watch)
  monitor turn [] m = ok (m, running)
  monitor turn (r ∷ rs) m =
      let more = monitor (suc turn) rs in
      woken turn r (record m { queue = run drv_hash r.before m.queue }) >>= λ next. elim next.1 [
        | running ↦ more next.0
        | stopped ↦ ok (next.0, stopped)
        | all_completed ↦ ok (next.0, all_completed)
      ]
