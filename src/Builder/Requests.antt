-- ===== src/Builder/Requests.antt =====
-- What the requester of iroh-nix/src/builder.rs guarantees, whatever a builder asks.
use iroh_nix.Support.{
  ℕ, ◌+◌, ◌^◌, ◌<◌, ◌≡◌, refl, ◌∙◌, ◌≢◌, ◌⊎◌, inl, inr, Bool, true, false, Option, none, some, List,
  [], ◌∷◌, arith, Bool-cases, Option-cases, Bytes, codes, Eq, eq_nat, eq_bytes, ==-refl,
}
use mathlib.Core.Path.{subst}
use iroh_nix.Support.Maps.{Map, lookup}
use iroh_nix.Build.Types.{JobId, LeasedJob, BuildQueue, LogEntry, completed}
use iroh_nix.Build.Queue.{complete, get_outcome}
use iroh_nix.Build.Queue.InFlight.{in_flight}
use iroh_nix.Build.Queue.Calls.{Call, pulls, heartbeats, completes, fails, apply, holds, assigned}
use iroh_nix.Build.Queue.Invariant.{IsValid, apply-IsValid, next_job_id-apply}
use iroh_nix.Build.Queue.Ownership.{SameQueue, Refused-here, stranger-Refused, complete_held}
use iroh_nix.Build.Logs.{broadcast_log}
use iroh_nix.Builder.{
  BuildOutputProto, BuildQueueRequest, pull_request, heartbeat_request, build_log, complete_request,
  fail_request, BuildQueueResponse, complete_ack, error, find_leased, answer_complete, reported,
  handle_build_queue_request,
}

module _ {EndpointId : Type 0} where
  pub find_leased-eq-lookup :
      (id : JobId) (m : Map JobId (LeasedJob EndpointId)) → find_leased id m ≡ lookup id m
  unfolding find_leased lookup
  find_leased-eq-lookup id [] = refl
  find_leased-eq-lookup id ((k, l) ∷ m) = ground (arith, find_leased-eq-lookup id m)

module _ {EndpointId Sender : Type 0} ⦃e : Eq EndpointId⦄ (as_bytes : EndpointId → Bytes)
    (try_send : Sender → LogEntry → Option Sender) (now : ℕ) (q : BuildQueue EndpointId Sender)
    (builder : EndpointId) where
  -- A queue that is valid, and has the next job id of the queue before.
  abbrev Kept : BuildQueue EndpointId Sender × BuildQueueResponse → Type 0
  Kept r = IsValid r.0 × (r.0.next_job_id ≡ q.next_job_id)

  -- The queue after a call that assigns no id, where the invariant is kept.
  kept :
      (c : Call EndpointId)
      → assigned c ≡ 0
      → q.next_job_id + 1 < 2 ^ 64
      → IsValid q
      → IsValid (apply (λ b. b) c q) × ((apply (λ b. b) c q).next_job_id ≡ q.next_job_id)
  kept c none_assigned h v = (
    apply-IsValid (λ b. b) c q h v,
    omega (arith, next_job_id-apply (λ b. b) c q h, none_assigned),
  )

  abbrev after_complete :
      LeasedJob EndpointId
      → ℕ
      → List BuildOutputProto
      → Bytes
      → Bytes
      → BuildQueue EndpointId Sender × Bool
  after_complete l job_id outputs r s =
      complete q job_id builder (reported as_bytes l job_id builder outputs r s)

  complete_found :
      (job_id : ℕ) (outputs : List BuildOutputProto) (r s : Bytes) (l : LeasedJob EndpointId)
      → lookup job_id q.leased ≡ some l
      → (answer_complete as_bytes try_send (after_complete l job_id outputs r s))
        ≡ handle_build_queue_request as_bytes try_send now q builder
            (complete_request job_id outputs r s)
  complete_found job_id outputs r s l there =
      let found = find_leased-eq-lookup job_id q.leased ∙ there in
      unfold handle_build_queue_request in rw (found, handle_build_queue_request)

  complete_missing :
      (job_id : ℕ) (outputs : List BuildOutputProto) (r s : Bytes)
      → lookup job_id q.leased ≡ none
      → (q, error (codes "job not found"))
        ≡ handle_build_queue_request as_bytes try_send now q builder
            (complete_request job_id outputs r s)
  complete_missing job_id outputs r s missing =
      let found = find_leased-eq-lookup job_id q.leased ∙ missing in
      unfold handle_build_queue_request in rw (found, handle_build_queue_request)

  -- A request that a builder sends keeps the queue valid, and assigns no job id.
  pub request-Kept :
      (request : BuildQueueRequest)
      → q.next_job_id + 1 < 2 ^ 64
      → IsValid q
      → Kept (handle_build_queue_request as_bytes try_send now q builder request)
  unfolding handle_build_queue_request
  request-Kept (pull_request features stream) h v =
      unfold apply in kept (pulls now builder features) refl h v
  request-Kept (heartbeat_request job_id status) h v =
      unfold apply in kept (heartbeats now job_id builder status) refl h v
  request-Kept (complete_request job_id outputs r s) h v =
      elim (Option-cases (lookup job_id q.leased)) [
        | inl missing ↦ subst Kept (complete_missing job_id outputs r s missing) (v, refl)
        | inr (l, there) ↦ subst Kept (complete_found job_id outputs r s l there) (
            unfold apply in
            kept (completes job_id builder (reported as_bytes l job_id builder outputs r s)) refl h
              v)
      ]
  request-Kept (fail_request job_id message) h v =
      unfold apply in kept (fails job_id builder message) refl h v
  request-Kept (build_log job_id payload stream) h v = (
    record {
      unique = unfold in_flight broadcast_log in v.unique;
      issued = unfold in_flight broadcast_log in v.issued;
      named = unfold broadcast_log in v.named;
    },
    unfold broadcast_log in refl,
  )

  -- Every request that a builder sends keeps the queue valid: no job id is pending or leased twice,
  -- none that is still to be assigned is in use, and each lease stands under its job's id.
  request-IsValid :
      (request : BuildQueueRequest)
      → q.next_job_id + 1 < 2 ^ 64
      → IsValid q
      → IsValid (handle_build_queue_request as_bytes try_send now q builder request).0
  request-IsValid request h v = (request-Kept request h v).0

  -- What a completion does to a queue in which the builder holds the job's lease.
  abbrev pub Accepted :
      ℕ
      → List BuildOutputProto
      → Bytes
      → Bytes
      → BuildQueue EndpointId Sender × BuildQueueResponse
      → Type 0
  Accepted job_id outputs r s after =
      (holds q job_id builder ≡ true)
      × (l : LeasedJob EndpointId) × (lookup job_id q.leased ≡ some l)
      × (after.1 ≡ complete_ack)
      × (lookup job_id after.0.leased ≡ none)
      × (get_outcome after.0 l.job.drv_hash
          ≡ some (completed (reported as_bytes l job_id builder outputs r s)))

  -- What it does to one in which the builder does not.
  abbrev pub Rejected : ℕ → BuildQueue EndpointId Sender × BuildQueueResponse → Type 0
  Rejected job_id after =
      (holds q job_id builder ≡ false) × (after.1 ≢ complete_ack) × SameQueue after.0 q

  accepted :
      (job_id : ℕ) (outputs : List BuildOutputProto) (r s : Bytes) (l : LeasedJob EndpointId)
      → lookup job_id q.leased ≡ some l
      → holds q job_id builder ≡ true
      → Accepted job_id outputs r s
          (answer_complete as_bytes try_send (after_complete l job_id outputs r s))
  unfolding answer_complete
  accepted job_id outputs r s l there held =
      let (l', there', done, leases, jobs, fetches, outcome) =
        complete_held q job_id builder (reported as_bytes l job_id builder outputs r s) held in
      (
        held,
        l,
        there,
        rw done,
        ground (arith, leases job_id, ==-refl job_id),
        ground (arith, there, there', outcome),
      )

  rejected :
      (job_id : ℕ) (outputs : List BuildOutputProto) (r s : Bytes) (l : LeasedJob EndpointId)
      → holds q job_id builder ≡ false
      → Rejected job_id (answer_complete as_bytes try_send (after_complete l job_id outputs r s))
  unfolding answer_complete
  rejected job_id outputs r s l other =
      let (beat, done, failed) =
        stranger-Refused q now job_id builder [] [] (reported as_bytes l job_id builder outputs r s)
          other in
      (other, ground (arith, done.0), done.1)

  -- A completion is acknowledged where the builder holds the job's lease, and else refused, with
  -- nothing changed that can be looked up. Where it is acknowledged the lease is gone, and what is
  -- found under the hash of the leased derivation is a result for that job and that derivation
  -- which names this builder and has the reported outputs and signature.
  pub complete_request_lem :
      (job_id : ℕ) (outputs : List BuildOutputProto) (r s : Bytes)
      → Accepted job_id outputs r s (
          handle_build_queue_request as_bytes try_send now q builder
            (complete_request job_id outputs r s))
        ⊎ Rejected job_id (
            handle_build_queue_request as_bytes try_send now q builder
              (complete_request job_id outputs r s))
  complete_request_lem job_id outputs r s = elim (Option-cases (lookup job_id q.leased)) [
    | inl missing ↦ inr (
        subst (Rejected job_id) (complete_missing job_id outputs r s missing)
          (unfold holds in ground (arith, missing), λ h. cc h, (Refused-here q).1))
    | inr (l, there) ↦ elim (Bool-cases (holds q job_id builder)) [
      | inl held ↦ inl (
          subst (Accepted job_id outputs r s) (complete_found job_id outputs r s l there)
            (accepted job_id outputs r s l there held))
      | inr other ↦ inr (
          subst (Rejected job_id) (complete_found job_id outputs r s l there)
            (rejected job_id outputs r s l other))
    ]
  ]
