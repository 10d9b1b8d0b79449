-- ===== src/Builder/Recorded.antt =====
-- A worker and the requester that it works for, both of iroh-nix/src/builder.rs: what the requester's queue
-- has when a job of the worker has succeeded.
use mathlib.Core.Path.{subst}
use iroh_nix.Support.{
  ℕ, suc, ◌≡◌, refl, sym, ap, ◌∙◌, inl, inr, true, Option, some, List, [], ◌∷◌, map, arith, Bytes,
  codes, Eq, eq_nat, eq_bytes,
}
use iroh_nix.Error.{Result, ok}
use iroh_nix.Build.Types.{
  DrvHash, LeasedJob, BuildOutput, BuildResult, BuildQueue, LogEntry, completed,
}
use iroh_nix.Build.Queue.{get_outcome}
use iroh_nix.Build.Signing.{
  Ed25519, IsEd25519, sign_build_result, unsigned, verify_build_result,
  verify_build_result-sign_build_result,
}
use iroh_nix.HashIndex.{Table}
use iroh_nix.Builder.{
  to_output, reported, complete_request, BuildQueueResponse, complete_ack,
  handle_build_queue_request,
}
use iroh_nix.Builder.Requests.{Accepted, complete_request_lem}
use iroh_nix.Builder.Worker.{
  Host, JobContext, to_proto, complete_req, acknowledged, prepare, report, index_outputs,
  execute_job_with_heartbeat,
}
use iroh_nix.Builder.Leases.{
  chain-ok, on_requester-ok, on_index-ok, Requester, with_requester, leased_hash,
  watch_build-leased_hash, prepare-leased_hash,
}

module _ {EndpointId Sender : Type 0} ⦃e : Eq EndpointId⦄ (as_bytes : EndpointId → Bytes)
    (try_send : Sender → LogEntry → Option Sender) (clock : ℕ → ℕ) (builder_id : EndpointId) where
  module _ {SecretKey PublicKey : Type 0} (ed25519 : Ed25519 SecretKey PublicKey)
      (secret_key : SecretKey) where
    -- The requester has a result for the derivation which names the builder, and whose signature verifies.
    abbrev pub Recorded : DrvHash → ℕ → Requester EndpointId Sender → Type 0
    Recorded drv_hash job_id s =
        (result : BuildResult) × (get_outcome s.0 drv_hash ≡ some (completed result))
        × (result.job_id ≡ job_id)
        × (result.builder ≡ as_bytes builder_id)
        × (verify_build_result ed25519 result ≡ true)

    acknowledged-ok :
        (response : BuildQueueResponse) → acknowledged response ≡ ok tt → response ≡ complete_ack
    unfolding acknowledged
    acknowledged-ok response h = ground (arith, h)

    outputs_back : (outputs : List BuildOutput) → map to_output (map to_proto outputs) ≡ outputs
    unfolding to_output to_proto
    outputs_back [] = refl
    outputs_back (o ∷ os) = ap (◌∷◌ o) (outputs_back os)

    reported_signed :
        (l : LeasedJob EndpointId) (ctx : JobContext) (outputs : List BuildOutput)
        → as_bytes builder_id ≡ ed25519.public secret_key
        → l.job.drv_hash ≡ ctx.drv_hash
        → reported as_bytes l ctx.job_id builder_id
            (map to_proto
              (sign_build_result ed25519 secret_key ctx.job_id ctx.drv_hash outputs).outputs)
            (sign_build_result ed25519 secret_key ctx.job_id ctx.drv_hash outputs).signature_r
            (sign_build_result ed25519 secret_key ctx.job_id ctx.drv_hash outputs).signature_s
          ≡ sign_build_result ed25519 secret_key ctx.job_id ctx.drv_hash outputs
    unfolding reported sign_build_result unsigned
    reported_signed l ctx outputs mine same = rw (outputs_back outputs, mine, same) refl

    accepted-Recorded :
        (ctx : JobContext) (outputs : List BuildOutput) (now turn : ℕ)
        (q : BuildQueue EndpointId Sender)
        (handled : BuildQueue EndpointId Sender × BuildQueueResponse)
        → IsEd25519 ed25519
        → as_bytes builder_id ≡ ed25519.public secret_key
        → leased_hash ctx.job_id (q, turn) ≡ some ctx.drv_hash
        → Accepted as_bytes try_send now q builder_id ctx.job_id
            (map to_proto
              (sign_build_result ed25519 secret_key ctx.job_id ctx.drv_hash outputs).outputs)
            (sign_build_result ed25519 secret_key ctx.job_id ctx.drv_hash outputs).signature_r
            (sign_build_result ed25519 secret_key ctx.job_id ctx.drv_hash outputs).signature_s
            handled
        → Recorded ctx.drv_hash ctx.job_id (handled.0, suc turn)
    unfolding sign_build_result unsigned
    accepted-Recorded ctx outputs now turn q handled sound mine leased
          (held, l, there, ack, gone, outcome) =
        let same : l.job.drv_hash ≡ ctx.drv_hash = ground (arith, leased, there) in
        let signed = sign_build_result ed25519 secret_key ctx.job_id ctx.drv_hash outputs in
        (
          signed,
          subst (λ hash. get_outcome handled.0 hash ≡ some (completed signed)) same
              (outcome ∙ ap (λ r. some (completed r)) (reported_signed l ctx outputs mine same)),
          refl,
          sym mine,
          verify_build_result-sign_build_result ed25519 secret_key ctx.job_id ctx.drv_hash outputs
              sound,
        )

    sent_last :
        (ctx : JobContext) (signed : BuildResult) (q : BuildQueue EndpointId Sender) (turn : ℕ)
        (s1 : Requester EndpointId Sender) (response : BuildQueueResponse)
        → with_requester as_bytes try_send clock builder_id
            (complete_req ctx.job_id signed)
            (q, turn)
          ≡ (s1, ok response)
        → ((
          (handle_build_queue_request as_bytes try_send
              (clock turn)
              q
              builder_id
              (complete_req ctx.job_id signed)).0,
          suc turn,
        )
            ≡ s1)
          × ((handle_build_queue_request as_bytes try_send
                (clock turn)
                q
                builder_id
                (complete_req ctx.job_id signed)).1
              ≡ response)
    unfolding with_requester
    sent_last ctx signed q turn s1 response h = (
      ap (λ (r : Requester EndpointId Sender × Result BuildQueueResponse). r.0) h,
      cc (ap (λ (r : Requester EndpointId Sender × Result BuildQueueResponse). r.1) h),
    )

    report-Recorded :
        (ctx : JobContext) (outputs : List BuildOutput) (s next : Requester EndpointId Sender)
        → IsEd25519 ed25519
        → as_bytes builder_id ≡ ed25519.public secret_key
        → leased_hash ctx.job_id s ≡ some ctx.drv_hash
        → report ed25519 secret_key
            (with_requester as_bytes try_send clock builder_id)
            ctx
            outputs
            s
          ≡ (next, ok tt)
        → Recorded ctx.drv_hash ctx.job_id next
    unfolding report complete_req
    report-Recorded ctx outputs (q, turn) next sound mine leased h =
        let signed = sign_build_result ed25519 secret_key ctx.job_id ctx.drv_hash outputs in
        let protos = map to_proto signed.outputs in
        let handled =
          handle_build_queue_request as_bytes try_send (clock turn) q builder_id
            (complete_request ctx.job_id protos signed.signature_r signed.signature_s) in
        let (s1, response, sent, rest) =
          chain-ok
            (with_requester as_bytes try_send clock builder_id (complete_req ctx.job_id signed)
              (q, turn))
            _ next tt h in
        let ack =
          acknowledged-ok response
            (ap (λ (r : Requester EndpointId Sender × Result (Unit {0})). r.1) rest) in
        let last = sent_last ctx signed q turn s1 response sent in
        let arrived : (handled.0, suc turn) ≡ next =
          last.0 ∙ ap (λ (r : Requester EndpointId Sender × Result (Unit {0})). r.0) rest in
        elim (complete_request_lem as_bytes try_send (clock turn) q builder_id ctx.job_id protos
          signed.signature_r signed.signature_s) [
            | inl accepted ↦ subst (Recorded ctx.drv_hash ctx.job_id) arrived (
                accepted-Recorded ctx outputs (clock turn) turn q handled sound mine leased
                  accepted)
            | inr rejected ↦ absurd (rejected.1 (last.1 ∙ ack))
          ]

    -- A worker whose endpoint is its key, on the job that it has the lease of from a requester whose queue is
    -- not otherwise used meanwhile: where the job succeeds, whatever came up during the build, the requester
    -- has a result for the leased derivation, under its hash, which is of this job, names this builder, and
    -- has a signature that verifies.
    pub execute_job_with_heartbeat-Recorded :
        (host : Host) (ctx : JobContext) (s next : Requester EndpointId Sender) (table last : Table)
        → IsEd25519 ed25519
        → as_bytes builder_id ≡ ed25519.public secret_key
        → leased_hash ctx.job_id s ≡ some ctx.drv_hash
        → execute_job_with_heartbeat ed25519 secret_key host
            (with_requester as_bytes try_send clock builder_id)
            ctx
            (s, table)
          ≡ ((next, last), ok tt)
        → Recorded ctx.drv_hash ctx.job_id next
    unfolding execute_job_with_heartbeat
    execute_job_with_heartbeat-Recorded host ctx s next table last sound mine leased h =
        let (s1, done, prepared, h1) =
          chain-ok (prepare host (with_requester as_bytes try_send clock builder_id) ctx (s, table))
            _ (next, last) tt h in
        let (s2, watched, saw, h2) = chain-ok _ _ (next, last) tt h1 in
        let (s3, paths, outcome, h3) = chain-ok _ _ (next, last) tt h2 in
        let (s4, outputs, indexed, h4) = chain-ok _ _ (next, last) tt h3 in
        let after_watch =
          watch_build-leased_hash as_bytes try_send clock builder_id ctx.job_id ctx.job_id _
            (codes "starting") s1.0 s2.0 (on_requester-ok _ s1.0 s2.0 s1.1 s2.1 watched saw).0 in
        let after_build : s2.0 ≡ s3.0 =
          ap (λ (r : (Requester EndpointId Sender × Table) × Result (List Bytes)). r.0.0) outcome in
        let after_index : s3.0 ≡ s4.0 =
          on_index-ok (index_outputs host paths) s3.0 s4.0 s3.1 s4.1 outputs indexed in
        let still : leased_hash ctx.job_id s4.0 ≡ some ctx.drv_hash =
          ap (leased_hash ctx.job_id) (sym (after_build ∙ after_index))
          ∙ after_watch
          ∙ prepare-leased_hash as_bytes try_send clock builder_id host ctx s s1.0 table s1.1
              prepared
          ∙ leased in
        report-Recorded ctx outputs s4.0 next sound mine still
          (on_requester-ok _ s4.0 next s4.1 last tt h4).0
