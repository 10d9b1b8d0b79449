-- ===== src/Builder/Validity.antt =====
-- The queue behind the stream of a builder in iroh-nix/src/builder.rs, whatever the builder sends.
use iroh_nix.Support.{
  ℕ, zero, suc, ◌+◌, ◌^◌, ◌≤◌, ◌<◌, inl, inr, Option, none, some, List, [], ◌∷◌, arith, ltb,
  Bool-cases, Option-cases, Bytes, Eq, eq_nat, eq_bytes, length,
}
use iroh_nix.Error.{Result-cases}
use iroh_nix.Build.Types.{DrvHash, BuildQueue, LogEntry}
use iroh_nix.Build.Queue.Calls.{Call, apply, run, assigned-le}
use iroh_nix.Build.Queue.Invariant.{IsValid, run-IsValid, next_job_id-apply}
use iroh_nix.NixProtocol.{read_exact}
use iroh_nix.Control.Frames.{from_be_bytes, write_frame}
use iroh_nix.Builder.{handle_build_queue_request}
use iroh_nix.Builder.Requests.{request-Kept}
use iroh_nix.Builder.Stream.{
  Postcard, Served, write_response, read_request, after_sent, ended, handle_requests,
  handle_build_queue_accepted,
}

-- The calls that other tasks make in some rounds.
abbrev pub total_calls : {EndpointId : Type 0} → (ℕ → List (Call EndpointId)) → ℕ → ℕ → ℕ
total_calls others zero turn = 0
total_calls others (suc fuel) turn = length (others turn) + total_calls others fuel (suc turn)

module _ {EndpointId Sender : Type 0} ⦃e : Eq EndpointId⦄ (drv_hash : Bytes → DrvHash) where
  next_job_id-run :
      (cs : List (Call EndpointId)) (q : BuildQueue EndpointId Sender)
      → q.next_job_id + length cs < 2 ^ 64
      → (run drv_hash cs q).next_job_id ≤ q.next_job_id + length cs
  unfolding run
  next_job_id-run [] q h = omega arith
  next_job_id-run (c ∷ cs) q h =
      let first = next_job_id-apply drv_hash c q (omega arith) in
      let few = assigned-le c in
      omega (arith, first, few, next_job_id-run cs (apply drv_hash c q) (omega (arith, first, few)))

-- What is written of a response does not change the queue.
write_response-queue :
    {EndpointId Sender : Type 0} (P : BuildQueue EndpointId Sender → Type 0) (fails : Option ℕ)
    (frame : Bytes) (q : BuildQueue EndpointId Sender) (more : Served EndpointId Sender)
    → P q
    → P more.queue
    → P (write_response fails frame q more).queue
unfolding write_response after_sent ended
write_response-queue P none frame q more here later = later
write_response-queue P (some room) frame q more here later =
    elim (Bool-cases (ltb room (length frame))) [ inl e ↦ rw e here | inr e ↦ rw e later ]

module _ {EndpointId Sender : Type 0} ⦃e : Eq EndpointId⦄ (as_bytes : EndpointId → Bytes)
    (try_send : Sender → LogEntry → Option Sender) (postcard : Postcard) (clock : ℕ → ℕ)
    (drv_hash : Bytes → DrvHash) (others : ℕ → List (Call EndpointId)) (fails_after : ℕ → Option ℕ)
    (builder_id : EndpointId) where
  handle_requests-IsValid :
      (fuel turn : ℕ) (q : BuildQueue EndpointId Sender) (input : Bytes)
      → q.next_job_id + total_calls others fuel turn + 1 < 2 ^ 64
      → IsValid q
      → IsValid
          (handle_requests as_bytes try_send postcard clock drv_hash others fails_after builder_id
            fuel turn q input).queue
  unfolding handle_requests ended
  handle_requests-IsValid zero turn q input few valid = valid
  handle_requests-IsValid (suc fuel) turn q input few valid =
      let called = run drv_hash (others turn) q in
      let called_valid : IsValid called =
        run-IsValid drv_hash (others turn) q (omega arith) valid in
      let ids : called.next_job_id ≤ q.next_job_id + length (others turn) =
        next_job_id-run drv_hash (others turn) q (omega arith) in
      elim (Result-cases (read_exact 4 input)) [
        | inr (inl (failure, got)) ↦ rw (got, handle_requests) called_valid
        | inr (inr got) ↦ rw (got, handle_requests) called_valid
        | inl ((len_buf, body), got) ↦
            elim (Result-cases (read_request postcard (from_be_bytes len_buf) body)) [
              | inr (inl (failure, read)) ↦ rw (got, read, handle_requests) called_valid
              | inr (inr read) ↦ rw (got, read, handle_requests) called_valid
              | inl ((request, rest), read) ↦
                  let after =
                    handle_build_queue_request as_bytes try_send (clock turn) called builder_id
                      request in
                  let (next_valid, same) =
                    request-Kept as_bytes try_send (clock turn) called builder_id request
                      (omega (arith, ids)) called_valid in
                  elim (Option-cases (postcard.encode_response after.1)) [
                    | inl unencoded ↦ rw (got, read, unencoded, handle_requests) next_valid
                    | inr (bytes, encoded) ↦
                        rw (got, read, encoded, handle_requests)
                          (write_response-queue IsValid (fails_after turn) (write_frame bytes)
                            after.0
                            (handle_requests as_bytes try_send postcard clock drv_hash others
                              fails_after builder_id fuel (suc turn) after.0 rest)
                            next_valid
                            (handle_requests-IsValid fuel (suc turn) after.0 rest
                              (omega (arith, ids, same)) next_valid))
                  ]
            ]
      ]

  -- Whatever bytes a builder sends, whatever calls other tasks make between its requests, and however the
  -- connection ends, a response that cannot be written included, the handler of the connection keeps a valid
  -- queue valid, as long as the next job id and the number of those calls are together below 2^64 - 1: no job
  -- id is pending or leased twice, none that is still to be assigned is in use, and each lease stands under
  -- its job's id.
  pub handle_build_queue_accepted-IsValid :
      (q : BuildQueue EndpointId Sender) (input : Bytes)
      → q.next_job_id + total_calls others (suc (length input)) 0 + 1 < 2 ^ 64
      → IsValid q
      → IsValid
          (handle_build_queue_accepted as_bytes try_send postcard clock drv_hash others fails_after
            builder_id q input).queue
  unfolding handle_build_queue_accepted
  handle_build_queue_accepted-IsValid q input few valid =
      handle_requests-IsValid (suc (length input)) 0 q input few valid
