-- ===== src/Builder/Tests.antt =====
-- Runs of the requester of iroh-nix/src/builder.rs.
use iroh_nix.Support.{
  ℕ, zero, suc, ◌+◌, ◌^◌, ◌<◌, ◌≡◌, refl, false, Option, none, some, List, [], ◌∷◌, ◌++◌, arith,
  Bytes, codes, eq_nat, eq_bytes, length,
}
use iroh_nix.Build.Queue.Calls.{Call, pushes, run, apply}
use iroh_nix.Build.Queue.{pull, position, push}
use iroh_nix.Support.Words.{to_le_bytes}
use iroh_nix.Control.Frames.{write_frame, to_be_bytes}
use iroh_nix.Error.{ok}
use iroh_nix.Build.Types.{LogEntry}
use iroh_nix.Build.Queue.Example.{leased_queue, leased_queue-IsValid, three_ids}
use iroh_nix.Build.Queue.Invariant.{IsValid}
use iroh_nix.Builder.{
  BuildOutputProto, pull_request, complete_request, BuildQueueRequest, BuildQueueResponse, job,
  no_job,
}
use iroh_nix.Builder.Stream.{Postcard, handle_build_queue_accepted}
use iroh_nix.Builder.Conversation.{
  requests_sent, conversation, handle_build_queue_accepted-conversation,
}
use iroh_nix.Builder.Validity.{total_calls, handle_build_queue_accepted-IsValid}

abbrev endpoint_bytes : ℕ → Bytes
endpoint_bytes n = n ∷ []

-- A channel that takes every entry.
abbrev channel : ℕ → LogEntry → Option ℕ
channel n entry = some (suc n)

abbrev nar_output : BuildOutputProto
nar_output = record { store_path = codes "out"; blake3 = 1 ∷ []; sha256 = 2 ∷ []; nar_size = 8 }

-- An encoding of a request for work, and of one completion.
abbrev request_of : Bytes → Option BuildQueueRequest
request_of [] = some (complete_request 2 (nar_output ∷ []) [] [])
request_of (b ∷ bs) = some (pull_request [] false)

abbrev response_of : BuildQueueResponse → Bytes
response_of (job id drv_hash drv_path outputs input_paths) = id ∷ []
response_of no_job = 9 ∷ []
response_of x = []

abbrev postcard : Postcard
postcard = record {
  encode_request = λ r. none;
  decode_request = request_of;
  encode_response = λ response. some (response_of response);
  decode_response = λ b. none;
}

abbrev session : List (BuildQueueRequest × Bytes)
session =
    (complete_request 2 (nar_output ∷ []) [] [], [])
    ∷ (pull_request [] false, 7 ∷ [])
    ∷ (pull_request [] false, 8 ∷ 8 ∷ [])
    ∷ []

-- Another task queues a job before the third request.
abbrev other_calls : ℕ → List (Call ℕ)
other_calls (suc (suc zero)) = pushes 22 (codes "late.drv") [] [] [] ∷ []
other_calls turn = []

handle_build_queue_accepted-conversation_example :
    handle_build_queue_accepted endpoint_bytes channel postcard
      (λ turn. 20 + turn)
      (λ s. s)
      other_calls
      (λ turn. none)
      1
      leased_queue
      (requests_sent session ++ 0 ∷ 0 ∷ [])
    ≡ record {
      queue =
          (conversation endpoint_bytes channel postcard
            (λ turn. 20 + turn)
            (λ s. s)
            other_calls
            (λ turn. none)
            1
            response_of
            (λ x. refl)
            (λ turn. refl)
            0
            leased_queue
            session).0;
      sent =
          (conversation endpoint_bytes channel postcard
            (λ turn. 20 + turn)
            (λ s. s)
            other_calls
            (λ turn. none)
            1
            response_of
            (λ x. refl)
            (λ turn. refl)
            0
            leased_queue
            session).1;
      result = some (ok tt);
    }
handle_build_queue_accepted-conversation_example =
    handle_build_queue_accepted-conversation endpoint_bytes channel postcard (λ turn. 20 + turn)
      (λ s. s) other_calls (λ turn. none) 1 response_of (λ x. refl) (λ turn. refl) leased_queue
      session (0 ∷ 0 ∷ []) ((refl, omega arith), ((refl, omega arith), ((refl, omega arith), tt)))
      (omega arith)

few_calls :
    leased_queue.next_job_id
      + total_calls other_calls (suc (length (requests_sent session ++ 255 ∷ 0 ∷ 0 ∷ 0 ∷ []))) 0
      + 1
    < 2 ^ 64
unfolding requests_sent write_frame to_be_bytes run apply pull position push to_le_bytes
few_calls = omega (arith, three_ids)

-- The first response cannot be written whole.
handle_build_queue_accepted-IsValid_example :
    IsValid
      (handle_build_queue_accepted endpoint_bytes channel postcard
        (λ turn. 20 + turn)
        (λ s. s)
        other_calls
        (λ turn. some 3)
        1
        leased_queue
        (requests_sent session ++ 255 ∷ 0 ∷ 0 ∷ 0 ∷ [])).queue
handle_build_queue_accepted-IsValid_example =
    handle_build_queue_accepted-IsValid endpoint_bytes channel postcard (λ turn. 20 + turn) (λ s. s)
      other_calls (λ turn. some 3) 1 leased_queue (requests_sent session ++ 255 ∷ 0 ∷ 0 ∷ 0 ∷ [])
      few_calls leased_queue-IsValid
