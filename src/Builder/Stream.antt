-- ===== src/Builder/Stream.antt =====
-- The stream of a builder in iroh-nix/src/builder.rs: `handle_build_queue_accepted`, and the framing of the
-- builder's side. A stream that is read is the bytes that it has yet to give until it ends; one that is
-- written may fail in any round, after some bytes. Other tasks call the queue between two requests.
-- postcard is foreign: its functions are parameters.
use iroh_nix.Support.{
  ℕ, zero, suc, Option, none, some, List, [], ◌++◌, ltb, if◌then◌else◌, Bytes, codes, Eq, eq_nat,
  eq_bytes, length, take,
}
use iroh_nix.Error.{protocol, Result, ok, err, panic, ◌>>=◌}
use iroh_nix.Build.Types.{DrvHash, BuildQueue, LogEntry}
use iroh_nix.Build.Queue.Calls.{Call, run}
use iroh_nix.NixProtocol.{read_exact}
use iroh_nix.Control.Frames.{from_be_bytes, write_frame}
use iroh_nix.Transfer.{read_or, decoded}
use iroh_nix.Builder.{BuildQueueRequest, BuildQueueResponse, handle_build_queue_request}

-- 1 MB
abbrev pub max_message_size : ℕ
max_message_size = 1048576

-- `to_bytes` and `from_bytes` of the messages
pub record Postcard : Type 0 where
  pub encode_request : BuildQueueRequest → Option Bytes
  pub decode_request : Bytes → Option BuildQueueRequest
  pub encode_response : BuildQueueResponse → Option Bytes
  pub decode_response : Bytes → Option BuildQueueResponse

-- What the builder has been sent, the queue, and how the connection has ended: `none` where the rounds
-- ran out.
pub record Served (EndpointId Sender : Type 0) : Type 0 where
  pub queue : BuildQueue EndpointId Sender
  pub sent : Bytes
  pub result : Option (Result (Unit {0}))

-- A message of the length that was read, with the errors for one that is too long and one that is cut off.
unfoldable pub read_message : Bytes → Bytes → ℕ → Bytes → Result (Bytes × Bytes)
read_message too_large unread msg_len body =
    if ltb max_message_size msg_len then err (protocol too_large) else read_or unread msg_len body

unfoldable pub after_sent :
    {EndpointId Sender : Type 0} → Bytes → Served EndpointId Sender → Served EndpointId Sender
after_sent bytes served = record {
  queue = served.queue;
  sent = bytes ++ served.sent;
  result = served.result;
}

unfoldable pub ended :
    {EndpointId Sender : Type 0}
    → BuildQueue EndpointId Sender
    → Result (Unit {0})
    → Served EndpointId Sender
ended q result = record { queue = q; sent = []; result = some result }

module _ (postcard : Postcard) where
  unfoldable pub read_request : ℕ → Bytes → Result (BuildQueueRequest × Bytes)
  read_request msg_len body = do
    (msg_buf, rest) ←
        read_message (codes "message too large: ") (codes "failed to read message: ") msg_len body
    request ← decoded (codes "failed to decode request: ") (postcard.decode_request msg_buf)
    ok (request, rest)

  -- What the builder writes.
  unfoldable pub send_request : BuildQueueRequest → Result Bytes
  send_request request = elim (postcard.encode_request request) [
    | none ↦ err (protocol (codes "failed to encode request: "))
    | some bytes ↦ ok (write_frame bytes)
  ]

  -- What the builder reads.
  unfoldable pub recv_response : Bytes → Result (BuildQueueResponse × Bytes)
  recv_response input = do
    (len_buf, body) ← read_or (codes "failed to read response length: ") 4 input
    (msg_buf, rest) ←
        read_message (codes "response too large: ") (codes "failed to read response: ")
          (from_be_bytes len_buf) body
    response ← decoded (codes "failed to decode response: ") (postcard.decode_response msg_buf)
    ok (response, rest)

-- The two writes of a response, into a stream that takes all, or that fails after some bytes.
unfoldable pub write_response :
    {EndpointId Sender : Type 0}
    → Option ℕ
    → Bytes
    → BuildQueue EndpointId Sender
    → Served EndpointId Sender
    → Served EndpointId Sender
write_response none frame q more = after_sent frame more
write_response (some room) frame q more =
    if ltb room (length frame)
    then after_sent (take room frame) (
        ended q (
          err (
            protocol (
              if ltb room 4
              then codes "failed to write response length: "
              else codes "failed to write response: "))))
    else after_sent frame more

module _ {EndpointId Sender : Type 0} ⦃e : Eq EndpointId⦄ (as_bytes : EndpointId → Bytes)
    (try_send : Sender → LogEntry → Option Sender) (postcard : Postcard) (clock : ℕ → ℕ)
    (drv_hash : Bytes → DrvHash) (others : ℕ → List (Call EndpointId)) (fails_after : ℕ → Option ℕ)
    (builder_id : EndpointId) where
  -- The loop, with the rounds that are left and the number of the round, which says the time, the calls that
  -- other
  -- tasks make before the round, and whether its response can be written.
  unfoldable pub handle_requests :
      ℕ → ℕ → BuildQueue EndpointId Sender → Bytes → Served EndpointId Sender
  handle_requests zero turn q input = record { queue = q; sent = []; result = none }
  handle_requests (suc fuel) turn before input =
      let q = run drv_hash (others turn) before in
      elim (read_exact 4 input) [
        | err failure ↦ ended q (ok tt)
        | panic ↦ ended q (ok tt)
        | ok (len_buf, body) ↦ elim (read_request postcard (from_be_bytes len_buf) body) [
          | err failure ↦ ended q (err failure)
          | panic ↦ ended q panic
          | ok (request, rest) ↦
              let (next, response) =
                handle_build_queue_request as_bytes try_send (clock turn) q builder_id request in
              elim (postcard.encode_response response) [
                | none ↦ ended next (err (protocol (codes "failed to encode response: ")))
                | some bytes ↦
                    write_response (fails_after turn) (write_frame bytes) next
                      (handle_requests fuel (suc turn) next rest)
              ]
        ]
      ]

  unfoldable pub handle_build_queue_accepted :
      BuildQueue EndpointId Sender → Bytes → Served EndpointId Sender
  handle_build_queue_accepted q input = handle_requests (suc (length input)) 0 q input
