-- ===== src/Builder/Conversation.antt =====
-- A connection of iroh-nix/src/builder.rs from its first request to its end.
use iroh_nix.Support.{
  ℕ, zero, suc, ◌%◌, ◌^◌, ◌≤◌, ◌<◌, ◌≡◌, refl, ◌∙◌, true, false, Option, none, some, List, [], ◌∷◌,
  ◌++◌, append_assoc, arith, ltb, leb, Bytes, Eq, eq_nat, eq_bytes, length, All, length-append,
  take-append, drop-append,
}
use iroh_nix.Error.{ok}
use iroh_nix.Build.Queue.Calls.{Call, run}
use iroh_nix.Build.Types.{DrvHash, BuildQueue, LogEntry}
use iroh_nix.NixProtocol.{read_exact}
use iroh_nix.Control.Frames.{from_be_bytes, to_be_bytes, write_frame}
use iroh_nix.Control.Exchange.{frame_head, from_be_bytes-to_be_bytes, length-write_frame}
use iroh_nix.Transfer.{read_or, decoded}
use iroh_nix.Builder.{BuildQueueRequest, BuildQueueResponse, handle_build_queue_request}
use iroh_nix.Builder.Stream.{
  max_message_size, Postcard, Served, read_message, read_request, after_sent, ended,
  handle_requests, write_response, handle_build_queue_accepted,
}

-- A request of at most 1 MB with the bytes that it is decoded from.
abbrev pub IsRequest : Postcard → BuildQueueRequest × Bytes → Type 0
IsRequest postcard (r, b) = (postcard.decode_request b ≡ some r) × (length b ≤ max_message_size)

-- The bytes of the requests that a builder writes one after the other.
unfoldable pub requests_sent : List (BuildQueueRequest × Bytes) → Bytes
requests_sent [] = []
requests_sent ((r, b) ∷ rs) = write_frame b ++ requests_sent rs

read_or-prefix : (message b rest : Bytes) → read_or message (length b) (b ++ rest) ≡ ok (b, rest)
unfolding read_or
read_or-prefix message b rest =
    let whole : leb (length b) (length (b ++ rest)) ≡ true = ground (arith, length-append b rest) in
    rw (whole, take-append b rest, drop-append b rest) refl

read_message-frame :
    (too_large unread b rest : Bytes)
    → length b ≤ max_message_size
    → read_message too_large unread (from_be_bytes (to_be_bytes 4 (length b % 2 ^ 32))) (b ++ rest)
      ≡ ok (b, rest)
unfolding read_message
read_message-frame too_large unread b rest h =
    let len : from_be_bytes (to_be_bytes 4 (length b % 2 ^ 32)) ≡ length b =
      from_be_bytes-to_be_bytes 4 (length b % 2 ^ 32) (omega arith) ∙ omega arith in
    let short : ltb max_message_size (length b) ≡ false = ground (arith, h) in
    rw (len, short) (read_or-prefix unread b rest)

read_request-frame :
    (postcard : Postcard) (r : BuildQueueRequest) (b rest : Bytes)
    → IsRequest postcard (r, b)
    → read_request postcard (from_be_bytes (to_be_bytes 4 (length b % 2 ^ 32))) (b ++ rest)
      ≡ ok (r, rest)
unfolding read_request decoded
read_request-frame postcard r b rest (back, fits) =
    rw (read_message-frame _ _ b rest fits) (rw back refl)

length-requests_sent :
    (requests : List (BuildQueueRequest × Bytes))
    → length requests ≤ length (requests_sent requests)
unfolding requests_sent
length-requests_sent [] = omega arith
length-requests_sent ((r, b) ∷ rs) = omega (
  arith,
  length-append (write_frame b) (requests_sent rs),
  length-write_frame b,
  length-requests_sent rs,
)

module _ {EndpointId Sender : Type 0} ⦃e : Eq EndpointId⦄ (as_bytes : EndpointId → Bytes)
    (try_send : Sender → LogEntry → Option Sender) (postcard : Postcard) (clock : ℕ → ℕ)
    (drv_hash : Bytes → DrvHash) (others : ℕ → List (Call EndpointId)) (fails_after : ℕ → Option ℕ)
    (builder_id : EndpointId) (response_bytes : BuildQueueResponse → Bytes)
    (encodes : (response : BuildQueueResponse)
      → postcard.encode_response response ≡ some (response_bytes response))
    (writes : (turn : ℕ) → fails_after turn ≡ none) where
  -- The queue after the requests, each handled at its time and behind the calls that other tasks make before
  -- it,
  -- and those before the end, and the frames of the responses.
  unfoldable pub conversation :
      ℕ
      → BuildQueue EndpointId Sender
      → List (BuildQueueRequest × Bytes)
      → BuildQueue EndpointId Sender × Bytes
  conversation turn q [] = (run drv_hash (others turn) q, [])
  conversation turn q ((r, b) ∷ rs) =
      let called = run drv_hash (others turn) q in
      let (next, response) =
        handle_build_queue_request as_bytes try_send (clock turn) called builder_id r in
      let (last, sent) = conversation (suc turn) next rs in
      (last, write_frame (response_bytes response) ++ sent)

  abbrev whole : BuildQueue EndpointId Sender × Bytes → Served EndpointId Sender
  whole r = record { queue = r.0; sent = r.1; result = some (ok tt) }

  handle_requests-end :
      (fuel turn : ℕ) (q : BuildQueue EndpointId Sender) (tail : Bytes)
      → length tail < 4
      → handle_requests as_bytes try_send postcard clock drv_hash others fails_after builder_id
          (suc fuel)
          turn
          q
          tail
        ≡ whole (run drv_hash (others turn) q, [])
  unfolding handle_requests read_exact ended
  handle_requests-end fuel turn q tail h =
      let short : leb 4 (length tail) ≡ false = ground (arith, h) in
      rw (short, handle_requests, read_exact) refl

  handle_requests-step :
      (fuel turn : ℕ) (q : BuildQueue EndpointId Sender) (r : BuildQueueRequest) (b rest : Bytes)
      → IsRequest postcard (r, b)
      → handle_requests as_bytes try_send postcard clock drv_hash others fails_after builder_id
          (suc fuel)
          turn
          q
          (write_frame b ++ rest)
        ≡ after_sent
            (write_frame (
              response_bytes
                (handle_build_queue_request as_bytes try_send
                  (clock turn)
                  (run drv_hash (others turn) q)
                  builder_id
                  r).1))
            (handle_requests as_bytes try_send postcard clock drv_hash others fails_after builder_id
              fuel
              (suc turn)
              (handle_build_queue_request as_bytes try_send
                (clock turn)
                (run drv_hash (others turn) q)
                builder_id
                r).0
              rest)
  unfolding handle_requests write_response
  handle_requests-step fuel turn q r b rest fits =
      rw
        (
          frame_head b rest,
          read_request-frame postcard r b rest fits,
          encodes
              (handle_build_queue_request as_bytes try_send (clock turn)
                (run drv_hash (others turn) q) builder_id r).1,
          writes turn,
          handle_requests,
        )
        refl

  handle_requests-conversation :
      (fuel turn : ℕ) (q : BuildQueue EndpointId Sender)
      (requests : List (BuildQueueRequest × Bytes)) (tail : Bytes)
      → length requests < fuel
      → All (IsRequest postcard) requests
      → length tail < 4
      → handle_requests as_bytes try_send postcard clock drv_hash others fails_after builder_id fuel
          turn q
          (requests_sent requests ++ tail)
        ≡ whole (conversation turn q requests)
  unfolding requests_sent conversation after_sent
  handle_requests-conversation zero turn q requests tail enough fits cut = absurd (omega arith)
  handle_requests-conversation (suc fuel) turn q [] tail enough fits cut =
      handle_requests-end fuel turn q tail cut
  handle_requests-conversation (suc fuel) turn q ((r, b) ∷ rs) tail enough (fit, fits) cut =
      let frame = write_frame b in
      let next =
        (handle_build_queue_request as_bytes try_send (clock turn) (run drv_hash (others turn) q)
          builder_id r).0 in
      rw (append_assoc frame (requests_sent rs) tail) (
        handle_requests-step fuel turn q r b (requests_sent rs ++ tail) fit
        ∙ rw (handle_requests-conversation fuel (suc turn) next rs tail (omega arith) fits cut)
            refl)

  -- Where every response has an encoding and can be written: on a connection where a builder writes requests
  -- of at
  -- most 1 MB that are decoded from their bytes, and then hangs up, with up to three bytes of another message:
  -- every request is handled once, in the order of the stream, on the queue that the one before it and the
  -- calls
  -- of other tasks since have left; the builder is sent the frame of each response, and the handler returns.
  pub handle_build_queue_accepted-conversation :
      (q : BuildQueue EndpointId Sender) (requests : List (BuildQueueRequest × Bytes))
      (tail : Bytes)
      → All (IsRequest postcard) requests
      → length tail < 4
      → handle_build_queue_accepted as_bytes try_send postcard clock drv_hash others fails_after
          builder_id q
          (requests_sent requests ++ tail)
        ≡ record {
          queue = (conversation 0 q requests).0;
          sent = (conversation 0 q requests).1;
          result = some (ok tt);
        }
  unfolding handle_build_queue_accepted
  handle_build_queue_accepted-conversation q requests tail fits cut =
      handle_requests-conversation _ 0 q requests tail
        (omega (arith, length-append (requests_sent requests) tail, length-requests_sent requests))
        fits cut
