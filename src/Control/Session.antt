-- ===== src/Control/Session.antt =====
-- A whole connection on the control socket of iroh-nix/src/control.rs, seen from both of its ends.
use iroh_nix.Support.{
  ℕ, zero, suc, ◌≤◌, ◌<◌, ◌≡◌, refl, ◌∙◌, Option, some, List, [], ◌∷◌, ◌++◌, map, arith, Bytes, Eq,
  eq_nat, eq_bytes, length, All, length-append,
}
use iroh_nix.Error.{Result, ok, ◌>>=◌}
use iroh_nix.Build.Types.{DrvHash, BuildQueue}
use iroh_nix.NixProtocol.{read_exact}
use iroh_nix.Builder.Stream.{Served, after_sent, ended}
use iroh_nix.Control.{ControlRequest, ControlResponse, handle_control_request}
use iroh_nix.Control.Frames.{max_frame_size, write_frame, serve_head, serve_turn, read_response}
use iroh_nix.Control.Exchange.{exchange, length-write_frame}
use iroh_nix.Control.Stream.{serve_frames, handle_control_connection}

-- The frames of the messages that are written one after the other.
unfoldable pub frames : List Bytes → Bytes
frames [] = []
frames (b ∷ bs) = write_frame b ++ frames bs

abbrev sent_frames : List (ControlRequest × Bytes) → Bytes
sent_frames rs = frames (map (λ (r : ControlRequest × Bytes). r.1) rs)

length-sent_frames : (rs : List (ControlRequest × Bytes)) → length rs ≤ length (sent_frames rs)
unfolding frames
length-sent_frames [] = omega arith
length-sent_frames ((r, b) ∷ rs) = omega (
  arith,
  length-append (write_frame b) (sent_frames rs),
  length-write_frame b,
  length-sent_frames rs,
)

-- A request of at most 1 MB with the bytes that it is decoded from.
abbrev pub IsRequest : (Bytes → Option ControlRequest) → ControlRequest × Bytes → Type 0
IsRequest decode_request (r, b) = (decode_request b ≡ some r) × (length b ≤ max_frame_size)

-- A response of at most 1 MB with its bytes, of which it is decoded again.
abbrev pub IsResponse :
    (ControlResponse → Option Bytes)
    → (Bytes → Option ControlResponse)
    → (ControlResponse → Bytes)
    → ControlResponse
    → Type 0
IsResponse encode_response decode_response response_bytes r =
    (encode_response r ≡ some (response_bytes r))
    × (decode_response (response_bytes r) ≡ some r)
    × (length (response_bytes r) ≤ max_frame_size)

-- As many responses as there are requests, read one after the other.
unfoldable pub read_responses :
    (Bytes → Option ControlResponse) → ℕ → Bytes → Result (List ControlResponse × Bytes)
read_responses decode_response zero input = ok ([], input)
read_responses decode_response (suc n) input = do
  (response, rest) ← read_response decode_response input
  (responses, last) ← read_responses decode_response n rest
  ok (response ∷ responses, last)

module _ {EndpointId Sender : Type 0} ⦃e : Eq EndpointId⦄ (blake3_hash : Bytes → DrvHash)
    (show : EndpointId → Bytes) (clock : ℕ → ℕ) where
  -- The queue after the requests, each handled at its time, and the responses.
  unfoldable pub session :
      ℕ
      → BuildQueue EndpointId Sender
      → List (ControlRequest × Bytes)
      → BuildQueue EndpointId Sender × List ControlResponse
  session turn q [] = (q, [])
  session turn q ((r, b) ∷ rs) =
      let (next, response, announced) = handle_control_request blake3_hash show (clock turn) q r in
      let (last, responses) = session (suc turn) next rs in (last, response ∷ responses)

module _ {EndpointId Sender : Type 0} ⦃e : Eq EndpointId⦄ (blake3_hash : Bytes → DrvHash)
    (show : EndpointId → Bytes) (decode_request : Bytes → Option ControlRequest)
    (encode_response : ControlResponse → Option Bytes)
    (decode_response : Bytes → Option ControlResponse) (response_bytes : ControlResponse → Bytes)
    (clock : ℕ → ℕ) where
  abbrev whole : BuildQueue EndpointId Sender × List ControlResponse → Served EndpointId Sender
  whole r = record { queue = r.0; sent = frames (map response_bytes r.1); result = some (ok tt) }

  serve_frames-end :
      (fuel turn : ℕ) (q : BuildQueue EndpointId Sender)
      → serve_frames blake3_hash show decode_request encode_response clock (suc fuel) turn q []
        ≡ whole (q, [])
  unfolding serve_frames serve_turn serve_head read_exact frames ended
  serve_frames-end fuel turn q = refl

  serve_frames-step :
      (fuel turn : ℕ) (q next : BuildQueue EndpointId Sender) (input rest bytes : Bytes)
      → serve_turn blake3_hash show decode_request encode_response (clock turn) q input
        ≡ (next, ok (some (rest, bytes)))
      → serve_frames blake3_hash show decode_request encode_response clock (suc fuel) turn q input
        ≡ after_sent bytes (
            serve_frames blake3_hash show decode_request encode_response clock fuel
              (suc turn)
              next
              rest)
  unfolding serve_frames
  serve_frames-step fuel turn q next input rest bytes h = simp (h, serve_frames)

  serve_frames-session :
      (fuel turn : ℕ) (q : BuildQueue EndpointId Sender) (requests : List (ControlRequest × Bytes))
      → length requests < fuel
      → All (IsRequest decode_request) requests
      → All
          (IsResponse encode_response decode_response response_bytes)
          (session blake3_hash show clock turn q requests).1
      → serve_frames blake3_hash show decode_request encode_response clock fuel turn q
          (sent_frames requests)
        ≡ whole (session blake3_hash show clock turn q requests)
  unfolding session frames after_sent
  serve_frames-session zero turn q requests enough good fits = absurd (omega arith)
  serve_frames-session (suc fuel) turn q [] enough good fits = serve_frames-end fuel turn q
  serve_frames-session (suc fuel) turn q ((r, b) ∷ rs) enough ((dec, small), good) (fit, fits) =
      let handled = handle_control_request blake3_hash show (clock turn) q r in
      let (served, back) =
        exchange blake3_hash show decode_request encode_response decode_response (clock turn) q r b
          (response_bytes handled.1) (sent_frames rs) [] dec small fit.0 fit.1 fit.2 in
      serve_frames-step fuel turn q handled.0 (write_frame b ++ sent_frames rs) (sent_frames rs)
        (write_frame (response_bytes handled.1)) served
      ∙ rw (serve_frames-session fuel (suc turn) handled.0 rs (omega arith) good fits) refl

  read_responses-session :
      (turn : ℕ) (q : BuildQueue EndpointId Sender) (requests : List (ControlRequest × Bytes))
      → All (IsRequest decode_request) requests
      → All
          (IsResponse encode_response decode_response response_bytes)
          (session blake3_hash show clock turn q requests).1
      → read_responses decode_response
          (length requests)
          (frames (map response_bytes (session blake3_hash show clock turn q requests).1))
        ≡ ok ((session blake3_hash show clock turn q requests).1, [])
  unfolding session frames read_responses
  read_responses-session turn q [] good fits = refl
  read_responses-session turn q ((r, b) ∷ rs) ((dec, small), good) (fit, fits) =
      let handled = handle_control_request blake3_hash show (clock turn) q r in
      let (served, back) =
        exchange blake3_hash show decode_request encode_response decode_response (clock turn) q r b
          (response_bytes handled.1) (sent_frames rs)
          (frames (map response_bytes (session blake3_hash show clock (suc turn) handled.0 rs).1))
          dec small fit.0 fit.1 fit.2 in
      rw (back, read_responses-session (suc turn) handled.0 rs good fits) refl

  -- Where no other task uses the queue meanwhile: on a connection where a client writes frames of at most
  -- 1 MB that decode to requests, and then goes, every request is handled once and in order, the handler
  -- returns, and the client reads the handler's responses, in the order of the requests and nothing more, if
  -- each of them is decoded from its JSON and has at most the frame's size.
  pub handle_control_connection-session :
      (q : BuildQueue EndpointId Sender) (requests : List (ControlRequest × Bytes))
      → All (IsRequest decode_request) requests
      → All
          (IsResponse encode_response decode_response response_bytes)
          (session blake3_hash show clock 0 q requests).1
      → (served : Served EndpointId Sender) × (handle_control_connection blake3_hash show
            decode_request encode_response clock q
            (frames (map (λ (r : ControlRequest × Bytes). r.1) requests))
          ≡ served)
        × (served.queue ≡ (session blake3_hash show clock 0 q requests).0)
        × (served.result ≡ some (ok tt))
        × (read_responses decode_response (length requests) served.sent
            ≡ ok ((session blake3_hash show clock 0 q requests).1, []))
  unfolding handle_control_connection
  handle_control_connection-session q requests good fits = (
    whole (session blake3_hash show clock 0 q requests),
    serve_frames-session _ 0 q requests (omega (arith, length-sent_frames requests)) good fits,
    refl,
    refl,
    read_responses-session 0 q requests good fits,
  )
