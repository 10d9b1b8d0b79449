-- ===== src/Control/Frames.antt =====
-- The frames of the control socket in iroh-nix/src/control.rs: a turn of
-- `handle_control_connection`, and `ControlClient::request`. A stream that is read is the bytes that
-- it has yet to give; one that is written takes all. JSON is foreign: its functions are parameters.
use iroh_nix.Support.{
  ℕ, ◌%◌, ◌^◌, Option, none, some, ◌++◌, reverse, ltb, if◌then◌else◌, Bytes, codes, Eq, eq_nat,
  eq_bytes, length,
}
use iroh_nix.Support.Words.{to_le_bytes, from_le_bytes}
use iroh_nix.Error.{unexpected_eof, io, protocol, Result, ok, err, panic, ◌>>=◌}
use iroh_nix.Build.Types.{DrvHash, BuildQueue}
use iroh_nix.NixProtocol.{read_exact}
use iroh_nix.Control.{ControlRequest, ControlResponse, handle_control_request}

-- 1 MB
abbrev pub max_frame_size : ℕ
max_frame_size = 1048576

unfoldable pub to_be_bytes : ℕ → ℕ → Bytes
to_be_bytes w n = reverse (to_le_bytes w n)

unfoldable pub from_be_bytes : Bytes → ℕ
from_be_bytes b = from_le_bytes (reverse b)

-- The two writes of a frame: `(len as u32).to_be_bytes()`, and the bytes.
unfoldable pub write_frame : Bytes → Bytes
unfolding to_be_bytes
write_frame b = to_be_bytes 4 (length b % 2 ^ 32) ++ b

-- What follows the length of a frame, with the error for one that is too long.
unfoldable pub read_frame_body : Bytes → ℕ → Bytes → Result (Bytes × Bytes)
read_frame_body message frame_len body =
    if ltb max_frame_size frame_len then err (protocol message) else read_exact frame_len body

module _ (encode_response : ControlResponse → Option Bytes) where
  -- The response is written behind the handler's work: what is left to read, and what is written.
  unfoldable pub answer_frame : ControlResponse → Bytes → Result (Option (Bytes × Bytes))
  unfolding write_frame
  answer_frame response rest = elim (encode_response response) [
    | none ↦ err (protocol (codes "failed to serialize response: "))
    | some b ↦ ok (some (rest, write_frame b))
  ]

module _ {EndpointId Sender : Type 0} ⦃e : Eq EndpointId⦄ (blake3_hash : Bytes → DrvHash)
    (show : EndpointId → Bytes) (decode_request : Bytes → Option ControlRequest)
    (encode_response : ControlResponse → Option Bytes) where
  unfoldable pub serve_request :
      ℕ
      → BuildQueue EndpointId Sender
      → Option ControlRequest
      → Bytes
      → BuildQueue EndpointId Sender × Result (Option (Bytes × Bytes))
  unfolding answer_frame
  serve_request now q none rest = (q, err (protocol (codes "invalid control request: ")))
  serve_request now q (some request) rest =
      let (q', response, announced) = handle_control_request blake3_hash show now q request in
      (q', answer_frame encode_response response rest)

  unfoldable pub serve_body :
      ℕ
      → BuildQueue EndpointId Sender
      → Result (Bytes × Bytes)
      → BuildQueue EndpointId Sender × Result (Option (Bytes × Bytes))
  unfolding serve_request
  serve_body now q (ok (buf, rest)) = serve_request now q (decode_request buf) rest
  serve_body now q (err error) = (q, err error)
  serve_body now q panic = (q, panic)

  unfoldable pub serve_head :
      ℕ
      → BuildQueue EndpointId Sender
      → Result (Bytes × Bytes)
      → BuildQueue EndpointId Sender × Result (Option (Bytes × Bytes))
  unfolding serve_body read_frame_body from_be_bytes
  serve_head now q (ok (len_buf, body)) =
      serve_body now q
        (read_frame_body (codes "control frame too large: ") (from_be_bytes len_buf) body)
  serve_head now q (err (io unexpected_eof)) = (q, ok none)
  serve_head now q (err error) = (q, err error)
  serve_head now q panic = (q, panic)

  -- A turn of the loop: the new queue, and `none` where the client has gone, an error where the
  -- connection is given up, or what is left to read and what was written.
  unfoldable pub serve_turn :
      ℕ
      → BuildQueue EndpointId Sender
      → Bytes
      → BuildQueue EndpointId Sender × Result (Option (Bytes × Bytes))
  unfolding serve_head
  serve_turn now q input = serve_head now q (read_exact 4 input)

module _ (decode_response : Bytes → Option ControlResponse) where
  unfoldable pub decoded : Bytes → Result ControlResponse
  decoded buf = elim (decode_response buf) [
    | none ↦ err (protocol (codes "invalid control response: "))
    | some response ↦ ok response
  ]

  -- What `ControlClient::request` reads after it has written the request.
  unfoldable pub read_response : Bytes → Result (ControlResponse × Bytes)
  unfolding decoded read_frame_body from_be_bytes
  read_response input = do
    (len_buf, body) ← read_exact 4 input
    (buf, rest) ← read_frame_body (codes "response frame too large: ") (from_be_bytes len_buf) body
    response ← decoded buf
    ok (response, rest)
