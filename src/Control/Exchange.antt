-- ===== src/Control/Exchange.antt =====
-- A request and its response over the control socket of iroh-nix/src/control.rs.
use mathlib.Core.List.{reverse-reverse, reverse-cons}
use iroh_nix.Support.{
  ℕ, ◌+◌, ◌%◌, ◌^◌, ◌≤◌, ◌<◌, ◌≡◌, refl, ap, ◌∙◌, false, Option, some, [], ◌∷◌, ◌++◌, reverse,
  append_assoc, arith, ltb, Bytes, Eq, eq_nat, eq_bytes, length, length-append,
}
use iroh_nix.Support.Words.{
  to_le_bytes, from_le_bytes, length-to_le_bytes, from_le_bytes-to_le_bytes,
}
use iroh_nix.Error.{ok}
use iroh_nix.Build.Types.{DrvHash, BuildQueue}
use iroh_nix.NixProtocol.{read_exact}
use iroh_nix.NixProtocol.RoundTrip.{read_exact_prefix}
use iroh_nix.Control.{ControlRequest, ControlResponse, handle_control_request}
use iroh_nix.Control.Frames.{
  max_frame_size, to_be_bytes, from_be_bytes, write_frame, read_frame_body, answer_frame,
  serve_request, serve_body, serve_head, serve_turn, decoded, read_response,
}

pub from_be_bytes-to_be_bytes : (w n : ℕ) → n < 256 ^ w → from_be_bytes (to_be_bytes w n) ≡ n
unfolding from_be_bytes to_be_bytes
from_be_bytes-to_be_bytes w n h =
    ap from_le_bytes (reverse-reverse (to_le_bytes w n)) ∙ from_le_bytes-to_le_bytes w n h

length-reverse : (b : Bytes) → length (reverse b) ≡ length b
length-reverse [] = refl
length-reverse (x ∷ b) =
    ap length (reverse-cons x b)
    ∙ omega (arith, length-append (reverse b) (x ∷ []), length-reverse b)

length-to_be_bytes : (w n : ℕ) → length (to_be_bytes w n) ≡ w
unfolding to_be_bytes
length-to_be_bytes w n = length-reverse (to_le_bytes w n) ∙ length-to_le_bytes w n

pub length-write_frame : (b : Bytes) → length (write_frame b) ≡ 4 + length b
unfolding write_frame
length-write_frame b = omega (
  arith,
  length-append (to_be_bytes 4 (length b % 2 ^ 32)) b,
  length-to_be_bytes 4 (length b % 2 ^ 32),
)

-- The head and the body of a frame that is not too long are read back.
pub frame_head :
    (b rest : Bytes)
    → read_exact 4 (write_frame b ++ rest) ≡ ok (to_be_bytes 4 (length b % 2 ^ 32), b ++ rest)
unfolding write_frame
frame_head b rest = rw (append_assoc (to_be_bytes 4 (length b % 2 ^ 32)) b rest) (
    read_exact_prefix 4 (to_be_bytes 4 (length b % 2 ^ 32)) (b ++ rest)
      (length-to_be_bytes 4 (length b % 2 ^ 32)))

frame_body :
    (message b rest : Bytes)
    → length b ≤ max_frame_size
    → read_frame_body message (from_be_bytes (to_be_bytes 4 (length b % 2 ^ 32))) (b ++ rest)
      ≡ ok (b, rest)
unfolding read_frame_body
frame_body message b rest h =
    let len : from_be_bytes (to_be_bytes 4 (length b % 2 ^ 32)) ≡ length b =
      from_be_bytes-to_be_bytes 4 (length b % 2 ^ 32) (omega arith) ∙ omega arith in
    let short : ltb max_frame_size (length b) ≡ false = ground (arith, h) in
    rw (len, short) (read_exact_prefix (length b) b rest refl)

module _ {EndpointId Sender : Type 0} ⦃e : Eq EndpointId⦄ (blake3_hash : Bytes → DrvHash)
    (show : EndpointId → Bytes) (decode_request : Bytes → Option ControlRequest)
    (encode_response : ControlResponse → Option Bytes)
    (decode_response : Bytes → Option ControlResponse) where
  -- Where the response's JSON is read back as the response and has at most the frame's size: a
  -- request whose JSON has at most the frame's size is handled once, the client reads the handler's
  -- response, and what follows in either direction is left.
  pub exchange :
      (now : ℕ) (q : BuildQueue EndpointId Sender) (request : ControlRequest)
      (sent answer more later : Bytes)
      → decode_request sent ≡ some request
      → length sent ≤ max_frame_size
      → encode_response (handle_control_request blake3_hash show now q request).1 ≡ some answer
      → decode_response answer ≡ some (handle_control_request blake3_hash show now q request).1
      → length answer ≤ max_frame_size
      → (serve_turn blake3_hash show decode_request encode_response now q (write_frame sent ++ more)
          ≡ (
            (handle_control_request blake3_hash show now q request).0,
            ok (some (more, write_frame answer)),
          ))
        × (read_response decode_response (write_frame answer ++ later)
            ≡ ok ((handle_control_request blake3_hash show now q request).1, later))
  unfolding serve_turn serve_head serve_body serve_request answer_frame read_response decoded
  exchange now q request sent answer more later dec small enc back fits = (
    rw (frame_head sent more)
        (rw (frame_body _ sent more small) (rw dec (rw (enc, serve_request, answer_frame)))),
    rw (frame_head answer later) (rw (frame_body _ answer later fits) (rw (back, decoded))),
  )
