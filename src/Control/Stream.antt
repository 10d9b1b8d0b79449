-- ===== src/Control/Stream.antt =====
-- A connection on the control socket of iroh-nix/src/control.rs, from its first frame to its end, and the
-- methods of its client. Between the two turns of a connection other tasks may use the queue; here none does.
use iroh_nix.Support.{
  ℕ, zero, suc, Bool, Option, none, some, [], Bytes, codes, Eq, eq_nat, eq_bytes, length,
}
use iroh_nix.Error.{build, protocol, Result, ok, err, panic, ◌>>=◌}
use iroh_nix.Build.Types.{DrvHash, BuildQueue}
use iroh_nix.Builder.Stream.{Served, after_sent, ended}
use iroh_nix.Control.{ControlRequest, ControlResponse, build_submitted, builders, error}
use iroh_nix.Control.Frames.{write_frame, serve_turn, read_response}

module _ {EndpointId Sender : Type 0} ⦃e : Eq EndpointId⦄ (blake3_hash : Bytes → DrvHash)
    (show : EndpointId → Bytes) (decode_request : Bytes → Option ControlRequest)
    (encode_response : ControlResponse → Option Bytes) (clock : ℕ → ℕ) where
  -- The loop, with the rounds that are left and the number of the round, which the clock tells the time of.
  unfoldable pub serve_frames :
      ℕ → ℕ → BuildQueue EndpointId Sender → Bytes → Served EndpointId Sender
  serve_frames zero turn q input = record { queue = q; sent = []; result = none }
  serve_frames (suc fuel) turn q input =
      let (next, outcome) =
        serve_turn blake3_hash show decode_request encode_response (clock turn) q input in
      elim outcome [
        | err failure ↦ ended next (err failure)
        | panic ↦ ended next panic
        | ok more ↦ elim more [
          | none ↦ ended next (ok tt)
          | some (rest, bytes) ↦ after_sent bytes (serve_frames fuel (suc turn) next rest)
        ]
      ]

  unfoldable pub handle_control_connection :
      BuildQueue EndpointId Sender → Bytes → Served EndpointId Sender
  handle_control_connection q input = serve_frames (suc (length input)) 0 q input

module _ (encode_request : ControlRequest → Option Bytes)
    (decode_response : Bytes → Option ControlResponse) where
  -- `ControlClient::request`: what is written, and what is made of the bytes that come back.
  unfoldable pub request : ControlRequest → Bytes → Result (Bytes × (ControlResponse × Bytes))
  request req input = elim (encode_request req) [
    | none ↦ err (protocol (codes "failed to serialize request: "))
    | some req_bytes ↦ do
      answer ← read_response decode_response input
      ok (write_frame req_bytes, answer)
  ]

unfoldable pub submit_result : ControlResponse → Result ℕ
submit_result (build_submitted job_id) = ok job_id
submit_result (error message) = err (build message)
submit_result response = err (protocol (codes "unexpected response to SubmitBuild"))

unfoldable pub builders_result : ControlResponse → Result (Bool × ℕ)
builders_result (builders available count) = ok (available, count)
builders_result (error message) = err (build message)
builders_result response = err (protocol (codes "unexpected response to HasBuilders"))
