-- ===== src/Control/Tests.antt =====
-- Runs of the control requests of iroh-nix/src/control.rs.
use iroh_nix.Support.Lines.{decimal, decimal_from}
use iroh_nix.Support.{
  ℕ, ◌+◌, ◌≡◌, refl, true, Option, some, List, [], ◌∷◌, map, arith, Bytes, eq_nat, eq_bytes, length,
  All,
}
use iroh_nix.Support.Maps.{lookup}
use iroh_nix.Build.Queue.Example.{hash, leased_queue, empty_queue}
use iroh_nix.Build.Queue.{new}
use iroh_nix.Builder.{find_leased}
use iroh_nix.Error.{ok}
use iroh_nix.Control.{
  ControlRequest, ControlResponse, error, poll, handle_control_request, cancel_build, has_builders,
  builders,
}
use iroh_nix.Builder.Stream.{Served}
use iroh_nix.Control.Stream.{handle_control_connection}
use iroh_nix.Control.Session.{
  IsResponse, frames, session, read_responses, handle_control_connection-session,
}
use iroh_nix.Control.Poll.{lease_status, poll_uninterrupted}

abbrev shown : ℕ → Bytes
shown n = n ∷ []

poll_uninterrupted_example :
    poll shown leased_queue leased_queue leased_queue leased_queue 2
    ≡ lease_status shown (lookup 2 leased_queue.leased)
poll_uninterrupted_example = poll_uninterrupted shown leased_queue 2

-- A JSON of two requests and of their responses.
abbrev json_request : Bytes → Option ControlRequest
json_request [] = some (cancel_build 9)
json_request (b ∷ bs) = some (has_builders [])

abbrev response_bytes : ControlResponse → Bytes
response_bytes (error message) = 1 ∷ message
response_bytes r = []

abbrev json_response : ControlResponse → Option Bytes
json_response r = some (response_bytes r)

abbrev read_json_response : Bytes → Option ControlResponse
read_json_response [] = some (builders true 1)
read_json_response (b ∷ message) = some (error message)

abbrev requests : List (ControlRequest × Bytes)
requests = (cancel_build 9, []) ∷ (has_builders [], 0 ∷ []) ∷ []

responses_fit :
    All
      (IsResponse json_response read_json_response response_bytes)
      (session hash shown (λ turn. 20 + turn) 0 empty_queue requests).1
unfolding session handle_control_request find_leased new decimal decimal_from
responses_fit = ((refl, refl, omega arith), ((refl, refl, omega arith), tt))

handle_control_connection-session_example :
    (served : Served ℕ ℕ) × (handle_control_connection hash shown json_request json_response
        (λ turn. 20 + turn)
        empty_queue
        (frames (map (λ (r : ControlRequest × Bytes). r.1) requests))
      ≡ served)
    × (served.queue ≡ (session hash shown (λ turn. 20 + turn) 0 empty_queue requests).0)
    × (served.result ≡ some (ok tt))
    × (read_responses read_json_response (length requests) served.sent
        ≡ ok ((session hash shown (λ turn. 20 + turn) 0 empty_queue requests).1, []))
handle_control_connection-session_example =
    handle_control_connection-session hash shown json_request json_response read_json_response
      response_bytes (λ turn. 20 + turn) empty_queue requests
      ((refl, omega arith), ((refl, omega arith), tt)) responses_fit
