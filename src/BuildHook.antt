-- ===== src/BuildHook.antt =====
-- iroh-nix/src/build_hook.rs: the settings that nix-daemon sends first, the request for a build,
-- the decision, and the loop that polls the daemon for the outcome. Standard input is the bytes
-- that it has yet to give; the socket to the daemon is its answers.
pub mod Settings
pub mod Polling
mod Tests
use iroh_nix.Support.{
  ℕ, zero, suc, ◌+◌, Bool, not, Option, none, some, List, [], ◌∷◌, ◌++◌, if◌then◌else◌, Bytes,
  codes, ◌==◌, eq_nat, eq_bytes, length,
}
use iroh_nix.Support.Maps.{Map, insert}
use iroh_nix.Error.{Error, build, protocol, Result, ok, err, panic, ◌>>=◌, ◌>>◌}
use iroh_nix.NixProtocol.{read_u32, read_string, read_string_set}
use iroh_nix.Control.{BuildState, pending, building, build_completed, build_failed}

read_pair : Bytes → Result (Option (Bytes × Bytes) × Bytes)
read_pair body = do
  (key, more) ← read_string body
  (value, rest) ← read_string more
  ok (some (key, value), rest)

-- One round of the loop of `read_settings`: `none` at the flag 0.
unfoldable pub read_setting : Bytes → Result (Option (Bytes × Bytes) × Bytes)
unfolding read_pair
read_setting input = do
  (flag, body) ← read_u32 input
  if flag == 0
      then ok (none, body)
      else if not (flag == 1)
      then err (protocol (codes "unexpected settings flag: "))
      else read_pair body

-- What the loop does with a round: `rest` is the loop with the rounds that are left. `none` is no
-- outcome of the program: the rounds were used up.
settings_step :
    (Map Bytes Bytes → Bytes → Option (Result (Map Bytes Bytes × Bytes)))
    → Map Bytes Bytes
    → Result (Option (Bytes × Bytes) × Bytes)
    → Option (Result (Map Bytes Bytes × Bytes))
settings_step rest settings (ok (none, input)) = some (ok (settings, input))
settings_step rest settings (ok (some (key, value), input)) = rest (insert key value settings) input
settings_step rest settings (err e) = some (err e)
settings_step rest settings panic = some panic

unfoldable pub settings_loop :
    ℕ → Map Bytes Bytes → Bytes → Option (Result (Map Bytes Bytes × Bytes))
unfolding settings_step
settings_loop zero settings input = none
settings_loop (suc fuel) settings input =
    settings_step (λ m rest. settings_loop fuel m rest) settings (read_setting input)

-- Each round takes a byte at least.
unfoldable pub read_settings : Bytes → Option (Result (Map Bytes Bytes × Bytes))
unfolding settings_loop
read_settings input = settings_loop (suc (length input)) [] input

-- What nix-daemon sends for a build, behind the word "try".
pub record BuildRequest : Type 0 where
  pub am_willing : ℕ
  pub needed_system : Bytes
  pub drv_path : Bytes
  pub required_features : List Bytes

-- The reads of a round: `none` where the loop is left, at the end of the input or at another word.
unfoldable pub read_request : Bytes → Result (Option (BuildRequest × Bytes))
read_request input = elim (read_string input) [
  | panic ↦ panic
  | err e ↦ ok none
  | ok (word, body) ↦ if not (word == codes "try") then ok none else do
    (am_willing, a) ← read_u32 body
    (needed_system, b) ← read_string a
    (drv_path, c) ← read_string b
    (required_features, d) ← read_string_set c
    ok (
        some (
          record {
            am_willing = am_willing;
            needed_system = needed_system;
            drv_path = drv_path;
            required_features = required_features;
          },
          d,
        ))
]

-- The decision that is written, by whether the daemon knows of builders.
unfoldable pub decision : Bool → BuildRequest → Bytes
decision available r =
    if available
    then codes "# accept\n"
    else if r.am_willing == 0
    then codes "# postpone\n"
    else codes "# decline\n"

-- The loop that polls, over the answers of the daemon in their order: `none` where it polls on
-- when they are used up.
unfoldable pub poll_loop : List (Result BuildState) → Option (Result (Unit {0}))
poll_loop [] = none
poll_loop (err e ∷ answers) = some (err e)
poll_loop (panic ∷ answers) = some panic
poll_loop (ok pending ∷ answers) = poll_loop answers
poll_loop (ok (building builder_id) ∷ answers) = poll_loop answers
poll_loop (ok (build_completed outputs) ∷ answers) = some (ok tt)
poll_loop (ok (build_failed message) ∷ answers) =
    some (err (build (codes "remote build failed: " ++ message)))
