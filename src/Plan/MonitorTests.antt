-- ===== src/Plan/MonitorTests.antt =====
-- The loop of `build_push` with one job, which a builder completes and whose output it then serves.
use iroh_nix.Support.{
  ℕ, ◌≡◌, refl, true, false, Option, none, some, List, [], ◌∷◌, Bytes, codes, eq_nat, eq_bytes,
  length, replicate, is_empty,
}
use iroh_nix.Support.Maps.{lookup, insert, erase}
use iroh_nix.Error.{protocol, ok, err, panic}
use iroh_nix.Build.Types.{BuildResult, LeasedJob}
use iroh_nix.Build.Queue.{complete, take_pending_fetches, has_pending_fetches, stats}
use iroh_nix.Build.Queue.Calls.{completes, apply, run}
use iroh_nix.Retry.{Floats, RetryConfig, with_retry, with_retry_stats, retry_loop}
use iroh_nix.Transfer.{NarResponseHeader, Postcard}
use iroh_nix.Transfer.Client.{Peer, fetch_nar_with_config, fetch_nar_once}
use iroh_nix.Node.{System, fetch_from_with_config, record_fetch}
use iroh_nix.Plan.Monitor.{
  announcement_tick, slept, all_completed, Round, Monitor, finished, fetch_by_id, fetch_output,
  fetch_outputs, fetch_result, fetch_results, watched, fetch_completed, announce_again, woken,
  monitor,
}
use iroh_nix.Plan.Asked.{asked}
use iroh_nix.Plan.Wakes.{completions}
use iroh_nix.Plan.Watched.{monitor-all_completed}

abbrev header : NarResponseHeader
header = record { size = 3; sha256 = replicate 32 4; store_path = codes "/nix/store/abc-hello" }

-- An encoding of this one header.
abbrev codec : Postcard
codec = record {
  encode_request = λ r. [];
  decode_request = λ s. none;
  encode_header = λ h. 1 ∷ [];
  decode_header = λ s. some header;
}

abbrev hash : Bytes → Bytes
hash s = replicate 32 (length s)

abbrev peer : Peer
peer = record {
  connects = true;
  opens = true;
  answer = λ request. 1 ∷ 1 ∷ 0 ∷ 0 ∷ 0 ∷ 1 ∷ 5 ∷ 6 ∷ 7 ∷ [];
  chunk = λ input n. n;
  from_utf8_lossy = λ s. s;
}

-- Numbers without a value, where no delay depends on one.
abbrev still : Floats (Unit {0})
still = record {
  zero_point = tt;
  one_half = tt;
  two = tt;
  as_secs_f64 = λ n. tt;
  from_secs_f64 = λ x. 0;
  times = λ x y. tt;
  plus = λ x y. tt;
  minus = λ x y. tt;
  smaller = λ x y. tt;
  larger = λ x y. tt;
  powi = λ x n. tt;
  exceeds = λ x y. false;
  random = λ attempt. tt;
}

abbrev config : RetryConfig (Unit {0})
config = record {
  max_retries = 3;
  initial_delay = 1;
  max_delay = 9;
  backoff_multiplier = tt;
  jitter = tt;
}

abbrev system : System
system = record {
  query = λ path. err (protocol []);
  base64_decode = λ s. none;
  serialize_path = λ path. err (protocol []);
  stores = true;
}

abbrev first_byte : Bytes → Option ℕ
first_byte [] = none
first_byte (b ∷ s) = some b

abbrev result : BuildResult
result = record {
  job_id = 1;
  drv_hash = codes "app.drv";
  builder = 5 ∷ [];
  outputs =
      record {
        store_path = codes "/nix/store/abc-hello";
        blake3 = replicate 32 3;
        sha256 = replicate 32 4;
        nar_size = 3;
      }
      ∷ [];
  signature_r = [];
  signature_s = [];
}

abbrev leased_job : LeasedJob ℕ
leased_job = record {
  job = record {
    id = 2;
    drv_hash = codes "lib.drv";
    drv_path = codes "lib.drv";
    system_features = [];
    outputs = [];
    input_paths = [];
    submitted_at = 0;
  };
  builder = 5;
  leased_at = 0;
  last_heartbeat = 0;
  status = [];
}

abbrev start : Monitor ℕ ℕ
start = record {
  queue = record {
    our_id = 9;
    next_job_id = 2;
    pending = [];
    leased = (2, leased_job) ∷ [];
    finished = [];
    pending_fetch = result ∷ [];
    needed_features = none;
    log_subscribers = [];
  };
  index = [];
  fetched_outputs = 0;
  fetches = [];
  imports = [];
  announcements = [];
}

abbrev rounds : List (Round ℕ)
rounds =
    record { before = []; wake = announcement_tick; during = [] }
    ∷ record { before = completes 2 5 result ∷ []; wake = slept; during = [] }
    ∷ []

-- The builder does not answer.
abbrev gone : Peer
gone = record peer { connects = false }

abbrev no_retry : RetryConfig (Unit {0})
no_retry = record config { max_retries = 0 }

abbrev last_state : Monitor ℕ ℕ
last_state =
    elim (monitor (λ s. s) first_byte system still codec hash (λ turn id k. gone) no_retry [] 0
      rounds start) [ ok x ↦ x.0 | err e ↦ start | panic ↦ start ]

ends :
    monitor
      (λ s. s)
      first_byte
      system
      still
      codec
      hash
      (λ turn id k. gone)
      no_retry
      []
      0
      rounds
      start
    ≡ ok (last_state, all_completed)
unfolding monitor woken announce_again fetch_completed watched fetch_results fetch_result
    fetch_outputs fetch_output fetch_by_id fetch_from_with_config record_fetch fetch_nar_with_config
    with_retry with_retry_stats retry_loop fetch_nar_once run apply complete take_pending_fetches
    has_pending_fetches stats finished lookup insert erase is_empty
ends = refl

monitor-all_completed_example :
    (last_state.queue.pending ≡ [])
    × (last_state.queue.leased ≡ [])
    × (last_state.queue.pending_fetch ≡ [])
    × (last_state.fetches ≡ asked first_byte (result ∷ completions (λ s. s) rounds start.queue))
monitor-all_completed_example =
    monitor-all_completed (λ s. s) first_byte system still codec hash (λ turn id k. gone) no_retry
      [] 0 rounds start last_state refl ends
