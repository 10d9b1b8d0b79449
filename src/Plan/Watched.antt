-- ===== src/Plan/Watched.antt =====
-- iroh-nix/src/main.rs: what has happened when the loop of `build_push` finds all builds completed.
use iroh_nix.Support.{
  ℕ, suc, ◌≡◌, refl, ap, true, ◌&&◌, Option, List, [], ◌∷◌, ◌++◌, arith, Bool-cases, Bytes, Eq,
  eq_nat, eq_bytes, length, all,
}
use mathlib.Core.Path.{subst}
use iroh_nix.Error.{Result, ok, >>=-eq-ok}
use iroh_nix.Build.Types.{DrvHash}
use iroh_nix.Build.Queue.{stats}
use iroh_nix.Build.Queue.Calls.{Call, run}
use iroh_nix.Build.Queue.Fetches.{leaves_fetches}
use iroh_nix.Retry.{Floats, RetryConfig}
use iroh_nix.Transfer.{Postcard}
use iroh_nix.Transfer.Client.{Peer}
use iroh_nix.Node.{System}
use iroh_nix.Plan.{DrvInfo}
use iroh_nix.Plan.Monitor.{
  Wake, cancelled, announcement_tick, slept, Watch, running, stopped, all_completed, Round, Monitor,
  finished, fetch_completed, announce_again, woken, monitor,
}
use iroh_nix.Plan.Asked.{asked, Asks, ok-injective}
use iroh_nix.Plan.Wakes.{
  leaves_all, completions, Done, Done-announced, Done-running, Done-completed, fetch_completed_lem,
  announce_again_lem, finished-empty,
}

empty : {A : Type 0} (xs : List A) → length xs ≡ 0 → xs ≡ []
empty [] h = refl
empty (x ∷ xs) h = absurd (omega (arith, h))

module _ {EndpointId Sender : Type 0} ⦃e : Eq EndpointId⦄ (drv_hash : Bytes → DrvHash)
    (from_bytes : Bytes → Option EndpointId) (system : System) {Float : Type 0}
    (floats : Floats Float) (postcard : Postcard) (blake3_hash : Bytes → Bytes)
    (peers : ℕ → EndpointId → ℕ → Peer) (config : RetryConfig Float) (to_build : List DrvInfo) where
  -- What the loop makes of a wake.
  abbrev after_wake :
      ℕ
      → List (Round EndpointId)
      → Monitor EndpointId Sender
      → Watch
      → Result (Monitor EndpointId Sender × Watch)
  after_wake turn rs s running =
      monitor drv_hash from_bytes system floats postcard blake3_hash peers config to_build turn rs s
  after_wake turn rs s stopped = ok (s, stopped)
  after_wake turn rs s all_completed = ok (s, all_completed)

  slept-Done :
      (turn : ℕ) (before during : List (Call EndpointId)) (rs : List (Round EndpointId))
      (m s next : Monitor EndpointId Sender) (w : Watch)
      → all leaves_fetches before ≡ true
      → all leaves_fetches during ≡ true
      → fetch_completed drv_hash from_bytes system floats postcard blake3_hash peers config to_build
          turn during
          (record m { queue = run drv_hash before m.queue })
        ≡ ok (s, w)
      → after_wake (suc turn) rs s w ≡ ok (next, all_completed)
      → (monitor drv_hash from_bytes system floats postcard blake3_hash peers config to_build
              (suc turn)
              rs
              s
            ≡ ok (next, all_completed)
          → Done drv_hash from_bytes rs s next)
      → Done drv_hash from_bytes
          (record { before = before; wake = slept; during = during } ∷ rs)
          m
          next
  slept-Done turn before during rs m s next running kept kept_on h rest ih =
      let (fetches, queue, end) =
        fetch_completed_lem drv_hash from_bytes system floats postcard blake3_hash peers config
          to_build turn during (record m { queue = run drv_hash before m.queue }) s running h in
      Done-running drv_hash from_bytes system floats postcard blake3_hash peers config to_build
        before during rs m s next kept kept_on fetches queue
        (ground (arith, end, Bool-cases (finished s.queue))) (ih rest)
  slept-Done turn before during rs m s next stopped kept kept_on h rest ih = ground (arith, rest)
  slept-Done turn before during rs m s next all_completed kept kept_on h rest ih =
      let (fetches, queue, end) =
        fetch_completed_lem drv_hash from_bytes system floats postcard blake3_hash peers config
          to_build turn during (record m { queue = run drv_hash before m.queue }) s all_completed
          h in
      Done-completed drv_hash from_bytes system floats postcard blake3_hash peers config to_build
        before during rs m s next kept kept_on fetches queue
        (ground (arith, end, Bool-cases (finished s.queue)))
        (ap (λ (x : Monitor EndpointId Sender × Watch). x.0) (ok-injective rest))

  tick-Done :
      (turn : ℕ) (before during : List (Call EndpointId)) (rs : List (Round EndpointId))
      (m s next : Monitor EndpointId Sender) (w : Watch)
      → all leaves_fetches before ≡ true
      → (announce_again drv_hash from_bytes system floats postcard blake3_hash peers config to_build
            (record m { queue = run drv_hash before m.queue })
          ≡ s)
        × (running ≡ w)
      → after_wake (suc turn) rs s w ≡ ok (next, all_completed)
      → (monitor drv_hash from_bytes system floats postcard blake3_hash peers config to_build
              (suc turn)
              rs
              s
            ≡ ok (next, all_completed)
          → Done drv_hash from_bytes rs s next)
      → Done drv_hash from_bytes
          (record { before = before; wake = announcement_tick; during = during } ∷ rs)
          m
          next
  tick-Done turn before during rs m s next running kept (same, on) rest ih =
      Done-announced drv_hash from_bytes system floats postcard blake3_hash peers config to_build
        before during rs m s next kept
        (subst (λ x. Asks [] (record m { queue = run drv_hash before m.queue }) x) same
          (announce_again_lem drv_hash from_bytes system floats postcard blake3_hash peers config
            to_build (record m { queue = run drv_hash before m.queue })))
        (ih rest)
  tick-Done turn before during rs m s next stopped kept (same, on) rest ih = cc
  tick-Done turn before during rs m s next all_completed kept (same, on) rest ih = cc

  woken-Done :
      (turn : ℕ) (before : List (Call EndpointId)) (wake : Wake) (during : List (Call EndpointId))
      (rs : List (Round EndpointId)) (m s next : Monitor EndpointId Sender) (w : Watch)
      → all leaves_fetches before && all leaves_fetches during ≡ true
      → woken drv_hash from_bytes system floats postcard blake3_hash peers config to_build turn
          (record { before = before; wake = wake; during = during })
          (record m { queue = run drv_hash before m.queue })
        ≡ ok (s, w)
      → after_wake (suc turn) rs s w ≡ ok (next, all_completed)
      → (monitor drv_hash from_bytes system floats postcard blake3_hash peers config to_build
              (suc turn)
              rs
              s
            ≡ ok (next, all_completed)
          → Done drv_hash from_bytes rs s next)
      → Done drv_hash from_bytes
          (record { before = before; wake = wake; during = during } ∷ rs)
          m
          next
  unfolding woken
  woken-Done turn before cancelled during rs m s next running kept h rest ih = ground (arith, h)
  woken-Done turn before cancelled during rs m s next stopped kept h rest ih = ground (arith, rest)
  woken-Done turn before cancelled during rs m s next all_completed kept h rest ih =
      ground (arith, h)
  woken-Done turn before announcement_tick during rs m s next w kept h rest ih =
      let same = ok-injective h in
      tick-Done turn before during rs m s next w (ground (arith, kept))
        (
          ap (λ (x : Monitor EndpointId Sender × Watch). x.0) same,
          ap (λ (x : Monitor EndpointId Sender × Watch). x.1) same,
        )
        rest ih
  woken-Done turn before slept during rs m s next w kept h rest ih =
      slept-Done turn before during rs m s next w (ground (arith, kept)) (ground (arith, kept)) h
        rest ih

  monitor-step :
      (turn : ℕ) (r : Round EndpointId) (rs : List (Round EndpointId))
      (m next : Monitor EndpointId Sender)
      → monitor drv_hash from_bytes system floats postcard blake3_hash peers config to_build turn
          (r ∷ rs)
          m
        ≡ ok (next, all_completed)
      → (s : Monitor EndpointId Sender) × (w : Watch) × (woken drv_hash from_bytes system floats
            postcard blake3_hash peers config to_build turn r
            (record m { queue = run drv_hash r.before m.queue })
          ≡ ok (s, w))
        × (after_wake (suc turn) rs s w ≡ ok (next, all_completed))
  unfolding monitor
  monitor-step turn r rs m next h =
      let (got, first, rest) =
        >>=-eq-ok
          (woken drv_hash from_bytes system floats postcard blake3_hash peers config to_build turn r
            (record m { queue = run drv_hash r.before m.queue }))
          _ h in
      (got.0, got.1, first, rest)

  monitor-Done :
      (turn : ℕ) (rounds : List (Round EndpointId)) (m next : Monitor EndpointId Sender)
      → leaves_all rounds ≡ true
      → monitor drv_hash from_bytes system floats postcard blake3_hash peers config to_build turn
          rounds m
        ≡ ok (next, all_completed)
      → Done drv_hash from_bytes rounds m next
  monitor-Done turn [] m next kept h = unfold monitor in ground (arith, h)
  monitor-Done turn (r ∷ rs) m next kept h =
      let (s, w, first, rest) = monitor-step turn r rs m next h in
      woken-Done turn r.before r.wake r.during rs m s next w (ground (arith, kept)) first rest
        (monitor-Done (suc turn) rs s next (ground (arith, kept)))

  -- If no other task takes the results to fetch: when the loop has found all builds completed, no job is
  -- pending or
  -- leased and no result is to be fetched, and what the loop has asked of builders are the outputs of the
  -- results
  -- that there were and of those whose completion was accepted since, in this order and each once.
  pub monitor-all_completed :
      (turn : ℕ) (rounds : List (Round EndpointId)) (m next : Monitor EndpointId Sender)
      → leaves_all rounds ≡ true
      → monitor drv_hash from_bytes system floats postcard blake3_hash peers config to_build turn
          rounds m
        ≡ ok (next, all_completed)
      → (next.queue.pending ≡ [])
        × (next.queue.leased ≡ [])
        × (next.queue.pending_fetch ≡ [])
        × (next.fetches
            ≡ m.fetches
              ++ asked from_bytes (m.queue.pending_fetch ++ completions drv_hash rounds m.queue))
  unfolding finished stats
  monitor-all_completed turn rounds m next kept h =
      let (end, got) = monitor-Done turn rounds m next kept h in
      (
        empty next.queue.pending (ground (arith, end)),
        empty next.queue.leased (ground (arith, end)),
        finished-empty drv_hash from_bytes system floats postcard blake3_hash peers config to_build
            next.queue end,
        got,
      )
