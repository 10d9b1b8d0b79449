-- ===== src/Plan/Wakes.antt =====
-- iroh-nix/src/main.rs: what a wake of the loop of `build_push` adds to what it has asked of the builders.
use iroh_nix.Support.{
  ℕ, ◌≡◌, refl, sym, ap, ◌∙◌, inl, inr, Bool, true, false, ◌&&◌, Option, List, [], ◌∷◌, ◌++◌,
  append-nil, append_assoc, arith, ltb, if◌then◌else◌, Bool-cases, Bytes, Eq, eq_nat, eq_bytes, all,
  is_empty,
}
use mathlib.Core.Path.{subst}
use iroh_nix.Error.{ok, >>=-eq-ok}
use iroh_nix.Build.Types.{DrvHash, BuildResult, BuildQueue}
use iroh_nix.Build.Queue.{take_pending_fetches, has_pending_fetches, stats}
use iroh_nix.Build.Queue.Calls.{Call, run}
use iroh_nix.Build.Queue.Fetches.{leaves_fetches, accepted_all, run_fetch}
use iroh_nix.Retry.{Floats, RetryConfig}
use iroh_nix.Transfer.{Postcard}
use iroh_nix.Transfer.Client.{Peer}
use iroh_nix.Node.{System}
use iroh_nix.Plan.{DrvInfo}
use iroh_nix.Plan.Monitor.{
  cancelled, announcement_tick, slept, Watch, running, all_completed, Round, Monitor, finished,
  fetch_results, watched, fetch_completed, announce_again,
}
use iroh_nix.Plan.Asked.{asked, asked-append, Asks, ok-injective, fetch_results-Asks}

-- No other task takes the results.
abbrev pub leaves_all : {EndpointId : Type 0} → List (Round EndpointId) → Bool
leaves_all rounds = all (λ r. all leaves_fetches r.before && all leaves_fetches r.during) rounds

module _ {EndpointId Sender : Type 0} ⦃e : Eq EndpointId⦄ (drv_hash : Bytes → DrvHash) where
  -- The results of the completions that are accepted until the loop ends.
  unfoldable pub completions :
      List (Round EndpointId) → BuildQueue EndpointId Sender → List BuildResult
  completions [] q = []
  completions (r ∷ rs) q =
      let q1 = run drv_hash r.before q in
      let emptied = (take_pending_fetches q1).0 in
      let q2 = run drv_hash r.during emptied in
      let later = completions rs in
      accepted_all drv_hash r.before q ++ elim r.wake [
        | cancelled ↦ []
        | announcement_tick ↦ later q1
        | slept ↦ accepted_all drv_hash r.during emptied ++ (if finished q2 then [] else later q2)
      ]

-- The loop has ended, and this is what it has asked for.
abbrev pub Done :
    {EndpointId Sender : Type 0}
    → ⦃e : Eq EndpointId⦄ → (Bytes → DrvHash)
    → (Bytes → Option EndpointId)
    → List (Round EndpointId)
    → Monitor EndpointId Sender
    → Monitor EndpointId Sender
    → Type 0
Done drv_hash from_bytes rounds m next =
    (finished next.queue ≡ true)
    × (next.fetches
        ≡ m.fetches
          ++ asked from_bytes (m.queue.pending_fetch ++ completions drv_hash rounds m.queue))

module _ {EndpointId Sender : Type 0} ⦃e : Eq EndpointId⦄ (drv_hash : Bytes → DrvHash)
    (from_bytes : Bytes → Option EndpointId) (system : System) {Float : Type 0}
    (floats : Floats Float) (postcard : Postcard) (blake3_hash : Bytes → Bytes)
    (peers : ℕ → EndpointId → ℕ → Peer) (config : RetryConfig Float) (to_build : List DrvInfo) where
  abbrev end_of : BuildQueue EndpointId Sender → Watch
  end_of q = if finished q then all_completed else running

  pub fetch_completed_lem :
      (turn : ℕ) (during : List (Call EndpointId)) (m s : Monitor EndpointId Sender) (w : Watch)
      → fetch_completed drv_hash from_bytes system floats postcard blake3_hash peers config to_build
          turn during m
        ≡ ok (s, w)
      → (s.fetches ≡ m.fetches ++ asked from_bytes m.queue.pending_fetch)
        × (s.queue ≡ run drv_hash during (take_pending_fetches m.queue).0)
        × (w ≡ end_of s.queue)
  unfolding fetch_completed watched take_pending_fetches
  fetch_completed_lem turn during m s w h =
      let emptied = record m { queue = (take_pending_fetches m.queue).0 } in
      let (mid, first, rest) =
        >>=-eq-ok
          (fetch_results drv_hash from_bytes system floats postcard blake3_hash peers config
            to_build turn m.queue.pending_fetch emptied)
          _ h in
      let (fetches, queue) =
        fetch_results-Asks drv_hash from_bytes system floats postcard blake3_hash peers config
          to_build turn m.queue.pending_fetch emptied mid first in
      let same = ok-injective rest in
      let last = sym (ap (λ (x : Monitor EndpointId Sender × Watch). x.0.queue) same) in
      (
        sym (ap (λ (x : Monitor EndpointId Sender × Watch). x.0.fetches) same) ∙ fetches,
        last ∙ ap (run drv_hash during) queue,
        sym (ap (λ (x : Monitor EndpointId Sender × Watch). x.1) same) ∙ ap end_of (sym last),
      )

  pub announce_again_lem :
      (m : Monitor EndpointId Sender)
      → Asks [] m (
          announce_again drv_hash from_bytes system floats postcard blake3_hash peers config
            to_build m)
  unfolding announce_again
  announce_again_lem m = elim (Bool-cases (ltb 0 (stats m.queue).pending_count)) [
    | inl e ↦ rw e (sym (append-nil m.fetches), refl)
    | inr e ↦ rw e (sym (append-nil m.fetches), refl)
  ]

  pub Done-announced :
      (before during : List (Call EndpointId)) (rs : List (Round EndpointId))
      (m s next : Monitor EndpointId Sender)
      → all leaves_fetches before ≡ true
      → Asks [] (record m { queue = run drv_hash before m.queue }) s
      → Done drv_hash from_bytes rs s next
      → Done drv_hash from_bytes
          (record { before = before; wake = announcement_tick; during = during } ∷ rs)
          m
          next
  unfolding completions
  Done-announced before during rs m s next kept (fetches, queue) (end, got) =
      let q1 = run drv_hash before m.queue in
      (
        end,
        got
            ∙ ap
                (λ f.
                  f ++ asked from_bytes (s.queue.pending_fetch ++ completions drv_hash rs s.queue))
                (fetches ∙ append-nil m.fetches)
            ∙ ap
                (λ (q : BuildQueue EndpointId Sender).
                  m.fetches ++ asked from_bytes (q.pending_fetch ++ completions drv_hash rs q))
                queue
            ∙ ap (λ l. m.fetches ++ asked from_bytes (l ++ completions drv_hash rs q1))
                (run_fetch drv_hash before m.queue kept)
            ∙ ap (λ l. m.fetches ++ asked from_bytes l)
                (append_assoc m.queue.pending_fetch (accepted_all drv_hash before m.queue)
                  (completions drv_hash rs q1)),
      )

  run_emptied :
      (during : List (Call EndpointId)) (q : BuildQueue EndpointId Sender)
      → all leaves_fetches during ≡ true
      → (run drv_hash during (take_pending_fetches q).0).pending_fetch
        ≡ accepted_all drv_hash during (take_pending_fetches q).0
  unfolding take_pending_fetches
  run_emptied during q kept = run_fetch drv_hash during (record q { pending_fetch = [] }) kept

  pub finished-empty : (q : BuildQueue EndpointId Sender) → finished q ≡ true → q.pending_fetch ≡ []
  unfolding finished has_pending_fetches is_empty
  finished-empty q h = ground (arith, h)

  -- The requests of the results that were there and of those that came before the wake.
  asked_before :
      (before : List (Call EndpointId)) (m s : Monitor EndpointId Sender) (later : List BuildResult)
      → all leaves_fetches before ≡ true
      → s.fetches ≡ m.fetches ++ asked from_bytes (run drv_hash before m.queue).pending_fetch
      → s.fetches ++ asked from_bytes later
        ≡ m.fetches
          ++ asked from_bytes
              (m.queue.pending_fetch ++ (accepted_all drv_hash before m.queue ++ later))
  asked_before before m s later kept fetches =
      let q1 = run drv_hash before m.queue in
      ap (λ f. f ++ asked from_bytes later) fetches
      ∙ append_assoc m.fetches (asked from_bytes q1.pending_fetch) (asked from_bytes later)
      ∙ ap (λ l. m.fetches ++ l) (sym (asked-append from_bytes q1.pending_fetch later))
      ∙ ap (λ l. m.fetches ++ asked from_bytes (l ++ later))
          (run_fetch drv_hash before m.queue kept)
      ∙ ap (λ l. m.fetches ++ asked from_bytes l)
          (append_assoc m.queue.pending_fetch (accepted_all drv_hash before m.queue) later)

  module _ (before during : List (Call EndpointId)) (rs : List (Round EndpointId))
      (m s next : Monitor EndpointId Sender) (kept : all leaves_fetches before ≡ true)
      (kept_on : all leaves_fetches during ≡ true)
      (fetches : s.fetches
        ≡ m.fetches ++ asked from_bytes (run drv_hash before m.queue).pending_fetch)
      (queue : s.queue
        ≡ run drv_hash during (take_pending_fetches (run drv_hash before m.queue)).0) where
    abbrev emptied : BuildQueue EndpointId Sender
    emptied = (take_pending_fetches (run drv_hash before m.queue)).0

    pub Done-running :
        finished s.queue ≡ false
        → Done drv_hash from_bytes rs s next
        → Done drv_hash from_bytes
            (record { before = before; wake = slept; during = during } ∷ rs)
            m
            next
    unfolding completions
    Done-running more (end, got) =
        let q2 = run drv_hash during emptied in
        let going : finished q2 ≡ false = subst (λ q. finished q ≡ false) queue more in
        let later = accepted_all drv_hash during emptied ++ completions drv_hash rs q2 in
        (
          end,
          rw going (
              got
              ∙ ap
                  (λ (q : BuildQueue EndpointId Sender).
                    s.fetches ++ asked from_bytes (q.pending_fetch ++ completions drv_hash rs q))
                  queue
              ∙ ap (λ l. s.fetches ++ asked from_bytes (l ++ completions drv_hash rs q2))
                  (run_emptied during (run drv_hash before m.queue) kept_on)
              ∙ asked_before before m s later kept fetches),
        )

    pub Done-completed :
        finished s.queue ≡ true
        → s ≡ next
        → Done drv_hash from_bytes
            (record { before = before; wake = slept; during = during } ∷ rs)
            m
            next
    unfolding completions asked
    Done-completed over same =
        let q2 = run drv_hash during emptied in
        let ended : finished q2 ≡ true = subst (λ q. finished q ≡ true) queue over in
        let nothing : accepted_all drv_hash during emptied ≡ [] =
          sym (run_emptied during (run drv_hash before m.queue) kept_on)
          ∙ finished-empty q2 ended in
        (
          subst (λ (x : Monitor EndpointId Sender). finished x.queue ≡ true) same over,
          rw (ended, nothing)
              (sym (ap (λ (x : Monitor EndpointId Sender). x.fetches) same)
                ∙ sym (append-nil s.fetches)
                ∙ asked_before before m s [] kept fetches),
        )
