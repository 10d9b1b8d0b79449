-- ===== src/Builder/Leases.antt =====
-- A worker and the requester that it works for, both of iroh-nix/src/builder.rs: which derivation is leased
-- under a job's id while the worker builds it.
use iroh_nix.Support.{
  ℕ, suc, ◌≡◌, refl, sym, ap, ◌∙◌, inl, inr, Option, none, some, List, [], ◌∷◌, arith, Bool-cases,
  Option-cases, Bytes, codes, Eq, eq_nat, eq_bytes, is_empty,
}
use iroh_nix.Support.Maps.{lookup, lookup-insert}
use iroh_nix.Error.{Result, ok, err, panic}
use iroh_nix.Build.Types.{DrvHash, BuildQueue, LogEntry}
use iroh_nix.Build.Queue.{heartbeat}
use iroh_nix.Build.Logs.{broadcast_log}
use iroh_nix.HashIndex.{Table}
use iroh_nix.Builder.{heartbeat_request, build_log, handle_build_queue_request}
use iroh_nix.Builder.Worker.{
  Exchange, Host, BuildEvent, tick, status, log_line, JobContext, chain, tell, watch_build,
  on_requester, on_index, prepare, fetch_dependencies,
}

-- A chain that succeeds: both of its steps do.
pub chain-ok :
    {S A B : Type 0} (m : S × Result A) (next : A → S → S × Result B) (s : S) (b : B)
    → chain m next ≡ (s, ok b)
    → (s1 : S) × (a : A) × (m ≡ (s1, ok a)) × (next a s1 ≡ (s, ok b))
unfolding chain
chain-ok (s1, ok a) next s b h = (s1, a, refl, h)
chain-ok (s1, err e) next s b h = absurd (ground (arith, h))
chain-ok (s1, panic) next s b h = absurd (ground (arith, h))

pub on_requester-ok :
    {S T A : Type 0} (f : S → S × Result A) (s1 s2 : S) (t1 t2 : T) (a : A)
    → on_requester f (s1, t1) ≡ ((s2, t2), ok a)
    → (f s1 ≡ (s2, ok a)) × (t1 ≡ t2)
unfolding on_requester
on_requester-ok {S = S} {T = T} {A = A} f s1 s2 t1 t2 a h =
    (ap (λ (r : (S × T) × Result A). (r.0.0, r.1)) h, ap (λ (r : (S × T) × Result A). r.0.1) h)

pub on_index-ok :
    {S T A : Type 0} (f : T → T × Result A) (s1 s2 : S) (t1 t2 : T) (a : A)
    → on_index f (s1, t1) ≡ ((s2, t2), ok a)
    → s1 ≡ s2
unfolding on_index
on_index-ok {S = S} {T = T} {A = A} f s1 s2 t1 t2 a h = ap (λ (r : (S × T) × Result A). r.0.0) h

-- The requester with the number of the with_requester, which the clock tells the time of: its handler is at the
-- other end of the worker's stream, and no one else uses its queue meanwhile.
abbrev pub Requester : Type 0 → Type 0 → Type 0
Requester EndpointId Sender = BuildQueue EndpointId Sender × ℕ

-- The derivation that is leased under the id.
abbrev pub leased_hash :
    {EndpointId Sender : Type 0} → ℕ → Requester EndpointId Sender → Option DrvHash
leased_hash job_id s = elim (lookup job_id s.0.leased) [
  | none ↦ none
  | some l ↦ some l.job.drv_hash
]

module _ {EndpointId Sender : Type 0} ⦃e : Eq EndpointId⦄ (as_bytes : EndpointId → Bytes)
    (try_send : Sender → LogEntry → Option Sender) (clock : ℕ → ℕ) (builder_id : EndpointId) where
  unfoldable pub with_requester : Exchange (Requester EndpointId Sender)
  with_requester request (q, turn) =
      let (next, response) =
        handle_build_queue_request as_bytes try_send (clock turn) q builder_id request in
      ((next, suc turn), ok response)

  heartbeat-leased_hash :
      (now : ℕ) (q : BuildQueue EndpointId Sender) (id job_id : ℕ) (text : Bytes) (turn : ℕ)
      → leased_hash job_id ((heartbeat now q id builder_id text).0, turn)
        ≡ leased_hash job_id (q, turn)
  unfolding heartbeat
  heartbeat-leased_hash now q id job_id text turn = elim (Option-cases (lookup id q.leased)) [
    | inl missing ↦ ground (arith, missing)
    | inr (l, there) ↦ ground (
      arith,
      there,
      lookup-insert id job_id (record l { last_heartbeat = now; status = text }) q.leased,
      eq_nat.beq_iff id job_id,
    )
  ]

  tell-heartbeat :
      (id job_id : ℕ) (text : Bytes) (s next : Requester EndpointId Sender)
      → tell with_requester (heartbeat_request id text) s ≡ (next, ok tt)
      → leased_hash job_id next ≡ leased_hash job_id s
  unfolding tell with_requester chain handle_build_queue_request
  tell-heartbeat id job_id text (q, turn) next h =
      let same : next ≡ ((heartbeat (clock turn) q id builder_id text).0, suc turn) =
        sym (ap (λ (r : Requester EndpointId Sender × Result (Unit {0})). r.0) h) in
      rw same (heartbeat-leased_hash (clock turn) q id job_id text (suc turn))

  tell-build_log :
      (id job_id : ℕ) (payload : Bytes) (stream : ℕ) (s next : Requester EndpointId Sender)
      → tell with_requester (build_log id payload stream) s ≡ (next, ok tt)
      → leased_hash job_id next ≡ leased_hash job_id s
  unfolding tell with_requester chain handle_build_queue_request broadcast_log
  tell-build_log id job_id payload stream (q, turn) next h =
      ap (leased_hash job_id)
        (sym (ap (λ (r : Requester EndpointId Sender × Result (Unit {0})). r.0) h))

  pub watch_build-leased_hash :
      (id job_id : ℕ) (events : List BuildEvent) (text : Bytes)
      (s next : Requester EndpointId Sender)
      → watch_build with_requester id events text s ≡ (next, ok tt)
      → leased_hash job_id next ≡ leased_hash job_id s
  unfolding watch_build
  watch_build-leased_hash id job_id [] text s next h =
      ap (leased_hash job_id)
        (sym (ap (λ (r : Requester EndpointId Sender × Result (Unit {0})). r.0) h))
  watch_build-leased_hash id job_id (tick ∷ events) text s next h =
      let (s1, done, told, rest) =
        chain-ok (tell with_requester (heartbeat_request id text) s) _ next tt h in
      watch_build-leased_hash id job_id events text s1 next rest
      ∙ tell-heartbeat id job_id text s s1 told
  watch_build-leased_hash id job_id (status other ∷ events) text s next h =
      watch_build-leased_hash id job_id events other s next h
  watch_build-leased_hash id job_id (log_line i payload stream ∷ events) text s next h =
      let (s1, done, told, rest) =
        chain-ok (tell with_requester (build_log i payload stream) s) _ next tt h in
      watch_build-leased_hash id job_id events text s1 next rest
      ∙ tell-build_log i job_id payload stream s s1 told

  pub prepare-leased_hash :
      (host : Host) (ctx : JobContext) (s next : Requester EndpointId Sender) (table last : Table)
      → prepare host with_requester ctx (s, table) ≡ ((next, last), ok tt)
      → leased_hash ctx.job_id next ≡ leased_hash ctx.job_id s
  unfolding prepare
  prepare-leased_hash host ctx s next table last h = elim (Bool-cases (is_empty ctx.input_paths)) [
    | inl nothing ↦
        let same : next ≡ s = ground (arith, nothing, h) in ap (leased_hash ctx.job_id) same
    | inr some_inputs ↦
        let fetched = rw (some_inputs, prepare) at h in
        let (s1, done, told, rest) = chain-ok _ _ (next, last) tt fetched in
        let beaten = on_requester-ok _ s s1.0 table s1.1 done told in
        let kept =
          on_index-ok (fetch_dependencies host ctx.input_paths) s1.0 next s1.1 last tt rest in
        ap (leased_hash ctx.job_id) (sym kept)
        ∙ tell-heartbeat ctx.job_id ctx.job_id (codes "fetching dependencies") s s1.0 beaten.0
  ]
