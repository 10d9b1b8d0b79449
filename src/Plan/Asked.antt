-- ===== src/Plan/Asked.antt =====
-- iroh-nix/src/main.rs: what the fetches of the loop of `build_push` ask of the builders.
use iroh_nix.Support.{
  ℕ, ◌≡◌, refl, sym, ap, ◌∙◌, inl, inr, Option, none, some, List, [], ◌∷◌, ◌++◌, map, append-nil,
  append_assoc, arith, Option-cases, Bytes, Eq, eq_nat, eq_bytes,
}
use iroh_nix.Error.{ok, >>=-eq-ok, Result-cases}
use iroh_nix.Build.Types.{DrvHash, BuildOutput, BuildResult}
use iroh_nix.Retry.{Floats, RetryConfig}
use iroh_nix.Transfer.{Postcard}
use iroh_nix.Transfer.Client.{Peer}
use iroh_nix.Node.{System}
use iroh_nix.Plan.{DrvInfo}
use iroh_nix.Plan.Monitor.{
  Monitor, fetch_by_id, fetch_output, fetch_outputs, fetch_result, fetch_results,
}

-- What is asked of the builder for a result, and for each of several.
unfoldable pub requests_of :
    {EndpointId : Type 0} → (Bytes → Option EndpointId) → BuildResult → List (EndpointId × Bytes)
requests_of from_bytes r = elim (from_bytes r.builder) [
  | none ↦ []
  | some id ↦ map (λ (o : BuildOutput). (id, o.blake3)) r.outputs
]

unfoldable pub asked :
    {EndpointId : Type 0}
    → (Bytes → Option EndpointId)
    → List BuildResult
    → List (EndpointId × Bytes)
asked from_bytes [] = []
asked from_bytes (r ∷ rs) = requests_of from_bytes r ++ asked from_bytes rs

requests_of-some :
    {EndpointId : Type 0} (from_bytes : Bytes → Option EndpointId) (r : BuildResult)
    (id : EndpointId)
    → from_bytes r.builder ≡ some id
    → requests_of from_bytes r ≡ map (λ (o : BuildOutput). (id, o.blake3)) r.outputs
unfolding requests_of
requests_of-some from_bytes r id h = simp (h, requests_of)

pub asked-append :
    {EndpointId : Type 0} (from_bytes : Bytes → Option EndpointId) (xs ys : List BuildResult)
    → asked from_bytes (xs ++ ys) ≡ asked from_bytes xs ++ asked from_bytes ys
unfolding asked
asked-append from_bytes [] ys = refl
asked-append from_bytes (x ∷ xs) ys =
    rw (asked-append from_bytes xs ys)
      (sym (append_assoc _ (asked from_bytes xs) (asked from_bytes ys)))

-- The second state is the first with these requests made.
abbrev pub Asks :
    {EndpointId Sender : Type 0}
    → List (EndpointId × Bytes)
    → Monitor EndpointId Sender
    → Monitor EndpointId Sender
    → Type 0
Asks requests m next = (next.fetches ≡ m.fetches ++ requests) × (next.queue ≡ m.queue)

pub ok-injective : {A : Type 0} {a b : A} → ok a ≡ ok b → a ≡ b
ok-injective h = ground (arith, h)

module _ {EndpointId Sender : Type 0} ⦃e : Eq EndpointId⦄ (drv_hash : Bytes → DrvHash)
    (from_bytes : Bytes → Option EndpointId) (system : System) {Float : Type 0}
    (floats : Floats Float) (postcard : Postcard) (blake3_hash : Bytes → Bytes)
    (peers : ℕ → EndpointId → ℕ → Peer) (config : RetryConfig Float) (to_build : List DrvInfo) where
  fetch_output-Asks :
      (turn : ℕ) (id : EndpointId) (o : BuildOutput) (m next : Monitor EndpointId Sender)
      → fetch_output drv_hash from_bytes system floats postcard blake3_hash peers config to_build
          turn id o m
        ≡ ok next
      → Asks ((id, o.blake3) ∷ []) m next
  unfolding fetch_output
  fetch_output-Asks turn id o m next h =
      elim (Result-cases
        (fetch_by_id system floats postcard blake3_hash peers config turn id o.blake3 m.index).1) [
          | inl (got, made) ↦ (ground (arith, h, made), ground (arith, h, made))
          | inr (inl (x, made)) ↦ (ground (arith, h, made), ground (arith, h, made))
          | inr (inr made) ↦ (ground (arith, h, made), ground (arith, h, made))
        ]

  then-Asks :
      (xs ys : List (EndpointId × Bytes)) (m mid next : Monitor EndpointId Sender)
      → Asks xs m mid
      → Asks ys mid next
      → Asks (xs ++ ys) m next
  then-Asks xs ys m mid next (first, same) (second, last) =
      (second ∙ ap (λ l. l ++ ys) first ∙ append_assoc m.fetches xs ys, last ∙ same)

  none-Asks : (m next : Monitor EndpointId Sender) → m ≡ next → Asks [] m next
  none-Asks m next h = (
    sym (ap (λ (s : Monitor EndpointId Sender). s.fetches) h) ∙ sym (append-nil m.fetches),
    sym (ap (λ (s : Monitor EndpointId Sender). s.queue) h),
  )

  fetch_outputs-Asks :
      (turn : ℕ) (id : EndpointId) (os : List BuildOutput) (m next : Monitor EndpointId Sender)
      → fetch_outputs drv_hash from_bytes system floats postcard blake3_hash peers config to_build
          turn id os m
        ≡ ok next
      → Asks (map (λ (o : BuildOutput). (id, o.blake3)) os) m next
  unfolding fetch_outputs
  fetch_outputs-Asks turn id [] m next h = none-Asks m next (ok-injective h)
  fetch_outputs-Asks turn id (o ∷ os) m next h =
      let (mid, first, rest) =
        >>=-eq-ok
          (fetch_output drv_hash from_bytes system floats postcard blake3_hash peers config to_build
            turn id o m)
          _ h in
      then-Asks ((id, o.blake3) ∷ []) (map (λ (o : BuildOutput). (id, o.blake3)) os) m mid next
        (fetch_output-Asks turn id o m mid first) (fetch_outputs-Asks turn id os mid next rest)

  fetch_result-Asks :
      (turn : ℕ) (r : BuildResult) (m next : Monitor EndpointId Sender)
      → fetch_result drv_hash from_bytes system floats postcard blake3_hash peers config to_build
          turn r m
        ≡ ok next
      → Asks (requests_of from_bytes r) m next
  unfolding fetch_result requests_of
  fetch_result-Asks turn r m next h = elim (Option-cases (from_bytes r.builder)) [
    | inl e ↦ (ground (arith, h, e), ground (arith, h, e))
    | inr (id, e) ↦
        let asks = fetch_outputs-Asks turn id r.outputs m next (ground (arith, h, e)) in
        (asks.0 ∙ ap (λ l. m.fetches ++ l) (sym (requests_of-some from_bytes r id e)), asks.1)
  ]

  pub fetch_results-Asks :
      (turn : ℕ) (rs : List BuildResult) (m next : Monitor EndpointId Sender)
      → fetch_results drv_hash from_bytes system floats postcard blake3_hash peers config to_build
          turn rs m
        ≡ ok next
      → Asks (asked from_bytes rs) m next
  unfolding fetch_results asked requests_of
  fetch_results-Asks turn [] m next h = none-Asks m next (ok-injective h)
  fetch_results-Asks turn (r ∷ rs) m next h =
      let (mid, first, rest) =
        >>=-eq-ok
          (fetch_result drv_hash from_bytes system floats postcard blake3_hash peers config to_build
            turn r m)
          _ h in
      then-Asks (requests_of from_bytes r) (asked from_bytes rs) m mid next
        (fetch_result-Asks turn r m mid first) (fetch_results-Asks turn rs mid next rest)
