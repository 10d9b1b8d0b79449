-- ===== src/Build/Queue/Order.antt =====
-- Which job `pull` of iroh-nix/src/build.rs hands to a builder.
use iroh_nix.Support.{
  ℕ, suc, ◌≡◌, refl, ap, ◌⊎◌, inl, inr, Bool, true, not, Option, none, some, List, [], ◌∷◌, ◌++◌,
  arith, Bool-cases, Bytes, codes, eq_nat, eq_bytes, contains, all,
}
use iroh_nix.Support.Maps.{insert}
use iroh_nix.Build.Types.{LeasedJob, BuildJob, BuildQueue}
use iroh_nix.Build.Queue.{position, remove_at, matches, lease, pull}

-- What `position` and then `remove` do: nothing where no element passes, and otherwise the first
-- that passes is cut out.
abbrev pub FirstCut {ℓ} : {A : Type ℓ} → (A → Bool) → List A → Type ℓ
FirstCut {A} p xs =
    ((all (λ x. not (p x)) xs ≡ true) × (position p xs ≡ none))
    ⊎ ((i : ℕ) × (pre : List A) × (x : A) × (post : List A) × (xs ≡ pre ++ x ∷ post)
        × (all (λ y. not (p y)) pre ≡ true)
        × (p x ≡ true)
        × (position p xs ≡ some i)
        × (remove_at i xs ≡ some (x, pre ++ post)))

position-cases {ℓ} : {A : Type ℓ} (p : A → Bool) (xs : List A) → FirstCut p xs
unfolding position remove_at
position-cases p [] = inl (refl, refl)
position-cases p (x ∷ xs) = elim (Bool-cases (p x)) [
  | inl hit ↦ inr (0, [], x, xs, refl, refl, hit, ground arith, refl)
  | inr miss ↦ elim (position-cases p xs) [
    | inl (nowhere, e) ↦ inl (ground arith, ground arith)
    | inr (i, pre, y, post, split, before, hit, at, cut) ↦
        inr
          (suc i, x ∷ pre, y, post, ap (◌∷◌ x) split, ground arith, hit, ground arith, ground arith)
  ]
]

-- Every feature that the job requires is one of the builder's.
abbrev pub fits : List Bytes → BuildJob → Bool
fits features job = all (λ f. contains features f) job.system_features

-- The lease of a job from now on.
abbrev pub leased_to : {EndpointId : Type 0} → ℕ → EndpointId → BuildJob → LeasedJob EndpointId
leased_to now builder job = record {
  job = job;
  builder = builder;
  leased_at = now;
  last_heartbeat = now;
  status = codes "starting";
}

module _ {EndpointId Sender : Type 0} where
  -- The outcome of a pull: no pending job matches and nothing changes, or the first job that matches
  -- leaves the queue, the others keeping their order, and is leased to the builder.
  abbrev pub PullsFirst :
      ℕ
      → BuildQueue EndpointId Sender
      → EndpointId
      → List Bytes
      → BuildQueue EndpointId Sender × Option BuildJob
      → Type 0
  PullsFirst now q builder features r =
      ((all (λ job. not (fits features job)) q.pending ≡ true) × (r ≡ (q, none)))
      ⊎ ((pre : List BuildJob) × (job : BuildJob) × (post : List BuildJob) × (q.pending
            ≡ pre ++ job ∷ post)
          × (all (λ j. not (fits features j)) pre ≡ true)
          × (fits features job ≡ true)
          × (r ≡ (
            record q {
              pending = pre ++ post;
              leased = insert job.id (leased_to now builder job) q.leased;
            },
            some job,
          )))

  -- A pull leaves the queue as it is exactly where no pending job has all its required features among
  -- the builder's. Otherwise it takes the first job, in queue order, that has, leaves the others in
  -- order, and leases that job to the builder, with `now` as the time of the lease and of its last heartbeat.
  pub pull-PullsFirst :
      (now : ℕ) (q : BuildQueue EndpointId Sender) (builder : EndpointId) (features : List Bytes)
      → PullsFirst now q builder features (pull now q builder features)
  unfolding pull matches lease
  pull-PullsFirst now q builder features = elim (position-cases (matches features) q.pending) [
    | inl (nowhere, e) ↦ inl (nowhere, rw (e, pull))
    | inr (i, pre, job, post, split, before, hit, at, cut) ↦
        inr (pre, job, post, split, before, hit, rw (at, pull) (rw cut))
  ]
