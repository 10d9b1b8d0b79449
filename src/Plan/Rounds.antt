-- ===== src/Plan/Rounds.antt =====
-- The loop of `topological_sort` of iroh-nix/src/main.rs.
use iroh_nix.Support.{
  ℕ, zero, suc, ◌+◌, ◌≤◌, ◌≡◌, refl, ap, ◌∙◌, inl, inr, true, false, Option, none, some, List, [],
  ◌∷◌, ◌++◌, arith, if◌then◌else◌, Option-cases, Bytes, ◌==◌, eq_nat, eq_bytes, ==-refl, contains,
  length, All, length-append,
}
use iroh_nix.Support.Maps.{Map, lookup, insert, lookup-insert}
use iroh_nix.Support.Counts.{
  occurs, occurs-append, occurs-singleton, contains-append, keys, IsUnique,
}
use iroh_nix.Plan.{Pending, is_zero, ready, decremented, lower, release, release_all}

-- How many of the inputs are not done.
unfoldable pub missing : List Bytes → List Bytes → ℕ
missing done [] = 0
missing done (x ∷ xs) = (if contains done x then 0 else 1) + missing done xs

pub missing-nothing : (xs : List Bytes) → missing [] xs ≡ length xs
unfolding missing
missing-nothing [] = refl
missing-nothing (x ∷ xs) = omega (arith, missing-nothing xs)

pub missing-append :
    (n : Bytes) (done xs : List Bytes)
    → contains done n ≡ false
    → missing (done ++ n ∷ []) xs + occurs n xs ≡ missing done xs
unfolding missing occurs
missing-append n done [] h = omega arith
missing-append n done (x ∷ xs) h = ground (
  arith,
  contains-append x n done,
  eq_bytes.beq_iff n x,
  eq_bytes.beq_iff x n,
  missing-append n done xs h,
)

-- Each of these is done.
abbrev pub Done : List Bytes → List Bytes → Type 0
Done done = All (λ x. contains done x ≡ true)

pub Done-missing : (done xs : List Bytes) → missing done xs ≡ 0 → Done done xs
unfolding missing
Done-missing done [] h = tt
Done-missing done (x ∷ xs) h = (ground arith, Done-missing done xs (omega arith))

pub missing-Done : (done xs : List Bytes) → Done done xs → missing done xs ≡ 0
unfolding missing
missing-Done done [] h = refl
missing-Done done (x ∷ xs) (hx, h) = ground (arith, hx, missing-Done done xs h)

-- 1 where the degree is 0
abbrev pub flag : Option ℕ → ℕ
flag o = elim o [ none ↦ 0 | some n ↦ if is_zero n then 1 else 0 ]

-- 1 where there is a degree other than 0
abbrev waits : Option ℕ → ℕ
waits o = elim o [ none ↦ 0 | some n ↦ if is_zero n then 0 else 1 ]

unfoldable pub waiting : Map Bytes ℕ → ℕ
waiting [] = 0
waiting ((k, deg) ∷ m) = (if is_zero deg then 0 else 1) + waiting m

waiting-insert :
    (k : Bytes) (n : ℕ) (m : Map Bytes ℕ)
    → waiting (insert k n m) + waits (lookup k m) ≡ waiting m + waits (some n)
unfolding waiting insert lookup
waiting-insert k n [] = ground arith
waiting-insert k n ((j, deg) ∷ m) = ground (arith, waiting-insert k n m)

pub length-ready : (m : Map Bytes ℕ) → waiting m + length (ready m) ≡ length m
unfolding waiting ready
length-ready [] = omega arith
length-ready ((k, deg) ∷ m) = ground (arith, length-ready m)

occurs-ready-le : (j : Bytes) (m : Map Bytes ℕ) → occurs j (ready m) ≤ occurs j (keys m)
unfolding ready occurs keys
occurs-ready-le j [] = omega arith
occurs-ready-le j ((k, deg) ∷ m) = ground (arith, occurs-ready-le j m)

pub occurs-ready :
    (j : Bytes) (m : Map Bytes ℕ) → IsUnique m → occurs j (ready m) ≡ flag (lookup j m)
unfolding ready occurs keys lookup
occurs-ready j [] h = refl
occurs-ready j ((k, deg) ∷ m) h =
    ground (arith, h j, occurs-ready-le j m, occurs-ready j m (λ i. omega (arith, h i)))

module _ (to_build : List Bytes) (needed : Bytes → List Bytes) where
  -- What is left to do when `done` is done, and its dependents are released but for the listed ones.
  pub record IsLeft (done deps : List Bytes) (s : Pending) : Type 0 where
    pub degree :
        (j : Bytes)
        → lookup j s.degrees
          ≡ (if contains to_build j then some (missing done (needed j) + occurs j deps) else none)
    pub queued : (j : Bytes) → occurs j done + occurs j s.queue ≡ flag (lookup j s.degrees)

  abbrev pub work : Pending → ℕ
  work s = waiting s.degrees + length s.queue

  degree-lower :
      (dep j : Bytes) (n : ℕ) (s : Pending)
      → lookup j (lower dep (suc n) s).degrees ≡ (if dep == j then some n else lookup j s.degrees)
  unfolding lower decremented
  degree-lower dep j n s = lookup-insert dep j n s.degrees

  queued-lower :
      (dep j : Bytes) (n : ℕ) (s : Pending)
      → occurs j (lower dep (suc n) s).queue
        ≡ occurs j s.queue + (if dep == j then flag (some n) else 0)
  unfolding lower decremented
  queued-lower dep j n s =
      ground (arith, occurs-append j s.queue (dep ∷ []), occurs-singleton j dep)

  work-lower :
      (dep : Bytes) (n : ℕ) (s : Pending)
      → lookup dep s.degrees ≡ some (suc n)
      → work (lower dep (suc n) s) ≡ work s
  unfolding lower decremented is_zero
  work-lower dep n s h =
      ground (arith, h, waiting-insert dep n s.degrees, length-append s.queue (dep ∷ []))

  IsLeft-lower :
      (done deps : List Bytes) (dep : Bytes) (n : ℕ) (s : Pending)
      → lookup dep s.degrees ≡ some (suc n)
      → IsLeft done (dep ∷ deps) s
      → IsLeft done deps (lower dep (suc n) s)
  unfolding occurs is_zero
  IsLeft-lower done deps dep n s e h = record {
    degree = λ j. ground (arith, e, h.degree j, degree-lower dep j n s, eq_bytes.beq_iff dep j);
    queued = λ j. ground (
      arith,
      e,
      h.queued j,
      degree-lower dep j n s,
      queued-lower dep j n s,
      eq_bytes.beq_iff dep j,
    );
  }

  IsLeft-skip :
      (done deps : List Bytes) (dep : Bytes) (s : Pending)
      → lookup dep s.degrees ≡ none
      → IsLeft done (dep ∷ deps) s
      → IsLeft done deps s
  unfolding occurs
  IsLeft-skip done deps dep s e h = record {
    degree = λ j. ground (arith, e, h.degree j, eq_bytes.beq_iff dep j);
    queued = h.queued;
  }

  degree_suc :
      (done deps : List Bytes) (dep : Bytes) (n : ℕ) (s : Pending)
      → IsLeft done (dep ∷ deps) s
      → lookup dep s.degrees ≡ some n
      → (m : ℕ) × (n ≡ suc m)
  unfolding occurs
  degree_suc done deps dep zero s h e = absurd (ground (arith, e, h.degree dep, ==-refl dep))
  degree_suc done deps dep (suc m) s h e = (m, refl)

  IsLeft-release :
      (done deps : List Bytes) (dep : Bytes) (s : Pending)
      → IsLeft done (dep ∷ deps) s
      → IsLeft done deps (release dep s) × (work (release dep s) ≡ work s)
  unfolding release
  IsLeft-release done deps dep s h = elim (Option-cases (lookup dep s.degrees)) [
    | inl e ↦ rw (e, release) (IsLeft-skip done deps dep s e h, refl)
    | inr (n, e) ↦
        let (m, is_suc) = degree_suc done deps dep n s h e in
        let there = e ∙ ap some is_suc in
        rw (there, release) (IsLeft-lower done deps dep m s there h, work-lower dep m s there)
  ]

  pub IsLeft-release_all :
      (done deps : List Bytes) (s : Pending)
      → IsLeft done deps s
      → IsLeft done [] (release_all deps s) × (work (release_all deps s) ≡ work s)
  unfolding release_all
  IsLeft-release_all done [] s h = (h, refl)
  IsLeft-release_all done (dep ∷ deps) s h =
      let (one, same) = IsLeft-release done deps dep s h in
      let (rest, kept) = IsLeft-release_all done deps (release dep s) one in (rest, kept ∙ same)
