-- ===== src/HashIndex/Keys.antt =====
-- iroh-nix/src/hash_index.rs: no two rows of the table share a key, so that the three lookups by a
-- key agree.
use iroh_nix.Support.{
  ◌≡◌, refl, sym, ap, ◌∙◌, ◌≢◌, ◌⊎◌, inl, inr, Bool, true, false, not, some, List, [], ◌∷◌, ◌++◌,
  arith, nat_eq, Bool-cases, Option-cases, Bytes, ◌==◌, eq_nat, eq_bytes, length, All, All-append,
  keep_if,
}
use mathlib.Core.Path.{subst}
use iroh_nix.Error.{Result, ok, err, panic, ◌>>=◌, Result-cases}
use iroh_nix.HashIndex.Entries.{
  HashEntry, Row, EntryTuple, to_row, row_to_entry_tuple, tuple_to_entry, blake3_from_slice,
  sha256_from_slice, from_slice,
}
use iroh_nix.HashIndex.{
  Table, insert, insert_or_replace, shares_key, first_row, query_row, get_by_blake3, get_by_sha256,
  get_by_store_path, optional_tuple_to_entry, execute, delete_by_blake3,
}

-- The rows after a row share no key with it, as `INSERT OR REPLACE` sees it.
abbrev IsUnshared : Table → Type 0
IsUnshared [] = Unit
IsUnshared (row ∷ rows) = All (λ old. shares_key row old ≡ false) rows × IsUnshared rows

-- A call that changes the table, and whether SQLite carries it out.
pub data Change : Type 0 where
  inserted : Bool → HashEntry → Change
  deleted : Bool → Bytes → Change

-- The table after a statement, which a failed one leaves alone.
unfoldable pub after : Table → Result Table → Table
after table (ok next) = next
after table (err e) = table
after table panic = table

unfoldable pub change : Change → Table → Table
unfolding after
change (inserted answers e) table = after table (insert answers e table)
change (deleted answers blake3) table =
    after table (do (next, found) ← delete_by_blake3 answers blake3 table; ok next)

unfoldable pub run_changes : List Change → Table → Table
run_changes [] table = table
run_changes (c ∷ cs) table = run_changes cs (change c table)

shares_key-sym : (a b : Row) → shares_key a b ≡ shares_key b a
unfolding shares_key
shares_key-sym a b = ground (
  arith,
  eq_bytes.beq_iff a.blake3 b.blake3,
  eq_bytes.beq_iff b.blake3 a.blake3,
  eq_bytes.beq_iff a.sha256 b.sha256,
  eq_bytes.beq_iff b.sha256 a.sha256,
  eq_bytes.beq_iff a.store_path b.store_path,
  eq_bytes.beq_iff b.store_path a.store_path,
)

pub keep_if-cases {ℓ} :
    {A : Type ℓ} (p : A → Bool) (x : A) (xs : List A)
    → ((p x ≡ true) × (keep_if p (x ∷ xs) ≡ x ∷ keep_if p xs))
      ⊎ ((p x ≡ false) × (keep_if p (x ∷ xs) ≡ keep_if p xs))
keep_if-cases p x xs = elim (Bool-cases (p x)) [
  | inl e ↦ inl (e, ground (arith, e))
  | inr e ↦ inr (e, ground (arith, e))
]

module _ {ℓ κ} {A : Type ℓ} where
  pub All-keep_if : (P : A → Type κ) (p : A → Bool) (xs : List A) → All P xs → All P (keep_if p xs)
  All-keep_if P p [] h = tt
  All-keep_if P p (x ∷ xs) (hx, h) = elim (keep_if-cases p x xs) [
    | inl (e, at) ↦ subst (All P) (sym at) (hx, All-keep_if P p xs h)
    | inr (e, at) ↦ subst (All P) (sym at) (All-keep_if P p xs h)
  ]

pub keep_if-IsUnshared :
    (p : Row → Bool) (table : Table) → IsUnshared table → IsUnshared (keep_if p table)
keep_if-IsUnshared p [] h = tt
keep_if-IsUnshared p (row ∷ rows) (fresh, h) =
    let apart = All-keep_if (λ old. shares_key row old ≡ false) p rows fresh in
    elim (keep_if-cases p row rows) [
      | inl (e, at) ↦ subst IsUnshared (sym at) (apart, keep_if-IsUnshared p rows h)
      | inr (e, at) ↦ subst IsUnshared (sym at) (keep_if-IsUnshared p rows h)
    ]

-- A row that shares no key with the others goes behind them.
append-IsUnshared :
    (new : Row) (table : Table)
    → IsUnshared table
    → All (λ old. shares_key new old ≡ false) table
    → IsUnshared (table ++ new ∷ [])
append-IsUnshared new [] h apart = (tt, tt)
append-IsUnshared new (row ∷ rows) (fresh, h) (alone, apart) = (
  All-append (λ old. shares_key row old ≡ false) rows (new ∷ []) fresh
      (shares_key-sym row new ∙ alone, tt),
  append-IsUnshared new rows h apart,
)

-- What a test keeps passes it.
keep_if-All {ℓ} : {A : Type ℓ} (p : A → Bool) (xs : List A) → All (λ x. p x ≡ true) (keep_if p xs)
keep_if-All p [] = tt
keep_if-All p (x ∷ xs) = elim (keep_if-cases p x xs) [
  | inl (e, at) ↦ subst (All (λ y. p y ≡ true)) (sym at) (e, keep_if-All p xs)
  | inr (e, at) ↦ subst (All (λ y. p y ≡ true)) (sym at) (keep_if-All p xs)
]

All-not :
    (new : Row) (table : Table)
    → All (λ old. not (shares_key new old) ≡ true) table
    → All (λ old. shares_key new old ≡ false) table
All-not new [] h = tt
All-not new (row ∷ rows) (alone, h) = (ground (arith, alone), All-not new rows h)

insert_or_replace-IsUnshared :
    (new : Row) (table : Table) → IsUnshared table → IsUnshared (insert_or_replace new table)
unfolding insert_or_replace
insert_or_replace-IsUnshared new table h =
    let apart = λ (old : Row). not (shares_key new old) in
    append-IsUnshared new (keep_if apart table) (keep_if-IsUnshared apart table h)
      (All-not new (keep_if apart table) (keep_if-All apart table))

change-IsUnshared : (c : Change) (table : Table) → IsUnshared table → IsUnshared (change c table)
unfolding change after insert delete_by_blake3 execute
change-IsUnshared (inserted true e) table h = insert_or_replace-IsUnshared (to_row e) table h
change-IsUnshared (inserted false e) table h = h
change-IsUnshared (deleted true blake3) table h =
    keep_if-IsUnshared (λ row. not (row.blake3 == blake3)) table h
change-IsUnshared (deleted false blake3) table h = h

-- Two rows have no BLAKE3 hash, no SHA-256 hash and no store path in common.
abbrev pub Differ : Row → Row → Type 0
Differ a b = (a.blake3 ≢ b.blake3) × (a.sha256 ≢ b.sha256) × (a.store_path ≢ b.store_path)

-- A row has no key in common with any behind it.
abbrev pub IsKeyed : Table → Type 0
IsKeyed [] = Unit
IsKeyed (row ∷ rows) = All (Differ row) rows × IsKeyed rows

unequal : (a b : Bytes) → a ≢ b → (b == a) ≡ false
unequal a b h = elim (Bool-cases (b == a)) [
  | inl e ↦ elim (h (sym ((eq_bytes.beq_iff b a).0 e))) [ ]
  | inr e ↦ e
]

Differ-unshared : (a b : Row) → Differ a b → shares_key a b ≡ false
unfolding shares_key
Differ-unshared a b (first, second, third) =
    rw
      (
        unequal a.blake3 b.blake3 first,
        unequal a.sha256 b.sha256 second,
        unequal a.store_path b.store_path third,
      )
      refl

unshared-Differ : (a b : Row) → shares_key a b ≡ false → Differ a b
unfolding shares_key
unshared-Differ a b h = (
  λ e. absurd (ground (arith, h, (eq_bytes.beq_iff b.blake3 a.blake3).1 (sym e))),
  λ e. absurd (ground (arith, h, (eq_bytes.beq_iff b.sha256 a.sha256).1 (sym e))),
  λ e. absurd (ground (arith, h, (eq_bytes.beq_iff b.store_path a.store_path).1 (sym e))),
)

All-Differ :
    (row : Row) (rows : Table)
    → All (Differ row) rows
    → All (λ old. shares_key row old ≡ false) rows
All-Differ row [] h = tt
All-Differ row (old ∷ rows) (apart, h) = (Differ-unshared row old apart, All-Differ row rows h)

All-unshared :
    (row : Row) (rows : Table)
    → All (λ old. shares_key row old ≡ false) rows
    → All (Differ row) rows
All-unshared row [] h = tt
All-unshared row (old ∷ rows) (apart, h) = (unshared-Differ row old apart, All-unshared row rows h)

IsKeyed-IsUnshared : (table : Table) → IsKeyed table → IsUnshared table
IsKeyed-IsUnshared [] h = tt
IsKeyed-IsUnshared (row ∷ rows) (fresh, h) = (All-Differ row rows fresh, IsKeyed-IsUnshared rows h)

IsUnshared-IsKeyed : (table : Table) → IsUnshared table → IsKeyed table
IsUnshared-IsKeyed [] h = tt
IsUnshared-IsKeyed (row ∷ rows) (fresh, h) =
    (All-unshared row rows fresh, IsUnshared-IsKeyed rows h)

run_changes_lem :
    (cs : List Change) (table : Table) → IsUnshared table → IsUnshared (run_changes cs table)
unfolding run_changes
run_changes_lem [] table h = h
run_changes_lem (c ∷ cs) table h = run_changes_lem cs (change c table) (change-IsUnshared c table h)

-- Whatever was inserted and deleted, and whichever of the statements failed: if no two rows of the table had
-- the same BLAKE3 hash, the same SHA-256 hash or the same store path, no two rows have any of them in common.
pub run_changes-IsKeyed :
    (cs : List Change) (table : Table) → IsKeyed table → IsKeyed (run_changes cs table)
run_changes-IsKeyed cs table h =
    IsUnshared-IsKeyed (run_changes cs table)
      (run_changes_lem cs table (IsKeyed-IsUnshared table h))

-- The row that a lookup finds, which every test finds that passes it and otherwise only rows that
-- share a key with it.
found :
    (test : Row → Bool) (table : Table) (u : EntryTuple)
    → IsUnshared table
    → first_row test table ≡ some u
    → (row : Row) × (test row ≡ true)
      × (u ≡ row_to_entry_tuple row)
      × ((other : Row)
          → All (λ old. shares_key other old ≡ false) table
          → shares_key other row ≡ false)
      × ((again : Row → Bool)
          → again row ≡ true
          → ((old : Row) → again old ≡ true → shares_key old row ≡ true)
          → first_row again table ≡ some u)
unfolding first_row
found test [] u h e = cc
found test (row ∷ rows) u (fresh, h) e = elim (Bool-cases (test row)) [
  | inl hit ↦
      let same : u ≡ row_to_entry_tuple row = ground (arith, e, hit) in
      (row, hit, same, λ other all. all.0, λ again hits only. ground (arith, hits, same))
  | inr miss ↦
      let (at, hit, same, apart, every) = found test rows u h (ground (arith, e, miss)) in
      (
        at,
        hit,
        same,
        λ other all. apart other all.1,
        λ again hits only. ground (arith, every again hits only, only row, apart row fresh),
      )
]

-- The hashes and the path of an entry are those of its row.
pub tuple_to_entry_keys :
    (t : EntryTuple) (e : HashEntry)
    → tuple_to_entry t ≡ ok e
    → (e.blake3 ≡ t.blake3_bytes) × (e.sha256 ≡ t.sha256_bytes) × (e.store_path ≡ t.store_path)
unfolding tuple_to_entry blake3_from_slice sha256_from_slice from_slice
tuple_to_entry_keys t e h = elim (Bool-cases (nat_eq (length t.blake3_bytes) 32)) [
  | inl e ↦ elim (Bool-cases (nat_eq (length t.sha256_bytes) 32)) [
    | inl d ↦ (ground (arith, h, d, e), ground (arith, h, d, e), ground (arith, h, d, e))
    | inr d ↦ ground (arith, h, d, e)
  ]
  | inr e ↦ ground (arith, h, e)
]

-- A lookup that returns an entry has found its row.
pub get-read :
    (test : Row → Bool) (table : Table) (e : HashEntry)
    → (query_row true test table >>= optional_tuple_to_entry) ≡ ok (some e)
    → (u : EntryTuple) × (first_row test table ≡ some u) × (tuple_to_entry u ≡ ok e)
unfolding query_row execute optional_tuple_to_entry
get-read test table e h = elim (Option-cases (first_row test table)) [
  | inl at ↦ ground (arith, h, at)
  | inr (u, at) ↦ (
    u,
    at,
    elim (Result-cases (tuple_to_entry u)) [
      | inl (e', is) ↦ ground (arith, h, at, is)
      | inr (inl (x, is)) ↦ ground (arith, h, at, is)
      | inr (inr is) ↦ ground (arith, h, at, is)
    ],
  )
]

get-give :
    (test : Row → Bool) (table : Table) (e : HashEntry) (u : EntryTuple)
    → first_row test table ≡ some u
    → tuple_to_entry u ≡ ok e
    → (query_row true test table >>= optional_tuple_to_entry) ≡ ok (some e)
unfolding query_row execute optional_tuple_to_entry
get-give test table e u at is = ground (arith, at, is)

-- A table in which no two rows have a hash or a path in common is a bidirectional mapping: an entry that
-- is found by a
-- BLAKE3 hash has that hash, and the lookups by its SHA-256 hash and by its store path return it.
pub get_by_blake3-agrees :
    (blake3 : Bytes) (table : Table) (e : HashEntry)
    → IsKeyed table
    → get_by_blake3 true blake3 table ≡ ok (some e)
    → (e.blake3 ≡ blake3)
      × (get_by_sha256 true e.sha256 table ≡ ok (some e))
      × (get_by_store_path true e.store_path table ≡ ok (some e))
unfolding get_by_blake3 get_by_sha256 get_by_store_path row_to_entry_tuple shares_key
get_by_blake3-agrees blake3 table e keyed h =
    let (u, at, is) = get-read (λ row. row.blake3 == blake3) table e h in
    let (row, hit, same, apart, every) =
      found (λ row. row.blake3 == blake3) table u (IsKeyed-IsUnshared table keyed) at in
    let (first, second, third) = tuple_to_entry_keys u e is in
    let b : row.blake3 ≡ e.blake3 = sym (first ∙ ap (λ (v : EntryTuple). v.blake3_bytes) same) in
    let s : row.sha256 ≡ e.sha256 = sym (second ∙ ap (λ (v : EntryTuple). v.sha256_bytes) same) in
    let p : row.store_path ≡ e.store_path =
      sym (third ∙ ap (λ (v : EntryTuple). v.store_path) same) in
    (
      sym b ∙ (eq_bytes.beq_iff row.blake3 blake3).0 hit,
      get-give (λ row. row.sha256 == e.sha256) table e u
          (every (λ row. row.sha256 == e.sha256) ((eq_bytes.beq_iff row.sha256 e.sha256).1 s)
            (λ old is. ground (
              arith,
              is,
              s,
              eq_bytes.beq_iff old.sha256 e.sha256,
              eq_bytes.beq_iff row.sha256 old.sha256,
            )))
          is,
      get-give (λ row. row.store_path == e.store_path) table e u
          (every (λ row. row.store_path == e.store_path)
            ((eq_bytes.beq_iff row.store_path e.store_path).1 p)
            (λ old is. ground (
              arith,
              is,
              p,
              eq_bytes.beq_iff old.store_path e.store_path,
              eq_bytes.beq_iff row.store_path old.store_path,
            )))
          is,
    )
