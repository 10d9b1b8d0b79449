-- ===== src/Error.antt =====
-- iroh-nix/src/error.rs: the errors, and the results of fallible code.
-- A message is the literal text of the source; where `format!` puts in the text of a foreign error
-- or a value, the message is the literal text
-- without it.
use iroh_nix.Support.{◌≡◌, refl, ◌⊎◌, inl, inr, Bool, true, false, Bytes, eq_nat, eq_bytes}

-- std::io::ErrorKind, the kinds that the code tests for, and any other.
pub data ErrorKind : Type 0 where
  unexpected_eof connection_reset connection_aborted timed_out interrupted would_block : ErrorKind
  other_kind : ErrorKind

pub data Error : Type 0 where
  database : Error
  io : ErrorKind → Error
  iroh : Error
  hash_not_found : Bytes → Error
  store_path_not_found : Bytes → Error
  invalid_store_path : Bytes → Error
  nar : Bytes → Error
  protocol : Bytes → Error
  signing : Bytes → Error
  gossip : Bytes → Error
  connection : Bytes → Error
  build : Bytes → Error
  timeout : Bytes → Error
  remote : Bytes → Error
  job_not_found : Error
  invalid_builder : Error
  internal : Bytes → Error
  http_cache : Bytes → Error

-- What a call does: it panics, or it returns `Err` or `Ok`.
pub data Result {κ} (T : Type κ) : Type κ where
  panic : Result T
  err : Error → Result T
  ok : T → Result T

-- The `?` operator.
infixl 5 ◌>>=◌ ◌>>◌
abbrev pub ◌>>=◌ {κ κ'} : {T : Type κ} {U : Type κ'} → Result T → (T → Result U) → Result U
panic >>= k = panic
err e >>= k = err e
ok a >>= k = k a

abbrev pub ◌>>◌ {κ} : {U : Type κ} → Result (Unit {0}) → Result U → Result U
m >> next = m >>= λ _. next

-- `Error::is_transient`
unfoldable pub is_transient : Error → Bool
is_transient (connection m) = true
is_transient (timeout m) = true
is_transient (remote m) = true
is_transient (http_cache m) = true
is_transient e = false

pub >>=-eq-ok {κ κ'} :
    {T : Type κ} {U : Type κ'} (m : Result T) (k : T → Result U) {u : U}
    → (m >>= k) ≡ ok u
    → (t : T) × (m ≡ ok t) × (k t ≡ ok u)
>>=-eq-ok panic k h = cc
>>=-eq-ok (err e) k h = cc
>>=-eq-ok (ok t) k h = (t, refl, h)

pub Result-cases {κ} :
    {T : Type κ} (m : Result T)
    → ((t : T) × (m ≡ ok t)) ⊎ (((e : Error) × (m ≡ err e)) ⊎ (m ≡ panic))
Result-cases (ok t) = inl (t, refl)
Result-cases (err e) = inr (inl (e, refl))
Result-cases panic = inr (inr refl)
