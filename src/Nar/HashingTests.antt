-- ===== src/Nar/HashingTests.antt =====
-- A run of the hashing writer of iroh-nix/src/nar.rs, over a vector.
use iroh_nix.Support.{
  ℕ, ◌≡◌, refl, sym, ap, [], ◌∷◌, ◌++◌, append-nil, append_assoc, arith, Bytes, eq_nat, eq_bytes,
  length, take,
}
use iroh_nix.Error.{Result, ok}
use iroh_nix.Nar.Hashing.{
  Hasher, IsStreaming, HashingWriter, new, write, finish, write_each, finish-write_each,
}

-- A hasher that keeps what it is given, and gives its first byte.
abbrev keeper : Hasher Bytes
keeper = record { initial = []; update = λ h b. h ++ b; finalize = take 1 }

keeper-IsStreaming : IsStreaming keeper
keeper-IsStreaming = record {
  update_nil = append-nil;
  update-append = λ h a b. sym (append_assoc h a b);
}

-- `Vec<u8>` takes the whole buffer.
abbrev vec_write : Bytes → Bytes → Result (Bytes × ℕ)
vec_write v buf = ok (v ++ buf, length buf)

abbrev two_writes : HashingWriter Bytes Bytes Bytes
two_writes = record {
  inner = 1 ∷ 2 ∷ 3 ∷ [];
  sha256 = 1 ∷ 2 ∷ 3 ∷ [];
  blake3 = 1 ∷ 2 ∷ 3 ∷ [];
  bytes_written = 3;
}

take_all : (buf : Bytes) → take (length buf) buf ≡ buf
take_all [] = refl
take_all (b ∷ buf) = ap (◌∷◌ b) (take_all buf)

vec_takes : (v v' buf : Bytes) (n : ℕ) → vec_write v buf ≡ ok (v', n) → v' ≡ v ++ take n buf
vec_takes v v' buf n h = ground (arith, h, take_all buf)

finish-write_each_example :
    finish keeper keeper two_writes
    ≡ (1 ∷ 2 ∷ 3 ∷ [], record { sha256 = 1 ∷ []; blake3 = 1 ∷ []; nar_size = 3 })
unfolding write_each write new
finish-write_each_example =
    finish-write_each keeper keeper keeper-IsStreaming keeper-IsStreaming vec_write (λ v. v)
      vec_takes ((1 ∷ []) ∷ (2 ∷ 3 ∷ []) ∷ []) [] two_writes refl refl
