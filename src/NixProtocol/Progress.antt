-- ===== src/NixProtocol/Progress.antt =====
-- The functions of iroh-nix/src/nix_protocol.rs that read use up the bytes that they read.
use iroh_nix.Support.{ℕ, ◌+◌, ◌≤◌, ◌≡◌, arith, Bytes, eq_nat, eq_bytes, length, length-drop}
use iroh_nix.Error.{ok, >>=-eq-ok}
use iroh_nix.NixProtocol.{read_exact, read_u32, read_u64, allocate, read_string}
use iroh_nix.Support.Words.{padding}

read_exact-length :
    (n : ℕ) (input a rest : Bytes)
    → read_exact n input ≡ ok (a, rest)
    → length rest + n ≡ length input
unfolding read_exact
read_exact-length n input a rest h = ground (arith, length-drop n input)

pub read_u32-length :
    (input : Bytes) (n : ℕ) (rest : Bytes)
    → read_u32 input ≡ ok (n, rest)
    → length rest + 4 ≡ length input
unfolding read_u32 read_exact
read_u32-length input n rest h = ground (arith, length-drop 4 input)

pub read_u64-length :
    (input : Bytes) (n : ℕ) (rest : Bytes)
    → read_u64 input ≡ ok (n, rest)
    → length rest + 8 ≡ length input
unfolding read_u64 read_exact
read_u64-length input n rest h = ground (arith, length-drop 8 input)

pub read_string-length :
    (input s rest : Bytes) → read_string input ≡ ok (s, rest) → length rest + 8 ≤ length input
unfolding read_string
read_string-length input s rest h =
    let ((n, body), e, h₁) = >>=-eq-ok (read_u64 input) _ h in
    let (u, e₁, h₂) = >>=-eq-ok (allocate n 1) _ h₁ in
    let ((buf, after), e₂, h₃) = >>=-eq-ok (read_exact n body) _ h₂ in
    let ((pad, end), e₃, h₄) = >>=-eq-ok (read_exact (padding n) after) _ h₃ in
    ground (
      arith,
      h₄,
      read_u64-length input n body e,
      read_exact-length n body buf after e₂,
      read_exact-length (padding n) after pad end e₃,
    )
