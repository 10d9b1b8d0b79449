-- ===== src/Nar/Hashing.antt =====
-- The hashing writer of iroh-nix/src/nar.rs. The writer under it, SHA-256 and BLAKE3 are foreign:
-- a writer takes a buffer and tells how many of its bytes it has taken, a hasher takes bytes.
use iroh_nix.Support.{
  ℕ, ◌+◌, ◌%◌, ◌^◌, ◌≤◌, ◌≡◌, sym, ap, ◌∙◌, inl, inr, List, [], ◌∷◌, ◌++◌, arith, leb,
  if◌then◌else◌, leb→le, Bool-cases, Bytes, eq_nat, eq_bytes, length, take, length-append,
  length-take,
}
use mathlib.Core.Path.{subst}
use iroh_nix.Error.{Result, ok, panic, ◌>>=◌, >>=-eq-ok}

pub record NarInfo : Type 0 where
  pub blake3 : Bytes
  pub sha256 : Bytes
  pub nar_size : ℕ

-- What a hasher offers: `new`, `update` and `finalize`.
pub record Hasher (H : Type 0) : Type 0 where
  pub initial : H
  pub update : H → Bytes → H
  pub finalize : H → Bytes

-- A hasher is fed in pieces.
pub record IsStreaming {H : Type 0} (hasher : Hasher H) : Type 0 where
  pub update_nil : (h : H) → hasher.update h [] ≡ h
  pub update-append :
      (h : H) (a b : Bytes) → hasher.update h (a ++ b) ≡ hasher.update (hasher.update h a) b

pub record HashingWriter (W S B : Type 0) : Type 0 where
  pub inner : W
  pub sha256 : S
  pub blake3 : B
  pub bytes_written : ℕ

module _ {W S B : Type 0} (sha : Hasher S) (blake : Hasher B) where
  unfoldable pub new : W → HashingWriter W S B
  new inner = record {
    inner = inner;
    sha256 = sha.initial;
    blake3 = blake.initial;
    bytes_written = 0;
  }

  unfoldable pub finish : HashingWriter W S B → W × NarInfo
  finish w = (
    w.inner,
    record {
      sha256 = sha.finalize w.sha256;
      blake3 = blake.finalize w.blake3;
      nar_size = w.bytes_written;
    },
  )

  -- `inner_write` is the inner writer's `write`. The slice `buf[..n]` panics where it tells of more
  -- bytes than it was given.
  unfoldable pub write :
      (W → Bytes → Result (W × ℕ)) → HashingWriter W S B → Bytes → Result (HashingWriter W S B × ℕ)
  write inner_write w buf = do
    (inner, n) ← inner_write w.inner buf
    if leb n (length buf)
        then ok (
          record {
            inner = inner;
            sha256 = sha.update w.sha256 (take n buf);
            blake3 = blake.update w.blake3 (take n buf);
            bytes_written = (w.bytes_written + n) % 2 ^ 64;
          },
          n,
        )
        else panic

  -- A run of `write`s that all succeed.
  unfoldable pub write_each :
      (W → Bytes → Result (W × ℕ)) → List Bytes → HashingWriter W S B → Result (HashingWriter W S B)
  unfolding write
  write_each inner_write [] w = ok w
  write_each inner_write (buf ∷ bufs) w = do
    (w', n) ← write inner_write w buf
    write_each inner_write bufs w'

  module _ (shas : IsStreaming sha) (blakes : IsStreaming blake)
      (inner_write : W → Bytes → Result (W × ℕ)) (content : W → Bytes)
      (takes : (w w' : W) (buf : Bytes) (n : ℕ)
        → inner_write w buf ≡ ok (w', n)
        → content w' ≡ content w ++ take n buf) where
    -- The hashers have had what the inner writer has taken.
    pub record IsFaithful (w : HashingWriter W S B) : Type 0 where
      pub sha256 : w.sha256 ≡ sha.update sha.initial (content w.inner)
      pub blake3 : w.blake3 ≡ blake.update blake.initial (content w.inner)
      pub bytes_written : w.bytes_written ≡ length (content w.inner) % 2 ^ 64

    IsFaithful-new : (inner : W) → content inner ≡ [] → IsFaithful (new inner)
    unfolding new
    IsFaithful-new inner empty = record {
      sha256 = sym (shas.update_nil sha.initial) ∙ ap (sha.update sha.initial) (sym empty);
      blake3 = sym (blakes.update_nil blake.initial) ∙ ap (blake.update blake.initial) (sym empty);
      bytes_written = omega (arith, ap length empty);
    }

    abbrev taken : HashingWriter W S B → W → Bytes → ℕ → HashingWriter W S B
    taken w inner buf n = record {
      inner = inner;
      sha256 = sha.update w.sha256 (take n buf);
      blake3 = blake.update w.blake3 (take n buf);
      bytes_written = (w.bytes_written + n) % 2 ^ 64;
    }

    IsFaithful-taken :
        (w : HashingWriter W S B) (inner : W) (buf : Bytes) (n : ℕ)
        → inner_write w.inner buf ≡ ok (inner, n)
        → n ≤ length buf
        → IsFaithful w
        → IsFaithful (taken w inner buf n)
    IsFaithful-taken w inner buf n e fits f =
        let grown = takes w.inner inner buf n e in
        record {
          sha256 =
              rw (f.sha256, grown)
                (sym (shas.update-append sha.initial (content w.inner) (take n buf)));
          blake3 =
              rw (f.blake3, grown)
                (sym (blakes.update-append blake.initial (content w.inner) (take n buf)));
          bytes_written = omega (
            arith,
            f.bytes_written,
            ap length grown,
            length-append (content w.inner) (take n buf),
            length-take n buf,
          );
        }

    IsFaithful-write :
        (w w' : HashingWriter W S B) (buf : Bytes) (n : ℕ)
        → write inner_write w buf ≡ ok (w', n)
        → IsFaithful w
        → IsFaithful w'
    unfolding write
    IsFaithful-write w w' buf n h f =
        let ((inner, m), e, h') = >>=-eq-ok (inner_write w.inner buf) _ h in
        elim (Bool-cases (leb m (length buf))) [
          | inl fits ↦
              subst IsFaithful (ground (arith, fits, h'))
                (IsFaithful-taken w inner buf m e (leb→le m (length buf) fits) f)
          | inr over ↦ ground (arith, over, h')
        ]

    IsFaithful-write_each :
        (bufs : List Bytes) (w w' : HashingWriter W S B)
        → write_each inner_write bufs w ≡ ok w'
        → IsFaithful w
        → IsFaithful w'
    unfolding write_each
    IsFaithful-write_each [] w w' h f = subst IsFaithful (ground (arith, h)) f
    IsFaithful-write_each (buf ∷ bufs) w w' h f =
        let ((next, n), e, h') = >>=-eq-ok (write inner_write w buf) _ h in
        IsFaithful-write_each bufs next w' h' (IsFaithful-write w next buf n e f)

    -- Where the inner writer starts out empty and takes what it tells of, and the hashers work in
    -- pieces: after any writes that succeed, `finish` gives the hashes of the bytes that the inner
    -- writer has, and their number modulo 2^64.
    pub finish-write_each :
        (bufs : List Bytes) (start : W) (w : HashingWriter W S B)
        → content start ≡ []
        → write_each inner_write bufs (new start) ≡ ok w
        → finish w ≡ (
          w.inner,
          record {
            sha256 = sha.finalize (sha.update sha.initial (content w.inner));
            blake3 = blake.finalize (blake.update blake.initial (content w.inner));
            nar_size = length (content w.inner) % 2 ^ 64;
          },
        )
    unfolding finish
    finish-write_each bufs start w empty h =
        let f = IsFaithful-write_each bufs (new start) w h (IsFaithful-new start empty) in
        rw (f.sha256, f.blake3, f.bytes_written)
