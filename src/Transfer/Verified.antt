-- ===== src/Transfer/Verified.antt =====
-- iroh-nix/src/transfer.rs: what a client that has fetched a NAR knows of it.
use iroh_nix.Support.{
  ℕ, zero, suc, ◌+◌, ◌-◌, ◌^◌, ◌≤◌, ◌<◌, min, ◌≡◌, sym, ◌∙◌, ◌≢◌, inl, inr, some, [], ◌∷◌, ◌++◌,
  arith, ltb, Bool-cases, Option-cases, Bytes, codes, ◌==◌, eq_nat, eq_bytes, length, take,
  length-append, length-take,
}
use mathlib.Core.Path.{subst}
use iroh_nix.Support.Words.{from_le_bytes}
use iroh_nix.Error.{ok, ◌>>=◌, >>=-eq-ok}
use iroh_nix.Retry.{Floats, RetryConfig, with_retry}
use iroh_nix.Retry.Attempts.{with_retry_stats-StopsAt}
use iroh_nix.Transfer.{NarResponseHeader, Postcard, decoded, framed, read_or, by_blake3}
use iroh_nix.Transfer.Client.{
  Peer, max_nar_size, read_some, read_nar_data, read_remote_error, read_header, read_header_body,
  decode_header, accepted, check_hash, read_answer, verified, read_nar_response, fetch_nar_once,
  fetch_nar_with_config,
}

pub length-read_some :
    (peer : Peer) (n : ℕ) (input buf rest : Bytes)
    → read_some peer n input ≡ some (buf, rest)
    → length buf ≤ n
unfolding read_some
length-read_some peer n [] buf rest h = cc
length-read_some peer n (x ∷ input) buf rest h =
    let k = min (peer.chunk (x ∷ input) n) n in
    let same : take k (x ∷ input) ≡ buf = ground (arith, h) in
    rw (sym same, length-take k (x ∷ input)) (omega arith)

-- The loop returns as many bytes as were wanted.
length-read_nar_data :
    (peer : Peer) (fuel remaining : ℕ) (nar_data input out : Bytes)
    → read_nar_data peer fuel remaining nar_data input ≡ ok out
    → length out ≡ length nar_data + remaining
unfolding read_nar_data
length-read_nar_data peer fuel zero nar_data input out h = ground (arith, h)
length-read_nar_data peer zero (suc remaining) nar_data input out h = cc
length-read_nar_data peer (suc fuel) (suc remaining) nar_data input out h =
    elim (Option-cases (read_some peer (min (suc remaining) 65536) input)) [
      | inl e ↦ ground (arith, e, h)
      | inr (([], rest), e) ↦ ground (arith, e, h)
      | inr ((b ∷ buf, rest), e) ↦
          let next : read_nar_data peer fuel (suc remaining - length (b ∷ buf))
                (nar_data ++ b ∷ buf) rest
              ≡ ok out =
            ground (arith, e, h) in
          omega (
            arith,
            length-read_nar_data peer fuel (suc remaining - length (b ∷ buf)) (nar_data ++ b ∷ buf)
                rest out next,
            length-append nar_data (b ∷ buf),
            length-read_some peer (min (suc remaining) 65536) input (b ∷ buf) rest e,
          )
    ]

module _ (postcard : Postcard) (blake3_hash : Bytes → Bytes) where
  abbrev pub IsVerified : Bytes → NarResponseHeader × Bytes → Type 0
  IsVerified blake3 (header, nar_data) =
      (blake3_hash nar_data ≡ blake3)
      × (length nar_data ≡ header.size)
      × (header.size ≤ max_nar_size)

  check_hash-IsVerified :
      (peer : Peer) (blake3 nar_data : Bytes) (header : NarResponseHeader)
      (r : NarResponseHeader × Bytes)
      → length nar_data ≡ header.size
      → header.size ≤ max_nar_size
      → check_hash postcard blake3_hash peer blake3 header nar_data ≡ ok r
      → IsVerified blake3 r
  unfolding check_hash
  check_hash-IsVerified peer blake3 nar_data header r long small h =
      elim (Bool-cases (blake3_hash nar_data == blake3)) [
        | inl same ↦
            let at : (header, nar_data) ≡ r = ground (arith, same, h) in
            subst (IsVerified blake3) at
              ((eq_bytes.beq_iff (blake3_hash nar_data) blake3).0 same, long, small)
        | inr other ↦ ground (arith, other, h)
      ]

  accepted-Small :
      (peer : Peer) (rest : Bytes) (header : NarResponseHeader) (r : NarResponseHeader × Bytes)
      → accepted postcard blake3_hash peer rest header ≡ ok r
      → r.0.size ≤ max_nar_size
  unfolding accepted
  accepted-Small peer rest header r h = elim (Bool-cases (ltb max_nar_size header.size)) [
    | inl big ↦ ground (arith, big, h)
    | inr small ↦
        let at : (header, rest) ≡ r = ground (arith, small, h) in
        subst (λ (q : NarResponseHeader × Bytes). q.0.size ≤ max_nar_size) at
          (ground (arith, small))
  ]

  read_header-Small :
      (peer : Peer) (input : Bytes) (r : NarResponseHeader × Bytes)
      → read_header postcard blake3_hash peer input ≡ ok r
      → r.0.size ≤ max_nar_size
  unfolding read_header read_header_body decode_header
  read_header-Small peer input r h =
      let ((len_buf, body), got, more) =
        >>=-eq-ok (read_or (codes "failed to read header length: ") 4 input)
          (read_header_body postcard blake3_hash peer) h in
      elim (Bool-cases (ltb 65536 (from_le_bytes len_buf))) [
        | inl big ↦ ground (arith, big, more)
        | inr small ↦
            let rest_read : (read_or (codes "failed to read header: ") (from_le_bytes len_buf) body
                  >>= decode_header postcard blake3_hash peer)
                ≡ ok r =
              ground (arith, small, more) in
            let ((header_buf, rest), buf, tail) =
              >>=-eq-ok (read_or (codes "failed to read header: ") (from_le_bytes len_buf) body)
                (decode_header postcard blake3_hash peer) rest_read in
            let (header, is, last) =
              >>=-eq-ok (decoded (codes "invalid header: ") (postcard.decode_header header_buf))
                (accepted postcard blake3_hash peer rest) tail in
            accepted-Small peer rest header r last
      ]

  verified-IsVerified :
      (peer : Peer) (blake3 : Bytes) (read r : NarResponseHeader × Bytes)
      → read.0.size ≤ max_nar_size
      → verified postcard blake3_hash peer blake3 read ≡ ok r
      → IsVerified blake3 r
  unfolding verified
  verified-IsVerified peer blake3 (header, rest) r small h =
      let (nar_data, loop, checked) =
        >>=-eq-ok (read_nar_data peer header.size header.size [] rest)
          (check_hash postcard blake3_hash peer blake3 header) h in
      let long = length-read_nar_data peer header.size header.size [] rest nar_data loop in
      check_hash-IsVerified peer blake3 nar_data header r (omega (arith, long)) small checked

  read_remote_error-Fails :
      (peer : Peer) (input : Bytes) (r : NarResponseHeader × Bytes)
      → read_remote_error postcard blake3_hash peer input ≢ ok r
  unfolding read_remote_error
  read_remote_error-Fails peer input r h =
      let ((len_buf, body), got, more) =
        >>=-eq-ok (read_or (codes "failed to read error length: ") 4 input) _ h in
      let ((msg_buf, rest), buf, never) =
        >>=-eq-ok (read_or (codes "failed to read error: ") (min (from_le_bytes len_buf) 1024) body)
          _ more in
      cc

  read_answer-IsVerified :
      (peer : Peer) (blake3 status body : Bytes) (r : NarResponseHeader × Bytes)
      → read_answer postcard blake3_hash peer blake3 (status, body) ≡ ok r
      → IsVerified blake3 r
  unfolding read_answer
  read_answer-IsVerified peer blake3 status body r h = elim (Bool-cases (status == 0 ∷ [])) [
    | inl e ↦ elim (read_remote_error-Fails peer body r (ground (arith, e, h))) [ ]
    | inr e ↦
        let both : (read_header postcard blake3_hash peer body
              >>= verified postcard blake3_hash peer blake3)
            ≡ ok r =
          ground (arith, e, h) in
        let (read, header, rest) =
          >>=-eq-ok (read_header postcard blake3_hash peer body)
            (verified postcard blake3_hash peer blake3) both in
        verified-IsVerified peer blake3 read r (read_header-Small peer body read header) rest
  ]

  -- Whatever the peer answers, a NAR that a fetch returns has the BLAKE3 hash that was asked for and
  -- the length that its header states, which is at most 10 GiB.
  pub fetch_nar_once-IsVerified :
      (peer : Peer) (blake3 : Bytes) (r : NarResponseHeader × Bytes)
      → fetch_nar_once postcard blake3_hash peer blake3 ≡ ok r
      → IsVerified blake3 r
  unfolding fetch_nar_once read_nar_response
  fetch_nar_once-IsVerified peer blake3 r h =
      let read : read_nar_response postcard blake3_hash peer blake3
            (peer.answer (framed (postcard.encode_request (by_blake3 blake3))))
          ≡ ok r =
        ground (arith, h, Bool-cases peer.connects, Bool-cases peer.opens) in
      let ((status, body), first, answer) =
        >>=-eq-ok
          (read_or (codes "failed to read status: ") 1
            (peer.answer (framed (postcard.encode_request (by_blake3 blake3)))))
          (read_answer postcard blake3_hash peer blake3) read in
      read_answer-IsVerified peer blake3 status body r answer

-- Whatever the peers answer, and however often it is tried: a NAR that a fetch with retries returns
-- has the BLAKE3 hash that was asked for and the length that its header states, which is at most 10
-- GiB. The number of attempts is below 2^32.
pub fetch_nar_with_config-IsVerified :
    {Float : Type 0} (floats : Floats Float) (postcard : Postcard) (blake3_hash : Bytes → Bytes)
    (peers : ℕ → Peer) (config : RetryConfig Float) (blake3 : Bytes) (r : NarResponseHeader × Bytes)
    → config.max_retries + 1 < 2 ^ 32
    → fetch_nar_with_config floats postcard blake3_hash peers config blake3 ≡ ok r
    → IsVerified postcard blake3_hash blake3 r
unfolding fetch_nar_with_config with_retry
fetch_nar_with_config-IsVerified floats postcard blake3_hash peers config blake3 r small h =
    let (k, stops) =
      with_retry_stats-StopsAt floats config
        (λ attempt. fetch_nar_once postcard blake3_hash (peers attempt) blake3) small in
    fetch_nar_once-IsVerified postcard blake3_hash (peers k) blake3 r (sym stops.4 ∙ h)
