-- ===== src/Transfer/Exchange.antt =====
-- iroh-nix/src/transfer.rs: a client that asks a node that has the NAR, and one that has not.
use iroh_nix.Support.{
  ℕ, zero, suc, ◌-◌, ◌%◌, ◌^◌, ◌≤◌, ◌<◌, min, ◌≡◌, refl, sym, ap, ◌∙◌, true, false, none, some, [],
  ◌∷◌, ◌++◌, append-nil, append_assoc, arith, ltb, leb, Bytes, codes, bytes_eq, eq_nat, eq_bytes,
  ==-refl, length, take, drop, length-append, take-append-drop, length-take, length-drop,
  take-append, drop-append,
}
use iroh_nix.Support.Words.{
  to_le_bytes, from_le_bytes, from_le_bytes-to_le_bytes, length-to_le_bytes,
}
use iroh_nix.Support.Utf8.{is_utf8, is_utf8-ascii}
use iroh_nix.Error.{remote, ok, err}
use iroh_nix.HashIndex.Entries.{HashEntry}
use iroh_nix.HashIndex.{Table, get_by_blake3}
use iroh_nix.Transfer.{
  NarRequest, NarResponseHeader, Postcard, IsPostcard, decoded, framed, read_or, by_blake3,
  read_nar_request, send_error_response,
}
use iroh_nix.Transfer.Server.{
  Node, Served, success_header, write_chunks, stream_nar_from_path, handle_nar_by_blake3,
  handle_nar_accepted,
}
use iroh_nix.Transfer.Client.{
  Peer, max_nar_size, read_some, read_nar_data, read_remote_error, read_header, read_header_body,
  decode_header, accepted, check_hash, read_answer, verified, read_nar_response, fetch_nar_once,
}

read_or-prefix :
    (message : Bytes) (n : ℕ) (xs ys : Bytes)
    → length xs ≡ n
    → read_or message n (xs ++ ys) ≡ ok (xs, ys)
unfolding read_or
read_or-prefix message n xs ys h =
    let fits : leb (length xs) (length (xs ++ ys)) ≡ true = ground (arith, length-append xs ys) in
    rw (sym h, fits, take-append xs ys, drop-append xs ys) refl

-- A frame is read back by its length and then its bytes.
framed-length :
    (message bytes rest : Bytes)
    → length bytes < 2 ^ 32
    → (len_buf : Bytes) × (read_or message 4 (framed bytes ++ rest) ≡ ok (len_buf, bytes ++ rest))
      × (from_le_bytes len_buf ≡ length bytes)
unfolding framed
framed-length message bytes rest h =
    let len = to_le_bytes 4 (length bytes % 2 ^ 32) in
    let small : length bytes % 2 ^ 32 ≡ length bytes = omega arith in
    (
      len,
      rw (append_assoc len bytes rest) (
          read_or-prefix message 4 len (bytes ++ rest)
            (length-to_le_bytes 4 (length bytes % 2 ^ 32))),
      from_le_bytes-to_le_bytes 4 (length bytes % 2 ^ 32) (omega arith) ∙ small,
    )

-- Cutting into chunks changes nothing.
write_chunks-whole :
    (fuel : ℕ) (bytes : Bytes) → length bytes ≤ fuel → write_chunks fuel bytes ≡ bytes
unfolding write_chunks
write_chunks-whole zero [] h = refl
write_chunks-whole zero (b ∷ bytes) h = ground (arith, h)
write_chunks-whole (suc fuel) [] h = refl
write_chunks-whole (suc fuel) (b ∷ bytes) h =
    let rest =
      write_chunks-whole fuel (drop 65536 (b ∷ bytes))
        (rw (length-drop 65536 (b ∷ bytes)) (omega arith)) in
    ap (λ r. take 65536 (b ∷ bytes) ++ r) rest ∙ take-append-drop 65536 (b ∷ bytes)

-- `recv.read` gives at least one byte where there is one.
abbrev pub IsReading : Peer → Type 0
IsReading peer = (b : ℕ) (input : Bytes) (n : ℕ) → 0 < n → 0 < peer.chunk (b ∷ input) n

-- Such a read takes a first part that is not empty.
read_some-part :
    (peer : Peer) (n b : ℕ) (input : Bytes)
    → IsReading peer
    → 0 < n
    → (k : ℕ) × (k < n) × (read_some peer n (b ∷ input) ≡ some (b ∷ take k input, drop k input))
unfolding read_some
read_some-part peer n b input reading some_room =
    let given = min (peer.chunk (b ∷ input) n) n in
    let split : given ≡ suc (given - 1) = omega (arith, reading b input n some_room) in
    (given - 1, omega (arith, split), ap (λ m. some (take m (b ∷ input), drop m (b ∷ input))) split)

-- A round that reads something.
read_nar_data-part :
    (peer : Peer) (fuel remaining b : ℕ) (nar_data input buf rest : Bytes)
    → read_some peer (min (suc remaining) 65536) input ≡ some (b ∷ buf, rest)
    → read_nar_data peer (suc fuel) (suc remaining) nar_data input
      ≡ read_nar_data peer fuel (suc remaining - length (b ∷ buf)) (nar_data ++ b ∷ buf) rest
unfolding read_nar_data
read_nar_data-part peer fuel remaining b nar_data input buf rest e = ground (arith, e)

read_nar_data-whole :
    (peer : Peer) (fuel remaining : ℕ) (nar_data input : Bytes)
    → IsReading peer
    → length input ≡ remaining
    → remaining ≤ fuel
    → read_nar_data peer fuel remaining nar_data input ≡ ok (nar_data ++ input)
unfolding read_nar_data
read_nar_data-whole peer fuel zero nar_data [] reading long enough =
    ap ok (sym (append-nil nar_data))
read_nar_data-whole peer fuel zero nar_data (b ∷ input) reading long enough = ground (arith, long)
read_nar_data-whole peer zero (suc remaining) nar_data input reading long enough =
    ground (arith, enough)
read_nar_data-whole peer (suc fuel) (suc remaining) nar_data [] reading long enough =
    ground (arith, long)
read_nar_data-whole peer (suc fuel) (suc remaining) nar_data (b ∷ input) reading long enough =
    let (k, less, part) =
      read_some-part peer (min (suc remaining) 65536) b input reading (omega arith) in
    let taken : length (b ∷ take k input) ≡ suc k = omega (arith, length-take k input) in
    let left : length (drop k input) ≡ suc remaining - suc k = omega (arith, length-drop k input) in
    rw
      (
        read_nar_data-part peer fuel remaining b nar_data (b ∷ input) (take k input) (drop k input)
            part,
        taken,
      )
      (read_nar_data-whole peer fuel (suc remaining - suc k) (nar_data ++ b ∷ take k input)
          (drop k input) reading left (omega arith)
        ∙ ap ok (
            append_assoc nar_data (b ∷ take k input) (drop k input)
            ∙ ap (λ r. nar_data ++ b ∷ r) (take-append-drop k input)))

module _ (postcard : Postcard) (coded : IsPostcard postcard) (blake3_hash : Bytes → Bytes)
    (peer : Peer) where
  -- An answer that starts with a header and goes on with the NAR.
  read_nar_response-success :
      (blake3 nar_data : Bytes) (header : NarResponseHeader)
      → IsReading peer
      → length (postcard.encode_header header) ≤ 65536
      → header.size ≤ max_nar_size
      → header.size ≡ length nar_data
      → blake3_hash nar_data ≡ blake3
      → read_nar_response postcard blake3_hash peer blake3
          (success_header postcard header ++ nar_data)
        ≡ ok (header, nar_data)
  unfolding read_nar_response read_answer read_header read_header_body decode_header decoded
      accepted verified check_hash success_header bytes_eq
  read_nar_response-success blake3 nar_data header reading fits small size hash =
      let (len_buf, framed_read, len) =
        framed-length (codes "failed to read header length: ") (postcard.encode_header header)
          nar_data (omega arith) in
      let body =
        read_or-prefix (codes "failed to read header: ") (from_le_bytes len_buf)
          (postcard.encode_header header) nar_data (sym len) in
      let first =
        read_or-prefix (codes "failed to read status: ") 1 (1 ∷ [])
          (framed (postcard.encode_header header) ++ nar_data) refl in
      let short : ltb 65536 (from_le_bytes len_buf) ≡ false = ground (arith, len) in
      let allowed : ltb max_nar_size header.size ≡ false = ground arith in
      rw
        (
          first,
          framed_read,
          short,
          body,
          coded.header_back header,
          allowed,
          read_nar_data-whole peer header.size header.size [] nar_data reading (sym size)
              (omega arith),
          hash,
          ==-refl blake3,
        )
        refl

  -- An answer that is an error.
  read_nar_response-error :
      (blake3 message : Bytes)
      → length message ≤ 1024
      → read_nar_response postcard blake3_hash peer blake3 (send_error_response message)
        ≡ err (remote (peer.from_utf8_lossy message))
  unfolding read_nar_response read_answer read_remote_error send_error_response bytes_eq
  read_nar_response-error blake3 message short =
      let (len_buf, framed_read, len) =
        framed-length (codes "failed to read error length: ") message [] (omega arith) in
      let alone : read_or (codes "failed to read error length: ") 4 (framed message)
          ≡ ok (len_buf, message ++ []) =
        ap (read_or (codes "failed to read error length: ") 4) (sym (append-nil (framed message)))
        ∙ framed_read in
      let first =
        read_or-prefix (codes "failed to read status: ") 1 (0 ∷ []) (framed message) refl in
      let body =
        read_or-prefix (codes "failed to read error: ") (min (from_le_bytes len_buf) 1024) message
          [] (omega (arith, len)) in
      rw (first, alone, body) refl

  -- A request is read back from its frame.
  read_nar_request-framed :
      (request : NarRequest)
      → length (postcard.encode_request request) ≤ 1024
      → read_nar_request postcard (framed (postcard.encode_request request)) ≡ ok request
  unfolding read_nar_request decoded
  read_nar_request-framed request short =
      let bytes = postcard.encode_request request in
      let (len_buf, framed_read, len) =
        framed-length (codes "failed to read request length: ") bytes [] (omega arith) in
      let alone : read_or (codes "failed to read request length: ") 4 (framed bytes)
          ≡ ok (len_buf, bytes ++ []) =
        ap (read_or (codes "failed to read request length: ") 4) (sym (append-nil (framed bytes)))
        ∙ framed_read in
      let small : ltb 1024 (from_le_bytes len_buf) ≡ false = ground (arith, len) in
      let body =
        read_or-prefix (codes "failed to read request: ") (from_le_bytes len_buf) bytes []
          (sym len) in
      rw (alone, small, body, coded.request_back request) refl

  -- A client that reaches the node reads its answer.
  fetch_nar_once-opened :
      (blake3 : Bytes)
      → peer.connects ≡ true
      → peer.opens ≡ true
      → fetch_nar_once postcard blake3_hash peer blake3
        ≡ read_nar_response postcard blake3_hash peer blake3
            (peer.answer (framed (postcard.encode_request (by_blake3 blake3))))
  unfolding fetch_nar_once
  fetch_nar_once-opened blake3 up opened = ground (arith, up, opened)

  module _ (node : Node) (index : Table) (blake3 : Bytes) where
    handle_nar_accepted-request :
        length (postcard.encode_request (by_blake3 blake3)) ≤ 1024
        → handle_nar_accepted postcard node
            (framed (postcard.encode_request (by_blake3 blake3)))
            index
          ≡ handle_nar_by_blake3 postcard node blake3 index
    unfolding handle_nar_accepted
    handle_nar_accepted-request short =
        ground (arith, read_nar_request-framed (by_blake3 blake3) short)

    handle_nar_by_blake3-sent :
        (entry : HashEntry) (nar_data : Bytes)
        → get_by_blake3 node.answers blake3 index ≡ ok (some entry)
        → node.exists entry.store_path ≡ true
        → node.serialize_path entry.store_path ≡ ok nar_data
        → (handle_nar_by_blake3 postcard node blake3 index).sent
          ≡ success_header postcard (record {
            size = entry.nar_size;
            sha256 = entry.sha256;
            store_path = entry.store_path;
          })
            ++ nar_data
    unfolding handle_nar_by_blake3 stream_nar_from_path
    handle_nar_by_blake3-sent entry nar_data indexed there made =
        ground (arith, indexed, there, made, write_chunks-whole (length nar_data) nar_data)

    handle_nar_by_blake3-unknown :
        get_by_blake3 node.answers blake3 index ≡ ok none
        → (handle_nar_by_blake3 postcard node blake3 index).sent
          ≡ send_error_response (codes "hash not found in index")
    unfolding handle_nar_by_blake3
    handle_nar_by_blake3-unknown unknown = ground (arith, unknown)

    -- What the client reads of the node's answer.
    fetched :
        (answer : Bytes)
        → peer.connects ≡ true
        → peer.opens ≡ true
        → ((request : Bytes)
            → peer.answer request ≡ (handle_nar_accepted postcard node request index).sent)
        → length (postcard.encode_request (by_blake3 blake3)) ≤ 1024
        → (handle_nar_by_blake3 postcard node blake3 index).sent ≡ answer
        → fetch_nar_once postcard blake3_hash peer blake3
          ≡ read_nar_response postcard blake3_hash peer blake3 answer
    fetched answer up opened honest short sent =
        fetch_nar_once-opened blake3 up opened
        ∙ ap (read_nar_response postcard blake3_hash peer blake3) (
            honest (framed (postcard.encode_request (by_blake3 blake3)))
            ∙ ap (λ (s : Served). s.sent) (handle_nar_accepted-request short)
            ∙ sent)

    -- A node whose index has the hash, with the size of the NAR that it makes of the path on disk, is
    -- asked for it: the client gets that NAR, with the size, the SHA-256 hash and the path of the index.
    -- The request takes up to 1024 bytes, the header up to 64 KiB and the NAR up to 10 GiB.
    pub fetch_nar_once-served :
        (entry : HashEntry) (nar_data : Bytes)
        → IsReading peer
        → peer.connects ≡ true
        → peer.opens ≡ true
        → ((request : Bytes)
            → peer.answer request ≡ (handle_nar_accepted postcard node request index).sent)
        → length (postcard.encode_request (by_blake3 blake3)) ≤ 1024
        → length (
            postcard.encode_header (record {
              size = entry.nar_size;
              sha256 = entry.sha256;
              store_path = entry.store_path;
            }))
          ≤ 65536
        → get_by_blake3 node.answers blake3 index ≡ ok (some entry)
        → node.exists entry.store_path ≡ true
        → node.serialize_path entry.store_path ≡ ok nar_data
        → blake3_hash nar_data ≡ blake3
        → entry.nar_size ≡ length nar_data
        → entry.nar_size ≤ max_nar_size
        → fetch_nar_once postcard blake3_hash peer blake3
          ≡ ok (
            record { size = entry.nar_size; sha256 = entry.sha256; store_path = entry.store_path },
            nar_data,
          )
    fetch_nar_once-served entry nar_data reading up opened honest short fits indexed there made hash
          size small =
        let header : NarResponseHeader = record {
          size = entry.nar_size;
          sha256 = entry.sha256;
          store_path = entry.store_path;
        } in
        fetched (success_header postcard header ++ nar_data) up opened honest short
          (handle_nar_by_blake3-sent entry nar_data indexed there made)
        ∙ read_nar_response-success blake3 nar_data header reading fits small size hash

    -- A node whose index has not got the hash is asked for it: the client gets the error that the node
    -- sends.
    fetch_nar_once-unknown :
        peer.connects ≡ true
        → peer.opens ≡ true
        → ((request : Bytes)
            → peer.answer request ≡ (handle_nar_accepted postcard node request index).sent)
        → ((text : Bytes) → is_utf8 text ≡ true → peer.from_utf8_lossy text ≡ text)
        → length (postcard.encode_request (by_blake3 blake3)) ≤ 1024
        → get_by_blake3 node.answers blake3 index ≡ ok none
        → fetch_nar_once postcard blake3_hash peer blake3
          ≡ err (remote (codes "hash not found in index"))
    fetch_nar_once-unknown up opened honest lossy short unknown =
        let message = codes "hash not found in index" in
        fetched (send_error_response message) up opened honest short
          (handle_nar_by_blake3-unknown unknown)
        ∙ read_nar_response-error blake3 message (omega arith)
        ∙ ap (λ text. err (remote text)) (lossy message (is_utf8-ascii message (ground arith)))
