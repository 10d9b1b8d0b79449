-- ===== src/Substituter/Heads.antt =====
-- iroh-nix/src/substituter.rs: a HEAD request beside the GET request of the same path.
use iroh_nix.Support.{
  ℕ, ◌≡◌, refl, sym, ap, ◌∙◌, inl, inr, Bool, true, false, not, ◌&&◌, Option, none, some, [], ◌∷◌,
  ◌++◌, append-nil, append_assoc, arith, nat_eq, if◌then◌else◌, Bytes, codes, Eq, ◌==◌, eq_nat,
  eq_bytes, length, all, is_empty,
}
use iroh_nix.Support.Texts.{IsGraphic}
use iroh_nix.Support.Lines.{decimal}
use iroh_nix.Support.Decimals.{decimal-IsGraphic}
use iroh_nix.Support.Texts.{strip_prefix}
use iroh_nix.Error.{ok, Result-cases}
use iroh_nix.HashIndex.Entries.{HashEntry}
use iroh_nix.HashIndex.{Table, get_by_blake3}
use iroh_nix.Gossip.{ProviderCache}
use iroh_nix.Transfer.Server.{write_chunks}
use iroh_nix.Substituter.Http.{
  crlf, Reply, response_head, send_response, nar_head, ends_with, is_some,
}
use iroh_nix.Substituter.{
  Services, handle_cache_info, narinfo_reply, narinfo_body, handle_narinfo, serve_local,
  serve_fetched, serve_entry, serve_hash, handle_nar, route, try_fetch_nar_from_peer, found_entry,
  cache_info, requested_entry, requested_hash,
}

-- The bytes up to the first blank line, which is kept.
unfoldable pub head_of : Bytes → Bytes
head_of [] = []
head_of (b ∷ s) =
    let rest = head_of s in
    if is_some (strip_prefix (13 ∷ 10 ∷ 13 ∷ 10 ∷ []) (b ∷ s))
    then 13 ∷ 10 ∷ 13 ∷ 10 ∷ []
    else b ∷ rest

-- The first reply has no error and is just the second one's bytes up to its first blank line.
abbrev pub IsHead : Reply → Reply → Type 0
IsHead head whole =
    (head.result ≡ ok tt)
    × (head.sent ≡ head_of whole.sent)
    × (body : Bytes) × (whole.sent ≡ head.sent ++ body)

-- A text without the byte that ends a line.
abbrev plain : Bytes → Bool
plain s = all (λ b. not (nat_eq b 13)) s

-- Whatever stands behind this text, its first blank line is at its end.
abbrev IsCut : Bytes → Type 0
IsCut h = (body : Bytes) → head_of (h ++ body) ≡ h

head_of-plain : (s t : Bytes) → plain s ≡ true → head_of (s ++ t) ≡ s ++ head_of t
unfolding head_of strip_prefix is_some
head_of-plain [] t h = refl
head_of-plain (b ∷ s) t h =
    ground
      (arith, h, head_of-plain s t (ground (arith, h)), eq_nat.beq_iff b 13, eq_nat.beq_iff 13 b)

plain-IsCut : (s t : Bytes) → plain s ≡ true → IsCut t → IsCut (s ++ t)
plain-IsCut s t h cut body =
    ap head_of (append_assoc s t body) ∙ head_of-plain s (t ++ body) h ∙ ap (λ l. s ++ l) (cut body)

-- The end of a line, where the next one starts with a `C`.
line-IsCut : (t : Bytes) → IsCut (67 ∷ t) → IsCut (crlf ++ 67 ∷ t)
unfolding head_of strip_prefix is_some
line-IsCut t cut body = ap (λ l. 13 ∷ 10 ∷ l) (cut body)

end-IsCut : IsCut (crlf ++ crlf)
unfolding head_of strip_prefix is_some
end-IsCut body = refl

graphic-plain : (s : Bytes) → IsGraphic s → plain s ≡ true
graphic-plain [] h = refl
graphic-plain (b ∷ s) ((low, high), h) = ground (arith, low, graphic-plain s h)

decimal-plain : (n : ℕ) → plain (decimal n) ≡ true
decimal-plain n = graphic-plain (decimal n) (decimal-IsGraphic n).1

size-IsCut : (size : ℕ) → IsCut (codes "Content-Length: " ++ (decimal size ++ (crlf ++ crlf)))
size-IsCut size =
    plain-IsCut (codes "Content-Length: ") (decimal size ++ (crlf ++ crlf)) refl
      (plain-IsCut (decimal size) (crlf ++ crlf) (decimal-plain size) end-IsCut)

response_head-IsCut :
    (status : ℕ) (status_text content_type : Bytes) (size : ℕ)
    → plain status_text ≡ true
    → plain content_type ≡ true
    → IsCut (response_head status status_text content_type size)
unfolding response_head
response_head-IsCut status status_text content_type size text type =
    let sized = codes "Content-Length: " ++ (decimal size ++ (crlf ++ crlf)) in
    let typed = codes "Content-Type: " ++ (content_type ++ (crlf ++ sized)) in
    plain-IsCut (codes "HTTP/1.1 ") (decimal status ++ (32 ∷ status_text ++ (crlf ++ typed))) refl (
      plain-IsCut (decimal status) (32 ∷ status_text ++ (crlf ++ typed)) (decimal-plain status) (
        plain-IsCut (32 ∷ status_text) (crlf ++ typed) (ground (arith, text)) (
          line-IsCut (codes "ontent-Type: " ++ (content_type ++ (crlf ++ sized))) (
            plain-IsCut (codes "Content-Type: ") (content_type ++ (crlf ++ sized)) refl (
              plain-IsCut content_type (crlf ++ sized) type (
                line-IsCut (codes "ontent-Length: " ++ (decimal size ++ (crlf ++ crlf)))
                  (size-IsCut size)))))))

nar_head-IsCut : (size : ℕ) → IsCut (nar_head size)
unfolding nar_head
nar_head-IsCut size =
    let sized = codes "Content-Length: " ++ (decimal size ++ (crlf ++ crlf)) in
    let typed = codes "Content-Type: application/x-nix-nar" ++ (crlf ++ sized) in
    plain-IsCut (codes "HTTP/1.1 200 OK") (crlf ++ typed) refl (
      line-IsCut (codes "ontent-Type: application/x-nix-nar" ++ (crlf ++ sized)) (
        plain-IsCut (codes "Content-Type: application/x-nix-nar") (crlf ++ sized) refl (
          line-IsCut (codes "ontent-Length: " ++ (decimal size ++ (crlf ++ crlf)))
            (size-IsCut size))))

cut-IsHead :
    (head whole : Reply) (body : Bytes)
    → head.result ≡ ok tt
    → IsCut head.sent
    → whole.sent ≡ head.sent ++ body
    → IsHead head whole
cut-IsHead head whole body fine cut split = (fine, sym (ap head_of split ∙ cut body), body, split)

send_response-IsHead :
    (status : ℕ) (status_text content_type body : Bytes)
    → plain status_text ≡ true
    → plain content_type ≡ true
    → IsHead
        (send_response status status_text content_type body true)
        (send_response status status_text content_type body false)
unfolding send_response is_empty
send_response-IsHead status status_text content_type [] text type =
    cut-IsHead (send_response status status_text content_type [] true)
      (send_response status status_text content_type [] false) [] refl
      (response_head-IsCut status status_text content_type 0 text type)
      (sym (append-nil (response_head status status_text content_type 0)))
send_response-IsHead status status_text content_type (b ∷ body) text type =
    cut-IsHead (send_response status status_text content_type (b ∷ body) true)
      (send_response status status_text content_type (b ∷ body) false) (b ∷ body) refl
      (response_head-IsCut status status_text content_type (length (b ∷ body)) text type) refl

if-IsHead :
    (test : Bool) (head whole other_head other : Reply)
    → IsHead head whole
    → IsHead other_head other
    → IsHead (if test then head else other_head) (if test then whole else other)
if-IsHead true head whole other_head other h k = h
if-IsHead false head whole other_head other h k = k

narinfo_reply-IsHead :
    (hex_encode : Bytes → Bytes) (entry : Option HashEntry)
    → IsHead (narinfo_reply hex_encode entry true) (narinfo_reply hex_encode entry false)
unfolding narinfo_reply
narinfo_reply-IsHead hex_encode none =
    send_response-IsHead 404 (codes "Not Found") (codes "text/plain") (codes "Not Found") refl refl
narinfo_reply-IsHead hex_encode (some entry) =
    send_response-IsHead 200 (codes "OK") (codes "text/x-nix-narinfo")
      (narinfo_body hex_encode entry) refl refl

module _ {EndpointId : Type 0} ⦃e : Eq EndpointId⦄ (s : Services EndpointId) (index : Table)
    (p2p : Option (ProviderCache EndpointId)) where
  serve_local-IsHead :
      (entry : HashEntry)
      → IsHead (serve_local s index p2p entry true) (serve_local s index p2p entry false)
  unfolding serve_local
  serve_local-IsHead entry = elim (Result-cases (s.serialize_path entry.store_path)) [
    | inl (nar_data, made) ↦
        cut-IsHead (serve_local s index p2p entry true) (serve_local s index p2p entry false)
          (write_chunks (length nar_data) nar_data) refl (nar_head-IsCut entry.nar_size)
          (ground (arith, made))
    | inr (inl (x, made)) ↦
        cut-IsHead (serve_local s index p2p entry true) (serve_local s index p2p entry false) []
          refl (nar_head-IsCut entry.nar_size)
          (ground (arith, made, append-nil (nar_head entry.nar_size)))
    | inr (inr made) ↦
        cut-IsHead (serve_local s index p2p entry true) (serve_local s index p2p entry false) []
          refl (nar_head-IsCut entry.nar_size)
          (ground (arith, made, append-nil (nar_head entry.nar_size)))
  ]

  serve_fetched-IsHead :
      (fetched : Option Bytes)
      → IsHead (serve_fetched s index p2p fetched true) (serve_fetched s index p2p fetched false)
  unfolding serve_fetched
  serve_fetched-IsHead none =
      send_response-IsHead 404 (codes "Not Found") (codes "text/plain")
        (codes "Store path not found") refl refl
  serve_fetched-IsHead (some nar_data) =
      cut-IsHead (serve_fetched s index p2p (some nar_data) true)
        (serve_fetched s index p2p (some nar_data) false) (write_chunks (length nar_data) nar_data)
        refl (nar_head-IsCut (length nar_data)) refl

  serve_entry-IsHead :
      (blake3 : Bytes) (entry : Option HashEntry)
      → IsHead
          (serve_entry s index p2p blake3 entry true)
          (serve_entry s index p2p blake3 entry false)
  unfolding serve_entry
  serve_entry-IsHead blake3 none =
      send_response-IsHead 404 (codes "Not Found") (codes "text/plain") (codes "Not Found") refl
        refl
  serve_entry-IsHead blake3 (some entry) =
      if-IsHead (s.exists entry.store_path) _ _ _ _ (serve_local-IsHead entry)
        (serve_fetched-IsHead (try_fetch_nar_from_peer s index p2p blake3))

  serve_hash-IsHead :
      (blake3 : Option Bytes)
      → IsHead (serve_hash s index p2p blake3 true) (serve_hash s index p2p blake3 false)
  unfolding serve_hash
  serve_hash-IsHead none =
      send_response-IsHead 400 (codes "Bad Request") (codes "text/plain") (codes "Invalid hash")
        refl refl
  serve_hash-IsHead (some blake3) =
      if-IsHead (nat_eq (length blake3) 32) _ _ _ _
        (serve_entry-IsHead blake3 (found_entry (get_by_blake3 s.answers blake3 index)))
        (send_response-IsHead 400 (codes "Bad Request") (codes "text/plain") (codes "Invalid hash")
          refl refl)

  -- Whatever path is asked for, and whatever the index, the disk and the peers hold: a HEAD request ends
  -- without an error, and gets exactly what the GET request gets up to the first blank line, which ends the
  -- head.
  pub route-IsHead :
      (priority : ℕ) (path : Bytes)
      → IsHead (route s index p2p priority path true) (route s index p2p priority path false)
  unfolding route handle_cache_info handle_narinfo handle_nar
  route-IsHead priority path =
      if-IsHead (path == codes "/nix-cache-info") _ _ _ _
        (send_response-IsHead 200 (codes "OK") (codes "text/x-nix-cache-info") (cache_info priority)
          refl refl)
        (if-IsHead (ends_with (codes ".narinfo") path) _ _ _ _
          (narinfo_reply-IsHead s.hex_encode (requested_entry s index p2p path))
          (if-IsHead (is_some (strip_prefix (codes "/nar/") path) && ends_with (codes ".nar") path)
            _ _ _ _ (serve_hash-IsHead (requested_hash s index p2p path))
            (send_response-IsHead 404 (codes "Not Found") (codes "text/plain") (codes "Not Found")
              refl refl)))
