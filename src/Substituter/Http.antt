-- ===== src/Substituter/Http.antt =====
-- iroh-nix/src/substituter.rs: the requests and the responses as texts, and what it cuts out of a path.
use iroh_nix.Support.{
  ℕ, zero, suc, Bool, true, false, not, ◌&&◌, Option, none, some, [], ◌∷◌, ◌++◌, reverse, nat_eq,
  if◌then◌else◌, Bytes, codes, eq_nat, eq_bytes, length, is_empty,
}
use iroh_nix.Support.Texts.{strip_prefix}
use iroh_nix.Support.Lines.{trim, decimal}
use iroh_nix.Support.Utf8.{is_utf8}
use iroh_nix.Error.{other_kind, io, Result, ok, err, ◌>>=◌}

-- `s.trim_start_matches(pat)` of a pattern that is not empty, on fuel, of which the length of `s` is
-- enough
unfoldable pub trim_start_matches_from : ℕ → Bytes → Bytes → Bytes
trim_start_matches_from zero pat s = s
trim_start_matches_from (suc fuel) pat s = elim (strip_prefix pat s) [
  | none ↦ s
  | some rest ↦ trim_start_matches_from fuel pat rest
]

unfoldable pub trim_start_matches : Bytes → Bytes → Bytes
trim_start_matches pat s = trim_start_matches_from (length s) pat s

-- `s.trim_end_matches(pat)` and `s.ends_with(pat)`
unfoldable pub trim_end_matches : Bytes → Bytes → Bytes
trim_end_matches pat s = reverse (trim_start_matches (reverse pat) (reverse s))

unfoldable pub is_some {ℓ} : {A : Type ℓ} → Option A → Bool
is_some none = false
is_some (some a) = true

unfoldable pub ends_with : Bytes → Bytes → Bool
ends_with pat s = is_some (strip_prefix (reverse pat) (reverse s))

abbrev pub crlf : Bytes
crlf = 13 ∷ 10 ∷ []

-- What has been written, and the result.
pub record Reply : Type 0 where
  pub sent : Bytes
  pub result : Result (Unit {0})

abbrev pub replied : Bytes → Reply
replied sent = record { sent = sent; result = ok tt }

unfoldable pub response_head : ℕ → Bytes → Bytes → ℕ → Bytes
response_head status status_text content_type size =
    codes "HTTP/1.1 "
    ++ (decimal status
        ++ (32 ∷ status_text
            ++ (crlf
                ++ (codes "Content-Type: "
                    ++ (content_type
                        ++ (crlf
                            ++ (codes "Content-Length: " ++ (decimal size ++ (crlf ++ crlf)))))))))

unfoldable pub send_response : ℕ → Bytes → Bytes → Bytes → Bool → Reply
send_response status status_text content_type body is_head =
    let head = response_head status status_text content_type (length body) in
    replied (if not is_head && not (is_empty body) then head ++ body else head)

unfoldable pub nar_head : ℕ → Bytes
nar_head size =
    codes "HTTP/1.1 200 OK"
    ++ (crlf
        ++ (codes "Content-Type: application/x-nix-nar"
            ++ (crlf ++ (codes "Content-Length: " ++ (decimal size ++ (crlf ++ crlf))))))

-- `read_line`: the bytes up to the next `\n`, which is kept, or to the end
unfoldable pub next_line : Bytes → Bytes × Bytes
next_line [] = ([], [])
next_line (b ∷ input) =
    let (line, rest) = next_line input in if nat_eq b 10 then (b ∷ [], input) else (b ∷ line, rest)

unfoldable pub read_line : Bytes → Result (Bytes × Bytes)
read_line input =
    let (line, rest) = next_line input in
    if is_utf8 line then ok (line, rest) else err (io other_kind)

-- The loop over the headers, on fuel, one more than the bytes of the input.
unfoldable pub skip_headers : ℕ → Bytes → Result Bytes
skip_headers zero input = ok input
skip_headers (suc fuel) input = do
  (line, rest) ← read_line input
  if is_empty (trim line) then ok rest else skip_headers fuel rest
