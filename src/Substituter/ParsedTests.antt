-- ===== src/Substituter/ParsedTests.antt =====
-- The narinfo of an entry with a reference and a deriver.
use iroh_nix.Support.{
  ℕ, zero, suc, ◌<◌, ◌≡◌, refl, ap, Option, none, some, [], ◌∷◌, arith, Bytes, codes, eq_nat,
  eq_bytes, length, replicate,
}
use iroh_nix.Support.Words.{IsBytes}
use iroh_nix.Support.Trimmed.{graphic}
use iroh_nix.Error.{ok}
use iroh_nix.HashIndex.Entries.{HashEntry}
use iroh_nix.HashIndex.RoundTrip.{IsEntry}
use iroh_nix.HttpCache.NarInfos.{Decoders, parse}
use iroh_nix.Substituter.{narinfo_body}
use iroh_nix.Substituter.Parsed.{narinfo_of, parse-narinfo_body}

abbrev no_decoders : Decoders
no_decoders = record { hex_decode = λ s. none; base64_decode = λ s. none }

abbrev hello : HashEntry
hello = record {
  blake3 = replicate 32 9;
  sha256 = replicate 32 201;
  store_path = codes "/nix/store/abc-hello";
  nar_size = 120;
  references = codes "/nix/store/def-glibc" ∷ [];
  deriver = some (codes "/nix/store/ghi-hello.drv");
}

-- The hexadecimal digits of the hash of this entry.
abbrev hex_digits : Bytes → Bytes
hex_digits s = codes "0909"

abbrev option_length : Option Bytes → ℕ
option_length none = 0
option_length (some s) = length s

hello-IsEntry : IsEntry hello
hello-IsEntry = record {
  blake3_length = refl;
  sha256_length = refl;
  size_fits = omega arith;
  references_stored = ((codes "def-glibc", refl, (λ e. cc), graphic (codes "def-glibc") refl), tt);
  deriver_stored = (codes "ghi-hello.drv", refl, (λ e. cc), graphic (codes "ghi-hello.drv") refl);
}

replicate-IsBytes : (n b : ℕ) → b < 256 → IsBytes (replicate n b)
replicate-IsBytes zero b h = tt
replicate-IsBytes (suc n) b h = (h, replicate-IsBytes n b h)

parse-narinfo_body_example :
    parse no_decoders (narinfo_body hex_digits hello) ≡ ok (narinfo_of hex_digits hello)
parse-narinfo_body_example =
    parse-narinfo_body no_decoders hex_digits hello hello-IsEntry
      (replicate-IsBytes 32 201 (omega arith))
      ((λ e. cc), graphic (codes "/nix/store/abc-hello") refl) (graphic (codes "0909") refl)
      (λ e. omega (arith, ap option_length e))
