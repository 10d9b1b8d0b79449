-- ===== src/NixInfo.antt =====
-- iroh-nix/src/nix_info.rs: the metadata that Nix has of a store path. The command `nix path-info`
-- and base64 are foreign: what they give is an argument.
use iroh_nix.Support.{
  ℕ, Bool, false, Option, none, some, List, ltb, nat_eq, if◌then◌else◌, Bytes, codes, eq_nat,
  eq_bytes, length,
}
use iroh_nix.Support.Texts.{strip_prefix}
use iroh_nix.Error.{protocol, Result, ok, err}
use iroh_nix.Nix32.{decode_nix32}

pub record NixPathInfo : Type 0 where
  pub path : Bytes
  pub nar_hash : Bytes
  pub nar_size : ℕ
  pub references : List Bytes
  pub deriver : Option Bytes
  pub signatures : List Bytes

-- `bytes.try_into()` of what base64 gives
unfoldable pub into_32_bytes : Option Bytes → Result Bytes
into_32_bytes none = err (protocol (codes "invalid base64 in narHash: "))
into_32_bytes (some bytes) =
    if nat_eq (length bytes) 32
    then ok bytes
    else err (protocol (codes "narHash base64 is not 32 bytes"))

module _ (base64_decode : Bytes → Option Bytes) where
  unfoldable pub sha256_bytes : NixPathInfo → Result Bytes
  sha256_bytes info = elim (strip_prefix (codes "sha256-") info.nar_hash) [
    | some b64 ↦ into_32_bytes (base64_decode b64)
    | none ↦ elim (strip_prefix (codes "sha256:") info.nar_hash) [
      | some nix32 ↦ decode_nix32 nix32
      | none ↦ err (protocol (codes "unsupported narHash format: "))
    ]
  ]

unfoldable pub is_valid_store_path : Bytes → Bool
is_valid_store_path path = elim (strip_prefix (codes "/nix/store/") path) [
  | none ↦ false
  | some rest ↦ ltb 11 (length path)
]
