-- ===== src/Build/SigningTests.antt =====
-- What is signed of build results.
use iroh_nix.Support.{◌≡◌, refl, [], ◌∷◌, ◌++◌, Bytes, codes, eq_nat, eq_bytes, replicate}
use iroh_nix.Support.Words.{to_le_bytes}
use iroh_nix.Build.Types.{BuildOutput}
use iroh_nix.Build.Signing.{outputs_data}

-- The outputs are signed without their lengths: two outputs, and one whose path holds the other's bytes.
abbrev sample : Bytes → BuildOutput
sample path = record {
  store_path = path;
  blake3 = replicate 32 66;
  sha256 = replicate 32 67;
  nar_size = 68;
}

same_data :
    outputs_data (sample (codes "a") ∷ sample (codes "b") ∷ [])
    ≡ outputs_data (
        sample (97 ∷ (replicate 32 66 ++ (replicate 32 67 ++ (68 ∷ replicate 7 0 ++ codes "b"))))
        ∷ [])
unfolding outputs_data to_le_bytes
same_data = refl
