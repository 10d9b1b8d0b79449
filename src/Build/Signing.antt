-- ===== src/Build/Signing.antt =====
-- iroh-nix/src/build.rs: the signature of a build result. Ed25519 is foreign: a key has 32 bytes in
-- public and signs with 64.
use iroh_nix.Support.{
  ◌≡◌, Bool, true, false, Option, none, some, List, [], ◌∷◌, ◌++◌, Bytes, eq_nat, eq_bytes, length,
  take, drop, replicate, take-append-drop,
}
use iroh_nix.Support.Words.{to_le_bytes}
use iroh_nix.Build.Types.{BuildOutput, BuildResult, JobId, DrvHash}

-- `secret_key.public().as_bytes()`, `sign`, and `verify` of the key that `EndpointId::from_bytes` makes of
-- 32 bytes, if it makes one.
pub record Ed25519 (SecretKey PublicKey : Type 0) : Type 0 where
  pub public : SecretKey → Bytes
  pub sign : SecretKey → Bytes → Bytes
  pub from_bytes : Bytes → Option PublicKey
  pub verify : PublicKey → Bytes → Bytes → Bool

-- What Ed25519 documents: the bytes of a public key are a key again, and a signature is of 64 bytes and
-- verified by the key of the signer.
pub record IsEd25519 {SecretKey PublicKey : Type 0} (e : Ed25519 SecretKey PublicKey) : Type 0 where
  pub key_of : SecretKey → PublicKey
  pub public_back : (k : SecretKey) → e.from_bytes (e.public k) ≡ some (key_of k)
  pub signature_length : (k : SecretKey) (message : Bytes) → length (e.sign k message) ≡ 64
  pub verified :
      (k : SecretKey) (message : Bytes) → e.verify (key_of k) message (e.sign k message) ≡ true

unfoldable pub outputs_data : List BuildOutput → Bytes
outputs_data [] = []
outputs_data (output ∷ outputs) =
    output.store_path
    ++ (output.blake3 ++ (output.sha256 ++ (to_le_bytes 8 output.nar_size ++ outputs_data outputs)))

unfoldable pub result_to_sign_data : BuildResult → Bytes
result_to_sign_data result =
    to_le_bytes 8 result.job_id
    ++ (result.drv_hash ++ (result.builder ++ outputs_data result.outputs))

module _ {SecretKey PublicKey : Type 0} (ed25519 : Ed25519 SecretKey PublicKey) where
  unfoldable pub unsigned : SecretKey → JobId → DrvHash → List BuildOutput → BuildResult
  unsigned secret_key job_id drv_hash outputs = record {
    job_id = job_id;
    drv_hash = drv_hash;
    builder = ed25519.public secret_key;
    outputs = outputs;
    signature_r = replicate 32 0;
    signature_s = replicate 32 0;
  }

  unfoldable pub sign_build_result : SecretKey → JobId → DrvHash → List BuildOutput → BuildResult
  sign_build_result secret_key job_id drv_hash outputs =
      let result = unsigned secret_key job_id drv_hash outputs in
      let sig_bytes = ed25519.sign secret_key (result_to_sign_data result) in
      record result { signature_r = take 32 sig_bytes; signature_s = drop 32 sig_bytes }

  unfoldable pub verified_by : Option PublicKey → Bytes → Bytes → Bool
  verified_by none message signature = false
  verified_by (some builder_id) message signature = ed25519.verify builder_id message signature

  unfoldable pub verify_build_result : BuildResult → Bool
  verify_build_result result =
      verified_by (ed25519.from_bytes result.builder) (result_to_sign_data result)
        (result.signature_r ++ result.signature_s)

  verified_by-some :
      (builder_id : PublicKey) (message signature : Bytes) (o : Option PublicKey) (whole : Bytes)
      → o ≡ some builder_id
      → whole ≡ signature
      → ed25519.verify builder_id message signature ≡ true
      → verified_by o message whole ≡ true
  unfolding verified_by
  verified_by-some builder_id message signature o whole e f t = rw (e, f) t

  -- A result that a builder has signed is verified.
  pub verify_build_result-sign_build_result :
      (secret_key : SecretKey) (job_id : JobId) (drv_hash : DrvHash) (outputs : List BuildOutput)
      → IsEd25519 ed25519
      → verify_build_result (sign_build_result secret_key job_id drv_hash outputs) ≡ true
  unfolding verify_build_result sign_build_result unsigned result_to_sign_data
  verify_build_result-sign_build_result secret_key job_id drv_hash outputs sound =
      let message = result_to_sign_data (unsigned secret_key job_id drv_hash outputs) in
      verified_by-some (sound.key_of secret_key) message (ed25519.sign secret_key message) _ _
        (sound.public_back secret_key) (take-append-drop 32 (ed25519.sign secret_key message))
        (sound.verified secret_key message)
