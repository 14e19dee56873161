-- ===== src/Brain/Vault.antt =====
-- Keys, encryption and signatures. The cipher, the key derivation, the signatures, the hash, base64 and
-- serde_json are parameters over a type of byte strings.
pub mod Laws
use cortex_v3_1_rmvm_relatio.Base.{
  ℕ, ◌≡◌, Bool, not, String, Option, some, ◌==◌, ok, ◌>>=◌, ◌>>◌, ok_or, reject_if,
}
use cortex_v3_1_rmvm_relatio.Planner.Json.{JsonValue}
use cortex_v3_1_rmvm_relatio.Brain.Types.{BrainManifest, BrainState, EncryptedBlob, Stop, Fallible}

-- What the crates argon2, chacha20poly1305, ed25519-dalek, sha2, base64 and serde_json compute.
pub record Vault (Bytes : Type 0) : Type 0 where
  pub size : Bytes → ℕ
  pub utf8 : String → Bytes
  pub sha256_hex : Bytes → String
  pub b64_encode : Bytes → String
  pub b64_decode : String → Fallible Bytes
  -- `Argon2::default().hash_password_into`, of the secret and the salt
  pub derive_key : Bytes → Bytes → Fallible Bytes
  -- XChaCha20-Poly1305: key, nonce, associated data, text
  pub seal : Bytes → Bytes → Bytes → Bytes → Option Bytes
  pub unseal : Bytes → Bytes → Bytes → Bytes → Option Bytes
  -- Ed25519: the public key of a signing key, signing, `VerifyingKey::from_bytes` and `verify`
  pub verifying_key : Bytes → Bytes
  pub sign : Bytes → Bytes → Bytes
  pub is_point : Bytes → Bool
  pub point_error : String
  pub verify : Bytes → Bytes → Bytes → Bool
  -- serde_json
  pub manifest_to_vec : BrainManifest → Bytes
  pub blob_to_vec : EncryptedBlob → Bytes
  pub state_to_vec : BrainState → Bytes
  pub state_from_slice : Bytes → Fallible BrainState
  pub same_json : JsonValue → JsonValue → Bool
  pub json_count : ℕ → JsonValue

module _ {Bytes : Type 0} (v : Vault Bytes) where
  -- the nonce is drawn by the caller of the model
  unfoldable pub encrypt_bytes : Bytes → Bytes → Bytes → Bytes → Fallible EncryptedBlob
  encrypt_bytes nonce key aad plain = do
    ciphertext ← ok_or (v.seal key nonce aad plain) (Stop.failure "encryption failed")
    ok (record { nonce_b64 = v.b64_encode nonce; ciphertext_b64 = v.b64_encode ciphertext })

  unfoldable pub encrypt_json : Bytes → Bytes → Bytes → BrainState → Fallible EncryptedBlob
  encrypt_json nonce key aad state = encrypt_bytes nonce key aad (v.state_to_vec state)

  -- `XNonce::from_slice` panics on a slice that is not 24 bytes long
  unfoldable pub decrypt_bytes : Bytes → Bytes → EncryptedBlob → Fallible Bytes
  decrypt_bytes key aad blob = do
    nonce ← v.b64_decode blob.nonce_b64
    ciphertext ← v.b64_decode blob.ciphertext_b64
    reject_if (not (v.size nonce == 24)) (Stop.panic "from_slice: length mismatch")
    ok_or (v.unseal key nonce aad ciphertext) (Stop.failure "decryption failed")

  unfoldable pub decrypt_json : Bytes → Bytes → EncryptedBlob → Fallible BrainState
  decrypt_json key aad blob = do bytes ← decrypt_bytes key aad blob; v.state_from_slice bytes

  unfoldable pub manifest_signing_payload : BrainManifest → Bytes
  manifest_signing_payload manifest = v.manifest_to_vec (record manifest { signature_b64 = "" })

  unfoldable pub sign_manifest : BrainManifest → Bytes → String
  sign_manifest manifest signing_key =
      v.b64_encode (v.sign signing_key (manifest_signing_payload manifest))

  unfoldable pub verify_manifest_signature : BrainManifest → Fallible (Unit {0})
  verify_manifest_signature manifest = do
    key_bytes ← v.b64_decode manifest.signing_public_key_b64
    reject_if (not (v.size key_bytes == 32)) (Stop.failure "invalid verifying key")
    reject_if (not (v.is_point key_bytes)) (Stop.failure v.point_error)
    sig_bytes ← v.b64_decode manifest.signature_b64
    reject_if (not (v.size sig_bytes == 64)) (Stop.failure "invalid signature")
    reject_if (not (v.verify key_bytes (manifest_signing_payload manifest) sig_bytes))
        (Stop.failure "manifest signature verification failed")

  unfoldable pub state_hash : EncryptedBlob → String
  state_hash blob = v.sha256_hex (v.blob_to_vec blob)

-- serde_json reads the state back from what it wrote
abbrev pub IsReadable : {Bytes : Type 0} → Vault Bytes → BrainState → Type 0
IsReadable v state = v.state_from_slice (v.state_to_vec state) ≡ ok state

-- What is documented of them; a signature is good for no payload but the one that was signed.
pub record VaultLaws {Bytes : Type 0} (v : Vault Bytes) : Type 0 where
  pub decode_encode : (b : Bytes) → v.b64_decode (v.b64_encode b) ≡ ok b
  pub unseal_seal :
      (key nonce aad plain cipher : Bytes)
      → v.seal key nonce aad plain ≡ some cipher
      → v.unseal key nonce aad cipher ≡ some plain
  pub key_size : (k : Bytes) → v.size (v.verifying_key k) ≡ 32
  pub key_point : (k : Bytes) → v.is_point (v.verifying_key k) ≡ Bool.true
  pub signature_size : (k p : Bytes) → v.size (v.sign k p) ≡ 64
  pub verify_sign : (k p : Bytes) → v.verify (v.verifying_key k) p (v.sign k p) ≡ Bool.true
  pub one_payload :
      (k p q : Bytes) → v.verify (v.verifying_key k) q (v.sign k p) ≡ Bool.true → p ≡ q
  pub manifest_injective : (m n : BrainManifest) → v.manifest_to_vec m ≡ v.manifest_to_vec n → m ≡ n
