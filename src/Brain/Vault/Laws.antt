-- ===== src/Brain/Vault/Laws.antt =====
-- Sealing, signing and reading it back.
use cortex_v3_1_rmvm_relatio.Base.{
  ◌⊎◌, inl, inr, Bool-cases, Option-cases, ◌≡◌, refl, sym, ◌∙◌, not, ok, ◌>>=◌, ◌>>◌, ok_or,
  reject_if, >>=-eq-ok, ok_or-eq-ok, ok-injective, >>=-of-ok, subst,
}
use cortex_v3_1_rmvm_relatio.Brain.Types.{BrainManifest, BrainState, EncryptedBlob, Stop, bail}
use cortex_v3_1_rmvm_relatio.Brain.Vault.{
  Vault, VaultLaws, IsReadable, encrypt_bytes, encrypt_json, decrypt_bytes, decrypt_json,
  manifest_signing_payload, sign_manifest, verify_manifest_signature,
}

module _ {Bytes : Type 0} (v : Vault Bytes) (nonce key aad : Bytes) where
  pub encrypt_bytes-cases :
      (plain : Bytes)
      → ((blob : EncryptedBlob) × (encrypt_bytes v nonce key aad plain ≡ ok blob))
        ⊎ (encrypt_bytes v nonce key aad plain ≡ bail "encryption failed")
  unfolding encrypt_bytes ◌>>=◌
  encrypt_bytes-cases plain = elim (Option-cases (v.seal key nonce aad plain)) [
    | inl unsealed ↦ inr (rw unsealed refl)
    | inr (cipher, sealed) ↦ inl (
      record { nonce_b64 = v.b64_encode nonce; ciphertext_b64 = v.b64_encode cipher },
      rw sealed refl,
    )
  ]

  pub encrypt_json-cases :
      (state : BrainState)
      → ((blob : EncryptedBlob) × (encrypt_json v nonce key aad state ≡ ok blob))
        ⊎ (encrypt_json v nonce key aad state ≡ bail "encryption failed")
  unfolding encrypt_json
  encrypt_json-cases state = encrypt_bytes-cases (v.state_to_vec state)

module _ {Bytes : Type 0} (v : Vault Bytes) (laws : VaultLaws v) where
  pub decrypt-encrypt :
      (nonce key aad plain : Bytes) {blob : EncryptedBlob}
      → v.size nonce ≡ 24
      → encrypt_bytes v nonce key aad plain ≡ ok blob
      → decrypt_bytes v key aad blob ≡ ok plain
  unfolding encrypt_bytes decrypt_bytes ◌>>=◌ ◌>>◌
  decrypt-encrypt nonce key aad plain {blob} fits p =
      let (cipher, sealed, p1) =
        >>=-eq-ok {A = Bytes}
          (ok_or (v.seal key nonce aad plain) (Stop.failure "encryption failed")) _ p in
      subst (λ (b : EncryptedBlob). decrypt_bytes v key aad b ≡ ok plain) (ok-injective p1)
        (rw
          (
            laws.decode_encode nonce,
            laws.decode_encode cipher,
            fits,
            laws.unseal_seal key nonce aad plain cipher (ok_or-eq-ok _ _ sealed),
          )
          refl)

  pub decrypt-encrypt_json :
      (nonce key aad : Bytes) (state : BrainState) {blob : EncryptedBlob}
      → IsReadable v state
      → v.size nonce ≡ 24
      → encrypt_json v nonce key aad state ≡ ok blob
      → decrypt_json v key aad blob ≡ ok state
  unfolding encrypt_json decrypt_json
  decrypt-encrypt_json nonce key aad state reads fits p =
      >>=-of-ok _ (decrypt-encrypt nonce key aad (v.state_to_vec state) fits p) ∙ reads

  -- the check of a signature by an honest key, up to the last test
  verify-signed_by :
      (m : BrainManifest) (sk payload : Bytes)
      → m.signing_public_key_b64 ≡ v.b64_encode (v.verifying_key sk)
      → m.signature_b64 ≡ v.b64_encode (v.sign sk payload)
      → verify_manifest_signature v m
        ≡ reject_if
            (not (v.verify (v.verifying_key sk) (manifest_signing_payload v m) (v.sign sk payload)))
            (Stop.failure "manifest signature verification failed")
  unfolding verify_manifest_signature ◌>>=◌ ◌>>◌
  verify-signed_by m sk payload k s =
      rw
        (
          k,
          s,
          laws.decode_encode (v.verifying_key sk),
          laws.key_size sk,
          laws.key_point sk,
          laws.decode_encode (v.sign sk payload),
          laws.signature_size sk payload,
        )
        refl

  pub verify-sign :
      (m : BrainManifest) (sk : Bytes)
      → m.signing_public_key_b64 ≡ v.b64_encode (v.verifying_key sk)
      → m.signature_b64 ≡ sign_manifest v m sk
      → verify_manifest_signature v m ≡ ok tt
  unfolding sign_manifest
  verify-sign m sk k s =
      verify-signed_by m sk (manifest_signing_payload v m) k s
      ∙ rw (laws.verify_sign sk (manifest_signing_payload v m)) refl

  -- a manifest with a signature that was made for another one is refused
  pub verify-other :
      (m signed : BrainManifest) (sk : Bytes)
      → m.signing_public_key_b64 ≡ v.b64_encode (v.verifying_key sk)
      → m.signature_b64 ≡ sign_manifest v signed sk
      → (record m { signature_b64 = "" } ≡ record signed { signature_b64 = "" } → ⊥)
      → verify_manifest_signature v m ≡ bail "manifest signature verification failed"
  unfolding sign_manifest manifest_signing_payload
  verify-other m signed sk k s differ =
      let payload = manifest_signing_payload v signed in
      verify-signed_by m sk payload k s
      ∙ elim (Bool-cases
          (v.verify (v.verifying_key sk) (manifest_signing_payload v m) (v.sign sk payload))) [
            | inl accepted ↦ absurd (
                differ (
                  sym (
                    laws.manifest_injective _ _
                      (laws.one_payload sk payload (manifest_signing_payload v m) accepted))))
            | inr refused ↦ rw refused refl
          ]
