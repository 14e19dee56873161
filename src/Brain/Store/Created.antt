-- ===== src/Brain/Store/Created.antt =====
-- What `create_brain` leaves on the disk.
use cortex_v3_1_rmvm_relatio.Base.{
  ◌⊎◌, inl, inr, ◌≡◌, refl, sym, subst, String, some, unwrap_or, [], ◌∷◌, ok, ◌>>=◌,
}
use cortex_v3_1_rmvm_relatio.Brain.Types.{CreateBrainRequest, EncryptedBlob, bail, summary_of}
use cortex_v3_1_rmvm_relatio.Brain.Vault.{
  Vault, VaultLaws, IsReadable, encrypt_bytes, encrypt_json, manifest_signing_payload,
  sign_manifest,
}
use cortex_v3_1_rmvm_relatio.Brain.Vault.Laws.{
  encrypt_bytes-cases, encrypt_json-cases, decrypt-encrypt, decrypt-encrypt_json, verify-sign,
}
use cortex_v3_1_rmvm_relatio.Brain.Disk.{
  File, BrainDir, Disk, brain_dir, create_dir_all, write_all, Write,
}
use cortex_v3_1_rmvm_relatio.Brain.Disk.Laws.{brain_dir-package}
use cortex_v3_1_rmvm_relatio.Brain.Resolve.{Env}
use cortex_v3_1_rmvm_relatio.Brain.Edit.{Loaded, key_of, load_by_dir}
use cortex_v3_1_rmvm_relatio.Brain.Edit.Persist.{IsPaired, Opens, load_by_dir-of_Opens}
use cortex_v3_1_rmvm_relatio.Brain.Store.{
  Draws, default_secret_env, first_state, new_id, first_manifest, signed, new_files, create_brain,
}

module _ {Bytes : Type 0} (v : Vault Bytes) (laws : VaultLaws v) (env : Env) (draws : Draws Bytes)
    (req : CreateBrainRequest) where
  -- the brain that was asked for
  abbrev pub created : String → String → EncryptedBlob → Loaded Bytes
  created secret_env brain_id state_enc = record {
    manifest =
        signed v (first_manifest v draws req secret_env brain_id state_enc) draws.signing_key;
    state = first_state draws.stamp brain_id req.tenant_id;
    signing_key = draws.signing_key;
  }

  -- its three files
  Opens-first :
      (secret_env secret id : String) {key : Bytes} {state_enc key_enc : EncryptedBlob}
      → env secret_env ≡ some secret
      → v.derive_key (v.utf8 secret) draws.salt ≡ ok key
      → IsReadable v (first_state draws.stamp id req.tenant_id)
      → v.size draws.key_nonce ≡ 24
      → v.size draws.state_nonce ≡ 24
      → v.size draws.signing_key ≡ 32
      → encrypt_bytes v draws.key_nonce key (v.utf8 id) draws.signing_key ≡ ok key_enc
      → encrypt_json v draws.state_nonce key (v.utf8 id) (first_state draws.stamp id req.tenant_id)
        ≡ ok state_enc
      → Opens v env
          (record {
            brain_json = File.holds (created secret_env id state_enc).manifest;
            state_enc = File.holds state_enc;
            signing_key_enc = File.holds key_enc;
          })
          (created secret_env id state_enc)
  unfolding key_of first_manifest sign_manifest manifest_signing_payload ◌>>=◌
  Opens-first secret_env secret id {key} {state_enc} {key_enc} has_secret derived reads fits1 fits2
        fits3 key_sealed sealed =
      record {
        state_enc = state_enc;
        signing_key_enc = key_enc;
        key = key;
        has_manifest = refl;
        has_state = refl;
        has_key = refl;
        signed = verify-sign v laws _ draws.signing_key refl refl;
        keyed = rw (has_secret, laws.decode_encode draws.salt, derived) refl;
        hashed = refl;
        state = decrypt-encrypt_json v laws draws.state_nonce key _ _ reads fits2 sealed;
        signing_key =
            decrypt-encrypt v laws draws.key_nonce key _ draws.signing_key fits1 key_sealed;
        fits = fits3;
      }

  pub record Creates (secret_env id : String) (disk : Disk) : Type 0 where
    pub state_enc : EncryptedBlob
    pub disk' : Disk
    pub returns :
        create_brain v env draws req disk
        ≡ (ok (summary_of (created secret_env id state_enc).manifest), disk')
    pub loads : load_by_dir v env (brain_dir id disk') ≡ ok (created secret_env id state_enc)
    pub paired : IsPaired v env (created secret_env id state_enc)

  create_in-Creates :
      (secret_env secret id : String) (disk : Disk) {state_enc key_enc : EncryptedBlob}
      → unwrap_or req.passphrase_env default_secret_env ≡ secret_env
      → env secret_env ≡ some secret
      → new_id v draws req.name ≡ id
      → new_files v draws req secret_env secret id
        ≡ ok ((created secret_env id state_enc).manifest, state_enc, key_enc)
      → Opens v env
          (record {
            brain_json = File.holds (created secret_env id state_enc).manifest;
            state_enc = File.holds state_enc;
            signing_key_enc = File.holds key_enc;
          })
          (created secret_env id state_enc)
      → Creates secret_env id disk
  unfolding create_brain first_manifest
  create_in-Creates secret_env secret id disk {state_enc} {key_enc} named has_secret same_id done
        opens =
      record {
        state_enc = state_enc;
        disk' =
            write_all
              (Write.brain_json id (created secret_env id state_enc).manifest
                ∷ Write.state_enc id state_enc
                ∷ Write.signing_key_enc id key_enc
                ∷ [])
              (create_dir_all id disk);
        returns = rw (named, has_secret, same_id, done) refl;
        loads = load_by_dir-of_Opens v env _ (created secret_env id state_enc) (
            subst (λ (d : BrainDir). Opens v env d (created secret_env id state_enc))
              (sym (brain_dir-package id _ state_enc key_enc (create_dir_all id disk))) opens);
        paired = refl;
      }

  -- With a passphrase that derives a key, nonces of 24 bytes, a signing key of 32 and a first state
  -- that serde_json reads back, create_brain either fails with encryption failed, or returns the
  -- summary of a brain whose directory loads, with the first state and a signing key that is its
  -- manifest's; the vault keeps its documented laws.
  pub create_brain-Creates :
      (secret_env secret : String) (disk : Disk) {key : Bytes}
      → unwrap_or req.passphrase_env default_secret_env ≡ secret_env
      → env secret_env ≡ some secret
      → v.derive_key (v.utf8 secret) draws.salt ≡ ok key
      → IsReadable v (first_state draws.stamp (new_id v draws req.name) req.tenant_id)
      → v.size draws.key_nonce ≡ 24
      → v.size draws.state_nonce ≡ 24
      → v.size draws.signing_key ≡ 32
      → Creates secret_env (new_id v draws req.name) disk
        ⊎ (create_brain v env draws req disk
            ≡ (bail "encryption failed", create_dir_all (new_id v draws req.name) disk))
  unfolding create_brain new_files ◌>>=◌
  create_brain-Creates secret_env secret disk {key} named has_secret derived reads fits1 fits2
        fits3 =
      let id = new_id v draws req.name in
      elim (encrypt_bytes-cases v draws.key_nonce key (v.utf8 id) draws.signing_key) [
        | inr unsealed ↦ inr (rw (named, has_secret, derived, unsealed) refl)
        | inl (key_enc, key_sealed) ↦
            elim (encrypt_json-cases v draws.state_nonce key (v.utf8 id)
              (first_state draws.stamp id req.tenant_id)) [
                | inr unsealed ↦ inr (rw (named, has_secret, derived, key_sealed, unsealed) refl)
                | inl (state_enc, sealed) ↦ inl (
                    create_in-Creates secret_env secret id disk named has_secret refl
                      (rw (derived, key_sealed, sealed) refl)
                      (Opens-first secret_env secret id has_secret derived reads fits1 fits2 fits3
                        key_sealed sealed))
              ]
      ]
