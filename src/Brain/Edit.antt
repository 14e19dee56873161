-- ===== src/Brain/Edit.antt =====
-- The operations that load a brain: `load_by_dir`, `mutate_brain` and its five callers, `audit_trace`.
-- They stand on the directory of the brain's own id, whatever directory listed it.
pub mod Persist
pub mod Tampered
use cortex_v3_1_rmvm_relatio.Base.{
  ℕ, not, String, List, [], ◌∷◌, Option, str_eq, format, ◌==◌, ok, ◌>>=◌, ◌>>◌, ok_or, reject_if,
}
use cortex_v3_1_rmvm_relatio.Brain.Types.{
  BrainManifest, BrainState, AttachmentGrant, AuditEntry, MergeStrategy, MergeReport, EncryptedBlob,
  Stop, Fallible,
}
use cortex_v3_1_rmvm_relatio.Brain.Vault.{
  Vault, encrypt_json, decrypt_bytes, decrypt_json, sign_manifest, verify_manifest_signature,
  state_hash,
}
use cortex_v3_1_rmvm_relatio.Brain.Disk.{read_json, BrainDir, Disk, brain_dir, Write, write_all}
use cortex_v3_1_rmvm_relatio.Brain.State.{
  Stamp, branch_state, merge_state, suppress_state, attach_state, detach_state,
}
use cortex_v3_1_rmvm_relatio.Brain.Resolve.{Env, resolve_brain}

-- the manifest, the state and the signing key
pub record Loaded (Bytes : Type 0) : Type 0 where
  pub manifest : BrainManifest
  pub state : BrainState
  pub signing_key : Bytes

module _ {Bytes : Type 0} (v : Vault Bytes) (env : Env) where
  -- the key out of the secret that the manifest names
  unfoldable pub key_of : BrainManifest → Fallible Bytes
  key_of manifest = do
    secret ←
        ok_or (env manifest.secret_env_var)
          (Stop.failure (format ("missing secret env var " ∷ manifest.secret_env_var ∷ [])))
    salt ← v.b64_decode manifest.kdf_salt_b64
    v.derive_key (v.utf8 secret) salt

  unfoldable pub load_by_dir : BrainDir → Fallible (Loaded Bytes)
  load_by_dir dir = do
    manifest ← read_json dir.brain_json
    verify_manifest_signature v manifest
    key ← key_of manifest
    state_enc ← read_json dir.state_enc
    reject_if (not (str_eq (state_hash v state_enc) manifest.state_sha256))
        (Stop.failure (format ("state checksum mismatch for brain " ∷ manifest.brain_id ∷ [])))
    state ← decrypt_json v key (v.utf8 manifest.brain_id) state_enc
    signing_key_enc ← read_json dir.signing_key_enc
    signing_key ← decrypt_bytes v key (v.utf8 manifest.brain_id) signing_key_enc
    reject_if (not (v.size signing_key == 32)) (Stop.failure "invalid signing key bytes")
    ok (record { manifest = manifest; state = state; signing_key = signing_key })

  -- `updated_at`, the state's hash and the signature are renewed
  unfoldable pub resealed : String → BrainManifest → EncryptedBlob → Bytes → BrainManifest
  resealed now manifest state_enc signing_key =
      let unsigned = record manifest { updated_at = now; state_sha256 = state_hash v state_enc } in
      record unsigned { signature_b64 = sign_manifest v unsigned signing_key }

  -- the two files that `mutate_brain` writes, in their order
  unfoldable pub mutation :
      {A : Type 0}
      → String
      → Bytes
      → String
      → Loaded Bytes
      → Fallible (BrainState × A)
      → Fallible (List Write × A)
  mutation now nonce dir loaded changed = do
    (state, a) ← changed
    key ← key_of loaded.manifest
    state_enc ← encrypt_json v nonce key (v.utf8 loaded.manifest.brain_id) state
    ok (
      Write.brain_json dir (resealed now loaded.manifest state_enc loaded.signing_key)
          ∷ Write.state_enc dir state_enc
          ∷ [],
      a,
    )

  -- `f` gives the state that it leaves, and what the caller learns from it
  unfoldable pub mutate_brain :
      {A : Type 0}
      → String
      → Bytes
      → String
      → (BrainManifest → BrainState → Fallible (BrainState × A))
      → Disk
      → Fallible (Disk × A)
  mutate_brain now nonce brain_ref f disk = do
    summary ← resolve_brain brain_ref disk
    loaded ← load_by_dir (brain_dir summary.brain_id disk)
    (writes, a) ← mutation now nonce summary.brain_id loaded (f loaded.manifest loaded.state)
    ok (write_all writes disk, a)

  abbrev pub silent : Fallible BrainState → Fallible (BrainState × Unit {0})
  silent m = m >>= λ state. ok (state, tt)

  unfoldable pub branch :
      String → Bytes → Stamp → String → String → Disk → Fallible (Disk × Unit {0})
  branch now nonce stamp brain_ref new_branch =
      mutate_brain now nonce brain_ref
        (λ manifest state. silent (branch_state stamp new_branch manifest state))

  unfoldable pub merge :
      String
      → Bytes
      → Stamp
      → String
      → String
      → String
      → MergeStrategy
      → Disk
      → Fallible (Disk × MergeReport)
  merge now nonce stamp brain_ref source target strategy =
      mutate_brain now nonce brain_ref
        (λ manifest state. merge_state v.same_json strategy v.json_count stamp source target state)

  unfoldable pub forget_suppress :
      String
      → Bytes
      → Stamp
      → Stamp
      → String
      → String
      → String
      → String
      → String
      → Disk
      → Fallible (Disk × ℕ)
  forget_suppress now nonce record_stamp stamp brain_ref subject predicate scope reason =
      mutate_brain now nonce brain_ref (λ manifest state.
        suppress_state v.json_count record_stamp stamp subject predicate scope reason manifest
          state)

  unfoldable pub attach :
      String → Bytes → Stamp → String → AttachmentGrant → Disk → Fallible (Disk × Unit {0})
  attach now nonce stamp brain_ref grant =
      mutate_brain now nonce brain_ref (λ manifest state. silent (attach_state stamp grant state))

  unfoldable pub detach :
      String → Bytes → Stamp → String → String → Option String → Disk → Fallible (Disk × ℕ)
  detach now nonce stamp brain_ref agent model =
      mutate_brain now nonce brain_ref
        (λ manifest state. detach_state v.json_count stamp agent model state)

  unfoldable pub audit_trace : String → Disk → Fallible (List AuditEntry)
  audit_trace brain_ref disk = do
    summary ← resolve_brain brain_ref disk
    loaded ← load_by_dir (brain_dir summary.brain_id disk)
    ok loaded.state.audit
