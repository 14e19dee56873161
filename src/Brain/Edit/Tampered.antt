-- ===== src/Brain/Edit/Tampered.antt =====
-- Directories whose files do not belong together, and the directory between the two writes of
-- `mutate_brain`.
use cortex_v3_1_rmvm_relatio.Base.{
  ◌≡◌, refl, sym, ap, ◌∙◌, false, Bool-cases, inl, inr, String, List, [], ◌∷◌, str_eq, eq_iff,
  format, ok, ◌>>=◌, ◌>>◌, >>=-eq-ok, ok-injective,
}
use cortex_v3_1_rmvm_relatio.Brain.Types.{
  BrainManifest, BrainState, BrainSummary, EncryptedBlob, Fallible, bail,
}
use cortex_v3_1_rmvm_relatio.Brain.Vault.{
  Vault, VaultLaws, sign_manifest, manifest_signing_payload, verify_manifest_signature, state_hash,
}
use cortex_v3_1_rmvm_relatio.Brain.Vault.Laws.{verify-sign, verify-other}
use cortex_v3_1_rmvm_relatio.Brain.Disk.{
  File, BrainDir, Disk, brain_dir, Write, write_json, write_all,
}
use cortex_v3_1_rmvm_relatio.Brain.Disk.Laws.{brain_dir-manifest, brain_dir-mutation}
use cortex_v3_1_rmvm_relatio.Brain.Resolve.{Env, resolve_brain}
use cortex_v3_1_rmvm_relatio.Brain.Edit.{
  Loaded, key_of, load_by_dir, resealed, mutation, mutate_brain,
}
use cortex_v3_1_rmvm_relatio.Brain.Edit.Persist.{IsPaired, load_by_dir-Opens}

str_eq-apart : (a b : String) → (a ≡ b → ⊥) → str_eq a b ≡ false
str_eq-apart a b apart = elim (Bool-cases (str_eq a b)) [
  | inl same ↦ absurd (apart ((eq_iff a b).0 same))
  | inr differ ↦ differ
]

module _ {Bytes : Type 0} (v : Vault Bytes) (env : Env) where
  -- the state file is not the one that the manifest was signed with
  load_by_dir-mismatch :
      (dir : BrainDir) (m : BrainManifest) (blob : EncryptedBlob) {key : Bytes}
      → dir.brain_json ≡ File.holds m
      → dir.state_enc ≡ File.holds blob
      → verify_manifest_signature v m ≡ ok tt
      → key_of v env m ≡ ok key
      → (state_hash v blob ≡ m.state_sha256 → ⊥)
      → load_by_dir v env dir
        ≡ bail (format ("state checksum mismatch for brain " ∷ m.brain_id ∷ []))
  unfolding load_by_dir ◌>>=◌ ◌>>◌
  load_by_dir-mismatch dir m blob has_m has_s signed keyed apart =
      rw (has_m, signed, keyed, has_s, str_eq-apart (state_hash v blob) m.state_sha256 apart) refl

  -- A brain that loads and was signed with its own key does not load any more once its manifest is
  -- another one under the same key and signature, nor once its state file has another hash: the
  -- first fails with the signature, the second with the checksum; the vault keeps its documented
  -- laws.
  pub load_by_dir-tampered :
      (laws : VaultLaws v) (dir : BrainDir) (m : BrainManifest) (blob : EncryptedBlob)
      {l : Loaded Bytes}
      → load_by_dir v env dir ≡ ok l
      → IsPaired v env l
      → l.manifest.signature_b64 ≡ sign_manifest v l.manifest l.signing_key
      → m.signing_public_key_b64 ≡ l.manifest.signing_public_key_b64
      → m.signature_b64 ≡ l.manifest.signature_b64
      → (m ≡ l.manifest → ⊥)
      → (state_hash v blob ≡ l.manifest.state_sha256 → ⊥)
      → (load_by_dir v env (record dir { brain_json = File.holds m })
          ≡ bail "manifest signature verification failed")
        × (load_by_dir v env (record dir { state_enc = File.holds blob })
            ≡ bail (format ("state checksum mismatch for brain " ∷ l.manifest.brain_id ∷ [])))
  unfolding load_by_dir ◌>>=◌ ◌>>◌
  load_by_dir-tampered laws dir m blob {l} loaded paired honest key signature apart hashes_apart =
      let o = load_by_dir-Opens v env dir loaded in
      let forged =
        verify-other v laws m l.manifest l.signing_key (key ∙ paired) (signature ∙ honest) (λ same.
          apart (
            ap (λ (n : BrainManifest). record n { signature_b64 = m.signature_b64 }) same
            ∙ ap (λ s. record l.manifest { signature_b64 = s }) signature)) in
      (
        rw forged refl,
        load_by_dir-mismatch _ l.manifest blob o.has_manifest refl o.signed o.keyed hashes_apart,
      )

  -- the two writes of an edit
  mutation-writes :
      {A : Type 0} (now : String) (nonce : Bytes) (id : String) (l : Loaded Bytes)
      (changed : Fallible (BrainState × A)) {writes : List Write} {a : A}
      → mutation v env now nonce id l changed ≡ ok (writes, a)
      → (blob : EncryptedBlob) × (writes
          ≡ Write.brain_json id (resealed v env now l.manifest blob l.signing_key)
            ∷ Write.state_enc id blob
            ∷ [])
  unfolding mutation
  mutation-writes now nonce id l changed done =
      let ((state, a), _, p1) = >>=-eq-ok _ _ done in
      let (key, _, p2) = >>=-eq-ok _ _ p1 in
      let (blob, _, p3) = >>=-eq-ok _ _ p2 in (blob, sym (ap (λ p. p.0) (ok-injective p3)))

  -- the directory after the first write alone
  first_write-torn :
      (laws : VaultLaws v) (now id : String) (disk : Disk) (blob : EncryptedBlob) {l : Loaded Bytes}
      → load_by_dir v env (brain_dir id disk) ≡ ok l
      → IsPaired v env l
      → (state_hash v blob ≡ l.manifest.state_sha256 → ⊥)
      → load_by_dir v env (
          brain_dir id (
            write_json
              (Write.brain_json id (resealed v env now l.manifest blob l.signing_key))
              disk))
        ≡ bail (format ("state checksum mismatch for brain " ∷ l.manifest.brain_id ∷ []))
  unfolding resealed key_of sign_manifest manifest_signing_payload
  first_write-torn laws now id disk blob {l} loaded paired apart =
      let o = load_by_dir-Opens v env _ loaded in
      rw (brain_dir-manifest id (resealed v env now l.manifest blob l.signing_key) blob blob disk) (
        load_by_dir-mismatch _ (resealed v env now l.manifest blob l.signing_key) o.state_enc refl
          o.has_state (verify-sign v laws _ l.signing_key paired refl) o.keyed
          (λ same. apart (sym same ∙ o.hashed)))

  -- Where a brain resolves and loads, its signing key is that of its manifest, the edit succeeds,
  -- and the state file that it leaves has another hash than the old one, mutate_brain does all the
  -- writes of the edit; but after the first of them alone, brain.json is the new one and state.enc
  -- still the old one, and the brain does not load, because of the checksum; the vault keeps its
  -- documented laws.
  pub mutation-torn :
      (laws : VaultLaws v) {A : Type 0} (now : String) (nonce : Bytes) (brain_ref : String)
      (f : BrainManifest → BrainState → Fallible (BrainState × A)) (disk : Disk) (first : Write)
      (rest : List Write) (blob : EncryptedBlob) {summary : BrainSummary} {l : Loaded Bytes} {a : A}
      → resolve_brain brain_ref disk ≡ ok summary
      → load_by_dir v env (brain_dir summary.brain_id disk) ≡ ok l
      → IsPaired v env l
      → mutation v env now nonce summary.brain_id l (f l.manifest l.state) ≡ ok (first ∷ rest, a)
      → (brain_dir summary.brain_id (write_all (first ∷ rest) disk)).state_enc ≡ File.holds blob
      → (state_hash v blob ≡ l.manifest.state_sha256 → ⊥)
      → (mutate_brain v env now nonce brain_ref f disk ≡ ok (write_all (first ∷ rest) disk, a))
        × ((brain_dir summary.brain_id (write_json first disk)).brain_json
            ≡ (brain_dir summary.brain_id (write_all (first ∷ rest) disk)).brain_json)
        × ((brain_dir summary.brain_id (write_json first disk)).state_enc
            ≡ (brain_dir summary.brain_id disk).state_enc)
        × (load_by_dir v env (brain_dir summary.brain_id (write_json first disk))
            ≡ bail (format ("state checksum mismatch for brain " ∷ l.manifest.brain_id ∷ [])))
  unfolding mutate_brain ◌>>=◌
  mutation-torn laws now nonce brain_ref f disk first rest blob {summary} {l} resolved loaded paired
        done final apart =
      let id = summary.brain_id in
      let (new, writes) = mutation-writes now nonce id l (f l.manifest l.state) done in
      let sealed = resealed v env now l.manifest new l.signing_key in
      let is_first : first ≡ Write.brain_json id sealed = cc in
      let torn = brain_dir-manifest id sealed new new disk in
      let finished = brain_dir-mutation id sealed new disk in
      let has_new : File.holds new ≡ File.holds blob =
        sym (
          ap (λ ws. (brain_dir id (write_all ws disk)).state_enc) writes
          ∙ ap (λ (d : BrainDir). d.state_enc) finished)
        ∙ final in
      let renewed : blob ≡ new = cc in
      (
        rw (resolved, loaded, done) refl,
        ap (λ w. (brain_dir id (write_json w disk)).brain_json) is_first
            ∙ ap (λ (d : BrainDir). d.brain_json) torn
            ∙ sym (
                ap (λ ws. (brain_dir id (write_all ws disk)).brain_json) writes
                ∙ ap (λ (d : BrainDir). d.brain_json) finished),
        rw (is_first, torn) refl,
        rw is_first (
            first_write-torn laws now id disk new loaded paired
              (λ same. apart (ap (state_hash v) renewed ∙ same))),
      )
