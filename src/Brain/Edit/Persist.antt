-- ===== src/Brain/Edit/Persist.antt =====
-- What an edit of a brain leaves on the disk.
use cortex_v3_1_rmvm_relatio.Base.{
  ◌≡◌, refl, sym, ap, subst, true, false, String, List, str_eq, eq_iff, arith, ◌⊎◌, inl, inr, ok,
  ◌>>=◌, ◌>>◌, >>=-eq-ok, >>-eq-ok, reject_if-eq-ok, ok-injective,
}
use cortex_v3_1_rmvm_relatio.Brain.Types.{
  BrainManifest, BrainSummary, BrainState, EncryptedBlob, Fallible, bail,
}
use cortex_v3_1_rmvm_relatio.Brain.Vault.{
  Vault, VaultLaws, IsReadable, encrypt_json, decrypt_bytes, decrypt_json, manifest_signing_payload,
  sign_manifest, verify_manifest_signature, state_hash,
}
use cortex_v3_1_rmvm_relatio.Brain.Vault.Laws.{
  encrypt_json-cases, decrypt-encrypt_json, verify-sign,
}
use cortex_v3_1_rmvm_relatio.Brain.Disk.{
  File, read_json, BrainDir, Disk, brain_dir, Write, write_all,
}
use cortex_v3_1_rmvm_relatio.Brain.Disk.Laws.{brain_dir-mutation, brain_dir-other}
use cortex_v3_1_rmvm_relatio.Brain.Resolve.{Env, resolve_brain}
use cortex_v3_1_rmvm_relatio.Brain.Edit.{
  Loaded, key_of, load_by_dir, resealed, mutation, mutate_brain,
}

module _ {Bytes : Type 0} (v : Vault Bytes) (env : Env) where
  -- the signing key in the directory is that of the manifest's public key
  abbrev pub IsPaired : Loaded Bytes → Type 0
  IsPaired l = l.manifest.signing_public_key_b64 ≡ v.b64_encode (v.verifying_key l.signing_key)

  -- the parts of a directory that loads
  pub record Opens (dir : BrainDir) (l : Loaded Bytes) : Type 0 where
    pub state_enc : EncryptedBlob
    pub signing_key_enc : EncryptedBlob
    pub key : Bytes
    pub has_manifest : dir.brain_json ≡ File.holds l.manifest
    pub has_state : dir.state_enc ≡ File.holds state_enc
    pub has_key : dir.signing_key_enc ≡ File.holds signing_key_enc
    pub signed : verify_manifest_signature v l.manifest ≡ ok tt
    pub keyed : key_of v env l.manifest ≡ ok key
    pub hashed : state_hash v state_enc ≡ l.manifest.state_sha256
    pub state : decrypt_json v key (v.utf8 l.manifest.brain_id) state_enc ≡ ok l.state
    pub signing_key :
        decrypt_bytes v key (v.utf8 l.manifest.brain_id) signing_key_enc ≡ ok l.signing_key
    pub fits : v.size l.signing_key ≡ 32

  read_json-eq-ok : {A : Type 0} (f : File A) {a : A} → read_json f ≡ ok a → f ≡ File.holds a
  read_json-eq-ok File.missing h = cc
  read_json-eq-ok (File.unparsed m) h = cc
  read_json-eq-ok (File.holds a) h = ap File.holds (ok-injective h)

  pub load_by_dir-Opens :
      (dir : BrainDir) {l : Loaded Bytes} → load_by_dir v env dir ≡ ok l → Opens dir l
  unfolding load_by_dir
  load_by_dir-Opens dir p =
      let (m, has_m, p1) = >>=-eq-ok {A = BrainManifest} _ _ p in
      let (signed, p2) = >>-eq-ok _ _ p1 in
      let (key, keyed, p3) = >>=-eq-ok _ _ p2 in
      let (blob, has_s, p4) = >>=-eq-ok {A = EncryptedBlob} _ _ p3 in
      let (hashed, p5) = >>-eq-ok _ _ p4 in
      let (st, state, p6) = >>=-eq-ok {A = BrainState} _ _ p5 in
      let (kblob, has_k, p7) = >>=-eq-ok {A = EncryptedBlob} _ _ p6 in
      let (sk, opened, p8) = >>=-eq-ok _ _ p7 in
      let (fits, p9) = >>-eq-ok _ _ p8 in
      let same_hash : state_hash v blob ≡ m.state_sha256 =
        (eq_iff (state_hash v blob) m.state_sha256).0
          (ground (arith, reject_if-eq-ok _ _ hashed)) in
      let fits' : v.size sk ≡ 32 = ground (arith, reject_if-eq-ok _ _ fits) in
      subst (λ (l : Loaded Bytes). Opens dir l) (ok-injective p9)
        (record {
          state_enc = blob;
          signing_key_enc = kblob;
          key = key;
          has_manifest = read_json-eq-ok dir.brain_json has_m;
          has_state = read_json-eq-ok dir.state_enc has_s;
          has_key = read_json-eq-ok dir.signing_key_enc has_k;
          signed = signed;
          keyed = keyed;
          hashed = same_hash;
          state = state;
          signing_key = opened;
          fits = fits';
        })

  -- another directory with the same files
  pub Opens-moved :
      {dir : BrainDir} (dir' : BrainDir) (l : Loaded Bytes) (o : Opens dir l)
      → dir' ≡ record {
        brain_json = File.holds l.manifest;
        state_enc = File.holds o.state_enc;
        signing_key_enc = File.holds o.signing_key_enc;
      }
      → Opens dir' l
  Opens-moved dir' l o same = record {
    state_enc = o.state_enc;
    signing_key_enc = o.signing_key_enc;
    key = o.key;
    has_manifest = ap (λ (d : BrainDir). d.brain_json) same;
    has_state = ap (λ (d : BrainDir). d.state_enc) same;
    has_key = ap (λ (d : BrainDir). d.signing_key_enc) same;
    signed = o.signed;
    keyed = o.keyed;
    hashed = o.hashed;
    state = o.state;
    signing_key = o.signing_key;
    fits = o.fits;
  }

  -- and a directory with such parts does load
  pub load_by_dir-of_Opens :
      (dir : BrainDir) (l : Loaded Bytes) → Opens dir l → load_by_dir v env dir ≡ ok l
  unfolding load_by_dir ◌>>=◌ ◌>>◌
  load_by_dir-of_Opens dir l o =
      let same : str_eq (state_hash v o.state_enc) l.manifest.state_sha256 ≡ true =
        (eq_iff (state_hash v o.state_enc) l.manifest.state_sha256).1 o.hashed in
      rw
        (
          o.has_manifest, o.signed, o.keyed, o.has_state, same, o.state, o.has_key, o.signing_key,
          o.fits,
        )
        refl

module _ {Bytes : Type 0} (v : Vault Bytes) (laws : VaultLaws v) (env : Env) (now : String)
    (nonce : Bytes) where
  abbrev pub edited : Loaded Bytes → BrainState → EncryptedBlob → Loaded Bytes
  edited l state blob = record {
    manifest = resealed v env now l.manifest blob l.signing_key;
    state = state;
    signing_key = l.signing_key;
  }

  -- the parts of the directory after an edit
  Opens-mutation :
      (id : String) (disk : Disk) (l : Loaded Bytes) (state : BrainState) (blob : EncryptedBlob)
      (o : Opens v env (brain_dir id disk) l)
      → IsReadable v state
      → v.size nonce ≡ 24
      → IsPaired v env l
      → encrypt_json v nonce o.key (v.utf8 l.manifest.brain_id) state ≡ ok blob
      → Opens v env
          (record (brain_dir id disk) {
            brain_json = File.holds (resealed v env now l.manifest blob l.signing_key);
            state_enc = File.holds blob;
          })
          (edited l state blob)
  unfolding resealed key_of sign_manifest manifest_signing_payload
  Opens-mutation id disk l state blob o reads fits paired sealed = record {
    state_enc = blob;
    signing_key_enc = o.signing_key_enc;
    key = o.key;
    has_manifest = refl;
    has_state = refl;
    has_key = o.has_key;
    signed = verify-sign v laws _ l.signing_key paired refl;
    keyed = o.keyed;
    hashed = refl;
    state = decrypt-encrypt_json v laws nonce o.key _ state reads fits sealed;
    signing_key = o.signing_key;
    fits = o.fits;
  }

  -- the edit was done, and the brain loads again with the state that it computed
  pub record Persists (id : String) (disk disk' : Disk) (l : Loaded Bytes) (state : BrainState)
      : Type 0 where
    pub blob : EncryptedBlob
    pub loads : load_by_dir v env (brain_dir id disk') ≡ ok (edited l state blob)
    pub others :
        (other : String) → str_eq id other ≡ false → brain_dir other disk' ≡ brain_dir other disk

  mutation-Persists :
      {A : Type 0} (id : String) (disk : Disk) (l : Loaded Bytes) (state : BrainState) (a : A)
      → IsReadable v state
      → v.size nonce ≡ 24
      → IsPaired v env l
      → Opens v env (brain_dir id disk) l
      → ((writes : List Write) × (mutation v env now nonce id l (ok (state, a)) ≡ ok (writes, a))
          × Persists id disk (write_all writes disk) l state)
        ⊎ (mutation v env now nonce id l (ok (state, a)) ≡ bail "encryption failed")
  unfolding mutation ◌>>=◌
  mutation-Persists {A} id disk l state a reads fits paired o =
      elim (encrypt_json-cases v nonce o.key (v.utf8 l.manifest.brain_id) state) [
        | inl (blob, sealed) ↦ inl (
          _,
          rw (o.keyed, sealed) refl,
          record {
            blob = blob;
            loads = load_by_dir-of_Opens v env _ (edited l state blob) (
                subst (λ (d : BrainDir). Opens v env d (edited l state blob))
                  (sym (
                    brain_dir-mutation id (resealed v env now l.manifest blob l.signing_key) blob
                      disk))
                  (Opens-mutation id disk l state blob o reads fits paired sealed));
            others = λ other apart. brain_dir-other other id _ _ disk apart;
          },
        )
        | inr unsealed ↦ inr (rw (o.keyed, unsealed) refl)
      ]

  -- Where a brain resolves and loads, its signing key is that of its manifest, and the edit gives a
  -- state that serde_json reads back, mutate_brain under a nonce of 24 bytes either fails with
  -- encryption failed, or writes a directory that loads again with that state, the same signing key
  -- and the renewed manifest, while every other directory stays as it was; the vault keeps its
  -- documented laws.
  pub mutate_brain-Persists :
      {A : Type 0} (brain_ref : String) (f : BrainManifest → BrainState → Fallible (BrainState × A))
      (disk : Disk) {summary : BrainSummary} {l : Loaded Bytes} {state : BrainState} {a : A}
      → IsReadable v state
      → v.size nonce ≡ 24
      → resolve_brain brain_ref disk ≡ ok summary
      → load_by_dir v env (brain_dir summary.brain_id disk) ≡ ok l
      → IsPaired v env l
      → f l.manifest l.state ≡ ok (state, a)
      → ((disk' : Disk) × (mutate_brain v env now nonce brain_ref f disk ≡ ok (disk', a))
          × Persists summary.brain_id disk disk' l state)
        ⊎ (mutate_brain v env now nonce brain_ref f disk ≡ bail "encryption failed")
  unfolding mutate_brain ◌>>=◌
  mutate_brain-Persists brain_ref f disk {summary} {l} {state} {a} reads fits resolved loaded paired
        changed =
      elim (mutation-Persists summary.brain_id disk l state a reads fits paired
        (load_by_dir-Opens v env _ loaded)) [
          | inl (writes, done, persists) ↦
              inl (_, rw (resolved, loaded, changed, done) refl, persists)
          | inr unsealed ↦ inr (rw (resolved, loaded, changed, unsealed) refl)
        ]
