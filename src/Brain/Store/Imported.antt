-- ===== src/Brain/Store/Imported.antt =====
-- What `export_brain` and `import_brain` carry from one home directory to another.
use cortex_v3_1_rmvm_relatio.Base.{
  ◌⊎◌, inl, inr, ◌≡◌, refl, sym, ap, ◌∙◌, false, String, Option, none, some, is_some, eq_iff, ok,
  ◌>>=◌, ◌>>◌,
}
use cortex_v3_1_rmvm_relatio.Brain.Types.{
  BrainManifest, BrainSummary, BrainPackage, bail, summary_of,
}
use cortex_v3_1_rmvm_relatio.Brain.Vault.{
  Vault, VaultLaws, sign_manifest, verify_manifest_signature, state_hash,
}
use cortex_v3_1_rmvm_relatio.Brain.Vault.Laws.{verify-sign, verify-other}
use cortex_v3_1_rmvm_relatio.Brain.Disk.{File, Disk, dir_at, brain_dir, create_dir_all, write_all}
use cortex_v3_1_rmvm_relatio.Brain.Disk.Laws.{brain_dir-package}
use cortex_v3_1_rmvm_relatio.Brain.Resolve.{Env, resolve_brain}
use cortex_v3_1_rmvm_relatio.Brain.Edit.{Loaded, load_by_dir}
use cortex_v3_1_rmvm_relatio.Brain.Edit.Persist.{
  Opens-moved, load_by_dir-Opens, load_by_dir-of_Opens,
}
use cortex_v3_1_rmvm_relatio.Brain.Store.{
  format_version, export_brain, import_id, imported, package_writes, import_brain,
}

module _ {Bytes : Type 0} (v : Vault Bytes) (now uuid : String) where
  -- the home directory after an import
  abbrev pub after_import : Option String → BrainPackage → Disk → Disk
  after_import name_override pkg disk =
      let manifest = imported v now uuid name_override disk pkg.manifest in
      write_all (package_writes v manifest.brain_id manifest pkg)
        (create_dir_all manifest.brain_id disk)

  import_brain-ok :
      (pkg : BrainPackage) (name_override : Option String) (disk : Disk)
      → verify_manifest_signature v pkg.manifest ≡ ok tt
      → state_hash v pkg.state ≡ pkg.manifest.state_sha256
      → import_brain v now uuid (File.holds pkg) name_override false disk
        ≡ ok (
          after_import name_override pkg disk,
          some (summary_of (imported v now uuid name_override disk pkg.manifest)),
        )
  unfolding import_brain ◌>>=◌ ◌>>◌
  import_brain-ok pkg name_override disk verified same =
      rw (verified, (eq_iff (state_hash v pkg.state) pkg.manifest.state_sha256).1 same) refl

  -- the directory that it leaves
  dir-imported :
      (pkg : BrainPackage) (name_override : Option String) (disk : Disk)
      → brain_dir
          (imported v now uuid name_override disk pkg.manifest).brain_id
          (after_import name_override pkg disk)
        ≡ record {
          brain_json = File.holds (imported v now uuid name_override disk pkg.manifest);
          state_enc = File.holds pkg.state;
          signing_key_enc = File.holds pkg.signing_key;
        }
  dir-imported pkg name_override disk =
      let manifest = imported v now uuid name_override disk pkg.manifest in
      brain_dir-package manifest.brain_id manifest pkg.state pkg.signing_key
        (create_dir_all manifest.brain_id disk)

  -- A brain that loads exports to a package that imports under its own name into a home directory
  -- without that brain, where it loads as the same brain.
  pub export-import :
      (env : Env) (brain_ref : String) (disk target : Disk) {summary : BrainSummary}
      {l : Loaded Bytes}
      → resolve_brain brain_ref disk ≡ ok summary
      → load_by_dir v env (brain_dir summary.brain_id disk) ≡ ok l
      → is_some (dir_at l.manifest.brain_id target.brains) ≡ false
      → (pkg : BrainPackage) × (target' : Disk) × (export_brain v brain_ref disk ≡ ok pkg)
        × (import_brain v now uuid (File.holds pkg) none false target
            ≡ ok (target', some (summary_of l.manifest)))
        × (load_by_dir v env (brain_dir l.manifest.brain_id target') ≡ ok l)
  unfolding export_brain import_id ◌>>=◌ ◌>>◌
  export-import env brain_ref disk target {summary} {l} resolved loaded absent =
      let o = load_by_dir-Opens v env _ loaded in
      let pkg : BrainPackage = record {
        package_version = format_version;
        manifest = l.manifest;
        state = o.state_enc;
        signing_key = o.signing_key_enc;
      } in
      let same : imported v now uuid none target l.manifest ≡ l.manifest = rw absent refl in
      let stored =
        ap (λ (m : BrainManifest). brain_dir m.brain_id (after_import none pkg target)) (sym same)
        ∙ dir-imported pkg none target in
      (
        pkg,
        after_import none pkg target,
        rw (resolved, o.has_manifest, o.has_state, o.has_key, o.signed) refl,
        import_brain-ok pkg none target o.signed o.hashed
            ∙ ap (λ m. ok (after_import none pkg target, some (summary_of m))) same,
        load_by_dir-of_Opens v env _ l (
            Opens-moved v env _ l o (
              stored
              ∙ ap
                  (λ (m : BrainManifest). record {
                    brain_json = File.holds m;
                    state_enc = File.holds o.state_enc;
                    signing_key_enc = File.holds o.signing_key_enc;
                  })
                  same)),
      )

  -- neither the key nor the signature of the package is touched
  public_key-imported :
      (name_override : Option String) (disk : Disk) (m : BrainManifest)
      → (imported v now uuid name_override disk m).signing_public_key_b64 ≡ m.signing_public_key_b64
  public_key-imported none disk m = refl
  public_key-imported (some name) disk m = refl

  signature-imported :
      (name_override : Option String) (disk : Disk) (m : BrainManifest)
      → (imported v now uuid name_override disk m).signature_b64 ≡ m.signature_b64
  signature-imported none disk m = refl
  signature-imported (some name) disk m = refl

  unsigned-differ :
      (stored m : BrainManifest)
      → ((stored.name ≡ m.name → ⊥) ⊎ (stored.brain_id ≡ m.brain_id → ⊥))
      → record stored { signature_b64 = "" } ≡ record m { signature_b64 = "" }
      → ⊥
  unsigned-differ stored m (inl name) same = name (ap (λ (n : BrainManifest). n.name) same)
  unsigned-differ stored m (inr id) same = id (ap (λ (n : BrainManifest). n.brain_id) same)

  -- An import of an honestly signed package that changes the name or, since the id is taken, the id
  -- of the brain succeeds, and the brain that it writes then fails to load with the manifest's
  -- signature; the vault keeps its documented laws.
  pub import-unsigned :
      (laws : VaultLaws v) (env : Env) (pkg : BrainPackage) (sk : Bytes)
      (name_override : Option String) (disk : Disk)
      → pkg.manifest.signing_public_key_b64 ≡ v.b64_encode (v.verifying_key sk)
      → pkg.manifest.signature_b64 ≡ sign_manifest v pkg.manifest sk
      → state_hash v pkg.state ≡ pkg.manifest.state_sha256
      → let stored = imported v now uuid name_override disk pkg.manifest in
        ((stored.name ≡ pkg.manifest.name → ⊥) ⊎ (stored.brain_id ≡ pkg.manifest.brain_id → ⊥))
        → (disk' : Disk) × (import_brain v now uuid (File.holds pkg) name_override false disk
            ≡ ok (disk', some (summary_of stored)))
          × (load_by_dir v env (brain_dir stored.brain_id disk')
              ≡ bail "manifest signature verification failed")
  unfolding load_by_dir ◌>>=◌ ◌>>◌
  import-unsigned laws env pkg sk name_override disk has_key signed hashed differ =
      let stored = imported v now uuid name_override disk pkg.manifest in
      let refused =
        verify-other v laws stored pkg.manifest sk
          (public_key-imported name_override disk pkg.manifest ∙ has_key)
          (signature-imported name_override disk pkg.manifest ∙ signed)
          (unsigned-differ stored pkg.manifest differ) in
      (
        after_import name_override pkg disk,
        import_brain-ok pkg name_override disk (verify-sign v laws pkg.manifest sk has_key signed)
            hashed,
        rw (dir-imported pkg name_override disk, refused) refl,
      )
