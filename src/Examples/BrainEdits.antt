-- ===== src/Examples/BrainEdits.antt =====
-- The theorems on edits and on packages, on the same home directory.
use cortex_v3_1_rmvm_relatio.Base.{
  ◌≡◌, refl, ap, ◌>>=◌, ◌>>◌, false, String, [], ◌∷◌, none, some, ok, ◌⊎◌, inl, str_eq, eq_iff,
  format, arith, lower_char,
}
use cortex_v3_1_rmvm_relatio.BTree.Map.{get}
use cortex_v3_1_rmvm_relatio.Brain.Types.{
  BrainManifest, BrainState, EncryptedBlob, BrainPackage, Fallible, bail, summary_of,
}
use cortex_v3_1_rmvm_relatio.Brain.Vault.{
  encrypt_bytes, encrypt_json, sign_manifest, manifest_signing_payload, state_hash,
}
use cortex_v3_1_rmvm_relatio.Brain.Disk.{
  File, Disk, brain_dir, dir_at, put_dir, create_dir_all, Write, write_json, write_all,
}
use cortex_v3_1_rmvm_relatio.Brain.Slug.{slugify}
use cortex_v3_1_rmvm_relatio.Brain.State.{branch_state}
use cortex_v3_1_rmvm_relatio.Brain.Store.{
  first_state, first_manifest, new_files, new_id, create_brain, export_brain, import_brain,
  imported,
}
use cortex_v3_1_rmvm_relatio.Brain.Store.Imported.{export-import, import-unsigned}
use cortex_v3_1_rmvm_relatio.Brain.Edit.{
  key_of, load_by_dir, resealed, mutation, mutate_brain, silent,
}
use cortex_v3_1_rmvm_relatio.Brain.Edit.Persist.{Persists, mutate_brain-Persists}
use cortex_v3_1_rmvm_relatio.Brain.Edit.Tampered.{load_by_dir-tampered, mutation-torn}
use cortex_v3_1_rmvm_relatio.Examples.Brains.{
  no_files, stamp, id, env, store, laws, grown, one_brain, dir, blob, loaded, is_loaded, resolved,
}

differ : (a b : String) → str_eq a b ≡ false → a ≡ b → ⊥
differ a b apart e = ground (arith, eq_iff a b)

branches : branch_state stamp "draft" loaded.manifest loaded.state ≡ ok grown
unfolding branch_state first_manifest first_state get ◌>>=◌ ◌>>◌
branches = refl

mutate_brain-Persists_example :
    ((disk' : Disk) × (mutate_brain store env "t1" "N3" " Work "
          (λ manifest state. silent store env (branch_state stamp "draft" manifest state))
          one_brain
        ≡ ok (disk', tt))
      × Persists store laws env "t1" "N3" id one_brain disk' loaded grown)
    ⊎ (mutate_brain store env "t1" "N3" " Work "
          (λ manifest state. silent store env (branch_state stamp "draft" manifest state))
          one_brain
        ≡ bail "encryption failed")
unfolding branch_state first_manifest first_state brain_dir load_by_dir summary_of get ◌>>=◌ ◌>>◌
mutate_brain-Persists_example =
    mutate_brain-Persists store laws env "t1" "N3" " Work "
      (λ manifest state. silent store env (branch_state stamp "draft" manifest state)) one_brain
      refl refl resolved is_loaded refl refl

abbrev other_blob : EncryptedBlob
other_blob = record { nonce_b64 = "N4"; ciphertext_b64 = "2" }

abbrev forged : BrainManifest
forged = record loaded.manifest { tenant_id = "umbrella" }

load_by_dir-tampered_example :
    (load_by_dir store env (record dir { brain_json = File.holds forged })
      ≡ bail "manifest signature verification failed")
    × (load_by_dir store env (record dir { state_enc = File.holds other_blob })
        ≡ bail (format ("state checksum mismatch for brain " ∷ id ∷ [])))
unfolding first_manifest sign_manifest state_hash manifest_signing_payload
load_by_dir-tampered_example =
    load_by_dir-tampered store env laws dir forged other_blob is_loaded refl refl refl refl
      (λ e. differ "umbrella" "acme" refl (ap (λ (m : BrainManifest). m.tenant_id) e))
      (differ "2" "1" refl)

abbrev edited_blob : EncryptedBlob
edited_blob = record { nonce_b64 = "N3"; ciphertext_b64 = "2" }

abbrev branching : BrainManifest → BrainState → Fallible (BrainState × Unit {0})
branching manifest state = silent store env (branch_state stamp "draft" manifest state)

abbrev renewed : Write
renewed =
    Write.brain_json id (resealed store env "t1" loaded.manifest edited_blob loaded.signing_key)

mutation-torn_example :
    (mutate_brain store env "t1" "N3" " Work " branching one_brain
      ≡ ok (write_all (renewed ∷ Write.state_enc id edited_blob ∷ []) one_brain, tt))
    × ((brain_dir id (write_json renewed one_brain)).brain_json
        ≡ (brain_dir id
            (write_all (renewed ∷ Write.state_enc id edited_blob ∷ []) one_brain)).brain_json)
    × ((brain_dir id (write_json renewed one_brain)).state_enc ≡ (brain_dir id one_brain).state_enc)
    × (load_by_dir store env (brain_dir id (write_json renewed one_brain))
        ≡ bail (format ("state checksum mismatch for brain " ∷ id ∷ [])))
unfolding branch_state first_manifest first_state mutation load_by_dir summary_of brain_dir dir_at
    put_dir write_all write_json state_hash get key_of encrypt_json encrypt_bytes create_brain
    new_files create_dir_all new_id slugify lower_char ◌>>=◌ ◌>>◌
mutation-torn_example =
    mutation-torn store env laws "t1" "N3" " Work " branching one_brain renewed
      (Write.state_enc id edited_blob ∷ []) edited_blob resolved is_loaded refl refl refl
      (differ "2" "1" refl)

export-import_example :
    (pkg : BrainPackage) × (target' : Disk) × (export_brain store " Work " one_brain ≡ ok pkg)
    × (import_brain store "t1" "0123456789" (File.holds pkg) none false no_files
        ≡ ok (target', some (summary_of loaded.manifest)))
    × (load_by_dir store env (brain_dir id target') ≡ ok loaded)
unfolding first_manifest dir_at brain_dir load_by_dir summary_of
export-import_example =
    export-import store "t1" "0123456789" env " Work " one_brain no_files resolved is_loaded refl

abbrev pkg : BrainPackage
pkg = record {
  package_version = "brain/v1";
  manifest = loaded.manifest;
  state = blob;
  signing_key = record { nonce_b64 = "N1"; ciphertext_b64 = "K" };
}

import-unsigned_example :
    let stored = imported store "t1" "0123456789" (some "Copy") no_files pkg.manifest in
    (disk' : Disk) × (import_brain store "t1" "0123456789"
        (File.holds pkg)
        (some "Copy")
        false
        no_files
      ≡ ok (disk', some (summary_of stored)))
    × (load_by_dir store env (brain_dir stored.brain_id disk')
        ≡ bail "manifest signature verification failed")
unfolding first_manifest sign_manifest state_hash manifest_signing_payload
import-unsigned_example =
    import-unsigned store "t1" "0123456789" laws env pkg "K" (some "Copy") no_files refl refl refl
      (inl (differ "Copy" " Work " refl))
