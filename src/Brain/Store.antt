-- ===== src/Brain/Store.antt =====
-- The operations of `BrainStore` on the files. An operation that fails writes nothing, but for
-- `create_brain`, which has made a directory by then.
pub mod Created
pub mod Imported
pub mod ApiKeys
use cortex_v3_1_rmvm_relatio.Base.{
  Bool, true, false, ◌||◌, not, String, List, [], ◌∷◌, ◌++◌, Option, none, some, is_some, unwrap_or,
  str_eq, if◌then◌else◌, format, trim, take_chars, find?, filter, Result, ok, err, ◌>>=◌, ◌>>◌,
  ok_or, reject_if,
}
use Prim.Native.Nat.{Ordering}
use Prim.Native.String.{compare}
use cortex_v3_1_rmvm_relatio.BTree.Sort.{sort_by}
use cortex_v3_1_rmvm_relatio.Planner.Json.{JsonValue, JsonObject}
use cortex_v3_1_rmvm_relatio.Brain.Types.{
  BrainManifest, BrainSummary, BranchState, BrainState, CreateBrainRequest, EncryptedBlob,
  BrainPackage, AppConfig, ApiKeyMapping, ApiKeyMappings, AuditEntry, Stop, Fallible, summary_of,
}
use cortex_v3_1_rmvm_relatio.Brain.Vault.{
  Vault, encrypt_bytes, encrypt_json, decrypt_bytes, decrypt_json, sign_manifest,
  verify_manifest_signature, state_hash,
}
use cortex_v3_1_rmvm_relatio.Brain.Disk.{
  File, read_json, exists, BrainDir, Disk, dir_at, brain_dir, create_dir_all, Write, write_all,
}
use cortex_v3_1_rmvm_relatio.Brain.Resolve.{Env, resolve_brain}
use cortex_v3_1_rmvm_relatio.Brain.Slug.{slugify}
use cortex_v3_1_rmvm_relatio.Brain.State.{Stamp, audit_entry, json_string}

abbrev pub format_version : String
format_version = "brain/v1"

abbrev pub rmvm_proto_version : String
rmvm_proto_version = "cortex_rmvm_v3_1"

abbrev pub default_secret_env : String
default_secret_env = "CORTEX_BRAIN_SECRET"

unfoldable pub read_api_mappings : Disk → Fallible ApiKeyMappings
read_api_mappings disk =
    if exists disk.api_keys then read_json disk.api_keys else ok (record { mappings = [] })

-- what `create_brain` draws
pub record Draws (Bytes : Type 0) : Type 0 where
  pub uuid : String
  pub salt : Bytes
  pub signing_key : Bytes
  pub key_nonce : Bytes
  pub state_nonce : Bytes
  pub now : String
  pub stamp : Stamp

unfoldable pub first_state : Stamp → String → String → BrainState
first_state stamp brain_id tenant_id = record {
  branches =
      (
        "main",
        record { name = "main"; memory_objects = []; rules = []; ledger = []; suppressions = [] },
      )
      ∷ [];
  attachments = [];
  audit =
      audit_entry stamp "system" "brain.create" (
        JsonValue.object (
          JsonObject.entry "brain_id" (json_string brain_id)
            (JsonObject.entry "tenant_id" (json_string tenant_id) JsonObject.end_object)))
      ∷ [];
}

module _ {Bytes : Type 0} (v : Vault Bytes) where
  unfoldable pub map_api_key : String → String → String → String → Disk → Fallible (Disk × Unit {0})
  map_api_key api_key_plain tenant_id brain_id subject disk = do
    mappings ← read_api_mappings disk
    let hash = v.sha256_hex (v.utf8 api_key_plain)
    let kept = filter (λ (m : ApiKeyMapping). not (str_eq m.key_hash hash)) mappings.mappings
    let mapping : ApiKeyMapping = record {
      key_hash = hash;
      tenant_id = tenant_id;
      brain_id = brain_id;
      subject = subject;
    }
    ok (write_all (Write.api_keys (record { mappings = kept ++ mapping ∷ [] }) ∷ []) disk, tt)

  unfoldable pub resolve_api_key : String → Disk → Fallible (Option ApiKeyMapping)
  resolve_api_key api_key_plain disk = do
    mappings ← read_api_mappings disk
    let hash = v.sha256_hex (v.utf8 api_key_plain)
    ok (find? (λ (m : ApiKeyMapping). str_eq m.key_hash hash) mappings.mappings)

  unfoldable pub export_brain : String → Disk → Fallible BrainPackage
  export_brain brain_ref disk = do
    summary ← resolve_brain brain_ref disk
    let dir = brain_dir summary.brain_id disk
    manifest ← read_json dir.brain_json
    state ← read_json dir.state_enc
    signing_key ← read_json dir.signing_key_enc
    verify_manifest_signature v manifest
    ok (record {
      package_version = format_version;
      manifest = manifest;
      state = state;
      signing_key = signing_key;
    })

  -- `now` and `uuid` are what the call draws, if it draws them
  abbrev pub renamed : Option String → String → BrainManifest → BrainManifest
  renamed none now manifest = manifest
  renamed (some name) now manifest = record manifest { name = name; updated_at = now }

  unfoldable pub import_id : String → String → Disk → String
  import_id uuid brain_id disk =
      if is_some (dir_at brain_id disk.brains)
      then format (brain_id ∷ "-" ∷ take_chars 6 uuid ∷ [])
      else brain_id

  -- the manifest as it is written; its signature is not renewed
  abbrev pub imported : String → String → Option String → Disk → BrainManifest → BrainManifest
  imported now uuid name_override disk manifest = record (renamed name_override now manifest) {
    brain_id = import_id uuid manifest.brain_id disk;
  }

  abbrev pub package_writes : String → BrainManifest → BrainPackage → List Write
  package_writes id manifest pkg =
      Write.brain_json id manifest
      ∷ Write.state_enc id pkg.state
      ∷ Write.signing_key_enc id pkg.signing_key
      ∷ []

  unfoldable pub import_brain :
      String
      → String
      → File BrainPackage
      → Option String
      → Bool
      → Disk
      → Fallible (Disk × Option BrainSummary)
  import_brain now uuid in_file name_override verify_only disk = do
    pkg ← read_json in_file
    verify_manifest_signature v pkg.manifest
    reject_if (not (str_eq (state_hash v pkg.state) pkg.manifest.state_sha256))
        (Stop.failure "state checksum mismatch on import package")
    let manifest = imported now uuid name_override disk pkg.manifest
    let written =
        write_all (package_writes manifest.brain_id manifest pkg)
          (create_dir_all manifest.brain_id disk)
    ok (if verify_only then (disk, none) else (written, some (summary_of manifest)))

  unfoldable pub new_id : Draws Bytes → String → String
  new_id draws name = format (slugify name ∷ "-" ∷ take_chars 8 draws.uuid ∷ [])

  -- the manifest of a new brain before it is signed
  unfoldable pub first_manifest :
      Draws Bytes → CreateBrainRequest → String → String → EncryptedBlob → BrainManifest
  first_manifest draws req secret_env brain_id state_enc = record {
    format_version = format_version;
    brain_id = brain_id;
    name = req.name;
    tenant_id = req.tenant_id;
    created_at = draws.now;
    updated_at = draws.now;
    rmvm_proto_version = rmvm_proto_version;
    schema_migrations = "brain/v1:init" ∷ [];
    active_branch = "main";
    kdf_salt_b64 = v.b64_encode draws.salt;
    signing_public_key_b64 = v.b64_encode (v.verifying_key draws.signing_key);
    state_sha256 = state_hash v state_enc;
    secret_env_var = secret_env;
    signature_b64 = "";
  }

  abbrev pub signed : BrainManifest → Bytes → BrainManifest
  signed manifest signing_key = record manifest {
    signature_b64 = sign_manifest v manifest signing_key;
  }

  -- the three files of a new brain
  unfoldable pub new_files :
      Draws Bytes
      → CreateBrainRequest
      → String
      → String
      → String
      → Fallible (BrainManifest × EncryptedBlob × EncryptedBlob)
  new_files draws req secret_env secret brain_id = do
    key ← v.derive_key (v.utf8 secret) draws.salt
    signing_key_enc ← encrypt_bytes v draws.key_nonce key (v.utf8 brain_id) draws.signing_key
    state_enc ←
        encrypt_json v draws.state_nonce key (v.utf8 brain_id)
          (first_state draws.stamp brain_id req.tenant_id)
    ok (
      signed (first_manifest draws req secret_env brain_id state_enc) draws.signing_key,
      state_enc,
      signing_key_enc,
    )

  abbrev pub create_in :
      String
      → Disk
      → Fallible (BrainManifest × EncryptedBlob × EncryptedBlob)
      → Fallible BrainSummary × Disk
  create_in brain_id made (err e) = (err e, made)
  create_in brain_id made (ok (manifest, state_enc, signing_key_enc)) = (
    ok (summary_of manifest),
    write_all
        (Write.brain_json brain_id manifest
          ∷ Write.state_enc brain_id state_enc
          ∷ Write.signing_key_enc brain_id signing_key_enc
          ∷ [])
        made,
  )

  abbrev pub create_with :
      Draws Bytes
      → CreateBrainRequest
      → String
      → Option String
      → Disk
      → Fallible BrainSummary × Disk
  create_with draws req secret_env none disk = (
    err (
        Stop.failure (
          format
            ("missing passphrase env var " ∷ secret_env ∷ "; set it before creating brain" ∷ []))),
    disk,
  )
  create_with draws req secret_env (some secret) disk =
      let brain_id = new_id draws req.name in
      create_in brain_id (create_dir_all brain_id disk)
        (new_files draws req secret_env secret brain_id)

  unfoldable pub create_brain :
      Env → Draws Bytes → CreateBrainRequest → Disk → Fallible BrainSummary × Disk
  create_brain env draws req disk =
      let secret_env = unwrap_or req.passphrase_env default_secret_env in
      create_with draws req secret_env (env secret_env) disk
