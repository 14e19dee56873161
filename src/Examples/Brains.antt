-- ===== src/Examples/Brains.antt =====
-- The theorems on the brain store, on a home directory with one brain.
use cortex_v3_1_rmvm_relatio.Base.{
  ◌≡◌, refl, String, [], none, some, ok, lower_char, ◌⊎◌, err, ◌>>=◌, ◌>>◌,
}
use cortex_v3_1_rmvm_relatio.BTree.Sort.{sort_by}
use cortex_v3_1_rmvm_relatio.Brain.Types.{
  BrainManifest, EncryptedBlob, Fallible, bail, BrainState, CreateBrainRequest, summary_of,
}
use cortex_v3_1_rmvm_relatio.Brain.Vault.{
  Vault, VaultLaws, IsReadable, encrypt_bytes, encrypt_json, decrypt_bytes, decrypt_json,
  sign_manifest, manifest_signing_payload, verify_manifest_signature, state_hash,
}
use cortex_v3_1_rmvm_relatio.Brain.Disk.{
  File, BrainDir, Disk, brain_dir, dir_at, put_dir, write_json, write_all, create_dir_all,
}
use cortex_v3_1_rmvm_relatio.Brain.Slug.{slugify}
use cortex_v3_1_rmvm_relatio.Brain.State.{Stamp, branch_state}
use cortex_v3_1_rmvm_relatio.Brain.Resolve.{Env, summaries, list_brains, resolve_brain}
use cortex_v3_1_rmvm_relatio.Brain.Store.{
  Draws, first_state, new_id, first_manifest, create_brain, new_files,
}
use cortex_v3_1_rmvm_relatio.Brain.Store.Created.{created, create_brain-Creates, Creates}
use cortex_v3_1_rmvm_relatio.Brain.Edit.{Loaded, key_of, load_by_dir}
use cortex_v3_1_rmvm_relatio.Examples.Toy.{toy, toy_laws}

abbrev pub no_files : Disk
no_files = record { brains = []; config = File.missing; api_keys = File.missing }

abbrev pub stamp : Stamp
stamp = record { uuid = "11112222-3333"; now = "t0" }

abbrev pub id : String
id = "work-01234567"

abbrev pub born : BrainState
born = first_state stamp id "acme"

abbrev pub draws : Draws String
draws = record {
  uuid = "01234567-89ab";
  salt = "salt";
  signing_key = "K";
  key_nonce = "N1";
  state_nonce = "N2";
  now = "t0";
  stamp = stamp;
}

abbrev pub env : Env
env name = some "passphrase"

abbrev pub req : CreateBrainRequest
req = record { name = " Work "; tenant_id = "acme"; passphrase_env = none }

-- the state that `branch` makes of it
abbrev pub state_or_born : Fallible BrainState → BrainState
state_or_born (ok s) = s
state_or_born (err e) = born

abbrev pub active_main : BrainManifest
active_main =
    first_manifest (toy born born) draws req "" id (record { nonce_b64 = ""; ciphertext_b64 = "" })

abbrev pub grown : BrainState
grown = state_or_born (branch_state stamp "draft" active_main born)

abbrev pub store : Vault String
store = toy born grown

abbrev pub laws : VaultLaws store
laws = toy_laws born grown

named : new_id store draws req.name ≡ id
unfolding new_id slugify lower_char
named = refl

readable : IsReadable store (first_state stamp (new_id store draws req.name) "acme")
unfolding new_id slugify lower_char first_state
readable = refl

create_brain-Creates_example :
    Creates store laws env draws req "CORTEX_BRAIN_SECRET" (new_id store draws req.name) no_files
    ⊎ (create_brain store env draws req no_files
        ≡ (bail "encryption failed", create_dir_all (new_id store draws req.name) no_files))
create_brain-Creates_example =
    create_brain-Creates store laws env draws req "CORTEX_BRAIN_SECRET" "passphrase" no_files refl
      refl refl readable refl refl refl

abbrev pub one_brain : Disk
one_brain = (create_brain store env draws req no_files).1

abbrev pub dir : BrainDir
dir = brain_dir id one_brain

abbrev pub blob : EncryptedBlob
blob = record { nonce_b64 = "N2"; ciphertext_b64 = "1" }

abbrev pub loaded : Loaded String
loaded = created store laws env draws req "CORTEX_BRAIN_SECRET" id blob

pub is_loaded : load_by_dir store env dir ≡ ok loaded
unfolding load_by_dir key_of verify_manifest_signature decrypt_bytes decrypt_json state_hash
    brain_dir create_brain new_files new_id slugify lower_char encrypt_bytes encrypt_json
    sign_manifest manifest_signing_payload first_manifest first_state write_all write_json
    create_dir_all put_dir dir_at ◌>>=◌ ◌>>◌
is_loaded = refl

pub resolved : resolve_brain " Work " one_brain ≡ ok (summary_of loaded.manifest)
unfolding resolve_brain list_brains summaries sort_by summary_of brain_dir create_brain new_files
    new_id slugify lower_char encrypt_bytes encrypt_json sign_manifest manifest_signing_payload
    first_manifest first_state write_all write_json create_dir_all put_dir dir_at ◌>>=◌ ◌>>◌
resolved = refl
