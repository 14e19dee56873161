-- ===== src/Brain/Types.antt =====
-- The records of the brain store. `PathBuf`s and the environment are elsewhere.
use cortex_v3_1_rmvm_relatio.Base.{ℕ, Bool, String, List, Option, Result, err}
use cortex_v3_1_rmvm_relatio.BTree.Map.{Map}
use cortex_v3_1_rmvm_relatio.Planner.Json.{JsonValue}

pub record BrainManifest : Type 0 where
  pub format_version : String
  pub brain_id : String
  pub name : String
  pub tenant_id : String
  pub created_at : String
  pub updated_at : String
  pub rmvm_proto_version : String
  pub schema_migrations : List String
  pub active_branch : String
  pub kdf_salt_b64 : String
  pub signing_public_key_b64 : String
  pub state_sha256 : String
  pub secret_env_var : String
  pub signature_b64 : String

pub record BrainSummary : Type 0 where
  pub brain_id : String
  pub name : String
  pub tenant_id : String
  pub updated_at : String
  pub active_branch : String

pub record MemoryObject : Type 0 where
  pub id : String
  pub subject : String
  pub predicate : String
  pub value : JsonValue
  pub memory_type : String
  pub suppressed : Bool

pub record RuleEntry : Type 0 where
  pub id : String
  pub description : String
  pub allowed_sinks : List String

pub record LedgerEvent : Type 0 where
  pub id : String
  pub ts : String
  pub operation : String
  pub payload : JsonValue

pub record SuppressionRecord : Type 0 where
  pub id : String
  pub ts : String
  pub subject : String
  pub predicate : String
  pub scope : String
  pub reason : String
  pub suppressed_count : ℕ

pub record BranchState : Type 0 where
  pub name : String
  pub memory_objects : Map String MemoryObject
  pub rules : List RuleEntry
  pub ledger : List LedgerEvent
  pub suppressions : List SuppressionRecord

pub record AttachmentGrant : Type 0 where
  pub agent_id : String
  pub model_id : String
  pub read_classes : List String
  pub write_classes : List String
  pub sinks : List String
  pub expires_at : Option String

pub record AuditEntry : Type 0 where
  pub id : String
  pub ts : String
  pub actor : String
  pub action : String
  pub details : JsonValue

pub record BrainState : Type 0 where
  pub branches : Map String BranchState
  pub attachments : List AttachmentGrant
  pub audit : List AuditEntry

pub record CreateBrainRequest : Type 0 where
  pub name : String
  pub tenant_id : String
  pub passphrase_env : Option String

pub data MergeStrategy : Type 0 where
  ours theirs manual : MergeStrategy

pub record MergeReport : Type 0 where
  pub merged : ℕ
  pub conflicts : List String

pub record EncryptedBlob : Type 0 where
  pub nonce_b64 : String
  pub ciphertext_b64 : String

pub record BrainPackage : Type 0 where
  pub package_version : String
  pub manifest : BrainManifest
  pub state : EncryptedBlob
  pub signing_key : EncryptedBlob

pub record AppConfig : Type 0 where
  pub active_brain : Option String

pub record ApiKeyMapping : Type 0 where
  pub key_hash : String
  pub tenant_id : String
  pub brain_id : String
  pub subject : String

pub record ApiKeyMappings : Type 0 where
  pub mappings : List ApiKeyMapping

-- an `anyhow` error, or a panic
pub data Stop : Type 0 where
  failure : String → Stop
  panic : String → Stop

abbrev pub Fallible {ℓ} : Type ℓ → Type ℓ
Fallible A = Result Stop A

abbrev pub bail {ℓ} : {A : Type ℓ} → String → Fallible A
bail message = err (Stop.failure message)

unfoldable pub summary_of : BrainManifest → BrainSummary
summary_of manifest = record {
  brain_id = manifest.brain_id;
  name = manifest.name;
  tenant_id = manifest.tenant_id;
  updated_at = manifest.updated_at;
  active_branch = manifest.active_branch;
}
