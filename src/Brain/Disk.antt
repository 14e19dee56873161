-- ===== src/Brain/Disk.antt =====
-- The files of the home directory. A write replaces the whole file; errors of the file system are not
-- modelled but a file that is missing or does not parse. A brain id is the flat name of a directory: the
-- paths that `brains_dir().join` makes of an id with separators are not modelled.
pub mod Laws
use cortex_v3_1_rmvm_relatio.Base.{
  Bool, true, false, String, List, [], ◌∷◌, Option, none, some, str_eq, if◌then◌else◌, ok, is_some,
}
use cortex_v3_1_rmvm_relatio.Brain.Types.{
  BrainManifest, EncryptedBlob, AppConfig, ApiKeyMappings, Fallible, bail,
}

-- what `fs::read` and `serde_json::from_slice` find
pub data File (A : Type 0) : Type 0 where
  missing : File A
  unparsed : String → File A
  holds : A → File A

abbrev pub read_json : {A : Type 0} → File A → Fallible A
read_json File.missing = bail "No such file or directory (os error 2)"
read_json (File.unparsed message) = bail message
read_json (File.holds a) = ok a

-- `path.exists()`
abbrev pub exists : {A : Type 0} → File A → Bool
exists File.missing = false
exists _ = true

-- one directory below brains/
pub record BrainDir : Type 0 where
  pub brain_json : File BrainManifest
  pub state_enc : File EncryptedBlob
  pub signing_key_enc : File EncryptedBlob

-- a directory that was just made
abbrev pub fresh_dir : BrainDir
fresh_dir = record {
  brain_json = File.missing;
  state_enc = File.missing;
  signing_key_enc = File.missing;
}

-- the directories below brains/, in the order in which `read_dir` lists them, and two more files
pub record Disk : Type 0 where
  pub brains : List (String × BrainDir)
  pub config : File AppConfig
  pub api_keys : File ApiKeyMappings

unfoldable pub dir_at : String → List (String × BrainDir) → Option BrainDir
dir_at name [] = none
dir_at name ((x, d) ∷ r) = if str_eq x name then some d else dir_at name r

-- a new directory is listed last
unfoldable pub put_dir : String → BrainDir → List (String × BrainDir) → List (String × BrainDir)
put_dir name d [] = (name, d) ∷ []
put_dir name d ((x, e) ∷ r) = if str_eq x name then (x, d) ∷ r else (x, e) ∷ put_dir name d r

-- a file is read as missing where its directory is
abbrev pub dir_or_none : Option BrainDir → BrainDir
dir_or_none none = fresh_dir
dir_or_none (some d) = d

unfoldable pub brain_dir : String → Disk → BrainDir
brain_dir name disk = dir_or_none (dir_at name disk.brains)

-- `create_dir_all`, which leaves a directory that is there
unfoldable pub create_dir_all : String → Disk → Disk
create_dir_all name disk =
    if is_some (dir_at name disk.brains)
    then disk
    else record disk { brains = put_dir name fresh_dir disk.brains }

-- one file written whole
pub data Write : Type 0 where
  brain_json : String → BrainManifest → Write
  state_enc : String → EncryptedBlob → Write
  signing_key_enc : String → EncryptedBlob → Write
  config : AppConfig → Write
  api_keys : ApiKeyMappings → Write

-- `write_json` makes the directory if it is not there
unfoldable pub write_json : Write → Disk → Disk
write_json (Write.brain_json name m) disk = record disk {
  brains = put_dir name (record (brain_dir name disk) { brain_json = File.holds m }) disk.brains;
}
write_json (Write.state_enc name b) disk = record disk {
  brains = put_dir name (record (brain_dir name disk) { state_enc = File.holds b }) disk.brains;
}
write_json (Write.signing_key_enc name b) disk = record disk {
  brains =
      put_dir name (record (brain_dir name disk) { signing_key_enc = File.holds b }) disk.brains;
}
write_json (Write.config c) disk = record disk { config = File.holds c }
write_json (Write.api_keys m) disk = record disk { api_keys = File.holds m }

unfoldable pub write_all : List Write → Disk → Disk
write_all [] disk = disk
write_all (w ∷ ws) disk = write_all ws (write_json w disk)
