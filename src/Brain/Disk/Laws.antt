-- ===== src/Brain/Disk/Laws.antt =====
-- A directory that is read after a write.
use cortex_v3_1_rmvm_relatio.Base.{
  ◌≡◌, ap, ◌∙◌, false, String, List, [], ◌∷◌, some, str_eq, eq_iff, if◌then◌else◌, arith,
}
use cortex_v3_1_rmvm_relatio.Brain.Types.{BrainManifest, EncryptedBlob}
use cortex_v3_1_rmvm_relatio.Brain.Disk.{
  File, BrainDir, Disk, dir_at, put_dir, dir_or_none, brain_dir, Write, write_json, write_all,
}

pub dir_at-put_dir :
    (j k : String) (d : BrainDir) (r : List (String × BrainDir))
    → dir_at j (put_dir k d r) ≡ (if str_eq k j then some d else dir_at j r)
unfolding dir_at put_dir
dir_at-put_dir j k d [] = ground arith
dir_at-put_dir j k d ((x, e) ∷ r) =
    ground (arith, dir_at-put_dir j k d r, eq_iff x k, eq_iff x j, eq_iff k j)

pub put_dir_self :
    (k : String) (d : BrainDir) (r : List (String × BrainDir)) → dir_at k (put_dir k d r) ≡ some d
put_dir_self k d r = ground (arith, dir_at-put_dir k k d r, eq_iff k k)

pub put_dir_other :
    (j k : String) (d : BrainDir) (r : List (String × BrainDir))
    → str_eq k j ≡ false
    → dir_at j (put_dir k d r) ≡ dir_at j r
put_dir_other j k d r h = ground (arith, dir_at-put_dir j k d r)

module _ (name : String) (m : BrainManifest) (state key : EncryptedBlob) (disk : Disk) where
  pub brain_dir-manifest :
      brain_dir name (write_json (Write.brain_json name m) disk)
      ≡ record (brain_dir name disk) { brain_json = File.holds m }
  unfolding brain_dir write_json
  brain_dir-manifest = ap dir_or_none (put_dir_self name _ disk.brains)

  pub brain_dir-state :
      brain_dir name (write_json (Write.state_enc name state) disk)
      ≡ record (brain_dir name disk) { state_enc = File.holds state }
  unfolding brain_dir write_json
  brain_dir-state = ap dir_or_none (put_dir_self name _ disk.brains)

  pub brain_dir-key :
      brain_dir name (write_json (Write.signing_key_enc name key) disk)
      ≡ record (brain_dir name disk) { signing_key_enc = File.holds key }
  unfolding brain_dir write_json
  brain_dir-key = ap dir_or_none (put_dir_self name _ disk.brains)

-- what `mutate_brain` leaves in a directory
pub brain_dir-mutation :
    (name : String) (m : BrainManifest) (state : EncryptedBlob) (disk : Disk)
    → brain_dir name (write_all (Write.brain_json name m ∷ Write.state_enc name state ∷ []) disk)
      ≡ record (brain_dir name disk) { brain_json = File.holds m; state_enc = File.holds state }
unfolding write_all
brain_dir-mutation name m state disk =
    brain_dir-state name m state state (write_json (Write.brain_json name m) disk)
    ∙ ap (λ (d : BrainDir). record d { state_enc = File.holds state })
        (brain_dir-manifest name m state state disk)

-- what an import or a creation leaves
pub brain_dir-package :
    (name : String) (m : BrainManifest) (state key : EncryptedBlob) (disk : Disk)
    → brain_dir name (
        write_all
          (Write.brain_json name m
            ∷ Write.state_enc name state
            ∷ Write.signing_key_enc name key
            ∷ [])
          disk)
      ≡ record {
        brain_json = File.holds m;
        state_enc = File.holds state;
        signing_key_enc = File.holds key;
      }
unfolding write_all
brain_dir-package name m state key disk =
    brain_dir-key name m state key
      (write_json (Write.state_enc name state) (write_json (Write.brain_json name m) disk))
    ∙ ap (λ (d : BrainDir). record d { signing_key_enc = File.holds key })
        (brain_dir-mutation name m state disk)

-- writes to one directory leave the others
pub brain_dir-other :
    (other name : String) (m : BrainManifest) (state : EncryptedBlob) (disk : Disk)
    → str_eq name other ≡ false
    → brain_dir other (write_all (Write.brain_json name m ∷ Write.state_enc name state ∷ []) disk)
      ≡ brain_dir other disk
unfolding write_all write_json brain_dir
brain_dir-other other name m state disk h = ap dir_or_none (
    put_dir_other other name _ (put_dir name _ disk.brains) h
    ∙ put_dir_other other name _ disk.brains h)
