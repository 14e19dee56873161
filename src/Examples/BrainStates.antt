-- ===== src/Examples/BrainStates.antt =====
-- The theorems on decrypted states, grants and API keys.
use cortex_v3_1_rmvm_relatio.Base.{
  ℕ, ◌≡◌, ◌≢◌, refl, true, false, String, List, [], ◌∷◌, ◌++◌, none, some, ok, ◌⊎◌, length, filter,
  format, join, ◌>>=◌, ◌>>◌, Bool,
}
use cortex_v3_1_rmvm_relatio.Base.Order.{string_ord}
use cortex_v3_1_rmvm_relatio.BTree.Map.{get}
use cortex_v3_1_rmvm_relatio.Planner.Json.{JsonValue}
use cortex_v3_1_rmvm_relatio.Brain.Types.{
  MemoryObject, BranchState, BrainState, AttachmentGrant, AuditEntry, MergeStrategy, MergeReport,
  bail,
}
use cortex_v3_1_rmvm_relatio.Brain.Disk.{Disk}
use cortex_v3_1_rmvm_relatio.Brain.State.{
  branch_state, merge_state, suppress_state, is_for, attach_state, attached_state, detach_state,
}
use cortex_v3_1_rmvm_relatio.Brain.State.Merged.{ids_where, is_conflict}
use cortex_v3_1_rmvm_relatio.Brain.State.Merge.{Merges, merge_state-Merges}
use cortex_v3_1_rmvm_relatio.Brain.State.Suppressed.{Suppresses, suppress_state-Suppresses}
use cortex_v3_1_rmvm_relatio.Brain.State.Consistent.{Consistent}
use cortex_v3_1_rmvm_relatio.Brain.State.Runs.{
  Edits, Run, Run-Consistent, Run-audit, first_state-Consistent,
}
use cortex_v3_1_rmvm_relatio.Brain.State.Grants.{others, attach-detach}
use cortex_v3_1_rmvm_relatio.Brain.Store.{
  first_state, first_manifest, read_api_mappings, map_api_key, resolve_api_key,
}
use cortex_v3_1_rmvm_relatio.Brain.Store.ApiKeys.{map-resolve_api_key}
use cortex_v3_1_rmvm_relatio.Examples.Brains.{no_files, stamp, born, grown, active_main, store}

abbrev tea : MemoryObject
tea = record {
  id = "m1";
  subject = "user:demo";
  predicate = "prefers_beverage";
  value = JsonValue.string "tea";
  memory_type = "fact";
  suppressed = false;
}

abbrev hidden_tea : MemoryObject
hidden_tea = record tea { suppressed = true }

abbrev branch_with : String → MemoryObject → BranchState
branch_with name obj = record {
  name = name;
  memory_objects = ("m1", obj) ∷ [];
  rules = [];
  ledger = [];
  suppressions = [];
}

-- the draft has hidden the fact
abbrev two_branches : BrainState
two_branches = record born {
  branches = ("draft", branch_with "draft" hidden_tea) ∷ ("main", branch_with "main" tea) ∷ [];
}

abbrev nothing : ℕ → JsonValue
nothing n = JsonValue.null

abbrev always : JsonValue → JsonValue → Bool
always a b = true

merge_state-Merges_example :
    let ids =
      ids_where
        (is_conflict always MergeStrategy.manual)
        (("m1", hidden_tea) ∷ [])
        (("m1", tea) ∷ []) in
    let outcome =
      merge_state always MergeStrategy.manual nothing stamp "draft" "main" two_branches in
    ((state' : BrainState) × (report : MergeReport) × (outcome ≡ ok (state', report))
      × (ids ≡ [])
      × Merges always MergeStrategy.manual nothing stamp "draft" "main" two_branches
          (branch_with "draft" hidden_tea)
          (branch_with "main" tea)
          state'
          report)
    ⊎ ((outcome ≡ bail (format ("merge conflicts: " ∷ join "," ids ∷ []))) × (ids ≢ []))
unfolding get
merge_state-Merges_example =
    merge_state-Merges always MergeStrategy.manual nothing stamp "draft" "main" two_branches refl
      refl (tt, tt)

suppress_state-Suppresses_example :
    (state' : BrainState) × (count : ℕ) × (suppress_state nothing stamp stamp "user:demo"
        "prefers_beverage" "s" "r" active_main two_branches
      ≡ ok (state', count))
    × Suppresses "main" "user:demo" "prefers_beverage"
        (branch_with "main" tea)
        two_branches
        state'
        count
unfolding get first_manifest
suppress_state-Suppresses_example =
    suppress_state-Suppresses nothing stamp stamp "user:demo" "prefers_beverage" "s" "r" active_main
      two_branches refl

abbrev grant : AttachmentGrant
grant = record {
  agent_id = "agent";
  model_id = "model";
  read_classes = [];
  write_classes = [];
  sinks = [];
  expires_at = none;
}

-- a branch, then a grant
run : Run always nothing active_main 2 born (attached_state stamp grant grown)
unfolding branch_state attach_state first_manifest first_state get ◌>>=◌ ◌>>◌
run =
    Run.edited (Edits.branched stamp "draft" refl)
      (Run.edited (Edits.attached stamp grant refl) Run.done)

born-Consistent : Consistent active_main.active_branch born
unfolding first_manifest
born-Consistent = first_state-Consistent stamp "work-01234567" "acme"

Run-Consistent_example : Consistent active_main.active_branch (attached_state stamp grant grown)
Run-Consistent_example = Run-Consistent always nothing active_main run born-Consistent

Run-audit_example :
    (log : List AuditEntry) × ((attached_state stamp grant grown).audit ≡ born.audit ++ log)
    × (length log ≡ 2)
Run-audit_example = Run-audit always nothing active_main run

attach-detach_example :
    (attached : BrainState) × (detached : BrainState) × (attach_state stamp grant born
      ≡ ok attached)
    × (filter (is_for "agent" "model") attached.attachments ≡ grant ∷ [])
    × (detach_state nothing stamp "agent" (some "model") attached ≡ ok (detached, 1))
    × (detached.attachments ≡ others grant born.attachments)
attach-detach_example = attach-detach nothing stamp stamp grant born

map-resolve_api_key_example :
    (disk' : Disk) × (map_api_key store "key" "acme" "work" "user:demo" no_files ≡ ok (disk', tt))
    × (resolve_api_key store "key" disk'
        ≡ ok (
            some (record {
              key_hash = "key";
              tenant_id = "acme";
              brain_id = "work";
              subject = "user:demo";
            })))
    × (resolve_api_key store "other" disk' ≡ resolve_api_key store "other" no_files)
    × (disk'.brains ≡ no_files.brains)
unfolding read_api_mappings
map-resolve_api_key_example =
    map-resolve_api_key store "key" "acme" "work" "user:demo" "other" no_files refl refl
