-- ===== src/Brain/State.antt =====
-- The closures that `branch`, `merge`, `forget_suppress`, `attach` and `detach` hand to `mutate_brain`:
-- what each does to the decrypted state.
pub mod Merged
pub mod Merge
pub mod Suppressed
pub mod Consistent
pub mod History
pub mod Runs
pub mod Grants
use cortex_v3_1_rmvm_relatio.Base.{
  ℕ, ◌+◌, Bool, true, false, ◌&&◌, not, String, List, [], ◌∷◌, ◌++◌, Option, none, some, is_some,
  str_eq, if◌then◌else◌, format, join, filter, length, head?, ok, ◌>>=◌, ◌>>◌, ok_or, reject_if,
}
use cortex_v3_1_rmvm_relatio.Base.Order.{string_ord}
use cortex_v3_1_rmvm_relatio.BTree.Map.{Map, get, insert}
use cortex_v3_1_rmvm_relatio.Planner.Json.{JsonValue, JsonObject}
use cortex_v3_1_rmvm_relatio.Brain.Types.{
  BrainManifest, MemoryObject, BranchState, SuppressionRecord, AttachmentGrant, AuditEntry,
  BrainState, MergeStrategy, MergeReport, Stop, Fallible,
}

-- What the calls of an operation draw: the `Uuid::new_v4` and `Utc::now` of its audit entry, and those
-- of its suppression record.
pub record Stamp : Type 0 where
  pub uuid : String
  pub now : String

unfoldable pub audit_entry : Stamp → String → String → JsonValue → AuditEntry
audit_entry stamp actor action details = record {
  id = stamp.uuid;
  ts = stamp.now;
  actor = actor;
  action = action;
  details = details;
}

abbrev pub json_string : String → JsonValue
json_string s = JsonValue.string s

-- an `Option<&str>`
abbrev pub json_option : Option String → JsonValue
json_option none = JsonValue.null
json_option (some s) = JsonValue.string s

unfoldable pub push_audit : AuditEntry → BrainState → BrainState
push_audit e state = record state { audit = state.audit ++ e ∷ [] }

unfoldable pub branch_state : Stamp → String → BrainManifest → BrainState → Fallible BrainState
unfolding push_audit
branch_state stamp new_branch manifest state = do
  reject_if (is_some (get new_branch state.branches))
      (Stop.failure (format ("branch already exists: " ∷ new_branch ∷ [])))
  source ← ok_or (get manifest.active_branch state.branches) (Stop.failure "active branch missing")
  ok (
      push_audit
        (audit_entry stamp "user" "brain.branch" (
          JsonValue.object (
            JsonObject.entry "from" (json_string manifest.active_branch)
              (JsonObject.entry "to" (json_string new_branch) JsonObject.end_object))))
        (record state {
          branches = insert new_branch (record source { name = new_branch }) state.branches;
        }))

-- the variables of the loop of `merge`
pub record Merging : Type 0 where
  pub objects : Map String MemoryObject
  pub merged : ℕ
  pub conflicts : List String

module _ (same_json : JsonValue → JsonValue → Bool) (strategy : MergeStrategy) where
  -- an object whose id the target has with another content
  abbrev pub merge_changed : String → MemoryObject → Merging → MergeStrategy → Merging
  merge_changed id src acc MergeStrategy.ours = acc
  merge_changed id src acc MergeStrategy.theirs = record acc {
    objects = insert id src acc.objects;
    merged = acc.merged + 1;
  }
  merge_changed id src acc MergeStrategy.manual = record acc {
    conflicts = acc.conflicts ++ id ∷ [];
  }

  abbrev pub same_flag : Bool → Bool → Bool
  same_flag true b = b
  same_flag false b = not b

  abbrev pub is_same : MemoryObject → MemoryObject → Bool
  is_same dst src = same_json dst.value src.value && same_flag dst.suppressed src.suppressed

  abbrev pub merge_found : String → MemoryObject → Merging → Option MemoryObject → Merging
  merge_found id src acc none = record acc {
    objects = insert id src acc.objects;
    merged = acc.merged + 1;
  }
  merge_found id src acc (some dst) =
      if is_same dst src then acc else merge_changed id src acc strategy

  -- one round of the loop
  unfoldable pub merge_object : String → MemoryObject → Merging → Merging
  merge_object id src acc = merge_found id src acc (get id acc.objects)

  unfoldable pub merge_objects : Map String MemoryObject → Merging → Merging
  merge_objects [] acc = acc
  merge_objects ((id, src) ∷ rest) acc = merge_objects rest (merge_object id src acc)

  -- the target's new objects and the audit entry
  unfoldable pub merged_state :
      (ℕ → JsonValue) → Stamp → String → String → BranchState → Merging → BrainState → BrainState
  unfolding push_audit
  merged_state json_count stamp source target target_branch done state =
      push_audit
        (audit_entry stamp "user" "brain.merge" (
          JsonValue.object (
            JsonObject.entry "merged" (json_count done.merged) (
              JsonObject.entry "source" (json_string source)
                (JsonObject.entry "target" (json_string target) JsonObject.end_object)))))
        (record state {
          branches =
              insert target (record target_branch { memory_objects = done.objects }) state.branches;
        })

  unfoldable pub merge_state :
      (ℕ → JsonValue) → Stamp → String → String → BrainState → Fallible (BrainState × MergeReport)
  merge_state json_count stamp source target state = do
    source_branch ←
        ok_or (get source state.branches)
          (Stop.failure (format ("unknown source branch " ∷ source ∷ [])))
    target_branch ←
        ok_or (get target state.branches)
          (Stop.failure (format ("unknown target branch " ∷ target ∷ [])))
    let done =
        merge_objects source_branch.memory_objects
          (record { objects = target_branch.memory_objects; merged = 0; conflicts = [] })
    reject_if (is_some (head? done.conflicts))
        (Stop.failure (format ("merge conflicts: " ∷ join "," done.conflicts ∷ [])))
    ok (
      merged_state json_count stamp source target target_branch done state,
      record { merged = done.merged; conflicts = done.conflicts },
    )

-- the test of the loop of `forget_suppress`
abbrev pub is_hit : String → String → MemoryObject → Bool
is_hit subject predicate obj =
    str_eq obj.subject subject && str_eq obj.predicate predicate && not obj.suppressed

unfoldable pub suppress_objects :
    String → String → Map String MemoryObject → Map String MemoryObject
suppress_objects subject predicate [] = []
suppress_objects subject predicate ((id, obj) ∷ m) =
    (id, if is_hit subject predicate obj then record obj { suppressed = true } else obj)
    ∷ suppress_objects subject predicate m

unfoldable pub count_hits : String → String → Map String MemoryObject → ℕ
count_hits subject predicate [] = 0
count_hits subject predicate ((id, obj) ∷ m) =
    (if is_hit subject predicate obj then 1 else 0) + count_hits subject predicate m

-- the branch with its objects marked and the suppression record
unfoldable pub suppressed_branch :
    Stamp → String → String → String → String → BranchState → BranchState
suppressed_branch record_stamp subject predicate scope reason branch =
    let note : SuppressionRecord = record {
      id = record_stamp.uuid;
      ts = record_stamp.now;
      subject = subject;
      predicate = predicate;
      scope = scope;
      reason = reason;
      suppressed_count = count_hits subject predicate branch.memory_objects;
    } in
    record branch {
      memory_objects = suppress_objects subject predicate branch.memory_objects;
      suppressions = branch.suppressions ++ note ∷ [];
    }

unfoldable pub suppress_state :
    (ℕ → JsonValue)
    → Stamp
    → Stamp
    → String
    → String
    → String
    → String
    → BrainManifest
    → BrainState
    → Fallible (BrainState × ℕ)
unfolding push_audit
suppress_state json_count record_stamp stamp subject predicate scope reason manifest state = do
  branch ← ok_or (get manifest.active_branch state.branches) (Stop.failure "active branch missing")
  let suppressed = count_hits subject predicate branch.memory_objects
  ok (
    push_audit
        (audit_entry stamp "user" "brain.forget.suppress" (
          JsonValue.object (
            JsonObject.entry "predicate" (json_string predicate) (
              JsonObject.entry "scope" (json_string scope) (
                JsonObject.entry "subject" (json_string subject)
                  (JsonObject.entry "suppressed" (json_count suppressed) JsonObject.end_object))))))
        (record state {
          branches =
              insert manifest.active_branch
                (suppressed_branch record_stamp subject predicate scope reason branch)
                state.branches;
        }),
    suppressed,
  )

-- the grant is for this agent and this model
abbrev pub is_for : String → String → AttachmentGrant → Bool
is_for agent model a = str_eq a.agent_id agent && str_eq a.model_id model

unfoldable pub attached_state : Stamp → AttachmentGrant → BrainState → BrainState
unfolding push_audit
attached_state stamp grant state =
    push_audit
      (audit_entry stamp "user" "brain.attach" (
        JsonValue.object (
          JsonObject.entry "agent" (json_string grant.agent_id)
            (JsonObject.entry "model" (json_string grant.model_id) JsonObject.end_object))))
      (record state {
        attachments =
            filter (λ a. not (is_for grant.agent_id grant.model_id a)) state.attachments
            ++ grant ∷ [];
      })

unfoldable pub attach_state : Stamp → AttachmentGrant → BrainState → Fallible BrainState
attach_state stamp grant state = ok (attached_state stamp grant state)

-- `model.is_none_or(|m| m == a.model_id)`
abbrev pub is_detached : String → Option String → AttachmentGrant → Bool
is_detached agent none a = str_eq a.agent_id agent
is_detached agent (some model) a = str_eq a.agent_id agent && str_eq model a.model_id

unfoldable pub detached_state :
    (ℕ → JsonValue) → Stamp → String → Option String → ℕ → BrainState → BrainState
unfolding push_audit
detached_state json_count stamp agent model removed state =
    push_audit
      (audit_entry stamp "user" "brain.detach" (
        JsonValue.object (
          JsonObject.entry "agent" (json_string agent) (
            JsonObject.entry "model" (json_option model)
              (JsonObject.entry "removed" (json_count removed) JsonObject.end_object)))))
      (record state {
        attachments = filter (λ a. not (is_detached agent model a)) state.attachments;
      })

unfoldable pub detach_state :
    (ℕ → JsonValue) → Stamp → String → Option String → BrainState → Fallible (BrainState × ℕ)
detach_state json_count stamp agent model state =
    let removed = length (filter (is_detached agent model) state.attachments) in
    ok (detached_state json_count stamp agent model removed state, removed)
