-- ===== src/Brain/State/Runs.antt =====
-- Any number of edits after one another, from the state that `create_brain` makes.
use cortex_v3_1_rmvm_relatio.Base.{
  ℕ, suc, ◌≡◌, refl, sym, ap, ◌∙◌, String, List, [], ◌∷◌, ◌++◌, Option, length, ok, Bool,
}
use mathlib.Core.List.{append_assoc, append-nil}
use cortex_v3_1_rmvm_relatio.Base.Order.{string_ord}
use cortex_v3_1_rmvm_relatio.BTree.Map.{get}
use cortex_v3_1_rmvm_relatio.Planner.Json.{JsonValue}
use cortex_v3_1_rmvm_relatio.Brain.Types.{
  BrainManifest, BrainState, AttachmentGrant, AuditEntry, MergeStrategy, MergeReport,
}
use cortex_v3_1_rmvm_relatio.Brain.State.{
  Stamp, branch_state, merge_state, suppress_state, attach_state, detach_state,
}
use cortex_v3_1_rmvm_relatio.Brain.State.Consistent.{Consistent}
use cortex_v3_1_rmvm_relatio.Brain.State.History.{
  Effect, branch_state-Effect, merge_state-Effect, suppress_state-Effect, attach_state-Effect,
  detach_state-Effect,
}
use cortex_v3_1_rmvm_relatio.Brain.Store.{first_state}

module _ (same_json : JsonValue → JsonValue → Bool) (json_count : ℕ → JsonValue)
    (manifest : BrainManifest) where
  -- one edit that succeeded
  pub data Edits : BrainState → BrainState → Type 0 where
    branched :
        (stamp : Stamp) (new : String) {s s' : BrainState}
        → branch_state stamp new manifest s ≡ ok s'
        → Edits s s'
    merged :
        (strategy : MergeStrategy) (stamp : Stamp) (source target : String) (report : MergeReport)
        {s s' : BrainState}
        → merge_state same_json strategy json_count stamp source target s ≡ ok (s', report)
        → Edits s s'
    forgot :
        (record_stamp stamp : Stamp) (subject predicate scope reason : String) (count : ℕ)
        {s s' : BrainState}
        → suppress_state json_count record_stamp stamp subject predicate scope reason manifest s
          ≡ ok (s', count)
        → Edits s s'
    attached :
        (stamp : Stamp) (grant : AttachmentGrant) {s s' : BrainState}
        → attach_state stamp grant s ≡ ok s'
        → Edits s s'
    detached :
        (stamp : Stamp) (agent : String) (model : Option String) (count : ℕ) {s s' : BrainState}
        → detach_state json_count stamp agent model s ≡ ok (s', count)
        → Edits s s'

  Edits-Effect : {s s' : BrainState} → Edits s s' → Effect manifest.active_branch s s'
  Edits-Effect (Edits.branched stamp new {s} p) = branch_state-Effect stamp new manifest s p
  Edits-Effect (Edits.merged strategy stamp source target report {s} p) =
      merge_state-Effect same_json strategy json_count stamp source target manifest.active_branch s
        p
  Edits-Effect (Edits.forgot record_stamp stamp subject predicate scope reason count {s} p) =
      suppress_state-Effect json_count record_stamp stamp subject predicate scope reason manifest s
        p
  Edits-Effect (Edits.attached stamp grant {s} p) =
      attach_state-Effect stamp grant manifest.active_branch s p
  Edits-Effect (Edits.detached stamp agent model count {s} p) =
      detach_state-Effect json_count stamp agent model manifest.active_branch s p

  -- `n` edits
  pub data Run : ℕ → BrainState → BrainState → Type 0 where
    done : {s : BrainState} → Run 0 s s
    edited : {n : ℕ} {s t u : BrainState} → Edits s t → Run n t u → Run (suc n) s u

  -- Any number of successful branches, merges, suppressions, attachments and detachments keeps a
  -- state consistent: the branches are sorted, each stands under its own name with sorted objects,
  -- the active branch exists, and no two grants are for one agent and one model.
  pub Run-Consistent :
      {n : ℕ} {s s' : BrainState}
      → Run n s s'
      → Consistent manifest.active_branch s
      → Consistent manifest.active_branch s'
  Run-Consistent Run.done c = c
  Run-Consistent (Run.edited e r) c = Run-Consistent r ((Edits-Effect e).keeps c)

  -- Any number of successful edits leaves the earlier audit log as it was and adds one entry for
  -- each edit.
  pub Run-audit :
      {n : ℕ} {s s' : BrainState}
      → Run n s s'
      → (log : List AuditEntry) × (s'.audit ≡ s.audit ++ log) × (length log ≡ n)
  Run-audit {s = s} Run.done = ([], sym (append-nil s.audit), refl)
  Run-audit (Run.edited {s = s} e r) =
      let effect = Edits-Effect e in
      let (log, grown, counted) = Run-audit r in
      (
        effect.entry ∷ log,
        grown
            ∙ ap (λ (a : List AuditEntry). a ++ log) effect.audited
            ∙ append_assoc s.audit (effect.entry ∷ []) log,
        ap suc counted,
      )

pub first_state-Consistent :
    (stamp : Stamp) (brain_id tenant_id : String)
    → Consistent "main" (first_state stamp brain_id tenant_id)
unfolding first_state get
first_state-Consistent stamp brain_id tenant_id = record {
  sorted = (tt, tt);
  tidy = ((refl, tt), tt);
  has_active = refl;
  unique = tt;
}
