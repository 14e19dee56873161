-- ===== src/Brain/State/Merge.antt =====
-- `merge` as a whole: the target's objects, the report and the refusal.
use cortex_v3_1_rmvm_relatio.Base.{
  ℕ, ◌≡◌, ◌≢◌, refl, ◌∙◌, Bool, true, false, String, List, [], ◌∷◌, some, is_some, head?, format,
  join, arith, length, ◌⊎◌, inl, inr, ok, ◌>>=◌, ◌>>◌,
}
use cortex_v3_1_rmvm_relatio.Base.Order.{string_ord}
use cortex_v3_1_rmvm_relatio.BTree.Map.{get}
use cortex_v3_1_rmvm_relatio.BTree.Map.Laws.{get-insert, get-insert_self, IsSorted}
use cortex_v3_1_rmvm_relatio.BTree.Set.Laws.{same}
use cortex_v3_1_rmvm_relatio.Planner.Json.{JsonValue}
use cortex_v3_1_rmvm_relatio.Brain.Types.{BranchState, BrainState, MergeStrategy, MergeReport, bail}
use cortex_v3_1_rmvm_relatio.Brain.State.{
  Stamp, Merging, merge_objects, merged_state, merge_state, push_audit,
}
use cortex_v3_1_rmvm_relatio.Brain.State.Merged.{
  merged_at, is_taken, is_conflict, ids_where, get-merge_objects, merge_objects-results,
}

head-cases : (xs : List String) → (xs ≡ []) ⊎ ((is_some (head? xs) ≡ true) × (xs ≢ []))
head-cases [] = inl refl
head-cases (x ∷ xs) = inr (refl, λ e. cc)

module _ (same_json : JsonValue → JsonValue → Bool) (strategy : MergeStrategy)
    (json_count : ℕ → JsonValue) (stamp : Stamp) (source target : String) (state : BrainState) where
  -- the outcome of a merge of the branch `s` into the branch `t`
  pub record Merges (s t : BranchState) (state' : BrainState) (report : MergeReport) : Type 0 where
    pub branch : BranchState
    pub at_target : get target state'.branches ≡ some branch
    pub objects :
        (id : String)
        → get id branch.memory_objects
          ≡ merged_at same_json strategy (get id s.memory_objects) (get id t.memory_objects)
    pub others :
        (name : String)
        → same name target ≡ false
        → get name state'.branches ≡ get name state.branches
    pub taken :
        report.merged
        ≡ length (ids_where (is_taken same_json strategy) s.memory_objects t.memory_objects)
    pub no_conflicts : report.conflicts ≡ []

  start : BranchState → Merging
  start t = record { objects = t.memory_objects; merged = 0; conflicts = [] }

  merged_state-Merges :
      (s t : BranchState)
      → IsSorted s.memory_objects
      → let done = merge_objects same_json strategy s.memory_objects (start t) in
        done.conflicts ≡ []
        → Merges s t
            (merged_state same_json strategy json_count stamp source target t done state)
            (record { merged = done.merged; conflicts = done.conflicts })
  unfolding merged_state push_audit start
  merged_state-Merges s t sorted none_left =
      let done = merge_objects same_json strategy s.memory_objects (start t) in
      record {
        branch = record t { memory_objects = done.objects };
        at_target = get-insert_self target _ state.branches;
        objects = λ id. get-merge_objects same_json strategy id s.memory_objects (start t) sorted;
        others = λ name apart. get-insert target name _ state.branches ∙ rw apart refl;
        taken =
            omega (
              arith,
              (merge_objects-results same_json strategy s.memory_objects (start t) sorted).0,
            );
        no_conflicts = none_left;
      }

  -- A merge of two branches that exist, the source's objects sorted, either leaves in the target at
  -- each id what the strategy makes of the source's and the target's objects there, keeps every
  -- other branch, and reports the number of objects taken and no conflict; or, where the strategy
  -- is manual and some id has another content in both, it fails and names just those ids.
  pub merge_state-Merges :
      {s t : BranchState}
      → get source state.branches ≡ some s
      → get target state.branches ≡ some t
      → IsSorted s.memory_objects
      → let ids = ids_where (is_conflict same_json strategy) s.memory_objects t.memory_objects in
        let outcome = merge_state same_json strategy json_count stamp source target state in
        ((state' : BrainState) × (report : MergeReport) × (outcome ≡ ok (state', report))
          × (ids ≡ [])
          × Merges s t state' report)
        ⊎ ((outcome ≡ bail (format ("merge conflicts: " ∷ join "," ids ∷ []))) × (ids ≢ []))
  unfolding merge_state ◌>>=◌ ◌>>◌ start
  merge_state-Merges {s} {t} has_source has_target sorted =
      let done = merge_objects same_json strategy s.memory_objects (start t) in
      let ids = ids_where (is_conflict same_json strategy) s.memory_objects t.memory_objects in
      let reported : done.conflicts ≡ ids =
        (merge_objects-results same_json strategy s.memory_objects (start t) sorted).1 in
      elim (head-cases ids) [
        | inl none_left ↦ inl (
          _,
          _,
          rw (has_source, has_target, reported, none_left) refl,
          none_left,
          merged_state-Merges s t sorted (reported ∙ none_left),
        )
        | inr (clashing, nonempty) ↦
            inr (rw (has_source, has_target, reported, clashing) refl, nonempty)
      ]
