-- ===== src/Brain/State/History.antt =====
-- The successful edits of a brain as a step relation, and the runs of them.
use cortex_v3_1_rmvm_relatio.Base.{
  ℕ, ◌≡◌, refl, ap, subst, Bool, not, String, [], ◌∷◌, ◌++◌, Option, some, none, arith, ok,
  >>=-eq-ok, >>-eq-ok, ok_or-eq-ok, ok-injective,
}
use Prim.Native.Nat.Ordering.{lt}
use cortex_v3_1_rmvm_relatio.Base.Order.{string_ord}
use cortex_v3_1_rmvm_relatio.BTree.Map.{Map, get}
use cortex_v3_1_rmvm_relatio.BTree.Map.Laws.{IsSorted, AllKeys, insert-IsSorted}
use cortex_v3_1_rmvm_relatio.BTree.Map.Entries.{get-AllEntries}
use cortex_v3_1_rmvm_relatio.Planner.Json.{JsonValue}
use cortex_v3_1_rmvm_relatio.Brain.Types.{
  BrainManifest, MemoryObject, BranchState, BrainState, AttachmentGrant, AuditEntry, MergeStrategy,
  MergeReport,
}
use cortex_v3_1_rmvm_relatio.Brain.State.{
  Stamp, push_audit, branch_state, Merging, merge_found, merge_object, merge_objects, merged_state,
  merge_state, suppress_objects, suppressed_branch, suppress_state, attached_state, attach_state,
  is_detached, detached_state, detach_state,
}
use cortex_v3_1_rmvm_relatio.Brain.State.Consistent.{
  Tidy, Consistent, insert-Consistent, grants-Consistent, filter-UniqueGrants,
  attached-UniqueGrants,
}

-- what every edit does
pub record Effect (active : String) (s s' : BrainState) : Type 0 where
  pub entry : AuditEntry
  pub audited : s'.audit ≡ s.audit ++ entry ∷ []
  pub keeps : Consistent active s → Consistent active s'

module _ (same_json : JsonValue → JsonValue → Bool) (strategy : MergeStrategy) where
  merge_found-IsSorted :
      (id : String) (src : MemoryObject) (acc : Merging) (found : Option MemoryObject)
      → IsSorted acc.objects
      → IsSorted (merge_found same_json strategy id src acc found).objects
  merge_found-IsSorted id src acc none h = insert-IsSorted id src acc.objects h
  merge_found-IsSorted id src acc (some dst) h =
      ground (arith, insert-IsSorted id src acc.objects h)

  merge_objects-IsSorted :
      (src : Map String MemoryObject) (acc : Merging)
      → IsSorted acc.objects
      → IsSorted (merge_objects same_json strategy src acc).objects
  unfolding merge_objects merge_object
  merge_objects-IsSorted [] acc h = h
  merge_objects-IsSorted ((id, s) ∷ rest) acc h =
      merge_objects-IsSorted rest _ (merge_found-IsSorted id s acc (get id acc.objects) h)

suppress_objects-AllKeys :
    (subject predicate id : String) (m : Map String MemoryObject)
    → AllKeys (λ x. string_ord.cmp id x ≡ lt) m
    → AllKeys (λ x. string_ord.cmp id x ≡ lt) (suppress_objects subject predicate m)
unfolding suppress_objects
suppress_objects-AllKeys subject predicate id [] h = tt
suppress_objects-AllKeys subject predicate id ((x, obj) ∷ m) h =
    (h.0, suppress_objects-AllKeys subject predicate id m h.1)

suppress_objects-IsSorted :
    (subject predicate : String) (m : Map String MemoryObject)
    → IsSorted m
    → IsSorted (suppress_objects subject predicate m)
unfolding suppress_objects
suppress_objects-IsSorted subject predicate [] h = tt
suppress_objects-IsSorted subject predicate ((id, obj) ∷ m) h = (
  suppress_objects-AllKeys subject predicate id m h.0,
  suppress_objects-IsSorted subject predicate m h.1,
)

pub branch_state-Effect :
    (stamp : Stamp) (new : String) (manifest : BrainManifest) (s : BrainState) {s' : BrainState}
    → branch_state stamp new manifest s ≡ ok s'
    → Effect manifest.active_branch s s'
unfolding branch_state push_audit
branch_state-Effect stamp new manifest s p =
    let (fresh, p1) = >>-eq-ok _ _ p in
    let (source, found, p2) = >>=-eq-ok {A = BranchState} _ _ p1 in
    subst (λ (t : BrainState). Effect manifest.active_branch s t) (ok-injective p2)
      (record {
        entry = _;
        audited = refl;
        keeps = λ c.
            insert-Consistent manifest.active_branch new (record source { name = new }) s _ refl
              refl
              (
                refl,
                (get-AllEntries Tidy manifest.active_branch s.branches c.tidy
                    (ok_or-eq-ok _ _ found)).1,
              )
              c;
      })

pub merge_state-Effect :
    (same_json : JsonValue → JsonValue → Bool) (strategy : MergeStrategy)
    (json_count : ℕ → JsonValue) (stamp : Stamp) (source target active : String) (s : BrainState)
    {s' : BrainState} {report : MergeReport}
    → merge_state same_json strategy json_count stamp source target s ≡ ok (s', report)
    → Effect active s s'
unfolding merge_state merged_state push_audit
merge_state-Effect same_json strategy json_count stamp source target active s p =
    let (src, has_src, p1) = >>=-eq-ok {A = BranchState} _ _ p in
    let (dst, has_dst, p2) = >>=-eq-ok {A = BranchState} _ _ p1 in
    let (no_conflicts, p3) = >>-eq-ok _ _ p2 in
    subst (λ (t : BrainState). Effect active s t)
      (ap (λ (r : BrainState × MergeReport). r.0) (ok-injective p3))
      (record {
        entry = _;
        audited = refl;
        keeps = λ c.
            let tidy = get-AllEntries Tidy target s.branches c.tidy (ok_or-eq-ok _ _ has_dst) in
            insert-Consistent active target _ s _ refl refl
              (tidy.0, merge_objects-IsSorted same_json strategy src.memory_objects _ tidy.1) c;
      })

pub suppress_state-Effect :
    (json_count : ℕ → JsonValue) (record_stamp stamp : Stamp)
    (subject predicate scope reason : String) (manifest : BrainManifest) (s : BrainState)
    {s' : BrainState} {count : ℕ}
    → suppress_state json_count record_stamp stamp subject predicate scope reason manifest s
      ≡ ok (s', count)
    → Effect manifest.active_branch s s'
unfolding suppress_state suppressed_branch push_audit
suppress_state-Effect json_count record_stamp stamp subject predicate scope reason manifest s p =
    let (b, found, p1) = >>=-eq-ok {A = BranchState} _ _ p in
    subst (λ (t : BrainState). Effect manifest.active_branch s t)
      (ap (λ (r : BrainState × ℕ). r.0) (ok-injective p1))
      (record {
        entry = _;
        audited = refl;
        keeps = λ c.
            let tidy =
              get-AllEntries Tidy manifest.active_branch s.branches c.tidy
                (ok_or-eq-ok _ _ found) in
            insert-Consistent manifest.active_branch manifest.active_branch _ s _ refl refl
              (tidy.0, suppress_objects-IsSorted subject predicate b.memory_objects tidy.1) c;
      })

pub attach_state-Effect :
    (stamp : Stamp) (grant : AttachmentGrant) (active : String) (s : BrainState) {s' : BrainState}
    → attach_state stamp grant s ≡ ok s'
    → Effect active s s'
unfolding attach_state attached_state push_audit
attach_state-Effect stamp grant active s p =
    subst (λ (t : BrainState). Effect active s t) (ok-injective p)
      (record {
        entry = _;
        audited = refl;
        keeps = λ c.
            grants-Consistent active s _ refl (attached-UniqueGrants grant s.attachments c.unique)
              c;
      })

pub detach_state-Effect :
    (json_count : ℕ → JsonValue) (stamp : Stamp) (agent : String) (model : Option String)
    (active : String) (s : BrainState) {s' : BrainState} {count : ℕ}
    → detach_state json_count stamp agent model s ≡ ok (s', count)
    → Effect active s s'
unfolding detach_state detached_state push_audit
detach_state-Effect json_count stamp agent model active s p =
    subst (λ (t : BrainState). Effect active s t)
      (ap (λ (r : BrainState × ℕ). r.0) (ok-injective p))
      (record {
        entry = _;
        audited = refl;
        keeps = λ c.
            grants-Consistent active s _ refl
              (filter-UniqueGrants (λ a. not (is_detached agent model a)) s.attachments c.unique) c;
      })
