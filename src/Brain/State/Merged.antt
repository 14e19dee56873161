-- ===== src/Brain/State/Merged.antt =====
-- The loop of `merge`, object by object.
use Prim.Native.Nat.Ordering.{lt}
use mathlib.Core.List.{append-nil, append_assoc}
use cortex_v3_1_rmvm_relatio.Base.{
  ◌+◌, ◌≡◌, refl, sym, ap, ◌∙◌, Bool, true, false, ◌&&◌, not, String, List, [], ◌∷◌, ◌++◌, Option,
  none, some, if◌then◌else◌, arith, length,
}
use cortex_v3_1_rmvm_relatio.Base.Order.{string_ord}
use cortex_v3_1_rmvm_relatio.BTree.Map.{Map, get}
use cortex_v3_1_rmvm_relatio.BTree.Map.Laws.{get-insert, get-below, IsSorted, AllKeys}
use cortex_v3_1_rmvm_relatio.BTree.Set.Laws.{same}
use cortex_v3_1_rmvm_relatio.Planner.Json.{JsonValue}
use cortex_v3_1_rmvm_relatio.Brain.Types.{MemoryObject, MergeStrategy}
use cortex_v3_1_rmvm_relatio.Brain.State.{
  Merging, is_same, merge_found, merge_object, merge_objects,
}

module _ (same_json : JsonValue → JsonValue → Bool) (strategy : MergeStrategy) where
  -- of two objects with another content
  abbrev pub preferred : MergeStrategy → MemoryObject → MemoryObject → MemoryObject
  preferred MergeStrategy.ours src dst = dst
  preferred MergeStrategy.theirs src dst = src
  preferred MergeStrategy.manual src dst = dst

  -- what the target has at an id after the merge, from what the source and the target have there
  abbrev pub merged_at : Option MemoryObject → Option MemoryObject → Option MemoryObject
  merged_at none dst = dst
  merged_at (some src) none = some src
  merged_at (some src) (some dst) =
      if is_same same_json strategy dst src then some dst else some (preferred strategy src dst)

  get-merge_found :
      (j id : String) (src : MemoryObject) (acc : Merging) (found : Option MemoryObject)
      → get id acc.objects ≡ found
      → get j (merge_found same_json strategy id src acc found).objects
        ≡ (if same j id then merged_at (some src) found else get j acc.objects)
  get-merge_found j id src acc none e = get-insert id j src acc.objects
  get-merge_found j id src acc (some dst) e =
      ground (arith, get-insert id j src acc.objects, string_ord.eq_of_cmp j id)

  pub get-merge_objects :
      (j : String) (src : Map String MemoryObject) (acc : Merging)
      → IsSorted src
      → get j (merge_objects same_json strategy src acc).objects
        ≡ merged_at (get j src) (get j acc.objects)
  unfolding merge_objects merge_object get
  get-merge_objects j [] acc h = refl
  get-merge_objects j ((id, s) ∷ rest) acc h = ground (
    arith,
    get-merge_objects j rest (merge_object same_json strategy id s acc) h.1,
    get-merge_found j id s acc (get id acc.objects) refl,
    get-below j rest,
    string_ord.eq_of_cmp j id,
  )

  -- an object that the target gets, and one that a manual merge reports
  abbrev pub is_taken : MemoryObject → Option MemoryObject → Bool
  is_taken src none = true
  is_taken src (some dst) =
      not (is_same same_json strategy dst src)
      && (elim strategy [ MergeStrategy.theirs ↦ true | _ ↦ false ])

  abbrev pub is_conflict : MemoryObject → Option MemoryObject → Bool
  is_conflict src none = false
  is_conflict src (some dst) =
      not (is_same same_json strategy dst src)
      && (elim strategy [ MergeStrategy.manual ↦ true | _ ↦ false ])

-- the ids of the source whose objects pass a test with what the target had
abbrev pub ids_where :
    (MemoryObject → Option MemoryObject → Bool)
    → Map String MemoryObject
    → Map String MemoryObject
    → List String
ids_where p [] dst = []
ids_where p ((id, s) ∷ rest) dst =
    let others = ids_where p rest dst in if p s (get id dst) then id ∷ others else others

one_or_none :
    (b : Bool) (x : String) (ys : List String)
    → (if b then x ∷ [] else []) ++ ys ≡ (if b then x ∷ ys else ys)
one_or_none true x ys = refl
one_or_none false x ys = refl

-- they do not depend on ids that the source has not
ids_where-ext :
    (p : MemoryObject → Option MemoryObject → Bool) (id : String)
    (src dst dst' : Map String MemoryObject)
    → AllKeys (λ x. string_ord.cmp id x ≡ lt) src
    → ((j : String) → string_ord.cmp id j ≡ lt → get j dst' ≡ get j dst)
    → ids_where p src dst' ≡ ids_where p src dst
ids_where-ext p id [] dst dst' above same_at = refl
ids_where-ext p id ((x, s) ∷ rest) dst dst' above same_at =
    rw (same_at x above.0, ids_where-ext p id rest dst dst' above.1 same_at) refl

module _ (same_json : JsonValue → JsonValue → Bool) (strategy : MergeStrategy) where
  -- what one round adds to the two results
  merge_found-results :
      (id : String) (src : MemoryObject) (acc : Merging) (found : Option MemoryObject)
      → ((merge_found same_json strategy id src acc found).merged
          ≡ acc.merged + (if is_taken same_json strategy src found then 1 else 0))
        × ((merge_found same_json strategy id src acc found).conflicts
            ≡ acc.conflicts ++ (if is_conflict same_json strategy src found then id ∷ [] else []))
  merge_found-results id src acc none = (refl, sym (append-nil acc.conflicts))
  merge_found-results id src acc (some dst) = ground (arith, append-nil acc.conflicts)

  -- ids above the one of a round find what they found
  get-merge_object_above :
      (id j : String) (src : MemoryObject) (acc : Merging)
      → string_ord.cmp id j ≡ lt
      → get j (merge_object same_json strategy id src acc).objects ≡ get j acc.objects
  unfolding merge_object
  get-merge_object_above id j src acc below = ground (
    arith,
    get-merge_found same_json strategy j id src acc (get id acc.objects) refl,
    string_ord.gt_of_lt id j,
  )

  pub merge_objects-results :
      (src : Map String MemoryObject) (acc : Merging)
      → IsSorted src
      → ((merge_objects same_json strategy src acc).merged
          ≡ acc.merged + length (ids_where (is_taken same_json strategy) src acc.objects))
        × ((merge_objects same_json strategy src acc).conflicts
            ≡ acc.conflicts ++ ids_where (is_conflict same_json strategy) src acc.objects)
  unfolding merge_objects merge_object
  merge_objects-results [] acc h = (omega arith, sym (append-nil acc.conflicts))
  merge_objects-results ((id, s) ∷ rest) acc h =
      let acc' = merge_object same_json strategy id s acc in
      let (merged, conflicts) = merge_objects-results rest acc' h.1 in
      let above : (j : String) → string_ord.cmp id j ≡ lt → get j acc'.objects ≡ get j acc.objects =
        λ j below. get-merge_object_above id j s acc below in
      let step = merge_found-results id s acc (get id acc.objects) in
      (
        ground (
          arith,
          merged,
          step.0,
          ids_where-ext (is_taken same_json strategy) id rest acc.objects acc'.objects h.0 above,
        ),
        conflicts
            ∙ rw
                (
                  step.1,
                  ids_where-ext (is_conflict same_json strategy) id rest acc.objects acc'.objects
                      h.0 above,
                )
                (append_assoc acc.conflicts _ _
                  ∙ ap (λ (r : List String). acc.conflicts ++ r)
                      (one_or_none (is_conflict same_json strategy s (get id acc.objects)) id
                        (ids_where (is_conflict same_json strategy) rest acc.objects))),
      )
