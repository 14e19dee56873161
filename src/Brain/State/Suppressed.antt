-- ===== src/Brain/State/Suppressed.antt =====
-- `forget_suppress`: the objects that it hides and the number that it reports.
use cortex_v3_1_rmvm_relatio.Base.{
  ℕ, ◌+◌, ◌≡◌, refl, sym, ap, ◌∙◌, true, false, ◌&&◌, String, List, [], ◌∷◌, Option, none, some,
  str_eq, if◌then◌else◌, arith, length, length-append, filter, ok, ok_or, >>=-of-ok,
}
use cortex_v3_1_rmvm_relatio.Base.Order.{string_ord}
use cortex_v3_1_rmvm_relatio.BTree.Map.{Map, get, values}
use cortex_v3_1_rmvm_relatio.BTree.Map.Laws.{get-insert, get-insert_self}
use cortex_v3_1_rmvm_relatio.BTree.Set.Laws.{same}
use cortex_v3_1_rmvm_relatio.Planner.Json.{JsonValue}
use cortex_v3_1_rmvm_relatio.Brain.Types.{
  BrainManifest, MemoryObject, BranchState, BrainState, Stop,
}
use cortex_v3_1_rmvm_relatio.Brain.State.{
  Stamp, is_hit, suppress_objects, count_hits, suppressed_branch, suppress_state, push_audit,
}

module _ (subject predicate : String) where
  -- what becomes of what an id reads: all facts on the subject and the predicate are hidden
  abbrev pub forgotten : Option MemoryObject → Option MemoryObject
  forgotten none = none
  forgotten (some obj) = some (
      if str_eq obj.subject subject && str_eq obj.predicate predicate
      then record obj { suppressed = true }
      else obj)

  hidden : (obj : MemoryObject) → obj.suppressed ≡ true → record obj { suppressed = true } ≡ obj
  hidden obj h = ap (λ b. record obj { suppressed = b }) (sym h)

  hide_hit :
      (obj : MemoryObject)
      → (if is_hit subject predicate obj then record obj { suppressed = true } else obj) ≡ (
          if str_eq obj.subject subject && str_eq obj.predicate predicate
          then record obj { suppressed = true }
          else obj)
  hide_hit obj = ground (arith, hidden obj)

  get-suppress_objects :
      (id : String) (m : Map String MemoryObject)
      → get id (suppress_objects subject predicate m) ≡ forgotten (get id m)
  unfolding get suppress_objects
  get-suppress_objects id [] = refl
  get-suppress_objects id ((x, obj) ∷ m) = ground (arith, get-suppress_objects id m, hide_hit obj)

  count_hits-length :
      (m : Map String MemoryObject)
      → count_hits subject predicate m ≡ length (filter (is_hit subject predicate) (values m))
  unfolding count_hits
  count_hits-length [] = refl
  count_hits-length ((id, obj) ∷ m) = ground (arith, count_hits-length m)

  count_hits-suppress_objects :
      (m : Map String MemoryObject)
      → count_hits subject predicate (suppress_objects subject predicate m) ≡ 0
  unfolding count_hits suppress_objects
  count_hits-suppress_objects [] = refl
  count_hits-suppress_objects ((id, obj) ∷ m) = ground (arith, count_hits-suppress_objects m)

-- the outcome of `forget_suppress` on the active branch `b`
pub record Suppresses (active subject predicate : String) (b : BranchState)
    (state state' : BrainState) (count : ℕ) : Type 0 where
  pub branch : BranchState
  pub at_active : get active state'.branches ≡ some branch
  pub objects :
      (id : String)
      → get id branch.memory_objects ≡ forgotten subject predicate (get id b.memory_objects)
  pub counted : count ≡ length (filter (is_hit subject predicate) (values b.memory_objects))
  pub none_left : filter (is_hit subject predicate) (values branch.memory_objects) ≡ []
  pub logged : length branch.suppressions ≡ length b.suppressions + 1
  pub others :
      (name : String)
      → same name active ≡ false
      → get name state'.branches ≡ get name state.branches

nil-of_length : (xs : List MemoryObject) → length xs ≡ 0 → xs ≡ []
nil-of_length [] h = refl
nil-of_length (x ∷ xs) h = absurd (omega (arith, h))

-- forget_suppress on an active branch that exists hides exactly the objects with the subject and
-- the predicate, leaves every other object and branch as it is, reports the number of those that
-- were not yet hidden, leaves none of them, and records one suppression.
pub suppress_state-Suppresses :
    (json_count : ℕ → JsonValue) (record_stamp stamp : Stamp)
    (subject predicate scope reason : String) (manifest : BrainManifest) (state : BrainState)
    {b : BranchState}
    → get manifest.active_branch state.branches ≡ some b
    → (state' : BrainState) × (count : ℕ) × (suppress_state json_count record_stamp stamp subject
          predicate scope reason manifest state
        ≡ ok (state', count))
      × Suppresses manifest.active_branch subject predicate b state state' count
unfolding suppress_state suppressed_branch push_audit
suppress_state-Suppresses json_count record_stamp stamp subject predicate scope reason manifest
      state {b} found =
    (
      _,
      _,
      >>=-of-ok _
          (ap (λ (o : Option BranchState). ok_or o (Stop.failure "active branch missing")) found),
      record {
        branch = suppressed_branch record_stamp subject predicate scope reason b;
        at_active = get-insert_self manifest.active_branch _ state.branches;
        objects = λ id. get-suppress_objects subject predicate id b.memory_objects;
        counted = count_hits-length subject predicate b.memory_objects;
        none_left = nil-of_length _ (
            sym (
              count_hits-length subject predicate
                (suppress_objects subject predicate b.memory_objects))
            ∙ count_hits-suppress_objects subject predicate b.memory_objects);
        logged = length-append b.suppressions _;
        others =
            λ name apart. get-insert manifest.active_branch name _ state.branches ∙ rw apart refl;
      },
    )
