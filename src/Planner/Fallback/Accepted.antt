-- ===== src/Planner/Fallback/Accepted.antt =====
-- The fallback plan passes the guard.
use cortex_v3_1_rmvm_relatio.Base.{
  ◌≡◌, refl, true, String, List, [], ◌∷◌, map, ok, ◌>>=◌, ◌>>◌, ok-injective, subst, is_blank,
}
use cortex_v3_1_rmvm_relatio.Base.Order.{string_ord}
use cortex_v3_1_rmvm_relatio.BTree.Set
use cortex_v3_1_rmvm_relatio.BTree.Set.{Set, contains}
use cortex_v3_1_rmvm_relatio.BTree.Set.Laws.{contains-extend_old, contains-insert_self}
use cortex_v3_1_rmvm_relatio.Proto.Messages.{HandleRef, SelectorRef, PublicManifest, Op, RmvmPlan}
use cortex_v3_1_rmvm_relatio.Planner.Guard.{
  check_bindings, check_op, check_steps, validate_plan_against_manifest,
}
use cortex_v3_1_rmvm_relatio.Planner.Fallback.{
  assert_subject, select_subject, first_handle, deterministic_plan_from_manifest,
}

-- a first operation that the guard lets pass makes the three steps pass
assert_subject-accepted :
    (hs ss : Set String) (first : Op) (path : String)
    → check_op hs ss ("r0" ∷ []) first ≡ ok tt
    → check_steps hs ss [] (assert_subject first path) ≡ ok tt
unfolding check_steps check_op check_bindings contains Set.insert is_blank ◌>>=◌ ◌>>◌
assert_subject-accepted hs ss first path h = rw h refl

knows_first : (x : String) (xs : List String) → contains x (Set.extend [] (x ∷ xs)) ≡ true
unfolding Set.extend
knows_first x xs = contains-extend_old x (Set.insert x []) xs (contains-insert_self x [])

module _ (request_id subject : String) (manifest : PublicManifest) where
  first_accepted :
      (hs : List HandleRef) (ss : List SelectorRef) {plan : RmvmPlan}
      → first_handle request_id subject ss hs ≡ ok plan
      → check_steps
          (Set.extend [] (map (λ (h : HandleRef). h.ref) hs))
          (Set.extend [] (map (λ (s : SelectorRef). s.sel) ss))
          []
          plan.steps
        ≡ ok tt
  unfolding check_op Set.extend
  first_accepted (h ∷ hs) ss p =
      subst
        (λ (plan : RmvmPlan).
          check_steps (Set.extend [] (map (λ (h : HandleRef). h.ref) (h ∷ hs)))
            (Set.extend [] (map (λ (s : SelectorRef). s.sel) ss)) [] plan.steps
          ≡ ok tt)
        (ok-injective p)
        (assert_subject-accepted _ _ (Op.fetch (record { handle_ref = h.ref })) "meta.subject"
          (rw (knows_first h.ref (map (λ (h : HandleRef). h.ref) hs)) refl))
  first_accepted [] (s ∷ ss) p =
      subst
        (λ (plan : RmvmPlan).
          check_steps [] (Set.extend [] (map (λ (s : SelectorRef). s.sel) (s ∷ ss))) [] plan.steps
          ≡ ok tt)
        (ok-injective p)
        (assert_subject-accepted _ _ (select_subject s subject) "set_count"
          (rw (knows_first s.sel (map (λ (s : SelectorRef). s.sel) ss)) refl))
  first_accepted [] [] p = cc

  -- The plan that stands by for a manifest passes the guard over that manifest.
  pub fallback_accepted :
      (plan : RmvmPlan)
      → deterministic_plan_from_manifest request_id subject manifest ≡ ok plan
      → validate_plan_against_manifest plan manifest ≡ ok tt
  unfolding deterministic_plan_from_manifest validate_plan_against_manifest
  fallback_accepted plan p = first_accepted manifest.handles manifest.selectors p
