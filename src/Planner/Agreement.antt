-- ===== src/Planner/Agreement.antt =====
-- The guard and the kernel's static checks; the guard and the fallback plan.
use cortex_v3_1_rmvm_relatio.Base.{
  ℕ, ◌≡◌, refl, ap, true, false, not, ◌||◌, String, List, [], ◌∷◌, some, is_some, any, map, str_eq,
  eq_iff, arith, ok, ◌>>=◌, ◌>>◌, >>=-eq-ok, >>-eq-ok, ok_or-eq-ok, reject_if-eq-ok, ok-injective,
  is_blank,
}
use cortex_v3_1_rmvm_relatio.Base.Order.{string_ord}
use cortex_v3_1_rmvm_relatio.BTree.Set
use cortex_v3_1_rmvm_relatio.BTree.Set.{Set, contains}
use cortex_v3_1_rmvm_relatio.BTree.Set.Laws.{contains-extend}
use cortex_v3_1_rmvm_relatio.BTree.Map.{Map, get, insert_all, insert, values}
use cortex_v3_1_rmvm_relatio.BTree.Map.Laws.{get-insert}
use cortex_v3_1_rmvm_relatio.Proto.Float.{Floats, F64}
use cortex_v3_1_rmvm_relatio.Proto.Messages.{
  HandleRef, SelectorRef, PublicManifest, ValueRef, Op, Step, RmvmPlan,
}
use cortex_v3_1_rmvm_relatio.Kernel.Types.{NormalizedBudget}
use cortex_v3_1_rmvm_relatio.Kernel.Budget.{selectors_index}
use cortex_v3_1_rmvm_relatio.Kernel.Static
use cortex_v3_1_rmvm_relatio.Kernel.Static.{StaticState, initial, validate_static}
use cortex_v3_1_rmvm_relatio.Planner.Guard.{
  check_bindings, check_op, check_steps, validate_plan_against_manifest,
}

handle_named :
    (r : String) (hs : List HandleRef)
    → any (λ (h : HandleRef). str_eq h.ref r) hs ≡ true
    → contains r (map (λ (h : HandleRef). h.ref) hs) ≡ true
unfolding contains
handle_named r [] h = h
handle_named r (x ∷ hs) h = ground (arith, handle_named r hs, eq_iff x.ref r, string_ord.cmp_refl r)

selector_named :
    (r : String) (ss : List SelectorRef) (m : Map String SelectorRef)
    → is_some (get r (insert_all (map (λ (s : SelectorRef). (s.sel, s)) ss) m)) ≡ true
    → (is_some (get r m) || contains r (map (λ (s : SelectorRef). s.sel) ss)) ≡ true
unfolding contains insert_all
selector_named r [] m h = ground arith
selector_named r (x ∷ ss) m h =
    ground (arith, selector_named r ss (insert x.sel x m) h, get-insert x.sel r x m)

bindings_defined :
    (regs : Set String) (bs : List ValueRef)
    → any (λ (b : ValueRef). not (contains b.reg regs)) bs ≡ false
    → check_bindings regs bs ≡ ok tt
unfolding check_bindings ◌>>◌
bindings_defined regs [] h = refl
bindings_defined regs (b ∷ bs) h = ground (arith, bindings_defined regs bs)

pub check_steps-of-ok :
    (hs ss regs : Set String) (step : Step) (rest : List Step) (op : Op)
    → is_blank step.out ≡ false
    → contains step.out regs ≡ false
    → step.op ≡ some op
    → check_op hs ss (Set.insert step.out regs) op ≡ ok tt
    → check_steps hs ss (Set.insert step.out regs) rest ≡ ok tt
    → check_steps hs ss regs (step ∷ rest) ≡ ok tt
unfolding check_steps ◌>>=◌ ◌>>◌
check_steps-of-ok hs ss regs step rest op named fresh has good others =
    rw (named, fresh, has, good) others

module _ (fl : Floats) (manifest : PublicManifest) (budget : NormalizedBudget) where
  abbrev handle_refs : Set String
  handle_refs = Set.extend [] (map (λ (h : HandleRef). h.ref) manifest.handles)

  abbrev selector_refs : Set String
  selector_refs = Set.extend [] (map (λ (s : SelectorRef). s.sel) manifest.selectors)

  abbrev index : Map String SelectorRef
  index = selectors_index manifest.selectors

  selector_known :
      (r : String) {s : SelectorRef} → get r index ≡ some s → contains r selector_refs ≡ true
  unfolding selectors_index contains get
  selector_known r {s} e = rw contains-extend (selector_named r manifest.selectors [] (rw e refl))

  check_op-agrees :
      (st : StaticState) (op : Op) {out : ℕ × F64}
      → Static.check_op fl manifest budget index st op ≡ ok out
      → check_op handle_refs selector_refs st.declared op ≡ ok tt
  unfolding Static.check_op check_op contains
  check_op-agrees st (Op.fetch f) p =
      let (known, p1) = >>-eq-ok _ _ p in
      let named =
        handle_named f.handle_ref manifest.handles (ground (arith, reject_if-eq-ok _ _ known)) in
      rw (contains-extend, named) refl
  check_op-agrees st (Op.apply_selector a) p =
      let (s, known, p1) = >>=-eq-ok {A = SelectorRef} _ _ p in
      rw (selector_known a.selector_ref (ok_or-eq-ok _ _ known)) refl
  check_op-agrees st (Op.resolve r) p =
      let (defined, p1) = >>-eq-ok _ _ p in rw (reject_if-eq-ok _ _ defined) refl
  check_op-agrees st (Op.filter f) p =
      let (defined, p1) = >>-eq-ok _ _ p in rw (reject_if-eq-ok _ _ defined) refl
  check_op-agrees st (Op.join j) p =
      let (defined, p1) = >>-eq-ok _ _ p in rw (reject_if-eq-ok _ _ defined) refl
  check_op-agrees st (Op.project o) p =
      let (defined, p1) = >>-eq-ok _ _ p in rw (reject_if-eq-ok _ _ defined) refl
  check_op-agrees st (Op.assert_op a) p =
      let (defined, p1) = >>-eq-ok _ _ p in
      bindings_defined st.declared (values a.bindings) (reject_if-eq-ok _ _ defined)

  check_step-agrees :
      (st : StaticState) (step : Step) {st' : StaticState}
      → Static.check_step fl manifest budget index st step ≡ ok st'
      → (rest : List Step) → check_steps handle_refs selector_refs st'.declared rest ≡ ok tt
      → check_steps handle_refs selector_refs st.declared (step ∷ rest) ≡ ok tt
  unfolding Static.check_step check_steps
  check_step-agrees st step p rest others =
      let (named, p1) = >>-eq-ok _ _ p in
      let (fresh, p2) = >>-eq-ok _ _ p1 in
      let (op, has, p3) = >>=-eq-ok {A = Op} _ _ p2 in
      let (out, ran, p4) = >>=-eq-ok {A = ℕ × F64} _ _ p3 in
      let declares = ap (λ (s : StaticState). s.declared) (ok-injective p4) in
      check_steps-of-ok handle_refs selector_refs st.declared step rest op
        (reject_if-eq-ok _ _ named) (reject_if-eq-ok _ _ fresh) (ok_or-eq-ok _ _ has)
        (check_op-agrees (record st { declared = Set.insert step.out st.declared }) op ran)
        (rw declares others)

  check_steps-agrees :
      (st : StaticState) (steps : List Step) {last : StaticState}
      → Static.check_steps fl manifest budget index st steps ≡ ok last
      → check_steps handle_refs selector_refs st.declared steps ≡ ok tt
  unfolding Static.check_steps check_steps
  check_steps-agrees st [] p = refl
  check_steps-agrees st (step ∷ rest) p =
      let (st1, one, p1) = >>=-eq-ok {A = StaticState} _ _ p in
      check_step-agrees st step one rest (check_steps-agrees st1 rest p1)

  -- The planner's guard accepts every plan that the kernel's static checks accept, over the selectors
  -- of the manifest and under any budget.
  pub validate_static-agrees :
      (plan : RmvmPlan)
      → validate_static fl manifest budget index plan ≡ ok tt
      → validate_plan_against_manifest plan manifest ≡ ok tt
  unfolding validate_static validate_plan_against_manifest
  validate_static-agrees plan p =
      let (few, p1) = >>-eq-ok _ _ p in
      let (last, checks, p2) = >>=-eq-ok _ _ p1 in check_steps-agrees initial plan.steps checks
