-- ===== src/Kernel/Scoping/Steps.antt =====
-- One step keeps the two loops in agreement.
use cortex_v3_1_rmvm_relatio.Base.{
  ℕ, ◌≤◌, ◌≡◌, ap, sym, ◌∙◌, subst, true, false, String, List, none, some, All, ltb, if◌then◌else◌,
  arith, ok, >>=-eq-ok, >>-eq-ok, ok_or-eq-ok, ok-injective, reject_if-eq-ok,
}
use mathlib.Core.Option.{some-injective}
use cortex_v3_1_rmvm_relatio.Base.Order.{string_ord}
use cortex_v3_1_rmvm_relatio.BTree.Set
use cortex_v3_1_rmvm_relatio.BTree.Set.{contains}
use cortex_v3_1_rmvm_relatio.BTree.Set.Laws.{same, contains-insert}
use cortex_v3_1_rmvm_relatio.BTree.Map.{get, insert}
use cortex_v3_1_rmvm_relatio.BTree.Map.Laws.{get-insert}
use cortex_v3_1_rmvm_relatio.Proto.Float.{F64, Floats}
use cortex_v3_1_rmvm_relatio.Proto.Messages.{Op, Step, VerifiedAssertion}
use cortex_v3_1_rmvm_relatio.Kernel.Types.{RegValue, Regs, Exec}
use cortex_v3_1_rmvm_relatio.Kernel.Static.{StaticState, depth_of, check_op, check_step}
use cortex_v3_1_rmvm_relatio.Kernel.Execute.{Context, only_reg, exec_op, ExecState, exec_step}
use cortex_v3_1_rmvm_relatio.Kernel.Scoping.{Agree, step_reads}
use cortex_v3_1_rmvm_relatio.Kernel.Scoping.Agreement.{check_op-reads, check_op-Bounded}
use cortex_v3_1_rmvm_relatio.Kernel.Scoping.Inputs.{
  OfInput, fetch-depth, apply-depth, resolve-depth, filter-depth, project-depth, join-depth,
  assert-depth,
}

abbrev Depths : StaticState → Regs → Type 0
Depths st regs = (k : String) (r : RegValue) → get k regs ≡ some r → r.join_depth ≡ depth_of k st

pub only_reg-eq-ok :
    (m : Exec RegValue) {out : RegValue × List VerifiedAssertion}
    → only_reg m ≡ ok out
    → m ≡ ok out.0
only_reg-eq-ok m p =
    let (r, e, p1) = >>=-eq-ok _ _ p in
    e ∙ ap (λ (o : RegValue × List VerifiedAssertion). ok (o.0)) (ok-injective p1)

of_input :
    (k : String) (st : StaticState) (regs : Regs) (depth : ℕ)
    → Depths st regs
    → OfInput k regs depth
    → depth ≡ depth_of k st
of_input k st regs depth d (input, got, same_depth) = same_depth ∙ d k input got

module _ (fl : Floats) (c : Context) where
  -- the depth that the check computes is the depth of the register
  op-depth :
      (st : StaticState) (regs : Regs) (op : Op) {out : ℕ × F64}
      {res : RegValue × List VerifiedAssertion}
      → check_op fl c.manifest c.budget c.selectors_by_ref st op ≡ ok out
      → exec_op c regs op ≡ ok res
      → Depths st regs
      → (res.0).join_depth ≡ out.0
  unfolding check_op exec_op
  op-depth st regs (Op.fetch f) p q d =
      let (a, p1) = >>-eq-ok _ _ p in
      fetch-depth f _ _ (only_reg-eq-ok _ q) ∙ ap (λ (o : ℕ × F64). o.0) (ok-injective p1)
  op-depth st regs (Op.apply_selector a) p q d =
      let (s, got, p1) = >>=-eq-ok _ _ p in
      let (valid, p2) = >>-eq-ok _ _ p1 in
      apply-depth a _ _ _ (only_reg-eq-ok _ q) ∙ ap (λ (o : ℕ × F64). o.0) (ok-injective p2)
  op-depth st regs (Op.resolve o) p q d =
      let (a, p1) = >>-eq-ok _ _ p in
      of_input o.in_reg st regs _ d (resolve-depth o regs (only_reg-eq-ok _ q))
      ∙ ap (λ (o : ℕ × F64). o.0) (ok-injective p1)
  op-depth st regs (Op.filter o) p q d =
      let (a, p1) = >>-eq-ok _ _ p in
      of_input o.in_reg st regs _ d (filter-depth o regs _ (only_reg-eq-ok _ q))
      ∙ ap (λ (o : ℕ × F64). o.0) (ok-injective p1)
  op-depth st regs (Op.project o) p q d =
      let (a, p1) = >>-eq-ok _ _ p in
      of_input o.in_reg st regs _ d (project-depth o regs (only_reg-eq-ok _ q))
      ∙ ap (λ (o : ℕ × F64). o.0) (ok-injective p1)
  op-depth st regs (Op.join o) p q d =
      let (a, p1) = >>-eq-ok _ _ p in
      let (b, p2) = >>-eq-ok _ _ p1 in
      let (left, right, gotl, gotr, e) = join-depth o regs _ (only_reg-eq-ok _ q) in
      e
      ∙ (rw (d o.left_reg left gotl, d o.right_reg right gotr)
          (ap (λ (o : ℕ × F64). o.0) (ok-injective p2)))
  op-depth st regs (Op.assert_op o) p q d =
      let (a, p1) = >>-eq-ok _ _ p in
      let (out, e, q1) = >>=-eq-ok {A = RegValue × VerifiedAssertion} _ _ q in
      ap (λ (o : RegValue × List VerifiedAssertion). (o.0).join_depth) (sym (ok-injective q1))
      ∙ assert-depth o regs _ e
      ∙ ap (λ (o : ℕ × F64). o.0) (ok-injective p1)

  -- the state that an operation is checked in
  abbrev declaring : StaticState → String → StaticState
  declaring st out = record st { declared = Set.insert out st.declared }

  -- the state that a checked step leaves
  abbrev checked : StaticState → String → ℕ → F64 → StaticState
  checked st out depth cost = record {
    declared = Set.insert out st.declared;
    join_depth = if ltb 0 depth then insert out depth st.join_depth else st.join_depth;
    total_cost = cost;
  }

  depth_of-checked :
      (st : StaticState) (out k : String) (depth : ℕ) (cost : F64)
      → get out st.join_depth ≡ none
      → depth_of k (checked st out depth cost) ≡ (if same k out then depth else depth_of k st)
  depth_of-checked st out k depth cost fresh =
      ground (arith, get-insert out k depth st.join_depth, string_ord.eq_of_cmp k out)

  Agree-checked :
      (st : StaticState) (regs : Regs) (out : String) (depth : ℕ) (cost : F64) (r : RegValue)
      → contains out st.declared ≡ false
      → r.join_depth ≡ depth
      → depth ≤ (c.budget).max_join_depth
      → Agree c.budget st regs
      → Agree c.budget (checked st out depth cost) (insert out r regs)
  Agree-checked st regs out depth cost r fresh same_depth small a =
      let unset = a.undeclared out fresh in
      record {
        defined = λ k.
            ground (arith, get-insert out k r regs, contains-insert out k st.declared, a.defined k);
        depths = λ k q e. ground (
          arith,
          get-insert out k r regs,
          depth_of-checked st out k depth cost unset,
          a.depths k q,
        );
        undeclared = λ k n. ground (
          arith,
          contains-insert out k st.declared,
          get-insert out k depth st.join_depth,
          a.undeclared k,
        );
        bounded = λ k. ground (arith, depth_of-checked st out k depth cost unset, a.bounded k);
      }

  pub Agree-step :
      (st : StaticState) (es : ExecState) (step : Step) {st' : StaticState} {es' : ExecState}
      → check_step fl c.manifest c.budget c.selectors_by_ref st step ≡ ok st'
      → exec_step c es step ≡ ok es'
      → Agree c.budget st es.regs
      → Agree c.budget st' es'.regs
  unfolding check_step exec_step
  Agree-step st es step {es' = es'} p q a =
      let (filled, p1) = >>-eq-ok _ _ p in
      let (unused, p2) = >>-eq-ok _ _ p1 in
      let (op, has, p3) = >>=-eq-ok {A = Op} _ _ p2 in
      let (out, checks, p4) = >>=-eq-ok {A = ℕ × F64} _ _ p3 in
      let (op', has', q1) = >>=-eq-ok {A = Op} _ _ q in
      let (res, runs, q2) = >>=-eq-ok {A = RegValue × List VerifiedAssertion} _ _ q1 in
      let one : op' ≡ op = some-injective _ _ (sym (ok_or-eq-ok _ _ has') ∙ ok_or-eq-ok _ _ has) in
      let depth = op-depth (declaring st step.out) es.regs op checks (rw one at runs) a.depths in
      let small =
        check_op-Bounded fl c.manifest c.budget c.selectors_by_ref (declaring st step.out) op checks
          a.bounded in
      let next =
        Agree-checked st es.regs step.out out.0 (fl.add st.total_cost out.1) res.0
          (reject_if-eq-ok _ _ unused) depth small a in
      let left = checked st step.out out.0 (fl.add st.total_cost out.1) in
      subst (λ (s : StaticState). Agree c.budget s es'.regs) (ok-injective p4)
        (subst (λ (s : ExecState). Agree c.budget left s.regs) (ok-injective q2) next)

  -- what the check of a step finds of its output and of the registers that it reads
  pub check_step-scope :
      (st : StaticState) (step : Step) {st' : StaticState}
      → check_step fl c.manifest c.budget c.selectors_by_ref st step ≡ ok st'
      → (contains step.out st.declared ≡ false)
        × All (λ k. contains k (Set.insert step.out st.declared) ≡ true) (step_reads step)
  unfolding check_step
  check_step-scope st step p =
      let (filled, p1) = >>-eq-ok _ _ p in
      let (unused, p2) = >>-eq-ok _ _ p1 in
      let (op, has, p3) = >>=-eq-ok {A = Op} _ _ p2 in
      let (out, checks, p4) = >>=-eq-ok {A = ℕ × F64} _ _ p3 in
      let reads =
        check_op-reads fl c.manifest c.budget c.selectors_by_ref (declaring st step.out) op
          checks in
      (reject_if-eq-ok _ _ unused, rw (ok_or-eq-ok _ _ has) reads)
