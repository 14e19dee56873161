-- ===== src/Kernel/Scoping/Agreement.antt =====
-- One operation: the depth that the static check computes is that of the register, and the checks
-- on the registers that it reads have passed.
use cortex_v3_1_rmvm_relatio.Base.{
  ℕ, ◌≤◌, ◌≡◌, ap, true, false, not, String, List, [], ◌∷◌, some, any, map, All, arith, ok,
  >>=-eq-ok, >>-eq-ok, ok-injective, reject_if-eq-ok,
}
use cortex_v3_1_rmvm_relatio.Base.Order.{string_ord}
use cortex_v3_1_rmvm_relatio.BTree.Set.{contains}
use cortex_v3_1_rmvm_relatio.BTree.Map.{Map, get, values}
use cortex_v3_1_rmvm_relatio.Proto.Float.{F64, Floats}
use cortex_v3_1_rmvm_relatio.Proto.Messages.{SelectorRef, PublicManifest, ValueRef, Op}
use cortex_v3_1_rmvm_relatio.Kernel.Types.{NormalizedBudget, RegValue, Regs}
use cortex_v3_1_rmvm_relatio.Kernel.Static.{StaticState, depth_of, check_op}
use cortex_v3_1_rmvm_relatio.Kernel.Scoping.{op_reads}

module _ (fl : Floats) (manifest : PublicManifest) (budget : NormalizedBudget)
    (index : Map String SelectorRef) where
  none_undeclared :
      (st : StaticState) (bs : List ValueRef)
      → any (λ (b : ValueRef). not (contains b.reg st.declared)) bs ≡ false
      → All (λ k. contains k st.declared ≡ true) (map (λ (b : ValueRef). b.reg) bs)
  none_undeclared st [] h = tt
  none_undeclared st (b ∷ bs) h = (ground arith, none_undeclared st bs (ground arith))

  -- every register that the operation reads is among the declared ones
  pub check_op-reads :
      (st : StaticState) (op : Op) {out : ℕ × F64}
      → check_op fl manifest budget index st op ≡ ok out
      → All (λ k. contains k st.declared ≡ true) (op_reads op)
  unfolding check_op
  check_op-reads st (Op.fetch f) p = tt
  check_op-reads st (Op.apply_selector a) p = tt
  check_op-reads st (Op.resolve r) p =
      let (d, p1) = >>-eq-ok _ _ p in let e = reject_if-eq-ok _ _ d in (ground arith, tt)
  check_op-reads st (Op.filter f) p =
      let (d, p1) = >>-eq-ok _ _ p in let e = reject_if-eq-ok _ _ d in (ground arith, tt)
  check_op-reads st (Op.project q) p =
      let (d, p1) = >>-eq-ok _ _ p in let e = reject_if-eq-ok _ _ d in (ground arith, tt)
  check_op-reads st (Op.join j) p =
      let (d, p1) = >>-eq-ok _ _ p in
      let e = reject_if-eq-ok _ _ d in (ground arith, (ground arith, tt))
  check_op-reads st (Op.assert_op a) p =
      let (d, p1) = >>-eq-ok _ _ p in none_undeclared st (values a.bindings) (reject_if-eq-ok _ _ d)

  abbrev pub Depths : StaticState → Regs → Type 0
  Depths st regs = (k : String) (r : RegValue) → get k regs ≡ some r → r.join_depth ≡ depth_of k st

  abbrev pub Bounded : StaticState → Type 0
  Bounded st = (k : String) → depth_of k st ≤ budget.max_join_depth

  pub check_op-Bounded :
      (st : StaticState) (op : Op) {out : ℕ × F64}
      → check_op fl manifest budget index st op ≡ ok out
      → Bounded st
      → out.0 ≤ budget.max_join_depth
  unfolding check_op
  check_op-Bounded st (Op.fetch f) p b =
      let (d, p1) = >>-eq-ok _ _ p in omega (arith, ap (λ (o : ℕ × F64). o.0) (ok-injective p1))
  check_op-Bounded st (Op.apply_selector a) p b =
      let (s, got, p1) = >>=-eq-ok _ _ p in
      let (valid, p2) = >>-eq-ok _ _ p1 in
      omega (arith, ap (λ (o : ℕ × F64). o.0) (ok-injective p2))
  check_op-Bounded st (Op.resolve r) p b =
      let (d, p1) = >>-eq-ok _ _ p in
      omega (arith, b r.in_reg, ap (λ (o : ℕ × F64). o.0) (ok-injective p1))
  check_op-Bounded st (Op.filter f) p b =
      let (d, p1) = >>-eq-ok _ _ p in
      omega (arith, b f.in_reg, ap (λ (o : ℕ × F64). o.0) (ok-injective p1))
  check_op-Bounded st (Op.project q) p b =
      let (d, p1) = >>-eq-ok _ _ p in
      omega (arith, b q.in_reg, ap (λ (o : ℕ × F64). o.0) (ok-injective p1))
  check_op-Bounded st (Op.join j) p b =
      let (d, p1) = >>-eq-ok _ _ p in
      let (e, p2) = >>-eq-ok _ _ p1 in
      let small = reject_if-eq-ok _ _ e in
      ground (arith, ap (λ (o : ℕ × F64). o.0) (ok-injective p2))
  check_op-Bounded st (Op.assert_op a) p b =
      let (d, p1) = >>-eq-ok _ _ p in omega (arith, ap (λ (o : ℕ × F64). o.0) (ok-injective p1))
