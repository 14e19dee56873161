-- ===== src/Kernel/Static.antt =====
-- `validate_static`: the checks on a plan before anything is executed.
use cortex_v3_1_rmvm_relatio.Base.{
  ℕ, ◌+◌, max, ◌||◌, not, String, List, [], ◌∷◌, ltb, if◌then◌else◌, unwrap_or, length, any, str_eq,
  is_blank, ok, ◌>>=◌, ◌>>◌, ok_or, reject_if,
}
use cortex_v3_1_rmvm_relatio.Base.Order.{string_ord}
use cortex_v3_1_rmvm_relatio.BTree.Set
use cortex_v3_1_rmvm_relatio.BTree.Set.{Set, contains}
use cortex_v3_1_rmvm_relatio.BTree.Map.{Map, get, insert, values}
use cortex_v3_1_rmvm_relatio.Proto.Enums.{ErrorCode}
use cortex_v3_1_rmvm_relatio.Proto.Float.{F64, Floats, zero_f64, one_f64, two_f64, row_exponent}
use cortex_v3_1_rmvm_relatio.Proto.Messages.{
  HandleRef, SelectorRef, PublicManifest, ValueRef, Op, Step, OutputSpec, RmvmPlan,
}
use cortex_v3_1_rmvm_relatio.Kernel.Types.{NormalizedBudget, Exec, fail_rejected}
use cortex_v3_1_rmvm_relatio.Kernel.Params.{validate_param_specs}
use cortex_v3_1_rmvm_relatio.Kernel.Budget.{as_u32, estimate_selector_rows}

-- the variables of the loop over the steps
pub record StaticState : Type 0 where
  pub declared : Set String
  pub join_depth : Map String ℕ
  pub total_cost : F64

abbrev pub initial : StaticState
initial = record { declared = []; join_depth = []; total_cost = zero_f64 }

-- `*join_depth.get(reg).unwrap_or(&0)`
abbrev pub depth_of : String → StaticState → ℕ
depth_of reg st = unwrap_or (get reg st.join_depth) 0

-- `rows.max(1)`
abbrev at_least_one : ℕ → ℕ
at_least_one n = max n 1

module _ (fl : Floats) (manifest : PublicManifest) (budget : NormalizedBudget)
    (selectors_by_ref : Map String SelectorRef) where
  selector_cost : SelectorRef → F64
  selector_cost selector =
      let rows = fl.of_u32 (at_least_one (estimate_selector_rows selector manifest budget)) in
      let weight = if fl.le selector.cost_weight zero_f64 then one_f64 else selector.cost_weight in
      fl.mul weight (fl.powf rows row_exponent)

  -- The join depth of the step's output, and the cost that the step adds. The output is among the
  -- declared registers already.
  unfoldable pub check_op : StaticState → Op → Exec (ℕ × F64)
  unfolding selector_cost
  check_op st (Op.fetch f) = do
    reject_if (not (any (λ (h : HandleRef). str_eq h.ref f.handle_ref) manifest.handles))
        (fail_rejected ErrorCode.unknown_handle_ref "unknown handle_ref in FETCH")
    ok (0, one_f64)
  check_op st (Op.apply_selector a) = do
    selector ←
        ok_or (get a.selector_ref selectors_by_ref)
          (fail_rejected ErrorCode.unknown_selector_ref "unknown selector_ref")
    validate_param_specs selector.params a.params
    ok (0, selector_cost selector)
  check_op st (Op.resolve r) = do
    reject_if (not (contains r.in_reg st.declared))
        (fail_rejected ErrorCode.schema_violation "register used before definition")
    ok (depth_of r.in_reg st, one_f64)
  check_op st (Op.filter f) = do
    reject_if (not (contains f.in_reg st.declared))
        (fail_rejected ErrorCode.schema_violation "register used before definition")
    ok (depth_of f.in_reg st, one_f64)
  check_op st (Op.project p) = do
    reject_if (not (contains p.in_reg st.declared))
        (fail_rejected ErrorCode.schema_violation "register used before definition")
    ok (depth_of p.in_reg st, one_f64)
  check_op st (Op.join j) =
      let depth = max (depth_of j.left_reg st) (depth_of j.right_reg st) + 1 in
      do
        reject_if (not (contains j.left_reg st.declared) || not (contains j.right_reg st.declared))
            (fail_rejected ErrorCode.schema_violation "JOIN register used before definition")
        reject_if (ltb budget.max_join_depth depth)
            (fail_rejected ErrorCode.graph_traversal_limit "max_join_depth exceeded")
        ok (depth, two_f64)
  check_op st (Op.assert_op a) = do
    reject_if (any (λ (b : ValueRef). not (contains b.reg st.declared)) (values a.bindings))
        (fail_rejected ErrorCode.schema_violation "ASSERT binding uses undefined register")
    ok (0, one_f64)

  unfoldable pub check_step : StaticState → Step → Exec StaticState
  unfolding check_op
  check_step st step = do
    reject_if (is_blank step.out)
        (fail_rejected ErrorCode.schema_violation "step.out cannot be empty")
    reject_if (contains step.out st.declared)
        (fail_rejected ErrorCode.schema_violation "register redefinition")
    op ← ok_or step.op (fail_rejected ErrorCode.schema_violation "step missing op")
    (out_depth, cost) ← check_op (record st { declared = Set.insert step.out st.declared }) op
    ok (record {
      declared = Set.insert step.out st.declared;
      join_depth =
          if ltb 0 out_depth then insert step.out out_depth st.join_depth else st.join_depth;
      total_cost = fl.add st.total_cost cost;
    })

  unfoldable pub check_steps : StaticState → List Step → Exec StaticState
  check_steps st [] = ok st
  check_steps st (step ∷ rest) = do st' ← check_step st step; check_steps st' rest

  unfoldable pub validate_static : RmvmPlan → Exec (Unit {0})
  validate_static plan = do
    reject_if (ltb budget.max_ops (as_u32 (length plan.steps)))
        (fail_rejected ErrorCode.graph_traversal_limit "max_ops exceeded")
    st ← check_steps initial plan.steps
    reject_if (fl.gt st.total_cost budget.max_total_cost)
        (fail_rejected ErrorCode.cost_guard_rejected "plan rejected by COST_GUARD")
    reject_if (any (λ (o : OutputSpec). not (contains o.reg st.declared)) plan.outputs)
        (fail_rejected ErrorCode.schema_violation "undefined output register")
