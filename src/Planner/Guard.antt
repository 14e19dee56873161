-- ===== src/Planner/Guard.antt =====
-- `validate_plan_against_manifest`.
use cortex_v3_1_rmvm_relatio.Base.{
  not, ◌||◌, String, List, [], ◌∷◌, map, format, is_blank, Result, ok, ◌>>=◌, ◌>>◌, ok_or,
  reject_if,
}
use cortex_v3_1_rmvm_relatio.Base.Order.{string_ord}
use cortex_v3_1_rmvm_relatio.BTree.Set
use cortex_v3_1_rmvm_relatio.BTree.Set.{Set, contains}
use cortex_v3_1_rmvm_relatio.BTree.Map.{values}
use cortex_v3_1_rmvm_relatio.Proto.Messages.{
  HandleRef, SelectorRef, PublicManifest, ValueRef, Op, Step, RmvmPlan,
}

-- the message of `bail!` or `anyhow!`
abbrev pub Checked {ℓ} : Type ℓ → Type ℓ
Checked A = Result String A

abbrev pub not_defined : String → String
not_defined in_reg = format ("invalid plan: input register not defined (" ∷ in_reg ∷ ")" ∷ [])

-- the loop over the bindings of an assertion: the first one whose register is not defined
unfoldable pub check_bindings : Set String → List ValueRef → Checked (Unit {0})
check_bindings regs [] = ok tt
check_bindings regs (binding ∷ rest) = do
  reject_if (not (contains binding.reg regs))
      (format ("invalid plan: assert binding register not defined (" ∷ binding.reg ∷ ")" ∷ []))
  check_bindings regs rest

module _ (handle_refs selector_refs : Set String) where
  unfoldable pub check_op : Set String → Op → Checked (Unit {0})
  check_op regs (Op.fetch f) =
      reject_if (not (contains f.handle_ref handle_refs))
        (format ("invalid plan: unknown handle ref " ∷ f.handle_ref ∷ []))
  check_op regs (Op.apply_selector a) =
      reject_if (not (contains a.selector_ref selector_refs))
        (format ("invalid plan: unknown selector ref " ∷ a.selector_ref ∷ []))
  check_op regs (Op.resolve r) = reject_if (not (contains r.in_reg regs)) (not_defined r.in_reg)
  check_op regs (Op.filter f) = reject_if (not (contains f.in_reg regs)) (not_defined f.in_reg)
  check_op regs (Op.join j) =
      reject_if (not (contains j.left_reg regs) || not (contains j.right_reg regs))
        "invalid plan: join registers not defined"
  check_op regs (Op.project p) = reject_if (not (contains p.in_reg regs)) (not_defined p.in_reg)
  check_op regs (Op.assert_op a) = check_bindings regs (values a.bindings)

  -- The step's own output is among the registers when its operation is checked.
  unfoldable pub check_steps : Set String → List Step → Checked (Unit {0})
  check_steps regs [] = ok tt
  check_steps regs (step ∷ rest) = do
    reject_if (is_blank step.out) "invalid plan: step.out is required"
    reject_if (contains step.out regs)
        (format ("invalid plan: register redefined (" ∷ step.out ∷ ")" ∷ []))
    op ← ok_or step.op "invalid plan: step.op is required"
    check_op (Set.insert step.out regs) op
    check_steps (Set.insert step.out regs) rest

unfoldable pub validate_plan_against_manifest : RmvmPlan → PublicManifest → Checked (Unit {0})
validate_plan_against_manifest plan manifest =
    check_steps (Set.extend [] (map (λ (h : HandleRef). h.ref) manifest.handles))
      (Set.extend [] (map (λ (s : SelectorRef). s.sel) manifest.selectors)) [] plan.steps
