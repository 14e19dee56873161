-- ===== src/Kernel/Scoping.antt =====
-- Static validation against execution: which registers are defined, and how deep their joins are.
mod Agreement
mod Inputs
mod Steps
mod Found
pub mod Runs
pub mod SelfRead
use cortex_v3_1_rmvm_relatio.Base.{
  ℕ, ◌≤◌, ◌≡◌, Bool, true, false, String, List, [], ◌∷◌, Option, none, some, is_some, map,
}
use cortex_v3_1_rmvm_relatio.Base.Order.{string_ord}
use cortex_v3_1_rmvm_relatio.BTree.Set.{contains}
use cortex_v3_1_rmvm_relatio.BTree.Map.{get, values}
use cortex_v3_1_rmvm_relatio.Proto.Messages.{ValueRef, Op, Step}
use cortex_v3_1_rmvm_relatio.Kernel.Types.{NormalizedBudget, RegValue, Regs}
use cortex_v3_1_rmvm_relatio.Kernel.Static.{StaticState, depth_of}

-- the registers that an operation reads
abbrev pub op_reads : Op → List String
op_reads (Op.resolve r) = r.in_reg ∷ []
op_reads (Op.filter f) = f.in_reg ∷ []
op_reads (Op.project p) = p.in_reg ∷ []
op_reads (Op.join j) = j.left_reg ∷ j.right_reg ∷ []
op_reads (Op.assert_op a) = map (λ (b : ValueRef). b.reg) (values a.bindings)
op_reads _ = []

abbrev pub step_reads : Step → List String
step_reads step = elim step.op [ none ↦ [] | some op ↦ op_reads op ]

-- What the loop of the static checks and the loop of the execution agree on.
pub record Agree (budget : NormalizedBudget) (st : StaticState) (regs : Regs) : Type 0 where
  pub defined : (k : String) → is_some (get k regs) ≡ contains k st.declared
  pub depths : (k : String) (r : RegValue) → get k regs ≡ some r → r.join_depth ≡ depth_of k st
  pub undeclared : (k : String) → contains k st.declared ≡ false → get k st.join_depth ≡ none
  pub bounded : (k : String) → depth_of k st ≤ budget.max_join_depth
