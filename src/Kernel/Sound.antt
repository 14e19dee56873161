-- ===== src/Kernel/Sound.antt =====
-- What a register knows of its data: every handle and every value in it is covered by the
-- register's provenance, taint and trust.
mod Rules
mod Fetching
mod Select
mod Registers
mod Projections
pub mod Assertions
pub mod Execution
use cortex_v3_1_rmvm_relatio.Base.{
  ℕ, ◌≤◌, ◌≡◌, true, String, List, [], ◌∷◌, ◌++◌, Option, none, some, All, Listed,
}
use cortex_v3_1_rmvm_relatio.Base.Int.{ℤ, pos}
use cortex_v3_1_rmvm_relatio.Base.Order.{string_ord, int_ord}
use cortex_v3_1_rmvm_relatio.BTree.Set.{Set, contains}
use cortex_v3_1_rmvm_relatio.BTree.Map.{Map, values}
use cortex_v3_1_rmvm_relatio.Proto.Enums.{TrustTier}
use cortex_v3_1_rmvm_relatio.Proto.Messages.{HandleRef, V, Value, Op, Step}
use cortex_v3_1_rmvm_relatio.Kernel.Types.{RegData, handle, handle_set, struct, RegValue}
use cortex_v3_1_rmvm_relatio.Kernel.Values.{trust_rank}
use cortex_v3_1_rmvm_relatio.Kernel.Fields.{value, handle_field, handle_tier, handle_taint}

-- the parameters that the plan itself supplies
abbrev pub op_params : Op → List Value
op_params (Op.apply_selector a) = values a.params
op_params _ = []

abbrev pub step_params : Step → List Value
step_params step = elim step.op [ none ↦ [] | some op ↦ op_params op ]

abbrev pub plan_params : List Step → List Value
plan_params [] = []
plan_params (step ∷ rest) = step_params step ++ plan_params rest

-- what an operation records about the data in a register
pub record Facts : Type 0 where
  pub provenance : Set String
  pub taint : Set ℤ
  pub min_trust : TrustTier

abbrev pub facts : RegValue → Facts
facts r = record { provenance = r.provenance; taint = r.taint; min_trust = r.min_trust }

-- `g` admits all that `f` admits
pub record Weaker (f g : Facts) : Type 0 where
  pub provenance : (k : String) → contains k f.provenance ≡ true → contains k g.provenance ≡ true
  pub taint : (t : ℤ) → contains t f.taint ≡ true → contains t g.taint ≡ true
  pub min_trust : trust_rank g.min_trust ≤ trust_rank f.min_trust

-- the handle is one of the manifest, and the facts name it, trust it no more than it is trusted,
-- and carry its taint
pub record Covers (handles : List HandleRef) (f : Facts) (h : HandleRef) : Type 0 where
  pub listed : Listed h handles
  pub named : contains h.ref f.provenance ≡ true
  pub trusted : trust_rank f.min_trust ≤ trust_rank (handle_tier h)
  pub tainted : (t : ℤ) → contains t (handle_taint h) ≡ true → contains t f.taint ≡ true

-- where a value comes from: a field of a covered handle, a count, or the plan itself
pub data Origin (handles : List HandleRef) (params : List Value) (f : Facts) (v : Value)
    : Type 0 where
  field :
      (h : HandleRef) (path : String)
      → handle_field h path ≡ some v
      → Covers handles f h
      → Origin handles params f v
  count : (n : ℕ) → v ≡ value (V.i64 (pos n)) → Origin handles params f v
  param : Listed v params → Origin handles params f v

abbrev pub data_handles : RegData → List HandleRef
data_handles (handle h) = h ∷ []
data_handles (handle_set hs) = hs
data_handles (struct fields) = []

abbrev pub data_values : RegData → List Value
data_values (struct fields) = values fields
data_values _ = []

pub record IsSound (handles : List HandleRef) (params : List Value) (r : RegValue) : Type 0 where
  pub handles_covered : All (Covers handles (facts r)) (data_handles r.reg_data)
  pub values_traced : All (Origin handles params (facts r)) (data_values r.reg_data)
