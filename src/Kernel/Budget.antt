-- ===== src/Kernel/Budget.antt =====
-- The budget of a plan, with the defaults of the kernel, and the indexes over the manifest.
use cortex_v3_1_rmvm_relatio.Base.{
  ℕ, ◌%◌, ◌^◌, min, String, List, Option, none, some, ◌==◌, if◌then◌else◌, map_option, and_then,
  unwrap_or, length, map,
}
use cortex_v3_1_rmvm_relatio.Base.Order.{string_ord}
use cortex_v3_1_rmvm_relatio.BTree.Map.{Map, insert_all, empty}
use cortex_v3_1_rmvm_relatio.Proto.Enums.{SelectorReturn, selector_return_from_i32}
use cortex_v3_1_rmvm_relatio.Proto.Float.{Floats, zero_f64, cost_512}
use cortex_v3_1_rmvm_relatio.Proto.Messages.{HandleRef, SelectorRef, PlanBudget, PublicManifest}
use cortex_v3_1_rmvm_relatio.Kernel.Types.{NormalizedBudget}

-- `n as u32`
abbrev pub as_u32 : ℕ → ℕ
as_u32 n = n % 2 ^ 32

unfoldable pub non_zero : ℕ → Option ℕ
non_zero v = if v == 0 then none else some v

unfoldable pub normalize_budget : Floats → Option PlanBudget → NormalizedBudget
unfolding non_zero
normalize_budget fl budget = record {
  max_ops = unwrap_or (and_then budget (λ b. non_zero b.max_ops)) 128;
  max_join_depth = unwrap_or (and_then budget (λ b. non_zero b.max_join_depth)) 3;
  max_fanout = unwrap_or (and_then budget (λ b. non_zero b.max_fanout)) 64;
  max_total_cost =
      unwrap_or
        (map_option
          (λ (b : PlanBudget).
            if fl.le b.max_total_cost zero_f64 then cost_512 else b.max_total_cost)
          budget)
        cost_512;
}

unfoldable pub handles_index : List HandleRef → Map String HandleRef
handles_index handles = insert_all (map (λ (h : HandleRef). (h.ref, h)) handles) empty

unfoldable pub selectors_index : List SelectorRef → Map String SelectorRef
selectors_index selectors = insert_all (map (λ (s : SelectorRef). (s.sel, s)) selectors) empty

abbrev rows_of : SelectorReturn → ℕ → ℕ → ℕ
rows_of SelectorReturn.return_handle_set n fanout = as_u32 (min n fanout)
rows_of _ n fanout = 1

unfoldable pub estimate_selector_rows : SelectorRef → PublicManifest → NormalizedBudget → ℕ
estimate_selector_rows selector manifest budget =
    rows_of (selector_return_from_i32 selector.return_type) (length manifest.handles)
      budget.max_fanout
