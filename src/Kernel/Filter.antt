-- ===== src/Kernel/Filter.antt =====
-- `exec_filter`: the handles of a register that pass a named filter.
use cortex_v3_1_rmvm_relatio.Base.{
  Bool, true, String, List, [], ◌∷◌, some, ltb, if◌then◌else◌, and_then, map_option, unwrap_or,
  length, str_eq, ok, err, ◌>>=◌, ◌>>◌, ok_or, reject_if,
}
use cortex_v3_1_rmvm_relatio.Base.Int.{pos, leb_ℤ}
use cortex_v3_1_rmvm_relatio.Base.Order.{string_ord}
use cortex_v3_1_rmvm_relatio.BTree.Map.{Map, get}
use cortex_v3_1_rmvm_relatio.BTree.Sort.{sort_by}
use cortex_v3_1_rmvm_relatio.Proto.Enums.{ErrorCode, trust_tier_from_i32}
use cortex_v3_1_rmvm_relatio.Proto.Messages.{HandleMeta, HandleRef, Value, OpFilter}
use cortex_v3_1_rmvm_relatio.Kernel.Types.{
  NormalizedBudget, SourceKind, RegData, RegValue, Regs, Exec, fail_rejected,
}
use cortex_v3_1_rmvm_relatio.Kernel.Values.{
  trust_rank, as_string, as_string_or_enum, value_to_tier_rank,
}
use cortex_v3_1_rmvm_relatio.Kernel.Fields.{meta_scope_name, as_handles}
use cortex_v3_1_rmvm_relatio.Kernel.Params.{same_text}
use cortex_v3_1_rmvm_relatio.Kernel.Budget.{as_u32}
use cortex_v3_1_rmvm_relatio.Kernel.Selector.{by_ref}

unfoldable pub matches_filter : HandleRef → String → Map String Value → Exec Bool
matches_filter h filter_ref params =
    if str_eq filter_ref "identity"
    then ok true
    else if str_eq filter_ref "by_subject"
    then (do
      subject ←
          ok_or (as_string (get "subject" params))
            (fail_rejected ErrorCode.schema_violation "by_subject requires subject string")
      ok (same_text (map_option (λ (m : HandleMeta). m.subject) h.meta) (some subject)))
    else if str_eq filter_ref "by_type"
    then (do
      type_id ←
          ok_or (as_string (get "type_id" params))
            (fail_rejected ErrorCode.schema_violation "by_type requires type_id string")
      ok (str_eq h.type_id type_id))
    else if str_eq filter_ref "by_scope"
    then (do
      scope ←
          ok_or (as_string_or_enum (get "scope" params))
            (fail_rejected ErrorCode.schema_violation "by_scope requires scope enum/string")
      ok (str_eq (unwrap_or (map_option meta_scope_name h.meta) "") scope))
    else if str_eq filter_ref "trust_at_least"
    then (do
      expected ←
          ok_or (and_then (get "tier" params) value_to_tier_rank)
            (fail_rejected ErrorCode.schema_violation "trust_at_least requires tier")
      ok (
          leb_ℤ expected (
            pos (
              unwrap_or
                (map_option (λ (m : HandleMeta). trust_rank (trust_tier_from_i32 m.trust_tier))
                  h.meta)
                0))))
    else err (fail_rejected ErrorCode.schema_violation "unknown filter_ref")

unfoldable pub filter_handles : String → Map String Value → List HandleRef → Exec (List HandleRef)
filter_handles filter_ref params [] = ok []
filter_handles filter_ref params (h ∷ rest) = do
  keep ← matches_filter h filter_ref params
  kept ← filter_handles filter_ref params rest
  ok (if keep then h ∷ kept else kept)

unfoldable pub exec_filter : OpFilter → Regs → NormalizedBudget → Exec RegValue
exec_filter f regs budget = do
  input ←
      ok_or (get f.in_reg regs)
        (fail_rejected ErrorCode.schema_violation "FILTER input register missing")
  handles ← as_handles input
  kept ← filter_handles f.filter_ref f.params handles
  let out = sort_by by_ref kept
  reject_if (ltb budget.max_fanout (as_u32 (length out)))
      (fail_rejected ErrorCode.graph_traversal_limit "filter fanout exceeded max_fanout")
  ok (record input { reg_data = RegData.handle_set out; source = SourceKind.filter })
