-- ===== src/Kernel/Selector.antt =====
-- `exec_apply_selector`: the handles of the manifest that match the parameters.
use Prim.Native.Nat.{Ordering}
use Prim.Native.String.{compare}
use cortex_v3_1_rmvm_relatio.Base.{
  ℕ, String, List, [], ◌∷◌, ltb, filter, head?, length, ok, err, ◌>>=◌, ◌>>◌, ok_or, reject_if,
}
use cortex_v3_1_rmvm_relatio.Base.Int.{ℤ, pos}
use cortex_v3_1_rmvm_relatio.Base.Order.{string_ord, int_ord}
use cortex_v3_1_rmvm_relatio.BTree.Set
use cortex_v3_1_rmvm_relatio.BTree.Set.{Set}
use cortex_v3_1_rmvm_relatio.BTree.Map.{Map, get, insert, insert_all, empty}
use cortex_v3_1_rmvm_relatio.BTree.Sort.{sort_by}
use cortex_v3_1_rmvm_relatio.Proto.Enums.{
  TrustTier, SelectorReturn, ErrorCode, selector_return_from_i32,
}
use cortex_v3_1_rmvm_relatio.Proto.Messages.{
  HandleRef, SelectorRef, PublicManifest, V, Value, OpApplySelector,
}
use cortex_v3_1_rmvm_relatio.Kernel.Types.{
  NormalizedBudget, SourceKind, RegData, RegValue, Exec, fail_rejected,
}
use cortex_v3_1_rmvm_relatio.Kernel.Values.{min_tier}
use cortex_v3_1_rmvm_relatio.Kernel.Fields.{value, handle_tier, handle_taint}
use cortex_v3_1_rmvm_relatio.Kernel.Params.{validate_param_specs, selector_match}
use cortex_v3_1_rmvm_relatio.Kernel.Budget.{as_u32}

-- `a.ref.cmp(&b.ref)`
abbrev pub by_ref : HandleRef → HandleRef → Ordering
by_ref a b = compare a.ref b.ref

-- the variables of the loop over the matched handles
pub record Merged : Type 0 where
  pub provenance : Set String
  pub taint : Set ℤ
  pub min_trust : TrustTier

unfoldable pub merge_handles : Merged → List HandleRef → Merged
merge_handles acc [] = acc
merge_handles acc (h ∷ rest) =
    merge_handles
      (record {
        provenance = Set.insert h.ref acc.provenance;
        taint = Set.extend acc.taint (handle_taint h);
        min_trust = min_tier acc.min_trust (handle_tier h);
      })
      rest

abbrev pub no_handles : Merged
no_handles = record { provenance = []; taint = []; min_trust = TrustTier.tier_4_policy_signed }

-- the tier of an empty match is unspecified
abbrev pub matched_trust : List HandleRef → TrustTier → TrustTier
matched_trust [] t = TrustTier.unspecified
matched_trust (h ∷ hs) t = t

-- what the selector returns; `total` is the number of handles of the manifest
abbrev pub returned : SelectorReturn → List HandleRef → ℕ → Map String Value → Exec RegData
returned SelectorReturn.return_handle matched total params = do
  first ←
      ok_or (head? matched) (fail_rejected ErrorCode.type_mismatch "selector returned zero rows")
  ok (RegData.handle first)
returned SelectorReturn.return_handle_set matched total params = ok (RegData.handle_set matched)
returned SelectorReturn.return_struct matched total params =
    ok (
      RegData.struct (insert_all params (insert "matched_count" (value (V.i64 (pos total))) empty)))
returned SelectorReturn.unspecified matched total params =
    err (fail_rejected ErrorCode.schema_violation "selector return_type unspecified")

-- the matched handles in the order of their references
unfoldable pub matched_handles : PublicManifest → Map String Value → List HandleRef
matched_handles manifest params =
    sort_by by_ref (filter (λ h. selector_match h params) manifest.handles)

unfoldable pub exec_apply_selector :
    OpApplySelector → PublicManifest → Map String SelectorRef → NormalizedBudget → Exec RegValue
exec_apply_selector apply manifest selectors_by_ref budget = do
  selector ← ok_or (get apply.selector_ref selectors_by_ref) (
      fail_rejected ErrorCode.unknown_selector_ref
        "unknown selector_ref in APPLY_SELECTOR execution")
  validate_param_specs selector.params apply.params
  let matched = matched_handles manifest apply.params
  reject_if (ltb budget.max_fanout (as_u32 (length matched)))
      (fail_rejected ErrorCode.graph_traversal_limit "selector fanout exceeded max_fanout")
  let merged = merge_handles no_handles matched
  reg_data ←
      returned (selector_return_from_i32 selector.return_type) matched (length manifest.handles)
        apply.params
  ok (record {
    reg_data = reg_data;
    provenance = merged.provenance;
    taint = merged.taint;
    min_trust = matched_trust matched merged.min_trust;
    join_depth = 0;
    source = SourceKind.apply_selector;
  })
