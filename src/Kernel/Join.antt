-- ===== src/Kernel/Join.antt =====
-- `exec_join`: the pairs of two registers that an edge relates.
use cortex_v3_1_rmvm_relatio.Base.{
  ◌+◌, max, Bool, true, false, ◌&&◌, not, String, List, [], ◌∷◌, ltb, if◌then◌else◌, map_option,
  length, str_eq, ok, ◌>>=◌, ◌>>◌, ok_or, reject_if,
}
use cortex_v3_1_rmvm_relatio.Base.Order.{string_ord, int_ord}
use cortex_v3_1_rmvm_relatio.BTree.Set
use cortex_v3_1_rmvm_relatio.BTree.Map.{Map, get, insert, values}
use cortex_v3_1_rmvm_relatio.Proto.Enums.{EdgeType, ErrorCode, edge_type_from_i32}
use cortex_v3_1_rmvm_relatio.Proto.Messages.{HandleMeta, HandleRef, OpJoin}
use cortex_v3_1_rmvm_relatio.Kernel.Types.{
  NormalizedBudget, SourceKind, RegData, RegValue, Regs, Exec, fail_rejected,
}
use cortex_v3_1_rmvm_relatio.Kernel.Values.{min_tier}
use cortex_v3_1_rmvm_relatio.Kernel.Fields.{as_handles}
use cortex_v3_1_rmvm_relatio.Kernel.Params.{same_text}
use cortex_v3_1_rmvm_relatio.Kernel.Budget.{as_u32}

abbrev pub is_unspecified : EdgeType → Bool
is_unspecified EdgeType.unspecified = true
is_unspecified _ = false

unfoldable pub include : EdgeType → HandleRef → HandleRef → Bool
include EdgeType.edge_conflicts_with l r =
    not (str_eq l.conflict_group_id "")
    && str_eq l.conflict_group_id r.conflict_group_id
    && not (str_eq l.ref r.ref)
include EdgeType.edge_supersedes l r = str_eq l.type_id r.type_id && not (str_eq l.ref r.ref)
include EdgeType.edge_provenance l r = str_eq l.signature_summary r.signature_summary
include EdgeType.edge_same_entity l r =
    same_text (map_option (λ (m : HandleMeta). m.subject) l.meta)
      (map_option (λ (m : HandleMeta). m.subject) r.meta)
include EdgeType.unspecified l r = false

-- the inner loop, over the right side
unfoldable pub join_right :
    EdgeType → HandleRef → List HandleRef → Map String HandleRef → Map String HandleRef
join_right edge l [] joined = joined
join_right edge l (r ∷ rest) joined =
    join_right edge l rest
      (if include edge l r then insert r.ref r (insert l.ref l joined) else joined)

-- the outer loop, over the left side
unfoldable pub join_left :
    EdgeType → List HandleRef → List HandleRef → Map String HandleRef → Map String HandleRef
unfolding join_right
join_left edge [] rights joined = joined
join_left edge (l ∷ rest) rights joined =
    join_left edge rest rights (join_right edge l rights joined)

unfoldable pub exec_join : OpJoin → Regs → NormalizedBudget → Exec RegValue
exec_join j regs budget = do
  left ←
      ok_or (get j.left_reg regs)
        (fail_rejected ErrorCode.schema_violation "JOIN left register missing")
  right ←
      ok_or (get j.right_reg regs)
        (fail_rejected ErrorCode.schema_violation "JOIN right register missing")
  let edge = edge_type_from_i32 j.edge_type
  reject_if (is_unspecified edge)
      (fail_rejected ErrorCode.schema_violation "JOIN edge_type unspecified")
  left_set ← as_handles left
  right_set ← as_handles right
  let joined = join_left edge left_set right_set []
  reject_if (ltb budget.max_fanout (as_u32 (length joined)))
      (fail_rejected ErrorCode.graph_traversal_limit "join fanout exceeded max_fanout")
  ok (record {
    reg_data = RegData.handle_set (values joined);
    provenance = Set.union left.provenance right.provenance;
    taint = Set.union left.taint right.taint;
    min_trust = min_tier left.min_trust right.min_trust;
    join_depth = max left.join_depth right.join_depth + 1;
    source = SourceKind.join;
  })
