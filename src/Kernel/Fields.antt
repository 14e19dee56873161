-- ===== src/Kernel/Fields.antt =====
-- The fields of a handle that a plan can read, and how a register's data is read.
use cortex_v3_1_rmvm_relatio.Base.{
  String, List, [], ◌∷◌, Option, none, some, if◌then◌else◌, and_then, map_option, unwrap_or, str_eq,
  ok, err, ok_or,
}
use cortex_v3_1_rmvm_relatio.Base.Int.{ℤ}
use cortex_v3_1_rmvm_relatio.BTree.Map.{get}
use cortex_v3_1_rmvm_relatio.Base.Order.{string_ord}
use cortex_v3_1_rmvm_relatio.Proto.Enums.{
  TrustTier, Scope, ErrorCode, availability_from_i32, availability_name, trust_tier_from_i32,
  trust_tier_name, scope_try_from, scope_name,
}
use cortex_v3_1_rmvm_relatio.Proto.Messages.{HandleMeta, HandleRef, TemporalBound, V, Value}
use cortex_v3_1_rmvm_relatio.Kernel.Types.{
  RegData, handle, handle_set, struct, RegValue, Exec, fail_rejected,
}

abbrev pub value : V → Value
value v = record { v = some v }

-- the name of the scope, that of an unknown number being unspecified
unfoldable pub meta_scope_name : HandleMeta → String
meta_scope_name m = scope_name (unwrap_or (scope_try_from m.scope) Scope.unspecified)

-- the tier of a handle, unspecified where it has no metadata
unfoldable pub handle_tier : HandleRef → TrustTier
handle_tier h =
    unwrap_or (map_option (λ (m : HandleMeta). trust_tier_from_i32 m.trust_tier) h.meta)
      TrustTier.unspecified

-- the taint classes of a handle, none where it has no metadata
unfoldable pub handle_taint : HandleRef → List ℤ
handle_taint h = unwrap_or (map_option (λ (m : HandleMeta). m.taint) h.meta) []

abbrev temporal_field : (TemporalBound → Option V) → HandleMeta → Option Value
temporal_field f m = map_option value (and_then m.temporal f)

meta_field : HandleMeta → String → Option Value
meta_field m path =
    if str_eq path "meta.subject"
    then some (value (V.s m.subject))
    else if str_eq path "meta.predicate_label"
    then some (value (V.s m.predicate_label))
    else if str_eq path "meta.trust_tier"
    then some (value (V.e (trust_tier_name (trust_tier_from_i32 m.trust_tier))))
    else if str_eq path "meta.scope"
    then some (value (V.e (meta_scope_name m)))
    else if str_eq path "meta.temporal.open_end"
    then temporal_field (λ t. some (V.b t.open_end)) m
    else if str_eq path "meta.temporal.valid_from"
    then temporal_field (λ t. map_option V.ts t.valid_from) m
    else if str_eq path "meta.temporal.valid_to"
    then temporal_field (λ t. map_option V.ts t.valid_to) m
    else none

unfoldable pub handle_field : HandleRef → String → Option Value
unfolding meta_field meta_scope_name
handle_field h path =
    if str_eq path "ref"
    then some (value (V.s h.ref))
    else if str_eq path "type_id"
    then some (value (V.s h.type_id))
    else if str_eq path "signature_summary"
    then some (value (V.s h.signature_summary))
    else if str_eq path "conflict_group_id"
    then some (value (V.s h.conflict_group_id))
    else if str_eq path "availability"
    then some (value (V.e (availability_name (availability_from_i32 h.availability))))
    else and_then h.meta (λ m. meta_field m path)

abbrev pub binding_of_data : RegData → String → Exec Value
binding_of_data (handle h) path =
    ok_or (handle_field h path)
      (fail_rejected ErrorCode.field_redacted "binding path missing on handle")
binding_of_data (struct values) path =
    ok_or (get path values)
      (fail_rejected ErrorCode.field_redacted "binding path missing in struct")
binding_of_data (handle_set hs) path =
    err (fail_rejected ErrorCode.type_mismatch "cannot bind directly from handle set")

unfoldable pub extract_binding_value : RegValue → String → Exec Value
extract_binding_value reg path = binding_of_data reg.reg_data path

abbrev pub handles_of_data : RegData → Exec (List HandleRef)
handles_of_data (handle h) = ok (h ∷ [])
handles_of_data (handle_set hs) = ok hs
handles_of_data (struct values) =
    err (fail_rejected ErrorCode.type_mismatch "operation requires HANDLE or HANDLE_SET")

unfoldable pub as_handles : RegValue → Exec (List HandleRef)
as_handles reg = handles_of_data reg.reg_data
