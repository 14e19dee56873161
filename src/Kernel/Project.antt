-- ===== src/Kernel/Project.antt =====
-- `exec_project`: chosen fields of a register.
use cortex_v3_1_rmvm_relatio.Base.{
  String, List, [], ◌∷◌, if◌then◌else◌, length, str_eq, ok, ◌>>=◌, ok_or,
}
use cortex_v3_1_rmvm_relatio.Base.Int.{pos}
use cortex_v3_1_rmvm_relatio.Base.Order.{string_ord}
use cortex_v3_1_rmvm_relatio.BTree.Map.{Map, get, insert}
use cortex_v3_1_rmvm_relatio.Proto.Enums.{ErrorCode}
use cortex_v3_1_rmvm_relatio.Proto.Messages.{HandleRef, V, Value, OpProject}
use cortex_v3_1_rmvm_relatio.Kernel.Types.{
  SourceKind, RegData, handle, handle_set, struct, Regs, RegValue, Exec, fail_rejected,
}
use cortex_v3_1_rmvm_relatio.Kernel.Fields.{value, handle_field}

-- the fields of one handle
unfoldable pub project_handle : HandleRef → List String → Map String Value → Exec (Map String Value)
project_handle h [] out = ok out
project_handle h (path ∷ rest) out = do
  v ←
      ok_or (handle_field h path)
        (fail_rejected ErrorCode.field_redacted "PROJECT field path missing")
  project_handle h rest (insert path v out)

-- the fields of the first handle of a set, less the count, which is not a field of it
unfoldable pub project_first : HandleRef → List String → Map String Value → Exec (Map String Value)
project_first h [] out = ok out
project_first h (path ∷ rest) out =
    let counted = project_first h rest out in
    let stored = (do
      v ←
          ok_or (handle_field h path)
            (fail_rejected ErrorCode.field_redacted "PROJECT field path missing")
      project_first h rest (insert path v out)) in
    if str_eq path "set_count" then counted else stored

unfoldable pub project_struct :
    Map String Value → List String → Map String Value → Exec (Map String Value)
project_struct fields [] out = ok out
project_struct fields (path ∷ rest) out = do
  v ← ok_or (get path fields) (fail_rejected ErrorCode.field_redacted "PROJECT field missing")
  project_struct fields rest (insert path v out)

abbrev pub project_set : List HandleRef → List String → Map String Value → Exec (Map String Value)
project_set [] paths out = ok out
project_set (first ∷ rest) paths out = project_first first paths out

abbrev pub project_data : RegData → List String → Exec (Map String Value)
project_data (handle h) paths = project_handle h paths []
project_data (handle_set hs) paths = do
  out ← project_set hs paths []
  ok (insert "set_count" (value (V.i64 (pos (length hs)))) out)
project_data (struct fields) paths = project_struct fields paths []

unfoldable pub exec_project : OpProject → Regs → Exec RegValue
exec_project p regs = do
  input ←
      ok_or (get p.in_reg regs)
        (fail_rejected ErrorCode.schema_violation "PROJECT input register missing")
  out ← project_data input.reg_data p.field_paths
  ok (record input { reg_data = RegData.struct out; source = SourceKind.project })
