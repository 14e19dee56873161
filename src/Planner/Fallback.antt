-- ===== src/Planner/Fallback.antt =====
-- `deterministic_plan_from_manifest`: fetch the first handle, or apply the first selector, and assert
-- what it says of the subject.
pub mod Accepted
use cortex_v3_1_rmvm_relatio.Base.{String, List, [], ◌∷◌, some, Result, ok, err}
use cortex_v3_1_rmvm_relatio.Proto.Enums.{AssertionType, assertion_type_as_i32}
use cortex_v3_1_rmvm_relatio.Proto.Messages.{
  HandleRef, SelectorRef, PublicManifest, V, Value, ValueRef, Op, Step, RmvmPlan,
}
use cortex_v3_1_rmvm_relatio.Planner.Guard.{Checked}

-- the projection of one field of `r0` and the assertion of it as the subject
abbrev pub assert_subject : Op → String → List Step
assert_subject first field_path =
    record { out = "r0"; op = some first }
    ∷ record {
      out = "r1";
      op = some (Op.project (record { in_reg = "r0"; field_paths = field_path ∷ [] }));
    }
    ∷ record {
      out = "r2";
      op = some (
          Op.assert_op (record {
            assertion_type = assertion_type_as_i32 AssertionType.assert_world_fact;
            bindings = ("subject", record { reg = "r1"; field_path = field_path }) ∷ [];
            citations = [];
          }));
    }
    ∷ []

abbrev pub fallback_plan : String → List Step → RmvmPlan
fallback_plan request_id steps = record {
  request_id = request_id;
  steps = steps;
  outputs = record { reg = "r2" } ∷ [];
}

abbrev pub select_subject : SelectorRef → String → Op
select_subject selector subject = Op.apply_selector (record {
  selector_ref = selector.sel;
  params = ("subject", record { v = some (V.s subject) }) ∷ [];
})

abbrev first_selector : String → String → List SelectorRef → Checked RmvmPlan
first_selector request_id subject [] =
    err "manifest has no handles/selectors for deterministic fallback"
first_selector request_id subject (selector ∷ rest) =
    ok (fallback_plan request_id (assert_subject (select_subject selector subject) "set_count"))

abbrev first_handle : String → String → List SelectorRef → List HandleRef → Checked RmvmPlan
first_handle request_id subject selectors (handle ∷ rest) = ok (
    fallback_plan request_id
      (assert_subject (Op.fetch (record { handle_ref = handle.ref })) "meta.subject"))
first_handle request_id subject selectors [] = first_selector request_id subject selectors

unfoldable pub deterministic_plan_from_manifest :
    String → String → PublicManifest → Checked RmvmPlan
deterministic_plan_from_manifest request_id subject manifest =
    first_handle request_id subject manifest.selectors manifest.handles
