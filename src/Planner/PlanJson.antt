-- ===== src/Planner/PlanJson.antt =====
-- `parse_plan_json`: a plan out of JSON. A step names its operation in the unified form, or in the form
-- of the protobuf messages (`parse_proto_style_op`).
use cortex_v3_1_rmvm_relatio.Base.{
  String, List, [], ◌∷◌, ◌++◌, Option, none, some, and_then, unwrap_or, ok, err, ◌>>=◌, ok_or,
}
use cortex_v3_1_rmvm_relatio.Base.Order.{string_ord}
use cortex_v3_1_rmvm_relatio.BTree.Map.{Map, get}
use cortex_v3_1_rmvm_relatio.Proto.Messages.{Op, Step, OutputSpec, RmvmPlan}
use cortex_v3_1_rmvm_relatio.Planner.Guard.{Checked}
use cortex_v3_1_rmvm_relatio.Planner.Json.{
  JsonValue, JsonArray, JsonObject, as_array, as_object, as_str, or_else, get_string,
  parse_param_map,
}
use cortex_v3_1_rmvm_relatio.Planner.Parse.{parse_edge_type, strings, parse_unified_op}

abbrev pub fetch_op : JsonValue → Checked Op
fetch_op v = do
  o ← ok_or (as_object v) "fetch must be object"
  handle_ref ← ok_or (get_string o ("handle_ref" ∷ "handleRef" ∷ [])) "fetch.handle_ref missing"
  ok (Op.fetch (record { handle_ref = handle_ref }))

abbrev pub apply_selector_op : JsonValue → Checked Op
apply_selector_op v = do
  o ← ok_or (as_object v) "apply_selector must be object"
  selector_ref ←
      ok_or (get_string o ("selector_ref" ∷ "selectorRef" ∷ []))
        "apply_selector.selector_ref missing"
  ok (
      Op.apply_selector
        (record { selector_ref = selector_ref; params = parse_param_map (get "params" o) }))

abbrev pub resolve_op : JsonValue → Checked Op
resolve_op v = do
  o ← ok_or (as_object v) "resolve must be object"
  in_reg ← ok_or (get_string o ("in_reg" ∷ "inReg" ∷ [])) "resolve.in_reg missing"
  let policy_id = unwrap_or (get_string o ("policy_id" ∷ "policyId" ∷ [])) ""
  ok (Op.resolve (record { in_reg = in_reg; policy_id = policy_id }))

abbrev pub filter_op : JsonValue → Checked Op
filter_op v = do
  o ← ok_or (as_object v) "filter must be object"
  in_reg ← ok_or (get_string o ("in_reg" ∷ "inReg" ∷ [])) "filter.in_reg missing"
  filter_ref ← ok_or (get_string o ("filter_ref" ∷ "filterRef" ∷ [])) "filter.filter_ref missing"
  ok (
      Op.filter (record {
        in_reg = in_reg;
        filter_ref = filter_ref;
        params = parse_param_map (get "params" o);
      }))

abbrev pub join_op : JsonValue → Checked Op
join_op v = do
  o ← ok_or (as_object v) "join must be object"
  left_reg ← ok_or (get_string o ("left_reg" ∷ "leftReg" ∷ [])) "join.left_reg missing"
  right_reg ← ok_or (get_string o ("right_reg" ∷ "rightReg" ∷ [])) "join.right_reg missing"
  name ← ok_or (get_string o ("edge_type" ∷ "edgeType" ∷ [])) "join.edge_type missing"
  edge_type ← parse_edge_type name
  ok (Op.join (record { left_reg = left_reg; right_reg = right_reg; edge_type = edge_type }))

abbrev pub project_op : JsonValue → Checked Op
project_op v = do
  o ← ok_or (as_object v) "project must be object"
  in_reg ← ok_or (get_string o ("in_reg" ∷ "inReg" ∷ [])) "project.in_reg missing"
  paths ←
      ok_or (and_then (or_else (get "field_paths" o) (get "fieldPaths" o)) as_array)
        "project.field_paths missing"
  ok (Op.project (record { in_reg = in_reg; field_paths = strings paths }))

-- `v.get(key).cloned().unwrap_or(default)`; only an object has entries
abbrev field : JsonValue → String → JsonValue → JsonValue
field v key default = unwrap_or (and_then (as_object v) (get key)) default

-- the object that `json!` makes
abbrev unified_assert : JsonValue → JsonValue
unified_assert v = JsonValue.object (
    JsonObject.entry "assertion_type" (field v "assertion_type" JsonValue.null) (
      JsonObject.entry "bindings" (field v "bindings" (JsonValue.object JsonObject.end_object)) (
        JsonObject.entry "citations" (field v "citations" (JsonValue.array JsonArray.end_array))
          (JsonObject.entry "kind" (JsonValue.string "assert") JsonObject.end_object))))

-- the first of the keys that the object has, with what to do with its value
abbrev pub first_of : Map String JsonValue → List (String × (JsonValue → Checked Op)) → Checked Op
first_of obj [] = err "step missing supported operation"
first_of obj ((key, parse) ∷ rest) = elim (get key obj) [
  | some v ↦ parse v
  | none ↦ first_of obj rest
]

unfoldable pub parse_proto_style_op : Map String JsonValue → Checked Op
parse_proto_style_op obj = first_of obj (
    ("fetch", fetch_op)
    ∷ ("apply_selector", apply_selector_op)
    ∷ ("resolve", resolve_op)
    ∷ ("filter", filter_op)
    ∷ ("join", join_op)
    ∷ ("project", project_op)
    ∷ ("assert_op", λ v. parse_unified_op (unified_assert v))
    ∷ [])

unfoldable pub parse_step : JsonValue → Checked Step
parse_step step_v = do
  step_obj ← ok_or (as_object step_v) "plan.steps entries must be objects"
  out ← ok_or (get_string step_obj ("out" ∷ [])) "plan step missing out"
  op ← elim (get "op" step_obj) [
    | some unified_op ↦ parse_unified_op unified_op
    | none ↦ parse_proto_style_op step_obj
  ]
  ok (record { out = out; op = some op })

unfoldable pub parse_steps : List JsonValue → List Step → Checked (List Step)
parse_steps [] steps = ok steps
parse_steps (step_v ∷ rest) steps = do
  step ← parse_step step_v
  parse_steps rest (steps ++ step ∷ [])

abbrev parse_output : JsonValue → Checked OutputSpec
parse_output v = elim (as_str v) [
  | some reg ↦ ok (record { reg = reg })
  | none ↦ (do
    obj ← ok_or (as_object v) "plan.outputs entries must be strings or objects"
    reg ← ok_or (get_string obj ("reg" ∷ [])) "output missing reg"
    ok (record { reg = reg }))
]

abbrev output_specs : List JsonValue → List OutputSpec → Checked (List OutputSpec)
output_specs [] out = ok out
output_specs (v ∷ rest) out = do o ← parse_output v; output_specs rest (out ++ o ∷ [])

unfoldable pub parse_outputs : Option JsonValue → Checked (List OutputSpec)
parse_outputs outputs = do
  arr ← ok_or (and_then outputs as_array) "plan.outputs must be an array"
  output_specs arr []

-- `from_str` is serde_json's
unfoldable pub parse_plan_json : (String → Checked JsonValue) → String → String → Checked RmvmPlan
unfolding parse_steps parse_outputs
parse_plan_json from_str plan_json fallback_request_id = do
  root ← from_str plan_json
  obj ← ok_or (as_object root) "plan root must be an object"
  let request_id = unwrap_or (get_string obj ("requestId" ∷ "request_id" ∷ [])) fallback_request_id
  steps_v ← ok_or (and_then (get "steps" obj) as_array) "plan.steps must be an array"
  steps ← parse_steps steps_v []
  outputs ← parse_outputs (get "outputs" obj)
  ok (record { request_id = request_id; steps = steps; outputs = outputs })
