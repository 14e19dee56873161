-- ===== src/Planner/Parse.antt =====
-- The operations of a plan in JSON, in the unified form (`parse_unified_op`).

use cortex_v3_1_rmvm_relatio.Base.{
  String, List, [], ◌∷◌, ◌++◌, none, some, and_then, unwrap_or, str_eq, if◌then◌else◌, format, ok,
  err, ◌>>=◌, ok_or,
}
use cortex_v3_1_rmvm_relatio.Base.Int.{ℤ}
use cortex_v3_1_rmvm_relatio.Base.Order.{string_ord}
use cortex_v3_1_rmvm_relatio.BTree.Map.{Map, get, insert}
use cortex_v3_1_rmvm_relatio.Proto.Enums.{
  EdgeType, AssertionType, edge_type_as_i32, assertion_type_as_i32,
}
use cortex_v3_1_rmvm_relatio.Proto.Messages.{ValueRef, Cite, CitationRef, Op}
use cortex_v3_1_rmvm_relatio.Planner.Guard.{Checked}
use cortex_v3_1_rmvm_relatio.Planner.Json.{
  JsonValue, as_array, as_object, as_str, or_else, get_string, parse_param_map,
}

abbrev unsupported : String → String → String
unsupported what s = format ("unsupported " ∷ what ∷ ": " ∷ s ∷ [])

unfoldable pub parse_edge_type : String → Checked ℤ
parse_edge_type s =
    if str_eq s "EDGE_CONFLICTS_WITH"
    then ok (edge_type_as_i32 EdgeType.edge_conflicts_with)
    else if str_eq s "EDGE_SUPERSEDES"
    then ok (edge_type_as_i32 EdgeType.edge_supersedes)
    else if str_eq s "EDGE_PROVENANCE"
    then ok (edge_type_as_i32 EdgeType.edge_provenance)
    else if str_eq s "EDGE_SAME_ENTITY"
    then ok (edge_type_as_i32 EdgeType.edge_same_entity)
    else err (unsupported "edge type" s)

unfoldable pub parse_assertion_type : String → Checked ℤ
parse_assertion_type s =
    if str_eq s "ASSERT_USER_PREFERENCE"
    then ok (assertion_type_as_i32 AssertionType.assert_user_preference)
    else if str_eq s "ASSERT_WORLD_FACT"
    then ok (assertion_type_as_i32 AssertionType.assert_world_fact)
    else if str_eq s "ASSERT_DECISION"
    then ok (assertion_type_as_i32 AssertionType.assert_decision)
    else if str_eq s "ASSERT_PROCEDURE"
    then ok (assertion_type_as_i32 AssertionType.assert_procedure)
    else if str_eq s "ASSERT_CONFLICT_EXPLANATION"
    then ok (assertion_type_as_i32 AssertionType.assert_conflict_explanation)
    else err (unsupported "assertion type" s)

-- `.iter().filter_map(|v| v.as_str())`
abbrev pub strings : List JsonValue → List String
strings [] = []
strings (v ∷ vs) = elim (as_str v) [ none ↦ strings vs | some s ↦ s ∷ strings vs ]

unfoldable pub parse_binding : JsonValue → Checked ValueRef
parse_binding v = do
  b ← ok_or (as_object v) "assert binding entries must be objects"
  reg ← ok_or (get_string b ("reg" ∷ [])) "binding.reg missing"
  field_path ← ok_or (get_string b ("fieldPath" ∷ "field_path" ∷ [])) "binding.fieldPath missing"
  ok (record { reg = reg; field_path = field_path })

unfoldable pub parse_bindings :
    Map String JsonValue → Map String ValueRef → Checked (Map String ValueRef)
parse_bindings [] out = ok out
parse_bindings ((k, v) ∷ obj) out = do b ← parse_binding v; parse_bindings obj (insert k b out)

-- An entry that names neither a handle nor an anchor is dropped.
abbrev citation_of : Map String JsonValue → List CitationRef
citation_of obj = elim (get_string obj ("handleRef" ∷ "handle_ref" ∷ [])) [
  | some h ↦ record { cite = some (Cite.handle_ref h) } ∷ []
  | none ↦ elim (get_string obj ("anchorRef" ∷ "anchor_ref" ∷ [])) [
    | some a ↦ record { cite = some (Cite.anchor_ref a) } ∷ []
    | none ↦ []
  ]
]

unfoldable pub parse_citations : List JsonValue → List CitationRef → Checked (List CitationRef)
parse_citations [] out = ok out
parse_citations (c ∷ rest) out = do
  obj ← ok_or (as_object c) "citation entries must be objects"
  parse_citations rest (out ++ citation_of obj)

unfoldable pub parse_assert : Map String JsonValue → Checked Op
unfolding parse_bindings parse_citations
parse_assert obj = do
  name ←
      ok_or (get_string obj ("assertionType" ∷ "assertion_type" ∷ []))
        "assert.assertionType is required"
  assertion_type ← parse_assertion_type name
  bindings_obj ← ok_or (and_then (get "bindings" obj) as_object) "assert.bindings must be an object"
  bindings ← parse_bindings bindings_obj []
  citations ← parse_citations (unwrap_or (and_then (get "citations" obj) as_array) []) []
  ok (
      Op.assert_op
        (record { assertion_type = assertion_type; bindings = bindings; citations = citations }))

unfoldable pub parse_join : Map String JsonValue → Checked Op
parse_join obj = do
  left_reg ← ok_or (get_string obj ("leftReg" ∷ "left_reg" ∷ [])) "join.leftReg is required"
  right_reg ← ok_or (get_string obj ("rightReg" ∷ "right_reg" ∷ [])) "join.rightReg is required"
  name ← ok_or (get_string obj ("edgeType" ∷ "edge_type" ∷ [])) "join.edgeType is required"
  edge_type ← parse_edge_type name
  ok (Op.join (record { left_reg = left_reg; right_reg = right_reg; edge_type = edge_type }))

unfoldable pub parse_other : String → Map String JsonValue → Checked Op
parse_other kind obj =
    if str_eq kind "fetch"
    then (do
      handle_ref ←
          ok_or (get_string obj ("handleRef" ∷ "handle_ref" ∷ [])) "fetch.handleRef is required"
      ok (Op.fetch (record { handle_ref = handle_ref })))
    else if str_eq kind "applySelector"
    then (do
      selector_ref ←
          ok_or (get_string obj ("selectorRef" ∷ "selector_ref" ∷ []))
            "applySelector.selectorRef is required"
      ok (
          Op.apply_selector
            (record { selector_ref = selector_ref; params = parse_param_map (get "params" obj) })))
    else if str_eq kind "resolve"
    then (do
      in_reg ← ok_or (get_string obj ("inReg" ∷ "in_reg" ∷ [])) "resolve.inReg is required"
      let policy_id = unwrap_or (get_string obj ("policyId" ∷ "policy_id" ∷ [])) ""
      ok (Op.resolve (record { in_reg = in_reg; policy_id = policy_id })))
    else if str_eq kind "filter"
    then (do
      in_reg ← ok_or (get_string obj ("inReg" ∷ "in_reg" ∷ [])) "filter.inReg is required"
      filter_ref ←
          ok_or (get_string obj ("filterRef" ∷ "filter_ref" ∷ [])) "filter.filterRef is required"
      ok (
          Op.filter (record {
            in_reg = in_reg;
            filter_ref = filter_ref;
            params = parse_param_map (get "params" obj);
          })))
    else if str_eq kind "project"
    then (do
      in_reg ← ok_or (get_string obj ("inReg" ∷ "in_reg" ∷ [])) "project.inReg is required"
      paths ←
          ok_or (and_then (or_else (get "fieldPaths" obj) (get "field_paths" obj)) as_array)
            "project.fieldPaths must be an array"
      ok (Op.project (record { in_reg = in_reg; field_paths = strings paths })))
    else err (format ("unsupported step.op.kind: " ∷ kind ∷ []))

unfoldable pub parse_kind : String → Map String JsonValue → Checked Op
unfolding parse_other
parse_kind kind obj =
    if str_eq kind "join"
    then parse_join obj
    else if str_eq kind "assert"
    then parse_assert obj
    else parse_other kind obj

unfoldable pub parse_unified_op : JsonValue → Checked Op
unfolding parse_kind
parse_unified_op v = do
  obj ← ok_or (as_object v) "step.op must be an object"
  kind ← ok_or (get_string obj ("kind" ∷ [])) "step.op.kind is required"
  parse_kind kind obj
