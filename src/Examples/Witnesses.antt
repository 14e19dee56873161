-- ===== src/Examples/Witnesses.antt =====
-- The theorems at concrete inputs: one handle, the plan that the guard falls back to for it, a plan that
-- joins, and a plan that reads its own output.
use cortex_v3_1_rmvm_relatio.Base.{
  ◌⊎◌, ◌≤◌, ◌≡◌, refl, true, ◌||◌, String, List, [], ◌∷◌, none, some, is_some, All, get_elem?,
  length, ok, ◌>>=◌, ◌>>◌, is_blank, as_bytes,
}
use cortex_v3_1_rmvm_relatio.Base.Int.{pos}
use cortex_v3_1_rmvm_relatio.Base.Order.{string_ord}
use cortex_v3_1_rmvm_relatio.BTree.Set.{Set, contains}
use cortex_v3_1_rmvm_relatio.BTree.Set
use cortex_v3_1_rmvm_relatio.BTree.Set.Laws.{same}
use cortex_v3_1_rmvm_relatio.BTree.Map.{get, insert, insert_all}
use cortex_v3_1_rmvm_relatio.Proto.Enums.{
  availability_from_i32, edge_type_from_i32, assertion_type_from_i32, trust_tier_from_i32,
}
use cortex_v3_1_rmvm_relatio.Proto.Messages.{
  Op, Step, RmvmPlan, VerifiedAssertion, InclusionProof, AssertionMerkleProof, ExecuteResponse,
}
use cortex_v3_1_rmvm_relatio.Kernel.Types.{default_options, RegValue}
use cortex_v3_1_rmvm_relatio.Kernel.Budget.{
  as_u32, normalize_budget, handles_index, selectors_index,
}
use cortex_v3_1_rmvm_relatio.Kernel.Static.{check_steps, check_step, check_op, validate_static}
use cortex_v3_1_rmvm_relatio.Kernel.Execute.{
  Context, context_of, ExecState, start, exec_steps, exec_step, exec_op, execute_plan,
  execute_inner, execute,
}
use cortex_v3_1_rmvm_relatio.Kernel.Fields.{
  as_handles, handle_field, handle_tier, handle_taint, extract_binding_value,
}
use cortex_v3_1_rmvm_relatio.Kernel.Fetch.{exec_fetch}
use cortex_v3_1_rmvm_relatio.Kernel.Join.{include, join_right, join_left, exec_join}
use cortex_v3_1_rmvm_relatio.Kernel.Project.{
  exec_project, project_handle, project_first, project_struct,
}
use cortex_v3_1_rmvm_relatio.Kernel.Values.{
  trust_rank, min_tier, assertion_requires_tier2, has_untrusted_taint, value_to_string,
}
use cortex_v3_1_rmvm_relatio.Kernel.Render.{
  reg_to_string, assertion_block, output_blocks, verified_blocks, narrative_blocks, render_output,
}
use cortex_v3_1_rmvm_relatio.BTree.Sort.{sort_by}
use cortex_v3_1_rmvm_relatio.Proto.Canonical.{
  sha256_hex, canonical_assertion_hash, canonical_assertion_bytes,
}
use cortex_v3_1_rmvm_relatio.Kernel.Assert.{
  exec_assert, is_broken, cite_provenance, cite_text, cite_all, bind_fields, bind_field, gates,
  canonicalize_citations,
}
use cortex_v3_1_rmvm_relatio.Kernel.Merkle.{
  build_proof, leaves_of, leaf_of, merkle_root_and_inclusion, levels_from, inclusion_from, siblings,
  sib_idx, next_level, hash_pair,
}
use cortex_v3_1_rmvm_relatio.Kernel.Merkle.Paths.{recomputed_root}
use cortex_v3_1_rmvm_relatio.Kernel.Merkle.Built.{build_proof-total, build_proof-verifies}
use cortex_v3_1_rmvm_relatio.Kernel.Execute.Answer.{IsAnswer, IsRefusal, execute-kind}
use cortex_v3_1_rmvm_relatio.Kernel.Scoping.{step_reads}
use cortex_v3_1_rmvm_relatio.Kernel.Scoping.Runs.{join_depth-le-max, reads_defined}
use cortex_v3_1_rmvm_relatio.Kernel.Scoping.SelfRead.{
  self_reading, self_read_valid, Fails, self_read_rejected,
}
use cortex_v3_1_rmvm_relatio.Kernel.Sound.{plan_params}
use cortex_v3_1_rmvm_relatio.Kernel.Sound.Assertions.{IsGrounded}
use cortex_v3_1_rmvm_relatio.Kernel.Sound.Execution.{execute-IsGrounded}
use cortex_v3_1_rmvm_relatio.Planner.Guard.{validate_plan_against_manifest}
use cortex_v3_1_rmvm_relatio.Planner.Fallback.{
  assert_subject, fallback_plan, deterministic_plan_from_manifest,
}
use cortex_v3_1_rmvm_relatio.Planner.Fallback.Accepted.{fallback_accepted}
use cortex_v3_1_rmvm_relatio.Planner.Agreement.{validate_static-agrees}
use cortex_v3_1_rmvm_relatio.Examples.Inputs.{
  toy_floats, toy_regexes, toy_hashing, toy_laws, manifest,
}

abbrev plan : RmvmPlan
plan =
    fallback_plan "req-1" (assert_subject (Op.fetch (record { handle_ref = "H1" })) "meta.subject")

plan_falls_back : deterministic_plan_from_manifest "req-1" "user:demo" manifest ≡ ok plan
unfolding deterministic_plan_from_manifest
plan_falls_back = refl

fallback_accepted_example : validate_plan_against_manifest plan manifest ≡ ok tt
fallback_accepted_example = fallback_accepted "req-1" "user:demo" manifest plan plan_falls_back

abbrev assertion : String → VerifiedAssertion
assertion c = record {
  assertion_type = pos 2;
  fields = [];
  citations = record { anchor_digest = c } ∷ [];
}

abbrev three : List VerifiedAssertion
three = assertion "a" ∷ assertion "b" ∷ assertion "c" ∷ []

build_proof-total_example :
    (proof : AssertionMerkleProof) × (build_proof toy_hashing three ("0:r0:FETCH" ∷ []) ≡ ok proof)
    × (length proof.inclusion ≡ length three)
build_proof-total_example = build_proof-total toy_hashing toy_laws three ("0:r0:FETCH" ∷ [])

abbrev the_proof : AssertionMerkleProof
the_proof = build_proof-total_example.0

build_proof-verifies_example :
    (p : InclusionProof) × (get_elem? the_proof.inclusion 2 ≡ some p)
    × (p.assertion_index ≡ as_u32 2)
    × (recomputed_root toy_hashing 2 (assertion "c") p ≡ some the_proof.semantic_root)
build_proof-verifies_example =
    build_proof-verifies toy_hashing toy_laws three ("0:r0:FETCH" ∷ []) the_proof 2 (assertion "c")
      build_proof-total_example.1 refl

-- two fetches and a join of them
abbrev fetch_step : String → Step
fetch_step out = record { out = out; op = some (Op.fetch (record { handle_ref = "H1" })) }

abbrev join_step : Step
join_step = record {
  out = "r2";
  op = some (Op.join (record { left_reg = "r0"; right_reg = "r1"; edge_type = pos 4 }));
}

abbrev joining : RmvmPlan
joining = record {
  request_id = "req-1";
  steps = fetch_step "r0" ∷ fetch_step "r1" ∷ join_step ∷ [];
  outputs = [];
}

abbrev context : Context
context = context_of toy_floats manifest default_options

Valid : (p : RmvmPlan) → Type 0
Valid p = validate_static toy_floats manifest context.budget context.selectors_by_ref p ≡ ok tt

joining-Valid : Valid joining
unfolding Valid validate_static check_steps check_step check_op context_of normalize_budget ◌>>=◌
    ◌>>◌ contains Set.insert is_blank get insert
joining-Valid = refl

validate_static-agrees_example : validate_plan_against_manifest joining manifest ≡ ok tt
unfolding Valid context_of
validate_static-agrees_example =
    validate_static-agrees toy_floats manifest (normalize_budget toy_floats manifest.budget) joining
      joining-Valid

abbrev the_step : Step
the_step = record { out = "r"; op = some (Op.resolve (record { in_reg = "r"; policy_id = "" })) }

reads_itself : Valid (self_reading "r")
unfolding Valid normalize_budget is_blank
reads_itself = self_read_valid toy_floats manifest default_options "r" refl refl

self_read_rejected_example :
    Fails (exec_steps context start (self_reading "r").steps)
    × Fails (
        execute_plan toy_floats toy_hashing toy_regexes manifest (self_reading "r") default_options)
unfolding Valid contains
self_read_rejected_example =
    self_read_rejected toy_floats toy_hashing toy_regexes manifest (self_reading "r")
      default_options [] the_step [] reads_itself refl refl

joins :
    (es : ExecState) × (exec_steps context start joining.steps ≡ ok es)
    × (r : RegValue) × (get "r2" es.regs ≡ some r)
unfolding exec_steps exec_step exec_op exec_fetch exec_join context_of handles_index insert_all get
    insert as_handles join_left join_right include availability_from_i32 edge_type_from_i32
    normalize_budget ◌>>=◌ ◌>>◌
joins = (_, refl, _, refl)

join_depth-le-max_example : joins.2.join_depth ≤ context.budget.max_join_depth
unfolding Valid
join_depth-le-max_example =
    join_depth-le-max toy_floats manifest joining default_options joining.steps [] joins.0
      joining-Valid refl joins.1 "r2" joins.2 joins.3

fetches :
    (es : ExecState) × (exec_steps context start (fetch_step "r0" ∷ fetch_step "r1" ∷ []) ≡ ok es)
unfolding exec_steps exec_step exec_op exec_fetch context_of handles_index insert_all get insert
    availability_from_i32 ◌>>=◌ ◌>>◌
fetches = (_, refl)

reads_defined_example :
    (get "r2" fetches.0.regs ≡ none)
    × All (λ k. (same k "r2" || is_some (get k fetches.0.regs)) ≡ true) (step_reads join_step)
unfolding Valid
reads_defined_example =
    reads_defined toy_floats manifest joining default_options
      (fetch_step "r0" ∷ fetch_step "r1" ∷ []) join_step [] fetches.0 joining-Valid refl fetches.1

executed :
    (resp : ExecuteResponse) × (execute toy_floats toy_hashing toy_regexes
        (record { manifest = some manifest; plan = some plan })
        default_options
      ≡ some resp)
unfolding execute execute_inner execute_plan validate_static check_steps check_step check_op
    contains Set.insert Set.extend Set.union is_blank normalize_budget exec_steps exec_step exec_op
    exec_fetch exec_project exec_assert context_of handles_index insert_all get insert
    availability_from_i32 assertion_type_from_i32 trust_tier_from_i32 toy_hashing selectors_index
    handle_tier handle_taint handle_field extract_binding_value as_handles min_tier trust_rank
    assertion_requires_tier2 has_untrusted_taint project_handle project_first project_struct
    bind_fields bind_field gates is_broken cite_provenance cite_text cite_all canonicalize_citations
    build_proof leaves_of leaf_of merkle_root_and_inclusion levels_from inclusion_from siblings
    sib_idx next_level hash_pair sha256_hex canonical_assertion_hash canonical_assertion_bytes
    sort_by render_output verified_blocks output_blocks assertion_block reg_to_string
    narrative_blocks value_to_string as_bytes ◌>>=◌ ◌>>◌
executed = (_, refl)

execute-IsGrounded_example :
    All (IsGrounded default_options manifest.handles (plan_params plan.steps)) executed.0.assertions
execute-IsGrounded_example =
    execute-IsGrounded toy_floats toy_hashing toy_regexes manifest plan default_options executed.0
      executed.1

execute-kind_example : IsAnswer executed.0 ⊎ IsRefusal executed.0
execute-kind_example =
    execute-kind toy_floats toy_hashing toy_laws toy_regexes manifest plan default_options
      executed.0 executed.1
