-- ===== src/Kernel/Execute.antt =====
-- `execute`: static validation, the loop over the steps, the proof and the rendering.
pub mod Answer
use cortex_v3_1_rmvm_relatio.Base.{
  ℕ, ◌+◌, ◌&&◌, not, String, List, [], ◌∷◌, ◌++◌, Option, none, some, str_eq, show, format, ok, err,
  ◌>>=◌, ◌>>◌, ok_or, reject_if,
}
use cortex_v3_1_rmvm_relatio.Base.Order.{string_ord}
use cortex_v3_1_rmvm_relatio.BTree.Map.{Map, insert}
use cortex_v3_1_rmvm_relatio.Proto.Enums.{
  ExecutionStatus, ErrorCode, execution_status_as_i32, error_code_as_i32,
}
use cortex_v3_1_rmvm_relatio.Proto.Float.{Floats}
use cortex_v3_1_rmvm_relatio.Proto.Messages.{
  HandleRef, SelectorRef, PublicManifest, Op, Step, RmvmPlan, VerifiedAssertion,
  AssertionMerkleProof, RenderedOutput, ExecuteRequest, ExecuteResponse,
}
use cortex_v3_1_rmvm_relatio.Proto.Canonical.{Hashing}
use cortex_v3_1_rmvm_relatio.Kernel.Types.{
  ExecuteOptions, NormalizedBudget, RegValue, Regs, ExecStop, Exec, fail_rejected,
}
use cortex_v3_1_rmvm_relatio.Kernel.Budget.{normalize_budget, handles_index, selectors_index}
use cortex_v3_1_rmvm_relatio.Kernel.Static.{validate_static}
use cortex_v3_1_rmvm_relatio.Kernel.Fetch.{exec_fetch}
use cortex_v3_1_rmvm_relatio.Kernel.Selector.{exec_apply_selector}
use cortex_v3_1_rmvm_relatio.Kernel.Resolve.{exec_resolve}
use cortex_v3_1_rmvm_relatio.Kernel.Filter.{exec_filter}
use cortex_v3_1_rmvm_relatio.Kernel.Join.{exec_join}
use cortex_v3_1_rmvm_relatio.Kernel.Project.{exec_project}
use cortex_v3_1_rmvm_relatio.Kernel.Assert.{exec_assert}
use cortex_v3_1_rmvm_relatio.Kernel.Merkle.{build_proof}
use cortex_v3_1_rmvm_relatio.Kernel.Render.{Regexes, render_output}

-- what the loop computes with: the manifest, its indexes, the budget and the options
pub record Context : Type 0 where
  pub manifest : PublicManifest
  pub handles_by_ref : Map String HandleRef
  pub selectors_by_ref : Map String SelectorRef
  pub budget : NormalizedBudget
  pub options : ExecuteOptions

unfoldable pub context_of : Floats → PublicManifest → ExecuteOptions → Context
context_of fl manifest opts = record {
  manifest = manifest;
  handles_by_ref = handles_index manifest.handles;
  selectors_by_ref = selectors_index manifest.selectors;
  budget = normalize_budget fl manifest.budget;
  options = opts;
}

-- the variables of the loop over the steps; `idx` counts them
pub record ExecState : Type 0 where
  pub idx : ℕ
  pub regs : Regs
  pub assertions : List VerifiedAssertion
  pub trace_tokens : List String

abbrev pub start : ExecState
start = record { idx = 0; regs = []; assertions = []; trace_tokens = [] }

abbrev pub opname : Op → String
opname (Op.fetch _) = "FETCH"
opname (Op.apply_selector _) = "APPLY_SELECTOR"
opname (Op.resolve _) = "RESOLVE"
opname (Op.filter _) = "FILTER"
opname (Op.join _) = "JOIN"
opname (Op.project _) = "PROJECT"
opname (Op.assert_op _) = "ASSERT"

-- `push`
abbrev pub only_reg : Exec RegValue → Exec (RegValue × List VerifiedAssertion)
only_reg m = m >>= λ reg. ok (reg, [])

-- the register that an operation gives, and the assertion that it adds, if any
unfoldable pub exec_op : Context → Regs → Op → Exec (RegValue × List VerifiedAssertion)
exec_op c regs (Op.fetch f) = only_reg (exec_fetch f c.handles_by_ref c.options)
exec_op c regs (Op.apply_selector a) =
    only_reg (exec_apply_selector a c.manifest c.selectors_by_ref c.budget)
exec_op c regs (Op.resolve r) = only_reg (exec_resolve r regs)
exec_op c regs (Op.filter f) = only_reg (exec_filter f regs c.budget)
exec_op c regs (Op.join j) = only_reg (exec_join j regs c.budget)
exec_op c regs (Op.project p) = only_reg (exec_project p regs)
exec_op c regs (Op.assert_op a) = do
  (reg, assertion) ← exec_assert a regs c.options
  ok (reg, assertion ∷ [])

unfoldable pub exec_step : Context → ExecState → Step → Exec ExecState
exec_step c st step = do
  op ← ok_or step.op (fail_rejected ErrorCode.schema_violation "step missing op")
  (result, added) ← exec_op c st.regs op
  ok (record {
    idx = st.idx + 1;
    regs = insert step.out result st.regs;
    assertions = st.assertions ++ added;
    trace_tokens =
        st.trace_tokens ++ format (show st.idx ∷ ":" ∷ step.out ∷ ":" ∷ opname op ∷ []) ∷ [];
  })

unfoldable pub exec_steps : Context → ExecState → List Step → Exec ExecState
exec_steps c st [] = ok st
exec_steps c st (step ∷ rest) = do st' ← exec_step c st step; exec_steps c st' rest

-- the result of `execute_inner`
pub record Executed : Type 0 where
  pub assertions : List VerifiedAssertion
  pub proof : AssertionMerkleProof
  pub rendered : RenderedOutput

-- `none` stands for a panic
abbrev pub response_of : Exec Executed → Option ExecuteResponse
response_of (ok done) = some (record {
  status = execution_status_as_i32 ExecutionStatus.ok;
  assertions = done.assertions;
  proof = some done.proof;
  rendered = some done.rendered;
  stall = none;
  error = none;
})
response_of (err (ExecStop.stall info)) = some (record {
  status = execution_status_as_i32 ExecutionStatus.stall;
  assertions = [];
  proof = none;
  rendered = none;
  stall = some info;
  error = none;
})
response_of (err (ExecStop.failure f)) = some (record {
  status = execution_status_as_i32 f.status;
  assertions = [];
  proof = none;
  rendered = none;
  stall = none;
  error = some (record { code = error_code_as_i32 f.code; message = f.message; hints = f.hints });
})
response_of (err (ExecStop.panic message)) = none

module _ (fl : Floats) (h : Hashing) (re : Regexes) where
  unfoldable pub execute_plan : PublicManifest → RmvmPlan → ExecuteOptions → Exec Executed
  execute_plan manifest plan opts = do
    reject_if
        (not (str_eq manifest.request_id "")
          && not (str_eq plan.request_id "")
          && not (str_eq manifest.request_id plan.request_id))
        (fail_rejected ErrorCode.schema_violation "manifest and plan request_id mismatch")
    let c = context_of fl manifest opts
    validate_static fl manifest c.budget c.selectors_by_ref plan
    st ← exec_steps c start plan.steps
    proof ← build_proof h st.assertions st.trace_tokens
    rendered ← render_output fl re plan.outputs st.regs st.assertions opts
    ok (record { assertions = st.assertions; proof = proof; rendered = rendered })

  unfoldable pub execute_inner : ExecuteRequest → ExecuteOptions → Exec Executed
  execute_inner req opts = do
    manifest ← ok_or req.manifest (fail_rejected ErrorCode.schema_violation "missing manifest")
    plan ← ok_or req.plan (fail_rejected ErrorCode.schema_violation "missing plan")
    execute_plan manifest plan opts

  -- `none` where the call panics
  unfoldable pub execute : ExecuteRequest → ExecuteOptions → Option ExecuteResponse
  execute req opts = response_of (execute_inner req opts)
