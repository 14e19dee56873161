-- ===== src/Kernel/Sound/Execution.antt =====
-- The loop over the steps keeps every register sound and every assertion grounded.
use cortex_v3_1_rmvm_relatio.Base.{
  ◌≡◌, refl, subst, List, [], ◌∷◌, some, All, All-append, All-append_left, All-append_right,
  All-Listed, Listed, ok, err, ◌>>=◌, >>=-eq-ok, >>-eq-ok, ok_or-eq-ok, ok-injective,
}
use mathlib.Core.Option.{some-injective}
use cortex_v3_1_rmvm_relatio.Base.Order.{string_ord, int_ord}
use cortex_v3_1_rmvm_relatio.BTree.Map.Laws.{insert-AllValues, AllValues}
use cortex_v3_1_rmvm_relatio.Proto.Float.{Floats}
use cortex_v3_1_rmvm_relatio.Proto.Messages.{
  PublicManifest, Value, Op, Step, RmvmPlan, VerifiedAssertion, ExecuteResponse,
}
use cortex_v3_1_rmvm_relatio.Proto.Canonical.{Hashing}
use cortex_v3_1_rmvm_relatio.Kernel.Types.{ExecuteOptions, ExecStop, RegValue, Regs, Exec}
use cortex_v3_1_rmvm_relatio.Kernel.Render.{Regexes}
use cortex_v3_1_rmvm_relatio.Kernel.Execute.{
  context_of, ExecState, start, only_reg, exec_op, exec_step, exec_steps, Executed, execute_plan,
  execute_inner, response_of, execute,
}
use cortex_v3_1_rmvm_relatio.Kernel.Sound.{IsSound, op_params, step_params, plan_params}
use cortex_v3_1_rmvm_relatio.Kernel.Sound.Fetching.{fetch-IsSound}
use cortex_v3_1_rmvm_relatio.Kernel.Sound.Select.{apply-IsSound}
use cortex_v3_1_rmvm_relatio.Kernel.Sound.Registers.{resolve-IsSound, filter-IsSound, join-IsSound}
use cortex_v3_1_rmvm_relatio.Kernel.Sound.Projections.{project-IsSound}
use cortex_v3_1_rmvm_relatio.Kernel.Sound.Assertions.{IsGrounded, assert-AssertSound}

module _ (fl : Floats) (manifest : PublicManifest) (opts : ExecuteOptions)
    (params : List Value) where
  record OpSound (r : RegValue) (added : List VerifiedAssertion) : Type 0 where
    register : IsSound manifest.handles params r
    assertions : All (IsGrounded opts manifest.handles params) added

  only_reg-OpSound :
      (m : Exec RegValue) {out : RegValue × List VerifiedAssertion}
      → only_reg m ≡ ok out
      → ((r : RegValue) → m ≡ ok r → IsSound manifest.handles params r)
      → OpSound out.0 out.1
  only_reg-OpSound m p sound =
      let (r, e, p1) = >>=-eq-ok _ _ p in
      subst (λ (o : RegValue × List VerifiedAssertion). OpSound o.0 o.1) (ok-injective p1)
        (record { register = sound r e; assertions = tt })

  exec_op-OpSound :
      (regs : Regs) (op : Op) {out : RegValue × List VerifiedAssertion}
      → exec_op (context_of fl manifest opts) regs op ≡ ok out
      → All (λ v. Listed v params) (op_params op)
      → AllValues (IsSound manifest.handles params) regs
      → OpSound out.0 out.1
  unfolding exec_op context_of
  exec_op-OpSound regs (Op.fetch f) p l s =
      only_reg-OpSound _ p (λ r e. fetch-IsSound manifest.handles params f opts e)
  exec_op-OpSound regs (Op.apply_selector a) p l s =
      only_reg-OpSound _ p (λ r e. apply-IsSound manifest params a _ _ e l)
  exec_op-OpSound regs (Op.resolve o) p l s =
      only_reg-OpSound _ p (λ r e. resolve-IsSound manifest.handles params o regs e s)
  exec_op-OpSound regs (Op.filter o) p l s =
      only_reg-OpSound _ p (λ r e. filter-IsSound manifest.handles params o regs _ e s)
  exec_op-OpSound regs (Op.join o) p l s =
      only_reg-OpSound _ p (λ r e. join-IsSound manifest.handles params o regs _ e s)
  exec_op-OpSound regs (Op.project o) p l s =
      only_reg-OpSound _ p (λ r e. project-IsSound manifest.handles params o regs e s)
  exec_op-OpSound regs (Op.assert_op o) p l s =
      let (out, e, p1) = >>=-eq-ok {A = RegValue × VerifiedAssertion} _ _ p in
      let a = assert-AssertSound opts manifest.handles params o regs e s in
      subst (λ (o : RegValue × List VerifiedAssertion). OpSound o.0 o.1) (ok-injective p1)
        (record { register = a.register; assertions = (a.assertion, tt) })

  record StateSound (st : ExecState) : Type 0 where
    registers : AllValues (IsSound manifest.handles params) st.regs
    assertions : All (IsGrounded opts manifest.handles params) st.assertions

  exec_step-StateSound :
      (st : ExecState) (step : Step) {st' : ExecState}
      → exec_step (context_of fl manifest opts) st step ≡ ok st'
      → All (λ v. Listed v params) (step_params step)
      → StateSound st
      → StateSound st'
  unfolding exec_step
  exec_step-StateSound st step {st'} p l s =
      let (op, has, p1) = >>=-eq-ok _ _ p in
      let (out, ran, p2) = >>=-eq-ok {A = RegValue × List VerifiedAssertion} _ _ p1 in
      let named : step.op ≡ some op = ok_or-eq-ok _ _ has in
      let l' : All (λ v. Listed v params) (op_params op) = rw named at l in
      let o = exec_op-OpSound st.regs op ran l' s.registers in
      subst StateSound (ok-injective p2) (record {
        registers = insert-AllValues _ step.out out.0 st.regs o.register s.registers;
        assertions = All-append _ st.assertions out.1 s.assertions o.assertions;
      })

  exec_steps-StateSound :
      (st : ExecState) (steps : List Step) {st' : ExecState}
      → exec_steps (context_of fl manifest opts) st steps ≡ ok st'
      → All (λ v. Listed v params) (plan_params steps)
      → StateSound st
      → StateSound st'
  unfolding exec_steps
  exec_steps-StateSound st [] p l s = subst StateSound (ok-injective p) s
  exec_steps-StateSound st (step ∷ rest) p l s =
      let (st1, one, p1) = >>=-eq-ok _ _ p in
      exec_steps-StateSound st1 rest p1 (All-append_right _ (step_params step) (plan_params rest) l)
        (exec_step-StateSound st step one
          (All-append_left _ (step_params step) (plan_params rest) l) s)

-- a response carries the assertions of the execution, or none
pub response_of-assertions :
    (P : List VerifiedAssertion → Type 0)
    → P []
    → (m : Exec Executed) {resp : ExecuteResponse} → response_of m ≡ some resp
    → ((done : Executed) → m ≡ ok done → P done.assertions)
    → P resp.assertions
response_of-assertions P z (ok done) e good =
    subst (λ (r : ExecuteResponse). P r.assertions) (some-injective _ _ e) (good done refl)
response_of-assertions P z (err (ExecStop.stall info)) e good =
    subst (λ (r : ExecuteResponse). P r.assertions) (some-injective _ _ e) z
response_of-assertions P z (err (ExecStop.failure f)) e good =
    subst (λ (r : ExecuteResponse). P r.assertions) (some-injective _ _ e) z
response_of-assertions P z (err (ExecStop.panic message)) e good = cc

module _ (fl : Floats) (h : Hashing) (re : Regexes) where
  execute_plan-IsGrounded :
      (manifest : PublicManifest) (plan : RmvmPlan) (opts : ExecuteOptions) {done : Executed}
      → execute_plan fl h re manifest plan opts ≡ ok done
      → All (IsGrounded opts manifest.handles (plan_params plan.steps)) done.assertions
  unfolding execute_plan
  execute_plan-IsGrounded manifest plan opts p =
      let (ids, p1) = >>-eq-ok _ _ p in
      let (valid, p2) = >>-eq-ok _ _ p1 in
      let (st, ran, p3) = >>=-eq-ok {A = ExecState} _ _ p2 in
      let (proof, built, p4) = >>=-eq-ok _ _ p3 in
      let (rendered, shown, p5) = >>=-eq-ok _ _ p4 in
      let params = plan_params plan.steps in
      let s =
        exec_steps-StateSound fl manifest opts params start plan.steps ran (All-Listed params)
          (record { registers = tt; assertions = tt }) in
      subst (λ (d : Executed). All (IsGrounded opts manifest.handles params) d.assertions)
        (ok-injective p5) s.assertions

  -- Every value in every assertion of a response comes from a field of a handle of the manifest, from
  -- a count, or from a parameter that the plan itself supplies to a selector. A handle that is read
  -- has no broken lineage, unless the kernel runs degraded; and if the assertion's type impacts
  -- policy, the handle is verified (tier 2 or above) and carries no taint of the untrusted web.
  pub execute-IsGrounded :
      (manifest : PublicManifest) (plan : RmvmPlan) (opts : ExecuteOptions) (resp : ExecuteResponse)
      → execute fl h re (record { manifest = some manifest; plan = some plan }) opts ≡ some resp
      → All (IsGrounded opts manifest.handles (plan_params plan.steps)) resp.assertions
  unfolding execute execute_inner ◌>>=◌
  execute-IsGrounded manifest plan opts resp p =
      response_of-assertions (All (IsGrounded opts manifest.handles (plan_params plan.steps))) tt
        (execute_plan fl h re manifest plan opts) p
        (λ done e. execute_plan-IsGrounded manifest plan opts e)
