-- ===== src/Kernel/Scoping/Runs.antt =====
-- Every state that the loop over the steps of a validated plan reaches.
use cortex_v3_1_rmvm_relatio.Base.{
  ◌≤◌, ◌≡◌, refl, ◌∙◌, subst, true, false, ◌||◌, String, List, [], ◌∷◌, ◌++◌, Option, none, some,
  is_some, All, All-imp, arith, ok, >>=-eq-ok, >>=-of-ok, >>-eq-ok, ok-injective,
}
use cortex_v3_1_rmvm_relatio.Base.Order.{string_ord}
use cortex_v3_1_rmvm_relatio.BTree.Set.{contains}
use cortex_v3_1_rmvm_relatio.BTree.Set.Laws.{same, contains-insert}
use cortex_v3_1_rmvm_relatio.BTree.Map.{get}
use cortex_v3_1_rmvm_relatio.Proto.Float.{Floats}
use cortex_v3_1_rmvm_relatio.Proto.Messages.{PublicManifest, Step, RmvmPlan}
use cortex_v3_1_rmvm_relatio.Kernel.Types.{ExecuteOptions, RegValue, Exec}
use cortex_v3_1_rmvm_relatio.Kernel.Static.{StaticState, initial, check_steps, validate_static}
use cortex_v3_1_rmvm_relatio.Kernel.Execute.{Context, context_of, ExecState, start, exec_steps}
use cortex_v3_1_rmvm_relatio.Kernel.Scoping.{Agree, step_reads}
use cortex_v3_1_rmvm_relatio.Kernel.Scoping.Steps.{Agree-step, check_step-scope}

none_of_is_some : (o : Option RegValue) → is_some o ≡ false → o ≡ none
none_of_is_some none h = refl
none_of_is_some (some r) h = cc

module _ (fl : Floats) (c : Context) where
  abbrev check_all : StaticState → List Step → Exec StaticState
  check_all = check_steps fl c.manifest c.budget c.selectors_by_ref

  check_steps-append :
      (st : StaticState) (xs ys : List Step) {st' : StaticState}
      → check_all st (xs ++ ys) ≡ ok st'
      → (mid : StaticState) × (check_all st xs ≡ ok mid) × (check_all mid ys ≡ ok st')
  unfolding check_steps
  check_steps-append st [] ys p = (st, refl, p)
  check_steps-append st (x ∷ xs) ys p =
      let (st1, one, p1) = >>=-eq-ok _ _ p in
      let (mid, first, second) = check_steps-append st1 xs ys p1 in
      (mid, >>=-of-ok _ one ∙ first, second)

  Agree-steps :
      (st : StaticState) (es : ExecState) (steps : List Step) {st' : StaticState} {es' : ExecState}
      → check_all st steps ≡ ok st'
      → exec_steps c es steps ≡ ok es'
      → Agree c.budget st es.regs
      → Agree c.budget st' es'.regs
  unfolding check_steps exec_steps
  Agree-steps st es [] {es' = es'} p q a =
      subst (λ (s : StaticState). Agree c.budget s es'.regs) (ok-injective p)
        (subst (λ (s : ExecState). Agree c.budget st s.regs) (ok-injective q) a)
  Agree-steps st es (x ∷ xs) p q a =
      let (st1, one, p1) = >>=-eq-ok _ _ p in
      let (es1, two, q1) = >>=-eq-ok _ _ q in
      Agree-steps st1 es1 xs p1 q1 (Agree-step fl c st es x one two a)

  Agree-start : Agree c.budget initial []
  unfolding contains get
  Agree-start = record {
    defined = λ k. refl;
    depths = λ k r e. cc;
    undeclared = λ k n. refl;
    bounded = λ k. omega arith;
  }

  -- a run of the first steps of a plan whose steps pass the checks
  Reached : List Step → List Step → ExecState → Type 0
  Reached before after es =
      (st : StaticState) × (last : StaticState) × Agree c.budget st es.regs
      × (check_all st after ≡ ok last)

  reached :
      (before after : List Step) {last : StaticState} {es : ExecState}
      → check_all initial (before ++ after) ≡ ok last
      → exec_steps c start before ≡ ok es
      → Reached before after es
  unfolding Reached
  reached before after {last} p q =
      let (st, first, second) = check_steps-append initial before after p in
      (st, last, Agree-steps initial start before first q Agree-start, second)

module _ (fl : Floats) (manifest : PublicManifest) (plan : RmvmPlan) (opts : ExecuteOptions) where
  abbrev pub context : Context
  context = context_of fl manifest opts

  validated :
      validate_static fl manifest context.budget context.selectors_by_ref plan ≡ ok tt
      → (last : StaticState) × (check_steps fl manifest context.budget context.selectors_by_ref
            initial plan.steps
          ≡ ok last)
  unfolding validate_static
  validated p =
      let (few, p1) = >>-eq-ok _ _ p in let (last, checks, p2) = >>=-eq-ok _ _ p1 in (last, checks)

  module _ (before after : List Step) (es : ExecState)
      (valid : validate_static fl manifest context.budget context.selectors_by_ref plan ≡ ok tt)
      (split : plan.steps ≡ before ++ after) (ran : exec_steps context start before ≡ ok es) where
    -- In every state that the execution of a statically valid plan reaches, each register was built
    -- by at most as many joins, one upon the other, as the budget allows.
    pub join_depth-le-max :
        (k : String) (r : RegValue)
        → get k es.regs ≡ some r
        → r.join_depth ≤ context.budget.max_join_depth
    unfolding context_of Reached
    join_depth-le-max k r e =
        let (last, checks) = validated valid in
        let (st, end, a, rest) = reached fl context before after (rw split at checks) ran in
        rw (a.depths k r e) (a.bounded k)

  module _ (before : List Step) (step : Step) (after : List Step) (es : ExecState)
      (valid : validate_static fl manifest context.budget context.selectors_by_ref plan ≡ ok tt)
      (split : plan.steps ≡ before ++ step ∷ after)
      (ran : exec_steps context start before ≡ ok es) where
    -- When the execution of a statically valid plan comes to a step, the step's output is not yet a
    -- register, so that none is ever overwritten; and each register that the step reads is defined,
    -- unless it is the step's own output.
    pub reads_defined :
        (get step.out es.regs ≡ none)
        × All (λ k. (same k step.out || is_some (get k es.regs)) ≡ true) (step_reads step)
    unfolding context_of Reached check_steps
    reads_defined =
        let (last, checks) = validated valid in
        let (st, end, a, rest) =
          reached fl context before (step ∷ after) (rw split at checks) ran in
        let (st1, one, p1) = >>=-eq-ok _ _ rest in
        let (unused, reads) = check_step-scope fl context st step one in
        (
          none_of_is_some (get step.out es.regs) (a.defined step.out ∙ unused),
          All-imp (λ k h. ground (arith, contains-insert step.out k st.declared, a.defined k))
              (step_reads step) reads,
        )
