-- ===== src/Kernel/Scoping/SelfRead.antt =====
-- A step that reads its own output. The check of a step comes after its output is declared, so that
-- a plan of one such step is statically valid.
use cortex_v3_1_rmvm_relatio.Base.{
  ◌≡◌, refl, true, false, String, List, [], ◌∷◌, ◌++◌, some, is_some, ltb, ok, err, arith, ◌>>=◌,
  ◌>>◌, >>=-eq-ok, >>-eq-ok,
}
use cortex_v3_1_rmvm_relatio.Base.{is_blank}
use cortex_v3_1_rmvm_relatio.Base.Order.{string_ord}
use cortex_v3_1_rmvm_relatio.BTree.Set.{contains}
use cortex_v3_1_rmvm_relatio.BTree.Set.Laws.{contains-insert_self}
use cortex_v3_1_rmvm_relatio.BTree.Map.{get}
use cortex_v3_1_rmvm_relatio.Proto.Float.{Floats, zero_f64, one_f64}
use cortex_v3_1_rmvm_relatio.Proto.Messages.{PublicManifest, Op, Step, RmvmPlan}
use cortex_v3_1_rmvm_relatio.Proto.Canonical.{Hashing}
use cortex_v3_1_rmvm_relatio.Kernel.Types.{ExecuteOptions, ExecStop, Exec}
use cortex_v3_1_rmvm_relatio.Kernel.Budget.{normalize_budget}
use cortex_v3_1_rmvm_relatio.Kernel.Static.{check_steps, check_step, check_op, validate_static}
use cortex_v3_1_rmvm_relatio.Kernel.Scoping.{step_reads}
use cortex_v3_1_rmvm_relatio.Kernel.Scoping.Found.{
  exec_step-defined, All-contains, exec_steps-append,
}
use cortex_v3_1_rmvm_relatio.Kernel.Scoping.Runs.{reads_defined}
use cortex_v3_1_rmvm_relatio.Kernel.Render.{Regexes}
use cortex_v3_1_rmvm_relatio.Kernel.Execute.{context_of, ExecState, start, exec_steps, execute_plan}

abbrev pub self_reading : String → RmvmPlan
self_reading r = record {
  request_id = "";
  steps = record { out = r; op = some (Op.resolve (record { in_reg = r; policy_id = "" })) } ∷ [];
  outputs = [];
}

module _ (fl : Floats) (manifest : PublicManifest) (opts : ExecuteOptions) where
  one_op_allowed : ltb (normalize_budget fl manifest.budget).max_ops 1 ≡ false
  unfolding normalize_budget
  one_op_allowed = ground arith

  module _ (r : String) (named : is_blank r ≡ false)
      (cheap : fl.gt (fl.add zero_f64 one_f64) (normalize_budget fl manifest.budget).max_total_cost
        ≡ false) where
    pub self_read_valid :
        validate_static fl manifest
          (context_of fl manifest opts).budget
          (context_of fl manifest opts).selectors_by_ref
          (self_reading r)
        ≡ ok tt
    unfolding validate_static check_steps check_step check_op context_of ◌>>=◌ ◌>>◌ contains
    self_read_valid = rw (one_op_allowed, named, contains-insert_self r [], cheap)

abbrev pub Fails {ℓ} : {A : Type ℓ} → Exec A → Type ℓ
Fails {A = A} m = (stop : ExecStop) × (m ≡ err stop)

Fails-unless_ok {ℓ} : {A : Type ℓ} (m : Exec A) → ((a : A) → m ≡ ok a → ⊥) → Fails m
Fails-unless_ok (ok a) never = absurd (never a refl)
Fails-unless_ok (err stop) never = (stop, refl)

module _ (fl : Floats) (h : Hashing) (re : Regexes) (manifest : PublicManifest) (plan : RmvmPlan)
    (opts : ExecuteOptions) where
  -- When a plan passes the static checks and one of its steps, wherever it stands and whatever its
  -- operation, reads the register that the step itself defines, the loop over the steps has no
  -- result but stops with an error, a stall or a panic, and so does execute_plan.
  pub self_read_rejected :
      (before : List Step) (step : Step) (after : List Step)
      → validate_static fl manifest
          (context_of fl manifest opts).budget
          (context_of fl manifest opts).selectors_by_ref
          plan
        ≡ ok tt
      → plan.steps ≡ before ++ step ∷ after
      → contains step.out (step_reads step) ≡ true
      → Fails (exec_steps (context_of fl manifest opts) start plan.steps)
        × Fails (execute_plan fl h re manifest plan opts)
  unfolding execute_plan exec_steps
  self_read_rejected before step after valid split reads =
      let c = context_of fl manifest opts in
      let never : (es : ExecState) → exec_steps c start plan.steps ≡ ok es → ⊥ = λ es ran.
        let (mid, first, rest) =
          exec_steps-append c start before (step ∷ after) (rw split at ran) in
        let (next, one, others) = >>=-eq-ok _ _ rest in
        let (new, scoped) =
          reads_defined fl manifest plan opts before step after mid valid split first in
        let known =
          All-contains (λ k. is_some (get k mid.regs) ≡ true) step.out (step_reads step)
            (exec_step-defined c mid step one) reads in
        cc in
      (
        Fails-unless_ok _ never,
        Fails-unless_ok _ (λ done ran.
            let (same_id, p1) = >>-eq-ok _ _ ran in
            let (checked, p2) = >>-eq-ok _ _ p1 in
            let (es, steps, p3) = >>=-eq-ok _ _ p2 in never es steps),
      )
