-- ===== src/Kernel/Scoping/Found.antt =====
-- A step that succeeds has found every register that it reads.
use cortex_v3_1_rmvm_relatio.Base.{
  ℕ, ◌≡◌, refl, ◌∙◌, true, String, List, [], ◌∷◌, ◌++◌, Option, some, is_some, map, All, ok, arith,
  >>=-eq-ok, >>=-of-ok, >>-eq-ok, ok_or-eq-ok,
}
use cortex_v3_1_rmvm_relatio.Base.Order.{string_ord}
use cortex_v3_1_rmvm_relatio.BTree.Set.{contains}
use cortex_v3_1_rmvm_relatio.BTree.Map.{Map, get, values}
use cortex_v3_1_rmvm_relatio.Proto.Messages.{ValueRef, Op, Step, VerifiedAssertion}
use cortex_v3_1_rmvm_relatio.Kernel.Types.{RegValue, Regs}
use cortex_v3_1_rmvm_relatio.Kernel.Assert.{Bound, unbound, bind_field, bind_fields, exec_assert}
use cortex_v3_1_rmvm_relatio.Kernel.Scoping.{op_reads, step_reads}
use cortex_v3_1_rmvm_relatio.Kernel.Scoping.Inputs.{
  OfInput, resolve-depth, filter-depth, project-depth, join-depth,
}
use cortex_v3_1_rmvm_relatio.Kernel.Scoping.Steps.{only_reg-eq-ok}
use cortex_v3_1_rmvm_relatio.Kernel.Execute.{Context, exec_op, ExecState, exec_step, exec_steps}

is_some_of : (o : Option RegValue) {r : RegValue} → o ≡ some r → is_some o ≡ true
is_some_of o e = rw e refl

OfInput-defined :
    (k : String) (regs : Regs) {depth : ℕ} → OfInput k regs depth → is_some (get k regs) ≡ true
OfInput-defined k regs (input, got, same_depth) = is_some_of _ got

bindings-defined :
    (regs : Regs) (acc : Bound) (bindings : Map String ValueRef) {b : Bound}
    → bind_fields regs acc bindings ≡ ok b
    → All (λ k. is_some (get k regs) ≡ true) (map (λ (v : ValueRef). v.reg) (values bindings))
unfolding bind_fields bind_field
bindings-defined regs acc [] p = tt
bindings-defined regs acc ((name, v) ∷ rest) p =
    let (acc', bound, p1) = >>=-eq-ok {A = Bound} _ _ p in
    let (reg, got, p2) = >>=-eq-ok {A = RegValue} _ _ bound in
    (is_some_of _ (ok_or-eq-ok _ _ got), bindings-defined regs acc' rest p1)

-- an operation that succeeds has found every register that it reads
exec_op-defined :
    (c : Context) (regs : Regs) (op : Op) {res : RegValue × List VerifiedAssertion}
    → exec_op c regs op ≡ ok res
    → All (λ k. is_some (get k regs) ≡ true) (op_reads op)
unfolding exec_op exec_assert
exec_op-defined c regs (Op.fetch f) q = tt
exec_op-defined c regs (Op.apply_selector a) q = tt
exec_op-defined c regs (Op.resolve o) q =
    (OfInput-defined _ regs (resolve-depth o regs (only_reg-eq-ok _ q)), tt)
exec_op-defined c regs (Op.filter o) q =
    (OfInput-defined _ regs (filter-depth o regs _ (only_reg-eq-ok _ q)), tt)
exec_op-defined c regs (Op.project o) q =
    (OfInput-defined _ regs (project-depth o regs (only_reg-eq-ok _ q)), tt)
exec_op-defined c regs (Op.join o) q =
    let (left, right, gotl, gotr, e) = join-depth o regs _ (only_reg-eq-ok _ q) in
    (is_some_of _ gotl, (is_some_of _ gotr, tt))
exec_op-defined c regs (Op.assert_op o) q =
    let (out, asserted, q1) = >>=-eq-ok _ _ q in
    let (known, p1) = >>-eq-ok _ _ asserted in
    let (b, bound, p2) = >>=-eq-ok {A = Bound} _ _ p1 in
    bindings-defined regs unbound o.bindings bound

pub exec_step-defined :
    (c : Context) (es : ExecState) (step : Step) {es' : ExecState}
    → exec_step c es step ≡ ok es'
    → All (λ k. is_some (get k es.regs) ≡ true) (step_reads step)
unfolding exec_step
exec_step-defined c es step q =
    let (op, has_op, q1) = >>=-eq-ok _ _ q in
    let ((result, added), done, q2) = >>=-eq-ok _ _ q1 in
    let same_op = ok_or-eq-ok step.op _ has_op in rw same_op (exec_op-defined c es.regs op done)

pub All-contains :
    (P : String → Type 0) (k : String) (s : List String) → All P s → contains k s ≡ true → P k
unfolding contains
All-contains P k [] h e = cc
All-contains P k (x ∷ s) h e = ground (arith, All-contains P k s, string_ord.eq_of_cmp k x)

pub exec_steps-append :
    (c : Context) (st : ExecState) (xs ys : List Step) {st' : ExecState}
    → exec_steps c st (xs ++ ys) ≡ ok st'
    → (mid : ExecState) × (exec_steps c st xs ≡ ok mid) × (exec_steps c mid ys ≡ ok st')
unfolding exec_steps
exec_steps-append c st [] ys p = (st, refl, p)
exec_steps-append c st (x ∷ xs) ys p =
    let (st1, one, p1) = >>=-eq-ok _ _ p in
    let (mid, first, second) = exec_steps-append c st1 xs ys p1 in
    (mid, >>=-of-ok _ one ∙ first, second)
