-- ===== src/Kernel/Scoping/Inputs.antt =====
-- The join depth of the register that an operation gives, from the registers that it reads.
use cortex_v3_1_rmvm_relatio.Base.{
  ℕ, ◌+◌, max, ◌≡◌, ap, sym, String, some, inl, inr, Bool-cases, ok, >>=-eq-ok, >>-eq-ok,
  ok_or-eq-ok, ok-injective,
}
use cortex_v3_1_rmvm_relatio.Base.Order.{string_ord}
use cortex_v3_1_rmvm_relatio.BTree.Map.{Map, get}
use cortex_v3_1_rmvm_relatio.Proto.Enums.{availability_from_i32}
use cortex_v3_1_rmvm_relatio.Proto.Messages.{
  HandleRef, SelectorRef, PublicManifest, OpFetch, OpApplySelector, OpResolve, OpFilter, OpJoin,
  OpProject, OpAssert, VerifiedAssertion,
}
use cortex_v3_1_rmvm_relatio.Kernel.Types.{ExecuteOptions, NormalizedBudget, RegValue, Regs}
use cortex_v3_1_rmvm_relatio.Kernel.Fetch.{exec_fetch, is_ready}
use cortex_v3_1_rmvm_relatio.Kernel.Selector.{exec_apply_selector}
use cortex_v3_1_rmvm_relatio.Kernel.Resolve.{exec_resolve}
use cortex_v3_1_rmvm_relatio.Kernel.Filter.{exec_filter}
use cortex_v3_1_rmvm_relatio.Kernel.Join.{exec_join}
use cortex_v3_1_rmvm_relatio.Kernel.Project.{exec_project}
use cortex_v3_1_rmvm_relatio.Kernel.Assert.{Bound, exec_assert}

pub fetch-depth :
    (f : OpFetch) (index : Map String HandleRef) (opts : ExecuteOptions) {r : RegValue}
    → exec_fetch f index opts ≡ ok r
    → r.join_depth ≡ 0
unfolding exec_fetch
fetch-depth f index opts p =
    let (h, got, e) = >>=-eq-ok {A = HandleRef} _ _ p in
    elim (Bool-cases (is_ready (availability_from_i32 h.availability))) [
      | inl ready ↦ sym (ap (λ (r : RegValue). r.join_depth) (ok-injective (rw ready at e)))
      | inr waiting ↦ elim (Bool-cases opts.allow_partial_on_stall) [
        | inl allowed ↦
            sym (ap (λ (r : RegValue). r.join_depth) (ok-injective (rw (waiting, allowed) at e)))
        | inr refused ↦ let n : ⊥ = cc (rw (waiting, refused) at e) in absurd n
      ]
    ]

pub apply-depth :
    (a : OpApplySelector) (manifest : PublicManifest) (index : Map String SelectorRef)
    (budget : NormalizedBudget) {r : RegValue}
    → exec_apply_selector a manifest index budget ≡ ok r
    → r.join_depth ≡ 0
unfolding exec_apply_selector
apply-depth a manifest index budget p =
    let (selector, got, p1) = >>=-eq-ok {A = SelectorRef} _ _ p in
    let (valid, p2) = >>-eq-ok _ _ p1 in
    let (fits, p3) = >>-eq-ok _ _ p2 in
    let (d, gives, p4) = >>=-eq-ok _ _ p3 in
    sym (ap (λ (r : RegValue). r.join_depth) (ok-injective p4))

abbrev pub OfInput : String → Regs → ℕ → Type 0
OfInput k regs depth = (input : RegValue) × (get k regs ≡ some input) × (depth ≡ input.join_depth)

pub resolve-depth :
    (o : OpResolve) (regs : Regs) {r : RegValue}
    → exec_resolve o regs ≡ ok r
    → OfInput o.in_reg regs r.join_depth
unfolding exec_resolve
resolve-depth o regs p =
    let (input, got, p1) = >>=-eq-ok _ _ p in
    let (hs, read, p2) = >>=-eq-ok _ _ p1 in
    let (best, won, p3) = >>=-eq-ok _ _ p2 in
    (input, ok_or-eq-ok _ _ got, sym (ap (λ (r : RegValue). r.join_depth) (ok-injective p3)))

pub filter-depth :
    (o : OpFilter) (regs : Regs) (budget : NormalizedBudget) {r : RegValue}
    → exec_filter o regs budget ≡ ok r
    → OfInput o.in_reg regs r.join_depth
unfolding exec_filter
filter-depth o regs budget p =
    let (input, got, p1) = >>=-eq-ok _ _ p in
    let (hs, read, p2) = >>=-eq-ok _ _ p1 in
    let (kept, passed, p3) = >>=-eq-ok _ _ p2 in
    let (fits, p4) = >>-eq-ok _ _ p3 in
    (input, ok_or-eq-ok _ _ got, sym (ap (λ (r : RegValue). r.join_depth) (ok-injective p4)))

pub project-depth :
    (o : OpProject) (regs : Regs) {r : RegValue}
    → exec_project o regs ≡ ok r
    → OfInput o.in_reg regs r.join_depth
unfolding exec_project
project-depth o regs p =
    let (input, got, p1) = >>=-eq-ok _ _ p in
    let (out, read, p2) = >>=-eq-ok _ _ p1 in
    (input, ok_or-eq-ok _ _ got, sym (ap (λ (r : RegValue). r.join_depth) (ok-injective p2)))

pub join-depth :
    (o : OpJoin) (regs : Regs) (budget : NormalizedBudget) {r : RegValue}
    → exec_join o regs budget ≡ ok r
    → (left : RegValue) × (right : RegValue) × (get o.left_reg regs ≡ some left)
      × (get o.right_reg regs ≡ some right)
      × (r.join_depth ≡ max left.join_depth right.join_depth + 1)
unfolding exec_join
join-depth o regs budget p =
    let (left, gotl, p1) = >>=-eq-ok _ _ p in
    let (right, gotr, p2) = >>=-eq-ok _ _ p1 in
    let (known, p3) = >>-eq-ok _ _ p2 in
    let (ls, readl, p4) = >>=-eq-ok _ _ p3 in
    let (rs, readr, p5) = >>=-eq-ok _ _ p4 in
    let (fits, p6) = >>-eq-ok _ _ p5 in
    (
      left,
      right,
      ok_or-eq-ok _ _ gotl,
      ok_or-eq-ok _ _ gotr,
      sym (ap (λ (r : RegValue). r.join_depth) (ok-injective p6)),
    )

pub assert-depth :
    (o : OpAssert) (regs : Regs) (opts : ExecuteOptions) {out : RegValue × VerifiedAssertion}
    → exec_assert o regs opts ≡ ok out
    → (out.0).join_depth ≡ 0
unfolding exec_assert
assert-depth o regs opts p =
    let (known, p1) = >>-eq-ok _ _ p in
    let (b, bindings, p2) = >>=-eq-ok {A = Bound} _ _ p1 in
    let (passed, p3) = >>-eq-ok _ _ p2 in
    let (citations, cited, p4) = >>=-eq-ok _ _ p3 in
    sym (ap (λ (o : RegValue × VerifiedAssertion). (o.0).join_depth) (ok-injective p4))
