-- ===== src/Kernel/Execute/Answer.antt =====
-- The two kinds of response: an answer with its proof, or a refusal that asserts nothing.
use cortex_v3_1_rmvm_relatio.Base.{
  ◌≡◌, refl, sym, subst, ◌∙◌, ◌⊎◌, inl, inr, true, not, [], none, some, is_some, length, ok, err,
  ◌>>=◌, >>=-eq-ok, >>-eq-ok, ok-injective,
}
use mathlib.Core.Option.{some-injective}
use cortex_v3_1_rmvm_relatio.Proto.Enums.{ExecutionStatus, execution_status_as_i32}
use cortex_v3_1_rmvm_relatio.Proto.Float.{Floats}
use cortex_v3_1_rmvm_relatio.Proto.Messages.{
  PublicManifest, RmvmPlan, AssertionMerkleProof, ExecuteResponse,
}
use cortex_v3_1_rmvm_relatio.Proto.Canonical.{Hashing}
use cortex_v3_1_rmvm_relatio.Kernel.Types.{ExecuteOptions, ExecStop, Exec}
use cortex_v3_1_rmvm_relatio.Kernel.Merkle.Paths.{HashingLaws}
use cortex_v3_1_rmvm_relatio.Kernel.Merkle.Built.{build_proof-total}
use cortex_v3_1_rmvm_relatio.Kernel.Render.{Regexes}
use cortex_v3_1_rmvm_relatio.Kernel.Execute.{
  ExecState, Executed, execute_plan, execute_inner, response_of, execute,
}

-- assertions under a proof that includes each of them
pub record IsAnswer (resp : ExecuteResponse) : Type 0 where
  pub status : resp.status ≡ execution_status_as_i32 ExecutionStatus.ok
  pub proof : AssertionMerkleProof
  pub carried : resp.proof ≡ some proof
  pub included : length proof.inclusion ≡ length resp.assertions
  pub rendered : is_some resp.rendered ≡ true
  pub no_stall : resp.stall ≡ none
  pub no_error : resp.error ≡ none

-- nothing asserted, proved or rendered, and either an error or a stall that says why
pub record IsRefusal (resp : ExecuteResponse) : Type 0 where
  pub no_assertions : resp.assertions ≡ []
  pub no_proof : resp.proof ≡ none
  pub not_rendered : resp.rendered ≡ none
  pub reason : is_some resp.error ≡ not (is_some resp.stall)

response_of-kind :
    (m : Exec Executed) {resp : ExecuteResponse}
    → response_of m ≡ some resp
    → ((done : Executed) → m ≡ ok done → length done.proof.inclusion ≡ length done.assertions)
    → IsAnswer resp ⊎ IsRefusal resp
response_of-kind (ok done) e counted =
    subst (λ (r : ExecuteResponse). IsAnswer r ⊎ IsRefusal r) (some-injective _ _ e)
      (inl (record {
        status = refl;
        proof = done.proof;
        carried = refl;
        included = counted done refl;
        rendered = refl;
        no_stall = refl;
        no_error = refl;
      }))
response_of-kind (err (ExecStop.stall info)) e counted =
    subst (λ (r : ExecuteResponse). IsAnswer r ⊎ IsRefusal r) (some-injective _ _ e)
      (inr (record { no_assertions = refl; no_proof = refl; not_rendered = refl; reason = refl }))
response_of-kind (err (ExecStop.failure f)) e counted =
    subst (λ (r : ExecuteResponse). IsAnswer r ⊎ IsRefusal r) (some-injective _ _ e)
      (inr (record { no_assertions = refl; no_proof = refl; not_rendered = refl; reason = refl }))
response_of-kind (err (ExecStop.panic message)) e counted = cc

module _ (fl : Floats) (h : Hashing) (laws : HashingLaws h) (re : Regexes) where
  execute_plan-counted :
      (manifest : PublicManifest) (plan : RmvmPlan) (opts : ExecuteOptions) (done : Executed)
      → execute_plan fl h re manifest plan opts ≡ ok done
      → length done.proof.inclusion ≡ length done.assertions
  unfolding execute_plan
  execute_plan-counted manifest plan opts done p =
      let (ids, p1) = >>-eq-ok _ _ p in
      let (checked, p2) = >>-eq-ok _ _ p1 in
      let (st, ran, p3) = >>=-eq-ok {A = ExecState} _ _ p2 in
      let (proof, built, p4) = >>=-eq-ok _ _ p3 in
      let (rendered, shown, p5) = >>=-eq-ok _ _ p4 in
      let (proof', again, count) = build_proof-total h laws st.assertions st.trace_tokens in
      let same : proof' ≡ proof = ok-injective (sym again ∙ built) in
      subst (λ (d : Executed). length d.proof.inclusion ≡ length d.assertions) (ok-injective p5)
        (subst (λ (q : AssertionMerkleProof). length q.inclusion ≡ length st.assertions) same count)

  -- For hash and hex functions that keep their documented laws, a response to a manifest and a plan is
  -- either an answer, with the status OK, a rendering, and a proof that holds one inclusion proof for
  -- each assertion; or a refusal, which asserts, proves and renders nothing, and carries an error or a
  -- stall but not both.
  pub execute-kind :
      (manifest : PublicManifest) (plan : RmvmPlan) (opts : ExecuteOptions) (resp : ExecuteResponse)
      → execute fl h re (record { manifest = some manifest; plan = some plan }) opts ≡ some resp
      → IsAnswer resp ⊎ IsRefusal resp
  unfolding execute execute_inner ◌>>=◌
  execute-kind manifest plan opts resp p =
      response_of-kind (execute_plan fl h re manifest plan opts) p
        (execute_plan-counted manifest plan opts)
