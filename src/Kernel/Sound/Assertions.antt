-- ===== src/Kernel/Sound/Assertions.antt =====
-- ASSERT: what an assertion says is grounded in handles that its gates let pass.
use cortex_v3_1_rmvm_relatio.Base.{
  ℕ, ◌≡◌, refl, subst, Bool, true, false, ◌&&◌, ◌||◌, not, String, List, [], ◌∷◌, some, All,
  All-imp, Listed, any, leb, arith, ok, >>=-eq-ok, >>-eq-ok, ok_or-eq-ok, ok-injective,
  reject_if-eq-ok,
}
use cortex_v3_1_rmvm_relatio.Base.Int.{ℤ, pos}
use cortex_v3_1_rmvm_relatio.Base.Order.{string_ord, int_ord}
use cortex_v3_1_rmvm_relatio.BTree.Set.{Set, contains}
use cortex_v3_1_rmvm_relatio.BTree.Map.{Map, values}
use cortex_v3_1_rmvm_relatio.BTree.Map.Laws.{get-AllValues, insert-AllValues, AllValues}
use cortex_v3_1_rmvm_relatio.Proto.Enums.{
  TrustTier, AssertionType, assertion_type_from_i32, assertion_type_as_i32,
}
use cortex_v3_1_rmvm_relatio.Proto.Messages.{
  HandleRef, V, Value, ValueRef, OpAssert, VerifiedAssertion,
}
use cortex_v3_1_rmvm_relatio.Kernel.Types.{
  ExecuteOptions, RegData, SourceKind, handle, handle_set, struct, RegValue, Regs,
}
use cortex_v3_1_rmvm_relatio.Kernel.Values.{
  trust_rank, assertion_requires_tier2, has_untrusted_taint,
}
use cortex_v3_1_rmvm_relatio.Kernel.Fields.{
  value, handle_field, handle_tier, handle_taint, extract_binding_value, binding_of_data,
}
use cortex_v3_1_rmvm_relatio.Kernel.Assert.{
  Bound, unbound, bind_field, bind_fields, bound_trust, gates, is_broken, exec_assert,
}
use cortex_v3_1_rmvm_relatio.Kernel.Sound.{
  Facts, facts, Covers, Origin, IsSound, data_handles, data_values,
}
use cortex_v3_1_rmvm_relatio.Kernel.Sound.Rules.{Origin-Weaker, Weaker-extend, Weaker-extended}
use cortex_v3_1_rmvm_relatio.Kernel.Sound.Registers.{input-IsSound}

-- A handle that a policy-impacting assertion may read: verified at least, and with no data from the
-- untrusted web. Other assertions may read any.
abbrev pub clears : Bool → HandleRef → Bool
clears policy h =
    not policy || (leb 3 (trust_rank (handle_tier h)) && not (has_untrusted_taint (handle_taint h)))

-- Where a value of an assertion comes from: a field of a handle of the manifest that clears the
-- gates and whose lineage is not broken, a count, or a parameter that the plan supplies.
pub data Grounded (opts : ExecuteOptions) (handles : List HandleRef) (params : List Value)
    (policy : Bool) (v : Value) : Type 0 where
  field :
      (h : HandleRef) (path : String)
      → Listed h handles
      → handle_field h path ≡ some v
      → is_broken opts h.ref ≡ false
      → clears policy h ≡ true
      → Grounded opts handles params policy v
  count : (n : ℕ) → v ≡ value (V.i64 (pos n)) → Grounded opts handles params policy v
  param : Listed v params → Grounded opts handles params policy v

abbrev pub requires : VerifiedAssertion → Bool
requires a = assertion_requires_tier2 (assertion_type_from_i32 a.assertion_type)

abbrev pub IsGrounded : ExecuteOptions → List HandleRef → List Value → VerifiedAssertion → Type 0
IsGrounded opts handles params a = AllValues (Grounded opts handles params (requires a)) a.fields

abbrev bound_facts : Bound → Facts
bound_facts b = record { provenance = b.provenance; taint = b.taint; min_trust = b.min_trust }

any-contains :
    (p : String → Bool) (k : String) (s : Set String)
    → any p s ≡ false
    → contains k s ≡ true
    → p k ≡ false
unfolding contains
any-contains p k [] n c = cc
any-contains p k (x ∷ s) n c = ground (arith, any-contains p k s, string_ord.eq_of_cmp k x)

assertion_type-roundtrip :
    (t : AssertionType) → assertion_type_from_i32 (assertion_type_as_i32 t) ≡ t
unfolding assertion_type_from_i32
assertion_type-roundtrip AssertionType.unspecified = refl
assertion_type-roundtrip AssertionType.assert_user_preference = refl
assertion_type-roundtrip AssertionType.assert_world_fact = refl
assertion_type-roundtrip AssertionType.assert_decision = refl
assertion_type-roundtrip AssertionType.assert_procedure = refl
assertion_type-roundtrip AssertionType.assert_conflict_explanation = refl

module _ (opts : ExecuteOptions) (handles : List HandleRef) (params : List Value) where
  value-Traced :
      (reg : RegValue) (path : String) {v : Value}
      → extract_binding_value reg path ≡ ok v
      → IsSound handles params reg
      → Origin handles params (facts reg) v
  unfolding extract_binding_value
  value-Traced reg path {v} p s = go reg.reg_data p s.handles_covered s.values_traced
    where
      go :
          (d : RegData)
          → binding_of_data d path ≡ ok v
          → All (Covers handles (facts reg)) (data_handles d)
          → All (Origin handles params (facts reg)) (data_values d)
          → Origin handles params (facts reg) v
      go (handle h) e c t = Origin.field h path (ok_or-eq-ok _ _ e) c.0
      go (handle_set hs) e c t = cc
      go (struct fields) e c t = get-AllValues _ path fields t (ok_or-eq-ok _ _ e)

  abbrev BoundTraced : Bound → Type 0
  BoundTraced b = AllValues (Origin handles params (bound_facts b)) b.fields

  bind_field-Traced :
      (regs : Regs) (acc : Bound) (name : String) (binding : ValueRef) {acc' : Bound}
      → bind_field regs acc name binding ≡ ok acc'
      → AllValues (IsSound handles params) regs
      → BoundTraced acc
      → BoundTraced acc'
  unfolding bind_field
  bind_field-Traced regs acc name binding p s t =
      let (reg, got, p1) = >>=-eq-ok {A = RegValue} _ _ p in
      let (traces, p2) = >>-eq-ok _ _ p1 in
      let (v, read, p3) = >>=-eq-ok _ _ p2 in
      let o =
        value-Traced reg binding.field_path read
          (input-IsSound handles params binding.reg regs _ s got) in
      let old =
        All-imp
          (λ w q.
            Origin-Weaker (Weaker-extend (bound_facts acc) reg.provenance reg.taint reg.min_trust)
              q)
          (values acc.fields) t in
      subst BoundTraced (ok-injective p3) (
        insert-AllValues _ name v acc.fields
          (Origin-Weaker (Weaker-extended (bound_facts acc) (facts reg)) o) old)

  bind_fields-Traced :
      (regs : Regs) (acc : Bound) (bindings : Map String ValueRef) {b : Bound}
      → bind_fields regs acc bindings ≡ ok b
      → AllValues (IsSound handles params) regs
      → BoundTraced acc
      → BoundTraced b
  unfolding bind_fields
  bind_fields-Traced regs acc [] p s t = subst BoundTraced (ok-injective p) t
  bind_fields-Traced regs acc ((name, binding) ∷ rest) p s t =
      let (acc', one, p1) = >>=-eq-ok _ _ p in
      bind_fields-Traced regs acc' rest p1 s (bind_field-Traced regs acc name binding one s t)

  -- what the gates leave
  record Passed (kind : AssertionType) (b : Bound) (trust : TrustTier) : Type 0 where
    trusted : (not (assertion_requires_tier2 kind) || leb 3 (trust_rank trust)) ≡ true
    untainted : (not (assertion_requires_tier2 kind) || not (has_untrusted_taint b.taint)) ≡ true
    intact : any (is_broken opts) b.provenance ≡ false

  gates-Passed :
      (kind : AssertionType) (b : Bound) (trust : TrustTier)
      → gates opts kind b trust ≡ ok tt
      → Passed kind b trust
  unfolding gates trust_rank
  gates-Passed kind b trust p =
      let (trusted, p1) = >>-eq-ok _ _ p in
      let (untainted, p2) = >>-eq-ok _ _ p1 in
      let low = reject_if-eq-ok _ _ trusted in
      let dirty = reject_if-eq-ok _ _ untainted in
      record { trusted = ground arith; untainted = ground arith; intact = reject_if-eq-ok _ _ p2 }

  -- an origin under facts that passed the gates is grounded
  Grounded-Passed :
      (kind : AssertionType) (b : Bound) (v : Value)
      → Passed kind b b.min_trust
      → Origin handles params (bound_facts b) v
      → Grounded opts handles params (assertion_requires_tier2 kind) v
  unfolding has_untrusted_taint
  Grounded-Passed kind b v g (Origin.count n e) = Grounded.count n e
  Grounded-Passed kind b v g (Origin.param l) = Grounded.param l
  Grounded-Passed kind b v g (Origin.field h path e c) =
      Grounded.field h path c.listed e
        (any-contains (is_broken opts) h.ref b.provenance g.intact c.named)
        (clear (assertion_requires_tier2 kind) g.trusted g.untainted)
    where
      clear :
          (policy : Bool)
          → (not policy || leb 3 (trust_rank b.min_trust)) ≡ true
          → (not policy || not (has_untrusted_taint b.taint)) ≡ true
          → clears policy h ≡ true
      clear policy t u = ground (arith, c.tainted (pos 3), c.tainted (pos 5))

  abbrev bound : Map String Value → Set String → Set ℤ → TrustTier → Bound
  bound fields prov taint trust = record {
    fields = fields;
    provenance = prov;
    taint = taint;
    min_trust = trust;
  }

  all-Grounded :
      (kind : AssertionType) (fields : Map String Value) (prov : Set String) (taint : Set ℤ)
      (trust : TrustTier)
      → Passed kind (bound fields prov taint trust) (bound_trust fields trust)
      → BoundTraced (bound fields prov taint trust)
      → AllValues (Grounded opts handles params (assertion_requires_tier2 kind)) fields
  all-Grounded kind [] prov taint trust g t = tt
  all-Grounded kind (f ∷ fs) prov taint trust g t =
      All-imp (λ v o. Grounded-Passed kind (bound (f ∷ fs) prov taint trust) v g o)
        (values (f ∷ fs)) t

  -- the register of an assertion is as sound as what was bound
  assert-IsSound :
      (fields : Map String Value) (prov : Set String) (taint : Set ℤ) (trust : TrustTier)
      → BoundTraced (bound fields prov taint trust)
      → IsSound handles params (record {
        reg_data = struct fields;
        provenance = prov;
        taint = taint;
        min_trust = bound_trust fields trust;
        join_depth = 0;
        source = SourceKind.assert;
      })
  assert-IsSound [] prov taint trust t = record { handles_covered = tt; values_traced = tt }
  assert-IsSound (f ∷ fs) prov taint trust t = record { handles_covered = tt; values_traced = t }

  pub record AssertSound (r : RegValue) (a : VerifiedAssertion) : Type 0 where
    pub register : IsSound handles params r
    pub assertion : IsGrounded opts handles params a

  pub assert-AssertSound :
      (op : OpAssert) (regs : Regs) {out : RegValue × VerifiedAssertion}
      → exec_assert op regs opts ≡ ok out
      → AllValues (IsSound handles params) regs
      → AssertSound out.0 out.1
  unfolding exec_assert
  assert-AssertSound op regs p s =
      let (known, p1) = >>-eq-ok _ _ p in
      let (b, bindings, p2) = >>=-eq-ok {A = Bound} _ _ p1 in
      let (passed, p3) = >>-eq-ok _ _ p2 in
      let (citations, cited, p4) = >>=-eq-ok _ _ p3 in
      let kind = assertion_type_from_i32 op.assertion_type in
      let t = bind_fields-Traced regs unbound op.bindings bindings s tt in
      let g = gates-Passed kind b (bound_trust b.fields b.min_trust) passed in
      let grounded = all-Grounded kind b.fields b.provenance b.taint b.min_trust g t in
      subst (λ (o : RegValue × VerifiedAssertion). AssertSound o.0 o.1) (ok-injective p4)
        (record {
          register = assert-IsSound b.fields b.provenance b.taint b.min_trust t;
          assertion = rw (assertion_type-roundtrip kind) grounded;
        })
