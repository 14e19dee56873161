-- ===== src/Kernel/Assert.antt =====
-- `exec_assert`: a verified assertion out of bound registers, behind the trust, taint and lineage
-- gates, and `canonicalize_citations`.
pub mod Citing
use cortex_v3_1_rmvm_relatio.Base.{
  Bool, true, false, ◌&&◌, not, String, List, [], ◌∷◌, none, some, ltb, any, map, format, ok, err,
  ◌>>=◌, ◌>>◌, ok_or, reject_if,
}
use cortex_v3_1_rmvm_relatio.Base.Int.{ℤ}
use cortex_v3_1_rmvm_relatio.Base.Order.{string_ord, int_ord}
use cortex_v3_1_rmvm_relatio.BTree.Set
use cortex_v3_1_rmvm_relatio.BTree.Set.{Set, contains}
use cortex_v3_1_rmvm_relatio.BTree.Map.{Map, get, insert}
use cortex_v3_1_rmvm_relatio.Proto.Enums.{
  TrustTier, AssertionType, ErrorCode, assertion_type_from_i32, assertion_type_as_i32,
}
use cortex_v3_1_rmvm_relatio.Proto.Messages.{
  ValueRef, Value, Cite, CitationRef, OpAssert, CanonicalCitation, VerifiedAssertion,
}
use cortex_v3_1_rmvm_relatio.Kernel.Types.{
  ExecuteOptions, SourceKind, RegData, RegValue, Regs, Exec, fail_rejected,
}
use cortex_v3_1_rmvm_relatio.Kernel.Values.{
  trust_rank, min_tier, assertion_requires_tier2, has_untrusted_taint,
}
use cortex_v3_1_rmvm_relatio.Kernel.Fields.{extract_binding_value}

-- `!opts.degraded_mode && opts.broken_lineage_handles.contains(handle_ref)`
unfoldable pub is_broken : ExecuteOptions → String → Bool
is_broken opts handle_ref =
    not opts.degraded_mode && contains handle_ref opts.broken_lineage_handles

abbrev pub handle_citation : String → String
handle_citation handle_ref = format ("handle:" ∷ handle_ref ∷ [])

-- the citations that stand for the provenance
unfoldable pub cite_provenance : ExecuteOptions → List String → Set String → Exec (Set String)
cite_provenance opts [] unique = ok unique
cite_provenance opts (handle_ref ∷ rest) unique = do
  reject_if (is_broken opts handle_ref)
      (fail_rejected ErrorCode.error_broken_lineage "citation includes broken-lineage handle")
  cite_provenance opts rest (Set.insert (handle_citation handle_ref) unique)

-- the text of one citation
unfoldable pub cite_text : ExecuteOptions → CitationRef → Exec String
cite_text opts citation = elim citation.cite [
  | none ↦ err (fail_rejected ErrorCode.schema_violation "citation is missing variant")
  | some (Cite.handle_ref handle_ref) ↦
      reject_if (is_broken opts handle_ref)
        (fail_rejected ErrorCode.error_broken_lineage "citation includes broken-lineage handle")
      >> ok (handle_citation handle_ref)
  | some (Cite.anchor_ref anchor_ref) ↦ ok anchor_ref
]

unfoldable pub cite_all : ExecuteOptions → List CitationRef → Set String → Exec (Set String)
cite_all opts [] unique = ok unique
cite_all opts (c ∷ rest) unique = do
  text ← cite_text opts c
  cite_all opts rest (Set.insert text unique)

abbrev pub citation : String → CanonicalCitation
citation anchor_digest = record { anchor_digest = anchor_digest }

abbrev pub cite : List CitationRef → Set String → ExecuteOptions → Exec (Set String)
cite [] provenance opts = cite_provenance opts provenance []
cite (c ∷ rest) provenance opts = cite_all opts (c ∷ rest) []

unfoldable pub canonicalize_citations :
    List CitationRef → Set String → ExecuteOptions → Exec (List CanonicalCitation)
unfolding cite_provenance cite_all
canonicalize_citations citations provenance opts = do
  unique ← cite citations provenance opts
  ok (map citation unique)

-- the variables of the loop over the bindings
pub record Bound : Type 0 where
  pub fields : Map String Value
  pub provenance : Set String
  pub taint : Set ℤ
  pub min_trust : TrustTier

abbrev pub unbound : Bound
unbound = record {
  fields = [];
  provenance = [];
  taint = [];
  min_trust = TrustTier.tier_4_policy_signed;
}

abbrev pub traces_to_source : SourceKind → Bool
traces_to_source SourceKind.fetch = true
traces_to_source SourceKind.project = true
traces_to_source _ = false

unfoldable pub bind_field : Regs → Bound → String → ValueRef → Exec Bound
bind_field regs acc field_name binding = do
  reg ←
      ok_or (get binding.reg regs)
        (fail_rejected ErrorCode.schema_violation "ASSERT binding register missing")
  reject_if (not (traces_to_source reg.source))
      (fail_rejected ErrorCode.schema_violation "ASSERT bindings must trace to FETCH or PROJECT")
  v ← extract_binding_value reg binding.field_path
  ok (record {
    fields = insert field_name v acc.fields;
    provenance = Set.extend acc.provenance reg.provenance;
    taint = Set.extend acc.taint reg.taint;
    min_trust = min_tier acc.min_trust reg.min_trust;
  })

unfoldable pub bind_fields : Regs → Bound → Map String ValueRef → Exec Bound
bind_fields regs acc [] = ok acc
bind_fields regs acc ((field_name, binding) ∷ rest) = do
  acc' ← bind_field regs acc field_name binding
  bind_fields regs acc' rest

-- the tier of an assertion without fields is unspecified
abbrev pub bound_trust : Map String Value → TrustTier → TrustTier
bound_trust [] t = TrustTier.unspecified
bound_trust (f ∷ fs) t = t

abbrev pub is_unspecified : AssertionType → Bool
is_unspecified AssertionType.unspecified = true
is_unspecified _ = false

-- the three gates, in their order
unfoldable pub gates : ExecuteOptions → AssertionType → Bound → TrustTier → Exec (Unit {0})
gates opts assertion_type bound min_trust = do
  reject_if
      (assertion_requires_tier2 assertion_type
        && ltb (trust_rank min_trust) (trust_rank TrustTier.tier_2_verified))
      (fail_rejected ErrorCode.untrusted_provenance "assertion requires trust tier >= TIER_2")
  reject_if (assertion_requires_tier2 assertion_type && has_untrusted_taint bound.taint) (
      fail_rejected ErrorCode.data_leak_prevention
        "policy-impacting assertion cannot sink web-untrusted tainted data")
  reject_if (any (is_broken opts) bound.provenance)
      (fail_rejected ErrorCode.error_broken_lineage "ASSERT references broken-lineage provenance")

unfoldable pub exec_assert : OpAssert → Regs → ExecuteOptions → Exec (RegValue × VerifiedAssertion)
exec_assert a regs opts = do
  let assertion_type = assertion_type_from_i32 a.assertion_type
  reject_if (is_unspecified assertion_type)
      (fail_rejected ErrorCode.schema_violation "ASSERT assertion_type unspecified")
  bound ← bind_fields regs unbound a.bindings
  let min_trust = bound_trust bound.fields bound.min_trust
  gates opts assertion_type bound min_trust
  citations ← canonicalize_citations a.citations bound.provenance opts
  ok (
    record {
      reg_data = RegData.struct bound.fields;
      provenance = bound.provenance;
      taint = bound.taint;
      min_trust = min_trust;
      join_depth = 0;
      source = SourceKind.assert;
    },
    record {
      assertion_type = assertion_type_as_i32 assertion_type;
      fields = bound.fields;
      citations = citations;
    },
  )
