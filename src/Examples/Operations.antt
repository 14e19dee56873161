-- ===== src/Examples/Operations.antt =====
-- The theorems on single operations, at a register with two handles.
use mathlib.Core.List.Permᴰ.{swap}
use cortex_v3_1_rmvm_relatio.Base.{
  ◌≡◌, refl, true, String, List, [], ◌∷◌, none, some, ok, ◌>>=◌, ◌>>◌,
}
use cortex_v3_1_rmvm_relatio.Base.Int.{pos}
use cortex_v3_1_rmvm_relatio.Base.Order.{string_ord}
use cortex_v3_1_rmvm_relatio.BTree.Map.{get, insert}
use cortex_v3_1_rmvm_relatio.BTree.Set
use cortex_v3_1_rmvm_relatio.BTree.Set.{contains}
use cortex_v3_1_rmvm_relatio.BTree.Sort.{sort_by, place}
use cortex_v3_1_rmvm_relatio.Proto.Enums.{
  TrustTier, trust_tier_from_i32, selector_return_from_i32, assertion_type_from_i32,
}
use cortex_v3_1_rmvm_relatio.Proto.Messages.{
  HandleRef, PublicManifest, V, Cite, CitationRef, OpApplySelector, OpResolve, OpFilter, OpAssert,
  CanonicalCitation, VerifiedAssertion,
}
use cortex_v3_1_rmvm_relatio.Proto.Canonical.{canonical_assertion_hash}
use cortex_v3_1_rmvm_relatio.Proto.Canonical.Order.{canonical_assertion_hash_perm}
use cortex_v3_1_rmvm_relatio.Kernel.Types.{
  default_options, NormalizedBudget, SourceKind, RegData, RegValue, Regs,
}
use cortex_v3_1_rmvm_relatio.Kernel.Values.{
  as_string, trust_rank, min_tier, assertion_requires_tier2, has_untrusted_taint,
}
use cortex_v3_1_rmvm_relatio.Kernel.Fields.{as_handles, extract_binding_value}
use cortex_v3_1_rmvm_relatio.Kernel.Params.{selector_match, validate_param_specs}
use cortex_v3_1_rmvm_relatio.Kernel.Resolve.{rank, ranked, winner, exec_resolve}
use cortex_v3_1_rmvm_relatio.Kernel.Resolve.Best.{IsBest, exec_resolve-IsBest}
use cortex_v3_1_rmvm_relatio.Kernel.Selector.{matched_handles, merge_handles, exec_apply_selector}
use cortex_v3_1_rmvm_relatio.Kernel.Filter.{matches_filter, filter_handles, exec_filter}
use cortex_v3_1_rmvm_relatio.Kernel.Selection.{
  IsSelection, exec_filter-IsSelection, exec_apply_selector-IsSelection,
}
use cortex_v3_1_rmvm_relatio.Kernel.Assert.{
  is_broken, cite_text, cite_all, canonicalize_citations, bind_field, bind_fields, gates,
  exec_assert,
}
use cortex_v3_1_rmvm_relatio.Kernel.Assert.Citing.{exec_assert_perm}
use cortex_v3_1_rmvm_relatio.Examples.Inputs.{toy_hashing, tea, preferences, manifest}

abbrev coffee : HandleRef
coffee = record {
  ref = "H0";
  type_id = "normative.preference";
  availability = pos 1;
  meta = some (record {
    subject = "user:other";
    predicate_label = "prefers_beverage";
    trust_tier = pos 3;
    taint = [];
    temporal = none;
    scope = pos 5;
  });
  signature_summary = "prefers_beverage=coffee";
  conflict_group_id = "c1";
}

abbrev both : List HandleRef
both = tea ∷ coffee ∷ []

abbrev register : RegData → SourceKind → RegValue
register d k = record {
  reg_data = d;
  provenance = "H0" ∷ "H1" ∷ [];
  taint = [];
  min_trust = TrustTier.tier_2_verified;
  join_depth = 0;
  source = k;
}

abbrev regs : Regs
regs =
    (
      "p",
      register (RegData.struct (("x", record { v = some (V.s "tea") }) ∷ [])) SourceKind.project,
    )
    ∷ ("set", register (RegData.handle_set both) SourceKind.apply_selector)
    ∷ []

abbrev budget : NormalizedBudget
budget = record {
  max_ops = 10;
  max_join_depth = 3;
  max_fanout = 4;
  max_total_cost = record { bits = 0 };
}

abbrev resolving : OpResolve
resolving = record { in_reg = "set"; policy_id = "" }

resolved : (out : RegValue) × (exec_resolve resolving regs ≡ ok out)
unfolding exec_resolve get as_handles winner ranked rank sort_by place trust_rank
    trust_tier_from_i32 ◌>>=◌ ◌>>◌
resolved = (_, refl)

exec_resolve-IsBest_example :
    (input : RegValue) × (handles : List HandleRef) × (best : HandleRef) × (get "set" regs
      ≡ some input)
    × (as_handles input ≡ ok handles)
    × (resolved.0.reg_data ≡ RegData.handle best)
    × (resolved.0.provenance ≡ input.provenance)
    × IsBest best handles
exec_resolve-IsBest_example = exec_resolve-IsBest resolving regs resolved.0 resolved.1

abbrev by_subject : OpFilter
by_subject = record {
  in_reg = "set";
  filter_ref = "by_subject";
  params = ("subject", record { v = some (V.s "user:demo") }) ∷ [];
}

filtered : (out : RegValue) × (exec_filter by_subject regs budget ≡ ok out)
unfolding exec_filter get as_handles filter_handles matches_filter as_string sort_by place ◌>>=◌
    ◌>>◌
filtered = (_, refl)

exec_filter-IsSelection_example :
    (input : RegValue) × (handles : List HandleRef) × (kept : List HandleRef) × (get "set" regs
      ≡ some input)
    × (as_handles input ≡ ok handles)
    × (filtered.0.reg_data ≡ RegData.handle_set kept)
    × IsSelection
        (λ h. matches_filter h by_subject.filter_ref by_subject.params ≡ ok true)
        handles
        kept
        4
exec_filter-IsSelection_example =
    exec_filter-IsSelection by_subject regs budget filtered.0 filtered.1

abbrev two_handles : PublicManifest
two_handles = record manifest { handles = both }

abbrev applying : OpApplySelector
applying = record { selector_ref = "S0"; params = [] }

applied :
    (out : RegValue) × (exec_apply_selector applying two_handles (("S0", preferences) ∷ []) budget
      ≡ ok out)
    × (selected : List HandleRef) × (out.reg_data ≡ RegData.handle_set selected)
unfolding exec_apply_selector get validate_param_specs matched_handles selector_match merge_handles
    sort_by place selector_return_from_i32 ◌>>=◌ ◌>>◌
applied = (_, refl, _, refl)

exec_apply_selector-IsSelection_example :
    IsSelection (λ h. selector_match h [] ≡ true) both applied.2 4
exec_apply_selector-IsSelection_example =
    exec_apply_selector-IsSelection applying two_handles (("S0", preferences) ∷ []) budget applied.0
      applied.2 applied.1 applied.3

abbrev cites : String → CitationRef
cites h = record { cite = some (Cite.handle_ref h) }

abbrev asserting : OpAssert
asserting = record {
  assertion_type = pos 1;
  bindings = ("drink", record { reg = "p"; field_path = "x" }) ∷ [];
  citations = cites "H0" ∷ cites "H1" ∷ [];
}

asserted :
    (out : RegValue × VerifiedAssertion) × (exec_assert asserting regs default_options ≡ ok out)
unfolding exec_assert assertion_type_from_i32 bind_fields bind_field get extract_binding_value
    insert Set.insert Set.extend min_tier trust_rank gates assertion_requires_tier2
    has_untrusted_taint is_broken contains canonicalize_citations cite_all cite_text ◌>>=◌ ◌>>◌
asserted = (_, refl)

exec_assert_perm_example :
    exec_assert (record asserting { citations = cites "H1" ∷ cites "H0" ∷ [] }) regs default_options
    ≡ ok asserted.0
exec_assert_perm_example =
    exec_assert_perm default_options asserting regs asserting.citations
      (cites "H1" ∷ cites "H0" ∷ []) asserted.0 (swap refl refl) asserted.1

abbrev digest : String → CanonicalCitation
digest d = record { anchor_digest = d }

abbrev cited : VerifiedAssertion
cited = record { assertion_type = pos 1; fields = []; citations = [] }

canonical_assertion_hash_perm_example :
    canonical_assertion_hash toy_hashing (record cited { citations = digest "a" ∷ digest "b" ∷ [] })
    ≡ canonical_assertion_hash toy_hashing
        (record cited { citations = digest "b" ∷ digest "a" ∷ [] })
canonical_assertion_hash_perm_example =
    canonical_assertion_hash_perm toy_hashing cited (digest "a" ∷ digest "b" ∷ [])
      (digest "b" ∷ digest "a" ∷ []) (swap refl refl)
