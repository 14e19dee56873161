-- ===== src/Kernel/Sound/Select.antt =====
-- The selector and the operations over registers keep coverage.
use cortex_v3_1_rmvm_relatio.Base.{
  ℕ, ◌≡◌, refl, subst, String, List, [], ◌∷◌, All, All-imp, All-filter, All-Listed, Listed, arith,
  length, ok, ◌>>=◌, >>=-eq-ok, >>-eq-ok, ok-injective,
}
use cortex_v3_1_rmvm_relatio.Base.Order.{string_ord, int_ord}
use cortex_v3_1_rmvm_relatio.BTree.Set
use cortex_v3_1_rmvm_relatio.BTree.Set.{contains}
use cortex_v3_1_rmvm_relatio.BTree.Set.Laws.{
  contains-insert_self, contains-insert_old, contains-extend, contains-extend_old,
}
use cortex_v3_1_rmvm_relatio.BTree.Map.{Map, values}
use cortex_v3_1_rmvm_relatio.BTree.Map.Laws.{insert-AllValues, insert_all-AllValues, AllValues}
use cortex_v3_1_rmvm_relatio.BTree.Sort.{All-sort_by}
use cortex_v3_1_rmvm_relatio.Proto.Enums.{SelectorReturn, selector_return_from_i32}
use cortex_v3_1_rmvm_relatio.Proto.Messages.{
  HandleRef, SelectorRef, PublicManifest, Value, OpApplySelector,
}
use cortex_v3_1_rmvm_relatio.Kernel.Types.{NormalizedBudget, RegData, RegValue, SourceKind}
use cortex_v3_1_rmvm_relatio.Kernel.Fields.{handle_tier, handle_taint}
use cortex_v3_1_rmvm_relatio.Kernel.Values.{min_tier}
use cortex_v3_1_rmvm_relatio.Kernel.Params.{selector_match}
use cortex_v3_1_rmvm_relatio.Kernel.Selector.{
  Merged, merge_handles, no_handles, matched_trust, returned, matched_handles, exec_apply_selector,
  by_ref,
}
use cortex_v3_1_rmvm_relatio.Kernel.Sound.{Facts, Weaker, Covers, Origin, IsSound}
use cortex_v3_1_rmvm_relatio.Kernel.Sound.Rules.{
  Weaker-refl, Weaker-trans, Covers-Weaker, min_tier_left, min_tier_right,
}

abbrev merged_facts : Merged → Facts
merged_facts m = record { provenance = m.provenance; taint = m.taint; min_trust = m.min_trust }

abbrev with_handle : Merged → HandleRef → Merged
with_handle acc h = record {
  provenance = Set.insert h.ref acc.provenance;
  taint = Set.extend acc.taint (handle_taint h);
  min_trust = min_tier acc.min_trust (handle_tier h);
}

Weaker-with_handle :
    (acc : Merged) (h : HandleRef) → Weaker (merged_facts acc) (merged_facts (with_handle acc h))
Weaker-with_handle acc h = record {
  provenance = λ k p. contains-insert_old h.ref k acc.provenance p;
  taint = λ t p. contains-extend_old t acc.taint (handle_taint h) p;
  min_trust = min_tier_left acc.min_trust (handle_tier h);
}

merge_handles-Weaker :
    (acc : Merged) (hs : List HandleRef)
    → Weaker (merged_facts acc) (merged_facts (merge_handles acc hs))
unfolding merge_handles
merge_handles-Weaker acc [] = Weaker-refl _
merge_handles-Weaker acc (h ∷ rest) =
    Weaker-trans (Weaker-with_handle acc h) (merge_handles-Weaker (with_handle acc h) rest)

module _ (handles : List HandleRef) where
  Covers-with_handle :
      (acc : Merged) (h : HandleRef)
      → Listed h handles
      → Covers handles (merged_facts (with_handle acc h)) h
  Covers-with_handle acc h l = record {
    listed = l;
    named = contains-insert_self h.ref acc.provenance;
    trusted = min_tier_right acc.min_trust (handle_tier h);
    tainted = λ t p. ground (arith, contains-extend t acc.taint (handle_taint h));
  }

  -- the loop over the matched handles covers each of them
  merge_handles-Covers :
      (acc : Merged) (hs : List HandleRef)
      → All (λ h. Listed h handles) hs
      → All (Covers handles (merged_facts (merge_handles acc hs))) hs
  unfolding merge_handles
  merge_handles-Covers acc [] l = tt
  merge_handles-Covers acc (h ∷ rest) l = (
    Covers-Weaker (merge_handles-Weaker (with_handle acc h) rest) (Covers-with_handle acc h l.0),
    merge_handles-Covers (with_handle acc h) rest l.1,
  )

  abbrev selected : Merged → List HandleRef → Facts
  selected m matched = record {
    provenance = m.provenance;
    taint = m.taint;
    min_trust = matched_trust matched m.min_trust;
  }

  selected-Covers :
      (m : Merged) (matched : List HandleRef)
      → All (Covers handles (merged_facts m)) matched
      → All (Covers handles (selected m matched)) matched
  selected-Covers m [] c = tt
  selected-Covers m (h ∷ rest) c = c

  module _ (params : List Value) where
    abbrev selected_reg : RegData → Facts → RegValue
    selected_reg d f = record {
      reg_data = d;
      provenance = f.provenance;
      taint = f.taint;
      min_trust = f.min_trust;
      join_depth = 0;
      source = SourceKind.apply_selector;
    }

    returned-IsSound :
        (kind : SelectorReturn) (matched : List HandleRef) (total : ℕ) (ps : Map String Value)
        (f : Facts) {d : RegData}
        → returned kind matched total ps ≡ ok d
        → All (Covers handles f) matched
        → AllValues (λ v. Listed v params) ps
        → IsSound handles params (selected_reg d f)
    unfolding ◌>>=◌
    returned-IsSound SelectorReturn.return_handle [] total ps f p c l = cc
    returned-IsSound SelectorReturn.return_handle (h ∷ rest) total ps f p c l =
        subst (λ d. IsSound handles params (selected_reg d f)) (ok-injective p)
          (record { handles_covered = (c.0, tt); values_traced = tt })
    returned-IsSound SelectorReturn.return_handle_set matched total ps f p c l =
        subst (λ d. IsSound handles params (selected_reg d f)) (ok-injective p)
          (record { handles_covered = c; values_traced = tt })
    returned-IsSound SelectorReturn.return_struct matched total ps f p c l =
        subst (λ d. IsSound handles params (selected_reg d f)) (ok-injective p)
          (record {
            handles_covered = tt;
            values_traced =
                insert_all-AllValues (Origin handles params f) ps _
                  (All-imp (λ v m. Origin.param m) (values ps) l)
                  (insert-AllValues (Origin handles params f) "matched_count" _ []
                    (Origin.count total refl) tt);
          })
    returned-IsSound SelectorReturn.unspecified matched total ps f p c l = cc

module _ (manifest : PublicManifest) (params : List Value) where
  matched_handles-Listed :
      (ps : Map String Value) → All (λ h. Listed h manifest.handles) (matched_handles manifest ps)
  unfolding matched_handles
  matched_handles-Listed ps =
      All-sort_by by_ref (λ h. Listed h manifest.handles) _
        (All-filter (λ h. Listed h manifest.handles) (λ h. selector_match h ps) manifest.handles
          (All-Listed manifest.handles))

  pub apply-IsSound :
      (a : OpApplySelector) (selectors_by_ref : Map String SelectorRef) (budget : NormalizedBudget)
      {r : RegValue}
      → exec_apply_selector a manifest selectors_by_ref budget ≡ ok r
      → AllValues (λ v. Listed v params) a.params
      → IsSound manifest.handles params r
  unfolding exec_apply_selector
  apply-IsSound a selectors_by_ref budget {r} p l =
      let (selector, got, p1) = >>=-eq-ok {A = SelectorRef} _ _ p in
      let (valid, p2) = >>-eq-ok _ _ p1 in
      let (fits, p3) = >>-eq-ok _ _ p2 in
      let (d, gives, p4) = >>=-eq-ok _ _ p3 in
      let matched = matched_handles manifest a.params in
      let m = merge_handles no_handles matched in
      let covered = selected-Covers manifest.handles m matched (
        merge_handles-Covers manifest.handles no_handles matched
          (matched_handles-Listed a.params)) in
      subst (IsSound manifest.handles params) (ok-injective p4) (
        returned-IsSound manifest.handles params (selector_return_from_i32 selector.return_type)
          matched (length manifest.handles) a.params (selected manifest.handles m matched) gives
          covered l)
