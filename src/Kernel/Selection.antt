-- ===== src/Kernel/Selection.antt =====
-- What APPLY_SELECTOR and FILTER select: all the handles that pass the test and no others, in the order
-- of their references, and, counted as a u32, no more than the budget's fanout.
use cortex_v3_1_rmvm_relatio.Base.{
  ℕ, ◌≤◌, ◌≡◌, refl, sym, ap, subst, ◌∙◌, inl, inr, Bool, true, false, Bool-cases, String, List, [],
  ◌∷◌, some, All, All-imp, Listed, All-Listed, Listed-All, filter, length, arith, ok, ◌>>=◌,
  >>=-eq-ok, >>-eq-ok, ok_or-eq-ok, reject_if-eq-ok, ok-injective,
}
use cortex_v3_1_rmvm_relatio.Base.Order.{string_ord, cmp-le_trans}
use cortex_v3_1_rmvm_relatio.BTree.Map.{Map, get}
use cortex_v3_1_rmvm_relatio.BTree.Sort.{sort_by, All-sort_by}
use cortex_v3_1_rmvm_relatio.BTree.Sort.Sorted.{
  Preorder, IsSorted, sort_by-IsSorted, All-sort_by_back,
}
use cortex_v3_1_rmvm_relatio.Proto.Enums.{SelectorReturn, selector_return_from_i32}
use cortex_v3_1_rmvm_relatio.Proto.Messages.{
  HandleRef, SelectorRef, PublicManifest, Value, OpApplySelector, OpFilter,
}
use cortex_v3_1_rmvm_relatio.Kernel.Types.{NormalizedBudget, RegData, RegValue, Regs}
use cortex_v3_1_rmvm_relatio.Kernel.Budget.{as_u32}
use cortex_v3_1_rmvm_relatio.Kernel.Fields.{as_handles}
use cortex_v3_1_rmvm_relatio.Kernel.Params.{selector_match}
use cortex_v3_1_rmvm_relatio.Kernel.Selector.{
  by_ref, matched_handles, returned, exec_apply_selector,
}
use cortex_v3_1_rmvm_relatio.Kernel.Filter.{matches_filter, filter_handles, exec_filter}

by_ref-Preorder : Preorder by_ref
by_ref-Preorder = record {
  flip = λ x y h k. cc (string_ord.lt_of_gt x.ref y.ref h);
  le_trans = λ x y z h k. cmp-le_trans x.ref y.ref z.ref h k;
}

-- the handles of a list with a property, in order, and at most so many
pub record IsSelection (Passes : HandleRef → Type 0) (source selected : List HandleRef) (limit : ℕ)
    : Type 0 where
  pub sound : All (λ h. Listed h source × Passes h) selected
  pub complete : All (λ h. Passes h → Listed h selected) source
  pub in_order : IsSorted by_ref selected
  pub few : as_u32 (length selected) ≤ limit

-- before the sort
abbrev Picks : (HandleRef → Type 0) → List HandleRef → List HandleRef → Type 0
Picks Passes source picked =
    All (λ h. Listed h source × Passes h) picked × All (λ h. Passes h → Listed h picked) source

module _ (Passes : HandleRef → Type 0) where
  Picks-sort :
      (source picked : List HandleRef) (limit : ℕ)
      → Picks Passes source picked
      → as_u32 (length (sort_by by_ref picked)) ≤ limit
      → IsSelection Passes source (sort_by by_ref picked) limit
  Picks-sort source picked limit (sound, complete) few = record {
    sound = All-sort_by by_ref _ picked sound;
    complete =
        All-imp
          (λ h back p.
            Listed-All _ picked
              (All-sort_by_back by_ref _ picked (All-Listed (sort_by by_ref picked))) (back p))
          source complete;
    in_order = sort_by-IsSorted by_ref by_ref-Preorder picked;
    few = few;
  }

  Picks-keep :
      (x : HandleRef) (source picked : List HandleRef)
      → Passes x
      → Picks Passes source picked
      → Picks Passes (x ∷ source) (x ∷ picked)
  Picks-keep x source picked p (sound, complete) = (
    ((inl refl, p), All-imp (λ h l. (inr l.0, l.1)) picked sound),
    ((λ q. inl refl), All-imp (λ h c q. inr (c q)) source complete),
  )

  Picks-drop :
      (x : HandleRef) (source picked : List HandleRef)
      → (Passes x → ⊥)
      → Picks Passes source picked
      → Picks Passes (x ∷ source) picked
  Picks-drop x source picked n (sound, complete) =
      (All-imp (λ h l. (inr l.0, l.1)) picked sound, ((λ q. absurd (n q)), complete))

filter_kept :
    (p : HandleRef → Bool) (x : HandleRef) (hs : List HandleRef)
    → p x ≡ true
    → filter p (x ∷ hs) ≡ x ∷ filter p hs
filter_kept p x hs e = ground arith

filter_dropped :
    (p : HandleRef → Bool) (x : HandleRef) (hs : List HandleRef)
    → p x ≡ false
    → filter p (x ∷ hs) ≡ filter p hs
filter_dropped p x hs e = ground arith

filter-Picks :
    (p : HandleRef → Bool) (hs : List HandleRef) → Picks (λ h. p h ≡ true) hs (filter p hs)
filter-Picks p [] = (tt, tt)
filter-Picks p (x ∷ hs) = elim (Bool-cases (p x)) [
  | inl keeps ↦
      subst (λ out. Picks (λ h. p h ≡ true) (x ∷ hs) out) (sym (filter_kept p x hs keeps))
        (Picks-keep (λ h. p h ≡ true) x hs (filter p hs) keeps (filter-Picks p hs))
  | inr drops ↦
      subst (λ out. Picks (λ h. p h ≡ true) (x ∷ hs) out) (sym (filter_dropped p x hs drops))
        (Picks-drop (λ h. p h ≡ true) x hs (filter p hs) (λ q. cc) (filter-Picks p hs))
]

returned_set :
    (kind : SelectorReturn) (matched : List HandleRef) (total : ℕ) (params : Map String Value)
    {selected : List HandleRef}
    → returned kind matched total params ≡ ok (RegData.handle_set selected)
    → matched ≡ selected
unfolding ◌>>=◌
returned_set SelectorReturn.return_handle [] total params h = cc
returned_set SelectorReturn.return_handle (x ∷ xs) total params h = cc
returned_set SelectorReturn.return_handle_set matched total params h = cc
returned_set SelectorReturn.return_struct matched total params h = cc
returned_set SelectorReturn.unspecified matched total params h = cc

module _ (f : OpFilter) where
  abbrev Keeps : HandleRef → Type 0
  Keeps h = matches_filter h f.filter_ref f.params ≡ ok true

  filter_handles-Picks :
      (hs : List HandleRef) {kept : List HandleRef}
      → filter_handles f.filter_ref f.params hs ≡ ok kept
      → Picks Keeps hs kept
  unfolding filter_handles
  filter_handles-Picks [] p = subst (λ kept. Picks Keeps [] kept) (ok-injective p) (tt, tt)
  filter_handles-Picks (x ∷ hs) p =
      let (keep, tested, p1) = >>=-eq-ok {A = Bool} _ _ p in
      let (kept, others, p2) = >>=-eq-ok {A = List HandleRef} _ _ p1 in
      let rest = filter_handles-Picks hs others in
      elim (Bool-cases keep) [
        | inl keeps ↦
            subst (λ out. Picks Keeps (x ∷ hs) out) (ok-injective (rw keeps at p2))
              (Picks-keep Keeps x hs kept (rw keeps at tested) rest)
        | inr drops ↦
            subst (λ out. Picks Keeps (x ∷ hs) out) (ok-injective (rw drops at p2))
              (Picks-drop Keeps x hs kept (λ q. cc (rw drops at tested)) rest)
      ]

  -- FILTER gives exactly the handles of its input register that pass the filter, in the order of
  -- their references, and, counted as a u32, no more than the budget's fanout.
  pub exec_filter-IsSelection :
      (regs : Regs) (budget : NormalizedBudget) (out : RegValue)
      → exec_filter f regs budget ≡ ok out
      → (input : RegValue) × (handles : List HandleRef) × (kept : List HandleRef) × (get f.in_reg
            regs
          ≡ some input)
        × (as_handles input ≡ ok handles)
        × (out.reg_data ≡ RegData.handle_set kept)
        × IsSelection Keeps handles kept budget.max_fanout
  unfolding exec_filter
  exec_filter-IsSelection regs budget out p =
      let (input, got, p1) = >>=-eq-ok _ _ p in
      let (handles, read, p2) = >>=-eq-ok _ _ p1 in
      let (kept, picked, p3) = >>=-eq-ok {A = List HandleRef} _ _ p2 in
      let (fits, p4) = >>-eq-ok _ _ p3 in
      let few = reject_if-eq-ok _ _ fits in
      (
        input,
        handles,
        sort_by by_ref kept,
        ok_or-eq-ok _ _ got,
        read,
        sym (ap (λ (r : RegValue). r.reg_data) (ok-injective p4)),
        Picks-sort Keeps handles kept budget.max_fanout (filter_handles-Picks handles picked)
            (ground arith),
      )

-- A selector that returns a set of handles gives exactly the handles of the manifest that its
-- parameters match, in the order of their references, and, counted as a u32, no more than the budget's fanout.
pub exec_apply_selector-IsSelection :
    (a : OpApplySelector) (manifest : PublicManifest) (index : Map String SelectorRef)
    (budget : NormalizedBudget) (out : RegValue) (selected : List HandleRef)
    → exec_apply_selector a manifest index budget ≡ ok out
    → out.reg_data ≡ RegData.handle_set selected
    → IsSelection
        (λ h. selector_match h a.params ≡ true)
        manifest.handles
        selected
        budget.max_fanout
unfolding exec_apply_selector matched_handles
exec_apply_selector-IsSelection a manifest index budget out selected p e =
    let (selector, got, p1) = >>=-eq-ok {A = SelectorRef} _ _ p in
    let (typed, p2) = >>-eq-ok _ _ p1 in
    let (fits, p3) = >>-eq-ok _ _ p2 in
    let (d, gives, p4) = >>=-eq-ok {A = RegData} _ _ p3 in
    let matched = filter (λ (h : HandleRef). selector_match h a.params) manifest.handles in
    let few = reject_if-eq-ok _ _ fits in
    let all =
      Picks-sort (λ h. selector_match h a.params ≡ true) manifest.handles matched budget.max_fanout
        (filter-Picks (λ h. selector_match h a.params) manifest.handles) (ground arith) in
    let holds : d ≡ RegData.handle_set selected =
      ap (λ (r : RegValue). r.reg_data) (ok-injective p4) ∙ e in
    let same =
      returned_set (selector_return_from_i32 selector.return_type) (sort_by by_ref matched) _ _
        (rw holds at gives) in
    rw (← same) all
