-- ===== src/Kernel/Sound/Fetching.antt =====
-- Each operation of the kernel gives a sound register from sound registers.
use native.Mathlib.Nat.{le_refl}
use cortex_v3_1_rmvm_relatio.Base.{
  ◌≡◌, subst, List, [], ◌∷◌, All, All-Listed, Listed, map, inl, inr, arith, Bool-cases, ok,
  >>=-eq-ok, ok_or-eq-ok, ok-injective,
}
use cortex_v3_1_rmvm_relatio.Base.Order.{string_ord, int_ord}
use cortex_v3_1_rmvm_relatio.BTree.Set.Laws.{contains-insert_self, contains-extend}
use cortex_v3_1_rmvm_relatio.BTree.Map.Laws.{get-AllValues, insert_all-AllValues, AllValues}
use cortex_v3_1_rmvm_relatio.Proto.Enums.{availability_from_i32}
use cortex_v3_1_rmvm_relatio.Proto.Messages.{HandleRef, Value, OpFetch}
use cortex_v3_1_rmvm_relatio.Kernel.Types.{ExecuteOptions, RegValue}
use cortex_v3_1_rmvm_relatio.Kernel.Fields.{handle_taint}
use cortex_v3_1_rmvm_relatio.Kernel.Budget.{handles_index}
use cortex_v3_1_rmvm_relatio.Kernel.Fetch.{exec_fetch, is_ready, fetched_reg, stalled_reg}
use cortex_v3_1_rmvm_relatio.Kernel.Sound.{IsSound}

handles_index-Listed :
    (handles : List HandleRef) → AllValues (λ h. Listed h handles) (handles_index handles)
unfolding handles_index
handles_index-Listed handles =
    insert_all-AllValues (λ h. Listed h handles) _ [] (indexed handles (All-Listed handles)) tt
  where
    indexed :
        (hs : List HandleRef)
        → All (λ h. Listed h handles) hs
        → AllValues (λ h. Listed h handles) (map (λ (h : HandleRef). (h.ref, h)) hs)
    indexed [] a = tt
    indexed (h ∷ hs) a = (a.0, indexed hs a.1)

module _ (handles : List HandleRef) (params : List Value) where
  fetched-IsSound : (h : HandleRef) → Listed h handles → IsSound handles params (fetched_reg h)
  fetched-IsSound h l = record {
    handles_covered = (
      record {
        listed = l;
        named = contains-insert_self h.ref [];
        trusted = le_refl _;
        tainted = λ t e. ground (arith, contains-extend t [] (handle_taint h));
      },
      tt,
    );
    values_traced = tt;
  }

  stalled-IsSound : IsSound handles params stalled_reg
  stalled-IsSound = record { handles_covered = tt; values_traced = tt }

  pub fetch-IsSound :
      (f : OpFetch) (opts : ExecuteOptions) {r : RegValue}
      → exec_fetch f (handles_index handles) opts ≡ ok r
      → IsSound handles params r
  unfolding exec_fetch
  fetch-IsSound f opts {r} p =
      let (h, got, e) = >>=-eq-ok _ _ p in
      let listed =
        get-AllValues (λ h. Listed h handles) f.handle_ref (handles_index handles)
          (handles_index-Listed handles) (ok_or-eq-ok _ _ got) in
      elim (Bool-cases (is_ready (availability_from_i32 h.availability))) [
        | inl ready ↦
            subst (IsSound handles params) (ok-injective (rw ready at e)) (fetched-IsSound h listed)
        | inr waiting ↦ elim (Bool-cases opts.allow_partial_on_stall) [
          | inl allowed ↦
              subst (IsSound handles params) (ok-injective (rw (waiting, allowed) at e))
                stalled-IsSound
          | inr refused ↦ let n : ⊥ = cc (rw (waiting, refused) at e) in absurd n
        ]
      ]
