-- ===== src/Kernel/Sound/Registers.antt =====
-- RESOLVE, FILTER, JOIN and PROJECT give sound registers from sound registers.
use cortex_v3_1_rmvm_relatio.Base.{
  ◌≡◌, subst, Bool, true, false, String, List, [], ◌∷◌, some, All, All-imp, map, inl, inr,
  if◌then◌else◌, Bool-cases, ok, ok_or, >>=-eq-ok, >>-eq-ok, ok_or-eq-ok, ok-injective,
}
use mathlib.Core.Option.{some-injective}
use cortex_v3_1_rmvm_relatio.Base.Order.{string_ord, int_ord}
use cortex_v3_1_rmvm_relatio.BTree.Map.{Map, get}
use cortex_v3_1_rmvm_relatio.BTree.Map.Laws.{get-AllValues, insert-AllValues, AllValues}
use cortex_v3_1_rmvm_relatio.BTree.Sort.{All-sort_by}
use cortex_v3_1_rmvm_relatio.Proto.Enums.{EdgeType, edge_type_from_i32}
use cortex_v3_1_rmvm_relatio.Proto.Messages.{HandleRef, Value, OpResolve, OpFilter, OpJoin}
use cortex_v3_1_rmvm_relatio.Kernel.Types.{
  ExecStop, NormalizedBudget, RegData, handle, handle_set, struct, RegValue, Regs,
}
use cortex_v3_1_rmvm_relatio.Kernel.Fields.{as_handles}
use cortex_v3_1_rmvm_relatio.Kernel.Selector.{by_ref}
use cortex_v3_1_rmvm_relatio.Kernel.Resolve.{
  Ranked, rank, by_rank, ranked, winner, first_handle, exec_resolve,
}
use cortex_v3_1_rmvm_relatio.Kernel.Filter.{filter_handles, exec_filter}
use cortex_v3_1_rmvm_relatio.Kernel.Join.{include, join_right, join_left, exec_join}
use cortex_v3_1_rmvm_relatio.Kernel.Sound.{facts, Covers, IsSound, data_handles}
use cortex_v3_1_rmvm_relatio.Kernel.Sound.Rules.{Covers-Weaker, Weaker-left, Weaker-right, joined}

module _ (P : HandleRef → Type 0) where
  -- the handles that an operation reads are those of the register
  pub as_handles-All :
      (r : RegValue) {hs : List HandleRef}
      → as_handles r ≡ ok hs
      → All P (data_handles r.reg_data)
      → All P hs
  unfolding as_handles
  as_handles-All r {hs} p c = go r.reg_data p c
    where
      open r use {reg_data}

      go :
          (d : RegData)
          → as_handles (record r { reg_data = d }) ≡ ok hs
          → All P (data_handles d)
          → All P hs
      go (handle h) e a = subst (All P) (ok-injective e) a
      go (handle_set xs) e a = subst (All P) (ok-injective e) a
      go (struct fields) e a = cc

  ranked-All : (hs : List HandleRef) → All P hs → All (λ (r : Ranked). P r.handle) (ranked hs)
  unfolding ranked rank
  ranked-All hs a = All-sort_by by_rank (λ (r : Ranked). P r.handle) _ (ranks hs a)
    where
      ranks : (hs : List HandleRef) → All P hs → All (λ (r : Ranked). P r.handle) (map rank hs)
      ranks [] a = tt
      ranks (h ∷ hs) a = (a.0, ranks hs a.1)

  pub winner-All : (hs : List HandleRef) {h : HandleRef} → winner hs ≡ ok h → All P hs → P h
  unfolding winner
  winner-All hs {h} p a =
      let (nonempty, p1) = >>-eq-ok _ _ p in
      let (untied, p2) = >>-eq-ok _ _ p1 in first (ranked hs) (ok_or-eq-ok _ _ p2) (ranked-All hs a)
    where
      first :
          (rs : List Ranked) → first_handle rs ≡ some h → All (λ (r : Ranked). P r.handle) rs → P h
      first [] e a = cc
      first (r ∷ rs) e a = subst P (some-injective r.handle h e) a.0

  pub filter_handles-All :
      (name : String) (ps : Map String Value) (hs : List HandleRef) {kept : List HandleRef}
      → filter_handles name ps hs ≡ ok kept
      → All P hs
      → All P kept
  unfolding filter_handles
  filter_handles-All name ps [] p a = subst (All P) (ok-injective p) tt
  filter_handles-All name ps (h ∷ hs) {kept} p a =
      let (keep, tested, p1) = >>=-eq-ok _ _ p in
      let (rest, filtered, p2) = >>=-eq-ok _ _ p1 in
      let tail = filter_handles-All name ps hs filtered a.1 in
      subst (All P) (ok-injective p2) (keep_or_drop keep rest a.0 tail)
    where
      keep_or_drop :
          (b : Bool) (rest : List HandleRef)
          → P h
          → All P rest
          → All P (if b then h ∷ rest else rest)
      keep_or_drop true rest ph t = (ph, t)
      keep_or_drop false rest ph t = t

  pub join_right-All :
      (edge : EdgeType) (l : HandleRef) (rs : List HandleRef) (m : Map String HandleRef)
      → P l
      → All P rs
      → AllValues P m
      → AllValues P (join_right edge l rs m)
  unfolding join_right
  join_right-All edge l [] m pl a h = h
  join_right-All edge l (r ∷ rs) m pl a h =
      join_right-All edge l rs _ pl a.1 (elim (Bool-cases (include edge l r)) [
        | inl yes_pair ↦
            rw yes_pair (insert-AllValues P r.ref r _ a.0 (insert-AllValues P l.ref l m pl h))
        | inr no_pair ↦ rw no_pair h
      ])

  pub join_left-All :
      (edge : EdgeType) (ls rs : List HandleRef) (m : Map String HandleRef)
      → All P ls
      → All P rs
      → AllValues P m
      → AllValues P (join_left edge ls rs m)
  unfolding join_left
  join_left-All edge [] rs m al ar h = h
  join_left-All edge (l ∷ ls) rs m al ar h =
      join_left-All edge ls rs (join_right edge l rs m) al.1 ar
        (join_right-All edge l rs m al.0 ar h)

module _ (handles : List HandleRef) (params : List Value) where
  -- an input register that is read is sound
  pub input-IsSound :
      (k : String) (regs : Regs) (e : ExecStop) {r : RegValue}
      → AllValues (IsSound handles params) regs
      → ok_or (get k regs) e ≡ ok r
      → IsSound handles params r
  input-IsSound k regs e s p = get-AllValues (IsSound handles params) k regs s (ok_or-eq-ok _ _ p)

  pub resolve-IsSound :
      (op : OpResolve) (regs : Regs) {r : RegValue}
      → exec_resolve op regs ≡ ok r
      → AllValues (IsSound handles params) regs
      → IsSound handles params r
  unfolding exec_resolve
  resolve-IsSound op regs {r} p s =
      let (input, got, p1) = >>=-eq-ok _ _ p in
      let (hs, read, p2) = >>=-eq-ok _ _ p1 in
      let (best, won, p3) = >>=-eq-ok _ _ p2 in
      let sound = input-IsSound op.in_reg regs _ s got in
      let P = Covers handles (facts input) in
      let covered = winner-All P hs won (as_handles-All P input read sound.handles_covered) in
      subst (IsSound handles params) (ok-injective p3)
        (record { handles_covered = (covered, tt); values_traced = tt })

  pub filter-IsSound :
      (op : OpFilter) (regs : Regs) (budget : NormalizedBudget) {r : RegValue}
      → exec_filter op regs budget ≡ ok r
      → AllValues (IsSound handles params) regs
      → IsSound handles params r
  unfolding exec_filter
  filter-IsSound op regs budget {r} p s =
      let (input, got, p1) = >>=-eq-ok _ _ p in
      let (hs, read, p2) = >>=-eq-ok _ _ p1 in
      let (kept, passed, p3) = >>=-eq-ok _ _ p2 in
      let (fits, p4) = >>-eq-ok _ _ p3 in
      let sound = input-IsSound op.in_reg regs _ s got in
      let P = Covers handles (facts input) in
      let covered =
        filter_handles-All P op.filter_ref op.params hs passed
          (as_handles-All P input read sound.handles_covered) in
      subst (IsSound handles params) (ok-injective p4)
        (record { handles_covered = All-sort_by by_ref P kept covered; values_traced = tt })

  pub join-IsSound :
      (op : OpJoin) (regs : Regs) (budget : NormalizedBudget) {r : RegValue}
      → exec_join op regs budget ≡ ok r
      → AllValues (IsSound handles params) regs
      → IsSound handles params r
  unfolding exec_join
  join-IsSound op regs budget {r} p s =
      let (left, gotl, p1) = >>=-eq-ok _ _ p in
      let (right, gotr, p2) = >>=-eq-ok _ _ p1 in
      let (known, p3) = >>-eq-ok _ _ p2 in
      let (ls, readl, p4) = >>=-eq-ok _ _ p3 in
      let (rs, readr, p5) = >>=-eq-ok _ _ p4 in
      let (fits, p6) = >>-eq-ok _ _ p5 in
      let sl = input-IsSound op.left_reg regs _ s gotl in
      let sr = input-IsSound op.right_reg regs _ s gotr in
      let f = facts left in
      let g = facts right in
      let P = Covers handles (joined f g) in
      let al = All-imp (λ h c. Covers-Weaker (Weaker-left f g) c) _ sl.handles_covered in
      let ar = All-imp (λ h c. Covers-Weaker (Weaker-right f g) c) _ sr.handles_covered in
      let covered =
        join_left-All P (edge_type_from_i32 op.edge_type) ls rs [] (as_handles-All P left readl al)
          (as_handles-All P right readr ar) tt in
      subst (IsSound handles params) (ok-injective p6)
        (record { handles_covered = covered; values_traced = tt })
