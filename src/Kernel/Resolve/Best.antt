-- ===== src/Kernel/Resolve/Best.antt =====
-- The winner of RESOLVE ranks above every other candidate.
use Prim.Native.Nat.Ordering.{lt, gt}
use cortex_v3_1_rmvm_relatio.Base.{
  ◌≡◌, ◌≢◌, refl, sym, ◌∙◌, ap, inl, inr, ◌⊎◌, ◌<◌, false, List, [], ◌∷◌, some, map, All, All-imp,
  Listed, Listed-All, arith, ◌==◌, ◌&&◌, ok, >>=-eq-ok, >>-eq-ok, ok_or-eq-ok, reject_if-eq-ok,
  ok-injective,
}
use cortex_v3_1_rmvm_relatio.Base.Order.{string_ord, int_ord, compare_ℤ, cmp-le_trans}
use cortex_v3_1_rmvm_relatio.BTree.Map.{get}
use cortex_v3_1_rmvm_relatio.BTree.Sort.{sort_by, All-sort_by}
use cortex_v3_1_rmvm_relatio.BTree.Sort.Sorted.{
  Preorder, IsSorted, sort_by-IsSorted, All-sort_by_back,
}
use cortex_v3_1_rmvm_relatio.Proto.Messages.{HandleRef, OpResolve}
use cortex_v3_1_rmvm_relatio.Kernel.Types.{RegData, RegValue, Regs}
use cortex_v3_1_rmvm_relatio.Kernel.Fields.{as_handles}
use cortex_v3_1_rmvm_relatio.Kernel.Resolve.{
  Ranked, rank, by_rank, same_ts, is_tied, first_handle, ranked, winner, exec_resolve,
}

by_rank-Preorder : Preorder by_rank
by_rank-Preorder = record {
  flip = λ x y h k. ground (
    arith,
    int_ord.lt_of_gt x.ts y.ts,
    int_ord.gt_of_lt x.ts y.ts,
    int_ord.eq_of_cmp x.ts y.ts,
    int_ord.eq_of_cmp y.ts x.ts,
    string_ord.lt_of_gt x.ref y.ref,
  );
  le_trans = λ x y z h k. ground (
    arith,
    cmp-le_trans x.ref y.ref z.ref,
    int_ord.lt_trans z.ts y.ts x.ts,
    int_ord.eq_of_cmp y.ts x.ts,
    int_ord.eq_of_cmp z.ts y.ts,
    int_ord.cmp_refl x.ts,
  );
}

-- a better candidate: more trust, or as much trust and a later time
abbrev pub Outranks : Ranked → Ranked → Type 0
Outranks best other =
    (other.trust < best.trust) ⊎ ((other.trust ≡ best.trust) × (compare_ℤ other.ts best.ts ≡ lt))

-- the first two of a sorted list are not tied: the first outranks all the others
beats_later :
    (a c k : Ranked)
    → (c.trust == a.trust && same_ts a.ts c.ts) ≡ false
    → by_rank a c ≢ gt
    → by_rank c k ≢ gt
    → Outranks a k
beats_later a c k apart h g = ground (
  arith,
  int_ord.lt_trans k.ts c.ts a.ts,
  int_ord.eq_of_cmp k.ts c.ts,
  int_ord.eq_of_cmp c.ts a.ts,
  int_ord.cmp_refl a.ts,
  int_ord.lt_of_gt c.ts a.ts,
)

beats_second :
    (a c : Ranked)
    → (c.trust == a.trust && same_ts a.ts c.ts) ≡ false
    → by_rank a c ≢ gt
    → Outranks a c
beats_second a c apart h =
    ground (arith, int_ord.eq_of_cmp c.ts a.ts, int_ord.cmp_refl a.ts, int_ord.lt_of_gt c.ts a.ts)

-- the best of a list of candidates
pub record IsBest (best : HandleRef) (handles : List HandleRef) : Type 0 where
  pub candidate : Listed best handles
  pub others : All (λ other. (other ≡ best) ⊎ Outranks (rank best) (rank other)) handles

abbrev Top : Ranked → List Ranked → Type 0
Top a rs = Listed a rs × All (λ r. (r ≡ a) ⊎ Outranks a r) rs

first_of_sorted :
    (rs : List Ranked) {best : HandleRef}
    → IsSorted by_rank rs
    → is_tied rs ≡ false
    → first_handle rs ≡ some best
    → (a : Ranked) × (a.handle ≡ best) × Top a rs
first_of_sorted [] s t f = cc
first_of_sorted (a ∷ []) s t f = (a, cc, (inl refl, (inl refl, tt)))
first_of_sorted (a ∷ c ∷ rest) s t f =
    let apart : (c.trust == a.trust && same_ts a.ts c.ts) ≡ false = ground arith in
    (
      a,
      cc,
      (
        inl refl,
        (
          inl refl,
          (
            inr (beats_second a c apart s.0.0),
            All-imp (λ k g. inr (beats_later a c k apart s.0.0 g)) rest s.1.0,
          ),
        ),
      ),
    )

-- every ranked candidate is the rank of a handle of the list
ranks :
    (handles : List HandleRef)
    → All (λ r. Listed r.handle handles × (r ≡ rank r.handle)) (map rank handles)
unfolding rank
ranks [] = tt
ranks (h ∷ hs) = ((inl refl, refl), All-imp (λ r p. (inr p.0, p.1)) (map rank hs) (ranks hs))

All-unmap :
    (P : Ranked → Type 0) (hs : List HandleRef) → All P (map rank hs) → All (λ h. P (rank h)) hs
All-unmap P [] h = tt
All-unmap P (x ∷ hs) h = (h.0, All-unmap P hs h.1)

handle-rank : (h : HandleRef) → (rank h).handle ≡ h
unfolding rank
handle-rank h = refl

winner-IsBest :
    (handles : List HandleRef) {best : HandleRef} → winner handles ≡ ok best → IsBest best handles
unfolding winner ranked
winner-IsBest handles {best} p =
    let (some_, p1) = >>-eq-ok _ _ p in
    let (untied, p2) = >>-eq-ok _ _ p1 in
    let rs = sort_by by_rank (map rank handles) in
    let (a, is, (listed, top)) =
      first_of_sorted rs (sort_by-IsSorted by_rank by_rank-Preorder (map rank handles))
        (reject_if-eq-ok _ _ untied) (ok_or-eq-ok _ _ p2) in
    let (named, ranks_a) =
      Listed-All _ rs (All-sort_by by_rank _ (map rank handles) (ranks handles)) listed in
    let others = All-unmap _ handles (All-sort_by_back by_rank _ (map rank handles) top) in
    let mine : a ≡ rank best = rw (← is) ranks_a in
    record {
      candidate = rw (← is) named;
      others =
          All-imp
            (λ h c. elim c [
              | inl same ↦ inl (
                  sym (handle-rank h)
                  ∙ (ap (λ (r : Ranked). r.handle) (same ∙ mine) ∙ handle-rank best))
              | inr below ↦ inr (rw (← mine) below)
            ])
            handles others;
    }

-- RESOLVE gives a handle of its input register that outranks every other one: it has more trust, or
-- as much trust and a later start of validity. What was traced of the register is kept.
pub exec_resolve-IsBest :
    (r : OpResolve) (regs : Regs) (out : RegValue)
    → exec_resolve r regs ≡ ok out
    → (input : RegValue) × (handles : List HandleRef) × (best : HandleRef) × (get r.in_reg regs
        ≡ some input)
      × (as_handles input ≡ ok handles)
      × (out.reg_data ≡ RegData.handle best)
      × (out.provenance ≡ input.provenance)
      × IsBest best handles
unfolding exec_resolve
exec_resolve-IsBest r regs out p =
    let (input, got, p1) = >>=-eq-ok _ _ p in
    let (handles, read, p2) = >>=-eq-ok _ _ p1 in
    let (best, won, p3) = >>=-eq-ok _ _ p2 in
    (
      input,
      handles,
      best,
      ok_or-eq-ok _ _ got,
      read,
      sym (ap (λ (r : RegValue). r.reg_data) (ok-injective p3)),
      sym (ap (λ (r : RegValue). r.provenance) (ok-injective p3)),
      winner-IsBest handles won,
    )
