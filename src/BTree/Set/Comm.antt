-- ===== src/BTree/Set/Comm.antt =====
-- The order of insertion leaves no trace.
use cortex_v3_1_rmvm_relatio.Base.{◌≡◌, [], ◌∷◌, arith}
use cortex_v3_1_rmvm_relatio.Base.Order.{Ord}
use cortex_v3_1_rmvm_relatio.BTree.Set.{Set, insert}

module _ {ℓ} {K : Type ℓ} ⦃o : Ord K⦄ where
  pub insert_comm : (a b : K) (s : Set K) → insert a (insert b s) ≡ insert b (insert a s)
  unfolding insert
  insert_comm a b [] =
      ground (arith, o.eq_of_cmp a b, o.eq_of_cmp b a, o.lt_of_gt a b, o.gt_of_lt a b)
  insert_comm a b (x ∷ s) = ground (
    arith,
    insert_comm a b s,
    o.eq_of_cmp a b,
    o.lt_of_gt a b,
    o.gt_of_lt a b,
    o.eq_of_cmp a x,
    o.eq_of_cmp b x,
    o.cmp_refl a,
    o.cmp_refl x,
    o.lt_of_gt a x,
    o.lt_of_gt b x,
    o.gt_of_lt a x,
    o.gt_of_lt b x,
    o.lt_trans a x b,
    o.lt_trans b x a,
  )

  pub insert_twice : (a : K) (s : Set K) → insert a (insert a s) ≡ insert a s
  unfolding insert
  insert_twice a [] = ground (arith, o.cmp_refl a)
  insert_twice a (x ∷ s) = ground (arith, insert_twice a s, o.cmp_refl a)
