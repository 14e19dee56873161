-- ===== src/BTree/Sort/Comm.antt =====
-- A sort by a total order forgets the order of the list.
use Prim.Native.Nat.{Ordering}
use mathlib.Core.List.{Permᴰ}
use mathlib.Core.List.Permᴰ.{nil, cons, swap, trans}
use cortex_v3_1_rmvm_relatio.Base.{◌≡◌, refl, ◌∙◌, List, [], ◌∷◌, arith}
use cortex_v3_1_rmvm_relatio.Base.Order.{TotalOrder}
use cortex_v3_1_rmvm_relatio.BTree.Sort.{place, sort_by}

module _ {ℓ} {A : Type ℓ} (cmp : A → A → Ordering) (o : TotalOrder cmp) where
  place_comm : (a b : A) (s : List A) → place cmp a (place cmp b s) ≡ place cmp b (place cmp a s)
  unfolding place
  place_comm a b [] =
      ground (arith, o.eq_of_cmp a b, o.eq_of_cmp b a, o.lt_of_gt a b, o.gt_of_lt a b)
  place_comm a b (x ∷ s) = ground (
    arith,
    place_comm a b s,
    o.eq_of_cmp a b,
    o.lt_of_gt a b,
    o.gt_of_lt a b,
    o.eq_of_cmp a x,
    o.eq_of_cmp b x,
    o.cmp_refl a,
    o.cmp_refl x,
    o.lt_of_gt a x,
    o.lt_of_gt b x,
    o.gt_of_lt a x,
    o.gt_of_lt b x,
    o.lt_trans a x b,
    o.lt_trans b x a,
  )

  pub sort_by_perm : {xs ys : List A} → Permᴰ xs ys → sort_by cmp xs ≡ sort_by cmp ys
  unfolding sort_by
  sort_by_perm nil = refl
  sort_by_perm (cons {l₁ = l₁} {l₂ = l₂} e p) = rw (e, sort_by_perm p) refl
  sort_by_perm (swap {a = a} {b = b} {l = l} e d) = rw (← e, ← d) (place_comm a b (sort_by cmp l))
  sort_by_perm (trans p q) = sort_by_perm p ∙ sort_by_perm q
