-- ===== src/BTree/Set/Laws.antt =====
-- Membership after insertion, and that the order is kept.
use Prim.Native.Nat.Ordering.{lt, eq}
use cortex_v3_1_rmvm_relatio.Base.{◌≡◌, Bool, true, false, ◌||◌, List, [], ◌∷◌, All, All-imp, arith}
use cortex_v3_1_rmvm_relatio.Base.Order.{Ord}
use cortex_v3_1_rmvm_relatio.BTree.Set.{Set, contains, insert, extend, union}

module _ {ℓ} {K : Type ℓ} ⦃o : Ord K⦄ where
  -- the test `j == k` of the order
  abbrev pub same : K → K → Bool
  same j k = elim (o.cmp j k) [ eq ↦ true | _ ↦ false ]

  pub contains-insert : (k j : K) (s : Set K) → contains j (insert k s) ≡ (same j k || contains j s)
  unfolding contains insert
  contains-insert k j [] = ground arith
  contains-insert k j (x ∷ s) = ground (
    arith,
    contains-insert k j s,
    o.eq_of_cmp k x,
    o.eq_of_cmp j k,
    o.eq_of_cmp j x,
    o.cmp_refl x,
  )

  pub contains-insert_self : (k : K) (s : Set K) → contains k (insert k s) ≡ true
  contains-insert_self k s = rw contains-insert (ground (arith, o.cmp_refl k))

  pub contains-insert_old :
      (k j : K) (s : Set K) → contains j s ≡ true → contains j (insert k s) ≡ true
  contains-insert_old k j s h = ground (arith, contains-insert k j s)

  pub contains-extend_old :
      (j : K) (s : Set K) (r : List K) → contains j s ≡ true → contains j (extend s r) ≡ true
  unfolding extend
  contains-extend_old j s [] h = h
  contains-extend_old j s (k ∷ r) h =
      contains-extend_old j (insert k s) r (contains-insert_old k j s h)

  pub contains-extend :
      (j : K) (s : Set K) (r : List K) → contains j (extend s r) ≡ (contains j s || contains j r)
  unfolding extend contains
  contains-extend j s [] = ground arith
  contains-extend j s (k ∷ r) =
      ground (arith, contains-extend j (insert k s) r, contains-insert k j s)

  pub contains-union :
      (j : K) (a b : Set K) → contains j (union a b) ≡ (contains j a || contains j b)
  unfolding union
  contains-union j a b = contains-extend j a b

  -- strictly increasing
  abbrev pub Above : K → Set K → Type 0
  Above k s = All (λ x. o.cmp k x ≡ lt) s

  abbrev pub IsSorted : Set K → Type 0
  IsSorted [] = Unit
  IsSorted (x ∷ s) = Above x s × IsSorted s

  Above-insert : (b k : K) (s : Set K) → o.cmp b k ≡ lt → Above b s → Above b (insert k s)
  unfolding insert
  Above-insert b k [] h a = (h, tt)
  Above-insert b k (x ∷ s) h a = ground (arith, Above-insert b k s)

  pub insert-IsSorted : (k : K) (s : Set K) → IsSorted s → IsSorted (insert k s)
  unfolding insert
  insert-IsSorted k [] h = (tt, tt)
  insert-IsSorted k (x ∷ s) h = ground (
    arith,
    insert-IsSorted k s,
    Above-insert x k s,
    o.lt_of_gt k x,
    λ (p : o.cmp k x ≡ lt).
        All-imp {P = λ y. o.cmp x y ≡ lt} {Q = λ y. o.cmp k y ≡ lt} (λ y q. o.lt_trans k x y p q) s
          h.0,
  )

  pub extend-IsSorted : (s : Set K) (r : List K) → IsSorted s → IsSorted (extend s r)
  unfolding extend
  extend-IsSorted s [] h = h
  extend-IsSorted s (k ∷ r) h = extend-IsSorted (insert k s) r (insert-IsSorted k s h)
