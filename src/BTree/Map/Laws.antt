-- ===== src/BTree/Map/Laws.antt =====
-- A read after a write, and that the order of the keys is kept.
use Prim.Native.Nat.Ordering.{lt}
use cortex_v3_1_rmvm_relatio.Base.{◌≡◌, refl, List, [], ◌∷◌, All, arith, if◌then◌else◌, none, some}
use cortex_v3_1_rmvm_relatio.Base.Order.{Ord}
use cortex_v3_1_rmvm_relatio.BTree.Set.Laws.{same}
use cortex_v3_1_rmvm_relatio.BTree.Map.{Map, get, insert, remove, insert_all, values}

module _ {ℓ κ} {K : Type ℓ} {V : Type κ} ⦃o : Ord K⦄ where
  pub get-insert :
      (k j : K) (v : V) (m : Map K V)
      → get j (insert k v m) ≡ (if same j k then some v else get j m)
  unfolding get insert
  get-insert k j v [] = ground arith
  get-insert k j v ((x, w) ∷ m) =
      ground
        (arith, get-insert k j v m, o.eq_of_cmp k x, o.eq_of_cmp j k, o.eq_of_cmp j x, o.cmp_refl x)

  pub get-insert_self : (k : K) (v : V) (m : Map K V) → get k (insert k v m) ≡ some v
  get-insert_self k v m = ground (arith, get-insert k k v m, o.cmp_refl k)

  -- every value that a key reads has the property
  abbrev pub AllValues {μ} : (V → Type μ) → Map K V → Type μ
  AllValues P m = All P (values m)

  pub get-AllValues {μ} :
      (P : V → Type μ) (k : K) (m : Map K V) {v : V} → AllValues P m → get k m ≡ some v → P v
  unfolding get
  get-AllValues P k [] h e = cc
  get-AllValues P k ((x, w) ∷ m) {v} h e = ground (arith, get-AllValues P k m {v = v} h.1)

  pub insert-AllValues {μ} :
      (P : V → Type μ) (k : K) (v : V) (m : Map K V)
      → P v
      → AllValues P m
      → AllValues P (insert k v m)
  unfolding insert
  insert-AllValues P k v [] p h = (p, tt)
  insert-AllValues P k v ((x, w) ∷ m) p h = ground (arith, insert-AllValues P k v m)

  pub insert_all-AllValues {μ} :
      (P : V → Type μ) (r : List (K × V)) (m : Map K V)
      → AllValues P r
      → AllValues P m
      → AllValues P (insert_all r m)
  unfolding insert_all
  insert_all-AllValues P [] m hr h = h
  insert_all-AllValues P ((k, v) ∷ r) m hr h =
      insert_all-AllValues P r (insert k v m) hr.1 (insert-AllValues P k v m hr.0 h)

  abbrev pub AllKeys {μ} : (K → Type μ) → Map K V → Type μ
  AllKeys P [] = Unit
  AllKeys P ((k, v) ∷ m) = P k × AllKeys P m

  pub AllKeys-imp {μ ν} :
      {P : K → Type μ} {Q : K → Type ν}
      → ((k : K) → P k → Q k)
      → (m : Map K V) → AllKeys P m
      → AllKeys Q m
  AllKeys-imp f [] h = tt
  AllKeys-imp f ((k, v) ∷ m) h = (f k h.0, AllKeys-imp f m h.1)

  -- strictly increasing keys
  abbrev pub IsSorted : Map K V → Type 0
  IsSorted [] = Unit
  IsSorted ((k, v) ∷ m) = AllKeys (λ x. o.cmp k x ≡ lt) m × IsSorted m

  Above-insert :
      (b k : K) (v : V) (m : Map K V)
      → o.cmp b k ≡ lt
      → AllKeys (λ x. o.cmp b x ≡ lt) m
      → AllKeys (λ x. o.cmp b x ≡ lt) (insert k v m)
  unfolding insert
  Above-insert b k v [] h a = (h, tt)
  Above-insert b k v ((x, w) ∷ m) h a = ground (arith, Above-insert b k v m)

  pub insert-IsSorted : (k : K) (v : V) (m : Map K V) → IsSorted m → IsSorted (insert k v m)
  unfolding insert
  insert-IsSorted k v [] h = (tt, tt)
  insert-IsSorted k v ((x, w) ∷ m) h = ground (
    arith,
    insert-IsSorted k v m,
    Above-insert x k v m,
    o.lt_of_gt k x,
    o.eq_of_cmp k x,
    λ (p : o.cmp k x ≡ lt).
        AllKeys-imp {P = λ y. o.cmp x y ≡ lt} {Q = λ y. o.cmp k y ≡ lt}
          (λ y q. o.lt_trans k x y p q) m h.0,
  )

  pub get-below : (k : K) (m : Map K V) → AllKeys (λ x. o.cmp k x ≡ lt) m → get k m ≡ none
  unfolding get
  get-below k [] h = refl
  get-below k ((x, w) ∷ m) h = ground (arith, get-below k m)

  -- a removed key is gone, and the others stay
  pub get-remove :
      (k j : K) (m : Map K V)
      → IsSorted m
      → get j (remove k m) ≡ (if same j k then none else get j m)
  unfolding get remove
  get-remove k j [] h = ground arith
  get-remove k j ((x, w) ∷ m) h = ground (
    arith,
    get-remove k j m h.1,
    get-below j m,
    o.eq_of_cmp k x,
    o.eq_of_cmp j k,
    o.eq_of_cmp j x,
    o.cmp_refl x,
  )

  remove-AllKeys {μ} : (P : K → Type μ) (k : K) (m : Map K V) → AllKeys P m → AllKeys P (remove k m)
  unfolding remove
  remove-AllKeys P k [] h = tt
  remove-AllKeys P k ((x, w) ∷ m) h = ground (arith, remove-AllKeys P k m)

  pub remove-IsSorted : (k : K) (m : Map K V) → IsSorted m → IsSorted (remove k m)
  unfolding remove
  remove-IsSorted k [] h = tt
  remove-IsSorted k ((x, w) ∷ m) h =
      ground (arith, remove-IsSorted k m, remove-AllKeys (λ y. o.cmp x y ≡ lt) k m h.0)
