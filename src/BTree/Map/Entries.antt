-- ===== src/BTree/Map/Entries.antt =====
-- Properties of the entries of a map.
use cortex_v3_1_rmvm_relatio.Base.{◌≡◌, [], ◌∷◌, arith, some}
use cortex_v3_1_rmvm_relatio.Base.Order.{Ord}
use cortex_v3_1_rmvm_relatio.BTree.Map.{Map, get, insert}

module _ {ℓ κ μ} {K : Type ℓ} {V : Type κ} ⦃o : Ord K⦄ (P : K → V → Type μ) where
  abbrev pub AllEntries : Map K V → Type μ
  AllEntries [] = Unit
  AllEntries ((k, v) ∷ m) = P k v × AllEntries m

  pub insert-AllEntries :
      (k : K) (v : V) (m : Map K V) → P k v → AllEntries m → AllEntries (insert k v m)
  unfolding insert
  insert-AllEntries k v [] p h = (p, tt)
  insert-AllEntries k v ((x, w) ∷ m) p h = ground (arith, insert-AllEntries k v m p)

  pub get-AllEntries : (k : K) (m : Map K V) {v : V} → AllEntries m → get k m ≡ some v → P k v
  unfolding get
  get-AllEntries k [] h e = cc
  get-AllEntries k ((x, w) ∷ m) {v} h e =
      ground (arith, get-AllEntries k m {v = v} h.1, o.eq_of_cmp k x)
