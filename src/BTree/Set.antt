-- ===== src/BTree/Set.antt =====
-- `BTreeSet`: a list in increasing order.
pub mod Laws
pub mod Comm
use Prim.Native.Nat.Ordering.{lt, eq, gt}
use cortex_v3_1_rmvm_relatio.Base.{Bool, true, false, List, [], ◌∷◌}
use cortex_v3_1_rmvm_relatio.Base.Order.{Ord}

abbrev pub Set {ℓ} : Type ℓ → Type ℓ
Set K = List K

abbrev pub empty {ℓ} : {K : Type ℓ} → Set K
empty = []

module _ {ℓ} {K : Type ℓ} ⦃o : Ord K⦄ where
  unfoldable pub contains : K → Set K → Bool
  contains k [] = false
  contains k (x ∷ s) = elim (o.cmp k x) [ eq ↦ true | _ ↦ contains k s ]

  unfoldable pub insert : K → Set K → Set K
  insert k [] = k ∷ []
  insert k (x ∷ s) = elim (o.cmp k x) [ lt ↦ k ∷ x ∷ s | eq ↦ x ∷ s | gt ↦ x ∷ insert k s ]

  -- `s.extend(items)`; `extend empty` collects.
  unfoldable pub extend : Set K → List K → Set K
  unfolding insert
  extend s [] = s
  extend s (k ∷ r) = extend (insert k s) r

  -- `a.union(b).collect()`
  unfoldable pub union : Set K → Set K → Set K
  unfolding extend
  union a b = extend a b
