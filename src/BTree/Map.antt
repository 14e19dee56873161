-- ===== src/BTree/Map.antt =====
-- `BTreeMap`: the entries in increasing order of their keys.
pub mod Laws
pub mod Entries
use Prim.Native.Nat.Ordering.{lt, eq, gt}
use cortex_v3_1_rmvm_relatio.Base.{Bool, true, false, List, [], ◌∷◌, Option, none, some, map}
use cortex_v3_1_rmvm_relatio.Base.Order.{Ord}

abbrev pub Map {ℓ κ} : Type ℓ → Type κ → Type (ℓ ⊔ κ)
Map K V = List (K × V)

abbrev pub empty {ℓ κ} : {K : Type ℓ} {V : Type κ} → Map K V
empty = []

module _ {ℓ κ} {K : Type ℓ} {V : Type κ} where
  abbrev pub values : Map K V → List V
  values [] = []
  values ((k, v) ∷ m) = v ∷ values m

  abbrev pub keys : Map K V → List K
  keys [] = []
  keys ((k, v) ∷ m) = k ∷ keys m

module _ {ℓ κ} {K : Type ℓ} {V : Type κ} ⦃o : Ord K⦄ where
  unfoldable pub get : K → Map K V → Option V
  get k [] = none
  get k ((j, v) ∷ m) = elim (o.cmp k j) [ eq ↦ some v | _ ↦ get k m ]

  unfoldable pub insert : K → V → Map K V → Map K V
  insert k v [] = (k, v) ∷ []
  insert k v ((j, w) ∷ m) = elim (o.cmp k j) [
    | lt ↦ (k, v) ∷ (j, w) ∷ m
    | eq ↦ (k, v) ∷ m
    | gt ↦ (j, w) ∷ insert k v m
  ]

  unfoldable pub remove : K → Map K V → Map K V
  remove k [] = []
  remove k ((j, w) ∷ m) = elim (o.cmp k j) [ eq ↦ m | _ ↦ (j, w) ∷ remove k m ]

  -- later entries win, as in `collect`
  unfoldable pub insert_all : List (K × V) → Map K V → Map K V
  unfolding insert
  insert_all [] m = m
  insert_all ((k, v) ∷ r) m = insert_all r (insert k v m)
