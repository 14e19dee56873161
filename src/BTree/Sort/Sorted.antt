-- ===== src/BTree/Sort/Sorted.antt =====
-- What a sort by a total preorder gives: a sorted list, with the elements of the list.
use Prim.Native.Nat.{Ordering}
use Prim.Native.Nat.Ordering.{gt}
use cortex_v3_1_rmvm_relatio.Base.{◌≡◌, ◌≢◌, List, [], ◌∷◌, All, All-imp, arith}
use cortex_v3_1_rmvm_relatio.BTree.Sort.{place, sort_by, All-place}

-- what `sort_by` asks of a comparison
pub record Preorder {ℓ} {A : Type ℓ} (cmp : A → A → Ordering) : Type ℓ where
  pub flip : (x y : A) → cmp x y ≡ gt → cmp y x ≢ gt
  pub le_trans : (x y z : A) → cmp x y ≢ gt → cmp y z ≢ gt → cmp x z ≢ gt

module _ {ℓ} {A : Type ℓ} (cmp : A → A → Ordering) where
  abbrev pub LeAll : A → List A → Type 0
  LeAll x ys = All (λ y. cmp x y ≢ gt) ys

  abbrev pub IsSorted : List A → Type 0
  IsSorted [] = Unit
  IsSorted (x ∷ xs) = LeAll x xs × IsSorted xs

  All-place_back {κ} :
      (P : A → Type κ) (x : A) (ys : List A) → All P (place cmp x ys) → P x × All P ys
  unfolding place
  All-place_back P x [] h = h
  All-place_back P x (y ∷ ys) h = ground (arith, All-place_back P x ys)

  -- nothing is lost
  pub All-sort_by_back {κ} : (P : A → Type κ) (xs : List A) → All P (sort_by cmp xs) → All P xs
  unfolding sort_by
  All-sort_by_back P [] h = tt
  All-sort_by_back P (x ∷ xs) h =
      let (hx, hs) = All-place_back P x (sort_by cmp xs) h in (hx, All-sort_by_back P xs hs)

  module _ (o : Preorder cmp) where
    LeAll-trans : (x y : A) (ys : List A) → cmp x y ≢ gt → LeAll y ys → LeAll x ys
    LeAll-trans x y ys h l = All-imp (λ z k. o.le_trans x y z h k) ys l

    place-IsSorted : (x : A) (ys : List A) → IsSorted ys → IsSorted (place cmp x ys)
    unfolding place
    place-IsSorted x [] h = (tt, tt)
    place-IsSorted x (y ∷ ys) h = ground (
      arith,
      place-IsSorted x ys,
      All-place cmp (λ z. cmp y z ≢ gt) x ys,
      o.flip x y,
      LeAll-trans x y ys,
    )

    pub sort_by-IsSorted : (xs : List A) → IsSorted (sort_by cmp xs)
    unfolding sort_by
    sort_by-IsSorted [] = tt
    sort_by-IsSorted (x ∷ xs) = place-IsSorted x (sort_by cmp xs) (sort_by-IsSorted xs)
