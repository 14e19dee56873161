-- ===== src/Grpc/Handles.antt =====
-- What the loop of `forget` leaves of the map of handles: lookups after the removals, and the order of
-- the keys that it removes.
use Prim.Native.Nat.Ordering.{lt}
use Prim.Native.String.{compare}
use cortex_v3_1_rmvm_relatio.Base.{
  ◌≡◌, refl, false, String, List, [], ◌∷◌, none, unwrap_or, map_option, arith, if◌then◌else◌,
}
use cortex_v3_1_rmvm_relatio.Base.Order.{string_ord}
use cortex_v3_1_rmvm_relatio.BTree.Set.{contains}
use cortex_v3_1_rmvm_relatio.BTree.Set.Laws as Set
use cortex_v3_1_rmvm_relatio.BTree.Map.{Map, get, remove}
use cortex_v3_1_rmvm_relatio.BTree.Map.Laws.{AllKeys, IsSorted, get-remove}
use cortex_v3_1_rmvm_relatio.BTree.Sort.{place, sort_by}
use cortex_v3_1_rmvm_relatio.Proto.Messages.{HandleRef}
use cortex_v3_1_rmvm_relatio.Grpc.Service.{ForgetRequest, is_forgotten, forgotten_keys, remove_all}

AllKeys-remove {κ} :
    (P : String → Type κ) (k : String) (m : Map String HandleRef)
    → AllKeys P m
    → AllKeys P (remove k m)
unfolding remove
AllKeys-remove P k [] h = tt
AllKeys-remove P k ((x, w) ∷ m) h = ground (arith, AllKeys-remove P k m)

remove-IsSorted : (k : String) (m : Map String HandleRef) → IsSorted m → IsSorted (remove k m)
unfolding remove
remove-IsSorted k [] h = tt
remove-IsSorted k ((x, w) ∷ m) h =
    ground (arith, remove-IsSorted k m, AllKeys-remove (λ y. string_ord.cmp x y ≡ lt) k m)

pub get-remove_all :
    (j : String) (keys : List String) (m : Map String HandleRef)
    → IsSorted m
    → get j (remove_all keys m) ≡ (if contains j keys then none else get j m)
unfolding remove_all contains
get-remove_all j [] m h = ground arith
get-remove_all j (k ∷ keys) m h =
    ground (arith, get-remove_all j keys (remove k m) (remove-IsSorted k m h), get-remove k j m h)

pub remove_all-IsSorted :
    (keys : List String) (m : Map String HandleRef) → IsSorted m → IsSorted (remove_all keys m)
unfolding remove_all
remove_all-IsSorted [] m h = h
remove_all-IsSorted (k ∷ keys) m h = remove_all-IsSorted keys (remove k m) (remove-IsSorted k m h)

not_above :
    (req : ForgetRequest) (j : String) (m : Map String HandleRef)
    → AllKeys (λ x. string_ord.cmp j x ≡ lt) m
    → contains j (forgotten_keys req m) ≡ false
unfolding contains forgotten_keys
not_above req j [] h = refl
not_above req j ((x, w) ∷ m) h = ground (arith, not_above req j m)

pub contains-forgotten :
    (req : ForgetRequest) (j : String) (m : Map String HandleRef)
    → IsSorted m
    → contains j (forgotten_keys req m) ≡ unwrap_or (map_option (is_forgotten req) (get j m)) false
unfolding contains forgotten_keys get
contains-forgotten req j [] h = refl
contains-forgotten req j ((x, w) ∷ m) h =
    ground (arith, contains-forgotten req j m h.1, not_above req x m h.0, string_ord.eq_of_cmp j x)

Above-forgotten :
    (req : ForgetRequest) (j : String) (m : Map String HandleRef)
    → AllKeys (λ x. string_ord.cmp j x ≡ lt) m
    → Set.Above j (forgotten_keys req m)
unfolding forgotten_keys
Above-forgotten req j [] h = tt
Above-forgotten req j ((x, w) ∷ m) h = ground (arith, Above-forgotten req j m)

forgotten_keys-IsSorted :
    (req : ForgetRequest) (m : Map String HandleRef)
    → IsSorted m
    → Set.IsSorted (forgotten_keys req m)
unfolding forgotten_keys
forgotten_keys-IsSorted req [] h = tt
forgotten_keys-IsSorted req ((x, w) ∷ m) h =
    ground (arith, forgotten_keys-IsSorted req m, Above-forgotten req x m h.0)

place-least : (k : String) (s : List String) → Set.Above k s → place compare k s ≡ k ∷ s
unfolding place
place-least k [] h = refl
place-least k (x ∷ s) h = ground arith

sort_by-sorted : (s : List String) → Set.IsSorted s → sort_by compare s ≡ s
unfolding sort_by
sort_by-sorted [] h = refl
sort_by-sorted (x ∷ s) h = rw (sort_by-sorted s h.1) (place-least x s h.0)

-- the map lists its keys in order, so that the sort has nothing to do
pub sort-forgotten :
    (req : ForgetRequest) (m : Map String HandleRef)
    → IsSorted m
    → (sort_by compare (forgotten_keys req m) ≡ forgotten_keys req m)
      × Set.IsSorted (forgotten_keys req m)
sort-forgotten req m h =
    let s = forgotten_keys-IsSorted req m h in (sort_by-sorted (forgotten_keys req m) s, s)
