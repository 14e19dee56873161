-- ===== src/Proto/Canonical/Order.antt =====
-- The canonical bytes of an assertion forget the order of its citations.
use mathlib.Core.List.{Permᴰ}
use cortex_v3_1_rmvm_relatio.Base.{◌≡◌, ap, String, List}
use cortex_v3_1_rmvm_relatio.Base.Order.{TotalOrder, string_ord}
use cortex_v3_1_rmvm_relatio.BTree.Sort.Comm.{sort_by_perm}
use cortex_v3_1_rmvm_relatio.Proto.Messages.{CanonicalCitation, VerifiedAssertion}
use cortex_v3_1_rmvm_relatio.Proto.Canonical.{
  Hashing, by_digest, sha256_hex, canonical_assertion_bytes, canonical_assertion_hash,
}

by_digest-TotalOrder : TotalOrder by_digest
by_digest-TotalOrder = record {
  lt_trans = λ x y z. string_ord.lt_trans x.anchor_digest y.anchor_digest z.anchor_digest;
  gt_of_lt = λ x y. string_ord.gt_of_lt x.anchor_digest y.anchor_digest;
  lt_of_gt = λ x y. string_ord.lt_of_gt x.anchor_digest y.anchor_digest;
  cmp_refl = λ x. string_ord.cmp_refl x.anchor_digest;
  eq_of_cmp = λ x y h.
      ap {B = CanonicalCitation} (λ (d : String). record { anchor_digest = d })
        (string_ord.eq_of_cmp x.anchor_digest y.anchor_digest h);
}

module _ (h : Hashing) where
  -- Two assertions that differ only in the order of their citations have one canonical hash.
  pub canonical_assertion_hash_perm :
      (a : VerifiedAssertion) (xs ys : List CanonicalCitation)
      → Permᴰ xs ys
      → canonical_assertion_hash h (record a { citations = xs })
        ≡ canonical_assertion_hash h (record a { citations = ys })
  unfolding canonical_assertion_hash canonical_assertion_bytes
  canonical_assertion_hash_perm a xs ys p =
      ap
        (λ (cs : List CanonicalCitation).
          sha256_hex h (h.encode_to_vec (record a { citations = cs })))
        (sort_by_perm by_digest by_digest-TotalOrder p)
