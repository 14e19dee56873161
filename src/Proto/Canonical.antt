-- ===== src/Proto/Canonical.antt =====
-- src/lib.rs of crates/rmvm-proto: the canonical bytes and hash of an assertion.
pub mod Order
use Prim.Native.Nat.{Ordering}
use Prim.Native.String.{compare}
use cortex_v3_1_rmvm_relatio.Base.{ℕ, String, List, Option}
use cortex_v3_1_rmvm_relatio.BTree.Sort.{sort_by}
use cortex_v3_1_rmvm_relatio.Proto.Messages.{CanonicalCitation, VerifiedAssertion}

-- What the crates prost, sha2 and hex compute.
pub record Hashing : Type 0 where
  pub encode_to_vec : VerifiedAssertion → List ℕ
  pub sha256 : List ℕ → List ℕ
  pub hex_encode : List ℕ → String
  pub hex_decode : String → Option (List ℕ)

abbrev pub by_digest : CanonicalCitation → CanonicalCitation → Ordering
by_digest a b = compare a.anchor_digest b.anchor_digest

module _ (h : Hashing) where
  unfoldable pub sha256_hex : List ℕ → String
  sha256_hex bytes = h.hex_encode (h.sha256 bytes)

  unfoldable pub canonical_assertion_bytes : VerifiedAssertion → List ℕ
  canonical_assertion_bytes assertion =
      h.encode_to_vec (record assertion { citations = sort_by by_digest assertion.citations })

  unfoldable pub canonical_assertion_hash : VerifiedAssertion → String
  unfolding sha256_hex canonical_assertion_bytes
  canonical_assertion_hash assertion = sha256_hex (canonical_assertion_bytes assertion)
