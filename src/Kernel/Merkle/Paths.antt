-- ===== src/Kernel/Merkle/Paths.antt =====
-- One step up the tree: a node, its sibling, and their parent.
use cortex_v3_1_rmvm_relatio.Base.{
  ℕ, zero, suc, ◌+◌, ◌/◌, ◌%◌, ◌≤◌, ◌<◌, ◌≡◌, refl, String, List, [], ◌∷◌, Option, some, ◌==◌,
  if◌then◌else◌, and_then, map_option, get_elem?, length, All, arith,
}
use cortex_v3_1_rmvm_relatio.Proto.Messages.{VerifiedAssertion, InclusionProof}
use cortex_v3_1_rmvm_relatio.Proto.Canonical.{Hashing, canonical_assertion_bytes}
use cortex_v3_1_rmvm_relatio.Kernel.Merkle.{Digest, sib_idx, hash_pair, next_level}

abbrev pub IsBytes : Digest → Type 0
IsBytes d = All (λ x. x < 256) d

-- What is documented of the crates sha2 and hex.
pub record HashingLaws (h : Hashing) : Type 0 where
  pub digest_length : (bytes : List ℕ) → length (h.sha256 bytes) ≡ 32
  pub digest_bytes : (bytes : List ℕ) → IsBytes (h.sha256 bytes)
  pub decode_encode : (d : List ℕ) → IsBytes d → h.hex_decode (h.hex_encode d) ≡ some d

sib_idx-shift :
    (l r : Digest) (rest : List Digest) (cur : ℕ)
    → sib_idx (l ∷ r ∷ rest) (suc (suc cur)) ≡ suc (suc (sib_idx rest cur))
unfolding sib_idx
sib_idx-shift l r rest cur = ground arith

module _ (h : Hashing) where
  -- the parent, with the sibling on the side that the index says
  abbrev pub parent : ℕ → Digest → Digest → Digest
  parent cur node sibling =
      if cur % 2 == 0 then hash_pair h node sibling else hash_pair h sibling node

  -- what a verifier computes: from the leaf up, one sibling at a time
  unfoldable pub recompute : ℕ → Digest → List String → Option Digest
  recompute cur node [] = some node
  recompute cur node (s ∷ rest) =
      and_then (h.hex_decode s) (λ sibling. recompute (cur / 2) (parent cur node sibling) rest)

  abbrev pub Sibling : List Digest → ℕ → Digest → Type 0
  Sibling level cur x =
      (sibling : Digest) × (get_elem? level (sib_idx level cur) ≡ some sibling)
      × (get_elem? (next_level h level) (cur / 2) ≡ some (parent cur x sibling))

  pub beside :
      (level : List Digest) (cur : ℕ) (x : Digest)
      → get_elem? level cur ≡ some x
      → Sibling level cur x
  unfolding sib_idx next_level
  beside [] cur x e = cc
  beside (l ∷ []) zero x e = (l, refl, cc)
  beside (l ∷ []) (suc cur) x e = cc
  beside (l ∷ r ∷ rest) zero x e = (r, ground arith, cc)
  beside (l ∷ r ∷ rest) (suc zero) x e = (l, refl, cc)
  beside (l ∷ r ∷ rest) (suc (suc cur)) x e =
      let (s, at, up) = beside rest cur x e in
      let half : suc (suc cur) / 2 ≡ suc (cur / 2) = omega arith in
      let even : suc (suc cur) % 2 ≡ cur % 2 = omega arith in
      (s, rw (sib_idx-shift l r rest cur) at, rw (half, even) up)

  pub length-next_level :
      (level : List Digest)
      → length (next_level h level) + length (next_level h level) ≤ length level + 1
  unfolding next_level
  length-next_level [] = omega arith
  length-next_level (l ∷ []) = omega arith
  length-next_level (l ∷ r ∷ rest) = omega (arith, length-next_level rest)

  pub next_level-IsBytes : HashingLaws h → (level : List Digest) → All IsBytes (next_level h level)
  unfolding next_level hash_pair
  next_level-IsBytes laws [] = tt
  next_level-IsBytes laws (l ∷ []) = (laws.digest_bytes _, tt)
  next_level-IsBytes laws (l ∷ r ∷ rest) = (laws.digest_bytes _, next_level-IsBytes laws rest)

  -- the leaf of an assertion, and a verifier's check of its inclusion proof
  unfoldable pub leaf_digest : VerifiedAssertion → Digest
  leaf_digest a = h.sha256 (canonical_assertion_bytes h a)

  unfoldable pub recomputed_root : ℕ → VerifiedAssertion → InclusionProof → Option String
  recomputed_root i a p = map_option h.hex_encode (recompute i (leaf_digest a) p.sibling_hashes)
