-- ===== src/Kernel/Merkle.antt =====
-- `build_proof`: the Merkle tree over the hashes of the assertions.
pub mod Paths
pub mod Inclusion
pub mod Built
use cortex_v3_1_rmvm_relatio.Base.{
  ℕ, zero, suc, ◌+◌, ◌-◌, ◌/◌, ◌%◌, Bool, String, List, [], ◌∷◌, ◌++◌, Option, none, some, ltb,
  ◌==◌, if◌then◌else◌, get_elem?, length, join, as_bytes, ok, err, ◌>>=◌, ◌>>◌, ok_or, reject_if,
  not,
}
use cortex_v3_1_rmvm_relatio.Proto.Messages.{
  VerifiedAssertion, InclusionProof, AssertionMerkleProof,
}
use cortex_v3_1_rmvm_relatio.Proto.Canonical.{Hashing, sha256_hex, canonical_assertion_hash}
use cortex_v3_1_rmvm_relatio.Kernel.Types.{ExecStop, Exec}
use cortex_v3_1_rmvm_relatio.Kernel.Budget.{as_u32}

-- `[u8; 32]`
abbrev pub Digest : Type 0
Digest = List ℕ

abbrev pub out_of_bounds : ExecStop
out_of_bounds = ExecStop.panic "index out of bounds"

-- the levels but the last, `levels[..levels.len() - 1]`
abbrev pub but_last {ℓ} : {A : Type ℓ} → List A → List A
but_last [] = []
but_last (x ∷ []) = []
but_last (x ∷ y ∷ r) = x ∷ but_last (y ∷ r)

abbrev pub last? {ℓ} : {A : Type ℓ} → List A → Option A
last? [] = none
last? (x ∷ []) = some x
last? (x ∷ y ∷ r) = last? (y ∷ r)

-- the sibling of a node; the last node of an odd level is its own
unfoldable pub sib_idx : List Digest → ℕ → ℕ
sib_idx level cur =
    if cur % 2 == 0 then (if ltb (cur + 1) (length level) then cur + 1 else cur) else cur - 1

module _ (h : Hashing) where
  unfoldable pub hash_pair : Digest → Digest → Digest
  hash_pair left right = h.sha256 (left ++ right)

  -- two nodes at a time, the last of an odd level paired with itself
  unfoldable pub next_level : List Digest → List Digest
  unfolding hash_pair
  next_level [] = []
  next_level (left ∷ []) = hash_pair left left ∷ []
  next_level (left ∷ right ∷ rest) = hash_pair left right ∷ next_level rest

  -- `while levels.last().len() > 1`; a level has fewer nodes than the one below
  unfoldable pub levels_from : ℕ → List Digest → List (List Digest)
  levels_from zero level = level ∷ []
  levels_from (suc fuel) level =
      let above = levels_from fuel (next_level level) in
      if ltb 1 (length level) then level ∷ above else level ∷ []

  unfoldable pub siblings : List (List Digest) → ℕ → Exec (List String)
  siblings [] cur = ok []
  siblings (level ∷ rest) cur = do
    sibling ← ok_or (get_elem? level (sib_idx level cur)) out_of_bounds
    others ← siblings rest (cur / 2)
    ok (h.hex_encode sibling ∷ others)

  -- `for idx in 0..leaves.len()`, with the rounds left
  unfoldable pub inclusion_from : List (List Digest) → ℕ → ℕ → Exec (List InclusionProof)
  unfolding siblings
  inclusion_from inner idx zero = ok []
  inclusion_from inner idx (suc n) = do
    sibling_hashes ← siblings inner idx
    others ← inclusion_from inner (idx + 1) n
    ok (record { assertion_index = as_u32 idx; sibling_hashes = sibling_hashes } ∷ others)

  root_of : List Digest → Exec String
  root_of level = do root ← ok_or (get_elem? level 0) out_of_bounds; ok (h.hex_encode root)

  unfoldable pub merkle_root_and_inclusion : List Digest → Exec (String × List InclusionProof)
  unfolding root_of
  merkle_root_and_inclusion [] = ok (sha256_hex h [], [])
  merkle_root_and_inclusion (l ∷ ls) = do
    let levels = levels_from (length (l ∷ ls)) (l ∷ ls)
    top ← ok_or (last? levels) out_of_bounds
    root ← root_of top
    inclusion ← inclusion_from (but_last levels) 0 (length (l ∷ ls))
    ok (root, inclusion)

  -- `copy_from_slice` wants 32 bytes
  unfoldable pub leaf_of : VerifiedAssertion → Exec Digest
  leaf_of a = do
    hash ← ok_or (h.hex_decode (canonical_assertion_hash h a)) (ExecStop.panic "hash decode")
    reject_if (not (length hash == 32)) (ExecStop.panic "copy_from_slice: length mismatch")
    ok hash

  unfoldable pub leaves_of : List VerifiedAssertion → Exec (List Digest)
  leaves_of [] = ok []
  leaves_of (a ∷ rest) = do leaf ← leaf_of a; leaves ← leaves_of rest; ok (leaf ∷ leaves)

  unfoldable pub build_proof : List VerifiedAssertion → List String → Exec AssertionMerkleProof
  build_proof assertions trace_tokens = do
    leaves ← leaves_of assertions
    (semantic_root, inclusion) ← merkle_root_and_inclusion leaves
    ok (record {
      semantic_root = semantic_root;
      trace_root = sha256_hex h (as_bytes (join "\n" trace_tokens));
      inclusion = inclusion;
    })
