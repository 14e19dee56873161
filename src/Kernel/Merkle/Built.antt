-- ===== src/Kernel/Merkle/Built.antt =====
-- The proof of an execution: it is always built, and each inclusion proof leads to the root.
use cortex_v3_1_rmvm_relatio.Base.{
  ℕ, ◌+◌, ◌≡◌, refl, sym, ◌∙◌, map, String, List, [], ◌∷◌, some, get_elem?, get_elem?-map,
  get_elem?-lt, subst, ok-injective, as_bytes, join, length, length-map, All, arith, ok, ◌>>=◌,
  ◌>>◌,
}
use cortex_v3_1_rmvm_relatio.Proto.Messages.{
  VerifiedAssertion, InclusionProof, AssertionMerkleProof,
}
use cortex_v3_1_rmvm_relatio.Proto.Canonical.{
  Hashing, sha256_hex, canonical_assertion_hash, canonical_assertion_bytes,
}
use cortex_v3_1_rmvm_relatio.Kernel.Budget.{as_u32}
use cortex_v3_1_rmvm_relatio.Kernel.Merkle.{
  Digest, merkle_root_and_inclusion, leaf_of, leaves_of, build_proof,
}
use cortex_v3_1_rmvm_relatio.Kernel.Merkle.Paths.{
  IsBytes, HashingLaws, leaf_digest, recomputed_root,
}
use cortex_v3_1_rmvm_relatio.Kernel.Merkle.Inclusion.{AreProofs, levels-IsTree, inclusion_from_lem}

module _ (h : Hashing) (laws : HashingLaws h) where
  leaf_of_lem : (a : VerifiedAssertion) → leaf_of h a ≡ ok (leaf_digest h a)
  unfolding ◌>>=◌ ◌>>◌ leaf_of leaf_digest canonical_assertion_hash
  leaf_of_lem a =
      let bytes = canonical_assertion_bytes h a in
      rw (laws.decode_encode (h.sha256 bytes) (laws.digest_bytes bytes))
        (rw (laws.digest_length bytes))

  leaves_of_lem : (xs : List VerifiedAssertion) → leaves_of h xs ≡ ok (map (leaf_digest h) xs)
  unfolding leaves_of ◌>>=◌
  leaves_of_lem [] = refl
  leaves_of_lem (a ∷ rest) = rw (leaf_of_lem a, leaves_of_lem rest)

  leaf_digest-IsBytes : (xs : List VerifiedAssertion) → All IsBytes (map (leaf_digest h) xs)
  unfolding leaf_digest
  leaf_digest-IsBytes [] = tt
  leaf_digest-IsBytes (a ∷ rest) = (laws.digest_bytes _, leaf_digest-IsBytes rest)

  -- a proof of these assertions, whose inclusion proofs lead to its root
  record IsBuilt (assertions : List VerifiedAssertion) (proof : AssertionMerkleProof) : Type 0 where
    root : Digest
    semantic_root : proof.semantic_root ≡ h.hex_encode root
    proofs :
        AreProofs h laws (map (leaf_digest h) assertions) root 0 (length assertions) proof.inclusion

  merkle_lem :
      (leaves : List Digest) (n : ℕ)
      → All IsBytes leaves
      → length leaves ≡ n
      → (root : String) × (ps : List InclusionProof) × (r : Digest) × (merkle_root_and_inclusion h
            leaves
          ≡ ok (root, ps))
        × (root ≡ h.hex_encode r)
        × AreProofs h laws leaves r 0 n ps
  unfolding merkle_root_and_inclusion ◌>>=◌ sha256_hex
  merkle_lem [] n bytes e =
      let none_left : AreProofs h laws [] (h.sha256 []) 0 n [] = record {
        count = e;
        at = λ i x g lt. absurd (omega arith);
      } in
      (_, [], h.sha256 [], refl, refl, none_left)
  merkle_lem (x ∷ level) n bytes e =
      let t = levels-IsTree h laws (length (x ∷ level)) x level (omega arith) bytes in
      let (ps, found, r) =
        inclusion_from_lem h laws (x ∷ level) _ t (length (x ∷ level)) 0 (omega arith) in
      (
        _,
        ps,
        t.root,
        rw (t.top, found),
        refl,
        subst (λ k. AreProofs h laws (x ∷ level) t.root 0 k ps) e r,
      )

  build_proof_lem :
      (assertions : List VerifiedAssertion) (trace_tokens : List String)
      → (proof : AssertionMerkleProof) × (build_proof h assertions trace_tokens ≡ ok proof)
        × IsBuilt assertions proof
  unfolding build_proof ◌>>=◌
  build_proof_lem assertions trace_tokens =
      let (root, ps, r, found, same, proofs) =
        merkle_lem (map (leaf_digest h) assertions) (length assertions)
          (leaf_digest-IsBytes assertions) (length-map (leaf_digest h) assertions) in
      let proof : AssertionMerkleProof = record {
        semantic_root = root;
        trace_root = sha256_hex h (as_bytes (join "\n" trace_tokens));
        inclusion = ps;
      } in
      (
        proof,
        rw (leaves_of_lem assertions, found),
        record { root = r; semantic_root = same; proofs = proofs },
      )

  -- For hash and hex functions that keep their documented laws, `build_proof` never panics: it gives
  -- a proof, with one inclusion proof for each assertion.
  pub build_proof-total :
      (assertions : List VerifiedAssertion) (trace_tokens : List String)
      → (proof : AssertionMerkleProof) × (build_proof h assertions trace_tokens ≡ ok proof)
        × (length proof.inclusion ≡ length assertions)
  build_proof-total assertions trace_tokens =
      let (proof, e, b) = build_proof_lem assertions trace_tokens in (proof, e, b.proofs.count)

  -- Each assertion of a proof that `build_proof` gives has an inclusion proof at its own place, which
  -- carries its index as a `u32`, and from which the semantic root is recomputed out of the
  -- assertion's canonical hash alone: by hashing upwards, the sibling on the side that the index says.
  pub build_proof-verifies :
      (assertions : List VerifiedAssertion) (trace_tokens : List String)
      (proof : AssertionMerkleProof) (i : ℕ) (a : VerifiedAssertion)
      → build_proof h assertions trace_tokens ≡ ok proof
      → get_elem? assertions i ≡ some a
      → (p : InclusionProof) × (get_elem? proof.inclusion i ≡ some p)
        × (p.assertion_index ≡ as_u32 i)
        × (recomputed_root h i a p ≡ some proof.semantic_root)
  unfolding recomputed_root
  build_proof-verifies assertions trace_tokens proof i a built at =
      let (proof', e, b) = build_proof_lem assertions trace_tokens in
      let same : proof' ≡ proof = ok-injective (sym e ∙ built) in
      let zero_add : 0 + i ≡ i = omega arith in
      let leaf = get_elem?-map (leaf_digest h) assertions i at in
      let (p, found, index, done) =
        b.proofs.at i (leaf_digest h a) (rw zero_add leaf) (get_elem?-lt assertions i at) in
      (
        p,
        rw (← same) found,
        rw zero_add at index,
        rw (← same, b.semantic_root) (rw (rw zero_add at done)),
      )
