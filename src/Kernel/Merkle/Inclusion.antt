-- ===== src/Kernel/Merkle/Inclusion.antt =====
-- The tree over the leaves: the siblings of each leaf are found, and lead to the root.
use cortex_v3_1_rmvm_relatio.Base.{
  ℕ, zero, suc, ◌+◌, ◌/◌, ◌<◌, ◌≡◌, refl, sym, ◌∙◌, ap, true, String, List, [], ◌∷◌, some, ltb,
  Bool-cases, inl, inr, get_elem?, get_elem?-All, get_elem?-of_lt, length, All, arith, ok, ◌>>=◌,
}
use mathlib.Core.Option.{some-injective}
use cortex_v3_1_rmvm_relatio.Proto.Messages.{InclusionProof}
use cortex_v3_1_rmvm_relatio.Proto.Canonical.{Hashing}
use cortex_v3_1_rmvm_relatio.Kernel.Budget.{as_u32}
use cortex_v3_1_rmvm_relatio.Kernel.Merkle.{
  Digest, but_last, last?, hash_pair, next_level, levels_from, siblings, inclusion_from, sib_idx,
}
use cortex_v3_1_rmvm_relatio.Kernel.Merkle.Paths.{
  IsBytes, HashingLaws, parent, recompute, beside, length-next_level, next_level-IsBytes,
}

module _ (h : Hashing) (laws : HashingLaws h) where
  -- the siblings of a node are found, and lead from it to the root
  abbrev pub Leads : List (List Digest) → Digest → ℕ → Digest → Type 0
  Leads levels root cur x =
      (path : List String) × (siblings h (but_last levels) cur ≡ ok path)
      × (recompute h cur x path ≡ some root)

  pub record IsTree (level : List Digest) (levels : List (List Digest)) : Type 0 where
    pub root : Digest
    pub top : last? levels ≡ some (root ∷ [])
    pub leads : (cur : ℕ) (x : Digest) → get_elem? level cur ≡ some x → Leads levels root cur x

  climb :
      (level below : List Digest) (levels : List (List Digest)) (root : Digest) (cur : ℕ)
      (x : Digest)
      → All IsBytes level
      → ((c : ℕ) (y : Digest)
          → get_elem? (next_level h level) c ≡ some y
          → Leads (below ∷ levels) root c y)
      → get_elem? level cur ≡ some x
      → Leads (level ∷ below ∷ levels) root cur x
  unfolding siblings recompute ◌>>=◌
  climb level below levels root cur x bytes up e =
      let (s, at, next) = beside h level cur x e in
      let (path, found, done) = up (cur / 2) (parent h cur x s) next in
      let decoded =
        laws.decode_encode s (get_elem?-All IsBytes level (sib_idx level cur) bytes at) in
      (h.hex_encode s ∷ path, rw (at, found), rw decoded done)

  levels_from-head :
      (fuel : ℕ) (level : List Digest)
      → (above : List (List Digest)) × (levels_from h fuel level ≡ level ∷ above)
  unfolding levels_from
  levels_from-head zero level = ([], refl)
  levels_from-head (suc fuel) level = elim (Bool-cases (ltb 1 (length level))) [
    | inl more ↦ (levels_from h fuel (next_level h level), rw more)
    | inr last ↦ ([], rw last)
  ]

  one-IsTree : (x : Digest) → IsTree (x ∷ []) ((x ∷ []) ∷ [])
  unfolding siblings recompute ◌>>=◌
  one-IsTree x = record { root = x; top = refl; leads = leads }
    where
      leads :
          (cur : ℕ) (y : Digest) → get_elem? (x ∷ []) cur ≡ some y → Leads ((x ∷ []) ∷ []) x cur y
      leads zero y e = ([], refl, sym e)
      leads (suc cur) y e = cc

  grow-IsTree :
      (level below : List Digest) (levels : List (List Digest))
      → All IsBytes level
      → below ≡ next_level h level
      → IsTree below (below ∷ levels)
      → IsTree level (level ∷ below ∷ levels)
  grow-IsTree level below levels bytes e t = record {
    root = t.root;
    top = t.top;
    leads =
        λ cur x at. climb level below levels t.root cur x bytes (λ c y p. t.leads c y (rw e p)) at;
  }

  next_level-cons :
      (x y : Digest) (level : List Digest)
      → next_level h (x ∷ y ∷ level) ≡ hash_pair h x y ∷ next_level h level
  unfolding next_level
  next_level-cons x y level = refl

  wide : (n : ℕ) → ltb 1 (suc (suc n)) ≡ true
  wide n = ground arith

  pub levels-IsTree :
      (fuel : ℕ) (x : Digest) (level : List Digest)
      → length level < fuel
      → All IsBytes (x ∷ level)
      → IsTree (x ∷ level) (levels_from h fuel (x ∷ level))
  unfolding levels_from
  levels-IsTree zero x level enough bytes = elim enough [ ]
  levels-IsTree (suc fuel) x [] enough bytes = one-IsTree x
  levels-IsTree (suc fuel) x (y ∷ level) enough bytes =
      let below = hash_pair h x y ∷ next_level h level in
      let same = next_level-cons x y level in
      let short : length (next_level h level) < fuel = omega (arith, length-next_level h level) in
      let bytes' : All IsBytes below = rw same at (next_level-IsBytes h laws (x ∷ y ∷ level)) in
      let up = levels-IsTree fuel (hash_pair h x y) (next_level h level) short bytes' in
      let (above, e) = levels_from-head fuel below in
      rw (wide (length level))
        (rw same (rw e (grow-IsTree (x ∷ y ∷ level) below above bytes (sym same) (rw e at up))))

  -- what the proofs of the leaves from `idx` on are
  pub record AreProofs (leaves : List Digest) (root : Digest) (idx n : ℕ) (ps : List InclusionProof)
      : Type 0 where
    pub count : length ps ≡ n
    pub at :
        (i : ℕ) (x : Digest)
        → get_elem? leaves (idx + i) ≡ some x
        → i < n
        → (p : InclusionProof) × (get_elem? ps i ≡ some p)
          × (p.assertion_index ≡ as_u32 (idx + i))
          × (recompute h (idx + i) x p.sibling_hashes ≡ some root)

  cons-AreProofs :
      (leaves : List Digest) (root : Digest) (idx n : ℕ) (x : Digest) (path : List String)
      (ps : List InclusionProof)
      → get_elem? leaves idx ≡ some x
      → recompute h idx x path ≡ some root
      → AreProofs leaves root (idx + 1) n ps
      → AreProofs leaves root idx
          (suc n)
          (record { assertion_index = as_u32 idx; sibling_hashes = path } ∷ ps)
  cons-AreProofs leaves root idx n x path ps g done r = record { count = ap suc r.count; at = at }
    where
      here : idx + 0 ≡ idx
      here = omega arith

      there : (i : ℕ) → idx + suc i ≡ idx + 1 + i
      there i = omega arith

      at :
          (i : ℕ) (y : Digest)
          → get_elem? leaves (idx + i) ≡ some y
          → i < suc n
          → (p : InclusionProof) × (get_elem?
                (record { assertion_index = as_u32 idx; sibling_hashes = path } ∷ ps)
                i
              ≡ some p)
            × (p.assertion_index ≡ as_u32 (idx + i))
            × (recompute h (idx + i) y p.sibling_hashes ≡ some root)
      at zero y gy lt =
          let same : x ≡ y = some-injective x y (sym g ∙ (rw here at gy)) in
          (
            record { assertion_index = as_u32 idx; sibling_hashes = path },
            refl,
            rw here,
            rw here (rw (← same) done),
          )
      at (suc i) y gy lt =
          let (p, f, k, d) = r.at i y (rw (there i) at gy) (omega arith) in
          (p, f, rw (there i) k, rw (there i) d)

  pub inclusion_from_lem :
      (leaves : List Digest) (levels : List (List Digest)) (t : IsTree leaves levels) (n idx : ℕ)
      → idx + n ≡ length leaves
      → (ps : List InclusionProof) × (inclusion_from h (but_last levels) idx n ≡ ok ps)
        × AreProofs leaves t.root idx n ps
  unfolding inclusion_from ◌>>=◌
  inclusion_from_lem leaves levels t zero idx e =
      ([], refl, record { count = refl; at = λ i x g lt. elim lt [ ] })
  inclusion_from_lem leaves levels t (suc n) idx e =
      let (x, g) = get_elem?-of_lt leaves idx (omega arith) in
      let (path, found, done) = t.leads idx x g in
      let (ps, others, r) = inclusion_from_lem leaves levels t n (idx + 1) (omega arith) in
      (_, rw (found, others), cons-AreProofs leaves t.root idx n x path ps g done r)
