-- ===== src/Kernel/Assert/Citing.antt =====
-- What ASSERT gives does not depend on the order of the citations.
use mathlib.Core.List.{Permᴰ}
use mathlib.Core.List.Permᴰ.{nil, cons, swap, trans}
use cortex_v3_1_rmvm_relatio.Base.{
  ◌≡◌, ◌∙◌, String, List, [], ◌∷◌, ok, >>=-eq-ok, >>=-of-ok, >>-of-ok, >>-eq-ok,
}
use cortex_v3_1_rmvm_relatio.Base.Order.{string_ord}
use cortex_v3_1_rmvm_relatio.BTree.Set
use cortex_v3_1_rmvm_relatio.BTree.Set.{Set}
use cortex_v3_1_rmvm_relatio.BTree.Set.Comm.{insert_comm}
use cortex_v3_1_rmvm_relatio.Proto.Messages.{
  CitationRef, CanonicalCitation, OpAssert, VerifiedAssertion,
}
use cortex_v3_1_rmvm_relatio.Kernel.Types.{ExecuteOptions, RegValue, Regs}
use cortex_v3_1_rmvm_relatio.Kernel.Assert.{
  cite_text, cite_all, cite, canonicalize_citations, Bound, exec_assert,
}

module _ (opts : ExecuteOptions) where
  cite_all-of-ok :
      (c : CitationRef) (rest : List CitationRef) (unique : Set String) (text : String)
      {s : Set String}
      → cite_text opts c ≡ ok text
      → cite_all opts rest (Set.insert text unique) ≡ ok s
      → cite_all opts (c ∷ rest) unique ≡ ok s
  unfolding cite_all
  cite_all-of-ok c rest unique text e h = >>=-of-ok _ e ∙ h

  cite_all_perm :
      {xs ys : List CitationRef}
      → Permᴰ xs ys
      → (unique : Set String) {s : Set String} → cite_all opts xs unique ≡ ok s
      → cite_all opts ys unique ≡ ok s
  unfolding cite_all
  cite_all_perm nil unique h = h
  cite_all_perm (cons {a = a} {b = b} {l₂ = l₂} e p) unique h =
      let (text, one, rest) = >>=-eq-ok _ _ h in
      cite_all-of-ok b l₂ unique text (rw (← e) one) (cite_all_perm p _ rest)
  cite_all_perm (swap {a = a} {b = b} {a' = c} {b' = d} {l = l} e f) unique {s} h =
      let (t, one, p) = >>=-eq-ok _ _ h in
      let (u, two, rest) = >>=-eq-ok _ _ p in
      cite_all-of-ok c (d ∷ l) unique u (rw (← f) two) (
        cite_all-of-ok d l (Set.insert u unique) t (rw (← e) one)
          (rw (insert_comm t u unique) rest))
  cite_all_perm (trans p q) unique h = cite_all_perm q unique (cite_all_perm p unique h)

  cite_perm :
      {xs ys : List CitationRef}
      → Permᴰ xs ys
      → (provenance : Set String) {s : Set String} → cite xs provenance opts ≡ ok s
      → cite ys provenance opts ≡ ok s
  cite_perm nil provenance h = h
  cite_perm (cons e p) provenance h = cite_all_perm (cons e p) [] h
  cite_perm (swap e f) provenance h = cite_all_perm (swap e f) [] h
  cite_perm (trans p q) provenance h = cite_perm q provenance (cite_perm p provenance h)

  canonicalize_perm :
      {xs ys : List CitationRef}
      → Permᴰ xs ys
      → (provenance : Set String) {cs : List CanonicalCitation}
      → canonicalize_citations xs provenance opts ≡ ok cs
      → canonicalize_citations ys provenance opts ≡ ok cs
  unfolding canonicalize_citations
  canonicalize_perm p provenance h =
      let (unique, cited, e) = >>=-eq-ok _ _ h in >>=-of-ok _ (cite_perm p provenance cited) ∙ e

  -- When ASSERT succeeds, it gives the same register and the same assertion for the same citations in
  -- any other order.
  pub exec_assert_perm :
      (a : OpAssert) (regs : Regs) (xs ys : List CitationRef) (out : RegValue × VerifiedAssertion)
      → Permᴰ xs ys
      → exec_assert (record a { citations = xs }) regs opts ≡ ok out
      → exec_assert (record a { citations = ys }) regs opts ≡ ok out
  unfolding exec_assert
  exec_assert_perm a regs xs ys out p h =
      let (known, h1) = >>-eq-ok _ _ h in
      let (bound, binds, h2) = >>=-eq-ok {A = Bound} _ _ h1 in
      let (passes, h3) = >>-eq-ok _ _ h2 in
      let (cs, cited, h4) = >>=-eq-ok {A = List CanonicalCitation} _ _ h3 in
      let again = canonicalize_perm p bound.provenance cited in
      >>-of-ok _ known ∙ (>>=-of-ok _ binds ∙ (>>-of-ok _ passes ∙ (>>=-of-ok _ again ∙ h4)))
