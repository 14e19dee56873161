-- ===== src/Grpc/Forgotten.antt =====
-- Which handles `forget` removes, told by the fields of its request.
use Prim.Native.String.{compare}
use cortex_v3_1_rmvm_relatio.Base.{
  ℕ, zero, suc, ◌≤◌, ◌≡◌, refl, subst, ◌↔◌, ◌&&◌, not, Bool, true, false, String, List, [], ◌∷◌,
  some, unwrap_or, map, arith, format, str_eq, eq_iff, Bool-cases, Option-cases, inl, inr,
}
use cortex_v3_1_rmvm_relatio.Base.Int.{ℤ, pos, negsuc}
use cortex_v3_1_rmvm_relatio.Base.Order.{string_ord}
use cortex_v3_1_rmvm_relatio.BTree.Set.{contains}
use cortex_v3_1_rmvm_relatio.BTree.Set.Laws as Set
use cortex_v3_1_rmvm_relatio.BTree.Map.{Map, get}
use cortex_v3_1_rmvm_relatio.BTree.Map.Laws.{IsSorted}
use cortex_v3_1_rmvm_relatio.BTree.Sort.{sort_by}
use cortex_v3_1_rmvm_relatio.Proto.Enums.{Scope, scope_try_from}
use cortex_v3_1_rmvm_relatio.Proto.Messages.{
  HandleMeta, HandleRef, CanonicalCitation, VerifiedAssertion,
}
use cortex_v3_1_rmvm_relatio.Grpc.Service.{
  ServiceState, ForgetRequest, other_scope, is_forgotten, forgotten_keys, remove_all, forget,
}
use cortex_v3_1_rmvm_relatio.Grpc.Handles.{
  get-remove_all, remove_all-IsSorted, contains-forgotten, sort-forgotten,
}

-- an empty field of the request admits every handle
abbrev pub Admits : String → String → Type 0
Admits wanted actual = (wanted ≡ "" → ⊥) → actual ≡ wanted

-- The handles that a request is about: a subject, a predicate and one of the five scopes each restrict
-- them, if the request names them.
pub record Matches (req : ForgetRequest) (h : HandleRef) : Type 0 where
  pub meta : HandleMeta
  pub has_meta : h.meta ≡ some meta
  pub subject : Admits req.subject meta.subject
  pub predicate_label : Admits req.predicate_label meta.predicate_label
  pub scope : (n : ℕ) → 1 ≤ n → n ≤ 5 → req.scope ≡ pos n → meta.scope ≡ pos n

abbrev is_other : ℤ → ℤ → Bool
is_other wanted scope = other_scope (unwrap_or (scope_try_from wanted) Scope.unspecified) scope

is_other-numbered : (n : ℕ) (s : ℤ) → is_other (pos n) s ≡ false → 1 ≤ n → n ≤ 5 → s ≡ pos n
unfolding scope_try_from
is_other-numbered zero s h a b = absurd (omega arith)
is_other-numbered (suc zero) s h a b = ground arith
is_other-numbered (suc (suc zero)) s h a b = ground arith
is_other-numbered (suc (suc (suc zero))) s h a b = ground arith
is_other-numbered (suc (suc (suc (suc zero)))) s h a b = ground arith
is_other-numbered (suc (suc (suc (suc (suc zero))))) s h a b = ground arith
is_other-numbered (suc (suc (suc (suc (suc (suc n)))))) s h a b = absurd (omega arith)

is_other-admitted :
    (z s : ℤ) → ((n : ℕ) → 1 ≤ n → n ≤ 5 → z ≡ pos n → s ≡ pos n) → is_other z s ≡ false
unfolding scope_try_from
is_other-admitted (negsuc n) s h = refl
is_other-admitted (pos zero) s h = refl
is_other-admitted (pos (suc zero)) s h = rw (h 1 (omega arith) (omega arith) refl) refl
is_other-admitted (pos (suc (suc zero))) s h = rw (h 2 (omega arith) (omega arith) refl) refl
is_other-admitted (pos (suc (suc (suc zero)))) s h = rw (h 3 (omega arith) (omega arith) refl) refl
is_other-admitted (pos (suc (suc (suc (suc zero))))) s h =
    rw (h 4 (omega arith) (omega arith) refl) refl
is_other-admitted (pos (suc (suc (suc (suc (suc zero)))))) s h =
    rw (h 5 (omega arith) (omega arith) refl) refl
is_other-admitted (pos (suc (suc (suc (suc (suc (suc n))))))) s h = refl

is_forgotten-Matches :
    (req : ForgetRequest) (h : HandleRef) → is_forgotten req h ≡ true → Matches req h
unfolding is_forgotten
is_forgotten-Matches req h e = elim (Option-cases h.meta) [
  | inl missing ↦ ground arith
  | inr (m, present) ↦ record {
    meta = m;
    has_meta = present;
    subject = λ named. ground (arith, eq_iff req.subject "", eq_iff m.subject req.subject);
    predicate_label = λ named.
        ground (arith, eq_iff req.predicate_label "", eq_iff m.predicate_label req.predicate_label);
    scope = λ n low high asked.
        is_other-numbered n m.scope (subst (λ z. is_other z m.scope ≡ false) asked (ground arith))
          low high;
  }
]

admitted :
    (wanted actual : String)
    → Admits wanted actual
    → (not (str_eq wanted "") && not (str_eq actual wanted)) ≡ false
admitted wanted actual a = elim (Bool-cases (str_eq wanted "")) [
  | inl none_asked ↦ ground arith
  | inr asked ↦
      let same = a (λ e. ground (arith, eq_iff wanted "")) in ground (arith, eq_iff actual wanted)
]

Matches-is_forgotten :
    (req : ForgetRequest) (h : HandleRef) → Matches req h → is_forgotten req h ≡ true
unfolding is_forgotten
Matches-is_forgotten req h c =
    rw
      (
        c.has_meta,
        admitted req.subject c.meta.subject c.subject,
        admitted req.predicate_label c.meta.predicate_label c.predicate_label,
        is_other-admitted req.scope c.meta.scope c.scope,
      )
      refl

-- a handle is among the removed ones
contains-Matches :
    (req : ForgetRequest) (k : String) (m : Map String HandleRef)
    → IsSorted m
    → contains k (forgotten_keys req m) ≡ true
      ↔ ((h : HandleRef) × (get k m ≡ some h) × Matches req h)
contains-Matches req k m sorted = elim (Option-cases (get k m)) [
  | inl missing ↦ (λ e. ground (arith, contains-forgotten req k m sorted), λ (h, e, c). cc)
  | inr (h, present) ↦ (
    λ e. (
      h,
      present,
      is_forgotten-Matches req h (ground (arith, contains-forgotten req k m sorted)),
    ),
    λ (h', e, c). ground (arith, contains-forgotten req k m sorted, Matches-is_forgotten req h' c),
  )
]

-- a handle is still there
get-unmatched :
    (req : ForgetRequest) (m : Map String HandleRef) (k : String) (h : HandleRef)
    → IsSorted m
    → get k (remove_all (forgotten_keys req m) m) ≡ some h
      ↔ ((get k m ≡ some h) × (Matches req h → ⊥))
get-unmatched req m k h sorted =
    let (matched, matches) = contains-Matches req k m sorted in
    elim (Bool-cases (contains k (forgotten_keys req m))) [
      | inl removed ↦ (
        λ e. ground (arith, get-remove_all k (forgotten_keys req m) m sorted),
        λ (e, unmatched).
            let (h', e', c) = matched removed in
            let is_h : h' ≡ h = cc in absurd (unmatched (subst (Matches req) is_h c)),
      )
      | inr left ↦
          let same = get-remove_all k (forgotten_keys req m) m sorted in
          (
            λ e.
                let was : get k m ≡ some h = ground arith in
                (was, λ c. let again = matches (h, was, c) in cc),
            λ (e, unmatched). ground arith,
          )
    ]

abbrev pub cited : String → CanonicalCitation
cited k = record { anchor_digest = format ("handle:" ∷ k ∷ []) }

-- On sorted handles, a handle reads the same after forget if it was there and does not match the
-- request, and nothing else is there; the answer cites each handle that was there and matches,
-- once, in order, and no other; the handles stay sorted. A handle matches if it has metadata with
-- the subject and the predicate of the request, where the request's are not empty, and with its
-- scope, where that is one of the five named ones.
pub forget_lem :
    (req : ForgetRequest) (st : ServiceState)
    → IsSorted st.handles
    → IsSorted (forget req st).0.handles
      × ((k : String) (h : HandleRef)
          → get k (forget req st).0.handles ≡ some h
            ↔ ((get k st.handles ≡ some h) × (Matches req h → ⊥)))
      × (removed : List String) × Set.IsSorted removed
      × ((k : String)
          → contains k removed ≡ true
            ↔ ((h : HandleRef) × (get k st.handles ≡ some h) × Matches req h))
      × (map (λ (a : VerifiedAssertion). a.citations) (forget req st).1.assertions
          ≡ map cited removed ∷ [])
unfolding forget
forget_lem req st sorted =
    let (unmoved, in_order) = sort-forgotten req st.handles sorted in
    let keys = sort_by compare (forgotten_keys req st.handles) in
    (
      remove_all-IsSorted keys st.handles sorted,
      λ k h. rw unmoved (get-unmatched req st.handles k h sorted),
      forgotten_keys req st.handles,
      in_order,
      λ k. contains-Matches req k st.handles sorted,
      rw unmoved refl,
    )
