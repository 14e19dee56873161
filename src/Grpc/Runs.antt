-- ===== src/Grpc/Runs.antt =====
-- The references that the service gives out along any sequence of `append_event` and `forget`.
use cortex_v3_1_rmvm_relatio.Base.{
  ℕ, ◌+◌, ◌^◌, ◌≤◌, ◌<◌, ◌≡◌, refl, sym, ◌∙◌, true, false, String, List, [], ◌∷◌, ◌++◌, some, All,
  All-imp, length, length-append, arith, Option-cases, Bool-cases, inl, inr,
}
use cortex_v3_1_rmvm_relatio.Base.Order.{string_ord}
use cortex_v3_1_rmvm_relatio.BTree.Set.{contains}
use cortex_v3_1_rmvm_relatio.BTree.Set.Laws.{same}
use cortex_v3_1_rmvm_relatio.BTree.Map.{get}
use cortex_v3_1_rmvm_relatio.Proto.Messages.{HandleRef}
use cortex_v3_1_rmvm_relatio.Grpc.Service.{
  ServiceState, AppendEventRequest, ForgetRequest, new, append_event, forget, parse_preference,
}
use cortex_v3_1_rmvm_relatio.Grpc.Forgotten.{forget_lem}
use cortex_v3_1_rmvm_relatio.Grpc.Appended.{
  reference, IsIssued, append_event-silent, append_event-stated, append_event_lem,
}
use cortex_v3_1_rmvm_relatio.Grpc.Stated.{parse_preference-States}

-- the references that were given out, the latest first, and the state
pub data Run : List String → ServiceState → Type 0 where
  started : Run [] new
  appended :
      {refs : List String} {st : ServiceState} (req : AppendEventRequest)
      → Run refs st
      → Run ((append_event req st).1.handle_refs ++ refs) (append_event req st).0
  forgot :
      {refs : List String} {st : ServiceState} (req : ForgetRequest)
      → Run refs st
      → Run refs (forget req st).0

abbrev pub AreDistinct : List String → Type 0
AreDistinct [] = Unit
AreDistinct (k ∷ ks) = (contains k ks ≡ false) × AreDistinct ks

abbrev GivenUpTo : ℕ → List String → Type 0
GivenUpTo n refs = All (λ k. (i : ℕ) × (i ≤ n) × (k ≡ reference i)) refs

contains-given :
    (n : ℕ) (ref : String) (refs : List String)
    → GivenUpTo n refs
    → ((i : ℕ) → i ≤ n → reference i ≡ ref → ⊥)
    → contains ref refs ≡ false
unfolding contains
contains-given n ref [] g later = refl
contains-given n ref (k ∷ ks) ((i, low, e), g) later =
    let other : ref ≡ k → ⊥ = λ same_ref. later i low (sym e ∙ sym same_ref) in
    ground (arith, contains-given n ref ks g later, string_ord.eq_of_cmp ref k)

-- the counter grows by one for a reference that is given out
next_handle_id-counts :
    (req : AppendEventRequest) (st : ServiceState)
    → st.next_handle_id + 1 < 2 ^ 64
    → (append_event req st).0.next_handle_id
      ≡ length (append_event req st).1.handle_refs + st.next_handle_id
next_handle_id-counts req st room = elim (Option-cases (parse_preference req.text)) [
  | inl silent ↦ rw (append_event-silent req st silent) (omega arith)
  | inr ((label, preference), stated) ↦
      rw
        (append_event-stated req st label preference stated
          (parse_preference-States req.text stated).0 room)
        (omega arith)
]

-- what every run keeps
record Keeps (refs : List String) (st : ServiceState) : Type 0 where
  issued : IsIssued st
  counted : st.next_handle_id ≡ length refs
  distinct : AreDistinct refs
  given : GivenUpTo st.next_handle_id refs
  held : (k : String) (h : HandleRef) → get k st.handles ≡ some h → contains k refs ≡ true

contains-later :
    (k : String) (front back : List String)
    → contains k back ≡ true
    → contains k (front ++ back) ≡ true
unfolding contains
contains-later k [] back h = h
contains-later k (x ∷ front) back h = ground (arith, contains-later k front back h)

contains-first :
    (k ref : String) (refs : List String) → same k ref ≡ true → contains k (ref ∷ refs) ≡ true
unfolding contains
contains-first k ref refs h = ground arith

Keeps-append_event :
    (req : AppendEventRequest) {refs : List String} {st : ServiceState}
    → st.next_handle_id + 1 < 2 ^ 64
    → Keeps refs st
    → Keeps ((append_event req st).1.handle_refs ++ refs) (append_event req st).0
Keeps-append_event req {refs} {st} room w =
    let (issued, cases) = append_event_lem req st w.issued room in
    let counts = next_handle_id-counts req st room in
    let earlier =
      All-imp {P = λ k. (i : ℕ) × (i ≤ st.next_handle_id) × (k ≡ reference i)}
        {Q = λ k. (i : ℕ) × (i ≤ (append_event req st).0.next_handle_id) × (k ≡ reference i)}
        (λ k (i, low, e). (i, omega arith, e)) refs w.given in
    elim cases [
      | inl (preference, states, ref, (answers, later, free, stored, others)) ↦
          let (own, i, positive, low, e) = issued.issued ref _ stored in
          rw answers (record {
            issued = issued;
            counted = rw (counts, answers) (omega (arith, w.counted));
            distinct = (contains-given st.next_handle_id ref refs w.given later, w.distinct);
            given = ((i, low, e), earlier);
            held = λ k h present. elim (Bool-cases (same k ref)) [
              | inl is_ref ↦ contains-first k ref refs is_ref
              | inr other ↦
                  contains-later k (ref ∷ []) refs (w.held k h (sym (others k other) ∙ present))
            ];
          })
      | inr (silent, answers, unchanged) ↦ rw answers (record {
        issued = issued;
        counted = rw (counts, answers) (omega (arith, w.counted));
        distinct = w.distinct;
        given = earlier;
        held = λ k h present. w.held k h (rw unchanged at present);
      })
    ]

Keeps-forget :
    (req : ForgetRequest) {refs : List String} {st : ServiceState}
    → Keeps refs st
    → Keeps refs (forget req st).0
unfolding forget
Keeps-forget req {refs} {st} w =
    let spec = forget_lem req st w.issued.sorted in
    record {
      issued = record {
        sorted = spec.0;
        issued = λ k h present. w.issued.issued k h ((spec.1 k h).0 present).0;
      };
      counted = w.counted;
      distinct = w.distinct;
      given = w.given;
      held = λ k h present. w.held k h ((spec.1 k h).0 present).0;
    }

Keeps-new : Keeps [] new
unfolding get
Keeps-new = record {
  issued = record { sorted = tt; issued = λ k h present. cc };
  counted = refl;
  distinct = tt;
  given = tt;
  held = λ k h present. cc;
}

Run-Keeps :
    {refs : List String} {st : ServiceState}
    → Run refs st
    → length refs + 1 < 2 ^ 64
    → Keeps refs st
Run-Keeps Run.started few = Keeps-new
Run-Keeps (Run.appended {refs} {st} req run) few =
    let fewer = length-append (append_event req st).1.handle_refs refs in
    let earlier = Run-Keeps run (omega arith) in
    Keeps-append_event req (rw earlier.counted (omega arith)) earlier
Run-Keeps (Run.forgot req run) few = Keeps-forget req (Run-Keeps run few)

-- Along any sequence of append_event and forget from a new service, with fewer than 2 ^ 64 - 1
-- references given out, no reference is given out twice, not even after the handle was forgotten;
-- and every handle of the state stands under its own reference, which was given out.
pub Run-AreDistinct :
    {refs : List String} {st : ServiceState}
    → Run refs st
    → length refs + 1 < 2 ^ 64
    → AreDistinct refs
      × ((k : String) (h : HandleRef)
          → get k st.handles ≡ some h
          → (h.ref ≡ k) × (contains k refs ≡ true))
Run-AreDistinct run few =
    let w = Run-Keeps run few in
    (w.distinct, λ k h present. ((w.issued.issued k h present).0, w.held k h present))
