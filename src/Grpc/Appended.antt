-- ===== src/Grpc/Appended.antt =====
-- What `append_event` adds to the state, whatever the text of the event states.
use cortex_v3_1_rmvm_relatio.Base.{
  ℕ, ◌+◌, ◌^◌, ◌≤◌, ◌<◌, ◌≡◌, refl, sym, ap, ◌∙◌, false, String, [], ◌∷◌, none, some, arith, format,
  show, Option-cases, inl, inr, ◌⊎◌, Bool-cases,
}
use cortex_v3_1_rmvm_relatio.Base.Text.Decimal.{format-show_injective}
use cortex_v3_1_rmvm_relatio.Base.Order.{string_ord}
use cortex_v3_1_rmvm_relatio.BTree.Set.Laws.{same}
use cortex_v3_1_rmvm_relatio.BTree.Map.{get, insert}
use cortex_v3_1_rmvm_relatio.BTree.Map.Laws.{IsSorted, get-insert, get-insert_self, insert-IsSorted}
use cortex_v3_1_rmvm_relatio.Proto.Messages.{HandleRef}
use cortex_v3_1_rmvm_relatio.Grpc.Service.{
  ServiceState, AppendEventRequest, next_id, parse_preference, preference_handle, append_event,
}
use cortex_v3_1_rmvm_relatio.Grpc.Stated.{States, parse_preference-States, parse_preference-none}

-- the reference with a number
abbrev pub reference : ℕ → String
reference n = format ("H" ∷ show n ∷ [])

-- Every handle stands under its own reference, which bears a number that was given out.
pub record IsIssued (st : ServiceState) : Type 0 where
  pub sorted : IsSorted st.handles
  pub issued :
      (k : String) (h : HandleRef)
      → get k st.handles ≡ some h
      → (h.ref ≡ k) × (i : ℕ) × (1 ≤ i) × (i ≤ st.next_handle_id) × (k ≡ reference i)

pub fresh :
    (st : ServiceState) (i : ℕ)
    → IsIssued st
    → st.next_handle_id < i
    → get (reference i) st.handles ≡ none
fresh st i w later = elim (Option-cases (get (reference i) st.handles)) [
  | inl missing ↦ missing
  | inr (h, present) ↦
      let (own, j, low, high, e) = w.issued (reference i) h present in
      let same_number = format-show_injective i j e in absurd (omega arith)
]

next_id-below : (n : ℕ) → n + 1 < 2 ^ 64 → next_id n ≡ n + 1
next_id-below n h = omega arith

IsIssued-event :
    (st : ServiceState) (event : ℕ) → IsIssued st → IsIssued (record st { next_event_id = event })
IsIssued-event st event w = record { sorted = w.sorted; issued = w.issued }

-- the state after a handle with the next number was stored
IsIssued-insert :
    (st : ServiceState) (event : ℕ) (h : HandleRef)
    → IsIssued st
    → h.ref ≡ reference (st.next_handle_id + 1)
    → IsIssued (record {
      next_event_id = event;
      next_handle_id = st.next_handle_id + 1;
      handles = insert (reference (st.next_handle_id + 1)) h st.handles;
    })
IsIssued-insert st event h w own = record {
  sorted = insert-IsSorted (reference (st.next_handle_id + 1)) h st.handles w.sorted;
  issued = λ k g present.
      let read = get-insert (reference (st.next_handle_id + 1)) k h st.handles in
      elim (Bool-cases (same k (reference (st.next_handle_id + 1)))) [
        | inl new ↦
            let is_new =
              string_ord.eq_of_cmp k (reference (st.next_handle_id + 1)) (ground arith) in
            let is_h : h ≡ g = ground arith in
            (
              sym (ap (λ (x : HandleRef). x.ref) is_h) ∙ own ∙ sym is_new,
              st.next_handle_id + 1,
              omega arith,
              omega arith,
              is_new,
            )
        | inr old ↦
            let was : get k st.handles ≡ some g = ground arith in
            let (its, i, low, high, e) = w.issued k g was in (its, i, low, omega arith, e)
      ];
}

own_reference :
    (req : AppendEventRequest) (ref preference : String)
    → (preference_handle req ref "prefers_beverage" preference).ref ≡ ref
unfolding preference_handle
own_reference req ref preference = refl

-- the answer and the state under a new reference
abbrev pub Stored : AppendEventRequest → ServiceState → String → String → Type 0
Stored req st ref preference =
    ((append_event req st).1.handle_refs ≡ ref ∷ [])
    × ((i : ℕ) → i ≤ st.next_handle_id → reference i ≡ ref → ⊥)
    × (get ref st.handles ≡ none)
    × (get ref (append_event req st).0.handles
        ≡ some (preference_handle req ref "prefers_beverage" preference))
    × ((k : String) → same k ref ≡ false → get k (append_event req st).0.handles ≡ get k st.handles)

pub append_event-silent :
    (req : AppendEventRequest) (st : ServiceState)
    → parse_preference req.text ≡ none
    → append_event req st ≡ (
      record st { next_event_id = next_id st.next_event_id },
      record { event_id = format ("EVT" ∷ show (next_id st.next_event_id) ∷ []); handle_refs = [] },
    )
unfolding append_event
append_event-silent req st silent = rw (append_event, silent) refl

pub append_event-stated :
    (req : AppendEventRequest) (st : ServiceState) (label preference : String)
    → parse_preference req.text ≡ some (label, preference)
    → label ≡ "prefers_beverage"
    → st.next_handle_id + 1 < 2 ^ 64
    → let ref = reference (st.next_handle_id + 1) in
      append_event req st ≡ (
        record {
          next_event_id = next_id st.next_event_id;
          next_handle_id = st.next_handle_id + 1;
          handles = insert ref (preference_handle req ref "prefers_beverage" preference) st.handles;
        },
        record {
          event_id = format ("EVT" ∷ show (next_id st.next_event_id) ∷ []);
          handle_refs = ref ∷ [];
        },
      )
unfolding append_event
append_event-stated req st label preference stated labelled room =
    rw (sym labelled, sym (next_id-below st.next_handle_id room), append_event, stated) refl

-- Where the handles are sorted, each under its own reference H<i> with a number i that was given
-- out, and the counter of handles is below 2 ^ 64 - 1, append_event keeps the handles so. Either
-- the text, without the white space around it, is one of the two prefixes in upper or lower case
-- and a rest that is not blank; then the answer has one reference, which differs from every
-- reference given out before and names no handle of the state, and the new state holds under it the
-- handle of the trimmed rest, and every other handle as before. Or the text is no such text; then
-- the answer has no reference and the handles are as before.
pub append_event_lem :
    (req : AppendEventRequest) (st : ServiceState)
    → IsIssued st
    → st.next_handle_id + 1 < 2 ^ 64
    → IsIssued (append_event req st).0
      × (((preference : String) × States req.text preference
            × (ref : String) × Stored req st ref preference)
          ⊎ (((preference : String) → States req.text preference → ⊥)
              × ((append_event req st).1.handle_refs ≡ [])
              × ((append_event req st).0.handles ≡ st.handles)))
append_event_lem req st w room = elim (Option-cases (parse_preference req.text)) [
  | inl silent ↦ rw (append_event-silent req st silent) (
    IsIssued-event st (next_id st.next_event_id) w,
    inr (λ preference. parse_preference-none req.text preference silent, refl, refl),
  )
  | inr ((label, preference), stated) ↦
      let (labelled, states) = parse_preference-States req.text stated in
      let ref = reference (st.next_handle_id + 1) in
      let handle = preference_handle req ref "prefers_beverage" preference in
      rw (append_event-stated req st label preference stated labelled room) (
        IsIssued-insert st (next_id st.next_event_id) handle w (own_reference req ref preference),
        inl (
          preference,
          states,
          ref,
          (
            refl,
            λ i low e.
                let same_number = format-show_injective i (st.next_handle_id + 1) e in
                absurd (omega arith),
            fresh st (st.next_handle_id + 1) w (omega arith),
            get-insert_self ref handle st.handles,
            λ k other. rw (get-insert ref k handle st.handles, other) refl,
          ),
        ),
      )
]
