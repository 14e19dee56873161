-- ===== src/Examples/Service.antt =====
-- The theorems on the service, at one stated preference.
use cortex_v3_1_rmvm_relatio.Base.{
  ◌≡◌, ◌↔◌, ◌⊎◌, true, String, List, [], ◌∷◌, some, show, map, arith, lower_char,
}
use cortex_v3_1_rmvm_relatio.Base.Int.{pos}
use cortex_v3_1_rmvm_relatio.Base.Order.{string_ord}
use cortex_v3_1_rmvm_relatio.BTree.Set.{contains}
use cortex_v3_1_rmvm_relatio.BTree.Set.Laws as Set
use cortex_v3_1_rmvm_relatio.BTree.Map.{get}
use cortex_v3_1_rmvm_relatio.BTree.Map.Laws.{IsSorted}
use cortex_v3_1_rmvm_relatio.Proto.Messages.{HandleRef, VerifiedAssertion}
use cortex_v3_1_rmvm_relatio.Grpc.Service.{
  ServiceState, AppendEventRequest, ForgetRequest, new, parse_preference, append_event, forget,
}
use cortex_v3_1_rmvm_relatio.Grpc.Forgotten.{Matches, cited, forget_lem}
use cortex_v3_1_rmvm_relatio.Grpc.Stated.{States}
use cortex_v3_1_rmvm_relatio.Grpc.Appended.{IsIssued, Stored, append_event_lem}
use cortex_v3_1_rmvm_relatio.Grpc.Runs.{Run, AreDistinct, Run-AreDistinct}

abbrev event : AppendEventRequest
event = record { request_id = "r"; subject = "user:demo"; text = " I prefer tea "; scope = pos 5 }

new-IsIssued : IsIssued new
unfolding get
new-IsIssued = record { sorted = tt; issued = λ k h present. cc }

append_event_lem_example :
    IsIssued (append_event event new).0
    × (((preference : String) × States event.text preference
          × (ref : String) × Stored event new ref preference)
        ⊎ (((preference : String) → States event.text preference → ⊥)
            × ((append_event event new).1.handle_refs ≡ [])
            × ((append_event event new).0.handles ≡ new.handles)))
append_event_lem_example = append_event_lem event new new-IsIssued (omega arith)

abbrev remembered : ServiceState
remembered = (append_event event new).0

abbrev request : ForgetRequest
request = record {
  request_id = "r";
  subject = "user:demo";
  predicate_label = "prefers_beverage";
  scope = pos 0;
  reason = "";
}

forget_lem_example :
    IsSorted (forget request remembered).0.handles
    × ((k : String) (h : HandleRef)
        → get k (forget request remembered).0.handles ≡ some h
          ↔ ((get k remembered.handles ≡ some h) × (Matches request h → ⊥)))
    × (removed : List String) × Set.IsSorted removed
    × ((k : String)
        → contains k removed ≡ true
          ↔ ((h : HandleRef) × (get k remembered.handles ≡ some h) × Matches request h))
    × (map (λ (a : VerifiedAssertion). a.citations) (forget request remembered).1.assertions
        ≡ map cited removed ∷ [])
forget_lem_example =
    let after = append_event_lem_example.0 in forget_lem request remembered after.sorted

-- two events and a request to forget between them
abbrev forgetful : ServiceState
forgetful = (forget request remembered).0

abbrev given : List String
given = "H2" ∷ "H1" ∷ []

abbrev last : ServiceState
last = (append_event event forgetful).0

Run-AreDistinct_example :
    AreDistinct given
    × ((k : String) (h : HandleRef)
        → get k last.handles ≡ some h
        → (h.ref ≡ k) × (contains k given ≡ true))
unfolding append_event parse_preference get contains lower_char show forget
Run-AreDistinct_example =
    Run-AreDistinct (Run.appended event (Run.forgot request (Run.appended event Run.started)))
      (omega arith)
