-- ===== src/Grpc/Service.antt =====
-- The state of the service, `append_event`, `get_manifest` and `forget`. The lock makes each handler one
-- step of the state; `execute` passes its request on to the kernel.
use Prim.Native.Char.{code}
use Prim.Native.String.{compare}
use Prim.Native.Nat.{Ordering}
use cortex_v3_1_rmvm_relatio.Base.{
  ℕ, ◌+◌, ◌%◌, ◌^◌, Bool, true, false, ◌&&◌, not, String, List, [], ◌∷◌, Option, none, some,
  map_option, unwrap_or, map, length, ◌==◌, if◌then◌else◌, is_blank, trim, lower_char, str_eq,
  format, show,
}
use cortex_v3_1_rmvm_relatio.Base.Int.{ℤ, pos}
use cortex_v3_1_rmvm_relatio.Base.Order.{string_ord, compare_ℤ}
use cortex_v3_1_rmvm_relatio.BTree.Map.{Map, insert, insert_all, remove, values}
use cortex_v3_1_rmvm_relatio.BTree.Sort.{sort_by}
use cortex_v3_1_rmvm_relatio.Proto.Enums.{
  Scope, scope_try_from, scope_as_i32, scope_name, AssertionType, assertion_type_as_i32,
  ExecutionStatus, execution_status_as_i32,
}
use cortex_v3_1_rmvm_relatio.Proto.Float.{five_quarters, cost_256}
use cortex_v3_1_rmvm_relatio.Proto.Messages.{
  HandleMeta, HandleRef, SelectorRef, PublicManifest, V, Value, VerifiedAssertion, RenderedOutput,
  ExecutionError,
}
use cortex_v3_1_rmvm_relatio.Kernel.Selector.{by_ref}

-- the messages of proto/cortex_rmvm_v3_1_service.proto
pub record AppendEventRequest : Type 0 where
  pub request_id : String
  pub subject : String
  pub text : String
  pub scope : ℤ

pub record AppendEventResponse : Type 0 where
  pub event_id : String
  pub handle_refs : List String

pub record ForgetRequest : Type 0 where
  pub request_id : String
  pub subject : String
  pub predicate_label : String
  pub scope : ℤ
  pub reason : String

pub record ForgetResponse : Type 0 where
  pub status : ℤ
  pub assertions : List VerifiedAssertion
  pub rendered : Option RenderedOutput
  pub error : Option ExecutionError

pub record ServiceState : Type 0 where
  pub next_event_id : ℕ
  pub next_handle_id : ℕ
  pub handles : Map String HandleRef

abbrev pub new : ServiceState
new = record { next_event_id = 0; next_handle_id = 0; handles = [] }

-- `n += 1` on a `u64`, in a build without overflow checks
abbrev pub next_id : ℕ → ℕ
next_id n = (n + 1) % 2 ^ 64

-- What is left of the text behind a prefix that the text has in lower case. The prefix is ASCII, and
-- lowering changes no other character, so the byte index of the source is at a character.
unfoldable pub strip_lower_prefix : String → String → Option String
strip_lower_prefix String.[] s = some s
strip_lower_prefix (String.◌∷◌ p ps) String.[] = none
strip_lower_prefix (String.◌∷◌ p ps) (String.◌∷◌ c s) =
    let rest = strip_lower_prefix ps s in if code (lower_char c) == code p then rest else none

-- the loop over the prefixes
unfoldable pub preference_in : String → List String → Option (String × String)
unfolding trim strip_lower_prefix
preference_in normalized [] = none
preference_in normalized (prefix ∷ prefixes) =
    let others = preference_in normalized prefixes in
    elim (strip_lower_prefix prefix normalized) [
      | none ↦ others
      | some rest ↦ if str_eq (trim rest) "" then others else some ("prefers_beverage", trim rest)
    ]

unfoldable pub parse_preference : String → Option (String × String)
unfolding preference_in trim
parse_preference text = preference_in (trim text) ("i prefer " ∷ "prefer " ∷ [])

abbrev pub event_subject : AppendEventRequest → String
event_subject req = if is_blank req.subject then "user:unknown" else req.subject

abbrev pub event_scope : AppendEventRequest → Scope
event_scope req = unwrap_or (scope_try_from req.scope) Scope.global

-- the handle of a stated preference
unfoldable pub preference_handle : AppendEventRequest → String → String → String → HandleRef
preference_handle req handle_ref predicate_label preference = record {
  ref = handle_ref;
  type_id = "normative.preference";
  availability = pos 1;
  meta = some (record {
    subject = event_subject req;
    predicate_label = predicate_label;
    trust_tier = pos 4;
    taint = pos 1 ∷ [];
    temporal = some (record { valid_from = none; valid_to = none; open_end = true });
    scope = scope_as_i32 (event_scope req);
  });
  signature_summary = format (predicate_label ∷ "=" ∷ preference ∷ []);
  conflict_group_id = format (
      "conflict:"
      ∷ predicate_label
      ∷ ":"
      ∷ event_subject req
      ∷ ":"
      ∷ scope_name (event_scope req)
      ∷ []);
}

unfoldable pub append_event : AppendEventRequest → ServiceState → ServiceState × AppendEventResponse
append_event req st =
    let event = next_id st.next_event_id in
    let event_id = format ("EVT" ∷ show event ∷ []) in
    let handle_id = next_id st.next_handle_id in
    let handle_ref = format ("H" ∷ show handle_id ∷ []) in
    elim (parse_preference req.text) [
      | none ↦
          (record st { next_event_id = event }, record { event_id = event_id; handle_refs = [] })
      | some (predicate_label, preference) ↦ (
        record {
          next_event_id = event;
          next_handle_id = handle_id;
          handles =
              insert handle_ref (preference_handle req handle_ref predicate_label preference)
                st.handles;
        },
        record { event_id = event_id; handle_refs = handle_ref ∷ [] },
      )
    ]

abbrev pub find_preferences : SelectorRef
find_preferences = record {
  sel = "S0";
  description = "Find preferences for subject";
  params = record { name = "subject"; param_type = pos 1; enum_values = [] } ∷ [];
  cost_weight = five_quarters;
  return_type = pos 2;
}

unfoldable pub get_manifest : String → ServiceState → PublicManifest
get_manifest request_id st = record {
  request_id = request_id;
  handles = sort_by by_ref (values st.handles);
  selectors = find_preferences ∷ [];
  context = [];
  budget =
      some
        (record { max_ops = 128; max_join_depth = 3; max_fanout = 64; max_total_cost = cost_256 });
}

abbrev pub same_number : ℤ → ℤ → Bool
same_number a b = elim (compare_ℤ a b) [ Ordering.eq ↦ true | _ ↦ false ]

-- `scope_filter != Scope::Unspecified && meta.scope != scope_filter as i32`
abbrev pub other_scope : Scope → ℤ → Bool
other_scope Scope.unspecified scope = false
other_scope wanted scope = not (same_number scope (scope_as_i32 wanted))

-- the three tests of the loop, each of which skips a handle
unfoldable pub is_forgotten : ForgetRequest → HandleRef → Bool
is_forgotten req h =
    unwrap_or
      (map_option
        (λ (m : HandleMeta).
          not (not (str_eq req.subject "") && not (str_eq m.subject req.subject))
          && not (
              not (str_eq req.predicate_label "")
              && not (str_eq m.predicate_label req.predicate_label))
          && not (other_scope (unwrap_or (scope_try_from req.scope) Scope.unspecified) m.scope))
        h.meta)
      false

unfoldable pub forgotten_keys : ForgetRequest → Map String HandleRef → List String
forgotten_keys req [] = []
forgotten_keys req ((key, h) ∷ m) =
    let rest = forgotten_keys req m in if is_forgotten req h then key ∷ rest else rest

unfoldable pub remove_all : List String → Map String HandleRef → Map String HandleRef
remove_all [] m = m
remove_all (key ∷ keys) m = remove_all keys (remove key m)

abbrev pub value_string : String → Value
value_string s = record { v = some (V.s s) }

-- `as i64` of a `usize` below 2 ^ 63
abbrev suppressed_fields : ForgetRequest → ℕ → Map String Value
suppressed_fields req n =
    insert_all
      (("action", value_string "suppressed_preference")
        ∷ ("subject", value_string req.subject)
        ∷ ("predicate_label", value_string req.predicate_label)
        ∷ ("suppressed_count", record { v = some (V.i64 (pos n)) })
        ∷ [])
      []

unfoldable pub forget : ForgetRequest → ServiceState → ServiceState × ForgetResponse
unfolding forgotten_keys remove_all
forget req st =
    let remove_keys = sort_by compare (forgotten_keys req st.handles) in
    (
      record st { handles = remove_all remove_keys st.handles },
      record {
        status = execution_status_as_i32 ExecutionStatus.ok;
        assertions =
            record {
              assertion_type = assertion_type_as_i32 AssertionType.assert_decision;
              fields = suppressed_fields req (length remove_keys);
              citations =
                  map (λ k. record { anchor_digest = format ("handle:" ∷ k ∷ []) }) remove_keys;
            }
            ∷ [];
        rendered = some (record {
          verified_blocks =
              format (
                "Suppressed "
                ∷ show (length remove_keys)
                ∷ " preference handles for "
                ∷ req.subject
                ∷ " / "
                ∷ req.predicate_label
                ∷ "."
                ∷ [])
              ∷ [];
          narrative_blocks = [];
        });
        error = none;
      },
    )
