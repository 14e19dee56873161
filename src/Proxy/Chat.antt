-- ===== src/Proxy/Chat.antt =====
-- `handle_chat_completion`: who asks, what is stored, the plan, and its execution.
pub mod Guarded
pub mod Admission
pub mod Mapped
use cortex_v3_1_rmvm_relatio.Base.{
  ℕ, Bool, true, false, String, List, [], ◌∷◌, ◌++◌, Option, none, some, and_then, unwrap_or, find?,
  if◌then◌else◌, str_eq, is_blank, format, trim, to_ascii_lowercase, strip_prefix, Result, ok, err,
  ◌>>=◌, ◌>>◌, ok_or, reject_if,
}
use cortex_v3_1_rmvm_relatio.Base.Int.{ℤ}
use cortex_v3_1_rmvm_relatio.Proto.Enums.{Scope, scope_as_i32}
use cortex_v3_1_rmvm_relatio.Proto.Messages.{
  PublicManifest, RmvmPlan, ExecuteRequest, ExecuteResponse,
}
use cortex_v3_1_rmvm_relatio.Planner.Extract.{build_plan_only_prompt}
use cortex_v3_1_rmvm_relatio.Planner.Guard.{validate_plan_against_manifest}
use cortex_v3_1_rmvm_relatio.Grpc.Service.{AppendEventRequest, AppendEventResponse}
use cortex_v3_1_rmvm_relatio.Brain.Types.{ApiKeyMapping, BrainSummary, Stop, Fallible}
use cortex_v3_1_rmvm_relatio.Brain.Vault.{Vault}
use cortex_v3_1_rmvm_relatio.Brain.Disk.{Disk}
use cortex_v3_1_rmvm_relatio.Brain.Resolve.{Env, resolve_brain_or_active}
use cortex_v3_1_rmvm_relatio.Brain.Store.{resolve_api_key}
use cortex_v3_1_rmvm_relatio.Proxy.Types.{
  ChatMessage, ChatCompletionRequest, AppState, HeaderMap, header, ApiError, ChatReply, Response,
  into_response, Api, bad_request, unauthorized, bad_gateway, map_err, message_content_as_text,
}
use cortex_v3_1_rmvm_relatio.Proxy.Planning.{Outside, resolve_plan}
use cortex_v3_1_rmvm_relatio.Proxy.Answer.{cortex_headers, map_execute_response}

abbrev pub bearer_token : Option (Option String) → Api (Option String)
bearer_token none = ok none
bearer_token (some value) = do
  raw ← ok_or value (unauthorized "invalid_auth_header" "invalid Authorization header")
  token ←
      ok_or (strip_prefix "Bearer " raw)
        (unauthorized "invalid_auth_header" "Authorization must use Bearer token")
  reject_if (is_blank token) (unauthorized "invalid_auth_header" "Bearer token is empty")
  ok (some (trim token))

unfoldable pub parse_bearer : HeaderMap → Api (Option String)
parse_bearer headers = bearer_token (header "authorization" headers)

abbrev pub last_by : List ChatMessage → Option ChatMessage → Option ChatMessage
last_by [] found = found
last_by (m ∷ ms) found =
    last_by ms (if str_eq (to_ascii_lowercase m.role) "user" then some m else found)

-- the last message of a user
unfoldable pub extract_user_message : ChatCompletionRequest → Option String
extract_user_message request =
    and_then (last_by request.messages none)
      (λ (m : ChatMessage). message_content_as_text m.content)

-- the text of an `anyhow` error
abbrev pub stop_text : Stop → String
stop_text (Stop.failure message) = message
stop_text (Stop.panic message) = message

-- The RPCs of the adapter on a server in a state of type `S`; each fails with a text or answers.
pub record Rmvm (S : Type 0) : Type 0 where
  pub append_event : AppendEventRequest → S → Result String AppendEventResponse × S
  pub get_manifest : String → S → Result String (Option PublicManifest) × S
  pub execute : ExecuteRequest → S → Result String ExecuteResponse × S

-- what follows a call, on the state that the call left
abbrev pub next : {S : Type 0} {A B : Type 0} → Api A × S → (A → S → Api B × S) → Api B × S
next (ok a, s) k = k a s
next (err e, s) k = (err e, s)

abbrev pub rpc : {S : Type 0} {A : Type 0} → String → Result String A × S → Api A × S
rpc code (r, s) = (map_err (bad_gateway code) r, s)

module _ {Bytes : Type 0} (v : Vault Bytes) (env : Env)
    (open_store : Option String → Result String Disk) where
  abbrev pub local_subject : ChatCompletionRequest → String
  local_subject request = elim request.user [
    | none ↦ "user:local"
    | some user ↦ if is_blank user then "user:local" else user
  ]

  abbrev pub context_of_key : AppState → ChatCompletionRequest → Disk → Option String → Api String
  context_of_key state request disk (some api_key) = do
    found ←
        map_err (λ (e : Stop). bad_gateway "auth_lookup_failed" (stop_text e))
          (resolve_api_key v api_key disk)
    mapping ← ok_or found (unauthorized "auth_failed" "API key is not mapped")
    ok mapping.subject
  context_of_key state request disk none = do
    brain ←
        map_err
          (λ (e : Stop).
            unauthorized "auth_required"
              "missing bearer token and no default/active brain configured")
          (resolve_brain_or_active env state.default_brain disk)
    ok (local_subject request)

  -- the subject of the request
  unfoldable pub resolve_context : AppState → HeaderMap → ChatCompletionRequest → Api String
  resolve_context state headers request = do
    disk ← map_err (bad_gateway "brain_store_init_failed") (open_store state.brain_home)
    maybe_api_key ← parse_bearer headers
    context_of_key state request disk maybe_api_key

  -- what is decided before the first call
  unfoldable pub admit : AppState → HeaderMap → ChatCompletionRequest → Api (String × String)
  admit state headers request = do
    reject_if (unwrap_or request.stream false)
        (bad_request "stream_not_supported" "stream=true is not supported in proxy v0")
    user_message ←
        ok_or (extract_user_message request)
          (bad_request "missing_user_message" "no user message found")
    subject ← resolve_context state headers request
    ok (user_message, subject)

  module _ {S : Type 0} (rmvm : Rmvm S) (out : Outside) (is_header : String → Bool) where
    -- the kernel's answer to a plan
    unfoldable pub call_execute :
        ChatCompletionRequest
        → String
        → String
        → ℤ
        → PublicManifest
        → RmvmPlan × String
        → S
        → Api ChatReply × S
    call_execute request plan_prompt reply_id created manifest planned s =
        next
          (rpc "execute_failed"
            (rmvm.execute (record { manifest = some manifest; plan = some planned.0 }) s))
          (λ execute s. (
            map_execute_response reply_id created execute request plan_prompt planned.1
                (cortex_headers is_header execute planned.1),
            s,
          ))

    -- the plan is validated whatever its source
    unfoldable pub check_and_execute :
        ChatCompletionRequest
        → String
        → String
        → ℤ
        → PublicManifest
        → RmvmPlan × String
        → S
        → Api ChatReply × S
    check_and_execute request plan_prompt reply_id created manifest planned s =
        next
          (
            map_err (bad_request "invalid_plan")
                (validate_plan_against_manifest planned.0 manifest),
            s,
          )
          (λ valid s. call_execute request plan_prompt reply_id created manifest planned s)

    -- from the manifest on
    unfoldable pub run_plan :
        AppState
        → HeaderMap
        → ChatCompletionRequest
        → String
        → String
        → String
        → String
        → ℤ
        → PublicManifest
        → S
        → Api ChatReply × S
    run_plan state headers request user_message subject request_id reply_id created manifest s =
        let plan_prompt = build_plan_only_prompt user_message manifest in
        next (resolve_plan out state.planner headers plan_prompt manifest request_id subject, s)
          (λ planned s. check_and_execute request plan_prompt reply_id created manifest planned s)

    -- the answer of `get_manifest` may hold none
    unfoldable pub need_manifest :
        AppState
        → HeaderMap
        → ChatCompletionRequest
        → String
        → String
        → ℤ
        → String × String
        → Option PublicManifest
        → S
        → Api ChatReply × S
    need_manifest state headers request request_id reply_id created admitted answered s =
        next (ok_or answered (bad_gateway "manifest_missing" "rmvm returned no manifest"), s)
          (λ manifest s.
            run_plan state headers request admitted.0 admitted.1 request_id reply_id created
              manifest s)

    -- the two calls before
    unfoldable pub ask_manifest :
        AppState
        → HeaderMap
        → ChatCompletionRequest
        → String
        → String
        → ℤ
        → String × String
        → S
        → Api ChatReply × S
    ask_manifest state headers request request_id reply_id created admitted s =
        next (rpc "get_manifest_failed" (rmvm.get_manifest request_id s)) (λ answered s.
          need_manifest state headers request request_id reply_id created admitted answered s)

    unfoldable pub store_and_ask :
        AppState
        → HeaderMap
        → ChatCompletionRequest
        → String
        → String
        → ℤ
        → String × String
        → S
        → Api ChatReply × S
    store_and_ask state headers request request_id reply_id created admitted s =
        next
          (rpc "append_event_failed" (
            rmvm.append_event
              (record {
                request_id = request_id;
                subject = admitted.1;
                text = admitted.0;
                scope = scope_as_i32 Scope.global;
              })
              s))
          (λ appended s. ask_manifest state headers request request_id reply_id created admitted s)

    -- `uuid`, `reply_id` and `created` are drawn by the call
    unfoldable pub handle_chat_completion :
        String → String → ℤ → AppState → HeaderMap → ChatCompletionRequest → S → Api ChatReply × S
    handle_chat_completion uuid reply_id created state headers request s =
        next (admit state headers request, s)
          (λ admitted s.
            store_and_ask state headers request (format ("req-" ∷ uuid ∷ [])) reply_id created
              admitted s)

    abbrev pub respond : Api ChatReply × S → Response × S
    respond (ok reply, s) = (Response.answered reply, s)
    respond (err e, s) = (into_response e, s)

    unfoldable pub chat_completions :
        String → String → ℤ → AppState → HeaderMap → ChatCompletionRequest → S → Response × S
    chat_completions uuid reply_id created state headers request s =
        respond (handle_chat_completion uuid reply_id created state headers request s)
