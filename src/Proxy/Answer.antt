-- ===== src/Proxy/Answer.antt =====
-- `map_execute_response` and `cortex_headers`: the HTTP answer to what the kernel answered.
pub mod Statuses
use cortex_v3_1_rmvm_relatio.Base.{
  ℕ, ◌==◌, Bool, true, false, String, List, [], ◌∷◌, ◌++◌, Option, none, some, map_option,
  unwrap_or, if◌then◌else◌, join, format, ok, err,
}
use cortex_v3_1_rmvm_relatio.Base.Int.{ℤ, pos, negsuc}
use cortex_v3_1_rmvm_relatio.Proto.Enums.{
  numbered, ExecutionStatus, availability_from_i32, availability_name,
}
use cortex_v3_1_rmvm_relatio.Proto.Messages.{
  AssertionMerkleProof, RenderedOutput, StallInfo, ExecutionError, ExecuteResponse,
}
use cortex_v3_1_rmvm_relatio.Proxy.Types.{
  ChatCompletionRequest, AssistantMessage, Choice, Usage, CortexEnvelope, ChatCompletionResponse,
  Headers, ApiError, ChatReply, Api, bad_request, unavailable, with_headers,
}

-- `ExecutionStatus::try_from(v).unwrap_or(Unspecified)` and `as_str_name`
unfoldable pub execution_status_from_i32 : ℤ → ExecutionStatus
execution_status_from_i32 v =
    unwrap_or
      (numbered
        (ExecutionStatus.unspecified ∷ ExecutionStatus.ok ∷ ExecutionStatus.rejected
          ∷ ExecutionStatus.range_exceeded ∷ ExecutionStatus.auth_denied ∷ ExecutionStatus.stall
          ∷ [])
        v)
      ExecutionStatus.unspecified

unfoldable pub execution_status_name : ExecutionStatus → String
execution_status_name ExecutionStatus.unspecified = "EXECUTION_STATUS_UNSPECIFIED"
execution_status_name ExecutionStatus.ok = "OK"
execution_status_name ExecutionStatus.rejected = "REJECTED"
execution_status_name ExecutionStatus.range_exceeded = "RANGE_EXCEEDED"
execution_status_name ExecutionStatus.auth_denied = "AUTH_DENIED"
execution_status_name ExecutionStatus.stall = "STALL"

abbrev pub code_names : List (ℕ × String)
code_names =
    (1, "SCHEMA_VIOLATION")
    ∷ (2, "UNKNOWN_HANDLE_REF")
    ∷ (3, "UNKNOWN_SELECTOR_REF")
    ∷ (4, "TYPE_MISMATCH")
    ∷ (10, "POLICY_NOT_FOUND")
    ∷ (11, "AMBIGUOUS_CONFLICT")
    ∷ (20, "FIELD_REDACTED")
    ∷ (21, "DATA_LEAK_PREVENTION")
    ∷ (22, "UNTRUSTED_PROVENANCE")
    ∷ (23, "ERROR_BROKEN_LINEAGE")
    ∷ (30, "COST_GUARD_REJECTED")
    ∷ (31, "GRAPH_TRAVERSAL_LIMIT")
    ∷ (32, "EVAL_TIMEOUT")
    ∷ (40, "HANDLE_NOT_READY")
    ∷ []

abbrev pub name_of : ℕ → List (ℕ × String) → String
name_of n [] = "ERROR_CODE_UNSPECIFIED"
name_of n ((k, name) ∷ r) = let later = name_of n r in if n == k then name else later

abbrev pub code_name : ℤ → String
code_name (pos n) = name_of n code_names
code_name (negsuc n) = "ERROR_CODE_UNSPECIFIED"

unfoldable pub error_code_name : ExecutionError → String
error_code_name e = code_name e.code

abbrev pub error_code_or : String → ExecuteResponse → String
error_code_or other execute = unwrap_or (map_option error_code_name execute.error) other

abbrev pub error_message_or : String → ExecuteResponse → String
error_message_or other execute =
    unwrap_or (map_option (λ (e : ExecutionError). e.message) execute.error) other

-- `is_header` tells the values that `HeaderValue::from_str` takes; the names are all valid
module _ (is_header : String → Bool) where
  unfoldable pub push_header : String → String → Headers → Headers
  push_header name value headers =
      if is_header value then headers ++ (name, value) ∷ [] else headers

  abbrev pub push_proof : Option AssertionMerkleProof → Headers → Headers
  push_proof none headers = headers
  push_proof (some proof) headers =
      push_header "x-cortex-trace-root" proof.trace_root
        (push_header "x-cortex-semantic-root" proof.semantic_root headers)

  abbrev pub push_error : Option ExecutionError → Headers → Headers
  push_error none headers = headers
  push_error (some e) headers = push_header "x-cortex-error-code" (error_code_name e) headers

  abbrev pub push_stall : Option StallInfo → Headers → Headers
  push_stall none headers = headers
  push_stall (some stall) headers =
      push_header "x-cortex-stall-availability"
        (availability_name (availability_from_i32 stall.availability))
        (push_header "x-cortex-stall-handle" stall.handle_ref headers)

  unfoldable pub cortex_headers : ExecuteResponse → String → Headers
  cortex_headers execute plan_source = push_stall execute.stall (
      push_error execute.error (
        push_proof execute.proof (
          push_header "x-cortex-plan-source" plan_source (
            push_header "x-cortex-status"
              (execution_status_name (execution_status_from_i32 execute.status)) []))))

abbrev pub content_text : List String → String
content_text [] = "No verified output."
content_text (b ∷ bs) = join "\n\n" (b ∷ bs)

-- `id` and `created` are drawn by the call
abbrev pub chat_reply :
    String → ℤ → ExecuteResponse → ChatCompletionRequest → String → String → Headers → ChatReply
chat_reply id created execute request plan_prompt plan_source headers_out =
    let blocks =
      unwrap_or (map_option (λ (r : RenderedOutput). r.verified_blocks) execute.rendered) [] in
    record {
      body = record {
        id = format ("chatcmpl-" ∷ id ∷ []);
        object = "chat.completion";
        created = created;
        model = unwrap_or request.model "cortex-rmvm-proxy";
        choices =
            record {
              index = 0;
              message = record { role = "assistant"; content = content_text blocks };
              finish_reason = "stop";
            }
            ∷ [];
        usage = record { prompt_tokens = 0; completion_tokens = 0; total_tokens = 0 };
        cortex = record {
          status = execution_status_name ExecutionStatus.ok;
          semantic_root = map_option (λ (p : AssertionMerkleProof). p.semantic_root) execute.proof;
          trace_root = map_option (λ (p : AssertionMerkleProof). p.trace_root) execute.proof;
          error_code = map_option error_code_name execute.error;
          plan_prompt = some plan_prompt;
          plan_source = some plan_source;
        };
      };
      headers = headers_out;
    }

-- the answer by the kernel's status
unfoldable pub answer_of :
    ExecutionStatus
    → String
    → ℤ
    → ExecuteResponse
    → ChatCompletionRequest
    → String
    → String
    → Headers
    → Api ChatReply
answer_of ExecutionStatus.ok id created execute request plan_prompt plan_source headers_out =
    ok (chat_reply id created execute request plan_prompt plan_source headers_out)
answer_of ExecutionStatus.rejected id created execute request plan_prompt plan_source headers_out =
    err (
      with_headers headers_out (
        bad_request (error_code_or "rejected" execute)
          (error_message_or "request rejected by RMVM" execute)))
answer_of ExecutionStatus.stall id created execute request plan_prompt plan_source headers_out =
    err (
      with_headers headers_out (
        unavailable (error_code_or "stall" execute)
          (error_message_or "execution stalled; dependency not ready" execute)))
answer_of ExecutionStatus.auth_denied id created execute request plan_prompt plan_source
      headers_out =
    err (record {
      status = 403;
      code = error_code_or "auth_denied" execute;
      message = error_message_or "auth denied" execute;
      headers = headers_out;
    })
answer_of ExecutionStatus.range_exceeded id created execute request plan_prompt plan_source
      headers_out =
    err (record {
      status = 429;
      code = error_code_or "range_exceeded" execute;
      message = error_message_or "range exceeded" execute;
      headers = headers_out;
    })
answer_of ExecutionStatus.unspecified id created execute request plan_prompt plan_source
      headers_out =
    err (record {
      status = 502;
      code = error_code_or "unknown_status" execute;
      message = "RMVM returned unspecified status";
      headers = headers_out;
    })

unfoldable pub map_execute_response :
    String → ℤ → ExecuteResponse → ChatCompletionRequest → String → String → Headers → Api ChatReply
map_execute_response id created execute request plan_prompt plan_source headers_out =
    answer_of (execution_status_from_i32 execute.status) id created execute request plan_prompt
      plan_source headers_out
