-- ===== src/Proxy/Answer/Statuses.antt =====
-- The HTTP status of every answer.
use cortex_v3_1_rmvm_relatio.Base.{ℕ, ◌≡◌, refl, String, ok, err}
use cortex_v3_1_rmvm_relatio.Base.Int.{ℤ}
use cortex_v3_1_rmvm_relatio.Proto.Enums.{ExecutionStatus}
use cortex_v3_1_rmvm_relatio.Proto.Messages.{ExecuteResponse}
use cortex_v3_1_rmvm_relatio.Proxy.Types.{ChatCompletionRequest, ChatReply, Api, Headers}
use cortex_v3_1_rmvm_relatio.Proxy.Answer.{
  execution_status_from_i32, answer_of, map_execute_response,
}

-- the number of the HTTP status of an answer
abbrev pub http_status : Api ChatReply → ℕ
http_status (ok reply) = 200
http_status (err e) = e.status

-- the status that each outcome of the kernel is to have
abbrev pub expected : ExecutionStatus → ℕ
expected ExecutionStatus.ok = 200
expected ExecutionStatus.rejected = 400
expected ExecutionStatus.auth_denied = 403
expected ExecutionStatus.range_exceeded = 429
expected ExecutionStatus.unspecified = 502
expected ExecutionStatus.stall = 503

abbrev pub answer_headers : Api ChatReply → Headers
answer_headers (ok reply) = reply.headers
answer_headers (err e) = e.headers

answer_of-status :
    (status : ExecutionStatus) (id : String) (created : ℤ) (execute : ExecuteResponse)
    (request : ChatCompletionRequest) (plan_prompt plan_source : String) (headers_out : Headers)
    → let answer =
        answer_of status id created execute request plan_prompt plan_source headers_out in
      (http_status answer ≡ expected status) × (answer_headers answer ≡ headers_out)
unfolding answer_of
answer_of-status ExecutionStatus.ok id created execute request plan_prompt plan_source headers_out =
    (refl, refl)
answer_of-status ExecutionStatus.rejected id created execute request plan_prompt plan_source
      headers_out =
    (refl, refl)
answer_of-status ExecutionStatus.stall id created execute request plan_prompt plan_source
      headers_out =
    (refl, refl)
answer_of-status ExecutionStatus.auth_denied id created execute request plan_prompt plan_source
      headers_out =
    (refl, refl)
answer_of-status ExecutionStatus.range_exceeded id created execute request plan_prompt plan_source
      headers_out =
    (refl, refl)
answer_of-status ExecutionStatus.unspecified id created execute request plan_prompt plan_source
      headers_out =
    (refl, refl)

-- The HTTP status of an answer is 200, 400, 403, 429, 502 or 503 as the kernel's status is OK,
-- rejected, authority denied, range exceeded, unspecified or unknown, or a stall, and every answer
-- has the headers that were made for it.
pub map_execute_response-status :
    (id : String) (created : ℤ) (execute : ExecuteResponse) (request : ChatCompletionRequest)
    (plan_prompt plan_source : String) (headers_out : Headers)
    → let answer =
        map_execute_response id created execute request plan_prompt plan_source headers_out in
      (http_status answer ≡ expected (execution_status_from_i32 execute.status))
      × (answer_headers answer ≡ headers_out)
unfolding map_execute_response
map_execute_response-status id created execute request plan_prompt plan_source headers_out =
    answer_of-status (execution_status_from_i32 execute.status) id created execute request
      plan_prompt plan_source headers_out
