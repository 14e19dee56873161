-- ===== src/Proxy/Types.antt =====
-- The messages of the proxy, its errors and its configuration.
use cortex_v3_1_rmvm_relatio.Base.{
  ℕ, Bool, String, List, [], ◌∷◌, Option, none, some, and_then, str_eq, if◌then◌else◌, format, trim,
  to_ascii_lowercase, Result, ok, err,
}
use cortex_v3_1_rmvm_relatio.Base.Int.{ℤ}
use cortex_v3_1_rmvm_relatio.Base.Order.{string_ord}
use cortex_v3_1_rmvm_relatio.BTree.Map.{get}
use cortex_v3_1_rmvm_relatio.Planner.Json.{JsonValue, elements, as_str, as_object}

pub record ChatMessage : Type 0 where
  pub role : String
  pub content : JsonValue

pub record ChatCompletionRequest : Type 0 where
  pub model : Option String
  pub messages : List ChatMessage
  pub user : Option String
  pub stream : Option Bool

pub record AssistantMessage : Type 0 where
  pub role : String
  pub content : String

pub record Choice : Type 0 where
  pub index : ℕ
  pub message : AssistantMessage
  pub finish_reason : String

pub record Usage : Type 0 where
  pub prompt_tokens : ℕ
  pub completion_tokens : ℕ
  pub total_tokens : ℕ

pub record CortexEnvelope : Type 0 where
  pub status : String
  pub semantic_root : Option String
  pub trace_root : Option String
  pub error_code : Option String
  pub plan_prompt : Option String
  pub plan_source : Option String

pub record ChatCompletionResponse : Type 0 where
  pub id : String
  pub object : String
  pub created : ℤ
  pub model : String
  pub choices : List Choice
  pub usage : Usage
  pub cortex : CortexEnvelope

-- a header that is sent; of one that came in, the text is `none` where `to_str` fails
abbrev pub Headers : Type 0
Headers = List (String × String)

abbrev pub HeaderMap : Type 0
HeaderMap = List (String × Option String)

abbrev pub header : String → HeaderMap → Option (Option String)
header name [] = none
header name ((n, v) ∷ r) = if str_eq n name then some v else header name r

-- with the number of the HTTP status
pub record ApiError : Type 0 where
  pub status : ℕ
  pub code : String
  pub message : String
  pub headers : Headers

-- status 200
pub record ChatReply : Type 0 where
  pub body : ChatCompletionResponse
  pub headers : Headers

pub record OpenAiError : Type 0 where
  pub message : String
  pub error_type : String
  pub code : String

pub record OpenAiErrorResponse : Type 0 where
  pub error : OpenAiError

-- what goes over the wire: a reply with status 200, or an error with its status
pub data Response : Type 0 where
  answered : ChatReply → Response
  failed : ℕ → OpenAiErrorResponse → Headers → Response

unfoldable pub into_response : ApiError → Response
into_response e =
    Response.failed e.status
      (record {
        error = record { message = e.message; error_type = "invalid_request_error"; code = e.code };
      })
      e.headers

abbrev pub Api {ℓ} : Type ℓ → Type ℓ
Api A = Result ApiError A

abbrev pub bad_request : String → String → ApiError
bad_request code message = record { status = 400; code = code; message = message; headers = [] }

abbrev pub unauthorized : String → String → ApiError
unauthorized code message = record { status = 401; code = code; message = message; headers = [] }

abbrev pub unavailable : String → String → ApiError
unavailable code message = record { status = 503; code = code; message = message; headers = [] }

abbrev pub bad_gateway : String → String → ApiError
bad_gateway code message = record { status = 502; code = code; message = message; headers = [] }

abbrev pub with_headers : Headers → ApiError → ApiError
with_headers headers e = record e { headers = headers }

-- `.map_err(|e| …(code, e.to_string()))`
abbrev pub map_err {ℓ κ} : {E : Type κ} {A : Type ℓ} → (E → ApiError) → Result E A → Api A
map_err f (ok a) = ok a
map_err f (err e) = err (f e)

pub data PlannerMode : Type 0 where
  fallback open_ai byo_header : PlannerMode

unfoldable pub parse : String → Result String PlannerMode
parse value =
    let name = to_ascii_lowercase (trim value) in
    if str_eq name "fallback"
    then ok PlannerMode.fallback
    else if str_eq name "openai"
    then ok PlannerMode.open_ai
    else if str_eq name "byo"
    then ok PlannerMode.byo_header
    else if str_eq name "byo_header"
    then ok PlannerMode.byo_header
    else if str_eq name "byoheader"
    then ok PlannerMode.byo_header
    else err (format ("unsupported planner mode '" ∷ name ∷ "', expected fallback|openai|byo" ∷ []))

unfoldable pub mode_str : PlannerMode → String
mode_str PlannerMode.fallback = "fallback"
mode_str PlannerMode.open_ai = "openai"
mode_str PlannerMode.byo_header = "byo_header"

pub record PlannerConfig : Type 0 where
  pub mode : PlannerMode
  pub base_url : String
  pub model : String
  pub api_key : Option String
  -- a `Duration`, in nanoseconds; the HTTP client gives up a request after it
  pub timeout : ℕ

-- the HTTP client is a parameter elsewhere
pub record AppState : Type 0 where
  pub endpoint : String
  pub default_brain : Option String
  pub brain_home : Option String
  pub planner : PlannerConfig

-- the texts of the parts, on lines of their own
unfoldable pub part_texts : List JsonValue → String → String
part_texts [] out = out
part_texts (part ∷ parts) out =
    part_texts parts (elim (and_then (and_then (as_object part) (λ o. get "text" o)) as_str) [
      | none ↦ out
      | some text ↦ if str_eq out "" then text else format (out ∷ "\n" ∷ text ∷ [])
    ])

unfoldable pub message_content_as_text : JsonValue → Option String
unfolding part_texts
message_content_as_text (JsonValue.string s) = some s
message_content_as_text (JsonValue.array parts) =
    let out = part_texts (elements parts) "" in if str_eq out "" then none else some out
message_content_as_text _ = none
