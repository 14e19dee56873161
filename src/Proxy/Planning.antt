-- ===== src/Proxy/Planning.antt =====
-- `resolve_plan`: the plan in the request's header, from the language model, or the one that stands by.
pub mod Subjects
use cortex_v3_1_rmvm_relatio.Base.{
  ℕ, ◌&&◌, not, String, [], ◌∷◌, Option, none, some, and_then, get_elem?, leb, ◌==◌, if◌then◌else◌,
  str_eq, format, show, Result, ok, err, ◌>>=◌, ◌>>◌, ok_or, reject_if,
}
use Prim.Native.Char.{code}
use cortex_v3_1_rmvm_relatio.Base.Order.{string_ord}
use cortex_v3_1_rmvm_relatio.BTree.Map.{get}
use cortex_v3_1_rmvm_relatio.Proto.Messages.{PublicManifest, RmvmPlan}
use cortex_v3_1_rmvm_relatio.Planner.Json.{
  JsonValue, JsonArray, JsonObject, entries, elements, as_str,
}
use cortex_v3_1_rmvm_relatio.Planner.Guard.{Checked, validate_plan_against_manifest}
use cortex_v3_1_rmvm_relatio.Planner.Extract.{extract_json_object}
use cortex_v3_1_rmvm_relatio.Planner.PlanJson.{parse_plan_json}
use cortex_v3_1_rmvm_relatio.Planner.Fallback.{deterministic_plan_from_manifest}
use cortex_v3_1_rmvm_relatio.Proxy.Types.{
  PlannerMode, PlannerConfig, HeaderMap, header, mode_str, Api, bad_request, bad_gateway, map_err,
}

-- base64 with UTF-8, serde_json, and the HTTP request to the model
pub record Outside : Type 0 where
  -- `none` where the text is not base64, `some none` where the bytes are not UTF-8
  pub decode_text : String → Option (Option String)
  pub from_str : String → Checked JsonValue
  -- the number 0
  pub zero : JsonValue
  -- url, key and payload to the status and the body
  pub post : String → String → JsonValue → Result String (ℕ × Result String String)

-- `trim_end_matches('/')`
unfoldable pub trim_slashes : String → String
trim_slashes String.[] = ""
trim_slashes (String.◌∷◌ c s) =
    let rest = trim_slashes s in if code c == b'/' && str_eq rest "" then "" else String.◌∷◌ c rest

-- one token of a JSON pointer; an array is read at the token's number
abbrev pub step_key : String → Option JsonValue → Option JsonValue
step_key key (some (JsonValue.object o)) = get key (entries o)
step_key key _ = none

abbrev pub step_zero : Option JsonValue → Option JsonValue
step_zero (some (JsonValue.object o)) = get "0" (entries o)
step_zero (some (JsonValue.array a)) = get_elem? (elements a) 0
step_zero _ = none

-- `root.pointer("/choices/0/message/content").and_then(as_str)`
unfoldable pub content_of : JsonValue → Option String
content_of root =
    and_then (step_key "content" (step_key "message" (step_zero (step_key "choices" (some root)))))
      as_str

abbrev pub message : String → String → JsonValue
message role content = JsonValue.object (
    JsonObject.entry "content" (JsonValue.string content)
      (JsonObject.entry "role" (JsonValue.string role) JsonObject.end_object))

module _ (out : Outside) where
  unfoldable pub parse_byo_plan : Option String → String → Api RmvmPlan
  parse_byo_plan value request_id = do
    raw ← ok_or value (bad_request "invalid_plan_header" "X-Cortex-Plan must be UTF-8")
    bytes ←
        ok_or (out.decode_text raw)
          (bad_request "invalid_plan_header" "X-Cortex-Plan must be base64")
    text ← ok_or bytes (bad_request "invalid_plan_header" "decoded plan is not UTF-8")
    plan_json ← map_err (bad_request "invalid_plan_json") (extract_json_object text)
    map_err (bad_request "invalid_plan_json") (parse_plan_json out.from_str plan_json request_id)

  abbrev pub planner_payload : String → String → JsonValue
  planner_payload model plan_prompt = JsonValue.object (
      JsonObject.entry "messages"
        (JsonValue.array (
          JsonArray.element
            (message "system"
              "Return only JSON matching the RMVMPlan schema. No markdown and no prose.")
            (JsonArray.element (message "user" plan_prompt) JsonArray.end_array)))
        (JsonObject.entry "model" (JsonValue.string model)
          (JsonObject.entry "temperature" out.zero JsonObject.end_object)))

  unfoldable pub request_openai_plan :
      PlannerConfig → String → PublicManifest → String → Api RmvmPlan
  request_openai_plan planner plan_prompt manifest request_id = do
    api_key ← ok_or planner.api_key (
        bad_gateway "planner_auth_missing"
          "openai planner mode requires CORTEX_PLANNER_API_KEY or OPENAI_API_KEY")
    let url = format (trim_slashes planner.base_url ∷ "/chat/completions" ∷ [])
    (status, text) ←
        map_err (bad_gateway "planner_http_failed")
          (out.post url api_key (planner_payload planner.model plan_prompt))
    body ← map_err (bad_gateway "planner_http_failed") text
    reject_if (not (leb 200 status && leb status 299)) (
        bad_gateway "planner_http_failed"
          (format ("planner returned HTTP " ∷ show status ∷ ": " ∷ body ∷ [])))
    root ← map_err (bad_gateway "planner_decode_failed") (out.from_str body)
    content ←
        ok_or (content_of root) (
          bad_gateway "planner_decode_failed" "planner response missing choices[0].message.content")
    plan_json ← map_err (bad_request "planner_output_invalid") (extract_json_object content)
    plan ←
        map_err (bad_request "planner_output_invalid")
          (parse_plan_json out.from_str plan_json request_id)
    map_err (bad_request "invalid_plan") (validate_plan_against_manifest plan manifest)
    ok plan

  abbrev pub plan_by_mode :
      PlannerMode
      → PlannerConfig
      → String
      → PublicManifest
      → String
      → String
      → Api (RmvmPlan × String)
  plan_by_mode PlannerMode.byo_header planner plan_prompt manifest request_id subject =
      err (bad_request "plan_header_required" "planner mode BYO requires X-Cortex-Plan header")
  plan_by_mode PlannerMode.fallback planner plan_prompt manifest request_id subject = do
    plan ←
        map_err (bad_request "fallback_plan_failed")
          (deterministic_plan_from_manifest request_id subject manifest)
    ok (plan, mode_str PlannerMode.fallback)
  plan_by_mode PlannerMode.open_ai planner plan_prompt manifest request_id subject = do
    plan ← request_openai_plan planner plan_prompt manifest request_id
    ok (plan, mode_str PlannerMode.open_ai)

  abbrev pub plan_by_header :
      Option (Option String)
      → PlannerConfig
      → String
      → PublicManifest
      → String
      → String
      → Api (RmvmPlan × String)
  plan_by_header (some value) planner plan_prompt manifest request_id subject = do
    plan ← parse_byo_plan value request_id
    ok (plan, mode_str PlannerMode.byo_header)
  plan_by_header none planner plan_prompt manifest request_id subject =
      plan_by_mode planner.mode planner plan_prompt manifest request_id subject

  unfoldable pub resolve_plan :
      PlannerConfig
      → HeaderMap
      → String
      → PublicManifest
      → String
      → String
      → Api (RmvmPlan × String)
  resolve_plan planner headers plan_prompt manifest request_id subject =
      plan_by_header (header "x-cortex-plan" headers) planner plan_prompt manifest request_id
        subject
