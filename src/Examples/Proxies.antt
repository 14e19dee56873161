-- ===== src/Examples/Proxies.antt =====
-- The theorems on the proxy, at one server, one request and one key.
use cortex_v3_1_rmvm_relatio.Base.{
  format, ◌≡◌, refl, true, Bool, String, List, [], ◌∷◌, ◌++◌, Option, none, some, ok, err, trim,
  is_blank, is_whitespace, strip_prefix, to_ascii_lowercase, lower_char, Result, ◌>>=◌,
}
use cortex_v3_1_rmvm_relatio.Base.Int.{pos}
use cortex_v3_1_rmvm_relatio.Proto.Messages.{ExecuteResponse}
use cortex_v3_1_rmvm_relatio.Planner.Json.{JsonValue}
use cortex_v3_1_rmvm_relatio.Brain.Disk.{File, Disk}
use cortex_v3_1_rmvm_relatio.Brain.Store.{map_api_key, read_api_mappings, resolve_api_key}
use cortex_v3_1_rmvm_relatio.Proxy.Types.{
  ChatCompletionRequest, AppState, HeaderMap, PlannerMode, PlannerConfig, message_content_as_text,
}
use cortex_v3_1_rmvm_relatio.Proxy.Answer.{execution_status_from_i32, map_execute_response}
use cortex_v3_1_rmvm_relatio.Proxy.Answer.Statuses.{
  http_status, expected, answer_headers, map_execute_response-status,
}
use cortex_v3_1_rmvm_relatio.Proxy.Planning.{Outside, resolve_plan}
use cortex_v3_1_rmvm_relatio.Proxy.Chat.{
  store_and_ask, Rmvm, extract_user_message, handle_chat_completion,
}
use cortex_v3_1_rmvm_relatio.Proxy.Chat.Guarded.{guarded, handle_chat_completion-guarded}
use cortex_v3_1_rmvm_relatio.Proxy.Chat.Admission.{by_mapping, handle_chat_completion-by_mapping}
use cortex_v3_1_rmvm_relatio.Proxy.Planning.Subjects.{resolve_plan-any_subject}
use cortex_v3_1_rmvm_relatio.Proxy.Chat.Mapped.{map_api_key-handle_chat_completion}
use cortex_v3_1_rmvm_relatio.Examples.Inputs.{manifest}
use cortex_v3_1_rmvm_relatio.Examples.Brains.{no_files, env, store}

abbrev answer : ExecuteResponse
answer = record {
  status = pos 1;
  assertions = [];
  proof = none;
  rendered = some (record { verified_blocks = "tea" ∷ []; narrative_blocks = [] });
  stall = none;
  error = none;
}

-- the server's state is the log of its calls
abbrev server : Rmvm (List String)
server = record {
  append_event =
      λ req s. (ok (record { event_id = "evt-1"; handle_refs = [] }), s ++ "append" ∷ []);
  get_manifest = λ id s. (ok (some manifest), s ++ "manifest" ∷ []);
  execute = λ req s. (ok answer, s ++ "execute" ∷ []);
}

abbrev outside : Outside
outside = record {
  decode_text = λ s. some (some s);
  from_str = λ s. err "not JSON";
  zero = JsonValue.null;
  post = λ url key payload. err "no network";
}

abbrev planner : PlannerConfig
planner = record {
  mode = PlannerMode.fallback;
  base_url = "http://m/";
  model = "m";
  api_key = none;
  timeout = 5000000000;
}

abbrev state : AppState
state = record { endpoint = "http://k"; default_brain = none; brain_home = none; planner = planner }

abbrev request : ChatCompletionRequest
request = record {
  model = none;
  messages = record { role = "User"; content = JsonValue.string "what do I drink" } ∷ [];
  user = none;
  stream = none;
}

-- one API key, "key"
abbrev keyed : Disk
keyed = record no_files {
  api_keys = File.holds (record {
    mappings =
        record { key_hash = "key"; tenant_id = "acme"; brain_id = "b"; subject = "user:demo" } ∷ [];
  });
}

abbrev opens : Option String → Result String Disk
opens home = ok keyed

abbrev headers : HeaderMap
headers = ("authorization", some "Bearer wrong ") ∷ []

abbrev any_value : String → Bool
any_value value = true

handle_chat_completion-guarded_example :
    handle_chat_completion store env opens server outside any_value "u" "r"
      (pos 0)
      state
      headers
      request
      []
    ≡ handle_chat_completion store env opens
        (guarded "refused" server)
        outside
        any_value
        "u"
        "r"
        (pos 0)
        state
        headers
        request
        []
handle_chat_completion-guarded_example =
    handle_chat_completion-guarded store env opens server outside any_value "refused" "u" "r"
      (pos 0) state headers request []

handle_chat_completion-by_mapping_example :
    handle_chat_completion store env opens server outside any_value "u" "r"
      (pos 0)
      state
      headers
      request
      []
    ≡ by_mapping store env opens server outside any_value "u" "r"
        (pos 0)
        state
        headers
        request
        "what do I drink"
        []
        none
unfolding extract_user_message message_content_as_text strip_prefix to_ascii_lowercase lower_char
    resolve_api_key read_api_mappings trim is_blank is_whitespace ◌>>=◌
handle_chat_completion-by_mapping_example =
    handle_chat_completion-by_mapping store env opens server outside any_value "u" "r" (pos 0) state
      headers request [] "what do I drink" "Bearer wrong " "wrong " keyed none refl refl refl refl
      refl refl refl

map_execute_response-status_example :
    let reply = map_execute_response "r" (pos 0) answer request "p" "fallback" [] in
    (http_status reply ≡ expected (execution_status_from_i32 (pos 1))) × (answer_headers reply ≡ [])
map_execute_response-status_example =
    map_execute_response-status "r" (pos 0) answer request "p" "fallback" []

resolve_plan-any_subject_example :
    resolve_plan outside planner [] "p" manifest "r" "user:alice"
    ≡ resolve_plan outside planner [] "p" manifest "r" "user:bob"
resolve_plan-any_subject_example =
    resolve_plan-any_subject outside planner [] "p" "r" "user:alice" "user:bob" manifest refl

map_api_key-handle_chat_completion_example :
    (disk' : Disk) × (map_api_key store (trim "wrong ") "acme" "b" "user:demo" no_files
      ≡ ok (disk', tt))
    × (handle_chat_completion store env
          (λ home. ok disk')
          server
          outside
          any_value
          "u"
          "r"
          (pos 0)
          state
          headers
          request
          []
        ≡ store_and_ask store env
            (λ home. ok disk')
            server
            outside
            any_value
            state
            headers
            request
            (format ("req-" ∷ "u" ∷ []))
            "r"
            (pos 0)
            ("what do I drink", "user:demo")
            [])
unfolding extract_user_message message_content_as_text strip_prefix to_ascii_lowercase lower_char
    read_api_mappings is_blank is_whitespace
map_api_key-handle_chat_completion_example =
    map_api_key-handle_chat_completion store env server outside any_value "u" "r" (pos 0) state
      headers request [] "acme" "b" "user:demo" "what do I drink" "Bearer wrong " "wrong " no_files
      refl refl refl refl refl refl
