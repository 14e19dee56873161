-- ===== src/Proxy/Chat/Admission.antt =====
-- What becomes of a request with a bearer token.
use cortex_v3_1_rmvm_relatio.Base.{
  ◌≡◌, refl, Bool, false, String, [], ◌∷◌, Option, none, some, unwrap_or, format, is_blank, trim,
  strip_prefix, Result, ok, err, ◌>>=◌, ◌>>◌,
}
use cortex_v3_1_rmvm_relatio.Base.Int.{ℤ}
use cortex_v3_1_rmvm_relatio.Brain.Types.{ApiKeyMapping}
use cortex_v3_1_rmvm_relatio.Brain.Vault.{Vault}
use cortex_v3_1_rmvm_relatio.Brain.Disk.{Disk}
use cortex_v3_1_rmvm_relatio.Brain.Resolve.{Env}
use cortex_v3_1_rmvm_relatio.Brain.Store.{resolve_api_key}
use cortex_v3_1_rmvm_relatio.Proxy.Types.{
  ChatCompletionRequest, AppState, HeaderMap, header, ChatReply, Api, unauthorized,
}
use cortex_v3_1_rmvm_relatio.Proxy.Planning.{Outside}
use cortex_v3_1_rmvm_relatio.Proxy.Chat.{
  parse_bearer, extract_user_message, Rmvm, resolve_context, admit, store_and_ask,
  handle_chat_completion,
}

parse_bearer-token :
    (headers : HeaderMap) {raw token : String}
    → header "authorization" headers ≡ some (some raw)
    → strip_prefix "Bearer " raw ≡ some token
    → is_blank token ≡ false
    → parse_bearer headers ≡ ok (some (trim token))
unfolding parse_bearer ◌>>=◌ ◌>>◌
parse_bearer-token headers has_header bearer filled = rw (has_header, bearer, filled) refl

module _ {Bytes : Type 0} (v : Vault Bytes) (env : Env)
    (open_store : Option String → Result String Disk) {S : Type 0} (rmvm : Rmvm S) (out : Outside)
    (is_header : String → Bool) (uuid reply_id : String) (created : ℤ) (state : AppState)
    (headers : HeaderMap) (request : ChatCompletionRequest) where
  -- what is done with a bearer token, by what it is mapped to
  abbrev pub by_mapping : String → S → Option ApiKeyMapping → Api ChatReply × S
  by_mapping user_message s none = (err (unauthorized "auth_failed" "API key is not mapped"), s)
  by_mapping user_message s (some mapping) =
      store_and_ask v env open_store rmvm out is_header state headers request
        (format ("req-" ∷ uuid ∷ [])) reply_id created (user_message, mapping.subject) s

  -- A request with a user message, not for a stream, with a bearer token that is not blank: where
  -- the token is not mapped, it is answered with status 401 and no call is made; where it is
  -- mapped, the request goes on for the subject of the mapping, whatever user it names.
  pub handle_chat_completion-by_mapping :
      (s : S) (user_message raw token : String) (disk : Disk) (found : Option ApiKeyMapping)
      → unwrap_or request.stream false ≡ false
      → extract_user_message request ≡ some user_message
      → open_store state.brain_home ≡ ok disk
      → header "authorization" headers ≡ some (some raw)
      → strip_prefix "Bearer " raw ≡ some token
      → is_blank token ≡ false
      → resolve_api_key v (trim token) disk ≡ ok found
      → handle_chat_completion v env open_store rmvm out is_header uuid reply_id created state
          headers request s
        ≡ by_mapping user_message s found
  unfolding handle_chat_completion admit resolve_context ◌>>=◌ ◌>>◌
  handle_chat_completion-by_mapping s user_message raw token disk none no_stream said opened
        has_header bearer filled looked =
      rw (no_stream, said, opened, parse_bearer-token headers has_header bearer filled, looked) refl
  handle_chat_completion-by_mapping s user_message raw token disk (some m) no_stream said opened
        has_header bearer filled looked =
      rw (no_stream, said, opened, parse_bearer-token headers has_header bearer filled, looked) refl
