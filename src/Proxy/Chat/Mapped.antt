-- ===== src/Proxy/Chat/Mapped.antt =====
-- The brain store's API keys as the proxy uses them.
use cortex_v3_1_rmvm_relatio.Base.{
  ◌≡◌, refl, Bool, false, String, some, ok, unwrap_or, is_blank, trim, strip_prefix, format, [],
  ◌∷◌,
}
use cortex_v3_1_rmvm_relatio.Base.Int.{ℤ}
use cortex_v3_1_rmvm_relatio.Brain.Types.{ApiKeyMappings}
use cortex_v3_1_rmvm_relatio.Brain.Vault.{Vault}
use cortex_v3_1_rmvm_relatio.Brain.Disk.{Disk}
use cortex_v3_1_rmvm_relatio.Brain.Resolve.{Env}
use cortex_v3_1_rmvm_relatio.Brain.Store.{read_api_mappings, map_api_key}
use cortex_v3_1_rmvm_relatio.Brain.Store.ApiKeys.{
  map_api_key-resolve_api_key, mapping_of, disk_with,
}
use cortex_v3_1_rmvm_relatio.Proxy.Types.{ChatCompletionRequest, AppState, HeaderMap, header}
use cortex_v3_1_rmvm_relatio.Proxy.Planning.{Outside}
use cortex_v3_1_rmvm_relatio.Proxy.Chat.{
  Rmvm, extract_user_message, handle_chat_completion, store_and_ask,
}
use cortex_v3_1_rmvm_relatio.Proxy.Chat.Admission.{handle_chat_completion-by_mapping}

module _ {Bytes : Type 0} (v : Vault Bytes) (env : Env) {S : Type 0} (rmvm : Rmvm S) (out : Outside)
    (is_header : String → Bool) (uuid reply_id : String) (created : ℤ) (state : AppState)
    (headers : HeaderMap) (request : ChatCompletionRequest) where
  -- Where the API keys are read, a key can be mapped to a subject, and over the files that this
  -- leaves every request with a user message, not for a stream, that carries the key as its bearer
  -- token is admitted: the proxy goes on to store the message for that subject.
  pub map_api_key-handle_chat_completion :
      (s : S) (tenant brain subject user_message raw token : String) (disk : Disk)
      {ms : ApiKeyMappings}
      → read_api_mappings disk ≡ ok ms
      → unwrap_or request.stream false ≡ false
      → extract_user_message request ≡ some user_message
      → header "authorization" headers ≡ some (some raw)
      → strip_prefix "Bearer " raw ≡ some token
      → is_blank token ≡ false
      → (disk' : Disk) × (map_api_key v (trim token) tenant brain subject disk ≡ ok (disk', tt))
        × (handle_chat_completion v env
              (λ home. ok disk')
              rmvm
              out
              is_header
              uuid
              reply_id
              created
              state
              headers
              request
              s
            ≡ store_and_ask v env
                (λ home. ok disk')
                rmvm
                out
                is_header
                state
                headers
                request
                (format ("req-" ∷ uuid ∷ []))
                reply_id
                created
                (user_message, subject)
                s)
  map_api_key-handle_chat_completion s tenant brain subject user_message raw token disk {ms} read
        no_stream said has_header bearer filled =
      let mapping = mapping_of v (trim token) tenant brain subject in
      let (mapped, resolved) =
        map_api_key-resolve_api_key v (trim token) tenant brain subject disk read in
      (
        disk_with v mapping ms disk,
        mapped,
        handle_chat_completion-by_mapping v env (λ home. ok (disk_with v mapping ms disk)) rmvm out
            is_header uuid reply_id created state headers request s user_message raw token
            (disk_with v mapping ms disk) (some mapping) no_stream said refl has_header bearer
            filled resolved,
      )
