-- ===== src/Proxy/Chat/Guarded.antt =====
-- Which plans reach the kernel.
use cortex_v3_1_rmvm_relatio.Base.{
  true, false, if◌then◌else◌, ◌≡◌, refl, Bool, String, [], ◌∷◌, Option, none, some, format, Result,
  ok, err,
}
use cortex_v3_1_rmvm_relatio.Base.Int.{ℤ}
use cortex_v3_1_rmvm_relatio.Proto.Enums.{Scope, scope_as_i32}
use cortex_v3_1_rmvm_relatio.Proto.Messages.{PublicManifest, RmvmPlan}
use cortex_v3_1_rmvm_relatio.Planner.Guard.{Checked, validate_plan_against_manifest}
use cortex_v3_1_rmvm_relatio.Planner.Extract.{build_plan_only_prompt}
use cortex_v3_1_rmvm_relatio.Grpc.Service.{AppendEventRequest, AppendEventResponse}
use cortex_v3_1_rmvm_relatio.Brain.Vault.{Vault}
use cortex_v3_1_rmvm_relatio.Brain.Disk.{Disk}
use cortex_v3_1_rmvm_relatio.Brain.Resolve.{Env}
use cortex_v3_1_rmvm_relatio.Proxy.Types.{
  ChatCompletionRequest, AppState, HeaderMap, ApiError, Api, bad_request, map_err,
}
use cortex_v3_1_rmvm_relatio.Proxy.Planning.{Outside}
use cortex_v3_1_rmvm_relatio.Proxy.Chat.{
  Rmvm, next, rpc, call_execute, check_and_execute, run_plan, need_manifest, ask_manifest,
  store_and_ask, handle_chat_completion,
}

next-cong :
    {S A B : Type 0} (m : Api A × S) (k l : A → S → Api B × S)
    → ((a : A) (s : S) → m ≡ (ok a, s) → k a s ≡ l a s)
    → next m k ≡ next m l
next-cong (ok a, s) k l h = h a s refl
next-cong (err e, s) k l h = refl

-- after a check that fails with a text
checked-cong :
    {S B : Type 0} (f : String → ApiError) (check : Checked (Unit {0})) (k l : S → Api B × S)
    (s : S)
    → (check ≡ ok tt → k s ≡ l s)
    → next (map_err f check, s) (λ valid s. k s) ≡ next (map_err f check, s) (λ valid s. l s)
checked-cong f (ok tt) k l s h = h refl
checked-cong f (err e) k l s h = refl

-- two servers that differ at most in how they execute plans that the guard refuses
pub record Agrees {S : Type 0} (r q : Rmvm S) : Type 0 where
  pub append : (req : AppendEventRequest) (s : S) → r.append_event req s ≡ q.append_event req s
  pub manifest : (id : String) (s : S) → r.get_manifest id s ≡ q.get_manifest id s
  pub execute :
      (m : PublicManifest) (plan : RmvmPlan) (s : S)
      → validate_plan_against_manifest plan m ≡ ok tt
      → r.execute (record { manifest = some m; plan = some plan }) s
        ≡ q.execute (record { manifest = some m; plan = some plan }) s

module _ {Bytes : Type 0} (v : Vault Bytes) (env : Env)
    (open_store : Option String → Result String Disk) {S : Type 0} (r q : Rmvm S)
    (agrees : Agrees r q) (out : Outside) (is_header : String → Bool)
    (request : ChatCompletionRequest) (reply_id : String) (created : ℤ) where
  check_and_execute-guarded :
      (plan_prompt : String) (m : PublicManifest) (planned : RmvmPlan × String) (s : S)
      → check_and_execute v env open_store r out is_header request plan_prompt reply_id created m
          planned s
        ≡ check_and_execute v env open_store q out is_header request plan_prompt reply_id created m
            planned s
  unfolding check_and_execute call_execute
  check_and_execute-guarded plan_prompt m planned s =
      checked-cong (bad_request "invalid_plan") (validate_plan_against_manifest planned.0 m)
        (call_execute v env open_store r out is_header request plan_prompt reply_id created m
          planned)
        (call_execute v env open_store q out is_header request plan_prompt reply_id created m
          planned)
        s (λ valid. rw (agrees.execute m planned.0 s valid) refl)

  module _ (state : AppState) (headers : HeaderMap) where
    run_plan-guarded :
        (user_message subject request_id : String) (m : PublicManifest) (s : S)
        → run_plan v env open_store r out is_header state headers request user_message subject
            request_id reply_id created m s
          ≡ run_plan v env open_store q out is_header state headers request user_message subject
              request_id reply_id created m s
    unfolding run_plan
    run_plan-guarded user_message subject request_id m s =
        let prompt = build_plan_only_prompt user_message m in
        next-cong {A = RmvmPlan × String} _
          (check_and_execute v env open_store r out is_header request prompt reply_id created m)
          (check_and_execute v env open_store q out is_header request prompt reply_id created m)
          (λ planned s1 e. check_and_execute-guarded prompt m planned s1)

    need_manifest-guarded :
        (request_id : String) (admitted : String × String) (answered : Option PublicManifest)
        (s : S)
        → need_manifest v env open_store r out is_header state headers request request_id reply_id
            created admitted answered s
          ≡ need_manifest v env open_store q out is_header state headers request request_id reply_id
              created admitted answered s
    unfolding need_manifest
    need_manifest-guarded request_id admitted none s = refl
    need_manifest-guarded request_id admitted (some m) s =
        run_plan-guarded admitted.0 admitted.1 request_id m s

    ask_manifest-guarded :
        (request_id : String) (admitted : String × String) (s : S)
        → ask_manifest v env open_store r out is_header state headers request request_id reply_id
            created admitted s
          ≡ ask_manifest v env open_store q out is_header state headers request request_id reply_id
              created admitted s
    unfolding ask_manifest
    ask_manifest-guarded request_id admitted s = rw (agrees.manifest request_id s) (
        next-cong {A = Option PublicManifest}
          (rpc "get_manifest_failed" (q.get_manifest request_id s))
          (need_manifest v env open_store r out is_header state headers request request_id reply_id
            created admitted)
          (need_manifest v env open_store q out is_header state headers request request_id reply_id
            created admitted)
          (λ answered s1 e. need_manifest-guarded request_id admitted answered s1))

    store_and_ask-guarded :
        (request_id : String) (admitted : String × String) (s : S)
        → store_and_ask v env open_store r out is_header state headers request request_id reply_id
            created admitted s
          ≡ store_and_ask v env open_store q out is_header state headers request request_id reply_id
              created admitted s
    unfolding store_and_ask
    store_and_ask-guarded request_id admitted s =
        let event : AppendEventRequest = record {
          request_id = request_id;
          subject = admitted.1;
          text = admitted.0;
          scope = scope_as_i32 Scope.global;
        } in
        rw (agrees.append event s) (
          next-cong {A = AppendEventResponse} (rpc "append_event_failed" (q.append_event event s))
            (λ appended s2.
              ask_manifest v env open_store r out is_header state headers request request_id
                reply_id created admitted s2)
            (λ appended s2.
              ask_manifest v env open_store q out is_header state headers request request_id
                reply_id created admitted s2)
            (λ appended s1 e. ask_manifest-guarded request_id admitted s1))

    handle_chat_completion-agrees :
        (uuid : String) (s : S)
        → handle_chat_completion v env open_store r out is_header uuid reply_id created state
            headers request s
          ≡ handle_chat_completion v env open_store q out is_header uuid reply_id created state
              headers request s
    unfolding handle_chat_completion
    handle_chat_completion-agrees uuid s =
        next-cong {A = String × String} _
          (store_and_ask v env open_store r out is_header state headers request
            (format ("req-" ∷ uuid ∷ [])) reply_id created)
          (store_and_ask v env open_store q out is_header state headers request
            (format ("req-" ∷ uuid ∷ [])) reply_id created)
          (λ admitted s1 e. store_and_ask-guarded (format ("req-" ∷ uuid ∷ [])) admitted s1)

abbrev pub passes : Checked (Unit {0}) → Bool
passes (ok valid) = true
passes (err e) = false

-- a server that refuses every plan that the guard refuses
abbrev pub is_guarded : Option PublicManifest → Option RmvmPlan → Bool
is_guarded (some m) (some plan) = passes (validate_plan_against_manifest plan m)
is_guarded _ _ = false

abbrev pub guarded : {S : Type 0} → String → Rmvm S → Rmvm S
guarded refusal rmvm = record rmvm {
  execute =
      λ req s. if is_guarded req.manifest req.plan then rmvm.execute req s else (err refusal, s);
}

guarded-Agrees :
    {S : Type 0} (refusal : String) (rmvm : Rmvm S) → Agrees rmvm (guarded refusal rmvm)
guarded-Agrees refusal rmvm = record {
  append = λ req s. refl;
  manifest = λ id s. refl;
  execute = λ m plan s valid. rw valid refl;
}

-- The proxy answers every request, and leaves the RMVM server in the same state, as it would before
-- a server that refuses every plan that the guard refuses: no plan that the guard refuses, whatever
-- its source, reaches the kernel.
pub handle_chat_completion-guarded :
    {Bytes S : Type 0} (v : Vault Bytes) (env : Env)
    (open_store : Option String → Result String Disk) (rmvm : Rmvm S) (out : Outside)
    (is_header : String → Bool) (refusal uuid reply_id : String) (created : ℤ) (state : AppState)
    (headers : HeaderMap) (request : ChatCompletionRequest) (s : S)
    → handle_chat_completion v env open_store rmvm out is_header uuid reply_id created state headers
        request s
      ≡ handle_chat_completion v env open_store
          (guarded refusal rmvm)
          out
          is_header
          uuid
          reply_id
          created
          state
          headers
          request
          s
handle_chat_completion-guarded v env open_store rmvm out is_header refusal uuid reply_id created
      state headers request s =
    handle_chat_completion-agrees v env open_store rmvm (guarded refusal rmvm)
      (guarded-Agrees refusal rmvm) out is_header request reply_id created state headers uuid s
