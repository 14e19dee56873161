-- ===== src/Proto/Enums.antt =====
-- The enums of cortex_rmvm_v3_1.proto, and the conversions of crates/rmvm-proto/src/lib.rs. A field
-- of an enum type is an `i32`; a number that names no value is read as the unspecified one.
use cortex_v3_1_rmvm_relatio.Base.{String, List, [], ◌∷◌, Option, none, get_elem?, unwrap_or}
use cortex_v3_1_rmvm_relatio.Base.Int.{ℤ, pos, negsuc}

pub data HandleAvailability : Type 0 where
  unspecified ready archival_pending offline : HandleAvailability

pub data TrustTier : Type 0 where
  unspecified tier_0_quarantined tier_1_asserted tier_2_verified tier_3_confirmed
        tier_4_policy_signed :
      TrustTier

pub data TaintClass : Type 0 where
  unspecified taint_user taint_tool taint_web_untrusted taint_web_trusted taint_mixed : TaintClass

pub data Scope : Type 0 where
  unspecified session project person org global : Scope

pub data ParamType : Type 0 where
  unspecified param_string param_bool param_int64 param_float64 param_timestamp param_enum
        param_scope :
      ParamType

pub data SelectorReturn : Type 0 where
  unspecified return_handle return_handle_set return_struct : SelectorReturn

pub data EdgeType : Type 0 where
  unspecified edge_conflicts_with edge_supersedes edge_provenance edge_same_entity : EdgeType

pub data AssertionType : Type 0 where
  unspecified assert_user_preference assert_world_fact assert_decision assert_procedure
        assert_conflict_explanation :
      AssertionType

pub data ExecutionStatus : Type 0 where
  unspecified ok rejected range_exceeded auth_denied stall : ExecutionStatus

pub data ErrorCode : Type 0 where
  unspecified schema_violation unknown_handle_ref unknown_selector_ref type_mismatch
        policy_not_found ambiguous_conflict field_redacted data_leak_prevention untrusted_provenance
        error_broken_lineage cost_guard_rejected graph_traversal_limit eval_timeout
        handle_not_ready :
      ErrorCode

-- The value with a given number, where the values are numbered from 0 without a gap.
abbrev pub numbered {ℓ} : {E : Type ℓ} → List E → ℤ → Option E
numbered es (pos n) = get_elem? es n
numbered es (negsuc n) = none

unfoldable pub availability_from_i32 : ℤ → HandleAvailability
availability_from_i32 v =
    unwrap_or
      (numbered
        (HandleAvailability.unspecified ∷ HandleAvailability.ready
          ∷ HandleAvailability.archival_pending ∷ HandleAvailability.offline ∷ [])
        v)
      HandleAvailability.unspecified

unfoldable pub trust_tier_from_i32 : ℤ → TrustTier
trust_tier_from_i32 v =
    unwrap_or
      (numbered
        (TrustTier.unspecified ∷ TrustTier.tier_0_quarantined ∷ TrustTier.tier_1_asserted
          ∷ TrustTier.tier_2_verified ∷ TrustTier.tier_3_confirmed ∷ TrustTier.tier_4_policy_signed
          ∷ [])
        v)
      TrustTier.unspecified

unfoldable pub selector_return_from_i32 : ℤ → SelectorReturn
selector_return_from_i32 v =
    unwrap_or
      (numbered
        (SelectorReturn.unspecified ∷ SelectorReturn.return_handle
          ∷ SelectorReturn.return_handle_set ∷ SelectorReturn.return_struct ∷ [])
        v)
      SelectorReturn.unspecified

unfoldable pub param_type_from_i32 : ℤ → ParamType
param_type_from_i32 v =
    unwrap_or
      (numbered
        (ParamType.unspecified ∷ ParamType.param_string ∷ ParamType.param_bool
          ∷ ParamType.param_int64 ∷ ParamType.param_float64 ∷ ParamType.param_timestamp
          ∷ ParamType.param_enum ∷ ParamType.param_scope ∷ [])
        v)
      ParamType.unspecified

unfoldable pub assertion_type_from_i32 : ℤ → AssertionType
assertion_type_from_i32 v =
    unwrap_or
      (numbered
        (AssertionType.unspecified ∷ AssertionType.assert_user_preference
          ∷ AssertionType.assert_world_fact ∷ AssertionType.assert_decision
          ∷ AssertionType.assert_procedure ∷ AssertionType.assert_conflict_explanation ∷ [])
        v)
      AssertionType.unspecified

unfoldable pub edge_type_from_i32 : ℤ → EdgeType
edge_type_from_i32 v =
    unwrap_or
      (numbered
        (EdgeType.unspecified ∷ EdgeType.edge_conflicts_with ∷ EdgeType.edge_supersedes
          ∷ EdgeType.edge_provenance ∷ EdgeType.edge_same_entity ∷ [])
        v)
      EdgeType.unspecified

-- `Scope::try_from`, which its callers complete in different ways.
unfoldable pub scope_try_from : ℤ → Option Scope
scope_try_from v =
    numbered
      (Scope.unspecified ∷ Scope.session ∷ Scope.project ∷ Scope.person ∷ Scope.org ∷ Scope.global
        ∷ [])
      v

-- `as i32`
abbrev pub scope_as_i32 : Scope → ℤ
scope_as_i32 Scope.unspecified = pos 0
scope_as_i32 Scope.session = pos 1
scope_as_i32 Scope.project = pos 2
scope_as_i32 Scope.person = pos 3
scope_as_i32 Scope.org = pos 4
scope_as_i32 Scope.global = pos 5

abbrev pub assertion_type_as_i32 : AssertionType → ℤ
assertion_type_as_i32 AssertionType.unspecified = pos 0
assertion_type_as_i32 AssertionType.assert_user_preference = pos 1
assertion_type_as_i32 AssertionType.assert_world_fact = pos 2
assertion_type_as_i32 AssertionType.assert_decision = pos 3
assertion_type_as_i32 AssertionType.assert_procedure = pos 4
assertion_type_as_i32 AssertionType.assert_conflict_explanation = pos 5

abbrev pub edge_type_as_i32 : EdgeType → ℤ
edge_type_as_i32 EdgeType.unspecified = pos 0
edge_type_as_i32 EdgeType.edge_conflicts_with = pos 1
edge_type_as_i32 EdgeType.edge_supersedes = pos 2
edge_type_as_i32 EdgeType.edge_provenance = pos 3
edge_type_as_i32 EdgeType.edge_same_entity = pos 4

-- `as_str_name`: the names of the .proto file.
unfoldable pub availability_name : HandleAvailability → String
availability_name HandleAvailability.unspecified = "HANDLE_AVAILABILITY_UNSPECIFIED"
availability_name HandleAvailability.ready = "READY"
availability_name HandleAvailability.archival_pending = "ARCHIVAL_PENDING"
availability_name HandleAvailability.offline = "OFFLINE"

unfoldable pub trust_tier_name : TrustTier → String
trust_tier_name TrustTier.unspecified = "TRUST_TIER_UNSPECIFIED"
trust_tier_name TrustTier.tier_0_quarantined = "TIER_0_QUARANTINED"
trust_tier_name TrustTier.tier_1_asserted = "TIER_1_ASSERTED"
trust_tier_name TrustTier.tier_2_verified = "TIER_2_VERIFIED"
trust_tier_name TrustTier.tier_3_confirmed = "TIER_3_CONFIRMED"
trust_tier_name TrustTier.tier_4_policy_signed = "TIER_4_POLICY_SIGNED"

unfoldable pub scope_name : Scope → String
scope_name Scope.unspecified = "SCOPE_UNSPECIFIED"
scope_name Scope.session = "SCOPE_SESSION"
scope_name Scope.project = "SCOPE_PROJECT"
scope_name Scope.person = "SCOPE_PERSON"
scope_name Scope.org = "SCOPE_ORG"
scope_name Scope.global = "SCOPE_GLOBAL"

unfoldable pub assertion_type_name : AssertionType → String
assertion_type_name AssertionType.unspecified = "ASSERTION_TYPE_UNSPECIFIED"
assertion_type_name AssertionType.assert_user_preference = "ASSERT_USER_PREFERENCE"
assertion_type_name AssertionType.assert_world_fact = "ASSERT_WORLD_FACT"
assertion_type_name AssertionType.assert_decision = "ASSERT_DECISION"
assertion_type_name AssertionType.assert_procedure = "ASSERT_PROCEDURE"
assertion_type_name AssertionType.assert_conflict_explanation = "ASSERT_CONFLICT_EXPLANATION"

abbrev pub execution_status_as_i32 : ExecutionStatus → ℤ
execution_status_as_i32 ExecutionStatus.unspecified = pos 0
execution_status_as_i32 ExecutionStatus.ok = pos 1
execution_status_as_i32 ExecutionStatus.rejected = pos 2
execution_status_as_i32 ExecutionStatus.range_exceeded = pos 3
execution_status_as_i32 ExecutionStatus.auth_denied = pos 4
execution_status_as_i32 ExecutionStatus.stall = pos 5

abbrev pub error_code_as_i32 : ErrorCode → ℤ
error_code_as_i32 ErrorCode.unspecified = pos 0
error_code_as_i32 ErrorCode.schema_violation = pos 1
error_code_as_i32 ErrorCode.unknown_handle_ref = pos 2
error_code_as_i32 ErrorCode.unknown_selector_ref = pos 3
error_code_as_i32 ErrorCode.type_mismatch = pos 4
error_code_as_i32 ErrorCode.policy_not_found = pos 10
error_code_as_i32 ErrorCode.ambiguous_conflict = pos 11
error_code_as_i32 ErrorCode.field_redacted = pos 20
error_code_as_i32 ErrorCode.data_leak_prevention = pos 21
error_code_as_i32 ErrorCode.untrusted_provenance = pos 22
error_code_as_i32 ErrorCode.error_broken_lineage = pos 23
error_code_as_i32 ErrorCode.cost_guard_rejected = pos 30
error_code_as_i32 ErrorCode.graph_traversal_limit = pos 31
error_code_as_i32 ErrorCode.eval_timeout = pos 32
error_code_as_i32 ErrorCode.handle_not_ready = pos 40
