-- ===== src/Kernel/Types.antt =====
-- The kernel's own types, and the failure that it rejects a plan with.
use cortex_v3_1_rmvm_relatio.Base.{ℕ, Bool, false, String, List, [], Result}
use cortex_v3_1_rmvm_relatio.Base.Int.{ℤ}
use cortex_v3_1_rmvm_relatio.BTree.Set.{Set}
use cortex_v3_1_rmvm_relatio.BTree.Map.{Map}
use cortex_v3_1_rmvm_relatio.Proto.Enums.{TrustTier, ErrorCode, ExecutionStatus}
use cortex_v3_1_rmvm_relatio.Proto.Float.{F64}
use cortex_v3_1_rmvm_relatio.Proto.Messages.{HandleRef, Value, Hint, StallInfo}

pub record ExecuteOptions : Type 0 where
  pub allow_partial_on_stall : Bool
  pub degraded_mode : Bool
  pub broken_lineage_handles : Set String
  pub narrative_templates : List String

abbrev pub default_options : ExecuteOptions
default_options = record {
  allow_partial_on_stall = false;
  degraded_mode = false;
  broken_lineage_handles = [];
  narrative_templates = [];
}

pub record NormalizedBudget : Type 0 where
  pub max_ops : ℕ
  pub max_join_depth : ℕ
  pub max_fanout : ℕ
  pub max_total_cost : F64

pub data SourceKind : Type 0 where
  fetch apply_selector resolve filter join project assert : SourceKind

pub data RegData : Type 0 where
  handle : HandleRef → RegData
  handle_set : List HandleRef → RegData
  struct : Map String Value → RegData

pub record RegValue : Type 0 where
  pub reg_data : RegData
  pub provenance : Set String
  pub taint : Set ℤ
  pub min_trust : TrustTier
  pub join_depth : ℕ
  pub source : SourceKind

-- the registers
abbrev pub Regs : Type 0
Regs = Map String RegValue

pub record KernelFailure : Type 0 where
  pub status : ExecutionStatus
  pub code : ErrorCode
  pub message : String
  pub hints : List Hint

-- `panic` stands for a Rust panic, which ends the call without a response.
pub data ExecStop : Type 0 where
  failure : KernelFailure → ExecStop
  stall : StallInfo → ExecStop
  panic : String → ExecStop

-- `Result<A, ExecStop>`
abbrev pub Exec {ℓ} : Type ℓ → Type ℓ
Exec A = Result ExecStop A

unfoldable pub fail_rejected : ErrorCode → String → ExecStop
fail_rejected code message =
    ExecStop.failure
      (record { status = ExecutionStatus.rejected; code = code; message = message; hints = [] })
