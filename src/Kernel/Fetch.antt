-- ===== src/Kernel/Fetch.antt =====
-- `exec_fetch`: one handle of the manifest into a register.
use cortex_v3_1_rmvm_relatio.Base.{
  Bool, true, false, String, [], ◌∷◌, none, if◌then◌else◌, format, ok, err, ◌>>=◌, ok_or,
}
use cortex_v3_1_rmvm_relatio.Base.Order.{string_ord, int_ord}
use cortex_v3_1_rmvm_relatio.BTree.Set
use cortex_v3_1_rmvm_relatio.BTree.Map.{Map, get}
use cortex_v3_1_rmvm_relatio.Proto.Enums.{
  HandleAvailability, TrustTier, ErrorCode, availability_from_i32,
}
use cortex_v3_1_rmvm_relatio.Proto.Messages.{HandleRef, StallInfo, OpFetch}
use cortex_v3_1_rmvm_relatio.Kernel.Types.{
  ExecuteOptions, SourceKind, RegData, RegValue, ExecStop, Exec, fail_rejected,
}
use cortex_v3_1_rmvm_relatio.Kernel.Fields.{handle_tier, handle_taint}

-- `availability_from_i32(h.availability) == HandleAvailability::Ready`
abbrev pub is_ready : HandleAvailability → Bool
is_ready HandleAvailability.ready = true
is_ready _ = false

unfoldable pub stall_of : HandleRef → StallInfo
stall_of h = record {
  handle_ref = h.ref;
  availability = h.availability;
  estimated_ready_at = none;
  retrieval_ticket = format ("ticket:" ∷ h.ref ∷ []);
}

-- what a fetch of a handle that is not ready leaves, where the caller allows it
abbrev pub stalled_reg : RegValue
stalled_reg = record {
  reg_data = RegData.handle_set [];
  provenance = [];
  taint = [];
  min_trust = TrustTier.unspecified;
  join_depth = 0;
  source = SourceKind.fetch;
}

abbrev pub fetched_reg : HandleRef → RegValue
fetched_reg h = record {
  reg_data = RegData.handle h;
  provenance = Set.insert h.ref [];
  taint = Set.extend [] (handle_taint h);
  min_trust = handle_tier h;
  join_depth = 0;
  source = SourceKind.fetch;
}

unfoldable pub exec_fetch : OpFetch → Map String HandleRef → ExecuteOptions → Exec RegValue
exec_fetch f handles_by_ref opts = do
  h ←
      ok_or (get f.handle_ref handles_by_ref)
        (fail_rejected ErrorCode.unknown_handle_ref "unknown handle_ref in FETCH execution")
  if is_ready (availability_from_i32 h.availability)
      then ok (fetched_reg h)
      else if opts.allow_partial_on_stall
      then ok stalled_reg
      else err (ExecStop.stall (stall_of h))
