-- ===== src/Kernel/Resolve.antt =====
-- `exec_resolve`: the candidate with the highest trust, and the latest among those.
pub mod Best
use Prim.Native.Nat.{Ordering, compare as compare_ℕ}
use Prim.Native.String.{compare}
use cortex_v3_1_rmvm_relatio.Base.{
  ℕ, Bool, true, false, ◌&&◌, String, List, [], ◌∷◌, Option, none, some, ◌==◌, and_then, map_option,
  unwrap_or, map, ok, ◌>>=◌, ◌>>◌, ok_or, reject_if,
}
use cortex_v3_1_rmvm_relatio.Base.Int.{ℤ, pos}
use cortex_v3_1_rmvm_relatio.Base.Order.{string_ord, compare_ℤ}
use cortex_v3_1_rmvm_relatio.BTree.Map.{get}
use cortex_v3_1_rmvm_relatio.BTree.Sort.{sort_by, then_with}
use cortex_v3_1_rmvm_relatio.Proto.Enums.{ErrorCode, trust_tier_from_i32}
use cortex_v3_1_rmvm_relatio.Proto.Messages.{HandleMeta, HandleRef, OpResolve}
use cortex_v3_1_rmvm_relatio.Kernel.Types.{SourceKind, RegData, RegValue, Regs, Exec, fail_rejected}
use cortex_v3_1_rmvm_relatio.Kernel.Values.{trust_rank, timestamp_score}
use cortex_v3_1_rmvm_relatio.Kernel.Fields.{as_handles}

-- the tuple `(trust, ts, ref, handle)`
pub record Ranked : Type 0 where
  pub trust : ℕ
  pub ts : ℤ
  pub ref : String
  pub handle : HandleRef

unfoldable pub rank : HandleRef → Ranked
rank h = record {
  trust =
      unwrap_or
        (map_option (λ (m : HandleMeta). trust_rank (trust_tier_from_i32 m.trust_tier)) h.meta) 0;
  ts =
      unwrap_or
        (map_option timestamp_score
          (and_then (and_then h.meta (λ m. m.temporal)) (λ t. t.valid_from)))
        (pos 0);
  ref = h.ref;
  handle = h;
}

-- `b.trust.cmp(&a.trust)`, then `b.ts.cmp(&a.ts)`, then `a.ref.cmp(&b.ref)`
abbrev pub by_rank : Ranked → Ranked → Ordering
by_rank a b =
    then_with (then_with (compare_ℕ b.trust a.trust) (compare_ℤ b.ts a.ts)) (compare a.ref b.ref)

abbrev pub same_ts : ℤ → ℤ → Bool
same_ts a b = elim (compare_ℤ a b) [ Ordering.eq ↦ true | _ ↦ false ]

-- the first two candidates have one trust and one time
abbrev pub is_tied : List Ranked → Bool
is_tied (a ∷ b ∷ rest) = a.trust == b.trust && same_ts a.ts b.ts
is_tied _ = false

abbrev pub is_empty {ℓ} : {A : Type ℓ} → List A → Bool
is_empty [] = true
is_empty (x ∷ xs) = false

abbrev pub first_handle : List Ranked → Option HandleRef
first_handle [] = none
first_handle (a ∷ rest) = some a.handle

unfoldable pub ranked : List HandleRef → List Ranked
ranked handles = sort_by by_rank (map rank handles)

-- the choice among the candidates
unfoldable pub winner : List HandleRef → Exec HandleRef
unfolding ranked
winner handles = do
  reject_if (is_empty handles)
      (fail_rejected ErrorCode.ambiguous_conflict "RESOLVE candidates empty")
  reject_if (is_tied (ranked handles))
      (fail_rejected ErrorCode.ambiguous_conflict "RESOLVE tie cannot be broken")
  ok_or (first_handle (ranked handles))
      (fail_rejected ErrorCode.ambiguous_conflict "RESOLVE winner missing")

unfoldable pub exec_resolve : OpResolve → Regs → Exec RegValue
exec_resolve r regs = do
  input ←
      ok_or (get r.in_reg regs)
        (fail_rejected ErrorCode.schema_violation "RESOLVE input register missing")
  handles ← as_handles input
  best ← winner handles
  ok (record input { reg_data = RegData.handle best; source = SourceKind.resolve })
