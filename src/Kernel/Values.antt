-- ===== src/Kernel/Values.antt =====
-- Reading values: trust ranks, timestamps, the text of a value.
use cortex_v3_1_rmvm_relatio.Base.{
  ℕ, Bool, true, false, ◌||◌, String, [], ◌∷◌, Option, none, some, leb, if◌then◌else◌, format,
  and_then, str_eq,
}
use cortex_v3_1_rmvm_relatio.Base.Int.{ℤ, pos, ◌+ℤ◌, scale, clamp_i64, as_i32, show_ℤ}
use cortex_v3_1_rmvm_relatio.Base.Order.{int_ord}
use cortex_v3_1_rmvm_relatio.BTree.Set.{Set, contains}
use cortex_v3_1_rmvm_relatio.Proto.Enums.{TrustTier, AssertionType, trust_tier_from_i32}
use cortex_v3_1_rmvm_relatio.Proto.Float.{Floats}
use cortex_v3_1_rmvm_relatio.Proto.Messages.{Timestamp, V, Value}

-- `tier as i32`
unfoldable pub trust_rank : TrustTier → ℕ
trust_rank TrustTier.unspecified = 0
trust_rank TrustTier.tier_0_quarantined = 1
trust_rank TrustTier.tier_1_asserted = 2
trust_rank TrustTier.tier_2_verified = 3
trust_rank TrustTier.tier_3_confirmed = 4
trust_rank TrustTier.tier_4_policy_signed = 5

unfoldable pub min_tier : TrustTier → TrustTier → TrustTier
unfolding trust_rank
min_tier a b = if leb (trust_rank a) (trust_rank b) then a else b

-- `seconds.saturating_mul(1_000_000_000).saturating_add(nanos)`
unfoldable pub timestamp_score : Timestamp → ℤ
timestamp_score t = clamp_i64 (clamp_i64 (scale t.seconds 1_000_000_000) +ℤ t.nanos)

unfoldable pub assertion_requires_tier2 : AssertionType → Bool
assertion_requires_tier2 AssertionType.assert_user_preference = true
assertion_requires_tier2 AssertionType.assert_decision = true
assertion_requires_tier2 AssertionType.assert_procedure = true
assertion_requires_tier2 _ = false

-- TAINT_WEB_UNTRUSTED is 3 and TAINT_MIXED is 5
unfoldable pub has_untrusted_taint : Set ℤ → Bool
has_untrusted_taint taint = contains (pos 3) taint || contains (pos 5) taint

abbrev string_of : V → Option String
string_of (V.s s) = some s
string_of _ = none

abbrev string_or_enum_of : V → Option String
string_or_enum_of (V.s s) = some s
string_or_enum_of (V.e s) = some s
string_or_enum_of _ = none

unfoldable pub as_string : Option Value → Option String
as_string none = none
as_string (some value) = and_then value.v string_of

unfoldable pub as_string_or_enum : Option Value → Option String
as_string_or_enum none = none
as_string_or_enum (some value) = and_then value.v string_or_enum_of

-- the tier that an enum text names
unfoldable pub parse_enum_i32 : String → ℤ
parse_enum_i32 name =
    if str_eq name "TIER_0_QUARANTINED"
    then pos 1
    else if str_eq name "TIER_1_ASSERTED"
    then pos 2
    else if str_eq name "TIER_2_VERIFIED"
    then pos 3
    else if str_eq name "TIER_3_CONFIRMED"
    then pos 4
    else if str_eq name "TIER_4_POLICY_SIGNED"
    then pos 5
    else pos 0

abbrev tier_rank_of : V → Option ℤ
tier_rank_of (V.i64 n) = some (as_i32 n)
tier_rank_of (V.e name) = some (pos (trust_rank (trust_tier_from_i32 (parse_enum_i32 name))))
tier_rank_of _ = none

unfoldable pub value_to_tier_rank : Value → Option ℤ
value_to_tier_rank value = and_then value.v tier_rank_of

abbrev pub bool_to_string : Bool → String
bool_to_string true = "true"
bool_to_string false = "false"

module _ (fl : Floats) where
  abbrev v_to_string : V → String
  v_to_string (V.s s) = s
  v_to_string (V.b b) = bool_to_string b
  v_to_string (V.i64 n) = show_ℤ n
  v_to_string (V.f64 x) = fl.to_string x
  v_to_string (V.ts t) = format (show_ℤ t.seconds ∷ ":" ∷ show_ℤ t.nanos ∷ [])
  v_to_string (V.e s) = s

  unfoldable pub value_to_string : Value → String
  value_to_string value = elim value.v [ none ↦ "<null>" | some v ↦ v_to_string v ]
