-- ===== src/Kernel/Params.antt =====
-- The parameters of a selector, checked against its specification, and the handles that they match.
use cortex_v3_1_rmvm_relatio.Base.{
  Bool, true, false, ◌&&◌, not, String, List, [], ◌∷◌, Option, none, some, if◌then◌else◌,
  map_option, unwrap_or, map, any, str_eq, ok, ◌>>=◌, ◌>>◌, ok_or, reject_if,
}
use cortex_v3_1_rmvm_relatio.Base.Order.{string_ord}
use cortex_v3_1_rmvm_relatio.BTree.Map.{Map, get, insert_all, empty}
use cortex_v3_1_rmvm_relatio.Proto.Enums.{
  ParamType, ErrorCode, param_type_from_i32, availability_from_i32, availability_name,
}
use cortex_v3_1_rmvm_relatio.Proto.Messages.{HandleMeta, HandleRef, ParamSpec, V, Value}
use cortex_v3_1_rmvm_relatio.Kernel.Types.{Exec, fail_rejected}
use cortex_v3_1_rmvm_relatio.Kernel.Values.{as_string, as_string_or_enum}
use cortex_v3_1_rmvm_relatio.Kernel.Fields.{meta_scope_name}

-- `Some(a) == o` on texts
abbrev pub same_text : Option String → Option String → Bool
same_text none none = true
same_text (some a) (some b) = str_eq a b
same_text _ _ = false

abbrev is_string : V → Bool
is_string (V.s _) = true
is_string _ = false

abbrev is_bool : V → Bool
is_bool (V.b _) = true
is_bool _ = false

abbrev is_i64 : V → Bool
is_i64 (V.i64 _) = true
is_i64 _ = false

abbrev is_f64 : V → Bool
is_f64 (V.f64 _) = true
is_f64 _ = false

abbrev is_ts : V → Bool
is_ts (V.ts _) = true
is_ts _ = false

abbrev is_enum_of : List String → V → Bool
is_enum_of [] (V.e name) = true
is_enum_of (x ∷ xs) (V.e name) = any (λ y. str_eq y name) (x ∷ xs)
is_enum_of _ _ = false

abbrev v_matches_type : ParamType → List String → V → Bool
v_matches_type ParamType.param_string names v = is_string v
v_matches_type ParamType.param_bool names v = is_bool v
v_matches_type ParamType.param_int64 names v = is_i64 v
v_matches_type ParamType.param_float64 names v = is_f64 v
v_matches_type ParamType.param_timestamp names v = is_ts v
v_matches_type ParamType.param_enum names v = is_enum_of names v
v_matches_type ParamType.param_scope names v = is_enum_of names v
v_matches_type ParamType.unspecified names v = false

unfoldable pub value_matches_type : Value → ParamSpec → Bool
value_matches_type value spec =
    unwrap_or
      (map_option (v_matches_type (param_type_from_i32 spec.param_type) spec.enum_values) value.v)
      false

abbrev pub by_name : List ParamSpec → List (String × ParamSpec)
by_name = map (λ (s : ParamSpec). (s.name, s))

pub check_params : Map String ParamSpec → List (String × Value) → Exec (Unit {0})
check_params specs [] = ok tt
check_params specs ((name, value) ∷ rest) = do
  spec ←
      ok_or (get name specs) (fail_rejected ErrorCode.schema_violation "param not in selector spec")
  reject_if (not (value_matches_type value spec))
      (fail_rejected ErrorCode.type_mismatch "param type mismatch")
  check_params specs rest

unfoldable pub validate_param_specs : List ParamSpec → Map String Value → Exec (Unit {0})
unfolding check_params
validate_param_specs specs params = check_params (insert_all (by_name specs) empty) params

-- one parameter's condition on a handle; a name that is not known puts none
unfoldable pub param_match : HandleRef → String → Value → Bool
param_match h name value =
    if str_eq name "subject"
    then same_text (map_option (λ (m : HandleMeta). m.subject) h.meta) (as_string (some value))
    else if str_eq name "type_id"
    then same_text (some h.type_id) (as_string (some value))
    else if str_eq name "scope"
    then same_text (map_option meta_scope_name h.meta) (as_string_or_enum (some value))
    else if str_eq name "availability"
    then same_text (some (availability_name (availability_from_i32 h.availability)))
        (as_string_or_enum (some value))
    else true

unfoldable pub selector_match : HandleRef → Map String Value → Bool
unfolding param_match
selector_match h [] = true
selector_match h ((name, value) ∷ rest) = param_match h name value && selector_match h rest
