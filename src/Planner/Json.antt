-- ===== src/Planner/Json.antt =====
-- serde_json's `Value` as the parser reads it, `get_string`, `json_to_rmvm_value`, `parse_param_map`.
use cortex_v3_1_rmvm_relatio.Base.{
  Bool, String, List, [], ◌∷◌, Option, none, some, and_then, map_option,
}
use cortex_v3_1_rmvm_relatio.Base.Int.{ℤ}
use cortex_v3_1_rmvm_relatio.Base.Order.{string_ord}
use cortex_v3_1_rmvm_relatio.BTree.Map.{Map, get, insert}
use cortex_v3_1_rmvm_relatio.Proto.Float.{F64}
use cortex_v3_1_rmvm_relatio.Proto.Messages.{V, Value}

-- what `as_i64` and `as_f64` give for a number
pub record JsonNumber : Type 0 where
  pub to_i64 : Option ℤ
  pub to_f64 : Option F64

mutual
  pub data JsonValue : Type 0 where
    null : JsonValue
    bool : Bool → JsonValue
    number : JsonNumber → JsonValue
    string : String → JsonValue
    array : JsonArray → JsonValue
    object : JsonObject → JsonValue

  pub data JsonArray : Type 0 where
    end_array : JsonArray
    element : JsonValue → JsonArray → JsonArray

  pub data JsonObject : Type 0 where
    end_object : JsonObject
    entry : String → JsonValue → JsonObject → JsonObject

abbrev pub elements : JsonArray → List JsonValue
elements JsonArray.end_array = []
elements (JsonArray.element v r) = v ∷ elements r

abbrev pub entries : JsonObject → Map String JsonValue
entries JsonObject.end_object = []
entries (JsonObject.entry k v r) = (k, v) ∷ entries r

abbrev pub as_array : JsonValue → Option (List JsonValue)
as_array (JsonValue.array a) = some (elements a)
as_array _ = none

abbrev pub as_object : JsonValue → Option (Map String JsonValue)
as_object (JsonValue.object o) = some (entries o)
as_object _ = none

abbrev pub as_str : JsonValue → Option String
as_str (JsonValue.string s) = some s
as_str _ = none

abbrev pub as_bool : JsonValue → Option Bool
as_bool (JsonValue.bool b) = some b
as_bool _ = none

abbrev pub as_i64 : JsonValue → Option ℤ
as_i64 (JsonValue.number n) = n.to_i64
as_i64 _ = none

abbrev pub as_f64 : JsonValue → Option F64
as_f64 (JsonValue.number n) = n.to_f64
as_f64 _ = none

-- the first of two that gives something: one early return and what follows it
abbrev pub or_else {ℓ} : {A : Type ℓ} → Option A → Option A → Option A
or_else (some a) o = some a
or_else none o = o

unfoldable pub get_string : Map String JsonValue → List String → Option String
get_string obj [] = none
get_string obj (key ∷ keys) = or_else (and_then (get key obj) as_str) (get_string obj keys)

abbrev pub value : V → Value
value v = record { v = some v }

-- the tagged forms, `{"s": …}` and the like
unfoldable pub tagged_value : Map String JsonValue → Option Value
tagged_value obj = or_else (map_option (λ s. value (V.s s)) (and_then (get "s" obj) as_str)) (
    or_else (map_option (λ b. value (V.b b)) (and_then (get "b" obj) as_bool)) (
      or_else (map_option (λ i. value (V.i64 i)) (and_then (get "i64" obj) as_i64)) (
        or_else (map_option (λ f. value (V.f64 f)) (and_then (get "f64" obj) as_f64))
          (map_option (λ e. value (V.e e)) (and_then (get "e" obj) as_str)))))

unfoldable pub json_to_rmvm_value : JsonValue → Option Value
unfolding tagged_value
json_to_rmvm_value v = or_else (and_then (as_object v) tagged_value) (
    or_else (map_option (λ s. value (V.s s)) (as_str v)) (
      or_else (map_option (λ b. value (V.b b)) (as_bool v)) (
        or_else (map_option (λ i. value (V.i64 i)) (as_i64 v))
          (map_option (λ f. value (V.f64 f)) (as_f64 v)))))

unfoldable pub param_map : Map String JsonValue → Map String Value → Map String Value
param_map [] out = out
param_map ((k, v) ∷ obj) out =
    param_map obj (elim (json_to_rmvm_value v) [ some w ↦ insert k w out | none ↦ out ])

unfoldable pub parse_param_map : Option JsonValue → Map String Value
unfolding param_map
parse_param_map v = elim (and_then v as_object) [ none ↦ [] | some obj ↦ param_map obj [] ]
