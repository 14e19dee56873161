-- ===== src/Planner/Extract.antt =====
-- `extract_json_object` and `build_plan_only_prompt`: the texts that go to and come from the language
-- model.
pub mod Braced
use Prim.Native.Char.{Char, code}
use cortex_v3_1_rmvm_relatio.Base.{
  Bool, ◌&&◌, String, [], ◌∷◌, Option, none, some, is_some, map_option, unwrap_or, map, ◌==◌,
  str_eq, if◌then◌else◌, format, join, trim, trim_start, strip_prefix, ok, ◌>>=◌, ok_or,
}
use cortex_v3_1_rmvm_relatio.Proto.Messages.{HandleRef, SelectorRef, PublicManifest}
use cortex_v3_1_rmvm_relatio.Planner.Guard.{Checked}

unfoldable pub build_plan_only_prompt : String → PublicManifest → String
build_plan_only_prompt user_message manifest =
    let handles = join ", " (map (λ (h : HandleRef). h.ref) manifest.handles) in
    let selectors = join ", " (map (λ (s : SelectorRef). s.sel) manifest.selectors) in
    join "\n" (
      "Return plan JSON only. Do not include prose or markdown."
      ∷ "Use schema: {requestId, steps:[{out, op:{kind,...}}], outputs:[string]}."
      ∷ "Allowed op.kind values: fetch, applySelector, resolve, filter, join, project, assert."
      ∷ "assert bindings shape: bindings.{field} = {reg, fieldPath}."
      ∷ format ("User message: " ∷ user_message ∷ [])
      ∷ format ("Allowed handle refs: [" ∷ handles ∷ "]" ∷ [])
      ∷ format ("Allowed selector refs: [" ∷ selectors ∷ "]" ∷ [])
      ∷ "Every fetch.handleRef must be from allowed handle refs."
      ∷ "Every applySelector.selectorRef must be from allowed selector refs."
      ∷ [])

-- the text from the first `{` on
unfoldable pub from_brace : String → Option String
from_brace String.[] = none
from_brace (String.◌∷◌ c s) =
    let rest = from_brace s in if code c == b'{' then some (String.◌∷◌ c s) else rest

abbrev pub last_brace : Char → Option String → Option String
last_brace c (some front) = some (String.◌∷◌ c front)
last_brace c none = if code c == b'}' then some (String.◌∷◌ c "") else none

-- the text up to the last `}`, which it keeps
unfoldable pub to_last_brace : String → Option String
to_last_brace String.[] = none
to_last_brace (String.◌∷◌ c s) = last_brace c (to_last_brace s)

-- `starts_with('{') && ends_with('}')`: both cuts leave the whole
unfoldable pub is_braced : String → Bool
unfolding from_brace to_last_brace
is_braced s =
    str_eq (unwrap_or (from_brace s) "") s
    && str_eq (unwrap_or (to_last_brace s) "") s
    && is_some (from_brace s)

-- what stands before and after the first three backticks
unfoldable pub split_fence : String → Option (String × String)
split_fence String.[] = none
split_fence (String.◌∷◌ c s) =
    let later = split_fence s in
    elim (strip_prefix "```" (String.◌∷◌ c s)) [
      | some after ↦ some ("", after)
      | none ↦ map_option (λ (p : String × String). (String.◌∷◌ c p.0, p.1)) later
    ]

-- what stands between the fences, from after the first one
abbrev pub fenced_body : Option (String × String) → Option String
fenced_body none = none
fenced_body (some (inner, after)) =
    let body = trim inner in if is_braced body then some body else none

abbrev pub after_fence : Option (String × String) → Option String
after_fence none = none
after_fence (some (before, opened)) =
    fenced_body (split_fence (trim_start (unwrap_or (strip_prefix "json" opened) opened)))

-- the body of a fenced block, where it is an object
unfoldable pub fenced_object : String → Option String
unfolding split_fence is_braced
fenced_object trimmed = after_fence (split_fence trimmed)

abbrev pub unfenced_object : String → Checked String
unfenced_object trimmed = do
  tail ← ok_or (from_brace trimmed) "planner output did not include a JSON object"
  front ← ok_or (to_last_brace trimmed) "planner output did not include a JSON object end"
  ok_or (to_last_brace tail) "planner output JSON boundaries are invalid"

abbrev pub fenced_or_not : String → Option String → Checked String
fenced_or_not trimmed (some body) = ok body
fenced_or_not trimmed none = unfenced_object trimmed

unfoldable pub extract_json_object : String → Checked String
extract_json_object input =
    let trimmed = trim input in
    if is_braced trimmed then ok trimmed else fenced_or_not trimmed (fenced_object trimmed)
