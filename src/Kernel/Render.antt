-- ===== src/Kernel/Render.antt =====
-- `render_output`: the text of the verified assertions, and the narrative templates.
use text.Mathlib.Text.{get?}
use Prim.Native.String.{len}
use cortex_v3_1_rmvm_relatio.Base.{
  ℕ, Bool, not, String, List, [], ◌∷◌, Option, none, some, and_then, map, get_elem?, format, join,
  parse_usize, ok, ◌>>=◌, ◌>>◌, ok_or, reject_if,
}
use cortex_v3_1_rmvm_relatio.Base.Order.{string_ord}
use cortex_v3_1_rmvm_relatio.BTree.Map.{Map, get}
use cortex_v3_1_rmvm_relatio.Proto.Enums.{ErrorCode, assertion_type_from_i32, assertion_type_name}
use cortex_v3_1_rmvm_relatio.Proto.Float.{Floats}
use cortex_v3_1_rmvm_relatio.Proto.Messages.{
  HandleRef, Value, OutputSpec, VerifiedAssertion, RenderedOutput,
}
use cortex_v3_1_rmvm_relatio.Kernel.Types.{
  ExecuteOptions, RegData, handle, handle_set, struct, RegValue, Regs, ExecStop, Exec,
  fail_rejected,
}
use cortex_v3_1_rmvm_relatio.Kernel.Values.{value_to_string}

-- a match of a pattern: its byte range, and the texts of its groups 1 and 2
pub record Capture : Type 0 where
  pub start : ℕ
  pub stop : ℕ
  pub group1 : Option String
  pub group2 : Option String

-- What the crate regex computes, given a pattern and a text.
pub record Regexes : Type 0 where
  pub captures_iter : String → String → List Capture
  -- `replace_all(text, "")`
  pub remove_all : String → String → String
  pub is_match : String → String → Bool

-- The patterns of the source.
abbrev pub capture_pattern : String
capture_pattern = "\\{A\\[(\\d+)\\]\\.([a-zA-Z_][a-zA-Z0-9_]*)\\}"

abbrev pub binding_pattern : String
binding_pattern = "\\{A\\[\\d+\\]\\.[a-zA-Z_][a-zA-Z0-9_]*\\}"

abbrev pub macro_pattern : String
macro_pattern = "\\{\\{macro\\.[a-zA-Z_][a-zA-Z0-9_.-]*\\}\\}"

abbrev pub prose_pattern : String
prose_pattern = "^[a-z\\s\\.,!\\?]*$"

module _ (re : Regexes) where
  unfoldable pub valid_narrative_template : String → Bool
  valid_narrative_template template =
      re.is_match prose_pattern
        (re.remove_all macro_pattern (re.remove_all binding_pattern template))

module _ (fl : Floats) where
  field_texts : String → Map String Value → List String
  field_texts sep [] = []
  field_texts sep ((k, v) ∷ rest) =
      format (k ∷ sep ∷ value_to_string fl v ∷ []) ∷ field_texts sep rest

  data_to_string : RegData → String
  data_to_string (handle h) = format ("HANDLE(" ∷ h.ref ∷ ")" ∷ [])
  data_to_string (handle_set hs) =
      format ("HANDLE_SET([" ∷ join "," (map (λ (h : HandleRef). h.ref) hs) ∷ "])" ∷ [])
  data_to_string (struct fields) = format ("STRUCT(" ∷ join "," (field_texts ":" fields) ∷ ")" ∷ [])

  unfoldable pub reg_to_string : RegValue → String
  unfolding data_to_string field_texts
  reg_to_string reg = data_to_string reg.reg_data

  unfoldable pub assertion_block : VerifiedAssertion → String
  unfolding field_texts
  assertion_block a = format (
      assertion_type_name (assertion_type_from_i32 a.assertion_type)
      ∷ ": "
      ∷ join ", " (field_texts "=" a.fields)
      ∷ [])

  -- the outputs that name a register
  unfoldable pub output_blocks : List OutputSpec → Regs → List String
  output_blocks [] regs = []
  output_blocks (o ∷ rest) regs = elim (get o.reg regs) [
    | none ↦ output_blocks rest regs
    | some reg ↦ format (o.reg ∷ "=" ∷ reg_to_string reg ∷ []) ∷ output_blocks rest regs
  ]

  unfoldable pub verified_blocks : List OutputSpec → Regs → List VerifiedAssertion → List String
  verified_blocks outputs regs [] = output_blocks outputs regs
  verified_blocks outputs regs (a ∷ rest) = map assertion_block (a ∷ rest)

  abbrev slice_panic : ExecStop
  slice_panic = ExecStop.panic "byte index out of range"

  -- the loop over the matches: what stands between them is copied
  unfoldable pub render_captures :
      String → List VerifiedAssertion → List Capture → ℕ → String → Exec String
  render_captures template assertions [] last rendered = do
    tail ← ok_or (get? template last (len template)) slice_panic
    ok (format (rendered ∷ tail ∷ []))
  render_captures template assertions (c ∷ rest) last rendered = do
    between ← ok_or (get? template last c.start) slice_panic
    idx ←
        ok_or (and_then c.group1 parse_usize)
          (fail_rejected ErrorCode.schema_violation "invalid narrative assertion index")
    field ← ok_or c.group2 (fail_rejected ErrorCode.schema_violation "invalid narrative field")
    v ←
        ok_or (and_then (get_elem? assertions idx) (λ a. get field a.fields))
          (fail_rejected ErrorCode.field_redacted "narrative binding field missing")
    render_captures template assertions rest c.stop
        (format (rendered ∷ between ∷ value_to_string fl v ∷ []))

  module _ (re : Regexes) where
    unfoldable pub render_narrative_template : String → List VerifiedAssertion → Exec String
    render_narrative_template template assertions =
        render_captures template assertions (re.captures_iter capture_pattern template) 0 ""

    unfoldable pub narrative_blocks : List String → List VerifiedAssertion → Exec (List String)
    narrative_blocks [] assertions = ok []
    narrative_blocks (template ∷ rest) assertions = do
      reject_if (not (valid_narrative_template re template))
          (fail_rejected ErrorCode.data_leak_prevention "narrative template violates grammar guard")
      block ← render_narrative_template template assertions
      blocks ← narrative_blocks rest assertions
      ok (block ∷ blocks)

    unfoldable pub render_output :
        List OutputSpec → Regs → List VerifiedAssertion → ExecuteOptions → Exec RenderedOutput
    render_output outputs regs assertions opts = do
      blocks ← narrative_blocks opts.narrative_templates assertions
      ok (record {
        verified_blocks = verified_blocks outputs regs assertions;
        narrative_blocks = blocks;
      })
