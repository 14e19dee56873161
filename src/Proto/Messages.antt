-- ===== src/Proto/Messages.antt =====
-- The messages of cortex_rmvm_v3_1.proto, as prost generates them with `btree_map(["."])`: a message
-- field is an `Option`, a map is a `BTreeMap`, an enum field is an `i32`.
use cortex_v3_1_rmvm_relatio.Base.{ℕ, Bool, String, List, Option}
use cortex_v3_1_rmvm_relatio.Base.Int.{ℤ}
use cortex_v3_1_rmvm_relatio.BTree.Map.{Map}
use cortex_v3_1_rmvm_relatio.Proto.Float.{F64}

-- google.protobuf.Timestamp
pub record Timestamp : Type 0 where
  pub seconds : ℤ
  pub nanos : ℤ

pub record TemporalBound : Type 0 where
  pub valid_from : Option Timestamp
  pub valid_to : Option Timestamp
  pub open_end : Bool

pub record HandleMeta : Type 0 where
  pub subject : String
  pub predicate_label : String
  pub trust_tier : ℤ
  pub taint : List ℤ
  pub temporal : Option TemporalBound
  pub scope : ℤ

pub record HandleRef : Type 0 where
  pub ref : String
  pub type_id : String
  pub availability : ℤ
  pub meta : Option HandleMeta
  pub signature_summary : String
  pub conflict_group_id : String

pub record ParamSpec : Type 0 where
  pub name : String
  pub param_type : ℤ
  pub enum_values : List String

pub record SelectorRef : Type 0 where
  pub sel : String
  pub description : String
  pub params : List ParamSpec
  pub cost_weight : F64
  pub return_type : ℤ

-- the oneof of `Value`
pub data V : Type 0 where
  s : String → V
  b : Bool → V
  i64 : ℤ → V
  f64 : F64 → V
  ts : Timestamp → V
  e : String → V

pub record Value : Type 0 where
  pub v : Option V

pub record ContextVar : Type 0 where
  pub name : String
  pub value : Option Value

pub record PlanBudget : Type 0 where
  pub max_ops : ℕ
  pub max_join_depth : ℕ
  pub max_fanout : ℕ
  pub max_total_cost : F64

pub record PublicManifest : Type 0 where
  pub request_id : String
  pub handles : List HandleRef
  pub selectors : List SelectorRef
  pub context : List ContextVar
  pub budget : Option PlanBudget

pub record OpFetch : Type 0 where
  pub handle_ref : String

pub record OpApplySelector : Type 0 where
  pub selector_ref : String
  pub params : Map String Value

pub record OpResolve : Type 0 where
  pub in_reg : String
  pub policy_id : String

pub record OpFilter : Type 0 where
  pub in_reg : String
  pub filter_ref : String
  pub params : Map String Value

pub record OpJoin : Type 0 where
  pub left_reg : String
  pub right_reg : String
  pub edge_type : ℤ

pub record OpProject : Type 0 where
  pub in_reg : String
  pub field_paths : List String

pub record ValueRef : Type 0 where
  pub reg : String
  pub field_path : String

pub data Cite : Type 0 where
  handle_ref : String → Cite
  anchor_ref : String → Cite

pub record CitationRef : Type 0 where
  pub cite : Option Cite

pub record OpAssert : Type 0 where
  pub assertion_type : ℤ
  pub bindings : Map String ValueRef
  pub citations : List CitationRef

pub data Op : Type 0 where
  fetch : OpFetch → Op
  apply_selector : OpApplySelector → Op
  resolve : OpResolve → Op
  filter : OpFilter → Op
  join : OpJoin → Op
  project : OpProject → Op
  assert_op : OpAssert → Op

pub record Step : Type 0 where
  pub out : String
  pub op : Option Op

pub record OutputSpec : Type 0 where
  pub reg : String

pub record RmvmPlan : Type 0 where
  pub request_id : String
  pub steps : List Step
  pub outputs : List OutputSpec

pub record CanonicalCitation : Type 0 where
  pub anchor_digest : String

pub record VerifiedAssertion : Type 0 where
  pub assertion_type : ℤ
  pub fields : Map String Value
  pub citations : List CanonicalCitation

pub record InclusionProof : Type 0 where
  pub assertion_index : ℕ
  pub sibling_hashes : List String

pub record AssertionMerkleProof : Type 0 where
  pub semantic_root : String
  pub trace_root : String
  pub inclusion : List InclusionProof

pub record RenderedOutput : Type 0 where
  pub verified_blocks : List String
  pub narrative_blocks : List String

pub record StallInfo : Type 0 where
  pub handle_ref : String
  pub availability : ℤ
  pub estimated_ready_at : Option Timestamp
  pub retrieval_ticket : String

pub record Hint : Type 0 where
  pub kind : String
  pub detail : String

pub record ExecutionError : Type 0 where
  pub code : ℤ
  pub message : String
  pub hints : List Hint

pub record ExecuteRequest : Type 0 where
  pub manifest : Option PublicManifest
  pub plan : Option RmvmPlan

pub record ExecuteResponse : Type 0 where
  pub status : ℤ
  pub assertions : List VerifiedAssertion
  pub proof : Option AssertionMerkleProof
  pub rendered : Option RenderedOutput
  pub stall : Option StallInfo
  pub error : Option ExecutionError
