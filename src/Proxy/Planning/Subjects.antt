-- ===== src/Proxy/Planning/Subjects.antt =====
-- On what of the request the plan depends.
use cortex_v3_1_rmvm_relatio.Base.{◌≡◌, refl, String, List, ◌∷◌, Option, none, some}
use cortex_v3_1_rmvm_relatio.Proto.Messages.{PublicManifest, HandleRef}
use cortex_v3_1_rmvm_relatio.Planner.Fallback.{deterministic_plan_from_manifest}
use cortex_v3_1_rmvm_relatio.Proxy.Types.{HeaderMap, header, PlannerMode, PlannerConfig}
use cortex_v3_1_rmvm_relatio.Proxy.Planning.{Outside, plan_by_mode, plan_by_header, resolve_plan}

fallback-any_subject :
    (request_id a b : String) (m : PublicManifest) {h : HandleRef} {hs : List HandleRef}
    → m.handles ≡ h ∷ hs
    → deterministic_plan_from_manifest request_id a m
      ≡ deterministic_plan_from_manifest request_id b m
unfolding deterministic_plan_from_manifest
fallback-any_subject request_id a b m has = rw has refl

mode-any_subject :
    (out : Outside) (mode : PlannerMode) (planner : PlannerConfig)
    (plan_prompt request_id a b : String) (m : PublicManifest) {h : HandleRef} {hs : List HandleRef}
    → m.handles ≡ h ∷ hs
    → plan_by_mode out mode planner plan_prompt m request_id a
      ≡ plan_by_mode out mode planner plan_prompt m request_id b
mode-any_subject out PlannerMode.byo_header planner plan_prompt request_id a b m has = refl
mode-any_subject out PlannerMode.open_ai planner plan_prompt request_id a b m has = refl
mode-any_subject out PlannerMode.fallback planner plan_prompt request_id a b m has =
    rw (fallback-any_subject request_id a b m has) refl

header-any_subject :
    (out : Outside) (value : Option (Option String)) (planner : PlannerConfig)
    (plan_prompt request_id a b : String) (m : PublicManifest) {h : HandleRef} {hs : List HandleRef}
    → m.handles ≡ h ∷ hs
    → plan_by_header out value planner plan_prompt m request_id a
      ≡ plan_by_header out value planner plan_prompt m request_id b
header-any_subject out none planner plan_prompt request_id a b m has =
    mode-any_subject out planner.mode planner plan_prompt request_id a b m has
header-any_subject out (some value) planner plan_prompt request_id a b m has = refl

-- Over a manifest with a handle, the proxy resolves the same plan for every subject.
pub resolve_plan-any_subject :
    (out : Outside) (planner : PlannerConfig) (headers : HeaderMap)
    (plan_prompt request_id a b : String) (m : PublicManifest) {h : HandleRef} {hs : List HandleRef}
    → m.handles ≡ h ∷ hs
    → resolve_plan out planner headers plan_prompt m request_id a
      ≡ resolve_plan out planner headers plan_prompt m request_id b
unfolding resolve_plan
resolve_plan-any_subject out planner headers plan_prompt request_id a b m has =
    header-any_subject out (header "x-cortex-plan" headers) planner plan_prompt request_id a b m has
