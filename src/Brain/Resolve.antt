-- ===== src/Brain/Resolve.antt =====
-- Which brain a reference means: `list_brains`, `resolve_brain`, the configuration, the active brain.
use cortex_v3_1_rmvm_relatio.Base.{
  ◌||◌, String, List, [], ◌∷◌, Option, none, some, str_eq, if◌then◌else◌, format, trim, find?, ok,
  ◌>>=◌, ok_or,
}
use Prim.Native.Nat.{Ordering}
use Prim.Native.String.{compare}
use cortex_v3_1_rmvm_relatio.BTree.Sort.{sort_by}
use cortex_v3_1_rmvm_relatio.Brain.Types.{BrainSummary, AppConfig, Stop, Fallible, summary_of}
use cortex_v3_1_rmvm_relatio.Brain.Disk.{read_json, exists, BrainDir, Disk, Write, write_all}

-- `env::var(name).ok()`
abbrev pub Env : Type 0
Env = String → Option String

-- `all.sort_by(|a, b| a.name.cmp(&b.name))`
abbrev pub by_name : BrainSummary → BrainSummary → Ordering
by_name a b = compare a.name b.name

-- the directories that hold a manifest, as they are listed
unfoldable pub summaries : List (String × BrainDir) → Fallible (List BrainSummary)
summaries [] = ok []
summaries ((name, d) ∷ rest) =
    let others = summaries rest in
    if exists d.brain_json
    then (do manifest ← read_json d.brain_json; out ← others; ok (summary_of manifest ∷ out))
    else others

unfoldable pub list_brains : Disk → Fallible (List BrainSummary)
unfolding summaries
list_brains disk = do out ← summaries disk.brains; ok (sort_by by_name out)

unfoldable pub resolve_brain : String → Disk → Fallible BrainSummary
resolve_brain brain_ref disk = do
  all ← list_brains disk
  ok_or (find? (λ (b : BrainSummary). str_eq b.brain_id brain_ref || str_eq b.name brain_ref) all)
      (Stop.failure (format ("brain not found: " ∷ brain_ref ∷ [])))

unfoldable pub read_config : Disk → Fallible AppConfig
read_config disk =
    if exists disk.config then read_json disk.config else ok (record { active_brain = none })

unfoldable pub active_brain_id : Disk → Fallible (Option String)
active_brain_id disk = do cfg ← read_config disk; ok cfg.active_brain

unfoldable pub set_active_brain : String → Disk → Fallible (Disk × BrainSummary)
set_active_brain brain_ref disk = do
  summary ← resolve_brain brain_ref disk
  cfg ← read_config disk
  let cfg' = record cfg { active_brain = some summary.brain_id }
  ok (write_all (Write.config cfg' ∷ []) disk, summary)

-- without a reference: the environment, then the active brain
unfoldable pub resolve_unnamed : Option String → Disk → Fallible BrainSummary
resolve_unnamed (some v) disk = resolve_brain (trim v) disk
resolve_unnamed none disk = do
  id ← active_brain_id disk
  active ← ok_or id (Stop.failure "no active brain; run `cortex brain use <brain>`")
  resolve_brain active disk

unfoldable pub resolve_brain_or_active : Env → Option String → Disk → Fallible BrainSummary
unfolding resolve_unnamed
resolve_brain_or_active env (some brain_ref) disk = resolve_brain brain_ref disk
resolve_brain_or_active env none disk = resolve_unnamed (env "CORTEX_BRAIN") disk
