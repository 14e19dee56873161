-- ===== src/Kernel/Sound/Projections.antt =====
-- PROJECT gives a sound register: what it reads off a covered handle is traced to it.
use cortex_v3_1_rmvm_relatio.Base.{
  ◌≡◌, refl, subst, String, List, [], ◌∷◌, some, All, inl, inr, length, str_eq, Bool-cases, ok,
  >>=-eq-ok, ok_or-eq-ok, ok-injective,
}
use cortex_v3_1_rmvm_relatio.Base.Order.{string_ord, int_ord}
use cortex_v3_1_rmvm_relatio.BTree.Map.{Map, insert}
use cortex_v3_1_rmvm_relatio.BTree.Map.Laws.{get-AllValues, insert-AllValues, AllValues}
use cortex_v3_1_rmvm_relatio.Proto.Messages.{HandleRef, Value, OpProject}
use cortex_v3_1_rmvm_relatio.Kernel.Types.{RegData, handle, handle_set, struct, RegValue, Regs}
use cortex_v3_1_rmvm_relatio.Kernel.Fields.{handle_field}
use cortex_v3_1_rmvm_relatio.Kernel.Project.{
  project_handle, project_first, project_struct, project_set, project_data, exec_project,
}
use cortex_v3_1_rmvm_relatio.Kernel.Sound.{
  Facts, facts, Covers, Origin, IsSound, data_handles, data_values,
}
use cortex_v3_1_rmvm_relatio.Kernel.Sound.Registers.{input-IsSound}

module _ (handles : List HandleRef) (params : List Value) (f : Facts) where
  abbrev Traced : Map String Value → Type 0
  Traced m = AllValues (Origin handles params f) m

  insert-Traced :
      (h : HandleRef) (path : String) (v : Value) (out : Map String Value)
      → Covers handles f h
      → handle_field h path ≡ some v
      → Traced out
      → Traced (insert path v out)
  insert-Traced h path v out c e t = insert-AllValues _ path v out (Origin.field h path e c) t

  project_handle-Traced :
      (h : HandleRef) (paths : List String) (out : Map String Value) {fields : Map String Value}
      → project_handle h paths out ≡ ok fields
      → Covers handles f h
      → Traced out
      → Traced fields
  unfolding project_handle
  project_handle-Traced h [] out p c t = subst Traced (ok-injective p) t
  project_handle-Traced h (path ∷ rest) out p c t =
      let (v, got, p1) = >>=-eq-ok _ _ p in
      project_handle-Traced h rest (insert path v out) p1 c
        (insert-Traced h path v out c (ok_or-eq-ok _ _ got) t)

  project_first-Traced :
      (h : HandleRef) (paths : List String) (out : Map String Value) {fields : Map String Value}
      → project_first h paths out ≡ ok fields
      → Covers handles f h
      → Traced out
      → Traced fields
  unfolding project_first
  project_first-Traced h [] out p c t = subst Traced (ok-injective p) t
  project_first-Traced h (path ∷ rest) out p c t = elim (Bool-cases (str_eq path "set_count")) [
    | inl counted ↦ project_first-Traced h rest out (rw counted at p) c t
    | inr stored ↦
        let (v, got, p1) = >>=-eq-ok _ _ (rw stored at p) in
        project_first-Traced h rest (insert path v out) p1 c
          (insert-Traced h path v out c (ok_or-eq-ok _ _ got) t)
  ]

  project_struct-Traced :
      (source : Map String Value) (paths : List String) (out : Map String Value)
      {fields : Map String Value}
      → project_struct source paths out ≡ ok fields
      → Traced source
      → Traced out
      → Traced fields
  unfolding project_struct
  project_struct-Traced source [] out p s t = subst Traced (ok-injective p) t
  project_struct-Traced source (path ∷ rest) out p s t =
      let (v, got, p1) = >>=-eq-ok _ _ p in
      project_struct-Traced source rest (insert path v out) p1 s
        (insert-AllValues _ path v out (get-AllValues _ path source s (ok_or-eq-ok _ _ got)) t)

  project_set-Traced :
      (hs : List HandleRef) (paths : List String) {fields : Map String Value}
      → project_set hs paths [] ≡ ok fields
      → All (Covers handles f) hs
      → Traced fields
  project_set-Traced [] paths p c = subst Traced (ok-injective p) tt
  project_set-Traced (h ∷ hs) paths p c = project_first-Traced h paths [] p c.0 tt

  project_data-Traced :
      (d : RegData) (paths : List String) {fields : Map String Value}
      → project_data d paths ≡ ok fields
      → All (Covers handles f) (data_handles d)
      → All (Origin handles params f) (data_values d)
      → Traced fields
  project_data-Traced (handle h) paths p c t = project_handle-Traced h paths [] p c.0 tt
  project_data-Traced (handle_set hs) paths p c t =
      let (out, got, p1) = >>=-eq-ok _ _ p in
      subst Traced (ok-injective p1) (
        insert-AllValues _ "set_count" _ out (Origin.count (length hs) refl)
          (project_set-Traced hs paths got c))
  project_data-Traced (struct fields) paths p c t = project_struct-Traced fields paths [] p t tt

module _ (handles : List HandleRef) (params : List Value) where
  pub project-IsSound :
      (op : OpProject) (regs : Regs) {r : RegValue}
      → exec_project op regs ≡ ok r
      → AllValues (IsSound handles params) regs
      → IsSound handles params r
  unfolding exec_project
  project-IsSound op regs {r} p s =
      let (input, got, p1) = >>=-eq-ok _ _ p in
      let (out, read, p2) = >>=-eq-ok _ _ p1 in
      let sound = input-IsSound handles params op.in_reg regs _ s got in
      let traced =
        project_data-Traced handles params (facts input) input.reg_data op.field_paths read
          sound.handles_covered sound.values_traced in
      subst (IsSound handles params) (ok-injective p2)
        (record { handles_covered = tt; values_traced = traced })
