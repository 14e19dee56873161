-- ===== src/Brain/State/Grants.antt =====
-- `attach` and `detach` of one agent and one model.
use cortex_v3_1_rmvm_relatio.Base.{
  ℕ, ◌≡◌, refl, ap, ◌∙◌, not, String, List, [], ◌∷◌, ◌++◌, some, arith, length, filter, eq_iff, ok,
}
use cortex_v3_1_rmvm_relatio.Planner.Json.{JsonValue}
use cortex_v3_1_rmvm_relatio.Brain.Types.{AttachmentGrant, BrainState}
use cortex_v3_1_rmvm_relatio.Brain.State.{
  Stamp, push_audit, is_for, attached_state, attach_state, is_detached, detached_state,
  detach_state,
}
use cortex_v3_1_rmvm_relatio.Brain.State.Consistent.{filter-attached}

-- the grants for other pairs
abbrev pub others : AttachmentGrant → List AttachmentGrant → List AttachmentGrant
others grant gs = filter (λ a. not (is_for grant.agent_id grant.model_id a)) gs

is_detached_for :
    (agent model : String) (a : AttachmentGrant)
    → is_detached agent (some model) a ≡ is_for agent model a
is_detached_for agent model a = ground (arith, eq_iff model a.model_id, eq_iff a.model_id model)

filter-detached :
    (agent model : String) (gs : List AttachmentGrant)
    → filter (is_detached agent (some model)) gs ≡ filter (is_for agent model) gs
filter-detached agent model [] = refl
filter-detached agent model (a ∷ gs) =
    ground (arith, filter-detached agent model gs, is_detached_for agent model a)

filter-others :
    (grant : AttachmentGrant) (gs : List AttachmentGrant)
    → filter
        (λ a. not (is_detached grant.agent_id (some grant.model_id) a))
        (others grant gs ++ grant ∷ [])
      ≡ others grant gs
filter-others grant [] = ground (
  arith,
  is_detached_for grant.agent_id grant.model_id grant,
  eq_iff grant.agent_id grant.agent_id,
  eq_iff grant.model_id grant.model_id,
)
filter-others grant (a ∷ gs) =
    ground (arith, filter-others grant gs, is_detached_for grant.agent_id grant.model_id a)

-- After attach there is exactly one grant for its agent and model, the one attached; a detach of
-- both then removes one grant, and the grants for other pairs are those from before.
pub attach-detach :
    (json_count : ℕ → JsonValue) (stamp stamp' : Stamp) (grant : AttachmentGrant) (s : BrainState)
    → (attached : BrainState) × (detached : BrainState) × (attach_state stamp grant s ≡ ok attached)
      × (filter (is_for grant.agent_id grant.model_id) attached.attachments ≡ grant ∷ [])
      × (detach_state json_count stamp' grant.agent_id (some grant.model_id) attached
          ≡ ok (detached, 1))
      × (detached.attachments ≡ others grant s.attachments)
unfolding attach_state attached_state detach_state detached_state push_audit
attach-detach json_count stamp stamp' grant s =
    let one = filter-attached grant s.attachments in
    let attached = attached_state stamp grant s in
    (
      attached,
      detached_state json_count stamp' grant.agent_id (some grant.model_id) 1 attached,
      refl,
      one,
      ap
          (λ n.
            ok
              (detached_state json_count stamp' grant.agent_id (some grant.model_id) n attached, n))
          (ap length (
            filter-detached grant.agent_id grant.model_id (others grant s.attachments ++ grant ∷ [])
            ∙ one)),
      filter-others grant s.attachments,
    )
