-- ===== src/Brain/State/Consistent.antt =====
-- The well-formedness of a decrypted state and the two ways in which an edit changes it.
use cortex_v3_1_rmvm_relatio.Base.{
  ◌≡◌, refl, sym, ap, ◌∙◌, subst, Bool, true, false, not, String, List, [], ◌∷◌, ◌++◌, is_some,
  arith, filter, any, eq_iff,
}
use cortex_v3_1_rmvm_relatio.Base.Order.{string_ord}
use cortex_v3_1_rmvm_relatio.BTree.Map.{Map, get, insert}
use cortex_v3_1_rmvm_relatio.BTree.Map.Laws.{get-insert, insert-IsSorted, IsSorted}
use cortex_v3_1_rmvm_relatio.BTree.Map.Entries.{AllEntries, insert-AllEntries}
use cortex_v3_1_rmvm_relatio.Brain.Types.{BranchState, AttachmentGrant, BrainState}
use cortex_v3_1_rmvm_relatio.Brain.State.{is_for}

-- a branch is stored under its name, and its objects are a map
abbrev pub Tidy : String → BranchState → Type 0
Tidy key b = (b.name ≡ key) × IsSorted b.memory_objects

-- no two grants for one agent and one model
abbrev pub UniqueGrants : List AttachmentGrant → Type 0
UniqueGrants [] = Unit
UniqueGrants (g ∷ gs) = (any (is_for g.agent_id g.model_id) gs ≡ false) × UniqueGrants gs

pub record Consistent (active : String) (s : BrainState) : Type 0 where
  pub sorted : IsSorted s.branches
  pub tidy : AllEntries Tidy s.branches
  pub has_active : is_some (get active s.branches) ≡ true
  pub unique : UniqueGrants s.attachments

is_some-get-insert :
    (active k : String) (b : BranchState) (m : Map String BranchState)
    → is_some (get active m) ≡ true
    → is_some (get active (insert k b m)) ≡ true
is_some-get-insert active k b m h = ground (arith, get-insert k active b m)

-- one branch is written
pub insert-Consistent :
    (active k : String) (b : BranchState) (s s' : BrainState)
    → s'.branches ≡ insert k b s.branches
    → s'.attachments ≡ s.attachments
    → Tidy k b
    → Consistent active s
    → Consistent active s'
insert-Consistent active k b s s' written same tidy c = record {
  sorted = subst (λ m. IsSorted m) (sym written) (insert-IsSorted k b s.branches c.sorted);
  tidy =
      subst (λ m. AllEntries Tidy m) (sym written)
        (insert-AllEntries Tidy k b s.branches tidy c.tidy);
  has_active =
      ap (λ m. is_some (get active m)) written
      ∙ is_some-get-insert active k b s.branches c.has_active;
  unique = subst (λ gs. UniqueGrants gs) (sym same) c.unique;
}

-- the grants are written
pub grants-Consistent :
    (active : String) (s s' : BrainState)
    → s'.branches ≡ s.branches
    → UniqueGrants s'.attachments
    → Consistent active s
    → Consistent active s'
grants-Consistent active s s' same unique c = record {
  sorted = subst (λ m. IsSorted m) (sym same) c.sorted;
  tidy = subst (λ m. AllEntries Tidy m) (sym same) c.tidy;
  has_active = ap (λ m. is_some (get active m)) same ∙ c.has_active;
  unique = unique;
}

any-filter :
    (p q : AttachmentGrant → Bool) (gs : List AttachmentGrant)
    → any p gs ≡ false
    → any p (filter q gs) ≡ false
any-filter p q [] h = refl
any-filter p q (g ∷ gs) h = ground (arith, any-filter p q gs)

pub filter-UniqueGrants :
    (q : AttachmentGrant → Bool) (gs : List AttachmentGrant)
    → UniqueGrants gs
    → UniqueGrants (filter q gs)
filter-UniqueGrants q [] h = tt
filter-UniqueGrants q (g ∷ gs) h =
    ground (arith, filter-UniqueGrants q gs, any-filter (is_for g.agent_id g.model_id) q gs)

-- what `attach` leaves of the earlier grants, and the new one
pub filter-attached :
    (grant : AttachmentGrant) (gs : List AttachmentGrant)
    → filter
        (is_for grant.agent_id grant.model_id)
        (filter (λ a. not (is_for grant.agent_id grant.model_id a)) gs ++ grant ∷ [])
      ≡ grant ∷ []
filter-attached grant [] =
    ground (arith, eq_iff grant.agent_id grant.agent_id, eq_iff grant.model_id grant.model_id)
filter-attached grant (g ∷ gs) = ground (arith, filter-attached grant gs)

any-attached :
    (g grant : AttachmentGrant) (gs : List AttachmentGrant)
    → any (is_for g.agent_id g.model_id) gs ≡ false
    → is_for grant.agent_id grant.model_id g ≡ false
    → any (is_for g.agent_id g.model_id) (gs ++ grant ∷ []) ≡ false
any-attached g grant [] h apart = ground (
  arith,
  eq_iff grant.agent_id g.agent_id,
  eq_iff g.agent_id grant.agent_id,
  eq_iff grant.model_id g.model_id,
  eq_iff g.model_id grant.model_id,
)
any-attached g grant (x ∷ gs) h apart = ground (arith, any-attached g grant gs)

pub attached-UniqueGrants :
    (grant : AttachmentGrant) (gs : List AttachmentGrant)
    → UniqueGrants gs
    → UniqueGrants (filter (λ a. not (is_for grant.agent_id grant.model_id a)) gs ++ grant ∷ [])
attached-UniqueGrants grant [] h = (refl, tt)
attached-UniqueGrants grant (g ∷ gs) h =
    let others = filter (λ a. not (is_for grant.agent_id grant.model_id a)) gs in
    ground (
      arith,
      attached-UniqueGrants grant gs,
      any-attached g grant others,
      any-filter (is_for g.agent_id g.model_id) (λ a. not (is_for grant.agent_id grant.model_id a))
          gs,
    )
