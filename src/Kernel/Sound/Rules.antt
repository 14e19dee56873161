-- ===== src/Kernel/Sound/Rules.antt =====
-- How coverage moves from stronger facts to weaker ones.
use native.Mathlib.Nat.{le_refl, le_trans}
use cortex_v3_1_rmvm_relatio.Base.{◌≤◌, String, List, arith}
use cortex_v3_1_rmvm_relatio.Base.Int.{ℤ}
use cortex_v3_1_rmvm_relatio.Base.Order.{string_ord, int_ord}
use cortex_v3_1_rmvm_relatio.BTree.Set
use cortex_v3_1_rmvm_relatio.BTree.Set.{Set, contains}
use cortex_v3_1_rmvm_relatio.BTree.Set.Laws.{contains-extend_old, contains-extend, contains-union}
use cortex_v3_1_rmvm_relatio.Proto.Enums.{TrustTier}
use cortex_v3_1_rmvm_relatio.Proto.Messages.{HandleRef, Value}
use cortex_v3_1_rmvm_relatio.Kernel.Values.{trust_rank, min_tier}
use cortex_v3_1_rmvm_relatio.Kernel.Sound.{Facts, Weaker, Covers, Origin}

pub min_tier_left : (a b : TrustTier) → trust_rank (min_tier a b) ≤ trust_rank a
unfolding min_tier
min_tier_left a b = ground arith

pub min_tier_right : (a b : TrustTier) → trust_rank (min_tier a b) ≤ trust_rank b
unfolding min_tier
min_tier_right a b = ground arith

pub Weaker-refl : (f : Facts) → Weaker f f
Weaker-refl f = record { provenance = λ k h. h; taint = λ t h. h; min_trust = le_refl _ }

pub Weaker-trans : {f g k : Facts} → Weaker f g → Weaker g k → Weaker f k
Weaker-trans a b = record {
  provenance = λ x h. b.provenance x (a.provenance x h);
  taint = λ t h. b.taint t (a.taint t h);
  min_trust = le_trans b.min_trust a.min_trust;
}

pub Covers-Weaker :
    {handles : List HandleRef} {f g : Facts} {h : HandleRef}
    → Weaker f g
    → Covers handles f h
    → Covers handles g h
Covers-Weaker w c = record {
  listed = c.listed;
  named = w.provenance _ c.named;
  trusted = le_trans w.min_trust c.trusted;
  tainted = λ t h. w.taint t (c.tainted t h);
}

pub Origin-Weaker :
    {handles : List HandleRef} {params : List Value} {f g : Facts} {v : Value}
    → Weaker f g
    → Origin handles params f v
    → Origin handles params g v
Origin-Weaker w (Origin.field h path e c) = Origin.field h path e (Covers-Weaker w c)
Origin-Weaker w (Origin.count n e) = Origin.count n e
Origin-Weaker w (Origin.param l) = Origin.param l

-- adding to the provenance and the taint, and lowering the trust, weakens
pub Weaker-extend :
    (f : Facts) (ps : List String) (ts : List ℤ) (t : TrustTier)
    → Weaker f (record {
      provenance = Set.extend f.provenance ps;
      taint = Set.extend f.taint ts;
      min_trust = min_tier f.min_trust t;
    })
Weaker-extend f ps ts t = record {
  provenance = λ k h. contains-extend_old k f.provenance ps h;
  taint = λ k h. contains-extend_old k f.taint ts h;
  min_trust = min_tier_left f.min_trust t;
}

-- what is added is covered too
pub Weaker-extended :
    (f g : Facts)
    → Weaker g (record {
      provenance = Set.extend f.provenance g.provenance;
      taint = Set.extend f.taint g.taint;
      min_trust = min_tier f.min_trust g.min_trust;
    })
Weaker-extended f g = record {
  provenance = λ k h. ground (arith, contains-extend k f.provenance g.provenance);
  taint = λ k h. ground (arith, contains-extend k f.taint g.taint);
  min_trust = min_tier_right f.min_trust g.min_trust;
}

module _ (a b : Facts) where
  abbrev pub joined : Facts
  joined = record {
    provenance = Set.union a.provenance b.provenance;
    taint = Set.union a.taint b.taint;
    min_trust = min_tier a.min_trust b.min_trust;
  }

  pub Weaker-left : Weaker a joined
  Weaker-left = record {
    provenance = λ k h. ground (arith, contains-union k a.provenance b.provenance);
    taint = λ k h. ground (arith, contains-union k a.taint b.taint);
    min_trust = min_tier_left a.min_trust b.min_trust;
  }

  pub Weaker-right : Weaker b joined
  Weaker-right = record {
    provenance = λ k h. ground (arith, contains-union k a.provenance b.provenance);
    taint = λ k h. ground (arith, contains-union k a.taint b.taint);
    min_trust = min_tier_right a.min_trust b.min_trust;
  }
