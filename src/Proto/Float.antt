-- ===== src/Proto/Float.antt =====
-- `f64`: a 64-bit pattern. Its arithmetic is the hardware's and a parameter of what uses it.
use cortex_v3_1_rmvm_relatio.Base.{ℕ, Bool, String}

pub record F64 : Type 0 where
  pub bits : ℕ

pub record Floats : Type 0 where
  pub add : F64 → F64 → F64
  pub mul : F64 → F64 → F64
  pub powf : F64 → F64 → F64
  -- `a <= b` and `a > b`, both false where one is not a number
  pub le : F64 → F64 → Bool
  pub gt : F64 → F64 → Bool
  pub of_u32 : ℕ → F64
  pub to_string : F64 → String

-- The literals of the source, as IEEE 754 patterns.
abbrev pub zero_f64 : F64
zero_f64 = record { bits = 0 }

abbrev pub one_f64 : F64
one_f64 = record { bits = 0x3FF0000000000000 }

-- 1.2
abbrev pub row_exponent : F64
row_exponent = record { bits = 0x3FF3333333333333 }

-- 1.25
abbrev pub five_quarters : F64
five_quarters = record { bits = 0x3FF4000000000000 }

abbrev pub two_f64 : F64
two_f64 = record { bits = 0x4000000000000000 }

-- 256.0
abbrev pub cost_256 : F64
cost_256 = record { bits = 0x4070000000000000 }

-- 512.0
abbrev pub cost_512 : F64
cost_512 = record { bits = 0x4080000000000000 }
