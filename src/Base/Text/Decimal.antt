-- ===== src/Base/Text/Decimal.antt =====
-- The number that a decimal print stands for, and texts that begin in some way.
use Prim.Native.Nat.{ℕ, zero, suc, ◌+◌, ◌-◌, ◌*◌, ◌/◌, ◌%◌, ◌≤◌, ◌<◌}
use Prim.Native.Char.{code}
use Prim.Native.String.{String, ◌++◌ as append}
use Prim.Native.String.append
use mathlib.Core.Path.{◌≡◌, refl, sym, ap, ◌∙◌}
use mathlib.Core.List.{[], ◌∷◌}
use native.Mathlib.Omega.{arith}
use cortex_v3_1_rmvm_relatio.Base.Text.{digit, decimal, show, format}

value : ℕ → String → ℕ
value acc String.[] = acc
value acc (String.◌∷◌ c s) = value (acc * 10 + (code c - 48)) s

value-append : (acc : ℕ) (s t : String) → value acc (append s t) ≡ value (value acc s) t
unfolding value
value-append acc String.[] t = rw (append.nil t) refl
value-append acc (String.◌∷◌ c s) t =
    rw (append.cons c s t) (value-append (acc * 10 + (code c - 48)) s t)

value-digit : (acc d : ℕ) → d ≤ 9 → value acc (digit d) ≡ acc * 10 + d
unfolding value digit
value-digit acc zero h = omega arith
value-digit acc (suc zero) h = omega arith
value-digit acc (suc (suc zero)) h = omega arith
value-digit acc (suc (suc (suc zero))) h = omega arith
value-digit acc (suc (suc (suc (suc zero)))) h = omega arith
value-digit acc (suc (suc (suc (suc (suc zero))))) h = omega arith
value-digit acc (suc (suc (suc (suc (suc (suc zero)))))) h = omega arith
value-digit acc (suc (suc (suc (suc (suc (suc (suc zero))))))) h = omega arith
value-digit acc (suc (suc (suc (suc (suc (suc (suc (suc zero)))))))) h = omega arith
value-digit acc (suc (suc (suc (suc (suc (suc (suc (suc (suc zero))))))))) h = omega arith
value-digit acc (suc (suc (suc (suc (suc (suc (suc (suc (suc (suc n)))))))))) h =
    absurd (omega arith)

value-decimal : (f n : ℕ) → n < f → value 0 (decimal f n) ≡ n
unfolding value decimal
value-decimal zero n h = absurd (omega arith)
value-decimal (suc f) n h = ground (
  arith,
  value-digit 0 n,
  value-append 0 (decimal f (n / 10)) (digit (n % 10)),
  value-decimal f (n / 10),
  value-digit (n / 10) (n % 10),
)

behind_first : String → String
behind_first String.[] = ""
behind_first (String.◌∷◌ c s) = s

behind-format : (n : ℕ) → value 0 (behind_first (format ("H" ∷ show n ∷ []))) ≡ n
unfolding show value behind_first
behind-format n =
    rw (append.cons "H" "" (append (show n) ""), append.nil (append (show n) ""))
      (value-append 0 (show n) "" ∙ value-decimal (suc n) n (omega arith))

-- a letter and a number determine each other
pub format-show_injective :
    (m n : ℕ) → format ("H" ∷ show m ∷ []) ≡ format ("H" ∷ show n ∷ []) → m ≡ n
format-show_injective m n e =
    sym (behind-format m) ∙ ap (λ s. value 0 (behind_first s)) e ∙ behind-format n
