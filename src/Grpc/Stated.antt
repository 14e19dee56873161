-- ===== src/Grpc/Stated.antt =====
-- Which texts state a preference, against `parse_preference`.
use Prim.Native.Char.{code}
use Prim.Native.String.{◌++◌ as append}
use Prim.Native.String.append
use cortex_v3_1_rmvm_relatio.Base.{
  ◌≡◌, refl, sym, ap, subst, false, String, List, [], ◌∷◌, none, some, arith, Option-cases, inl,
  inr, ◌⊎◌, trim, lower_char, to_ascii_lowercase, str_eq, eq_iff, Bool-cases,
}
use text.Mathlib.TextEquality.{Char-path}
use cortex_v3_1_rmvm_relatio.Base.Order.{string_ord}
use cortex_v3_1_rmvm_relatio.Grpc.Service.{strip_lower_prefix, preference_in, parse_preference}

strip_lower_prefix-some :
    (p s : String) {rest : String}
    → strip_lower_prefix p s ≡ some rest
    → (said : String) × (s ≡ append said rest) × (to_ascii_lowercase said ≡ p)
unfolding strip_lower_prefix to_ascii_lowercase
strip_lower_prefix-some String.[] s {rest} e = ("", cc (append.nil rest), refl)
strip_lower_prefix-some (String.◌∷◌ p ps) String.[] e = cc
strip_lower_prefix-some (String.◌∷◌ p ps) (String.◌∷◌ c s) {rest} e =
    let (is_letter, others) = stripped in
    let (said, split, lowered) = strip_lower_prefix-some ps s others in
    (
      String.◌∷◌ c said,
      cc (append.cons c said rest),
      let letter : lower_char c ≡ p = Char-path (lower_char c) p is_letter in cc,
    )
  where
    stripped : (code (lower_char c) ≡ code p) × (strip_lower_prefix ps s ≡ some rest)
    stripped = ground arith

strip_lower_prefix-append :
    (said rest : String)
    → strip_lower_prefix (to_ascii_lowercase said) (append said rest) ≡ some rest
unfolding strip_lower_prefix to_ascii_lowercase
strip_lower_prefix-append String.[] rest = ap some (append.nil rest)
strip_lower_prefix-append (String.◌∷◌ c said) rest =
    rw (append.cons c said rest) (ground (arith, strip_lower_prefix-append said rest))

-- The text says one of the two prefixes, in upper or lower case, and what comes behind it, white space
-- aside, is not empty.
pub record States (text preference : String) : Type 0 where
  pub said : String
  pub rest : String
  pub split : trim text ≡ append said rest
  pub lowered : (to_ascii_lowercase said ≡ "i prefer ") ⊎ (to_ascii_lowercase said ≡ "prefer ")
  pub trimmed : trim rest ≡ preference
  pub stated : preference ≡ "" → ⊥

-- what one prefix finds
Found : String → String → String → String → Type 0
Found prefix normalized label preference =
    (rest : String) × (strip_lower_prefix prefix normalized ≡ some rest)
    × (label ≡ "prefers_beverage")
    × (trim rest ≡ preference)
    × (preference ≡ "" → ⊥)

preference_in-Found :
    (normalized prefix : String) (prefixes : List String) {label preference : String}
    → preference_in normalized (prefix ∷ prefixes) ≡ some (label, preference)
    → Found prefix normalized label preference
      ⊎ (preference_in normalized prefixes ≡ some (label, preference))
unfolding preference_in Found
preference_in-Found normalized prefix prefixes {label} {preference} e =
    elim (Option-cases (strip_lower_prefix prefix normalized)) [
      | inl other ↦ inr (ground arith)
      | inr (rest, behind) ↦ elim (Bool-cases (str_eq (trim rest) "")) [
        | inl blank ↦ inr (ground arith)
        | inr said ↦
            let is_rest : trim rest ≡ preference = ground arith in
            inl (
              rest,
              behind,
              ground arith,
              is_rest,
              λ nothing. ground (arith, eq_iff (trim rest) ""),
            )
      ]
    ]

States-of_Found :
    (text prefix : String) {label preference : String}
    → (prefix ≡ "i prefer ") ⊎ (prefix ≡ "prefer ")
    → Found prefix (trim text) label preference
    → (label ≡ "prefers_beverage") × States text preference
unfolding Found
States-of_Found text prefix known (rest, behind, labelled, trimmed, stated) =
    let (said, split, lowered) = strip_lower_prefix-some prefix (trim text) behind in
    (
      labelled,
      record {
        said = said;
        rest = rest;
        split = split;
        lowered = subst (λ p. (p ≡ "i prefer ") ⊎ (p ≡ "prefer ")) (sym lowered) known;
        trimmed = trimmed;
        stated = stated;
      },
    )

preference_in-nil :
    (normalized : String) {found : String × String} → preference_in normalized [] ≡ some found → ⊥
unfolding preference_in
preference_in-nil normalized e = cc

pub parse_preference-States :
    (text : String) {label preference : String}
    → parse_preference text ≡ some (label, preference)
    → (label ≡ "prefers_beverage") × States text preference
unfolding parse_preference
parse_preference-States text e =
    elim (preference_in-Found (trim text) "i prefer " ("prefer " ∷ []) e) [
      | inl found ↦ States-of_Found text "i prefer " (inl refl) found
      | inr e' ↦ elim (preference_in-Found (trim text) "prefer " [] e') [
        | inl found ↦ States-of_Found text "prefer " (inr refl) found
        | inr e'' ↦ absurd (preference_in-nil (trim text) e'')
      ]
    ]

pub parse_preference-none :
    (text preference : String) → parse_preference text ≡ none → States text preference → ⊥
unfolding parse_preference preference_in
parse_preference-none text preference e s =
    let found =
      subst (λ t. strip_lower_prefix (to_ascii_lowercase s.said) t ≡ some s.rest) (sym s.split)
        (strip_lower_prefix-append s.said s.rest) in
    let named : str_eq (trim s.rest) "" ≡ false =
      differs (trim s.rest) (subst (λ p. p ≡ "" → ⊥) (sym s.trimmed) s.stated) in
    elim s.lowered [
      | inl long ↦
          let found' = subst (λ p. strip_lower_prefix p (trim text) ≡ some s.rest) long found in
          ground arith
      | inr short ↦
          let found' = subst (λ p. strip_lower_prefix p (trim text) ≡ some s.rest) short found in
          ground arith
    ]
  where
    differs : (t : String) → (t ≡ "" → ⊥) → str_eq t "" ≡ false
    differs t apart = ground (arith, eq_iff t "")
