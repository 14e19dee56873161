-- ===== src/Planner/Extract/Braced.antt =====
-- The first and the last character of what `extract_json_object` gives.
use Prim.Native.Char.{Char, code}
use cortex_v3_1_rmvm_relatio.Base.{
  ◌≡◌, refl, sym, ap, ◌∙◌, subst, Bool, true, false, ◌&&◌, String, Option, none, some, is_some,
  unwrap_or, ◌==◌, str_eq, eq_iff, if◌then◌else◌, arith, trim, Bool-cases, inl, inr, ok, >>=-eq-ok,
  ok_or-eq-ok, ok-injective,
}
use mathlib.Core.Option.{some-injective}
use cortex_v3_1_rmvm_relatio.Planner.Extract.{
  from_brace, last_brace, to_last_brace, is_braced, split_fence, fenced_body, after_fence,
  fenced_object, unfenced_object, fenced_or_not, extract_json_object,
}

-- the first character is `{`
abbrev pub opens : String → Bool
opens String.[] = false
opens (String.◌∷◌ c s) = code c == b'{'

-- the last one is `}`
abbrev pub closes : String → Bool
closes String.[] = false
closes (String.◌∷◌ c s) = let rest = closes s in if str_eq s "" then code c == b'}' else rest

opens-from_brace : (s : String) {t : String} → from_brace s ≡ some t → opens t ≡ true
unfolding from_brace
opens-from_brace String.[] h = cc
opens-from_brace (String.◌∷◌ c s) {t} h = elim (Bool-cases (code c == b'{')) [
  | inl brace ↦
      let same : String.◌∷◌ c s ≡ t = some-injective _ _ (rw brace at h) in
      subst (λ u. opens u ≡ true) same brace
  | inr other ↦ opens-from_brace s {t = t} (rw other at h)
]

closes-cons : (c : Char) (front : String) → closes front ≡ true → closes (String.◌∷◌ c front) ≡ true
closes-cons c front closed = elim (Bool-cases (str_eq front "")) [
  | inl empty ↦
      let bad : false ≡ true = subst (λ f. closes f ≡ true) ((eq_iff front "").0 empty) closed in cc
  | inr more ↦ rw more closed
]

-- one step of `to_last_brace`, from what the rest gave
last_brace_keeps :
    (c : Char) (found : Option String) {t : String}
    → ((front : String) → found ≡ some front → closes front ≡ true)
    → last_brace c found ≡ some t
    → (closes t ≡ true) × ((rest : String) × (t ≡ String.◌∷◌ c rest))
last_brace_keeps c none {t} closed h = elim (Bool-cases (code c == b'}')) [
  | inl brace ↦
      let same : String.◌∷◌ c "" ≡ t = some-injective _ _ (rw brace at h) in
      (subst (λ u. closes u ≡ true) same brace, ("", sym same))
  | inr other ↦ let bad : none ≡ some t = rw other at h in cc
]
last_brace_keeps c (some front) {t} closed h =
    let same : String.◌∷◌ c front ≡ t = some-injective _ _ h in
    (subst (λ u. closes u ≡ true) same (closes-cons c front (closed front refl)), (front, sym same))

closes-to_last_brace : (s t : String) → to_last_brace s ≡ some t → closes t ≡ true
unfolding to_last_brace
closes-to_last_brace String.[] t h = cc
closes-to_last_brace (String.◌∷◌ c s) t h =
    (last_brace_keeps c (to_last_brace s) (λ front e. closes-to_last_brace s front e) h).0

opens-to_last_brace : (s t : String) → opens s ≡ true → to_last_brace s ≡ some t → opens t ≡ true
unfolding to_last_brace
opens-to_last_brace String.[] t o h = cc
opens-to_last_brace (String.◌∷◌ c s) t o h =
    let kept =
      (last_brace_keeps c (to_last_brace s) (λ front e. closes-to_last_brace s front e) h).1 in
    subst (λ u. opens u ≡ true) (sym kept.1) o

no_brace : (t : String) → from_brace "" ≡ some t → ⊥
unfolding from_brace
no_brace t h = cc

braced_parts :
    (s : String) (f l : Option String)
    → from_brace s ≡ f
    → to_last_brace s ≡ l
    → (str_eq (unwrap_or f "") s && str_eq (unwrap_or l "") s && is_some f) ≡ true
    → (opens s ≡ true) × (closes s ≡ true)
braced_parts s none l from upto h = absurd (ground (arith, h))
braced_parts s (some t) none from upto h =
    let empty : "" ≡ s = (eq_iff "" s).0 (ground (arith, h)) in
    let bad : from_brace "" ≡ some t = subst (λ x. from_brace x ≡ some t) (sym empty) from in
    absurd (no_brace t bad)
braced_parts s (some t) (some u) from upto h =
    let same_t : t ≡ s = (eq_iff t s).0 (ground (arith, h)) in
    let same_u : u ≡ s = (eq_iff u s).0 (ground (arith, h)) in
    (
      subst (λ x. opens x ≡ true) same_t (opens-from_brace s from),
      subst (λ x. closes x ≡ true) same_u (closes-to_last_brace s u upto),
    )

-- what the first test lets through
is_braced_lem : (s : String) → is_braced s ≡ true → (opens s ≡ true) × (closes s ≡ true)
unfolding is_braced
is_braced_lem s h = braced_parts s (from_brace s) (to_last_brace s) refl refl h

unfenced_object_lem :
    (s t : String) → unfenced_object s ≡ ok t → (opens t ≡ true) × (closes t ≡ true)
unfenced_object_lem s t p =
    let (tail, from, p1) = >>=-eq-ok _ _ p in
    let (front, upto, p2) = >>=-eq-ok _ _ p1 in
    let last = ok_or-eq-ok (to_last_brace tail) _ p2 in
    (
      opens-to_last_brace tail t (opens-from_brace s (ok_or-eq-ok _ _ from)) last,
      closes-to_last_brace tail t last,
    )

fenced_body_lem :
    (found : Option (String × String)) (t : String)
    → fenced_body found ≡ some t
    → is_braced t ≡ true
fenced_body_lem none t h = cc
fenced_body_lem (some (inner, after)) t h = elim (Bool-cases (is_braced (trim inner))) [
  | inl braced ↦ subst (λ u. is_braced u ≡ true) (some-injective _ _ (rw braced at h)) braced
  | inr other ↦ let bad : none ≡ some t = rw other at h in cc
]

after_fence_lem :
    (found : Option (String × String)) (t : String)
    → after_fence found ≡ some t
    → is_braced t ≡ true
after_fence_lem none t h = cc
after_fence_lem (some (before, opened)) t h = fenced_body_lem _ t h

fenced_object_lem : (s t : String) → fenced_object s ≡ some t → is_braced t ≡ true
unfolding fenced_object
fenced_object_lem s t h = after_fence_lem (split_fence s) t h

fenced_or_not_lem :
    (s t : String) (found : Option String)
    → (fenced_object s ≡ found)
    → fenced_or_not s found ≡ ok t
    → (opens t ≡ true) × (closes t ≡ true)
fenced_or_not_lem s t none e h = unfenced_object_lem s t h
fenced_or_not_lem s t (some body) e h =
    is_braced_lem t (fenced_object_lem s t (e ∙ ap some (ok-injective h)))

-- A text that extract_json_object gives starts with an opening brace and ends with a closing one.
pub extract_json_object_braced :
    (input t : String) → extract_json_object input ≡ ok t → (opens t ≡ true) × (closes t ≡ true)
unfolding extract_json_object
extract_json_object_braced input t h = elim (Bool-cases (is_braced (trim input))) [
  | inl braced ↦
      is_braced_lem t
        (subst (λ u. is_braced u ≡ true) (ok-injective {E = String} (rw braced at h)) braced)
  | inr other ↦ fenced_or_not_lem (trim input) t (fenced_object (trim input)) refl (rw other at h)
]
