-- ===== src/Base/Text.antt =====
-- Texts: the concatenation behind `format!`, `join`, decimal printing and `trim`.
pub mod Decimal
use Prim.Native.Nat.{ℕ, zero, suc, ◌+◌, ◌-◌, ◌*◌, ◌/◌, ◌%◌, ◌^◌}
use mathlib.Core.Option.{Option, none, some}
use Prim.Native.Char.{Char, char, code, IsScalar}
use Prim.Native.String.{String, ◌++◌ as append}
use mathlib.Core.Path.{◌≡◌}
use mathlib.Core.Logic.{◌⊎◌, inl, inr}
use native.Mathlib.Omega.{arith}
use text.Mathlib.Text.{◌==◌ as str_eq}
use mathlib.Core.Bool.{Bool, true, false, ◌||◌, ◌&&◌}
use mathlib.Core.List.{List, [], ◌∷◌, ◌++◌}
use cortex_v3_1_rmvm_relatio.Base.Tests.{Bool-cases, ltb, leb, ◌==◌, if◌then◌else◌}

-- `format!`: the pieces in their order.
abbrev pub format : List String → String
format [] = ""
format (s ∷ r) = append s (format r)

-- `[…].join(sep)`.
abbrev pub join : String → List String → String
join sep [] = ""
join sep (s ∷ []) = s
join sep (s ∷ t ∷ r) = append s (append sep (join sep (t ∷ r)))

digit : ℕ → String
digit d =
    if d == 0
    then "0"
    else if d == 1
    then "1"
    else if d == 2
    then "2"
    else if d == 3
    then "3"
    else if d == 4
    then "4"
    else if d == 5
    then "5"
    else if d == 6
    then "6"
    else if d == 7
    then "7"
    else if d == 8
    then "8"
    else "9"

-- Decimal digits; a number has fewer digits than its successor has units, so the fuel is enough.
decimal : ℕ → ℕ → String
decimal zero n = ""
decimal (suc f) n =
    let rest = append (decimal f (n / 10)) (digit (n % 10)) in if leb n 9 then digit n else rest

unfoldable pub show : ℕ → String
unfolding decimal digit
show n = decimal (suc n) n

-- `char::is_whitespace` (the `White_Space` property of Unicode).
unfoldable pub is_whitespace : ℕ → Bool
is_whitespace c =
    (leb 9 c && leb c 13)
    || c == 32
    || c == 0x85
    || c == 0xA0
    || c == 0x1680
    || (leb 0x2000 c && leb c 0x200A)
    || c == 0x2028
    || c == 0x2029
    || c == 0x202F
    || c == 0x205F
    || c == 0x3000

-- `s.trim().is_empty()`: nothing but white space.
unfoldable pub is_blank : String → Bool
unfolding is_whitespace
is_blank String.[] = true
is_blank (String.◌∷◌ c s) = is_whitespace (code c) && is_blank s

-- `as_bytes`: the UTF-8 bytes of a code point, and of a text.
utf8 : ℕ → List ℕ
utf8 c =
    if ltb c 0x80
    then c ∷ []
    else if ltb c 0x800
    then (0xC0 + c / 64) ∷ (0x80 + c % 64) ∷ []
    else if ltb c 0x10000
    then (0xE0 + c / 4096) ∷ (0x80 + c / 64 % 64) ∷ (0x80 + c % 64) ∷ []
    else (0xF0 + c / 262144) ∷ (0x80 + c / 4096 % 64) ∷ (0x80 + c / 64 % 64) ∷ (0x80 + c % 64) ∷ []

unfoldable pub as_bytes : String → List ℕ
unfolding utf8
as_bytes String.[] = []
as_bytes (String.◌∷◌ c s) = utf8 (code c) ++ as_bytes s

-- `parse::<usize>().ok()`: an optional plus sign and at least one decimal digit, below 2 ^ 64.
parse_digits : ℕ → String → Option ℕ
parse_digits n String.[] = some n
parse_digits n (String.◌∷◌ c s) =
    if leb 48 (code c) && leb (code c) 57 && ltb (n * 10 + (code c - 48)) (2 ^ 64)
    then parse_digits (n * 10 + (code c - 48)) s
    else none

parse_some_digits : String → Option ℕ
parse_some_digits String.[] = none
parse_some_digits (String.◌∷◌ c s) = parse_digits 0 (String.◌∷◌ c s)

unfoldable pub parse_usize : String → Option ℕ
unfolding parse_digits parse_some_digits
parse_usize String.[] = none
parse_usize (String.◌∷◌ c s) =
    if code c == b'+' then parse_some_digits s else parse_some_digits (String.◌∷◌ c s)

abbrev pub trim_start : String → String
trim_start String.[] = ""
trim_start (String.◌∷◌ c s) =
    let rest = trim_start s in if is_whitespace (code c) then rest else String.◌∷◌ c s

abbrev trim_end : String → String
trim_end String.[] = ""
trim_end (String.◌∷◌ c s) =
    let rest = trim_end s in
    if is_whitespace (code c) && str_eq rest "" then "" else String.◌∷◌ c rest

-- `s.trim()`
unfoldable pub trim : String → String
unfolding is_whitespace
trim s = trim_end (trim_start s)

-- `to_ascii_lowercase`, of one character and of a text
pub small-IsScalar : (n : ℕ) → leb n 90 ≡ true → IsScalar (n + 32)
small-IsScalar n h = ground arith

abbrev pub is_ascii_upper : ℕ → Bool
is_ascii_upper n = leb 65 n && leb n 90

lower_code : (n : ℕ) → (leb n 90 ≡ true) ⊎ (leb n 90 ≡ false) → Char → Char
lower_code n (inl h) c = if leb 65 n then char (n + 32) (small-IsScalar n h) else c
lower_code n (inr h) c = c

unfoldable pub lower_char : Char → Char
unfolding lower_code Bool-cases
lower_char c = lower_code (code c) (Bool-cases (leb (code c) 90)) c

unfoldable pub to_ascii_lowercase : String → String
unfolding lower_char
to_ascii_lowercase String.[] = ""
to_ascii_lowercase (String.◌∷◌ c s) = String.◌∷◌ (lower_char c) (to_ascii_lowercase s)

pub code-lower_char :
    (c : Char) → code (lower_char c) ≡ (if is_ascii_upper (code c) then code c + 32 else code c)
unfolding lower_char lower_code
code-lower_char c =
    elim (Bool-cases (leb (code c) 90))
      as (λ _. code (lower_char c) ≡ (if is_ascii_upper (code c) then code c + 32 else code c)) [
        | inl h ↦ ground arith
        | inr h ↦ ground arith
      ]

-- `&s[..n]` of an ASCII text that is long enough
abbrev pub take_chars : ℕ → String → String
take_chars zero s = ""
take_chars (suc n) String.[] = ""
take_chars (suc n) (String.◌∷◌ c s) = String.◌∷◌ c (take_chars n s)

-- `s.strip_prefix(p)`, with the prefix first
unfoldable pub strip_prefix : String → String → Option String
strip_prefix String.[] s = some s
strip_prefix (String.◌∷◌ c p) String.[] = none
strip_prefix (String.◌∷◌ c p) (String.◌∷◌ d s) =
    let rest = strip_prefix p s in if code c == code d then rest else none
