-- ===== src/Brain/Slug.antt =====
-- `slugify`: a name as lower-case letters, digits and single dashes.
pub mod Shape
use Prim.Native.Char.{Char, code}
use cortex_v3_1_rmvm_relatio.Base.{
  Bool, true, false, ◌&&◌, ◌||◌, String, leb, ◌==◌, if◌then◌else◌, str_eq, lower_char,
}

unfoldable pub is_ascii_alphanumeric : Char → Bool
is_ascii_alphanumeric c =
    (leb 48 (code c) && leb (code c) 57)
    || (leb 65 (code c) && leb (code c) 90)
    || (leb 97 (code c) && leb (code c) 122)

-- the loop over the characters; what it pushes, from the state of `prev_dash` on
unfoldable pub slug_chars : Bool → String → String
slug_chars prev_dash String.[] = ""
slug_chars prev_dash (String.◌∷◌ c s) =
    let dashed = slug_chars true s in
    let plain = slug_chars false s in
    if is_ascii_alphanumeric c
    then String.◌∷◌ (lower_char c) plain
    else if prev_dash
    then dashed
    else String.◌∷◌ "-" dashed

abbrev pub is_dash : Char → Bool
is_dash c = code c == b'-'

-- `trim_matches('-')`
unfoldable pub trim_dashes_start : String → String
trim_dashes_start String.[] = ""
trim_dashes_start (String.◌∷◌ c s) =
    let rest = trim_dashes_start s in if is_dash c then rest else String.◌∷◌ c s

unfoldable pub trim_dashes_end : String → String
trim_dashes_end String.[] = ""
trim_dashes_end (String.◌∷◌ c s) =
    let rest = trim_dashes_end s in if is_dash c && str_eq rest "" then "" else String.◌∷◌ c rest

unfoldable pub slugify : String → String
unfolding slug_chars trim_dashes_start trim_dashes_end is_ascii_alphanumeric
slugify input = trim_dashes_end (trim_dashes_start (slug_chars false input))
