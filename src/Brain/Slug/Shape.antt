-- ===== src/Brain/Slug/Shape.antt =====
-- The texts that `slugify` gives.
use Prim.Native.Char.{Char, code}
use cortex_v3_1_rmvm_relatio.Base.{
  ◌≡◌, ◌⊎◌, inl, inr, refl, Bool, true, false, ◌&&◌, ◌||◌, String, leb, if◌then◌else◌, str_eq,
  eq_iff, arith, lower_char, code-lower_char, Bool-cases,
}
use cortex_v3_1_rmvm_relatio.Brain.Slug.{
  is_ascii_alphanumeric, slug_chars, is_dash, trim_dashes_start, trim_dashes_end, slugify,
}

-- a digit or a small letter
abbrev pub is_plain : Char → Bool
is_plain c = (leb 48 (code c) && leb (code c) 57) || (leb 97 (code c) && leb (code c) 122)

-- plain characters and dashes, none of which follows another dash; `after` tells whether a dash stands before
abbrev pub Dashed : Bool → String → Type 0
Dashed after String.[] = Unit
Dashed after (String.◌∷◌ c s) =
    ((is_plain c ≡ true) × Dashed false s) ⊎ ((is_dash c ≡ true) × (after ≡ false) × Dashed true s)

-- and no dash at the end
abbrev pub Slugged : Bool → String → Type 0
Slugged after String.[] = after ≡ false
Slugged after (String.◌∷◌ c s) =
    ((is_plain c ≡ true) × Slugged false s)
    ⊎ ((is_dash c ≡ true) × (after ≡ false) × Slugged true s)

lower_char_plain : (c : Char) → is_ascii_alphanumeric c ≡ true → is_plain (lower_char c) ≡ true
unfolding is_ascii_alphanumeric
lower_char_plain c h = ground (arith, code-lower_char c)

dash-Dashed :
    (after : Bool) (dashed : String)
    → Dashed true dashed
    → Dashed after (if after then dashed else String.◌∷◌ "-" dashed)
dash-Dashed true dashed d = d
dash-Dashed false dashed d = inr (refl, refl, d)

slug-Dashed :
    (after : Bool) (c : Char) (plain dashed : String)
    → Dashed false plain
    → Dashed true dashed
    → Dashed after (
        if is_ascii_alphanumeric c
        then String.◌∷◌ (lower_char c) plain
        else if after
        then dashed
        else String.◌∷◌ "-" dashed)
slug-Dashed after c plain dashed p d = elim (Bool-cases (is_ascii_alphanumeric c)) [
  | inl letter ↦ rw letter (inl (lower_char_plain c letter, p))
  | inr other ↦ rw other (dash-Dashed after dashed d)
]

slug_chars-Dashed : (after : Bool) (s : String) → Dashed after (slug_chars after s)
unfolding slug_chars
slug_chars-Dashed after String.[] = tt
slug_chars-Dashed after (String.◌∷◌ c s) =
    slug-Dashed after c (slug_chars false s) (slug_chars true s) (slug_chars-Dashed false s)
      (slug_chars-Dashed true s)

-- nothing is left, or it starts with no dash
trim_dashes_start-Dashed :
    (after : Bool) (s : String) → Dashed after s → Dashed true (trim_dashes_start s)
unfolding trim_dashes_start
trim_dashes_start-Dashed after String.[] d = tt
trim_dashes_start-Dashed after (String.◌∷◌ c s) (inl (plain, d)) =
    let no_dash : is_dash c ≡ false = ground (arith, plain) in rw no_dash (inl (plain, d))
trim_dashes_start-Dashed after (String.◌∷◌ c s) (inr (dash, before, d)) =
    rw dash (trim_dashes_start-Dashed true s d)

rest-Slugged : (rest : String) → rest ≡ "" ⊎ Slugged false rest → Slugged false rest
rest-Slugged rest (inl none_left) = rw none_left refl
rest-Slugged rest (inr slugged) = slugged

trim-Slugged :
    (after : Bool) (c : Char) (rest : String)
    → ((is_plain c ≡ true) × (rest ≡ "" ⊎ Slugged false rest))
      ⊎ ((is_dash c ≡ true) × (after ≡ false) × (rest ≡ "" ⊎ Slugged true rest))
    → let out = if is_dash c && str_eq rest "" then "" else String.◌∷◌ c rest in
      (out ≡ "") ⊎ Slugged after out
trim-Slugged after c rest (inl (plain, ended)) =
    let no_dash : is_dash c ≡ false = ground (arith, plain) in
    rw no_dash (inr (inl (plain, rest-Slugged rest ended)))
trim-Slugged after c rest (inr (dash, before, inl none_left)) =
    rw (dash, (eq_iff rest "").1 none_left) (inl refl)
trim-Slugged after c rest (inr (dash, before, inr slugged)) = elim (Bool-cases (str_eq rest "")) [
  | inl none_left ↦ rw (dash, none_left) (inl refl)
  | inr some_left ↦ rw (dash, some_left) (inr (inr (dash, before, slugged)))
]

trim_dashes_end-Slugged :
    (after : Bool) (s : String)
    → Dashed after s
    → (trim_dashes_end s ≡ "") ⊎ Slugged after (trim_dashes_end s)
unfolding trim_dashes_end
trim_dashes_end-Slugged after String.[] d = inl refl
trim_dashes_end-Slugged after (String.◌∷◌ c s) (inl (plain, d)) =
    trim-Slugged after c (trim_dashes_end s) (inl (plain, trim_dashes_end-Slugged false s d))
trim_dashes_end-Slugged after (String.◌∷◌ c s) (inr (dash, before, d)) =
    trim-Slugged after c (trim_dashes_end s) (inr (dash, before, trim_dashes_end-Slugged true s d))

-- A slug is empty, or consists of digits, small letters and dashes, starts and ends with no dash,
-- and has no two dashes in a row.
pub slugify-Slugged : (input : String) → (slugify input ≡ "") ⊎ Slugged true (slugify input)
unfolding slugify
slugify-Slugged input =
    trim_dashes_end-Slugged true (trim_dashes_start (slug_chars false input))
      (trim_dashes_start-Dashed false (slug_chars false input) (slug_chars-Dashed false input))
