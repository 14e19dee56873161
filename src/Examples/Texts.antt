-- ===== src/Examples/Texts.antt =====
-- The theorems on texts: a slug, and an object out of a model's answer.
use cortex_v3_1_rmvm_relatio.Base.{
  ◌≡◌, refl, true, ok, ◌⊎◌, trim, is_whitespace, strip_prefix, ◌>>=◌,
}
use cortex_v3_1_rmvm_relatio.Brain.Slug.{slugify}
use cortex_v3_1_rmvm_relatio.Brain.Slug.Shape.{Slugged, slugify-Slugged}
use cortex_v3_1_rmvm_relatio.Planner.Extract.{
  extract_json_object, is_braced, from_brace, to_last_brace, split_fence, fenced_object,
}
use cortex_v3_1_rmvm_relatio.Planner.Extract.Braced.{opens, closes, extract_json_object_braced}

slugify-Slugged_example : (slugify " My  Brain! " ≡ "") ⊎ Slugged true (slugify " My  Brain! ")
slugify-Slugged_example = slugify-Slugged " My  Brain! "

extracted :
    extract_json_object "Here it is: ```json {\"steps\": []} ``` Done." ≡ ok "{\"steps\": []}"
unfolding extract_json_object is_braced from_brace to_last_brace split_fence fenced_object trim
    is_whitespace strip_prefix ◌>>=◌
extracted = refl

extract_json_object_braced_example :
    (opens "{\"steps\": []}" ≡ true) × (closes "{\"steps\": []}" ≡ true)
extract_json_object_braced_example =
    extract_json_object_braced "Here it is: ```json {\"steps\": []} ``` Done." "{\"steps\": []}"
      extracted
