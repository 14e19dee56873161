-- ===== src/Examples/Inputs.antt =====
-- A toy arithmetic on bit patterns, toy hash and hex functions that keep the documented laws, regular
-- expressions that find nothing, and a manifest with one handle.
use Prim.Native.Char.{code}
use cortex_v3_1_rmvm_relatio.Base.{
  ℕ, zero, suc, ◌+◌, ◌*◌, ◌%◌, ◌<◌, ◌≡◌, refl, true, String, List, [], ◌∷◌, ◌++◌, Option, none,
  some, All, length, map_option, leb, ltb, ◌==◌, if◌then◌else◌, as_bytes, arith,
}
use cortex_v3_1_rmvm_relatio.Base.Int.{pos}
use cortex_v3_1_rmvm_relatio.Proto.Float.{Floats}
use cortex_v3_1_rmvm_relatio.Proto.Messages.{
  HandleRef, SelectorRef, PublicManifest, CanonicalCitation,
}
use cortex_v3_1_rmvm_relatio.Proto.Canonical.{Hashing}
use cortex_v3_1_rmvm_relatio.Kernel.Render.{Regexes}
use cortex_v3_1_rmvm_relatio.Kernel.Merkle.Paths.{HashingLaws}

abbrev pub toy_floats : Floats
toy_floats = record {
  add = λ a b. record { bits = a.bits + b.bits };
  mul = λ a b. record { bits = a.bits * b.bits };
  powf = λ a b. a;
  le = λ a b. leb a.bits b.bits;
  gt = λ a b. ltb b.bits a.bits;
  of_u32 = λ n. record { bits = n };
  to_string = λ a. "";
}

abbrev pub toy_regexes : Regexes
toy_regexes = record { captures_iter = λ p t. []; remove_all = λ p t. t; is_match = λ p t. true }

checksum : List ℕ → ℕ
checksum [] = 3
checksum (b ∷ bs) = (2 * checksum bs + b) % 5

repeat : ℕ → ℕ → List ℕ
repeat zero b = []
repeat (suc n) b = b ∷ repeat n b

-- a byte in unary, between letters
ones : ℕ → String → String
ones zero s = s
ones (suc n) s = String.◌∷◌ "a" (ones n s)

encode : List ℕ → String
encode [] = ""
encode (x ∷ d) = ones x (String.◌∷◌ "b" (encode d))

decode : ℕ → String → Option (List ℕ)
decode n String.[] = some []
decode n (String.◌∷◌ c s) =
    if code c == b'a' then decode (suc n) s else map_option (λ d. n ∷ d) (decode 0 s)

digests : List CanonicalCitation → List ℕ
digests [] = []
digests (c ∷ cs) = as_bytes c.anchor_digest ++ digests cs

unfoldable pub toy_hashing : Hashing
unfolding checksum repeat encode ones decode digests
toy_hashing = record {
  encode_to_vec = λ a. length a.fields ∷ digests a.citations;
  sha256 = λ bytes. repeat 32 (checksum bytes);
  hex_encode = encode;
  hex_decode = decode 0;
}

decode-ones :
    (n m : ℕ) (s : String)
    → decode n (ones m (String.◌∷◌ "b" s)) ≡ map_option (λ d. (n + m) ∷ d) (decode 0 s)
unfolding decode ones
decode-ones n zero s = rw (+_zero n) refl
  where
    +_zero : (n : ℕ) → n + 0 ≡ n
    +_zero n = omega arith
decode-ones n (suc m) s = rw (decode-ones (suc n) m s, +_suc n m) refl
  where
    +_suc : (n m : ℕ) → n + suc m ≡ suc n + m
    +_suc n m = omega arith

decode-encode : (d : List ℕ) → decode 0 (encode d) ≡ some d
unfolding decode encode
decode-encode [] = refl
decode-encode (x ∷ d) = rw (decode-ones 0 x (encode d), decode-encode d, zero_add x) refl
  where
    zero_add : (n : ℕ) → 0 + n ≡ n
    zero_add n = omega arith

length-repeat : (n b : ℕ) → length (repeat n b) ≡ n
unfolding repeat
length-repeat zero b = refl
length-repeat (suc n) b = omega (arith, length-repeat n b)

All-repeat : (n b : ℕ) → b < 256 → All (λ x. x < 256) (repeat n b)
unfolding repeat
All-repeat zero b h = tt
All-repeat (suc n) b h = (h, All-repeat n b h)

checksum-lt : (bs : List ℕ) → checksum bs < 256
unfolding checksum
checksum-lt [] = omega arith
checksum-lt (b ∷ bs) = omega arith

pub toy_laws : HashingLaws toy_hashing
unfolding toy_hashing
toy_laws = record {
  digest_length = λ bytes. length-repeat 32 (checksum bytes);
  digest_bytes = λ bytes. All-repeat 32 (checksum bytes) (checksum-lt bytes);
  decode_encode = λ d b. decode-encode d;
}

abbrev pub tea : HandleRef
tea = record {
  ref = "H1";
  type_id = "normative.preference";
  availability = pos 1;
  meta = some (record {
    subject = "user:demo";
    predicate_label = "prefers_beverage";
    trust_tier = pos 4;
    taint = pos 1 ∷ [];
    temporal = none;
    scope = pos 5;
  });
  signature_summary = "prefers_beverage=tea";
  conflict_group_id = "c1";
}

abbrev pub preferences : SelectorRef
preferences = record {
  sel = "S0";
  description = "selector";
  params = [];
  cost_weight = record { bits = 1 };
  return_type = pos 2;
}

abbrev pub manifest : PublicManifest
manifest = record {
  request_id = "req-1";
  handles = tea ∷ [];
  selectors = preferences ∷ [];
  context = [];
  budget = some (record {
    max_ops = 10;
    max_join_depth = 3;
    max_fanout = 10;
    max_total_cost = record { bits = 0x100000000000000000 };
  });
}
