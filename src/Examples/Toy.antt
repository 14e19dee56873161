-- ===== src/Examples/Toy.antt =====
-- A vault over texts: byte strings are texts, a text is its own base64, a signature is the signed payload.
use Prim.Native.Char.{Char, code}
use cortex_v3_1_rmvm_relatio.Base.{
  ◌≡◌, refl, sym, ap, true, false, String, List, [], ◌∷◌, some, str_eq, eq_iff, ◌==◌, if◌then◌else◌,
  arith, length, ok,
}
use cortex_v3_1_rmvm_relatio.Planner.Json.{JsonValue}
use cortex_v3_1_rmvm_relatio.Brain.Types.{BrainManifest, BrainState, bail}
use cortex_v3_1_rmvm_relatio.Brain.Vault.{Vault, VaultLaws}

-- `s`, marked as ended, before `r`
abbrev put_text : String → String → String
put_text String.[] r = String.◌∷◌ "0" r
put_text (String.◌∷◌ c s) r = String.◌∷◌ "1" (String.◌∷◌ c (put_text s r))

abbrev put_list : List String → String → String
put_list [] r = String.◌∷◌ "0" r
put_list (x ∷ xs) r = String.◌∷◌ "1" (put_text x (put_list xs r))

abbrev head : String → Char
head String.[] = "0"
head (String.◌∷◌ c s) = c

abbrev tail : String → String
tail String.[] = ""
tail (String.◌∷◌ c s) = s

cons-injective : (c d : Char) (s t : String) → String.◌∷◌ c s ≡ String.◌∷◌ d t → (c ≡ d) × (s ≡ t)
cons-injective c d s t h = (ap head h, ap tail h)

ends_apart : (s t : String) → String.◌∷◌ "0" s ≡ String.◌∷◌ "1" t → ⊥
ends_apart s t h =
    let codes : 48 ≡ 49 = ap (λ (x : String). code (head x)) h in omega (arith, codes)

put_text-injective : (s t r q : String) → put_text s r ≡ put_text t q → (s ≡ t) × (r ≡ q)
put_text-injective String.[] String.[] r q h = (refl, ap tail h)
put_text-injective String.[] (String.◌∷◌ d t) r q h = absurd (ends_apart _ _ h)
put_text-injective (String.◌∷◌ c s) String.[] r q h = absurd (ends_apart _ _ (sym h))
put_text-injective (String.◌∷◌ c s) (String.◌∷◌ d t) r q h =
    let (first, rest) = cons-injective c d _ _ (ap tail h) in
    let (same, after) = put_text-injective s t r q rest in (cc, after)

put_list-injective :
    (s t : List String) (r q : String) → put_list s r ≡ put_list t q → (s ≡ t) × (r ≡ q)
put_list-injective [] [] r q h = (refl, ap tail h)
put_list-injective [] (y ∷ t) r q h = absurd (ends_apart _ _ h)
put_list-injective (x ∷ s) [] r q h = absurd (ends_apart _ _ (sym h))
put_list-injective (x ∷ s) (y ∷ t) r q h =
    let (first, rest) = put_text-injective x y _ _ (ap tail h) in
    let (same, after) = put_list-injective s t r q rest in (cc, after)

abbrev pub put_manifest : BrainManifest → String
put_manifest m = put_text m.format_version (
    put_text m.brain_id (
      put_text m.name (
        put_text m.tenant_id (
          put_text m.created_at (
            put_text m.updated_at (
              put_text m.rmvm_proto_version (
                put_text m.active_branch (
                  put_text m.kdf_salt_b64 (
                    put_text m.signing_public_key_b64 (
                      put_text m.state_sha256 (
                        put_text m.secret_env_var
                          (put_text m.signature_b64 (put_list m.schema_migrations "")))))))))))))

put_manifest-injective : (m n : BrainManifest) → put_manifest m ≡ put_manifest n → m ≡ n
put_manifest-injective m n h =
    let (e1, h1) = put_text-injective m.format_version n.format_version _ _ h in
    let (e2, h2) = put_text-injective m.brain_id n.brain_id _ _ h1 in
    let (e3, h3) = put_text-injective m.name n.name _ _ h2 in
    let (e4, h4) = put_text-injective m.tenant_id n.tenant_id _ _ h3 in
    let (e5, h5) = put_text-injective m.created_at n.created_at _ _ h4 in
    let (e6, h6) = put_text-injective m.updated_at n.updated_at _ _ h5 in
    let (e7, h7) = put_text-injective m.rmvm_proto_version n.rmvm_proto_version _ _ h6 in
    let (e8, h8) = put_text-injective m.active_branch n.active_branch _ _ h7 in
    let (e9, h9) = put_text-injective m.kdf_salt_b64 n.kdf_salt_b64 _ _ h8 in
    let (e10, h10) = put_text-injective m.signing_public_key_b64 n.signing_public_key_b64 _ _ h9 in
    let (e11, h11) = put_text-injective m.state_sha256 n.state_sha256 _ _ h10 in
    let (e12, h12) = put_text-injective m.secret_env_var n.secret_env_var _ _ h11 in
    let (e13, h13) = put_text-injective m.signature_b64 n.signature_b64 _ _ h12 in
    let (e14, h14) = put_list-injective m.schema_migrations n.schema_migrations _ _ h13 in cc

module _ (one two : BrainState) where
  -- serde_json at two states, told apart by the audit log
  abbrev pub put_state : BrainState → String
  put_state s = if length s.audit == 1 then "1" else "2"

  abbrev pub toy : Vault String
  toy = record {
    size = λ s.
        if code (head s) == b'P'
        then 32
        else if code (head s) == b'S'
        then 64
        else if code (head s) == b'N'
        then 24
        else if code (head s) == b'K'
        then 32
        else 16;
    utf8 = λ s. s;
    sha256_hex = λ s. s;
    b64_encode = λ s. s;
    b64_decode = λ s. ok s;
    derive_key = λ secret salt. ok secret;
    seal = λ key nonce aad plain. some plain;
    unseal = λ key nonce aad cipher. some cipher;
    verifying_key = λ k. String.◌∷◌ "P" k;
    sign = λ k p. String.◌∷◌ "S" p;
    is_point = λ k. true;
    point_error = "";
    verify = λ k p s. str_eq s (String.◌∷◌ "S" p);
    manifest_to_vec = put_manifest;
    blob_to_vec = λ b. b.ciphertext_b64;
    state_to_vec = put_state;
    state_from_slice =
        λ s. if str_eq s "1" then ok one else if str_eq s "2" then ok two else bail "";
    same_json = λ a b. false;
    json_count = λ n. JsonValue.null;
  }

  pub toy_laws : VaultLaws toy
  toy_laws = record {
    decode_encode = λ b. refl;
    unseal_seal = λ key nonce aad plain cipher h. sym h;
    key_size = λ k. refl;
    key_point = λ k. refl;
    signature_size = λ k p. refl;
    verify_sign = λ k p. (eq_iff (String.◌∷◌ "S" p) (String.◌∷◌ "S" p)).1 refl;
    one_payload = λ k p q h. ap tail ((eq_iff (String.◌∷◌ "S" p) (String.◌∷◌ "S" q)).0 h);
    manifest_injective = put_manifest-injective;
  }
