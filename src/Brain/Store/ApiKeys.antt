-- ===== src/Brain/Store/ApiKeys.antt =====
-- The mappings of API keys, written and read.
use cortex_v3_1_rmvm_relatio.Base.{
  ◌≡◌, refl, ap, false, not, String, List, [], ◌∷◌, ◌++◌, some, arith, find?, filter, str_eq,
  eq_iff, ok, ◌>>=◌,
}
use cortex_v3_1_rmvm_relatio.Brain.Types.{ApiKeyMapping, ApiKeyMappings}
use cortex_v3_1_rmvm_relatio.Brain.Vault.{Vault}
use cortex_v3_1_rmvm_relatio.Brain.Disk.{File, Disk, write_json, write_all}
use cortex_v3_1_rmvm_relatio.Brain.Store.{read_api_mappings, map_api_key, resolve_api_key}

find?-mapped :
    (hash : String) (m : ApiKeyMapping) (ms : List ApiKeyMapping)
    → m.key_hash ≡ hash
    → find?
        (λ (x : ApiKeyMapping). str_eq x.key_hash hash)
        (filter (λ (x : ApiKeyMapping). not (str_eq x.key_hash hash)) ms ++ m ∷ [])
      ≡ some m
find?-mapped hash m [] h = ground (arith, eq_iff m.key_hash hash)
find?-mapped hash m (x ∷ ms) h = ground (arith, find?-mapped hash m ms h)

find?-unmapped :
    (hash other : String) (m : ApiKeyMapping) (ms : List ApiKeyMapping)
    → m.key_hash ≡ hash
    → str_eq hash other ≡ false
    → find?
        (λ (x : ApiKeyMapping). str_eq x.key_hash other)
        (filter (λ (x : ApiKeyMapping). not (str_eq x.key_hash hash)) ms ++ m ∷ [])
      ≡ find? (λ (x : ApiKeyMapping). str_eq x.key_hash other) ms
find?-unmapped hash other m [] h apart =
    ground (arith, eq_iff m.key_hash hash, eq_iff m.key_hash other, eq_iff hash other)
find?-unmapped hash other m (x ∷ ms) h apart = ground (
  arith,
  find?-unmapped hash other m ms h apart,
  eq_iff x.key_hash hash,
  eq_iff x.key_hash other,
  eq_iff hash other,
)

module _ {Bytes : Type 0} (v : Vault Bytes) where
  -- the mapping that is written, and the files after it
  abbrev pub mapping_of : String → String → String → String → ApiKeyMapping
  mapping_of api_key tenant brain subject = record {
    key_hash = v.sha256_hex (v.utf8 api_key);
    tenant_id = tenant;
    brain_id = brain;
    subject = subject;
  }

  abbrev pub disk_with : ApiKeyMapping → ApiKeyMappings → Disk → Disk
  disk_with mapping ms disk = record disk {
    api_keys = File.holds (record {
      mappings =
          filter (λ (m : ApiKeyMapping). not (str_eq m.key_hash mapping.key_hash)) ms.mappings
          ++ mapping ∷ [];
    });
  }

  pub map_api_key-resolve_api_key :
      (api_key tenant brain subject : String) (disk : Disk) {ms : ApiKeyMappings}
      → read_api_mappings disk ≡ ok ms
      → let mapping = mapping_of api_key tenant brain subject in
        (map_api_key v api_key tenant brain subject disk ≡ ok (disk_with mapping ms disk, tt))
        × (resolve_api_key v api_key (disk_with mapping ms disk) ≡ ok (some mapping))
  unfolding map_api_key resolve_api_key read_api_mappings write_all write_json ◌>>=◌
  map_api_key-resolve_api_key api_key tenant brain subject disk {ms} read =
      let mapping = mapping_of api_key tenant brain subject in
      (rw read refl, ap ok (find?-mapped mapping.key_hash mapping ms.mappings refl))

  -- Where the mappings are read, a mapped API key resolves to its mapping, a key with another hash
  -- resolves as before, and no brain is touched.
  pub map-resolve_api_key :
      (api_key tenant brain subject other : String) (disk : Disk) {ms : ApiKeyMappings}
      → read_api_mappings disk ≡ ok ms
      → str_eq (v.sha256_hex (v.utf8 api_key)) (v.sha256_hex (v.utf8 other)) ≡ false
      → (disk' : Disk) × (map_api_key v api_key tenant brain subject disk ≡ ok (disk', tt))
        × (resolve_api_key v api_key disk'
            ≡ ok (
                some (record {
                  key_hash = v.sha256_hex (v.utf8 api_key);
                  tenant_id = tenant;
                  brain_id = brain;
                  subject = subject;
                })))
        × (resolve_api_key v other disk' ≡ resolve_api_key v other disk)
        × (disk'.brains ≡ disk.brains)
  unfolding map_api_key resolve_api_key read_api_mappings write_all write_json ◌>>=◌
  map-resolve_api_key api_key tenant brain subject other disk {ms} read apart =
      let mapping = mapping_of api_key tenant brain subject in
      let (mapped, resolved) = map_api_key-resolve_api_key api_key tenant brain subject disk read in
      (
        disk_with mapping ms disk,
        mapped,
        resolved,
        rw read (ap ok (find?-unmapped mapping.key_hash _ mapping ms.mappings refl apart)),
        refl,
      )
