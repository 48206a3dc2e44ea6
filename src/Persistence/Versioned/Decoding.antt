-- ===== src/Persistence/Versioned/Decoding.antt =====
-- tellus/src/persistence/versioned.rs: which payloads decode.
use tellus.Prelude.{
  ◌≡◌, ◌≢◌, ◌↔◌, refl, arith, Attempt, done, failed, map_failed, done_of_map_failed,
}
use tellus.Prelude.Dict.{nat_key, list_eq_iff}
use tellus.Persistence.Id.{Text}
use tellus.Persistence.Store.{Payload, SchemaVersion}
use tellus.Persistence.Versioned.{
  Codec, Versioned, PayloadError, payload, manifest_mismatch, unsupported_schema_version,
  default_decode, decode_versioned,
}

map_payload_iff :
    {T : Type 0} (m : Attempt T PayloadError) (x : T)
    → (map_failed payload m ≡ done x) ↔ (m ≡ done x)
map_payload_iff m x = (done_of_map_failed payload m, λ e. rw e refl)

module _ {T : Type 0} (codec : Codec T) (manifest : Text) (version : SchemaVersion) where
  -- A type that does not override `decode`.
  abbrev pub plain : Versioned T
  plain = record {
    manifest = manifest;
    version = version;
    decode = default_decode codec manifest version;
  }

  -- A type that does not override `decode` decodes exactly the payloads that stand under its own
  -- manifest and its current version and that the codec decodes; under another manifest, at any
  -- version, the error names both manifests, and at another version it names that version.
  decode_versioned_iff :
      (m : Text) (v : SchemaVersion) (bytes : Payload)
      → ((x : T)
          → (decode_versioned plain m v bytes ≡ done x)
            ↔ ((m ≡ manifest) × (v ≡ version) × (codec.decode bytes ≡ done x)))
        × (m ≢ manifest → decode_versioned plain m v bytes ≡ failed (manifest_mismatch m manifest))
        × (m ≡ manifest
            → v ≢ version
            → decode_versioned plain m v bytes ≡ failed (unsupported_schema_version manifest v))
  unfolding decode_versioned default_decode
  decode_versioned_iff m v bytes = (
    λ x. ground (arith, list_eq_iff m manifest, map_payload_iff (codec.decode bytes) x),
    λ h. ground (arith, list_eq_iff m manifest),
    λ p h. ground (arith, list_eq_iff m manifest),
  )
