-- ===== src/Persistence/Versioned.antt =====
-- tellus/src/persistence/codec.rs and tellus/src/persistence/versioned.rs. The codecs (`ciborium`,
-- `serde_json`) are not part of the repository: a codec is any pair of functions, for one type.
-- Encoding and decoding run the value's own code, which may panic.
pub mod Decoding
use tellus.Prelude.{ℕ, Attempt, done, failed, map_failed, nat_eq, if◌then◌else◌}
use tellus.Prelude.Dict.{nat_key, list_eq}
use tellus.Persistence.Id.{Text}
use tellus.Persistence.Store.{Payload, SchemaVersion}

-- The wrapped errors of the codecs carry nothing that the code reads.
pub data EncodeError : Type 0 where
  not_encodable : EncodeError

pub data PayloadError : Type 0 where
  not_decodable : PayloadError

pub record Codec (T : Type 0) : Type 0 where
  pub encode : T → Attempt Payload EncodeError
  pub decode : Payload → Attempt T PayloadError

pub data DecodeError : Type 0 where
  payload : PayloadError → DecodeError
  manifest_mismatch : Text → Text → DecodeError
  unsupported_schema_version : Text → SchemaVersion → DecodeError

-- `decode` may be overridden, to upcast older versions.
pub record Versioned (T : Type 0) : Type 0 where
  pub manifest : Text
  pub version : SchemaVersion
  pub decode : SchemaVersion → Payload → Attempt T DecodeError

-- The provided method `Versioned::decode`.
unfoldable pub default_decode :
    {T : Type 0} → Codec T → Text → SchemaVersion → SchemaVersion → Payload → Attempt T DecodeError
default_decode codec manifest version schema_version bytes =
    if nat_eq schema_version version
    then map_failed payload (codec.decode bytes)
    else failed (unsupported_schema_version manifest schema_version)

unfoldable pub decode_versioned :
    {T : Type 0} → Versioned T → Text → SchemaVersion → Payload → Attempt T DecodeError
decode_versioned v manifest schema_version bytes =
    if list_eq manifest v.manifest
    then v.decode schema_version bytes
    else failed (manifest_mismatch manifest v.manifest)
