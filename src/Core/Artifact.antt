-- ===== src/Core/Artifact.antt =====
-- crates/tracedb-core/src/lib.rs: the envelope of an artifact, a header and a payload with checksums.
use tracedb.Base.{
  ℕ, ◌+◌, ◌%◌, ◌^◌, Text, codes, text_eq, starts_with, decimal, List, [], ◌∷◌, ◌++◌, ◌≡◌, ◌==◌, leb,
  length, drop, Result, ok, ensure, ◌>>=◌, ◌>>◌,
}
use tracedb.Core.Error.{TraceDbError, artifact_corruption}
use tracedb.Core.Features.{from_le_bytes}
use tracedb.Log.Commit.{zero_checksum}
use tracedb.Log.Frame.{to_le_bytes}
use tracedb.Log.Scan.{slice}

pub record ArtifactEnvelopeHeader : Type 0 where
  pub version : ℕ
  pub kind : Text
  pub codec : Text
  pub segment_id : Text
  pub generation : ℕ
  pub manifest_generation : ℕ
  pub epoch_min : ℕ
  pub epoch_max : ℕ
  pub source_segment_checksum : List ℕ
  pub payload_len : ℕ
  pub payload_checksum : List ℕ
  pub object_checksum : List ℕ

pub record ArtifactEnvelope : Type 0 where
  pub header : ArtifactEnvelopeHeader
  pub payload : List ℕ

-- What the envelope takes from bincode and sha2.
pub record ArtifactCodec : Type 0 where
  pub serialize_artifact_header : ArtifactEnvelopeHeader → Result TraceDbError (List ℕ)
  pub deserialize : List ℕ → Result TraceDbError ArtifactEnvelopeHeader
  pub checksum_bytes : List ℕ → List ℕ

-- The documented behaviour of bincode: a header that is serialized reads back.
pub record IsArtifactCodec (codec : ArtifactCodec) : Type 0 where
  pub reads_back :
      (header : ArtifactEnvelopeHeader) (bytes : List ℕ)
      → codec.serialize_artifact_header header ≡ ok bytes
      → codec.deserialize bytes ≡ ok header

-- `ARTIFACT_ENVELOPE_MAGIC`.
abbrev pub artifact_envelope_magic : List ℕ
artifact_envelope_magic = codes "TDBART01"

-- `format!("{:?}", bytes)`.
abbrev pub debug_items : List ℕ → Text
debug_items [] = codes "]"
debug_items (b ∷ []) = decimal b ++ codes "]"
debug_items (b ∷ (c ∷ bytes)) = decimal b ++ (codes ", " ++ debug_items (c ∷ bytes))

abbrev pub debug_bytes : List ℕ → Text
debug_bytes bytes = codes "[" ++ debug_items bytes

abbrev pub length_mismatch : ArtifactEnvelopeHeader → List ℕ → TraceDbError
length_mismatch header payload = artifact_corruption (
    codes "artifact payload length mismatch: header "
    ++ (decimal header.payload_len ++ (codes ", actual " ++ decimal (length payload))))

abbrev pub checksum_mismatch : Text → Text → List ℕ → Text → List ℕ → TraceDbError
checksum_mismatch what first given second actual = artifact_corruption (
    codes "artifact "
    ++ (what
        ++ (codes " checksum mismatch: "
            ++ (first ++ (debug_bytes given ++ (second ++ debug_bytes actual))))))

abbrev pub cleared : ArtifactEnvelopeHeader → ArtifactEnvelopeHeader
cleared header = record header { object_checksum = zero_checksum }

module _ (lib : ArtifactCodec) where
  -- `ArtifactEnvelopeHeader::new`.
  unfoldable pub new_header :
      Text → Text → Text → ℕ → ℕ → ℕ → ℕ → List ℕ → List ℕ → ArtifactEnvelopeHeader
  new_header kind codec segment_id generation manifest_generation epoch_min epoch_max
        source_segment_checksum payload =
      record {
        version = 1;
        kind = kind;
        codec = codec;
        segment_id = segment_id;
        generation = generation;
        manifest_generation = manifest_generation;
        epoch_min = epoch_min;
        epoch_max = epoch_max;
        source_segment_checksum = source_segment_checksum;
        payload_len = length payload;
        payload_checksum = lib.checksum_bytes payload;
        object_checksum = zero_checksum;
      }

  -- The header with the checksum over itself and the payload.
  abbrev pub sealed_header : ArtifactEnvelopeHeader → List ℕ → List ℕ → ArtifactEnvelopeHeader
  sealed_header header header_without_checksum payload = record header {
    object_checksum = lib.checksum_bytes (header_without_checksum ++ payload);
  }

  unfoldable pub encode_artifact_envelope :
      ArtifactEnvelopeHeader → List ℕ → Result TraceDbError (List ℕ)
  encode_artifact_envelope header payload = do
    ensure (header.payload_len == length payload) (length_mismatch header payload)
    let payload_checksum = lib.checksum_bytes payload
    ensure (text_eq header.payload_checksum payload_checksum) (
        checksum_mismatch (codes "payload") (codes "header ") header.payload_checksum
          (codes ", actual ") payload_checksum)
    header_without_checksum ← lib.serialize_artifact_header (cleared header)
    header_bytes ←
        lib.serialize_artifact_header (sealed_header header header_without_checksum payload)
    ok (
        artifact_envelope_magic
        ++ (to_le_bytes 4 (length header_bytes % 2 ^ 32) ++ (header_bytes ++ payload)))

  unfoldable pub decode_artifact_envelope : List ℕ → Result TraceDbError ArtifactEnvelope
  decode_artifact_envelope bytes = do
    ensure (starts_with bytes artifact_envelope_magic)
        (artifact_corruption (codes "artifact envelope magic mismatch"))
    ensure (leb 12 (length bytes))
        (artifact_corruption (codes "artifact envelope truncated before header length"))
    let header_end = 12 + from_le_bytes (slice 8 12 bytes)
    ensure (leb header_end (length bytes))
        (artifact_corruption (codes "artifact envelope truncated before header"))
    header ← lib.deserialize (slice 12 header_end bytes)
    let payload = drop header_end bytes
    ensure (header.payload_len == length payload) (length_mismatch header payload)
    let payload_checksum = lib.checksum_bytes payload
    ensure (text_eq header.payload_checksum payload_checksum) (
        checksum_mismatch (codes "payload") (codes "expected ") header.payload_checksum
          (codes ", got ") payload_checksum)
    header_bytes ← lib.serialize_artifact_header (cleared header)
    let object_checksum = lib.checksum_bytes (header_bytes ++ payload)
    ensure (text_eq header.object_checksum object_checksum) (
        checksum_mismatch (codes "object") (codes "expected ") header.object_checksum
          (codes ", got ") object_checksum)
    ok (record { header = header; payload = payload })
