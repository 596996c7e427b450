-- ===== src/Segment/File.antt =====
-- crates/tracedb-segment/src/lib.rs: the file of a segment, written, read and published. The file is
-- its bytes, if it is there; the errors of the operating system are left out.
use tracedb.Base.{
  ℕ, ◌==◌, Text, codes, text_eq, starts_with, decimal, Bool, true, false, Option, none, some, List,
  ◌++◌, if◌then◌else◌, Result, ok, err, ensure, ◌>>=◌, ◌>>◌,
}
use tracedb.Core.Error.{TraceDbError, manifest_corruption, artifact_corruption}
use tracedb.Core.Artifact.{
  ArtifactEnvelopeHeader, artifact_envelope_magic, new_header, encode_artifact_envelope,
  decode_artifact_envelope,
}
use tracedb.Log.Commit.{EncryptionContext, decrypt_artifact_if_needed}
use tracedb.Segment.Object.{
  SegmentState, SegmentRecord, SegmentObject, SegmentCodec, verify_segment_object, from_records,
  minimal,
}

abbrev pub segment_kind : Text
segment_kind = codes "segment"

module _ {V : Type 0} (lib : SegmentCodec V) where
  abbrev pub header_for : SegmentObject V → List ℕ → ArtifactEnvelopeHeader
  header_for object payload =
      new_header lib.artifact segment_kind (codes "bincode") object.segment_id object.generation
        object.generation object.epoch_min object.epoch_max object.object_checksum payload

  -- What `write_segment_object_with_encryption` puts in the file.
  abbrev pub wrong_kind : Text → TraceDbError
  wrong_kind kind = artifact_corruption (codes "segment artifact kind mismatch: " ++ kind)

  -- The object in a decrypted body: in an envelope, or plain JSON as in the first format.
  unfoldable pub object_in : List ℕ → Result TraceDbError (SegmentObject V)
  object_in body =
      if starts_with body artifact_envelope_magic
      then (do
        envelope ← decode_artifact_envelope lib.artifact body
        ensure (text_eq envelope.header.kind segment_kind) (wrong_kind envelope.header.kind)
        json_bytes ← lib.deserialize_bytes envelope.payload
        lib.object_from_slice json_bytes)
      else lib.object_from_slice body

module _ {V : Type 0} (lib : SegmentCodec V) (encryption : Option EncryptionContext) where
  abbrev pub encrypted : List ℕ → Result TraceDbError (List ℕ)
  encrypted body = elim encryption [
    | none ↦ ok body
    | some context ↦ context.encrypt_artifact segment_kind body
  ]

  unfoldable pub segment_bytes : SegmentObject V → Result TraceDbError (List ℕ)
  segment_bytes object = do
    verify_segment_object lib object
    json_bytes ← lib.object_to_vec object
    payload ← lib.serialize_bytes json_bytes
    body ← encode_artifact_envelope lib.artifact (header_for lib object payload) payload
    encrypted body

  -- `read_segment_object_with_encryption`.
  unfoldable pub read_segment_object : List ℕ → Result TraceDbError (SegmentObject V)
  read_segment_object file = do
    body ← decrypt_artifact_if_needed encryption segment_kind file
    object ← object_in lib body
    verify_segment_object lib object
    ok object

  -- `publish_segment_records_with_encryption`: the object, and the file that is left.
  unfoldable pub publish_segment_records :
      Text
      → ℕ
      → List (SegmentRecord V)
      → Option (List ℕ)
      → Result TraceDbError (SegmentObject V) × Option (List ℕ)
  publish_segment_records segment_id generation records (some file) =
      (read_segment_object file, some file)
  publish_segment_records segment_id generation records none =
      let written = from_records lib segment_id generation records >>= segment_bytes in
      elim written [ err e ↦ (err e, none) | ok file ↦ (read_segment_object file, some file) ]

abbrev pub id_mismatch : Text → Text → TraceDbError
id_mismatch expected found =
    manifest_corruption
      (codes "segment object id mismatch: expected " ++ (expected ++ (codes ", got " ++ found)))

abbrev pub generation_mismatch : ℕ → ℕ → TraceDbError
generation_mismatch expected found = manifest_corruption (
    codes "segment object generation mismatch: expected "
    ++ (decimal expected ++ (codes ", got " ++ decimal found)))

abbrev pub is_published : SegmentState → Bool
is_published SegmentState.published = true
is_published _ = false

module _ {V : Type 0} (lib : SegmentCodec V) where
  -- `publish_segment_object`, which takes no encryption.
  unfoldable pub publish_segment_object :
      Text → ℕ → Option (List ℕ) → Result TraceDbError (SegmentObject V) × Option (List ℕ)
  publish_segment_object segment_id generation (some file) = (
    (do
      object ← read_segment_object lib none file
      ensure (text_eq object.segment_id segment_id) (id_mismatch segment_id object.segment_id)
      ensure (object.generation == generation) (generation_mismatch generation object.generation)
      ensure (is_published object.state) (
          manifest_corruption
            (codes "segment object " ++ (object.segment_id ++ codes " is not published")))
      ok object),
    some file,
  )
  publish_segment_object segment_id generation none =
      let written = minimal lib segment_id generation >>= segment_bytes lib none in
      elim written [
        | err e ↦ (err e, none)
        | ok file ↦ (read_segment_object lib none file, some file)
      ]
