-- ===== src/Segment/Object.antt =====
-- crates/tracedb-segment/src/lib.rs and crates/tracedb-core/src/lib.rs: segment objects, their
-- checksums and the checks that they pass. A float is its bit pattern.
use tracedb.Base.{
  ℕ, ◌==◌, Text, codes, text_eq, trim, decimal, not, ◌||◌, Bool, true, List, [], ◌∷◌, ◌++◌,
  is_empty, keep, length, map, Result, ok, ensure, ◌>>=◌, ◌>>◌, if◌then◌else◌,
}
use tracedb.Base.Map.{Map}
use tracedb.Core.Error.{TraceDbError, manifest_corruption}
use tracedb.Core.Types.{VersionId}
use tracedb.Core.Artifact.{ArtifactCodec, debug_bytes}
use tracedb.Base.{as_bytes}
use tracedb.Log.Commit.{zero_checksum}
use tracedb.Policy.Graph.{sort_texts, dedup}

pub data SegmentState : Type 0 where
  building built verifying verified publishing published superseded reclaimable deleted failed :
      SegmentState

pub record SegmentManifest : Type 0 where
  pub segment_id : Text
  pub generation : ℕ
  pub state : SegmentState
  pub table_set : List Text
  pub tenant_set : List Text

pub record SegmentRecord (V : Type 0) : Type 0 where
  pub table : Text
  pub record_id : Text
  pub tenant_id : Text
  pub version_id : VersionId
  pub fields : Map V
  pub text : Map Text
  pub vectors : Map (List ℕ)

pub record ModuleBlockDescriptor : Type 0 where
  pub module_id : Text
  pub module_version : Text
  pub block_kind : Text
  pub codec_id : Text
  pub logical_row_count : ℕ
  pub checksum : List ℕ

pub record SegmentObject (V : Type 0) : Type 0 where
  pub format_version : ℕ
  pub segment_id : Text
  pub generation : ℕ
  pub state : SegmentState
  pub state_history : List SegmentState
  pub epoch_min : ℕ
  pub epoch_max : ℕ
  pub table_set : List Text
  pub tenant_set : List Text
  pub module_blocks : List ModuleBlockDescriptor
  pub records : List (SegmentRecord V)
  pub payload_checksum : List ℕ
  pub object_checksum : List ℕ

-- What segments take from serde_json, bincode and the envelope of artifacts, and the version of the
-- crate, which the build sets.
pub record SegmentCodec (V : Type 0) : Type 0 where
  pub artifact : ArtifactCodec
  pub object_to_vec : SegmentObject V → Result TraceDbError (List ℕ)
  pub object_from_slice : List ℕ → Result TraceDbError (SegmentObject V)
  pub serialize_records : List (SegmentRecord V) → Result TraceDbError (List ℕ)
  pub serialize_bytes : List ℕ → Result TraceDbError (List ℕ)
  pub deserialize_bytes : List ℕ → Result TraceDbError (List ℕ)
  pub package_version : Text

abbrev pub segment_object_format_version : ℕ
segment_object_format_version = 2

abbrev pub segment_legacy_json_format_version : ℕ
segment_legacy_json_format_version = 1

abbrev pub publication_state_history : List SegmentState
publication_state_history =
    SegmentState.building ∷ SegmentState.built ∷ SegmentState.verifying ∷ SegmentState.verified
    ∷ SegmentState.publishing ∷ SegmentState.published ∷ []

unfoldable pub sorted_unique : List Text → List Text
sorted_unique values = dedup (sort_texts values)

module _ {V : Type 0} (lib : SegmentCodec V) where
  abbrev pub checksum_of : List ℕ → List ℕ
  checksum_of bytes = lib.artifact.checksum_bytes bytes

  -- `ModuleBlockDescriptor::new`.
  unfoldable pub new_block : Text → Text → Text → ℕ → ModuleBlockDescriptor
  new_block module_id block_kind codec_id logical_row_count = record {
    module_id = module_id;
    module_version = lib.package_version;
    block_kind = block_kind;
    codec_id = codec_id;
    logical_row_count = logical_row_count;
    checksum = checksum_of (
        as_bytes (
          module_id
          ++ (codes ":"
              ++ (block_kind
                  ++ (codes ":" ++ (codec_id ++ (codes ":" ++ decimal logical_row_count)))))));
  }

  -- The digest of the object with no digest of its own, after a round through JSON.
  unfoldable pub compute_segment_object_checksum : SegmentObject V → Result TraceDbError (List ℕ)
  compute_segment_object_checksum object = do
    bytes ← lib.object_to_vec (record object { object_checksum = zero_checksum })
    round_tripped ← lib.object_from_slice bytes
    again ← lib.object_to_vec round_tripped
    ok (checksum_of again)

  unfoldable pub module_blocks_of : List (SegmentRecord V) → List ModuleBlockDescriptor
  module_blocks_of records =
      new_block (codes "tracedb-text") (codes "postings") (codes "text-postings-v1")
        (length (keep (λ r. not (is_empty r.text)) records))
      ∷ new_block (codes "tracedb-vector") (codes "vector-pages") (codes "vector-pages-v1")
          (length (keep (λ r. not (is_empty r.vectors)) records))
      ∷ new_block (codes "tracedb-policy") (codes "policy-bitmaps") (codes "policy-bitmap-v1")
          (length records)
      ∷ []

  -- The object before its digest is set.
  unfoldable pub unsealed : Text → ℕ → List (SegmentRecord V) → List ℕ → SegmentObject V
  unsealed segment_id generation records payload_checksum = record {
    format_version = segment_object_format_version;
    segment_id = segment_id;
    generation = generation;
    state = SegmentState.published;
    state_history = publication_state_history;
    epoch_min = generation;
    epoch_max = generation;
    table_set = sorted_unique (map (λ r. r.table) records);
    tenant_set = sorted_unique (map (λ r. r.tenant_id) records);
    module_blocks = module_blocks_of records;
    records = records;
    payload_checksum = payload_checksum;
    object_checksum = zero_checksum;
  }

  unfoldable pub from_records :
      Text → ℕ → List (SegmentRecord V) → Result TraceDbError (SegmentObject V)
  from_records segment_id generation records = do
    payload ← lib.serialize_records records
    let object = unsealed segment_id generation records (checksum_of payload)
    digest ← compute_segment_object_checksum object
    ok (record object { object_checksum = digest })

  -- `SegmentObject::minimal`.
  unfoldable pub minimal : Text → ℕ → Result TraceDbError (SegmentObject V)
  unfolding from_records
  minimal segment_id generation = from_records segment_id generation []

  abbrev pub digest_matches : SegmentObject V → List ℕ → Result TraceDbError Bool
  digest_matches object actual =
      if text_eq actual object.object_checksum
      then ok true
      else if object.format_version == segment_legacy_json_format_version
      then (do
        legacy ← compute_segment_object_checksum object
        ok (text_eq legacy object.object_checksum))
      else ok (text_eq actual object.object_checksum)

  unfoldable pub verify_segment_object : SegmentObject V → Result TraceDbError Unit
  verify_segment_object object = do
    ensure
        (object.format_version == segment_object_format_version
          || object.format_version == segment_legacy_json_format_version)
        (manifest_corruption
          (codes "unsupported segment object format " ++ decimal object.format_version))
    ensure (not (is_empty (trim object.segment_id)))
        (manifest_corruption (codes "segment object id cannot be empty"))
    ensure (not (text_eq object.payload_checksum zero_checksum)) (
        manifest_corruption
          (codes "segment object " ++ (object.segment_id ++ codes " has empty payload checksum")))
    actual ← compute_segment_object_checksum object
    matches ← digest_matches object actual
    ensure matches (
        manifest_corruption (
          codes "segment object checksum mismatch: expected "
          ++ (debug_bytes object.object_checksum ++ (codes ", got " ++ debug_bytes actual))))

  -- `SegmentObject::manifest`.
  unfoldable pub segment_manifest : SegmentObject V → SegmentManifest
  segment_manifest object = record {
    segment_id = object.segment_id;
    generation = object.generation;
    state = object.state;
    table_set = object.table_set;
    tenant_set = object.tenant_set;
  }

unfoldable pub published_segment : Text → ℕ → SegmentManifest
published_segment segment_id generation = record {
  segment_id = segment_id;
  generation = generation;
  state = SegmentState.published;
  table_set = [];
  tenant_set = [];
}
