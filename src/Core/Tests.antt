-- ===== src/Core/Tests.antt =====
-- Runs of the validation of a schema, and of the artifact envelope with headers written field by
-- field.
use tracedb.Base.{
  trim, starts_with, text_cmp, ℕ, codes, List, [], ◌∷◌, ◌≡◌, refl, text_eq, ok, err, Gives-ok,
}
use tracedb.Log.Commit.{zero_checksum}
use tracedb.Base.Map
use tracedb.Core.Types.{TableSchema}
use tracedb.Core.Schema.{
  validate_schema, validate_schema_identifier, is_graphql_safe_identifier, validate_column_set,
  validate_columns, reject_reserved_result_column, one_of, declared_source_columns,
  reject_identity_overlap, validate_scalars, validate_sources, validate_texts,
  validate_vector_columns,
}
use tracedb.Core.Sound.{IsSound, validate_schema-IsSound}
use tracedb.Core.Artifact.{ArtifactEnvelopeHeader, new_header, encode_artifact_envelope}
use tracedb.Core.SampleCodec.{artifact_codec, artifact_codec_short, artifact_codec-IsArtifactCodec}
use tracedb.Core.Envelope.{DecodesTo, encode-DecodesTo}

abbrev sample_payload : List ℕ
sample_payload = 1 ∷ 2 ∷ 3 ∷ []

abbrev sample_header : ArtifactEnvelopeHeader
sample_header =
    new_header artifact_codec (codes "segment") (codes "none") (codes "s1") 1 2 3 4 zero_checksum
      sample_payload

abbrev sample_bytes : List ℕ
sample_bytes = elim (encode_artifact_envelope artifact_codec sample_header sample_payload) [
  | ok bytes ↦ bytes
  | err _ ↦ []
]

encode-DecodesTo_example : DecodesTo artifact_codec sample_header sample_payload sample_bytes
unfolding encode_artifact_envelope new_header text_eq
encode-DecodesTo_example =
    encode-DecodesTo artifact_codec sample_header sample_payload sample_bytes
      artifact_codec-IsArtifactCodec
      (λ h b written. Gives-ok _ _ b (artifact_codec_short h) written) refl

-- A table with one vector column.
abbrev tiny : TableSchema
tiny = record {
  name = codes "t";
  primary_id_column = codes "i";
  tenant_id_column = codes "u";
  scalar_columns = codes "b" ∷ [];
  text_indexed_columns = codes "c" ∷ [];
  vector_columns =
      record { name = codes "v"; dimensions = 1; source_columns = codes "b" ∷ [] } ∷ [];
}

tiny_valid : validate_schema tiny ≡ ok tt
unfolding validate_schema validate_schema_identifier trim text_eq starts_with
    is_graphql_safe_identifier validate_column_set validate_columns reject_reserved_result_column
    one_of Map.extend Map.get Map.insert text_cmp declared_source_columns reject_identity_overlap
    validate_scalars validate_sources validate_texts validate_vector_columns
tiny_valid = refl

validate_schema-IsSound_example : IsSound tiny
validate_schema-IsSound_example = validate_schema-IsSound tiny tiny_valid
