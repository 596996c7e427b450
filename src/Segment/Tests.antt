-- ===== src/Segment/Tests.antt =====
-- A segment of one record, published to a file.
use native.Mathlib.Decide.{ℕ_discrete}
use tracedb.Base.{
  ok-injective, ◌∙◌, ℕ, Text, text_eq, trim, codes, none, some, List, [], ◌∷◌, ◌≡◌, refl, sym,
  Result, ok, err, Gives-ok,
}
use tracedb.Core.Error.{TraceDbError, json}
use tracedb.Core.Artifact.{new_header, encode_artifact_envelope}
use tracedb.Core.SampleCodec.{artifact_codec, artifact_codec_short, artifact_codec-IsArtifactCodec}
use tracedb.Log.Commit.{zero_checksum}
use tracedb.Segment.Object.{
  SegmentRecord, SegmentObject, SegmentCodec, new_block, module_blocks_of, unsealed,
  compute_segment_object_checksum, from_records, verify_segment_object,
}
use tracedb.Segment.File.{header_for, segment_bytes, publish_segment_records}
use tracedb.Segment.Published.{
  IsSegmentCodec, ReadsAs, segment_bytes-reads, publish_segment_records-reads,
}

abbrev row : SegmentRecord Unit
row = record {
  table = codes "docs";
  record_id = codes "a";
  tenant_id = codes "t";
  version_id = 1;
  fields = [];
  text = (codes "body", codes "x") ∷ [];
  vectors = [];
}

-- Reads and writes no object.
abbrev blank : SegmentCodec Unit
blank = record {
  artifact = artifact_codec;
  object_to_vec = λ _. err json;
  object_from_slice = λ _. err json;
  serialize_records = λ _. ok [];
  serialize_bytes = λ bytes. ok bytes;
  deserialize_bytes = λ bytes. ok bytes;
  package_version = codes "0.1.0";
}

-- The object of the record, with a digest.
abbrev with_digest : List ℕ → SegmentObject Unit
with_digest digest = record (unsealed blank (codes "s1") 1 (row ∷ []) (0 ∷ [])) {
  object_checksum = digest;
}

object-discrete : Discrete (SegmentObject Unit)
object-discrete = hlevel ℕ_discrete

unfoldable written_if : {P : Type 0} → Dec P → List ℕ → Result TraceDbError (List ℕ)
written_if (yes _) bytes = ok bytes
written_if (no _) bytes = err json

written_if-yes : {P : Type 0} (d : Dec P) (b : List ℕ) → P → written_if d b ≡ ok b
unfolding written_if
written_if-yes (yes _) b p = refl
written_if-yes (no other) b p = absurd (other p)

abbrev write_object : SegmentObject Unit → Result TraceDbError (List ℕ)
write_object o =
    written_if (object-discrete o (with_digest o.object_checksum)) (7 ∷ o.object_checksum)

abbrev read_object : List ℕ → Result TraceDbError (SegmentObject Unit)
read_object (_ ∷ digest) = ok (with_digest digest)
read_object [] = err json

abbrev lib : SegmentCodec Unit
lib = record blank { object_to_vec = write_object; object_from_slice = read_object }

write_object-digest : (digest : List ℕ) → write_object (with_digest digest) ≡ ok (7 ∷ digest)
write_object-digest digest =
    written_if-yes (object-discrete (with_digest digest) (with_digest digest)) (7 ∷ digest) refl

abbrev digest : List ℕ
digest = 33 ∷ []

checksum-digest : (d : List ℕ) → compute_segment_object_checksum lib (with_digest d) ≡ ok digest
unfolding compute_segment_object_checksum
checksum-digest d =
    rw (write_object-digest zero_checksum) (rw (write_object-digest zero_checksum) refl)

before_digest : unsealed lib (codes "s1") 1 (row ∷ []) (0 ∷ []) ≡ with_digest zero_checksum
unfolding unsealed module_blocks_of new_block
before_digest = refl

made : from_records lib (codes "s1") 1 (row ∷ []) ≡ ok (with_digest digest)
unfolding from_records
made = rw (before_digest, checksum-digest zero_checksum) refl

valid : verify_segment_object lib (with_digest digest) ≡ ok tt
unfolding verify_segment_object unsealed trim text_eq
valid = rw (checksum-digest digest) refl

abbrev file : List ℕ
file =
    elim (encode_artifact_envelope artifact_codec (header_for lib (with_digest digest) (7 ∷ digest))
      (7 ∷ digest)) [ ok bytes ↦ bytes | err _ ↦ [] ]

bytes_made : segment_bytes lib none (with_digest digest) ≡ ok file
unfolding segment_bytes encode_artifact_envelope new_header text_eq unsealed
bytes_made = rw valid (rw (write_object-digest digest) refl)

lib-IsSegmentCodec : IsSegmentCodec lib none
lib-IsSegmentCodec = record {
  payloads = λ bytes payload packed. cc;
  headers = artifact_codec-IsArtifactCodec;
  short = λ h b written. Gives-ok _ _ b (artifact_codec_short h) written;
  sealed = λ context bytes body given. absurd (cc);
}

published :
    publish_segment_records lib none (codes "s1") 1 (row ∷ []) none
    ≡ (ok (with_digest digest), some file)
unfolding publish_segment_records
published =
    let (bytes, written, reads) =
      Gives-ok (ReadsAs lib none lib-IsSegmentCodec (with_digest digest)) _ file
        (segment_bytes-reads lib none lib-IsSegmentCodec (with_digest digest)) bytes_made in
    let is : bytes ≡ 7 ∷ digest =
      ok-injective bytes (7 ∷ digest) (sym written ∙ write_object-digest digest) in
    rw (made, publish_segment_records)
      (rw (bytes_made, publish_segment_records) (rw reads (rw is (rw valid refl))))

publish_segment_records-reads_example :
    (built : SegmentObject Unit) × (json : List ℕ) × (from_records lib (codes "s1") 1 (row ∷ [])
      ≡ ok built)
    × (lib.object_to_vec built ≡ ok json)
    × (lib.object_from_slice json ≡ ok (with_digest digest))
    × (verify_segment_object lib (with_digest digest) ≡ ok tt)
    × ((other_id : Text) (other_generation : ℕ) (others : List (SegmentRecord Unit))
        → publish_segment_records lib none other_id other_generation others (some file)
          ≡ (ok (with_digest digest), some file))
publish_segment_records-reads_example =
    publish_segment_records-reads lib none lib-IsSegmentCodec (codes "s1") 1 (row ∷ [])
      (with_digest digest) file published
