-- ===== src/Segment/Published.antt =====
-- crates/tracedb-segment/src/lib.rs: what is published reads back.
use tracedb.Base.{
  ℕ, ◌<◌, ◌^◌, Text, text_eq, text_eq_refl, starts_with, true, false, Option, none, some, List, ◌≡◌,
  ◌∙◌, sym, ap, refl, length, Option-cases, inl, inr, Result, Result-cases, ok, ensure, Gives,
  Gives-bind, Gives-ok, Gives-of, ok-injective, ◌==◌, ◌>>=◌, ◌>>◌,
}
use tracedb.Core.Error.{TraceDbError}
use tracedb.Core.Artifact.{
  ArtifactCodec, ArtifactEnvelopeHeader, IsArtifactCodec, artifact_envelope_magic, cleared,
  sealed_header, new_header, encode_artifact_envelope,
}
use tracedb.Core.Envelope.{encode-DecodesTo}
use tracedb.Log.Commit.{EncryptionContext, is_encrypted_artifact, decrypt_artifact_if_needed}
use tracedb.Segment.Object.{
  SegmentRecord, SegmentObject, SegmentCodec, verify_segment_object, from_records,
}
use tracedb.Segment.File.{
  segment_kind, encrypted, header_for, segment_bytes, object_in, read_segment_object,
  publish_segment_records,
}

-- The documented behaviour of bincode and the cipher: bytes and headers that are written read back,
-- headers are shorter than 4 GiB, and what is encrypted says so and decrypts.
pub record IsSegmentCodec {V : Type 0} (lib : SegmentCodec V)
    (encryption : Option EncryptionContext) : Type 0 where
  pub payloads :
      (bytes payload : List ℕ)
      → lib.serialize_bytes bytes ≡ ok payload
      → lib.deserialize_bytes payload ≡ ok bytes
  pub headers : IsArtifactCodec lib.artifact
  pub short :
      (h : ArtifactEnvelopeHeader) (b : List ℕ)
      → lib.artifact.serialize_artifact_header h ≡ ok b
      → length b < 2 ^ 32
  pub sealed :
      (context : EncryptionContext) (bytes body : List ℕ)
      → encryption ≡ some context
      → context.encrypt_artifact segment_kind bytes ≡ ok body
      → (is_encrypted_artifact body ≡ true)
        × (context.decrypt_artifact segment_kind body ≡ ok bytes)

-- An envelope starts with its own magic, and not with that of what is encrypted.
encode-magic :
    (lib : ArtifactCodec) (header : ArtifactEnvelopeHeader) (payload : List ℕ)
    → Gives
        (λ body.
          (starts_with body artifact_envelope_magic ≡ true) × (is_encrypted_artifact body ≡ false))
        (encode_artifact_envelope lib header payload)
unfolding encode_artifact_envelope starts_with
encode-magic lib header payload =
    Gives-bind _ (ensure (header.payload_len == length payload) _) _ λ _ _.
      Gives-bind _ (ensure (text_eq header.payload_checksum (lib.checksum_bytes payload)) _) _
        λ _ _. Gives-bind _ (lib.serialize_artifact_header (cleared header)) _ λ without _.
          Gives-bind _ (lib.serialize_artifact_header (sealed_header lib header without payload)) _
            λ header_bytes _. (refl, refl)

module _ {V : Type 0} (lib : SegmentCodec V) (encryption : Option EncryptionContext)
    (lawful : IsSegmentCodec lib encryption) where
  -- What reading a file gives that holds the JSON.
  abbrev checked : List ℕ → Result TraceDbError (SegmentObject V)
  checked json = do object ← lib.object_from_slice json; verify_segment_object lib object; ok object

  -- The file reads as the JSON of the object, back from its bytes. That need not be the object: a
  -- double may come back changed.
  abbrev pub ReadsAs : SegmentObject V → List ℕ → Type 0
  ReadsAs object file =
      (json : List ℕ) × (lib.object_to_vec object ≡ ok json)
      × (read_segment_object lib encryption file ≡ checked json)

  enclosed-reads :
      (object : SegmentObject V) (json payload body : List ℕ)
      → lib.serialize_bytes json ≡ ok payload
      → encode_artifact_envelope lib.artifact (header_for lib object payload) payload ≡ ok body
      → object_in lib body ≡ lib.object_from_slice json
  unfolding object_in
  enclosed-reads object json payload body packed enclosed =
      let (without, _, decoded) =
        encode-DecodesTo lib.artifact (header_for lib object payload) payload body lawful.headers
          lawful.short enclosed in
      let (magic, _) =
        Gives-ok _ _ body (encode-magic lib.artifact (header_for lib object payload) payload)
          enclosed in
      rw magic (
        rw decoded (
          unfold new_header in
          rw (text_eq_refl segment_kind) (rw (lawful.payloads json payload packed) refl)))

  encrypted-reads :
      (json body file : List ℕ)
      → object_in lib body ≡ lib.object_from_slice json
      → is_encrypted_artifact body ≡ false
      → encrypted lib encryption body ≡ ok file
      → read_segment_object lib encryption file ≡ checked json
  unfolding read_segment_object decrypt_artifact_if_needed
  encrypted-reads json body file inside plain made = elim (Option-cases encryption) [
    | inl open_text ↦
        let same : body ≡ file = ok-injective body file (rw (open_text, encrypted) at made) in
        rw (← same) (rw plain (rw inside refl))
    | inr (context, given) ↦
        let (marked, opened) =
          lawful.sealed context body file given (rw (given, encrypted) at made) in
        rw given (rw marked (rw opened (rw inside refl)))
  ]

  pub segment_bytes-reads :
      (object : SegmentObject V) → Gives (ReadsAs object) (segment_bytes lib encryption object)
  unfolding segment_bytes
  segment_bytes-reads object =
      Gives-bind (ReadsAs object) (verify_segment_object lib object) _ λ _ valid.
        Gives-bind (ReadsAs object) (lib.object_to_vec object) _ λ json written.
          Gives-bind (ReadsAs object) (lib.serialize_bytes json) _ λ payload packed.
            Gives-bind (ReadsAs object)
              (encode_artifact_envelope lib.artifact (header_for lib object payload) payload) _
              λ body enclosed.
                let (_, plain) =
                  Gives-ok _ _ body
                    (encode-magic lib.artifact (header_for lib object payload) payload) enclosed in
                Gives-of (ReadsAs object) (encrypted lib encryption body) λ file made. (
                  json,
                  written,
                  encrypted-reads json body file
                      (enclosed-reads object json payload body packed enclosed) plain made,
                )

  checked-ok :
      (json : List ℕ) (object : SegmentObject V)
      → checked json ≡ ok object
      → (lib.object_from_slice json ≡ ok object) × (verify_segment_object lib object ≡ ok tt)
  checked-ok json object h = elim (Result-cases (lib.object_from_slice json)) [
    | inl (e, p) ↦ absurd (cc (rw p at h))
    | inr (read, p) ↦ elim (Result-cases (verify_segment_object lib read)) [
      | inl (e, q) ↦ absurd (cc (rw q at (rw p at h)))
      | inr (_, q) ↦
          let same : read ≡ object = ok-injective read object (rw q at (rw p at h)) in
          (p ∙ ap ok same, rw same at q)
    ]
  ]

  -- What publishing records at a path with no file gives, where it succeeds: the object that the JSON
  -- of the object of these records reads as, which passes the checks, and a file that reads as it.
  -- Publishing anything at that path again, whatever its id, its generation and its records, gives this
  -- object and leaves the file.
  pub publish_segment_records-reads :
      (segment_id : Text) (generation : ℕ) (records : List (SegmentRecord V))
      (object : SegmentObject V) (file : List ℕ)
      → publish_segment_records lib encryption segment_id generation records none
        ≡ (ok object, some file)
      → (built : SegmentObject V) × (json : List ℕ) × (from_records lib segment_id generation
            records
          ≡ ok built)
        × (lib.object_to_vec built ≡ ok json)
        × (lib.object_from_slice json ≡ ok object)
        × (verify_segment_object lib object ≡ ok tt)
        × ((other_id : Text) (other_generation : ℕ) (others : List (SegmentRecord V))
            → publish_segment_records lib encryption other_id other_generation others (some file)
              ≡ (ok object, some file))
  unfolding publish_segment_records
  publish_segment_records-reads segment_id generation records object file h =
      elim (Result-cases (from_records lib segment_id generation records)) [
        | inl (e, p) ↦ absurd (cc (rw (p, publish_segment_records) at h))
        | inr (built, p) ↦ elim (Result-cases (segment_bytes lib encryption built)) [
          | inl (e, q) ↦
              absurd
                (cc (rw (q, publish_segment_records) at (rw (p, publish_segment_records) at h)))
          | inr (bytes, q) ↦
              let (json, written, reads) =
                Gives-ok (ReadsAs built) _ bytes (segment_bytes-reads built) q in
              let gave : ◌≡◌ {A = Result TraceDbError (SegmentObject V) × Option (List ℕ)}
                  (read_segment_object lib encryption bytes, some bytes) (ok object, some file) =
                rw (q, publish_segment_records) at (rw (p, publish_segment_records) at h) in
              let given : read_segment_object lib encryption bytes ≡ ok object = cc in
              let stays : bytes ≡ file = cc in
              let (back, valid) = checked-ok json object (sym reads ∙ given) in
              (built, json, p, written, back, valid, λ _ _ _. rw (← stays) (rw given refl))
        ]
      ]
