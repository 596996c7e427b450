-- ===== src/Core/Envelope.antt =====
-- crates/tracedb-core/src/lib.rs: an artifact that is encoded, read back.
use tracedb.Base.{
  ℕ, ◌+◌, ◌<◌, ◌%◌, ◌-◌, ◌^◌, text_eq, text_eq_refl, starts_with, List, ◌++◌, ◌≡◌, ◌∙◌, refl, arith,
  ◌==◌, length, drop, length-append, take-append, drop-append, drop-append_right, Result, ok,
  ensure, ◌>>=◌, ◌>>◌, Gives, Gives-bind, Gives-ok, ensure-ok, Bool, true, leb,
}
use tracedb.Core.Error.{TraceDbError}
use tracedb.Core.Features.{from_le_bytes}
use tracedb.Log.Frame.{to_le_bytes}
use tracedb.Log.Scan.{slice}
use tracedb.Log.Bytes.{from-to_le_bytes_4}
use tracedb.Core.Artifact.{
  ArtifactCodec, ArtifactEnvelopeHeader, IsArtifactCodec, artifact_envelope_magic, cleared,
  sealed_header, encode_artifact_envelope, decode_artifact_envelope,
}

-- The bytes of an envelope.
abbrev bytes_of : List ℕ → List ℕ → List ℕ
bytes_of header_bytes payload =
    artifact_envelope_magic
    ++ (to_le_bytes 4 (length header_bytes % 2 ^ 32) ++ (header_bytes ++ payload))

module _ (header_bytes payload : List ℕ) (short : length header_bytes < 2 ^ 32) where
  header_len-read : from_le_bytes (slice 8 12 (bytes_of header_bytes payload)) ≡ length header_bytes
  header_len-read = from-to_le_bytes_4 (length header_bytes % 2 ^ 32) (omega arith) ∙ omega arith

  magic-read : starts_with (bytes_of header_bytes payload) artifact_envelope_magic ≡ true
  unfolding starts_with
  magic-read = refl

  header-read : slice 12 (12 + length header_bytes) (bytes_of header_bytes payload) ≡ header_bytes
  header-read = take-append (12 + length header_bytes - 12) header_bytes payload (omega arith)

  payload-read : drop (12 + length header_bytes) (bytes_of header_bytes payload) ≡ payload
  payload-read =
      drop-append_right (12 + length header_bytes) (length header_bytes)
        (artifact_envelope_magic ++ to_le_bytes 4 (length header_bytes % 2 ^ 32))
        (header_bytes ++ payload) refl
      ∙ drop-append (length header_bytes) header_bytes payload refl

  prefix-fits : leb 12 (length (bytes_of header_bytes payload)) ≡ true
  prefix-fits = ground (arith, length-append header_bytes payload)

  long-enough : leb (12 + length header_bytes) (length (bytes_of header_bytes payload)) ≡ true
  long-enough = ground (arith, length-append header_bytes payload)

-- A check that goes through, and a step that gives a value, ahead of the rest.
module _ {B : Type 0} where
  checked-ok :
      (c : Bool) (e : TraceDbError) (r : Result TraceDbError B) (b : B)
      → c ≡ true
      → r ≡ ok b
      → (ensure c e >> r) ≡ ok b
  checked-ok c e r b holds h = rw holds h

  given-ok :
      {A : Type 0} (r : Result TraceDbError A) (a : A) (f : A → Result TraceDbError B) (b : B)
      → r ≡ ok a
      → f a ≡ ok b
      → (r >>= f) ≡ ok b
  given-ok r a f b e h = rw e h

module _ (lib : ArtifactCodec) (lawful : IsArtifactCodec lib) (header : ArtifactEnvelopeHeader)
    (payload without header_bytes : List ℕ) where
  decode-bytes_of :
      (header.payload_len == length payload) ≡ true
      → text_eq header.payload_checksum (lib.checksum_bytes payload) ≡ true
      → lib.serialize_artifact_header (cleared header) ≡ ok without
      → lib.serialize_artifact_header (sealed_header lib header without payload) ≡ ok header_bytes
      → length header_bytes < 2 ^ 32
      → decode_artifact_envelope lib (bytes_of header_bytes payload)
        ≡ ok (record { header = sealed_header lib header without payload; payload = payload })
  unfolding decode_artifact_envelope
  decode-bytes_of sized checked cleared_bytes sealed_bytes short =
      let read = header_len-read header_bytes payload short in
      let sealed = sealed_header lib header without payload in
      checked-ok _ _ _ _ (magic-read header_bytes payload short) (
        checked-ok _ _ _ _ (prefix-fits header_bytes payload short) (
          rw read (
            checked-ok _ _ _ _ (long-enough header_bytes payload short) (
              given-ok
                (lib.deserialize
                  (slice 12 (12 + length header_bytes) (bytes_of header_bytes payload)))
                sealed _ _
                (rw (header-read header_bytes payload short)
                  (lawful.reads_back sealed header_bytes sealed_bytes))
                (rw (payload-read header_bytes payload short) (
                  checked-ok _ _ _ _ sized (
                    checked-ok _ _ _ _ checked (
                      given-ok _ without _ _ cleared_bytes (
                        checked-ok _ _ _ _ (text_eq_refl (lib.checksum_bytes (without ++ payload)))
                          refl)))))))))

-- The bytes decode to this header and payload.
abbrev pub DecodesTo : ArtifactCodec → ArtifactEnvelopeHeader → List ℕ → List ℕ → Type 0
DecodesTo lib header payload bytes =
    (without : List ℕ) × (lib.serialize_artifact_header (cleared header) ≡ ok without)
    × (decode_artifact_envelope lib bytes
        ≡ ok (record { header = sealed_header lib header without payload; payload = payload }))

encode-Gives :
    (lib : ArtifactCodec) (header : ArtifactEnvelopeHeader) (payload : List ℕ)
    → IsArtifactCodec lib
    → ((h : ArtifactEnvelopeHeader) (b : List ℕ)
        → lib.serialize_artifact_header h ≡ ok b
        → length b < 2 ^ 32)
    → Gives (DecodesTo lib header payload) (encode_artifact_envelope lib header payload)
unfolding encode_artifact_envelope
encode-Gives lib header payload lawful short =
    Gives-bind _ (ensure (header.payload_len == length payload) _) _ λ _ sized.
      Gives-bind _ (ensure (text_eq header.payload_checksum (lib.checksum_bytes payload)) _) _
        λ _ checked.
          Gives-bind _ (lib.serialize_artifact_header (cleared header)) _ λ without cleared_bytes.
            Gives-bind _ (lib.serialize_artifact_header (sealed_header lib header without payload))
              _
              λ header_bytes sealed_bytes. (
                without,
                cleared_bytes,
                decode-bytes_of lib lawful header payload without header_bytes
                    (ensure-ok _ _ _ sized) (ensure-ok _ _ _ checked) cleared_bytes sealed_bytes
                    (short _ header_bytes sealed_bytes),
              )

-- What `encode_artifact_envelope` gives decodes to the payload and to the header with the checksum
-- over both, where the headers that are written are shorter than 4 GiB.
pub encode-DecodesTo :
    (lib : ArtifactCodec) (header : ArtifactEnvelopeHeader) (payload bytes : List ℕ)
    → IsArtifactCodec lib
    → ((h : ArtifactEnvelopeHeader) (b : List ℕ)
        → lib.serialize_artifact_header h ≡ ok b
        → length b < 2 ^ 32)
    → encode_artifact_envelope lib header payload ≡ ok bytes
    → DecodesTo lib header payload bytes
encode-DecodesTo lib header payload bytes lawful short encoded =
    Gives-ok (DecodesTo lib header payload) (encode_artifact_envelope lib header payload) bytes
      (encode-Gives lib header payload lawful short) encoded
