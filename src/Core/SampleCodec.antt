-- ===== src/Core/SampleCodec.antt =====
-- A codec of the headers of artifacts that writes each field and reads it back, for tests.
use tracedb.Base.{
  ℕ, ◌<◌, ◌^◌, true, List, [], ◌∷◌, ◌++◌, ◌≡◌, refl, ap, arith, length, take, drop, take-append,
  drop-append, ltb, Result, ok, err, ensure, ◌>>◌, ensure-ok, Gives, Gives-bind, Gives-ok,
}
use tracedb.Core.Error.{TraceDbError, artifact_corruption}
use tracedb.Core.Artifact.{ArtifactCodec, ArtifactEnvelopeHeader, IsArtifactCodec}

-- A list behind its length.
abbrev put_list : List ℕ → List ℕ → List ℕ
put_list xs rest = length xs ∷ (xs ++ rest)

abbrev first_list : List ℕ → List ℕ
first_list [] = []
first_list (n ∷ rest) = take n rest

abbrev after_list : List ℕ → List ℕ
after_list [] = []
after_list (n ∷ rest) = drop n rest

first-put_list : (xs rest : List ℕ) → first_list (put_list xs rest) ≡ xs
first-put_list xs rest = take-append (length xs) xs rest refl

after-put_list : (xs rest : List ℕ) → after_list (put_list xs rest) ≡ rest
after-put_list xs rest = drop-append (length xs) xs rest refl

abbrev header_bytes : ArtifactEnvelopeHeader → List ℕ
header_bytes h =
    h.version
    ∷ h.generation
    ∷ h.manifest_generation
    ∷ h.epoch_min
    ∷ h.epoch_max
    ∷ h.payload_len
    ∷ put_list h.kind (
        put_list h.codec (
          put_list h.segment_id (
            put_list h.source_segment_checksum
              (put_list h.payload_checksum (put_list h.object_checksum [])))))

abbrev read_lists : ℕ → ℕ → ℕ → ℕ → ℕ → ℕ → List ℕ → ArtifactEnvelopeHeader
read_lists version generation manifest_generation epoch_min epoch_max payload_len r0 =
    let r1 = after_list r0 in
    let r2 = after_list r1 in
    let r3 = after_list r2 in
    let r4 = after_list r3 in
    record {
      version = version;
      kind = first_list r0;
      codec = first_list r1;
      segment_id = first_list r2;
      generation = generation;
      manifest_generation = manifest_generation;
      epoch_min = epoch_min;
      epoch_max = epoch_max;
      source_segment_checksum = first_list r3;
      payload_len = payload_len;
      payload_checksum = first_list r4;
      object_checksum = first_list (after_list r4);
    }

abbrev read_header : List ℕ → Result TraceDbError ArtifactEnvelopeHeader
read_header (v ∷ (g ∷ (m ∷ (e ∷ (x ∷ (p ∷ rest)))))) = ok (read_lists v g m e x p rest)
read_header _ = err (artifact_corruption [])

read_lists-put :
    (v g m e x p : ℕ) (a b c d f h : List ℕ)
    → read_lists v g m e x p
        (put_list a (put_list b (put_list c (put_list d (put_list f (put_list h []))))))
      ≡ record {
        version = v;
        kind = a;
        codec = b;
        segment_id = c;
        generation = g;
        manifest_generation = m;
        epoch_min = e;
        epoch_max = x;
        source_segment_checksum = d;
        payload_len = p;
        payload_checksum = f;
        object_checksum = h;
      }
read_lists-put v g m e x p a b c d f h = simp (first-put_list, after-put_list)

abbrev pub artifact_codec : ArtifactCodec
artifact_codec = record {
  serialize_artifact_header = λ h.
      ensure (ltb (length (header_bytes h)) (2 ^ 32)) (artifact_corruption [])
      >> ok (header_bytes h);
  deserialize = read_header;
  checksum_bytes = λ bytes. length bytes ∷ [];
}

artifact_codec_reads_back :
    (h : ArtifactEnvelopeHeader)
    → Gives (λ bytes. read_header bytes ≡ ok h) (artifact_codec.serialize_artifact_header h)
artifact_codec_reads_back h =
    Gives-bind (λ bytes. read_header bytes ≡ ok h)
      (ensure (ltb (length (header_bytes h)) (2 ^ 32)) (artifact_corruption []))
      (λ _. ok (header_bytes h))
      λ _ _. ap ok (
        read_lists-put h.version h.generation h.manifest_generation h.epoch_min h.epoch_max
          h.payload_len h.kind h.codec h.segment_id h.source_segment_checksum h.payload_checksum
          h.object_checksum)

is_less : (n : ℕ) → ltb n (2 ^ 32) ≡ true → n < 2 ^ 32
is_less n h = ground arith

pub artifact_codec_short :
    (h : ArtifactEnvelopeHeader)
    → Gives (λ bytes. length bytes < 2 ^ 32) (artifact_codec.serialize_artifact_header h)
artifact_codec_short h =
    Gives-bind (λ bytes. length bytes < 2 ^ 32)
      (ensure (ltb (length (header_bytes h)) (2 ^ 32)) (artifact_corruption []))
      (λ _. ok (header_bytes h)) λ u small. is_less _ (ensure-ok _ _ u small)

pub artifact_codec-IsArtifactCodec : IsArtifactCodec artifact_codec
artifact_codec-IsArtifactCodec = record {
  reads_back = λ h bytes written. Gives-ok _ _ bytes (artifact_codec_reads_back h) written;
}
