-- ===== src/Log/Built.antt =====
-- Lemmas on built frames, for crates/tracedb-log/src/lib.rs.
use tracedb.Base.{
  ℕ, ◌≤◌, ◌==◌, ltb, not, ◌&&◌, text_eq, text_eq_refl, codes, Bool, true, Option, List, ◌≡◌, arith,
  length, Option-cases, Result-cases, inl, inr, ok,
}
use tracedb.Log.Commit.{
  Lsn, CommitRecord, Codec, EncryptionContext, IsLawful, DecodesAs, decrypt_artifact_if_needed,
}
use tracedb.Log.Frame.{
  CommitFrame, assemble_commit_frame, max_payload_len, build_commit_frame_with_encryption,
  serialize_commit_payload_for_frame, encrypt_payload_if_needed, prepare_commit_for_frame,
}
use tracedb.Log.Scan.{decode_commit}
use tracedb.Log.Bytes.{header_of}

module _ {V : Type 0} where
  -- What the scan asks of a commit.
  abbrev pub is_committed : CommitRecord V → Bool
  is_committed c =
      text_eq c.commit_marker (codes "COMMITTED")
      && (not (c.epoch == 0) && ltb c.parent_epoch c.epoch)

module _ {V : Type 0} (codec : Codec V) (encryption : Option EncryptionContext)
    (lawful : IsLawful codec encryption) where
  decrypt-encrypt :
      (c : CommitRecord V) (plain payload : List ℕ) (lsn : Lsn)
      → codec.to_vec c ≡ ok plain
      → encrypt_payload_if_needed encryption (codes "wal") plain lsn ≡ ok payload
      → (decrypt_artifact_if_needed encryption (codes "wal") payload ≡ ok plain)
        × (length payload ≤ max_payload_len)
  unfolding encrypt_payload_if_needed decrypt_artifact_if_needed
  decrypt-encrypt c plain payload lsn encoded sealed = elim (Option-cases encryption) [
    | inl open_text ↦ ground (arith, lawful.plain c plain encoded)
    | inr (context, given) ↦ elim (Result-cases (context.encrypt_artifact (codes "wal") plain)) [
      | inl (e, p) ↦ absurd (ground arith)
      | inr (body, p) ↦ ground (
        arith,
        lawful.sealed context plain body given p,
        lawful.decrypts context plain body given p,
      )
    ]
  ]

  decode-encrypted :
      (c d : CommitRecord V) (lsn : Lsn) (previous plain payload : List ℕ)
      → DecodesAs codec c d
      → is_committed c ≡ true
      → codec.to_vec (prepare_commit_for_frame c previous) ≡ ok plain
      → decrypt_artifact_if_needed encryption (codes "wal") payload ≡ ok plain
      → decode_commit codec encryption
          (header_of lsn previous (codec.checksum_bytes payload) (length payload))
          payload
        ≡ ok (prepare_commit_for_frame d previous)
  unfolding decode_commit
  decode-encrypted c d lsn previous plain payload decodes valid encoded opened =
      let committed : is_committed d ≡ true =
        rw (decodes.same_epoch, decodes.same_parent, decodes.same_marker) valid in
      ground (arith, committed, decodes.read previous plain encoded, text_eq_refl previous)

  -- A frame that was built.
  pub build-frame :
      (c : CommitRecord V) (lsn : Lsn) (previous : List ℕ) {f : CommitFrame}
      → build_commit_frame_with_encryption codec c lsn previous encryption ≡ ok f
      → (payload : List ℕ) × (plain : List ℕ) × (length payload ≤ max_payload_len)
        × (f.frame ≡ assemble_commit_frame lsn previous (codec.checksum_bytes payload) payload)
        × (f.payload_checksum ≡ codec.checksum_bytes payload)
        × (f.epoch ≡ c.epoch)
        × (f.frame_bytes ≡ length f.frame)
        × (codec.to_vec (prepare_commit_for_frame c previous) ≡ ok plain)
        × (decrypt_artifact_if_needed encryption (codes "wal") payload ≡ ok plain)
  unfolding build_commit_frame_with_encryption serialize_commit_payload_for_frame
  build-frame c lsn previous {f} built =
      elim (Result-cases (codec.to_vec (prepare_commit_for_frame c previous))) [
        | inl (e, p) ↦ absurd (ground arith)
        | inr (plain, encoded) ↦
            elim (Result-cases (encrypt_payload_if_needed encryption (codes "wal") plain lsn)) [
              | inl (e, p) ↦ absurd (ground arith)
              | inr (payload, sealed) ↦
                  let (opened, short) =
                    decrypt-encrypt (prepare_commit_for_frame c previous) plain payload lsn encoded
                      sealed in
                  (
                    payload,
                    plain,
                    short,
                    ground arith,
                    ground arith,
                    ground arith,
                    ground arith,
                    encoded,
                    opened,
                  )
            ]
      ]

  -- The frame of a commit that decodes.
  pub build_reads :
      (c d : CommitRecord V) (lsn : Lsn) (previous : List ℕ) {f : CommitFrame}
      → DecodesAs codec c d
      → is_committed c ≡ true
      → build_commit_frame_with_encryption codec c lsn previous encryption ≡ ok f
      → (payload : List ℕ) × (length payload ≤ max_payload_len)
        × (f.frame ≡ assemble_commit_frame lsn previous (codec.checksum_bytes payload) payload)
        × (f.payload_checksum ≡ codec.checksum_bytes payload)
        × (f.epoch ≡ c.epoch)
        × (f.frame_bytes ≡ length f.frame)
        × (decode_commit codec encryption
              (header_of lsn previous (codec.checksum_bytes payload) (length payload))
              payload
            ≡ ok (prepare_commit_for_frame d previous))
  build_reads c d lsn previous {f} decodes valid built =
      let (payload, plain, short, frame_is, checksum_is, epoch_is, bytes_are, encoded, opened) =
        build-frame c lsn previous {f = f} built in
      (
        payload,
        short,
        frame_is,
        checksum_is,
        epoch_is,
        bytes_are,
        decode-encrypted c d lsn previous plain payload decodes valid encoded opened,
      )
