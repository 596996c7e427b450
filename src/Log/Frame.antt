-- ===== src/Log/Frame.antt =====
-- crates/tracedb-log/src/lib.rs: the frame of one commit.
use tracedb.Base.{
  ℕ, zero, suc, ◌*◌, ◌/◌, ◌%◌, Text, codes, decimal, Option, none, some, List, [], ◌∷◌, ◌++◌,
  length, leb, Result, ok, ensure, ◌>>=◌, ◌>>◌,
}
use tracedb.Core.Error.{TraceDbError, wal_corruption}
use tracedb.Core.Types.{Epoch}
use tracedb.Log.Commit.{Lsn, CommitRecord, Codec, EncryptionContext}

abbrev pub wal_magic : ℕ
wal_magic = 0x5444574c

abbrev pub wal_format_version : ℕ
wal_format_version = 2

abbrev pub header_len : ℕ
header_len = 88

abbrev pub max_payload_len : ℕ
max_payload_len = 16 * 1024 * 1024

abbrev pub commit_footer : ℕ
commit_footer = 0x5444434d

pub record CommitFrame : Type 0 where
  pub epoch : Epoch
  pub payload_checksum : List ℕ
  pub payload_bytes : ℕ
  pub frame_bytes : ℕ
  pub frame : List ℕ

-- `n.to_le_bytes()` of an integer of `width` bytes: what does not fit is cut off.
abbrev pub to_le_bytes : ℕ → ℕ → List ℕ
to_le_bytes zero n = []
to_le_bytes (suc width) n = n % 256 ∷ to_le_bytes width (n / 256)

-- The part of the frame before the payload, in the order it is written.
unfoldable pub frame_header : Lsn → List ℕ → List ℕ → ℕ → List ℕ
frame_header lsn previous_checksum payload_checksum payload_len =
    to_le_bytes 4 wal_magic
    ++ (to_le_bytes 4 wal_format_version
        ++ (to_le_bytes 8 lsn
            ++ (previous_checksum
                ++ (to_le_bytes 4 1 ++ (to_le_bytes 4 payload_len ++ payload_checksum)))))

unfoldable pub assemble_commit_frame : Lsn → List ℕ → List ℕ → List ℕ → List ℕ
assemble_commit_frame lsn previous_checksum payload_checksum payload =
    frame_header lsn previous_checksum payload_checksum (length payload)
    ++ (payload ++ to_le_bytes 4 commit_footer)

-- `format!("payload length {} exceeds max {MAX_PAYLOAD_LEN} at lsn {}", ..)`.
abbrev pub payload_too_long : ℕ → Lsn → TraceDbError
payload_too_long len lsn = wal_corruption (
    codes "payload length "
    ++ (decimal len
        ++ (codes " exceeds max "
            ++ (decimal max_payload_len ++ (codes " at lsn " ++ decimal lsn)))))

abbrev pub check_payload_len : List ℕ → Lsn → Result TraceDbError Unit
check_payload_len payload lsn =
    ensure (leb (length payload) max_payload_len) (payload_too_long (length payload) lsn)

unfoldable pub encrypt_payload_if_needed :
    Option EncryptionContext → Text → List ℕ → Lsn → Result TraceDbError (List ℕ)
encrypt_payload_if_needed encryption artifact_kind payload lsn = do
  body ← elim encryption [
    | some context ↦ context.encrypt_artifact artifact_kind payload
    | none ↦ ok payload
  ]
  check_payload_len body lsn
  ok body

module _ {V : Type 0} where
  -- `CommitRecordForFrame` borrows the fields of the commit and takes the place of its hash.
  abbrev pub prepare_commit_for_frame : CommitRecord V → List ℕ → CommitRecord V
  prepare_commit_for_frame commit previous_checksum = record commit {
    previous_commit_hash = previous_checksum;
  }

  unfoldable pub serialize_commit_payload_for_frame :
      Codec V → CommitRecord V → List ℕ → Lsn → Result TraceDbError (List ℕ)
  serialize_commit_payload_for_frame codec commit previous_checksum lsn = do
    payload ← codec.to_vec (prepare_commit_for_frame commit previous_checksum)
    check_payload_len payload lsn
    ok payload

  unfoldable pub build_commit_frame_with_encryption :
      Codec V
      → CommitRecord V
      → Lsn
      → List ℕ
      → Option EncryptionContext
      → Result TraceDbError CommitFrame
  build_commit_frame_with_encryption codec commit lsn previous_checksum encryption = do
    plain ← serialize_commit_payload_for_frame codec commit previous_checksum lsn
    payload ← encrypt_payload_if_needed encryption (codes "wal") plain lsn
    let payload_checksum = codec.checksum_bytes payload
    let frame = assemble_commit_frame lsn previous_checksum payload_checksum payload
    ok (record {
      epoch = commit.epoch;
      payload_checksum = payload_checksum;
      payload_bytes = length payload;
      frame_bytes = length frame;
      frame = frame;
    })
