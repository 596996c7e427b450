-- ===== src/Log/Scan.antt =====
-- crates/tracedb-log/src/lib.rs: `scan_file`, which reads the frames back. The file is its bytes.
use tracedb.Base.{
  ℕ, zero, suc, ◌+◌, ◌-◌, Text, codes, text_eq, decimal, not, ◌&&◌, Option, none, some, List, [],
  ◌∷◌, ◌++◌, length, take, drop, leb, ltb, ◌==◌, if◌then◌else◌, Result, ok, err, ensure, ◌>>=◌,
  ◌>>◌,
}
use tracedb.Core.Error.{TraceDbError, wal_corruption}
use tracedb.Core.Features.{from_le_bytes}
use tracedb.Log.Commit.{
  Lsn, CommitRecord, Codec, EncryptionContext, zero_checksum, decrypt_artifact_if_needed,
}
use tracedb.Log.Frame.{
  wal_magic, wal_format_version, header_len, max_payload_len, commit_footer, payload_too_long,
}

pub record WalEntry (V : Type 0) : Type 0 where
  pub lsn : Lsn
  pub checksum : List ℕ
  pub commit : CommitRecord V

pub record TornWalTail : Type 0 where
  pub offset : ℕ
  pub lsn : Option Lsn
  pub reason : Text
  pub expected_len : ℕ
  pub actual_len : ℕ

pub record WalScan (V : Type 0) : Type 0 where
  pub entries : List (WalEntry V)
  pub torn_tail : Option TornWalTail

-- `header[a..b]`.
abbrev pub slice : ℕ → ℕ → List ℕ → List ℕ
slice a b bytes = take (b - a) (drop a bytes)

-- The locals that are read from the header.
pub record Header : Type 0 where
  pub magic : ℕ
  pub version : ℕ
  pub lsn : Lsn
  pub prev_checksum : List ℕ
  pub kind : ℕ
  pub payload_len : ℕ
  pub payload_checksum : List ℕ

unfoldable pub parse_header : List ℕ → Header
parse_header header = record {
  magic = from_le_bytes (slice 0 4 header);
  version = from_le_bytes (slice 4 8 header);
  lsn = from_le_bytes (slice 8 16 header);
  prev_checksum = slice 16 48 header;
  kind = from_le_bytes (slice 48 52 header);
  payload_len = from_le_bytes (slice 52 56 header);
  payload_checksum = slice 56 88 header;
}

abbrev pub at_lsn : Text → Lsn → TraceDbError
at_lsn what lsn = wal_corruption (what ++ (codes " at lsn " ++ decimal lsn))

-- `expected_prev` is the checksum of the entry before.
unfoldable pub check_header : Header → List ℕ → Result TraceDbError Unit
check_header h expected_prev = do
  ensure (h.magic == wal_magic) (wal_corruption (codes "invalid magic"))
  ensure (h.version == wal_format_version)
      (wal_corruption (codes "unsupported wal version " ++ decimal h.version))
  ensure (h.kind == 1) (wal_corruption (codes "unsupported frame kind " ++ decimal h.kind))
  ensure (text_eq h.prev_checksum expected_prev) (at_lsn (codes "prev checksum mismatch") h.lsn)
  ensure (leb h.payload_len max_payload_len) (payload_too_long h.payload_len h.lsn)

-- One round of the loop: the end of the file, a frame that is cut short, or an entry with the bytes
-- that follow it.
pub data Read (V : Type 0) : Type 0 where
  end_of_file : Read V
  torn : TornWalTail → Read V
  entry : WalEntry V → List ℕ → Read V

module _ {V : Type 0} (codec : Codec V) (encryption : Option EncryptionContext) where
  unfoldable pub decode_commit : Header → List ℕ → Result TraceDbError (CommitRecord V)
  decode_commit h payload = do
    plaintext ← decrypt_artifact_if_needed encryption (codes "wal") payload
    commit ← codec.from_slice plaintext
    ensure (text_eq commit.commit_marker (codes "COMMITTED"))
        (at_lsn (codes "missing commit marker") h.lsn)
    ensure (not (commit.epoch == 0) && ltb commit.parent_epoch commit.epoch) (
        at_lsn
          (codes "invalid parent epoch "
            ++ (decimal commit.parent_epoch ++ (codes " for epoch " ++ decimal commit.epoch)))
          h.lsn)
    ensure (text_eq commit.previous_commit_hash h.prev_checksum)
        (at_lsn (codes "previous commit hash mismatch") h.lsn)
    ok commit

  -- From the footer on.
  unfoldable pub read_footer : ℕ → Header → List ℕ → List ℕ → Result TraceDbError (Read V)
  read_footer frame_start h payload bytes =
      if ltb (length (take 4 bytes)) 4
      then ok (
          torn (record {
            offset = frame_start;
            lsn = some h.lsn;
            reason = codes "missing_commit_footer";
            expected_len = 4;
            actual_len = length (take 4 bytes);
          }))
      else (do
        ensure (from_le_bytes (take 4 bytes) == commit_footer)
            (at_lsn (codes "commit footer mismatch") h.lsn)
        commit ← decode_commit h payload
        ok (
            entry (record { lsn = h.lsn; checksum = h.payload_checksum; commit = commit })
              (drop 4 bytes)))

  -- From the payload on.
  unfoldable pub read_payload : ℕ → Header → List ℕ → Result TraceDbError (Read V)
  read_payload frame_start h bytes =
      if ltb (length (take h.payload_len bytes)) h.payload_len
      then ok (
          torn (record {
            offset = frame_start;
            lsn = some h.lsn;
            reason = codes "short_payload";
            expected_len = h.payload_len + 4;
            actual_len = length (take h.payload_len bytes);
          }))
      else (do
        ensure (text_eq (codec.checksum_bytes (take h.payload_len bytes)) h.payload_checksum)
            (at_lsn (codes "payload checksum mismatch") h.lsn)
        read_footer frame_start h (take h.payload_len bytes) (drop h.payload_len bytes))

  unfoldable pub read_frame : ℕ → List ℕ → List ℕ → Result TraceDbError (Read V)
  read_frame frame_start expected_prev bytes =
      if length (take header_len bytes) == 0
      then ok end_of_file
      else if ltb (length (take header_len bytes)) header_len
      then ok (
          torn (record {
            offset = frame_start;
            lsn = none;
            reason = codes "short_header";
            expected_len = header_len;
            actual_len = length (take header_len bytes);
          }))
      else (do
        check_header (parse_header (take header_len bytes)) expected_prev
        read_payload frame_start (parse_header (take header_len bytes)) (drop header_len bytes))

  -- `entries.last().map(checksum).unwrap_or([0; 32])`.
  abbrev pub last_checksum : List (WalEntry V) → List ℕ
  last_checksum [] = zero_checksum
  last_checksum (e ∷ []) = e.checksum
  last_checksum (e ∷ e' ∷ es) = last_checksum (e' ∷ es)

  -- The loop. A round that goes on has read a header, so the bytes of the file bound the rounds.
  unfoldable pub scan_frames : ℕ → ℕ → List (WalEntry V) → List ℕ → Result TraceDbError (WalScan V)
  scan_frames zero offset entries bytes = ok (record { entries = entries; torn_tail = none })
  scan_frames (suc fuel) offset entries bytes =
      elim (read_frame offset (last_checksum entries) bytes) [
        | err e ↦ err e
        | ok end_of_file ↦ ok (record { entries = entries; torn_tail = none })
        | ok (torn tail) ↦ ok (record { entries = entries; torn_tail = some tail })
        | ok (entry e rest) ↦
            scan_frames fuel (offset + (length bytes - length rest)) (entries ++ e ∷ []) rest
      ]

  unfoldable pub scan_file : List ℕ → Result TraceDbError (WalScan V)
  scan_file bytes = scan_frames (suc (length bytes)) 0 [] bytes
