-- ===== src/Log/File.antt =====
-- crates/tracedb-log/src/lib.rs: `Wal`, its file and its cached tail. The operating system's errors
-- and the lock file are left out: a write appends its bytes, and a crash cuts it short.
use tracedb.Base.{
  ℕ, ◌+◌, ◌==◌, Option, none, some, List, [], ◌∷◌, ◌++◌, length, take, is_none, if◌then◌else◌,
  Result, ok, err,
}
use tracedb.Base.Exec.{Exec, pure, lift, gets, modify, ◌>>=◌, ◌>>◌}
use tracedb.Core.Error.{TraceDbError}
use tracedb.Core.Types.{Epoch}
use tracedb.Log.Commit.{Lsn, next_lsn, CommitRecord, Codec, EncryptionContext, zero_checksum}
use tracedb.Log.Frame.{CommitFrame, build_commit_frame_with_encryption}
use tracedb.Log.Scan.{WalEntry, WalScan, TornWalTail, scan_file}

pub record WalTail : Type 0 where
  pub last_lsn : Option Lsn
  pub last_epoch : Option Epoch
  pub last_checksum : List ℕ
  pub file_len : ℕ

-- The log with the bytes of its file.
pub record Wal : Type 0 where
  pub file : List ℕ
  pub tail : WalTail
  pub recovery_torn_tail : Option TornWalTail

abbrev pub set_tail : WalTail → Wal → Wal
set_tail tail w = record w { tail = tail }

-- `file.write_all(&frame.frame)`, then the update of the tail.
abbrev pub written : Lsn → CommitFrame → Wal → Wal
written lsn frame w = record w {
  file = w.file ++ frame.frame;
  tail = record {
    last_lsn = some lsn;
    last_epoch = some frame.epoch;
    last_checksum = frame.payload_checksum;
    file_len = w.tail.file_len + frame.frame_bytes;
  };
}

abbrev pub lsn_after : Option Lsn → Lsn
lsn_after none = 1
lsn_after (some last_lsn) = next_lsn last_lsn

module _ {V : Type 0} where
  abbrev pub last_entry : List (WalEntry V) → Option (WalEntry V)
  last_entry [] = none
  last_entry (e ∷ []) = some e
  last_entry (e ∷ e' ∷ es) = last_entry (e' ∷ es)

  unfoldable pub tail_from_scan : List ℕ → WalScan V → WalTail
  tail_from_scan file scan = elim (last_entry scan.entries) [
    | none ↦ record {
      last_lsn = none;
      last_epoch = none;
      last_checksum = zero_checksum;
      file_len = length file;
    }
    | some last ↦ record {
      last_lsn = some last.lsn;
      last_epoch = some last.commit.epoch;
      last_checksum = last.checksum;
      file_len = length file;
    }
  ]

  -- `set_len(offset)` where the scan met a torn tail.
  unfoldable pub truncate_torn_tail_if_present : List ℕ → WalScan V → List ℕ
  truncate_torn_tail_if_present file scan = elim scan.torn_tail [
    | none ↦ file
    | some torn_tail ↦ take torn_tail.offset file
  ]

module _ {V : Type 0} (codec : Codec V) (encryption : Option EncryptionContext) where
  -- On the bytes that are found, none for a file that is new.
  unfoldable pub open_with_encryption : List ℕ → Result TraceDbError Wal
  open_with_encryption file = elim (scan_file codec encryption file) [
    | err e ↦ err e
    | ok scan ↦
        let kept = truncate_torn_tail_if_present file scan in
        ok (record {
          file = kept;
          tail = tail_from_scan kept scan;
          recovery_torn_tail = scan.torn_tail;
        })
  ]

  -- The cached tail, scanned again where the file has another length.
  unfoldable pub refreshed_tail : Wal → Result TraceDbError WalTail
  refreshed_tail w =
      if length w.file == w.tail.file_len
      then ok w.tail
      else elim (scan_file codec encryption w.file) [
        | err e ↦ err e
        | ok scan ↦ ok (tail_from_scan w.file scan)
      ]

  unfoldable pub append_commit : CommitRecord V → Exec Wal TraceDbError Lsn
  append_commit commit = do
    found ← gets refreshed_tail
    tail ← lift found
    modify (set_tail tail)
    let lsn = lsn_after tail.last_lsn
    frame ← lift (build_commit_frame_with_encryption codec commit lsn tail.last_checksum encryption)
    modify (written lsn frame)
    pure lsn

  unfoldable pub last_commit_epoch : Exec Wal TraceDbError (Option Epoch)
  last_commit_epoch = do
    found ← gets refreshed_tail
    tail ← lift found
    modify (set_tail tail)
    pure tail.last_epoch

  unfoldable pub scan_with_metadata : Wal → Result TraceDbError (WalScan V)
  scan_with_metadata w = elim (scan_file codec encryption w.file) [
    | err e ↦ err e
    | ok scan ↦
        ok (
          if is_none scan.torn_tail then record scan { torn_tail = w.recovery_torn_tail } else scan)
  ]
