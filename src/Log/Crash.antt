-- ===== src/Log/Crash.antt =====
-- Opening a log again, also after a crash inside a frame, for crates/tracedb-log/src/lib.rs.
use tracedb.Base.{
  ℕ, zero, suc, ◌<◌, ◌≤◌, true, Option, none, some, List, [], ◌++◌, ◌≡◌, refl, ap, sym, arith, all,
  All, length, take, take-append, ok,
}
use mathlib.Core.List.{append-nil, map}
use tracedb.Log.Commit.{CommitRecord, Codec, EncryptionContext, IsLawful, Decodes}
use tracedb.Log.Frame.{
  CommitFrame, assemble_commit_frame, max_payload_len, build_commit_frame_with_encryption,
}
use tracedb.Log.Scan.{WalEntry, WalScan, TornWalTail, scan_file}
use tracedb.Log.File.{
  Wal, lsn_after, tail_from_scan, truncate_torn_tail_if_present, open_with_encryption,
}
use tracedb.Log.ReadFrame.{length-assembled, read-cut}
use tracedb.Log.Built.{is_committed, build-frame}
use tracedb.Log.Recovery.{
  SameCommits, IsLog, previous_is, whole, empty_wal, append_all, append_all-IsLog, empty-IsLog,
}
use tracedb.Log.Rounds.{Scans-scan_file, Scans-cut}

module _ {V : Type 0} (codec : Codec V) (encryption : Option EncryptionContext) where
  -- The log opens on the file as the log `w`, whose entries are the commits.
  abbrev pub Reopens : List ℕ → Wal → List (CommitRecord V) → Type 0
  Reopens file w commits =
      (w' : Wal) × (open_with_encryption codec encryption file ≡ ok w')
      × (w'.file ≡ w.file)
      × (w'.tail ≡ w.tail)
      × (scan : WalScan V) × (scan_file codec encryption w'.file ≡ ok scan)
      × (scan.torn_tail ≡ none)
      × SameCommits scan.entries commits

  same_tail :
      (file : List ℕ) (entries : List (WalEntry V)) (tail : TornWalTail)
      → tail_from_scan file (record { entries = entries; torn_tail = some tail })
        ≡ tail_from_scan file (whole codec encryption entries)
  unfolding tail_from_scan
  same_tail file entries tail = refl

  module _ (w : Wal) (commits : List (CommitRecord V)) (h : IsLog codec encryption w commits) where
    whole_scan : scan_file codec encryption w.file ≡ ok (whole codec encryption h.entries)
    whole_scan = Scans-scan_file codec encryption w.file h.entries h.scans

    whole-Reopens : Reopens w.file w commits
    unfolding open_with_encryption truncate_torn_tail_if_present
    whole-Reopens = (
      record { file = w.file; tail = w.tail; recovery_torn_tail = none },
      rw (whole_scan, open_with_encryption) (rw h.cached refl),
      refl,
      refl,
      whole codec encryption h.entries,
      whole_scan,
      refl,
      h.same,
    )

    torn-Reopens :
        (cut : List ℕ) (tail : TornWalTail)
        → tail.offset ≡ length w.file
        → scan_file codec encryption (w.file ++ cut)
          ≡ ok (record { entries = h.entries; torn_tail = some tail })
        → Reopens (w.file ++ cut) w commits
    unfolding open_with_encryption truncate_torn_tail_if_present
    torn-Reopens cut tail at scanned =
        let kept : take tail.offset (w.file ++ cut) ≡ w.file =
          take-append tail.offset w.file cut (sym at) in
        (
          record { file = w.file; tail = w.tail; recovery_torn_tail = some tail },
          rw (scanned, open_with_encryption)
              (rw (kept, same_tail w.file h.entries tail)
                (ap (λ t. ok (record { file = w.file; tail = t; recovery_torn_tail = some tail }))
                  (sym h.cached))),
          refl,
          refl,
          whole codec encryption h.entries,
          whole_scan,
          refl,
          h.same,
        )

  -- The next frame, cut short.
  cut_frame :
      (w : Wal) (commits : List (CommitRecord V)) (h : IsLog codec encryption w commits)
      (payload : List ℕ) (n : ℕ)
      → IsLawful codec encryption
      → length payload ≤ max_payload_len
      → 0 < n
      → n
        < length (
            assemble_commit_frame
              (lsn_after w.tail.last_lsn)
              w.tail.last_checksum
              (codec.checksum_bytes payload)
              payload)
      → Reopens
          (w.file
            ++ take n (
                assemble_commit_frame
                  (lsn_after w.tail.last_lsn)
                  w.tail.last_checksum
                  (codec.checksum_bytes payload)
                  payload))
          w
          commits
  cut_frame w commits h payload n lawful short some_bytes partial =
      let digest = lawful.digests payload in
      let long =
        length-assembled codec encryption (length w.file) (lsn_after w.tail.last_lsn)
          w.tail.last_checksum payload h.lsn_fits h.checksum_len digest short in
      let (tail, reads, at) =
        read-cut codec encryption (length w.file) (lsn_after w.tail.last_lsn) w.tail.last_checksum
          payload h.lsn_fits h.checksum_len digest short n some_bytes (rw long at partial) in
      torn-Reopens w commits h _ tail at (
        Scans-cut codec encryption w.file _ h.entries tail h.scans
          (rw (previous_is codec encryption w commits h) reads))

  cut-Reopens :
      (w : Wal) (commits : List (CommitRecord V)) (c : CommitRecord V) (n : ℕ) {f : CommitFrame}
      → IsLawful codec encryption
      → IsLog codec encryption w commits
      → build_commit_frame_with_encryption codec c
          (lsn_after w.tail.last_lsn)
          w.tail.last_checksum
          encryption
        ≡ ok f
      → n < length f.frame
      → Reopens (w.file ++ take n f.frame) w commits
  cut-Reopens w commits c zero lawful h built partial =
      rw (append-nil w.file) (whole-Reopens w commits h)
  cut-Reopens w commits c (suc m) {f} lawful h built partial =
      let (payload, _, short, frame_is, _, _, _, _, _) =
        build-frame codec encryption lawful c (lsn_after w.tail.last_lsn) w.tail.last_checksum
          built in
      rw frame_is
        (cut_frame w commits h payload (suc m) lawful short (omega arith) (rw frame_is at partial))

  -- Let commits with the marker and a parent epoch below their own, each of which decodes to
  -- a commit with its epochs and its marker, be appended to the empty log, and then a crash leave any proper part of the frame of one more
  -- commit of any kind, none included, in the file. If the cipher is lawful, a digest has 32 bytes and
  -- JSON does not look encrypted, the log opens: its file and its tail are those before the crash, and
  -- the file scans, with no torn tail, to what the commits that were acknowledged decode to, in
  -- order, each but for its previous hash.
  pub append_all-crash :
      (image : CommitRecord V → CommitRecord V) (cs : List (CommitRecord V)) (c : CommitRecord V)
      (n : ℕ) {f : CommitFrame}
      → IsLawful codec encryption
      → All (Decodes codec image) cs
      → all is_committed cs ≡ true
      → build_commit_frame_with_encryption codec c
          (lsn_after (append_all codec encryption cs empty_wal).1.tail.last_lsn)
          (append_all codec encryption cs empty_wal).1.tail.last_checksum
          encryption
        ≡ ok f
      → n < length f.frame
      → Reopens
          ((append_all codec encryption cs empty_wal).1.file ++ take n f.frame)
          (append_all codec encryption cs empty_wal).1
          (map image (append_all codec encryption cs empty_wal).0)
  append_all-crash image cs c n lawful backs valids built partial =
      cut-Reopens (append_all codec encryption cs empty_wal).1
        (map image (append_all codec encryption cs empty_wal).0) c n lawful
        (append_all-IsLog codec encryption lawful image cs empty_wal []
          (empty-IsLog codec encryption lawful image) backs valids)
        built partial

  -- If the cipher is lawful, a digest has 32 bytes and JSON does not look encrypted, then after commits
  -- with the marker and a parent epoch below their own, each of which decodes to a commit with its epochs
  -- and its marker, are appended to the empty log, the log opens again with the same file and tail, and scans to what the commits
  -- that were acknowledged decode to, in order, each but for its previous hash.
  pub append_all-Reopens :
      (image : CommitRecord V → CommitRecord V) (cs : List (CommitRecord V))
      → IsLawful codec encryption
      → All (Decodes codec image) cs
      → all is_committed cs ≡ true
      → Reopens
          (append_all codec encryption cs empty_wal).1.file
          (append_all codec encryption cs empty_wal).1
          (map image (append_all codec encryption cs empty_wal).0)
  append_all-Reopens image cs lawful backs valids = whole-Reopens _ _ (
      append_all-IsLog codec encryption lawful image cs empty_wal []
        (empty-IsLog codec encryption lawful image) backs valids)
