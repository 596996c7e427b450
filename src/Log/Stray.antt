-- ===== src/Log/Stray.antt =====
-- A part of a frame that stays in the file of an open log, as after a write that failed half-way.
use tracedb.Base.{
  ℕ, suc, ◌≤◌, ◌-◌, ◌==◌, codes, true, false, Option, none, some, List, [], ◌∷◌, ◌++◌, ◌≡◌, refl,
  ap, sym, ◌∙◌, arith, all, All, length, take, length-append, length-take, ok, err,
}
use mathlib.Core.List.{append_assoc}
use tracedb.Core.Error.{TraceDbError, wal_corruption}
use tracedb.Core.Features.{from_le_bytes}
use tracedb.Log.Commit.{Lsn, CommitRecord, Codec, EncryptionContext, IsLawful, Decodes}
use tracedb.Log.Frame.{
  CommitFrame, frame_header, assemble_commit_frame, build_commit_frame_with_encryption,
}
use tracedb.Log.Scan.{
  WalEntry, TornWalTail, torn, read_frame, parse_header, check_header, last_checksum, scan_frames,
  scan_file,
}
use tracedb.Log.File.{
  Wal, WalTail, lsn_after, tail_from_scan, refreshed_tail, append_commit, written, set_tail,
}
use tracedb.Log.ReadFrame.{length-assembled}
use tracedb.Log.Built.{is_committed, build-frame}
use tracedb.Log.Recovery.{
  IsLog, len_is, whole, empty_wal, append_all, append_all-IsLog, empty-IsLog,
}
use tracedb.Log.Rounds.{Scans, Scans-cut}

-- The first byte of every frame.
abbrev pub stray : List ℕ
stray = 0x4c ∷ []

abbrev pub with_stray : Wal → Wal
with_stray w = record w { file = w.file ++ stray }

module _ {V : Type 0} (codec : Codec V) (encryption : Option EncryptionContext) where
  stray_tail : ℕ → TornWalTail
  stray_tail offset = record {
    offset = offset;
    lsn = none;
    reason = codes "short_header";
    expected_len = 88;
    actual_len = 1;
  }

  read-stray :
      (offset : ℕ) (previous : List ℕ)
      → read_frame codec encryption offset previous stray ≡ ok (torn (stray_tail offset))
  unfolding read_frame stray_tail
  read-stray offset previous = refl

  -- The byte shifts the magic number of the frame after it.
  read-shifted :
      (offset : ℕ) (expected : List ℕ) (lsn : Lsn) (previous checksum payload : List ℕ)
      → 88 ≤ length (assemble_commit_frame lsn previous checksum payload)
      → read_frame codec encryption offset expected
          (0x4c ∷ assemble_commit_frame lsn previous checksum payload)
        ≡ err (wal_corruption (codes "invalid magic"))
  unfolding read_frame parse_header check_header from_le_bytes assemble_commit_frame frame_header
  read-shifted offset expected lsn previous checksum payload long =
      let taken : length (take 88 (0x4c ∷ assemble_commit_frame lsn previous checksum payload))
          ≡ 88 =
        length-take 88 (0x4c ∷ assemble_commit_frame lsn previous checksum payload)
          (omega (arith, long)) in
      ground (arith, taken)

  err_round :
      (fuel offset : ℕ) (entries : List (WalEntry V)) (bytes : List ℕ) {e : TraceDbError}
      → read_frame codec encryption offset (last_checksum codec encryption entries) bytes ≡ err e
      → scan_frames codec encryption (suc fuel) offset entries bytes ≡ err e
  unfolding scan_frames
  err_round fuel offset entries bytes reads = rw (reads, scan_frames) refl

  Scans-err :
      (bytes more : List ℕ) (entries : List (WalEntry V)) {e : TraceDbError}
      → Scans codec encryption bytes entries
      → read_frame codec encryption (length bytes) (last_checksum codec encryption entries) more
        ≡ err e
      → scan_file codec encryption (bytes ++ more) ≡ err e
  unfolding scan_file
  Scans-err bytes more entries {e} h reads =
      h.goes_on (suc (length (bytes ++ more))) (suc (length (bytes ++ more) - length entries)) more
        (omega (arith, h.bounded, length-append bytes more))
      ∙ err_round (length (bytes ++ more) - length entries) (length bytes) entries more {e = e}
          reads

  -- Another scan of the same entries sets only the length of the file.
  other_tail :
      (file file' : List ℕ) (entries : List (WalEntry V)) (t : Option TornWalTail)
      → tail_from_scan file' (record { entries = entries; torn_tail = t })
        ≡ record (tail_from_scan file (whole codec encryption entries)) { file_len = length file' }
  unfolding tail_from_scan
  other_tail file file' [] t = refl
  other_tail file file' (a ∷ []) t = refl
  other_tail file file' (a ∷ b ∷ entries) t = other_tail file file' (b ∷ entries) t

  -- The tail that the append works with.
  abbrev stray_cache : Wal → WalTail
  stray_cache w = record w.tail { file_len = length (w.file ++ stray) }

  module _ (w : Wal) (commits : List (CommitRecord V)) (h : IsLog codec encryption w commits) where
    stray_scan :
        scan_file codec encryption (w.file ++ stray)
        ≡ ok (record { entries = h.entries; torn_tail = some (stray_tail (length w.file)) })
    stray_scan =
        Scans-cut codec encryption w.file stray h.entries (stray_tail (length w.file)) h.scans
          (read-stray (length w.file) (last_checksum codec encryption h.entries))

    stray_refreshed : refreshed_tail codec encryption (with_stray w) ≡ ok (stray_cache w)
    unfolding refreshed_tail
    stray_refreshed =
        let longer : (length (w.file ++ stray) == w.tail.file_len) ≡ false =
          ground (arith, len_is codec encryption w commits h, length-append w.file stray) in
        rw (longer, refreshed_tail)
          (rw (stray_scan, refreshed_tail)
            (ap (λ (t : WalTail). ok t)
              (other_tail w.file (w.file ++ stray) h.entries (some (stray_tail (length w.file)))
                ∙ ap (λ (t : WalTail). record t { file_len = length (w.file ++ stray) })
                    (sym h.cached))))

    stray_appended :
        (c : CommitRecord V) {f : CommitFrame}
        → build_commit_frame_with_encryption codec c
            (lsn_after w.tail.last_lsn)
            w.tail.last_checksum
            encryption
          ≡ ok f
        → append_commit codec encryption c (with_stray w) ≡ (
          ok (lsn_after w.tail.last_lsn),
          written (lsn_after w.tail.last_lsn) f (set_tail (stray_cache w) (with_stray w)),
        )
    unfolding append_commit
    stray_appended c built = rw (stray_refreshed, append_commit) (rw (built, append_commit) refl)

    stray-append :
        (c : CommitRecord V) {f : CommitFrame}
        → IsLawful codec encryption
        → build_commit_frame_with_encryption codec c
            (lsn_after w.tail.last_lsn)
            w.tail.last_checksum
            encryption
          ≡ ok f
        → ((append_commit codec encryption c (with_stray w)).0 ≡ ok (lsn_after w.tail.last_lsn))
          × (scan_file codec encryption (append_commit codec encryption c (with_stray w)).1.file
              ≡ err (wal_corruption (codes "invalid magic")))
    stray-append c {f} lawful built =
        let (payload, _, short, frame_is, _, _, _, _, _) =
          build-frame codec encryption lawful c (lsn_after w.tail.last_lsn) w.tail.last_checksum
            built in
        let long =
          length-assembled codec encryption (length w.file) (lsn_after w.tail.last_lsn)
            w.tail.last_checksum payload h.lsn_fits h.checksum_len (lawful.digests payload) short in
        let shifted =
          read-shifted (length w.file) (last_checksum codec encryption h.entries)
            (lsn_after w.tail.last_lsn) w.tail.last_checksum (codec.checksum_bytes payload) payload
            (rw long (omega arith)) in
        rw (stray_appended c built) (
          refl,
          rw (append_assoc w.file stray f.frame, frame_is)
              (Scans-err w.file _ h.entries h.scans shifted),
        )

  -- Let commits with the marker and a parent epoch below their own, each of which decodes to a commit
  -- with its epochs and its marker, be appended to the empty log, then the first byte of a frame be left in the file of the open log, as
  -- by a write that failed, and then one more commit, of any kind, that has a frame be appended. If the
  -- cipher is lawful, a digest has 32 bytes and JSON does not look encrypted, the append is
  -- acknowledged, and the scan of the whole file is then the error `invalid magic`.
  pub append_all-stray :
      (image : CommitRecord V → CommitRecord V) (cs : List (CommitRecord V)) (c : CommitRecord V)
      {f : CommitFrame}
      → IsLawful codec encryption
      → All (Decodes codec image) cs
      → all is_committed cs ≡ true
      → build_commit_frame_with_encryption codec c
          (lsn_after (append_all codec encryption cs empty_wal).1.tail.last_lsn)
          (append_all codec encryption cs empty_wal).1.tail.last_checksum
          encryption
        ≡ ok f
      → ((append_commit codec encryption c
            (with_stray (append_all codec encryption cs empty_wal).1)).0
          ≡ ok (lsn_after (append_all codec encryption cs empty_wal).1.tail.last_lsn))
        × (scan_file codec encryption
              (append_commit codec encryption c
                (with_stray (append_all codec encryption cs empty_wal).1)).1.file
            ≡ err (wal_corruption (codes "invalid magic")))
  append_all-stray image cs c lawful backs valids built =
      stray-append _ _
        (append_all-IsLog codec encryption lawful image cs empty_wal []
          (empty-IsLog codec encryption lawful image) backs valids)
        c lawful built
