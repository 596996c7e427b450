-- ===== src/Log/Recovery.antt =====
-- The invariant of a log that only `append_commit` wrote, for crates/tracedb-log/src/lib.rs.
use tracedb.Base.{
  ℕ, ◌<◌, ◌^◌, ◌+◌, true, Option, none, some, List, [], ◌∷◌, ◌++◌, ◌≡◌, refl, ap, sym, ◌∙◌, arith,
  length, length-append, is_ok, if◌then◌else◌, all, All, &&_iff, ok, err, Result-cases, inl, inr,
  map, ◌⊎◌,
}
use mathlib.Core.List.{append_assoc, append-nil, map-append}
use tracedb.Core.Error.{TraceDbError}
use tracedb.Log.Commit.{CommitRecord, Codec, EncryptionContext, IsLawful, Decodes, zero_checksum}
use tracedb.Log.Frame.{CommitFrame, build_commit_frame_with_encryption, prepare_commit_for_frame}
use tracedb.Log.Scan.{WalEntry, WalScan, last_checksum}
use tracedb.Log.File.{
  Wal, WalTail, last_entry, tail_from_scan, refreshed_tail, lsn_after, written, append_commit,
}
use tracedb.Log.ReadFrame.{length-assembled, read-assembled}
use tracedb.Log.Built.{is_committed, build_reads}
use tracedb.Log.Rounds.{Scans, empty-Scans, append-Scans}

module _ {V : Type 0} where
  -- The commit, but for the hash that the frame sets.
  abbrev pub forget_hash : CommitRecord V → CommitRecord V
  forget_hash c = record c { previous_commit_hash = zero_checksum }

  -- The entries are those of the commits, in order.
  abbrev pub SameCommits : List (WalEntry V) → List (CommitRecord V) → Type 0
  SameCommits entries commits = map (λ e. forget_hash e.commit) entries ≡ map forget_hash commits

  last_entry-append :
      (entries : List (WalEntry V)) (e : WalEntry V) → last_entry (entries ++ e ∷ []) ≡ some e
  last_entry-append [] e = refl
  last_entry-append (a ∷ []) e = refl
  last_entry-append (a ∷ b ∷ entries) e = last_entry-append (b ∷ entries) e

abbrev pub empty_wal : Wal
empty_wal = record {
  file = [];
  tail = record { last_lsn = none; last_epoch = none; last_checksum = zero_checksum; file_len = 0 };
  recovery_torn_tail = none;
}

module _ {V : Type 0} (codec : Codec V) (encryption : Option EncryptionContext) where
  -- The commits that were acknowledged, and the log after all of them.
  abbrev pub append_all : List (CommitRecord V) → Wal → List (CommitRecord V) × Wal
  append_all [] w = ([], w)
  append_all (c ∷ cs) w =
      let r = append_commit codec encryption c w in
      let rest = append_all cs r.1 in ((if is_ok r.0 then c ∷ rest.0 else rest.0), rest.1)

module _ {V : Type 0} (codec : Codec V) (encryption : Option EncryptionContext) where
  abbrev pub whole : List (WalEntry V) → WalScan V
  whole entries = record { entries = entries; torn_tail = none }

  last_checksum-append :
      (entries : List (WalEntry V)) (e : WalEntry V)
      → last_checksum codec encryption (entries ++ e ∷ []) ≡ e.checksum
  last_checksum-append [] e = refl
  last_checksum-append (a ∷ []) e = refl
  last_checksum-append (a ∷ b ∷ entries) e = last_checksum-append (b ∷ entries) e

  tail-last_checksum :
      (file : List ℕ) (entries : List (WalEntry V))
      → (tail_from_scan file (whole entries)).last_checksum ≡ last_checksum codec encryption entries
  unfolding tail_from_scan
  tail-last_checksum file [] = refl
  tail-last_checksum file (a ∷ []) = refl
  tail-last_checksum file (a ∷ b ∷ entries) = tail-last_checksum file (b ∷ entries)

  scanned_len :
      (file : List ℕ) (entries : List (WalEntry V))
      → (tail_from_scan file (whole entries)).file_len ≡ length file
  unfolding tail_from_scan
  scanned_len file [] = refl
  scanned_len file (a ∷ []) = refl
  scanned_len file (a ∷ b ∷ entries) = scanned_len file (b ∷ entries)

  -- The tail of a scan that ends with the entry.
  scanned_tail :
      (file : List ℕ) (entries : List (WalEntry V)) (e : WalEntry V)
      → tail_from_scan file (whole (entries ++ e ∷ [])) ≡ record {
        last_lsn = some e.lsn;
        last_epoch = some e.commit.epoch;
        last_checksum = e.checksum;
        file_len = length file;
      }
  unfolding tail_from_scan
  scanned_tail file entries e = rw (last_entry-append entries e, tail_from_scan) refl

  -- The log holds exactly the commits, and its cached tail is that of its file.
  pub record IsLog (w : Wal) (commits : List (CommitRecord V)) : Type 0 where
    pub entries : List (WalEntry V)
    pub scans : Scans codec encryption w.file entries
    pub same : SameCommits entries commits
    pub cached : w.tail ≡ tail_from_scan w.file (whole entries)
    pub lsn_fits : lsn_after w.tail.last_lsn < 2 ^ 64
    pub checksum_len : length w.tail.last_checksum ≡ 32

  pub previous_is :
      (w : Wal) (commits : List (CommitRecord V)) (h : IsLog w commits)
      → last_checksum codec encryption h.entries ≡ w.tail.last_checksum
  previous_is w commits h =
      sym (ap (λ (t : WalTail). t.last_checksum) h.cached ∙ tail-last_checksum w.file h.entries)

  pub len_is :
      (w : Wal) (commits : List (CommitRecord V)) (h : IsLog w commits)
      → w.tail.file_len ≡ length w.file
  len_is w commits h = ap (λ (t : WalTail). t.file_len) h.cached ∙ scanned_len w.file h.entries

  module _ (lawful : IsLawful codec encryption) (image : CommitRecord V → CommitRecord V) where
    pub append-IsLog :
        (w : Wal) (commits : List (CommitRecord V)) (c : CommitRecord V) {f : CommitFrame}
        → IsLog w commits
        → Decodes codec image c
        → is_committed c ≡ true
        → build_commit_frame_with_encryption codec c
            (lsn_after w.tail.last_lsn)
            w.tail.last_checksum
            encryption
          ≡ ok f
        → IsLog (written (lsn_after w.tail.last_lsn) f w) (commits ++ image c ∷ [])
    append-IsLog w commits c {f} h back valid built =
        let (payload, short, frame_is, checksum_is, epoch_is, bytes_are, decodes) =
          build_reads codec encryption lawful c (image c) (lsn_after w.tail.last_lsn)
            w.tail.last_checksum back valid built in
        let total : w.tail.file_len + f.frame_bytes ≡ length (w.file ++ f.frame) =
          omega (arith, len_is w commits h, bytes_are, length-append w.file f.frame) in
        record {
          entries =
              h.entries
              ++ record {
                lsn = lsn_after w.tail.last_lsn;
                checksum = codec.checksum_bytes payload;
                commit = prepare_commit_for_frame (image c) w.tail.last_checksum;
              }
                ∷ [];
          scans = rw frame_is (
              append-Scans codec encryption w.file _ h.entries _
                (rw
                  (length-assembled codec encryption (length w.file) (lsn_after w.tail.last_lsn)
                    w.tail.last_checksum payload h.lsn_fits h.checksum_len (lawful.digests payload)
                    short)
                  (omega arith))
                h.scans
                (λ rest. rw (previous_is w commits h) (
                  read-assembled codec encryption (length w.file) (lsn_after w.tail.last_lsn)
                    w.tail.last_checksum payload h.lsn_fits h.checksum_len (lawful.digests payload)
                    short rest decodes)));
          same = rw (map-append, map-append, h.same) refl;
          cached =
              rw
                (
                  scanned_tail (w.file ++ f.frame) h.entries (record {
                    lsn = lsn_after w.tail.last_lsn;
                    checksum = codec.checksum_bytes payload;
                    commit = prepare_commit_for_frame (image c) w.tail.last_checksum;
                  }),
                  checksum_is,
                  epoch_is,
                  back.same_epoch,
                  total,
                )
                refl;
          lsn_fits = omega arith;
          checksum_len = rw checksum_is (lawful.digests payload);
        }

    pub fresh_tail :
        (w : Wal) (commits : List (CommitRecord V))
        → IsLog w commits
        → refreshed_tail codec encryption w ≡ ok w.tail
    unfolding refreshed_tail
    fresh_tail w commits h = ground (arith, len_is w commits h)

    pub append_commit-cases :
        (w : Wal) (commits : List (CommitRecord V)) (c : CommitRecord V)
        → IsLog w commits
        → ((e : TraceDbError) × (append_commit codec encryption c w ≡ (err e, w)))
          ⊎ ((f : CommitFrame) × (build_commit_frame_with_encryption codec c
                  (lsn_after w.tail.last_lsn)
                  w.tail.last_checksum
                  encryption
                ≡ ok f)
              × (append_commit codec encryption c w
                  ≡ (ok (lsn_after w.tail.last_lsn), written (lsn_after w.tail.last_lsn) f w)))
    unfolding append_commit
    append_commit-cases w commits c h =
        elim (Result-cases (
          build_commit_frame_with_encryption codec c (lsn_after w.tail.last_lsn)
            w.tail.last_checksum encryption)) [
              | inl (e, p) ↦
                  inl (e, rw (fresh_tail w commits h, append_commit) (rw (p, append_commit) refl))
              | inr (f, p) ↦
                  inr
                    (f, p, rw (fresh_tail w commits h, append_commit) (rw (p, append_commit) refl))
            ]

    pub append_all-IsLog :
        (cs : List (CommitRecord V)) (w : Wal) (commits : List (CommitRecord V))
        → IsLog w commits
        → All (Decodes codec image) cs
        → all is_committed cs ≡ true
        → IsLog
            (append_all codec encryption cs w).1
            (commits ++ map image (append_all codec encryption cs w).0)
    append_all-IsLog [] w commits h back valid = rw (append-nil commits) h
    append_all-IsLog (c ∷ cs) w commits h (back, backs) valid =
        let (here, rest) = (&&_iff (is_committed c) (all is_committed cs)).0 valid in
        elim (append_commit-cases w commits c h) [
          | inl (e, p) ↦ rw p (append_all-IsLog cs w commits h backs rest)
          | inr (f, built, p) ↦ rw p (
              rw
                (append_assoc commits (image c ∷ []) (
                  map image
                    (append_all codec encryption cs (written (lsn_after w.tail.last_lsn) f w)).0))
                at
                (append_all-IsLog cs (written (lsn_after w.tail.last_lsn) f w)
                  (commits ++ image c ∷ []) (append-IsLog w commits c h back here built) backs
                  rest))
        ]

    pub empty-IsLog : IsLog empty_wal []
    unfolding tail_from_scan
    empty-IsLog = record {
      entries = [];
      scans = empty-Scans codec encryption;
      same = refl;
      cached = refl;
      lsn_fits = omega arith;
      checksum_len = refl;
    }
