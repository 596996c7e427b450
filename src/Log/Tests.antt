-- ===== src/Log/Tests.antt =====
-- A codec of the commits that hold nothing, and logs of such commits.
use tracedb.Base.{
  map, ℕ, ◌-◌, ◌==◌, ◌&&◌, Text, codes, text_eq, text_eq_iff, is_empty, is_none, Bool, true, false,
  Option, none, some, List, [], ◌∷◌, ◌++◌, ◌≡◌, refl, sym, arith, length, take, if◌then◌else◌,
  Bool-cases, inl, inr, Result, ok, err,
}
use tracedb.Core.Error.{TraceDbError, json, wal_corruption}
use tracedb.Log.Commit.{
  CommitRecord, Codec, IsLawful, Decodes, empty_commit, zero_checksum, is_encrypted_artifact,
}
use tracedb.Log.Frame.{
  CommitFrame, frame_header, assemble_commit_frame, build_commit_frame_with_encryption,
}
use tracedb.Log.File.{append_commit, Wal, lsn_after}
use tracedb.Log.Recovery.{empty_wal, append_all}
use tracedb.Log.Stray.{with_stray, append_all-stray}
use tracedb.Log.Scan.{scan_file, scan_frames}
use tracedb.Log.Fuel.{scan_frames-fuel}
use tracedb.Log.Crash.{Reopens, append_all-crash, append_all-Reopens}

-- The empty commit of an epoch, after a commit with the hash.
abbrev rebuilt : ℕ → List ℕ → CommitRecord Unit
rebuilt epoch hash = record (empty_commit {V = Unit} 1 epoch) { previous_commit_hash = hash }

abbrev fits : CommitRecord Unit → Bool
fits c =
    text_eq c.database_id (codes "local")
    && (text_eq c.branch_id (codes "main")
        && (c.transaction_id == 1
            && (c.parent_epoch == c.epoch - 1
                && (is_none c.idempotency_key
                    && (c.schema_epoch == c.epoch
                        && (c.policy_epoch == c.epoch
                            && (is_empty c.schema_changes
                                && (is_empty c.replacements
                                    && (is_empty c.mutations
                                        && (is_empty c.deletions
                                            && (is_empty c.feature_invalidations
                                                && (is_empty c.module_events
                                                    && (is_empty c.idempotency_receipts
                                                        && (is_empty c.job_events
                                                            && text_eq c.commit_marker
                                                            (codes "COMMITTED")))))))))))))))

fits-rebuilt : (c : CommitRecord Unit) → fits c ≡ true → c ≡ rebuilt c.epoch c.previous_commit_hash
fits-rebuilt c h = ground (
  arith,
  text_eq_iff c.database_id (codes "local"),
  text_eq_iff c.branch_id (codes "main"),
  text_eq_iff c.commit_marker (codes "COMMITTED"),
)

abbrev decode : List ℕ → Result TraceDbError (CommitRecord Unit)
decode (_ ∷ epoch ∷ hash) = ok (rebuilt epoch hash)
decode _ = err json

abbrev codec : Codec Unit
codec = record {
  to_vec = λ c. if fits c then ok (0 ∷ c.epoch ∷ c.previous_commit_hash) else err json;
  from_slice = decode;
  checksum_bytes = λ bytes. zero_checksum;
}

decode-encode :
    (c : CommitRecord Unit) (bytes : List ℕ) → codec.to_vec c ≡ ok bytes → decode bytes ≡ ok c
decode-encode c bytes h = elim (Bool-cases (fits c)) [
  | inl good ↦
      let is : bytes ≡ 0 ∷ c.epoch ∷ c.previous_commit_hash = ground arith in
      rw is (rw (← fits-rebuilt c good) refl)
  | inr bad ↦ absurd (ground arith)
]

codec-IsLawful : IsLawful codec none
unfolding tracedb.Base.starts_with
codec-IsLawful = record {
  plain = λ c bytes h. not_sealed c bytes h;
  digests = λ bytes. refl;
  sealed = λ context bytes body h. absurd (cc);
  decrypts = λ context bytes body h. absurd (cc);
}
  where
    not_sealed :
        (c : CommitRecord Unit) (bytes : List ℕ)
        → codec.to_vec c ≡ ok bytes
        → is_encrypted_artifact bytes ≡ false
    not_sealed c bytes h = elim (Bool-cases (fits c)) [
      | inl good ↦
          let is : bytes ≡ 0 ∷ c.epoch ∷ c.previous_commit_hash = ground arith in rw is refl
      | inr bad ↦ absurd (ground arith)
    ]

abbrev first : CommitRecord Unit
first = empty_commit 1 1

first-Decodes : Decodes codec (λ c. c) first
first-Decodes = record {
  read = λ hash bytes h. decode-encode (record first { previous_commit_hash = hash }) bytes h;
  same_epoch = refl;
  same_parent = refl;
  same_marker = refl;
}

abbrev second : CommitRecord Unit
second = empty_commit 1 2

-- The log with the first commit.
abbrev logged : Wal
logged = (append_all codec none (first ∷ []) empty_wal).1

abbrev second_payload : List ℕ
second_payload = 0 ∷ 2 ∷ zero_checksum

abbrev second_frame : CommitFrame
second_frame = record {
  epoch = 2;
  payload_checksum = zero_checksum;
  payload_bytes = 34;
  frame_bytes = 126;
  frame = assemble_commit_frame 2 zero_checksum zero_checksum second_payload;
}

second_built :
    build_commit_frame_with_encryption codec second
      (lsn_after logged.tail.last_lsn)
      logged.tail.last_checksum
      none
    ≡ ok second_frame
unfolding build_commit_frame_with_encryption tracedb.Log.Frame.serialize_commit_payload_for_frame
    text_eq tracedb.Log.File.append_commit tracedb.Log.File.refreshed_tail
    tracedb.Log.Frame.encrypt_payload_if_needed assemble_commit_frame frame_header
second_built = refl

append_all-crash_example :
    Reopens codec none
      (logged.file ++ take 90 second_frame.frame)
      logged
      (map (λ c. c) (append_all codec none (first ∷ []) empty_wal).0)
unfolding text_eq
append_all-crash_example =
    append_all-crash codec none (λ c. c) (first ∷ []) second 90 codec-IsLawful (first-Decodes, tt)
      refl second_built (unfold assemble_commit_frame in unfold frame_header in omega arith)

append_all-Reopens_example :
    Reopens codec none logged.file logged
      (map (λ c. c) (append_all codec none (first ∷ []) empty_wal).0)
unfolding text_eq
append_all-Reopens_example =
    append_all-Reopens codec none (λ c. c) (first ∷ []) codec-IsLawful (first-Decodes, tt) refl

append_all-stray_example :
    ((append_commit codec none second (with_stray logged)).0 ≡ ok (lsn_after logged.tail.last_lsn))
    × (scan_file codec none (append_commit codec none second (with_stray logged)).1.file
        ≡ err (wal_corruption (codes "invalid magic")))
unfolding text_eq
append_all-stray_example =
    append_all-stray codec none (λ c. c) (first ∷ []) second codec-IsLawful (first-Decodes, tt) refl
      second_built

scan_frames-fuel_example :
    scan_frames codec none 200 0 [] second_frame.frame
    ≡ scan_frames codec none 201 0 [] second_frame.frame
scan_frames-fuel_example =
    scan_frames-fuel codec none 200 0 [] second_frame.frame
      (unfold assemble_commit_frame in unfold frame_header in omega arith)
