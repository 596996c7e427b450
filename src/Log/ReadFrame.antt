-- ===== src/Log/ReadFrame.antt =====
-- Lemmas on one round of `scan_file` of crates/tracedb-log/src/lib.rs.
use tracedb.Base.{
  ℕ, ◌<◌, ◌≤◌, ◌^◌, ◌+◌, ◌-◌, ltb, text_eq_refl, codes, Option, none, some, List, ◌++◌, ◌≡◌, refl,
  arith, length, take, drop, take-append, drop-append, take-append_left, take-append_right,
  length-append, length-take, take_all, Bool-cases, inl, inr, ok,
}
use mathlib.Core.List.{append_assoc}
use tracedb.Core.Features.{from_le_bytes}
use tracedb.Log.Commit.{Lsn, CommitRecord, Codec, EncryptionContext}
use tracedb.Log.Frame.{
  to_le_bytes, frame_header, assemble_commit_frame, max_payload_len, commit_footer,
}
use tracedb.Log.Scan.{
  Header, entry, torn, TornWalTail, parse_header, check_header, decode_commit, read_footer,
  read_payload, read_frame,
}
use tracedb.Log.Bytes.{header_of, length-frame_header, parse-frame_header}

module _ {V : Type 0} (codec : Codec V) (encryption : Option EncryptionContext) (offset : ℕ)
    (lsn : Lsn) (previous payload : List ℕ) (small : lsn < 2 ^ 64)
    (previous_len : length previous ≡ 32) (digest_len : length (codec.checksum_bytes payload) ≡ 32)
    (short : length payload ≤ max_payload_len) where
  abbrev header_bytes : List ℕ
  header_bytes = frame_header lsn previous (codec.checksum_bytes payload) (length payload)

  abbrev header : Header
  header = header_of lsn previous (codec.checksum_bytes payload) (length payload)

  header_passes : check_header header previous ≡ ok tt
  unfolding check_header
  header_passes = ground (arith, text_eq_refl previous)

  whole_header :
      (rest : List ℕ)
      → read_frame codec encryption offset previous (header_bytes ++ rest)
        ≡ read_payload codec encryption offset header rest
  unfolding read_frame
  whole_header rest =
      let len_is =
        length-frame_header lsn previous (codec.checksum_bytes payload) (length payload)
          previous_len digest_len in
      let taken : take 88 (header_bytes ++ rest) ≡ header_bytes =
        take-append 88 header_bytes rest len_is in
      let dropped : drop 88 (header_bytes ++ rest) ≡ rest =
        drop-append 88 header_bytes rest len_is in
      let parsed : parse_header header_bytes ≡ header =
        parse-frame_header lsn previous (codec.checksum_bytes payload) (length payload) previous_len
          digest_len small (omega (arith, short)) in
      simp (taken, dropped, len_is, parsed, header_passes)

  whole_payload :
      (rest : List ℕ)
      → read_payload codec encryption offset header (payload ++ rest)
        ≡ read_footer codec encryption offset header payload rest
  unfolding read_payload
  whole_payload rest =
      let taken : take (length payload) (payload ++ rest) ≡ payload =
        take-append (length payload) payload rest refl in
      let dropped : drop (length payload) (payload ++ rest) ≡ rest =
        drop-append (length payload) payload rest refl in
      rw (taken, dropped) (ground (arith, text_eq_refl (codec.checksum_bytes payload)))

  pub length-assembled :
      length (assemble_commit_frame lsn previous (codec.checksum_bytes payload) payload)
      ≡ 88 + (length payload + 4)
  unfolding assemble_commit_frame
  length-assembled = omega (
    arith,
    length-append header_bytes (payload ++ to_le_bytes 4 commit_footer),
    length-append payload (to_le_bytes 4 commit_footer),
    length-frame_header lsn previous (codec.checksum_bytes payload) (length payload) previous_len
        digest_len,
  )

  -- A whole frame.
  pub read-assembled :
      (rest : List ℕ) {commit : CommitRecord V}
      → decode_commit codec encryption header payload ≡ ok commit
      → read_frame codec encryption offset previous
          (assemble_commit_frame lsn previous (codec.checksum_bytes payload) payload ++ rest)
        ≡ ok (
            entry
              (record { lsn = lsn; checksum = codec.checksum_bytes payload; commit = commit })
              rest)
  unfolding assemble_commit_frame read_footer from_le_bytes
  read-assembled rest {commit} decoded = simp (append_assoc, whole_header, whole_payload, decoded)

  -- What a cut footer gives.
  short_footer :
      (rest : List ℕ)
      → length rest < 4
      → (tail : TornWalTail) × (read_footer codec encryption offset header payload rest
          ≡ ok (torn tail))
        × (tail.offset ≡ offset)
  unfolding read_footer
  short_footer rest h =
      let all : length (take 4 rest) ≡ length rest = rw (take_all 4 rest (omega (arith, h))) refl in
      (
        record {
          offset = offset;
          lsn = some lsn;
          reason = codes "missing_commit_footer";
          expected_len = 4;
          actual_len = length (take 4 rest);
        },
        ground arith,
        refl,
      )

  -- What a cut payload gives.
  short_payload :
      (rest : List ℕ)
      → length rest < length payload
      → (tail : TornWalTail) × (read_payload codec encryption offset header rest ≡ ok (torn tail))
        × (tail.offset ≡ offset)
  unfolding read_payload
  short_payload rest h =
      let all : length (take (length payload) rest) ≡ length rest =
        rw (take_all (length payload) rest (omega (arith, h))) refl in
      (
        record {
          offset = offset;
          lsn = some lsn;
          reason = codes "short_payload";
          expected_len = length payload + 4;
          actual_len = length (take (length payload) rest);
        },
        ground arith,
        refl,
      )

  -- What a cut header gives.
  short_header :
      (bytes : List ℕ)
      → 0 < length bytes
      → length bytes < 88
      → (tail : TornWalTail) × (read_frame codec encryption offset previous bytes ≡ ok (torn tail))
        × (tail.offset ≡ offset)
  unfolding read_frame
  short_header bytes some_bytes h =
      let all : length (take 88 bytes) ≡ length bytes =
        rw (take_all 88 bytes (omega (arith, h))) refl in
      (
        record {
          offset = offset;
          lsn = none;
          reason = codes "short_header";
          expected_len = 88;
          actual_len = length (take 88 bytes);
        },
        ground arith,
        refl,
      )

  -- The bytes after the header, cut short.
  cut_body :
      (m : ℕ)
      → m < length payload + 4
      → (tail : TornWalTail) × (read_payload codec encryption offset header
            (take m (payload ++ to_le_bytes 4 commit_footer))
          ≡ ok (torn tail))
        × (tail.offset ≡ offset)
  cut_body m h = elim (Bool-cases (ltb m (length payload))) [
    | inl in_payload ↦
        let cut = take-append_left m payload (to_le_bytes 4 commit_footer) (ground arith) in
        rw cut (
          short_payload (take m payload) (rw (length-take m payload (ground arith)) (ground arith)))
    | inr in_footer ↦
        let q = m - length payload in
        let cut = take-append_right m q payload (to_le_bytes 4 commit_footer) (ground arith) in
        rw (cut, whole_payload)
          (short_footer (take q (to_le_bytes 4 commit_footer))
            (rw (length-take q (to_le_bytes 4 commit_footer) (ground arith)) (ground arith)))
  ]

  -- A frame of which only the first bytes are there.
  pub read-cut :
      (n : ℕ)
      → 0 < n
      → n < 88 + (length payload + 4)
      → (tail : TornWalTail) × (read_frame codec encryption offset previous
            (take n (assemble_commit_frame lsn previous (codec.checksum_bytes payload) payload))
          ≡ ok (torn tail))
        × (tail.offset ≡ offset)
  unfolding assemble_commit_frame
  read-cut n some_bytes h =
      let body = payload ++ to_le_bytes 4 commit_footer in
      let len_is =
        length-frame_header lsn previous (codec.checksum_bytes payload) (length payload)
          previous_len digest_len in
      elim (Bool-cases (ltb n 88)) [
        | inl in_header ↦
            let cut = take-append_left n header_bytes body (ground (arith, len_is)) in
            let is_n = length-take n header_bytes (ground (arith, len_is)) in
            rw cut
              (short_header (take n header_bytes) (rw is_n some_bytes) (rw is_n (ground arith)))
        | inr in_body ↦
            let cut = take-append_right n (n - 88) header_bytes body (ground (arith, len_is)) in
            rw (cut, whole_header) (cut_body (n - 88) (ground arith))
      ]
