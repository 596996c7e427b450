-- ===== src/Log/Bytes.antt =====
-- Lemmas on the integers and the header of a frame, for crates/tracedb-log/src/lib.rs.
use tracedb.Base.{
  ℕ, ◌<◌, ◌^◌, List, ◌++◌, ◌≡◌, arith, length, take, drop, take-append, drop-append_right,
  length-append, take_all,
}
use tracedb.Core.Features.{from_le_bytes}
use tracedb.Log.Frame.{to_le_bytes, frame_header, wal_magic, wal_format_version}
use tracedb.Log.Scan.{Header, parse_header}

pub from-to_le_bytes_4 : (n : ℕ) → n < 2 ^ 32 → from_le_bytes (to_le_bytes 4 n) ≡ n
unfolding from_le_bytes
from-to_le_bytes_4 n h = omega (arith, h)

pub from-to_le_bytes_8 : (n : ℕ) → n < 2 ^ 64 → from_le_bytes (to_le_bytes 8 n) ≡ n
unfolding from_le_bytes
from-to_le_bytes_8 n h = omega (arith, h)

-- What the header of a frame says.
abbrev pub header_of : ℕ → List ℕ → List ℕ → ℕ → Header
header_of lsn previous payload_checksum len = record {
  magic = wal_magic;
  version = wal_format_version;
  lsn = lsn;
  prev_checksum = previous;
  kind = 1;
  payload_len = len;
  payload_checksum = payload_checksum;
}

module _ (lsn : ℕ) (previous payload_checksum : List ℕ) (len : ℕ)
    (previous_len : length previous ≡ 32) (checksum_len : length payload_checksum ≡ 32) where
  abbrev after_previous : List ℕ
  after_previous = to_le_bytes 4 1 ++ (to_le_bytes 4 len ++ payload_checksum)

  pub length-frame_header : length (frame_header lsn previous payload_checksum len) ≡ 88
  unfolding frame_header
  length-frame_header =
      omega (arith, previous_len, checksum_len, length-append previous after_previous)

  previous_read : take 32 (drop 16 (frame_header lsn previous payload_checksum len)) ≡ previous
  unfolding frame_header
  previous_read = take-append 32 previous _ previous_len

  pub parse-frame_header :
      lsn < 2 ^ 64
      → len < 2 ^ 32
      → parse_header (frame_header lsn previous payload_checksum len)
        ≡ header_of lsn previous payload_checksum len
  unfolding parse_header frame_header from_le_bytes
  parse-frame_header small short =
      let kind_is : drop 32 (previous ++ after_previous) ≡ after_previous =
        drop-append_right 32 0 previous after_previous (omega (arith, previous_len)) in
      let len_is : drop 36 (previous ++ after_previous) ≡ drop 4 after_previous =
        drop-append_right 36 4 previous after_previous (omega (arith, previous_len)) in
      let checksum_is : drop 40 (previous ++ after_previous) ≡ drop 8 after_previous =
        drop-append_right 40 8 previous after_previous (omega (arith, previous_len)) in
      let previous_is : take 32 (previous ++ after_previous) ≡ previous =
        take-append 32 previous after_previous previous_len in
      let all_is : take 32 payload_checksum ≡ payload_checksum =
        take_all 32 payload_checksum (omega (arith, checksum_len)) in
      let lsn_is : from_le_bytes (to_le_bytes 8 lsn) ≡ lsn = from-to_le_bytes_8 lsn small in
      let payload_is : from_le_bytes (to_le_bytes 4 len) ≡ len = from-to_le_bytes_4 len short in
      simp (kind_is, len_is, checksum_is, previous_is, all_is, lsn_is, payload_is)
