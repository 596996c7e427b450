-- ===== src/Log/Rounds.antt =====
-- Lemmas on the rounds of `scan_file` of crates/tracedb-log/src/lib.rs.
use tracedb.Base.{
  ℕ, suc, ◌<◌, ◌≤◌, ◌+◌, ◌-◌, Option, none, some, List, [], ◌∷◌, ◌++◌, ◌≡◌, refl, ap, sym, ◌∙◌,
  arith, length, length-append, ok,
}
use mathlib.Core.List.{append_assoc, append-nil}
use tracedb.Log.Commit.{Codec, EncryptionContext}
use tracedb.Log.Scan.{
  WalEntry, TornWalTail, entry, torn, read_frame, last_checksum, scan_frames, scan_file,
}

module _ {V : Type 0} (codec : Codec V) (encryption : Option EncryptionContext) where
  -- One round of the loop.
  next_round :
      (fuel offset offset' : ℕ) (entries : List (WalEntry V)) (e : WalEntry V) (bytes rest : List ℕ)
      → read_frame codec encryption offset (last_checksum codec encryption entries) bytes
        ≡ ok (entry e rest)
      → offset' ≡ offset + (length bytes - length rest)
      → scan_frames codec encryption (suc fuel) offset entries bytes
        ≡ scan_frames codec encryption fuel offset' (entries ++ e ∷ []) rest
  unfolding scan_frames
  next_round fuel offset offset' entries e bytes rest reads is =
      rw (reads, scan_frames)
        (ap (λ o. scan_frames codec encryption fuel o (entries ++ e ∷ []) rest) (sym is))

  last_round :
      (fuel offset : ℕ) (entries : List (WalEntry V))
      → scan_frames codec encryption (suc fuel) offset entries []
        ≡ ok (record { entries = entries; torn_tail = none })
  unfolding scan_frames read_frame
  last_round fuel offset entries = refl

  torn_round :
      (fuel offset : ℕ) (entries : List (WalEntry V)) (bytes : List ℕ) (tail : TornWalTail)
      → read_frame codec encryption offset (last_checksum codec encryption entries) bytes
        ≡ ok (torn tail)
      → scan_frames codec encryption (suc fuel) offset entries bytes
        ≡ ok (record { entries = entries; torn_tail = some tail })
  unfolding scan_frames
  torn_round fuel offset entries bytes tail reads = rw (reads, scan_frames) refl

  -- The bytes scan to the entries, whatever follows them.
  pub record Scans (bytes : List ℕ) (entries : List (WalEntry V)) : Type 0 where
    pub goes_on :
        (total fuel : ℕ) (rest : List ℕ)
        → total ≡ length entries + fuel
        → scan_frames codec encryption total 0 [] (bytes ++ rest)
          ≡ scan_frames codec encryption fuel (length bytes) entries rest
    pub bounded : length entries ≤ length bytes

  pub empty-Scans : Scans [] []
  empty-Scans = record {
    goes_on = λ total fuel rest h.
        ap (λ n. scan_frames codec encryption n 0 [] rest) {x = total} {y = fuel}
          (omega (arith, h));
    bounded = omega arith;
  }

  pub append-Scans :
      (bytes frame : List ℕ) (entries : List (WalEntry V)) (e : WalEntry V)
      → 0 < length frame
      → Scans bytes entries
      → ((rest : List ℕ)
          → read_frame codec encryption
              (length bytes)
              (last_checksum codec encryption entries)
              (frame ++ rest)
            ≡ ok (entry e rest))
      → Scans (bytes ++ frame) (entries ++ e ∷ [])
  append-Scans bytes frame entries e long h reads = record {
    goes_on = λ total fuel rest is. rw (append_assoc bytes frame rest) (
        h.goes_on total (suc fuel) (frame ++ rest)
          (omega (arith, is, length-append entries (e ∷ [])))
        ∙ one_round fuel rest);
    bounded =
        omega (arith, h.bounded, long, length-append entries (e ∷ []), length-append bytes frame);
  }
    where
      one_round :
          (fuel : ℕ) (rest : List ℕ)
          → scan_frames codec encryption (suc fuel) (length bytes) entries (frame ++ rest)
            ≡ scan_frames codec encryption fuel (length (bytes ++ frame)) (entries ++ e ∷ []) rest
      one_round fuel rest =
          next_round fuel (length bytes) (length (bytes ++ frame)) entries e (frame ++ rest) rest
            (reads rest) (omega (arith, length-append frame rest, length-append bytes frame))

  pub Scans-scan_file :
      (bytes : List ℕ) (entries : List (WalEntry V))
      → Scans bytes entries
      → scan_file codec encryption bytes ≡ ok (record { entries = entries; torn_tail = none })
  unfolding scan_file
  Scans-scan_file bytes entries h =
      rw (append-nil bytes) at (
        h.goes_on (suc (length bytes)) (suc (length bytes - length entries)) []
          (omega (arith, h.bounded)))
      ∙ last_round (length bytes - length entries) (length bytes) entries

  pub Scans-cut :
      (bytes cut : List ℕ) (entries : List (WalEntry V)) (tail : TornWalTail)
      → Scans bytes entries
      → read_frame codec encryption (length bytes) (last_checksum codec encryption entries) cut
        ≡ ok (torn tail)
      → scan_file codec encryption (bytes ++ cut)
        ≡ ok (record { entries = entries; torn_tail = some tail })
  unfolding scan_file
  Scans-cut bytes cut entries tail h reads =
      h.goes_on (suc (length (bytes ++ cut))) (suc (length (bytes ++ cut) - length entries)) cut
        (omega (arith, h.bounded, length-append bytes cut))
      ∙ torn_round (length (bytes ++ cut) - length entries) (length bytes) entries cut tail reads
