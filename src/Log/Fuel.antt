-- ===== src/Log/Fuel.antt =====
-- The fuel of `scan_file` of crates/tracedb-log/src/lib.rs.
use tracedb.Base.{
  ℕ, zero, drop, take, suc, ◌<◌, ◌≤◌, ◌+◌, ◌-◌, Option, List, [], ◌∷◌, ◌++◌, ◌≡◌, refl, arith,
  length, ok, Result, Result-cases, Bool-cases, ltb, ◌==◌, false, ◌>>=◌, inl, inr,
}
use tracedb.Core.Error.{TraceDbError}
use tracedb.Log.Commit.{Codec, EncryptionContext}
use tracedb.Log.Scan.{
  Header, Read, read_footer, read_payload, parse_header, check_header, WalEntry, TornWalTail, entry,
  torn, end_of_file, read_frame, last_checksum, scan_frames,
}

module _ {A : Type 0} where
  length-drop_le : (n : ℕ) (xs : List A) → length (drop n xs) ≤ length xs
  length-drop_le zero xs = omega arith
  length-drop_le (suc n) [] = omega arith
  length-drop_le (suc n) (x ∷ xs) = omega (arith, length-drop_le n xs)

  length-drop_lt : (xs : List A) → 0 < length xs → length (drop 88 xs) < length xs
  length-drop_lt [] h = absurd (omega (arith, h))
  length-drop_lt (x ∷ xs) h = omega (arith, length-drop_le 87 xs)

module _ {V : Type 0} (codec : Codec V) (encryption : Option EncryptionContext) where
  footer_rest :
      (offset : ℕ) (h : Header) (payload bytes rest : List ℕ) {e : WalEntry V}
      → read_footer codec encryption offset h payload bytes ≡ ok (entry e rest)
      → length rest ≤ length bytes
  unfolding read_footer
  footer_rest offset h payload bytes rest {e} p = ground (arith, length-drop_le 4 bytes)

  payload_rest :
      (offset : ℕ) (h : Header) (bytes rest : List ℕ) {e : WalEntry V}
      → read_payload codec encryption offset h bytes ≡ ok (entry e rest)
      → length rest ≤ length bytes
  unfolding read_payload
  payload_rest offset h bytes rest {e} p = ground (
    arith,
    length-drop_le h.payload_len bytes,
    footer_rest offset h (take h.payload_len bytes) (drop h.payload_len bytes) rest {e = e},
  )

  torn_entry :
      {t : TornWalTail} {e : WalEntry V} {rest : List ℕ}
      → ◌≡◌ {A = Result TraceDbError (Read V)} (ok (torn t)) (ok (entry e rest))
      → ⊥
  torn_entry p = cc

  -- What a check let pass.
  bind_ok :
      {A B : Type 0} (checked : Result TraceDbError A) (next : A → Result TraceDbError B) {b : B}
      → (checked >>= next) ≡ ok b
      → (a : A) × (checked ≡ ok a) × (next a ≡ ok b)
  bind_ok checked next p = elim (Result-cases checked) [
    | inl (e, q) ↦ absurd (ground arith)
    | inr (a, q) ↦ (a, q, ground arith)
  ]

  frame_rest :
      (offset : ℕ) (expected bytes rest : List ℕ) {e : WalEntry V}
      → read_frame codec encryption offset expected bytes ≡ ok (entry e rest)
      → length rest < length bytes
  unfolding read_frame
  frame_rest offset expected [] rest {e} p = absurd (ground arith)
  frame_rest offset expected (b ∷ bytes) rest {e} p =
      let shorter : length (drop 88 (b ∷ bytes)) < length (b ∷ bytes) =
        omega (arith, length-drop_le 87 bytes) in
      let nonempty : (suc (length (take 87 bytes)) == 0) ≡ false = ground arith in
      let q = rw nonempty at p in
      elim (Bool-cases (ltb (length (take 88 (b ∷ bytes))) 88)) [
        | inl short ↦ absurd (torn_entry (rw short at q))
        | inr long ↦
            let (x, _, read) =
              bind_ok (check_header (parse_header (take 88 (b ∷ bytes))) expected)
                (λ _.
                  read_payload codec encryption offset (parse_header (take 88 (b ∷ bytes)))
                    (drop 88 (b ∷ bytes)))
                (rw long at q) in
            omega (
              arith,
              shorter,
              payload_rest offset (parse_header (take 88 (b ∷ bytes))) (drop 88 (b ∷ bytes)) rest
                  {e = e} read,
            )
      ]

  -- On any bytes, any fuel above their length gives the scan that one unit more gives: the loop of the
  -- scan ends by itself.
  pub scan_frames-fuel :
      (fuel offset : ℕ) (entries : List (WalEntry V)) (bytes : List ℕ)
      → length bytes < fuel
      → scan_frames codec encryption fuel offset entries bytes
        ≡ scan_frames codec encryption (suc fuel) offset entries bytes
  unfolding scan_frames
  scan_frames-fuel zero offset entries bytes h = absurd (omega (arith, h))
  scan_frames-fuel (suc fuel) offset entries bytes h =
      elim (Result-cases
        (read_frame codec encryption offset (last_checksum codec encryption entries) bytes)) [
          | inl (e, p) ↦ rw (p, scan_frames) refl
          | inr (end_of_file, p) ↦ rw (p, scan_frames) refl
          | inr (torn t, p) ↦ rw (p, scan_frames) refl
          | inr (entry e rest, p) ↦
              rw (p, scan_frames)
                (scan_frames-fuel fuel (offset + (length bytes - length rest)) (entries ++ e ∷ [])
                  rest
                  (omega (
                    arith,
                    h,
                    frame_rest offset (last_checksum codec encryption entries) bytes rest p,
                  )))
        ]
