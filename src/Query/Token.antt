-- ===== src/Query/Token.antt =====
-- crates/tracedb-query/src/lib.rs: signed cursors that are written and read back.
use tracedb.Base.{
  ℕ, ◌+◌, ◌-◌, ◌^◌, ◌≤◌, min, Text, text_eq_refl, starts_with, Bool, true, false, some, List, [],
  ◌∷◌, ◌++◌, any, ◌==◌, ok, as_bytes, ◌≡◌, ◌∙◌, refl, ap, arith,
}
use tracedb.Core.Types.{Epoch}
use tracedb.Query.Cursor.{
  CursorHost, CursorScope, SignedCursorPayload, cursor_token_prefix, cursor_ttl_secs, split,
  cursor_signing_key, encode_signed_cursor, decode_signed_cursor, signed_payload,
  encode_next_cursor, validate_signed_cursor_payload, resolve_cursor_state, signature_of,
}

abbrev pub has_dot : Text → Bool
has_dot s = any (λ c. c == b'.') s

split-dotless : (s : Text) → has_dot s ≡ false → split b'.' s ≡ s ∷ []
unfolding split
split-dotless [] h = refl
split-dotless (c ∷ s) h = ground (arith, split-dotless s)

split-append :
    (s rest : Text) → has_dot s ≡ false → split b'.' (s ++ (b'.' ∷ rest)) ≡ s ∷ split b'.' rest
unfolding split
split-append [] rest h = refl
split-append (c ∷ s) rest h = ground (arith, split-append s rest)

starts_with-append : (s t : Text) → starts_with (s ++ t) s ≡ true
unfolding starts_with
starts_with-append [] [] = refl
starts_with-append [] (c ∷ t) = refl
starts_with-append (c ∷ s) t = ground (arith, starts_with-append s t)

-- A signing key is set; the documented behaviour of hmac, base64 and serde_json is that a MAC takes
-- any key, that what is encoded decodes, and that the alphabet of the encoding has no dot.
pub record Signs (host : CursorHost) (key : List ℕ) : Type 0 where
  pub keyed : cursor_signing_key host ≡ ok (some key)
  pub macs : (message : List ℕ) → (mac : List ℕ) × (host.hmac_sha256 key message ≡ some mac)
  pub decodes : (bytes : List ℕ) → host.url_safe_decode (host.url_safe_encode bytes) ≡ some bytes
  pub dotless : (bytes : List ℕ) → has_dot (host.url_safe_encode bytes) ≡ false
  pub parses :
      (p : SignedCursorPayload)
      → (bytes : List ℕ) × (host.payload_to_vec p ≡ ok bytes)
        × (host.payload_from_slice bytes ≡ ok p)

abbrev pub token_of : Text → Text → Text
token_of payload signature = cursor_token_prefix ++ (b'.' ∷ (payload ++ (b'.' ∷ signature)))

split-token_of :
    (payload signature : Text)
    → has_dot payload ≡ false
    → has_dot signature ≡ false
    → split b'.' (token_of payload signature) ≡ cursor_token_prefix ∷ payload ∷ signature ∷ []
split-token_of payload signature p s =
    split-append cursor_token_prefix (payload ++ (b'.' ∷ signature)) refl
    ∙ ap (λ (parts : List Text). cursor_token_prefix ∷ parts)
        (split-append payload signature p
          ∙ ap (λ (parts : List Text). payload ∷ parts) (split-dotless signature s))

module _ (host : CursorHost) (key : List ℕ) (signs : Signs host key) where
  -- A payload is written to a token, which is read back wherever the payload is valid.
  encode-decode :
      (p : SignedCursorPayload)
      → (token : Text) × (encode_signed_cursor host p ≡ ok token)
        × (starts_with token cursor_token_prefix ≡ true)
        × ((scope : CursorScope) (now : ℕ)
            → validate_signed_cursor_payload scope p now ≡ ok tt
            → decode_signed_cursor host scope token now ≡ ok p)
  unfolding encode_signed_cursor decode_signed_cursor
  encode-decode p =
      let (bytes, written, parsed) = signs.parses p in
      let payload = host.url_safe_encode bytes in
      let (mac, made) = signs.macs (as_bytes payload) in
      let signature = host.url_safe_encode mac in
      (
        token_of payload signature,
        rw (signs.keyed, written) (rw (made, signature_of) refl),
        starts_with-append cursor_token_prefix _,
        λ scope now valid.
            rw
              (
                signs.keyed,
                split-token_of payload signature (signs.dotless bytes) (signs.dotless mac),
              )
              (rw (text_eq_refl cursor_token_prefix) (
                rw (signs.decodes mac, made, signature_of)
                  (rw (text_eq_refl mac, signs.decodes bytes) (rw parsed (rw valid refl))))),
      )

  -- The payload of a scope, within its time.
  signed_payload-valid :
      (scope : CursorScope) (offset : ℕ) (epoch : Epoch) (now later : ℕ)
      → later ≤ min (now + cursor_ttl_secs host) (2 ^ 64 - 1)
      → validate_signed_cursor_payload scope (signed_payload host scope offset epoch now) later
        ≡ ok tt
  unfolding validate_signed_cursor_payload signed_payload
  signed_payload-valid scope offset epoch now later fresh = ground (
    arith,
    text_eq_refl scope.kind,
    text_eq_refl scope.tenant_id,
    text_eq_refl scope.database_id,
    text_eq_refl scope.branch_id,
    text_eq_refl scope.actor_digest,
    text_eq_refl scope.query_digest,
    text_eq_refl scope.order_key,
  )

  -- The cursor that a page gives leads any later request of the same scope, within its time, to the
  -- offset and the epoch that it was made for.
  pub encode_next_cursor-resolves :
      (scope : CursorScope) (offset : ℕ) (epoch : Epoch) (now : ℕ)
      → (token : Text) × (encode_next_cursor host scope offset epoch now ≡ ok token)
        × ((latest : Epoch) (later : ℕ)
            → later ≤ min (now + cursor_ttl_secs host) (2 ^ 64 - 1)
            → resolve_cursor_state host scope (some token) latest later
              ≡ ok (record { offset = offset; snapshot_epoch = epoch }))
  unfolding encode_next_cursor resolve_cursor_state
  encode_next_cursor-resolves scope offset epoch now =
      let p = signed_payload host scope offset epoch now in
      let (token, written, prefixed, read) = encode-decode p in
      (
        token,
        rw signs.keyed written,
        λ latest later fresh. rw prefixed (
            rw (read scope later (signed_payload-valid scope offset epoch now later fresh))
              (unfold signed_payload in refl)),
      )
