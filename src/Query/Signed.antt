-- ===== src/Query/Signed.antt =====
-- crates/tracedb-query/src/lib.rs: which cursors are accepted where a signing key is set.
use tracedb.Base.{
  ℕ, ◌≤◌, Text, text_eq, text_eq_iff, starts_with, false, some, List, [], ◌∷◌, ◌++◌, is_empty, sym,
  ◌==◌, Bool-cases, inl, inr, ok, ok_or, ok_or-eq-ok, ok-injective, Result-cases, Gives, Gives-bind,
  Gives-check, Gives-ok, as_bytes, ◌≡◌, ◌∙◌, refl, ap, arith,
}
use tracedb.Core.Types.{Epoch}
use tracedb.Query.Cursor.{
  CursorHost, CursorScope, CursorState, SignedCursorPayload, cursor_version, cursor_token_prefix,
  in_front, split, token_parts, cursor_signing_key, decode_signed_cursor,
  validate_signed_cursor_payload, resolve_cursor_state, signature_of,
}
use tracedb.Query.Token.{token_of}

join_dot : List Text → Text
join_dot [] = []
join_dot (part ∷ []) = part
join_dot (part ∷ (next ∷ parts)) = part ++ (b'.' ∷ join_dot (next ∷ parts))

join-in_front : (c : ℕ) (parts : List Text) → join_dot (in_front c parts) ≡ c ∷ join_dot parts
unfolding join_dot
join-in_front c [] = refl
join-in_front c (part ∷ []) = refl
join-in_front c (part ∷ (next ∷ parts)) = refl

split_some : (s : Text) → is_empty (split b'.' s) ≡ false
unfolding split
split_some [] = refl
split_some (c ∷ s) = elim (Bool-cases (c == b'.')) [
  | inl dot ↦ rw dot refl
  | inr other ↦ rw other (in_front_some c (split b'.' s))
]
  where
    in_front_some : (c : ℕ) (parts : List Text) → is_empty (in_front c parts) ≡ false
    in_front_some c [] = refl
    in_front_some c (part ∷ parts) = refl

join-nil :
    (parts : List Text) → is_empty parts ≡ false → join_dot ([] ∷ parts) ≡ b'.' ∷ join_dot parts
unfolding join_dot
join-nil [] h = cc
join-nil (part ∷ parts) h = refl

join-split : (s : Text) → join_dot (split b'.' s) ≡ s
unfolding split join_dot
join-split [] = refl
join-split (c ∷ s) = elim (Bool-cases (c == b'.')) [
  | inl dot ↦
      let is : c ≡ b'.' = ground arith in
      rw dot (rw (join-nil (split b'.' s) (split_some s), join-split s) (rw is refl))
  | inr other ↦ rw other (rw (join-in_front c (split b'.' s), join-split s) refl)
]

join-token_parts :
    (parts : List Text) (payload signature : Text)
    → token_parts parts ≡ ok (payload, signature)
    → join_dot parts ≡ token_of payload signature
unfolding join_dot
join-token_parts [] payload signature h = cc
join-token_parts (a ∷ []) payload signature h = cc
join-token_parts (a ∷ b ∷ []) payload signature h = cc
join-token_parts (a ∷ b ∷ c ∷ []) payload signature h =
    ground (arith, text_eq_iff a cursor_token_prefix)
join-token_parts (a ∷ b ∷ c ∷ d ∷ parts) payload signature h = cc

token_parts-eq :
    (token payload signature : Text)
    → token_parts (split b'.' token) ≡ ok (payload, signature)
    → token ≡ token_of payload signature
token_parts-eq token payload signature h =
    sym (join-split token) ∙ join-token_parts (split b'.' token) payload signature h

-- A cursor that is accepted was signed with the key, for this very request, and is not late.
pub record IsSigned (host : CursorHost) (key : List ℕ) (scope : CursorScope) (now : ℕ)
    (token : Text) (state : CursorState) : Type 0 where
  pub payload : Text
  pub signature : Text
  pub mac : List ℕ
  pub bytes : List ℕ
  pub expires_at : ℕ
  pub is_token : token ≡ token_of payload signature
  pub is_mac : host.hmac_sha256 key (as_bytes payload) ≡ some mac
  pub is_signature : host.url_safe_decode signature ≡ some mac
  pub is_payload : host.url_safe_decode payload ≡ some bytes
  pub is_for :
      host.payload_from_slice bytes
      ≡ ok (record {
        version = cursor_version;
        kind = scope.kind;
        tenant_id = scope.tenant_id;
        database_id = scope.database_id;
        branch_id = scope.branch_id;
        actor_digest = scope.actor_digest;
        query_digest = scope.query_digest;
        snapshot_epoch = state.snapshot_epoch;
        limit = scope.limit;
        order_key = scope.order_key;
        offset = state.offset;
        expires_at = expires_at;
      })
  pub timely : now ≤ expires_at

validated :
    (scope : CursorScope) (p : SignedCursorPayload) (now : ℕ)
    → validate_signed_cursor_payload scope p now ≡ ok tt
    → (p ≡ record {
      version = cursor_version;
      kind = scope.kind;
      tenant_id = scope.tenant_id;
      database_id = scope.database_id;
      branch_id = scope.branch_id;
      actor_digest = scope.actor_digest;
      query_digest = scope.query_digest;
      snapshot_epoch = p.snapshot_epoch;
      limit = scope.limit;
      order_key = scope.order_key;
      offset = p.offset;
      expires_at = p.expires_at;
    })
      × (now ≤ p.expires_at)
unfolding validate_signed_cursor_payload
validated scope p now h = (
  ground (
    arith,
    text_eq_iff p.kind scope.kind,
    text_eq_iff p.tenant_id scope.tenant_id,
    text_eq_iff p.database_id scope.database_id,
    text_eq_iff p.branch_id scope.branch_id,
    text_eq_iff p.actor_digest scope.actor_digest,
    text_eq_iff p.query_digest scope.query_digest,
    text_eq_iff p.order_key scope.order_key,
  ),
  ground arith,
)

module _ (host : CursorHost) (key : List ℕ) (keyed : cursor_signing_key host ≡ ok (some key))
    (scope : CursorScope) (now : ℕ) where
  -- What is read from a token was signed.
  abbrev ReadAt : Text → SignedCursorPayload → Type 0
  ReadAt token p =
      IsSigned host key scope now token
        (record { offset = p.offset; snapshot_epoch = p.snapshot_epoch })

  decode-IsSigned :
      (token : Text) → Gives (ReadAt token) (decode_signed_cursor host scope token now)
  unfolding decode_signed_cursor
  decode-IsSigned token = rw keyed (
      Gives-bind (ReadAt token) (token_parts (split b'.' token)) _ λ parts split_ok.
        Gives-bind (ReadAt token) (ok_or (host.url_safe_decode parts.1) _) _ λ signature decoded.
          Gives-bind (ReadAt token) (signature_of host key parts.0) _ λ mac made.
            Gives-check (ReadAt token) (text_eq signature mac) _ _ λ equal.
              Gives-bind (ReadAt token) (ok_or (host.url_safe_decode parts.0) _) _ λ bytes opened.
                Gives-bind (ReadAt token) (host.payload_from_slice bytes) _ λ p parsed.
                  Gives-bind (ReadAt token) (validate_signed_cursor_payload scope p now) _
                    λ _ valid. record {
                      payload = parts.0;
                      signature = parts.1;
                      mac = mac;
                      bytes = bytes;
                      expires_at = p.expires_at;
                      is_token = token_parts-eq token parts.0 parts.1 split_ok;
                      is_mac = ok_or-eq-ok (host.hmac_sha256 key (as_bytes parts.0)) _ made;
                      is_signature =
                          ok_or-eq-ok (host.url_safe_decode parts.1) _ decoded
                          ∙ ap some ((text_eq_iff signature mac).0 equal);
                      is_payload = ok_or-eq-ok (host.url_safe_decode parts.0) _ opened;
                      is_for = parsed ∙ ap ok (validated scope p now valid).0;
                      timely = (validated scope p now valid).1;
                    })

  -- Where a signing key is set, a cursor that is accepted for a request is a token of the payload and
  -- the signature, the signature is the MAC of the payload under the key, and the payload is one of
  -- this very request (its kind, tenant, database, branch, actor, query, page limit and order), with
  -- the offset and the epoch that are used, that has not expired.
  pub resolve_cursor_state-IsSigned :
      (cursor : Text) (latest : Epoch) (state : CursorState)
      → resolve_cursor_state host scope (some cursor) latest now ≡ ok state
      → IsSigned host key scope now cursor state
  unfolding resolve_cursor_state
  resolve_cursor_state-IsSigned cursor latest state h =
      elim (Bool-cases (starts_with cursor cursor_token_prefix)) [
        | inl prefixed ↦ elim (Result-cases (decode_signed_cursor host scope cursor now)) [
          | inl (e, refused) ↦ absurd (cc (rw (prefixed, refused) at h))
          | inr (p, read) ↦
              let is : record { offset = p.offset; snapshot_epoch = p.snapshot_epoch } ≡ state =
                ok-injective _ _ (rw (prefixed, read) at h) in
              rw is at (Gives-ok (ReadAt cursor) _ p (decode-IsSigned cursor) read)
        ]
        | inr other ↦ absurd (cc (rw (other, keyed) at h))
      ]
