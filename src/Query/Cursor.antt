-- ===== src/Query/Cursor.antt =====
-- crates/tracedb-query/src/lib.rs and crates/tracedb-core/src/lib.rs: the cursors of paged reads. A
-- cursor is an offset, or, where a signing key is set, a signed token with an offset, an epoch and the
-- scope of the request.
use tracedb.Base.{
  ℕ, ◌+◌, ◌-◌, ◌*◌, ◌/◌, ◌%◌, ◌^◌, min, Text, codes, text_eq, trim, starts_with, is_whitespace,
  as_bytes, decimal, not, ◌&&◌, Option, none, some, List, [], ◌∷◌, ◌++◌, length, is_empty, any, leb,
  ltb, ◌==◌, if◌then◌else◌, is_none, Result, ok, err, ok_or, ensure, ◌>>=◌, ◌>>◌,
}
use tracedb.Core.Error.{TraceDbError, invalid_command}
use tracedb.Core.Types.{Epoch}
use tracedb.Policy.Oracle.{ActorContext}

-- `env::var(..)`, with what its error prints.
pub data EnvVar : Type 0 where
  set : Text → EnvVar
  not_present : EnvVar
  not_unicode : Text → EnvVar

pub record CursorScope : Type 0 where
  pub kind : Text
  pub tenant_id : Text
  pub database_id : Text
  pub branch_id : Text
  pub actor_digest : Text
  pub query_digest : Text
  pub limit : ℕ
  pub order_key : Text

pub record CursorState : Type 0 where
  pub offset : ℕ
  pub snapshot_epoch : Epoch

pub record SignedCursorPayload : Type 0 where
  pub version : ℕ
  pub kind : Text
  pub tenant_id : Text
  pub database_id : Text
  pub branch_id : Text
  pub actor_digest : Text
  pub query_digest : Text
  pub snapshot_epoch : Epoch
  pub limit : ℕ
  pub order_key : Text
  pub offset : ℕ
  pub expires_at : ℕ

pub record RecordScanRequest : Type 0 where
  pub table : Text
  pub tenant_id : Text
  pub limit : ℕ
  pub cursor : Option Text

-- The environment, serde_json, base64, sha2 and hmac. `actor_json` and `scan_json` print the objects
-- whose digests stand in a scope; `hmac_sha256` takes a key and a message, and may refuse the key.
pub record CursorHost : Type 0 where
  pub signing_key_var : EnvVar
  pub ttl_var : EnvVar
  pub base64_decode : Text → Option (List ℕ)
  pub url_safe_encode : List ℕ → Text
  pub url_safe_decode : Text → Option (List ℕ)
  pub payload_to_vec : SignedCursorPayload → Result TraceDbError (List ℕ)
  pub payload_from_slice : List ℕ → Result TraceDbError SignedCursorPayload
  pub hmac_sha256 : List ℕ → List ℕ → Option (List ℕ)
  pub sha256 : List ℕ → List ℕ
  pub actor_json : ActorContext → Text
  pub scan_json : Text → Text → Text

abbrev pub cursor_token_prefix : Text
cursor_token_prefix = codes "tdbc1"

abbrev pub cursor_version : ℕ
cursor_version = 1

abbrev pub default_cursor_ttl_secs : ℕ
default_cursor_ttl_secs = 3600

abbrev pub invalid_cursor : Text → TraceDbError
invalid_cursor reason = invalid_command (codes "invalid cursor: " ++ reason)

-- `{byte:02x}`.
abbrev hex_digit : ℕ → ℕ
hex_digit d = if ltb d 10 then 48 + d else 87 + d

unfoldable pub hex_bytes : List ℕ → Text
hex_bytes [] = []
hex_bytes (b ∷ bytes) = hex_digit (b / 16) ∷ hex_digit (b % 16) ∷ hex_bytes bytes

unfoldable pub stable_body_hash : CursorHost → List ℕ → Text
stable_body_hash host bytes = codes "sha256:" ++ hex_bytes (host.sha256 bytes)

-- `parse::<usize>()` and `parse::<u64>()`: digits after at most one `+`, below 2 ^ 64.
unfoldable pub parse_digits : ℕ → Text → Option ℕ
parse_digits acc [] = some acc
parse_digits acc (c ∷ s) =
    let rest = parse_digits (acc * 10 + (c - 48)) s in if leb 48 c && leb c 57 then rest else none

abbrev pub without_plus : Text → Text
without_plus [] = []
without_plus (c ∷ s) = if c == b'+' then s else c ∷ s

unfoldable pub parse_u64 : Text → Option ℕ
parse_u64 s = if is_empty (without_plus s) then none else elim (parse_digits 0 (without_plus s)) [
  | none ↦ none
  | some n ↦ if ltb n (2 ^ 64) then some n else none
]

unfoldable pub parse_legacy_cursor_offset : Option Text → Result TraceDbError ℕ
parse_legacy_cursor_offset none = ok 0
parse_legacy_cursor_offset (some value) =
    if is_empty (trim value)
    then err (invalid_command (codes "cursor must be a non-empty offset"))
    else ok_or (parse_u64 value) (invalid_command (codes "invalid cursor offset: " ++ value))

abbrev pub signing_key_name : Text
signing_key_name = codes "TRACEDB_CURSOR_SIGNING_KEY_B64"

unfoldable pub cursor_signing_key : CursorHost → Result TraceDbError (Option (List ℕ))
cursor_signing_key host = elim host.signing_key_var [
  | not_present ↦ ok none
  | not_unicode e ↦
      err (invalid_command (codes "failed to read " ++ (signing_key_name ++ (codes ": " ++ e))))
  | set value ↦ if is_empty (trim value) then ok none else (do
    ensure (not (any is_whitespace value))
        (invalid_command (signing_key_name ++ codes " must be strict base64 without whitespace"))
    decoded ←
        ok_or (host.base64_decode value)
          (invalid_command (signing_key_name ++ codes " must be strict base64"))
    ensure (length decoded == 32) (
        invalid_command (
          signing_key_name
          ++ (codes " must decode to exactly 32 bytes, got " ++ decimal (length decoded))))
    ok (some decoded))
]

-- A time to live that is not set, does not parse or is 0 is the default.
unfoldable pub cursor_ttl_secs : CursorHost → ℕ
cursor_ttl_secs host = elim host.ttl_var [
  | not_present ↦ default_cursor_ttl_secs
  | not_unicode _ ↦ default_cursor_ttl_secs
  | set value ↦ elim (parse_u64 value) [
    | none ↦ default_cursor_ttl_secs
    | some secs ↦ if ltb 0 secs then secs else default_cursor_ttl_secs
  ]
]

unfoldable pub cursor_actor_digest : CursorHost → ActorContext → Text
cursor_actor_digest host actor = stable_body_hash host (as_bytes (host.actor_json actor))

unfoldable pub cursor_scope_for_scan :
    CursorHost → ActorContext → RecordScanRequest → ℕ → CursorScope
cursor_scope_for_scan host actor request limit = record {
  kind = codes "scan";
  tenant_id = request.tenant_id;
  database_id = actor.database_id;
  branch_id = actor.branch_id;
  actor_digest = cursor_actor_digest host actor;
  query_digest = stable_body_hash host (as_bytes (host.scan_json request.table request.tenant_id));
  limit = limit;
  order_key = codes "record_id_asc";
}

-- The HMAC of a message under the key.
abbrev pub signature_of : CursorHost → List ℕ → Text → Result TraceDbError (List ℕ)
signature_of host key message =
    ok_or (host.hmac_sha256 key (as_bytes message))
      (invalid_command (codes "invalid cursor signing key"))

unfoldable pub encode_signed_cursor : CursorHost → SignedCursorPayload → Result TraceDbError Text
encode_signed_cursor host payload = do
  found ← cursor_signing_key host
  key ← ok_or found (invalid_command (signing_key_name ++ codes " is required"))
  payload_json ← host.payload_to_vec payload
  let payload_b64 = host.url_safe_encode payload_json
  signature ← signature_of host key payload_b64
  ok (cursor_token_prefix ++ (b'.' ∷ (payload_b64 ++ (b'.' ∷ host.url_safe_encode signature))))

unfoldable pub signed_payload : CursorHost → CursorScope → ℕ → Epoch → ℕ → SignedCursorPayload
signed_payload host scope offset snapshot_epoch now = record {
  version = cursor_version;
  kind = scope.kind;
  tenant_id = scope.tenant_id;
  database_id = scope.database_id;
  branch_id = scope.branch_id;
  actor_digest = scope.actor_digest;
  query_digest = scope.query_digest;
  snapshot_epoch = snapshot_epoch;
  limit = scope.limit;
  order_key = scope.order_key;
  offset = offset;
  expires_at = min (now + cursor_ttl_secs host) (2 ^ 64 - 1);
}

-- `now` is `now_unix_secs()`.
unfoldable pub encode_next_cursor :
    CursorHost → CursorScope → ℕ → Epoch → ℕ → Result TraceDbError Text
encode_next_cursor host scope offset snapshot_epoch now = do
  key ← cursor_signing_key host
  if is_none key
      then ok (decimal offset)
      else encode_signed_cursor host (signed_payload host scope offset snapshot_epoch now)

unfoldable pub validate_signed_cursor_payload :
    CursorScope → SignedCursorPayload → ℕ → Result TraceDbError Unit
validate_signed_cursor_payload scope payload now = do
  ensure (payload.version == cursor_version) (invalid_cursor (codes "unsupported version"))
  ensure (leb now payload.expires_at) (invalid_cursor (codes "expired"))
  ensure (text_eq payload.kind scope.kind) (invalid_cursor (codes "kind mismatch"))
  ensure (text_eq payload.tenant_id scope.tenant_id) (invalid_cursor (codes "tenant mismatch"))
  ensure (text_eq payload.database_id scope.database_id)
      (invalid_cursor (codes "database mismatch"))
  ensure (text_eq payload.branch_id scope.branch_id) (invalid_cursor (codes "branch mismatch"))
  ensure (text_eq payload.actor_digest scope.actor_digest) (invalid_cursor (codes "actor mismatch"))
  ensure (text_eq payload.query_digest scope.query_digest) (invalid_cursor (codes "query mismatch"))
  ensure (payload.limit == scope.limit) (invalid_cursor (codes "limit mismatch"))
  ensure (text_eq payload.order_key scope.order_key) (invalid_cursor (codes "ordering mismatch"))

-- `split(c)`.
abbrev pub in_front : ℕ → List Text → List Text
in_front c [] = (c ∷ []) ∷ []
in_front c (part ∷ parts) = (c ∷ part) ∷ parts

unfoldable pub split : ℕ → Text → List Text
split separator [] = [] ∷ []
split separator (c ∷ s) =
    let rest = split separator s in if c == separator then [] ∷ rest else in_front c rest

-- The payload and the signature of a token of three parts.
abbrev pub token_parts : List Text → Result TraceDbError (Text × Text)
token_parts (prefix ∷ payload_b64 ∷ signature_b64 ∷ []) =
    if text_eq prefix cursor_token_prefix
    then ok (payload_b64, signature_b64)
    else err (invalid_cursor (codes "malformed token"))
token_parts _ = err (invalid_cursor (codes "malformed token"))

unfoldable pub decode_signed_cursor :
    CursorHost → CursorScope → Text → ℕ → Result TraceDbError SignedCursorPayload
decode_signed_cursor host scope token now = do
  found ← cursor_signing_key host
  key ← ok_or found (invalid_command (signing_key_name ++ codes " is required to verify cursor"))
  parts ← token_parts (split b'.' token)
  signature ← ok_or (host.url_safe_decode parts.1) (invalid_cursor (codes "malformed signature"))
  expected ← signature_of host key parts.0
  ensure (text_eq signature expected) (invalid_cursor (codes "signature mismatch"))
  payload_bytes ← ok_or (host.url_safe_decode parts.0) (invalid_cursor (codes "malformed payload"))
  payload ← host.payload_from_slice payload_bytes
  validate_signed_cursor_payload scope payload now
  ok payload

unfoldable pub resolve_cursor_state :
    CursorHost → CursorScope → Option Text → Epoch → ℕ → Result TraceDbError CursorState
resolve_cursor_state host scope none latest_epoch now =
    ok (record { offset = 0; snapshot_epoch = latest_epoch })
resolve_cursor_state host scope (some cursor) latest_epoch now =
    if starts_with cursor cursor_token_prefix
    then (do
      payload ← decode_signed_cursor host scope cursor now
      ok (record { offset = payload.offset; snapshot_epoch = payload.snapshot_epoch }))
    else (do
      key ← cursor_signing_key host
      ensure (is_none key) (invalid_cursor (codes "signed cursor token is required"))
      offset ← parse_legacy_cursor_offset (some cursor)
      ok (record { offset = offset; snapshot_epoch = latest_epoch }))
