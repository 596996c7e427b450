-- ===== src/Query/Tests.antt =====
-- A table of two rows that is read in pages of one, while a third row is written.
use tracedb.Base.{
  ℕ, ◌+◌, ◌-◌, ◌≤◌, Text, codes, Option, none, some, List, [], ◌∷◌, ◌++◌, ◌≡◌, refl, ap, sym, arith,
  map, take, drop, take-append, drop-append, length, any, false, Result, ok,
}
use tracedb.Core.Types.{TableSchema}
use tracedb.Policy.Oracle.{ActorContext, tenant_user}
use tracedb.Log.Commit.{zero_checksum}
use tracedb.Store.Sample.{Value, values, text}
use tracedb.Store.Record.{StoredRecord, record_key}
use tracedb.Engine.State.{TraceDb, empty_manifest}
use tracedb.Jobs.Catalog.{default_catalog}
use tracedb.Query.Cursor.{
  CursorHost, SignedCursorPayload, RecordScanRequest, CursorScope, cursor_scope_for_scan,
  cursor_signing_key, set, not_present, encode_next_cursor,
}
use tracedb.Query.Token.{Signs, has_dot, encode_next_cursor-resolves}
use tracedb.Query.Signed.{IsSigned, resolve_cursor_state-IsSigned}
use tracedb.Query.Reads.{RecordOutput, rows}
use tracedb.Query.Paging.{Visit, read_pages, read_pages-records, Shows}

-- An encoding of payloads: each text after its length.
abbrev put_text : Text → List ℕ → List ℕ
put_text t rest = length t ∷ (t ++ rest)

abbrev read_text : List ℕ → Text × List ℕ
read_text [] = ([], [])
read_text (n ∷ s) = (take n s, drop n s)

abbrev read_number : List ℕ → ℕ × List ℕ
read_number [] = (0, [])
read_number (n ∷ s) = (n, s)

abbrev to_vec : SignedCursorPayload → List ℕ
to_vec p =
    p.version
    ∷ p.snapshot_epoch
    ∷ p.limit
    ∷ p.offset
    ∷ p.expires_at
    ∷ put_text p.kind (
        put_text p.tenant_id (
          put_text p.database_id (
            put_text p.branch_id
              (put_text p.actor_digest (put_text p.query_digest (put_text p.order_key []))))))

take-put_text : (t rest : Text) → take (length t) (t ++ rest) ≡ t
take-put_text t rest = take-append (length t) t rest refl

drop-put_text : (t rest : Text) → drop (length t) (t ++ rest) ≡ rest
drop-put_text t rest = drop-append (length t) t rest refl

abbrev read_texts : ℕ → ℕ → ℕ → ℕ → ℕ → List ℕ → SignedCursorPayload
read_texts version epoch limit offset expires_at s =
    let kind = read_text s in
    let tenant_id = read_text kind.1 in
    let database_id = read_text tenant_id.1 in
    let branch_id = read_text database_id.1 in
    let actor_digest = read_text branch_id.1 in
    let query_digest = read_text actor_digest.1 in
    let order_key = read_text query_digest.1 in
    record {
      version = version;
      kind = kind.0;
      tenant_id = tenant_id.0;
      database_id = database_id.0;
      branch_id = branch_id.0;
      actor_digest = actor_digest.0;
      query_digest = query_digest.0;
      snapshot_epoch = epoch;
      limit = limit;
      order_key = order_key.0;
      offset = offset;
      expires_at = expires_at;
    }

abbrev from_slice : List ℕ → SignedCursorPayload
from_slice (version ∷ epoch ∷ limit ∷ offset ∷ expires_at ∷ s) =
    read_texts version epoch limit offset expires_at s
from_slice s = read_texts 0 0 0 0 0 s

from-to : (p : SignedCursorPayload) → from_slice (to_vec p) ≡ p
from-to p = simp (take-put_text, drop-put_text)

abbrev shifted : List ℕ → Text
shifted bytes = map (λ b. b + 47) bytes

abbrev back : Text → List ℕ
back t = map (λ c. c - 47) t

back-shifted : (bytes : List ℕ) → back (shifted bytes) ≡ bytes
back-shifted [] = refl
back-shifted (b ∷ bytes) =
    let here : b + 47 - 47 ≡ b = omega arith in rw (here, back-shifted bytes) refl

shifted_dotless : (bytes : List ℕ) → has_dot (shifted bytes) ≡ false
shifted_dotless [] = refl
shifted_dotless (b ∷ bytes) = ground (arith, shifted_dotless bytes)

abbrev host : CursorHost
host = record {
  signing_key_var = set (codes "key");
  ttl_var = not_present;
  base64_decode = λ t. some zero_checksum;
  url_safe_encode = shifted;
  url_safe_decode = λ t. some (back t);
  payload_to_vec = λ p. ok (to_vec p);
  payload_from_slice = λ bytes. ok (from_slice bytes);
  hmac_sha256 = λ key message. some (key ++ message);
  sha256 = λ bytes. bytes;
  actor_json = λ actor. actor.tenant_id;
  scan_json = λ table tenant_id. table ++ (0 ∷ tenant_id);
}

signs : Signs host zero_checksum
unfolding cursor_signing_key tracedb.Base.trim tracedb.Base.is_whitespace
signs = record {
  keyed = refl;
  macs = λ message. (zero_checksum ++ message, refl);
  decodes = λ bytes. rw (back-shifted bytes) refl;
  dotless = shifted_dotless;
  parses = λ p. (to_vec p, refl, rw (from-to p) refl);
}

abbrev notes : TableSchema
notes = record {
  name = codes "t";
  primary_id_column = codes "i";
  tenant_id_column = codes "u";
  scalar_columns = codes "b" ∷ [];
  text_indexed_columns = [];
  vector_columns = [];
}

abbrev row : ℕ → ℕ → StoredRecord Value
row id epoch = record {
  header = record {
    record_id = id ∷ [];
    table_id = codes "t";
    tenant_id = codes "u";
    schema_version = 1;
    begin_epoch = epoch;
    end_epoch = none;
    version_id = 1;
    tombstone = none;
  };
  fields = (codes "b", text (codes "x")) ∷ [];
  features = [];
}

abbrev at_key : StoredRecord Value → Text × List (StoredRecord Value)
at_key r = (record_key (codes "t") (codes "u") r.header.record_id, r ∷ [])

abbrev before : TraceDb Value
before = record {
  manifest = record (empty_manifest (codes "db")) { latest_epoch = 3; schemas = notes ∷ [] };
  store = record { versions = at_key (row 97 2) ∷ at_key (row 99 3) ∷ [] };
  log = [];
  idempotency_receipts = [];
  job_catalog = default_catalog;
}

-- A row was written in between.
abbrev after : TraceDb Value
after = record before {
  manifest = record before.manifest { latest_epoch = 4 };
  store = record { versions = at_key (row 97 2) ∷ at_key (row 98 4) ∷ at_key (row 99 3) ∷ [] };
}

abbrev actor : ActorContext
actor = tenant_user (codes "u") (codes "me")

abbrev request : RecordScanRequest
request = record { table = codes "t"; tenant_id = codes "u"; limit = 1; cursor = none }

abbrev records : List (RecordOutput Value)
records = rows before (codes "t") (codes "u") 3

abbrev first : Visit Value
first = record { db = before; now = 5 }

abbrev second : Visit Value
second = record { db = after; now = 9 }

shows : Shows host actor (codes "t") (codes "u") 3 records (first ∷ second ∷ [])
unfolding rows tracedb.Store.Replay.find_table tracedb.Base.text_eq
    tracedb.Store.Read.visible_records_at tracedb.Store.Read.sort_by_id record_key
    tracedb.Base.starts_with tracedb.Store.Read.visible_record_at tracedb.Base.text_cmp
shows = (refl, refl, (refl, refl, tt))

two : length records ≡ 2
unfolding rows tracedb.Store.Read.visible_records_at tracedb.Store.Read.sort_by_id record_key
    tracedb.Base.starts_with tracedb.Store.Read.visible_record_at tracedb.Base.text_cmp
two = refl

read_pages-records_example :
    read_pages host actor (record request { cursor = none }) (first ∷ second ∷ [])
    ≡ ok (records, none)
unfolding tracedb.Query.Cursor.cursor_ttl_secs
read_pages-records_example =
    read_pages-records host zero_checksum signs actor request 3 refl (omega arith) records first
      (second ∷ []) refl shows (omega arith, tt) (omega (arith, two))

abbrev scope : CursorScope
scope = cursor_scope_for_scan host actor request 1

abbrev token : Text
token = (encode_next_cursor-resolves host zero_checksum signs scope 1 3 5).0

resolve_cursor_state-IsSigned_example :
    IsSigned host zero_checksum scope 9 token (record { offset = 1; snapshot_epoch = 3 })
unfolding tracedb.Query.Cursor.cursor_ttl_secs
resolve_cursor_state-IsSigned_example =
    resolve_cursor_state-IsSigned host zero_checksum signs.keyed scope 9 token 4
      (record { offset = 1; snapshot_epoch = 3 })
      ((encode_next_cursor-resolves host zero_checksum signs scope 1 3 5).2 4 9 (omega arith))
